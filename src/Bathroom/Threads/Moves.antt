-- ===== src/Bathroom/Threads/Moves.antt =====
-- The cases of a turn of project3/bathroomsim.c as steps of the monitor's system.
use cs3013_operating_systems.Prelude.{
  ℕ, ◌≡◌, refl, ap, Bool, true, false, some, map, set, get_elem?, arith, sym,
}
use cs3013_operating_systems.Bathroom.Monitor.{Gender, Bathroom, enter, resume, leave}
use cs3013_operating_systems.Bathroom.System.{System, Step}
use cs3013_operating_systems.Bathroom.Threads.{Position, Thread, Simulation, wake}
use cs3013_operating_systems.Bathroom.Threads.Places.{
  number, is_inside, is_waiting, is_woken, sum_at, take_one, number-Takes, number-append, same_one,
  moved, at_place, inside-wake, waiting-wake, woken-wake,
}

-- A state of the system has the room of the simulation, and at each place as many threads of each gender.
pub record Represents (sys : System) (s : Simulation) : Type 0 where
  pub room : sys.room ≡ s.room
  pub inside : (g : Gender) → number g sys.inside ≡ sum_at (is_inside g) s.threads
  pub waiting : (g : Gender) → number g sys.waiting ≡ sum_at (is_waiting g) s.threads
  pub woken : (g : Gender) → number g sys.woken ≡ sum_at (is_woken g) s.threads

-- A state of the system after a step.
abbrev pub Next : ℕ → System → Simulation → Type 0
Next n sys s = (sys' : System) × Step n sys sys' × Represents sys' s

module _ {n : ℕ} (i : ℕ) (t : Thread) {sys : System} {s : Simulation} (r : Represents sys s)
    (own : get_elem? s.threads i ≡ some t) where
  pub enters-Next :
      t.place ≡ Position.outside
      → (b : Bathroom) → enter t.gender s.room ≡ (false, b)
      → Next n sys (record {
        room = b;
        threads = set s.threads i (record t { place = Position.inside false });
      })
  enters-Next at_p b e = (
    _,
    Step.enters t.gender b (rw r.room e),
    record {
      room = refl;
      inside = λ g. omega (arith, r.inside g, moved (is_inside g) s.threads i t _ _ own at_p);
      waiting = λ g. omega (arith, r.waiting g, moved (is_waiting g) s.threads i t _ _ own at_p);
      woken = λ g. omega (arith, r.woken g, moved (is_woken g) s.threads i t _ _ own at_p);
    },
  )

  pub waits-Next :
      t.place ≡ Position.outside
      → (b : Bathroom) → enter t.gender s.room ≡ (true, b)
      → Next n sys
          (record { room = b; threads = set s.threads i (record t { place = Position.waiting }) })
  waits-Next at_p b e = (
    _,
    Step.waits t.gender b (rw r.room e),
    record {
      room = refl;
      inside = λ g. omega (arith, r.inside g, moved (is_inside g) s.threads i t _ _ own at_p);
      waiting = λ g. omega (arith, r.waiting g, moved (is_waiting g) s.threads i t _ _ own at_p);
      woken = λ g. omega (arith, r.woken g, moved (is_woken g) s.threads i t _ _ own at_p);
    },
  )

  pub wakes-Next :
      t.place ≡ Position.waiting
      → Next n sys (record s { threads = set s.threads i (record t { place = Position.woken }) })
  wakes-Next at_p =
      let stands = at_place (is_waiting t.gender) s.threads i t _ own at_p in
      let (rest, takes) =
        take_one t.gender sys.waiting
          (omega (arith, stands, r.waiting t.gender, same_one t.gender)) in
      (
        _,
        Step.wakes t.gender rest takes,
        record {
          room = r.room;
          inside = λ g. omega (arith, r.inside g, moved (is_inside g) s.threads i t _ _ own at_p);
          waiting = λ g. omega (
            arith,
            r.waiting g,
            number-Takes g takes,
            moved (is_waiting g) s.threads i t (record t { place = Position.woken }) _ own at_p,
          );
          woken = λ g. omega (arith, r.woken g, moved (is_woken g) s.threads i t _ _ own at_p);
        },
      )

  pub resumes-Next :
      t.place ≡ Position.woken
      → Next n sys (record {
        room = resume n t.gender s.room;
        threads = set s.threads i (record t { place = Position.inside true });
      })
  resumes-Next at_p =
      let stands = at_place (is_woken t.gender) s.threads i t _ own at_p in
      let (rest, takes) =
        take_one t.gender sys.woken (omega (arith, stands, r.woken t.gender, same_one t.gender)) in
      (
        _,
        Step.resumes t.gender rest takes,
        record {
          room = ap (resume n t.gender) r.room;
          inside = λ g. omega (arith, r.inside g, moved (is_inside g) s.threads i t _ _ own at_p);
          waiting =
              λ g. omega (arith, r.waiting g, moved (is_waiting g) s.threads i t _ _ own at_p);
          woken = λ g. omega (
            arith,
            r.woken g,
            number-Takes g takes,
            moved (is_woken g) s.threads i t (record t { place = Position.inside true }) _ own at_p,
          );
        },
      )

  -- A thread that leaves, and does not wake the others.
  pub leaves-Next :
      (waited : Bool) (t' : Thread) (b : Bathroom)
      → t.place ≡ Position.inside waited
      → t'.place ≡ Position.outside
      → leave s.room ≡ some (false, b)
      → Next n sys (record { room = b; threads = set s.threads i t' })
  leaves-Next waited t' b at_p out e =
      let stands = at_place (is_inside t.gender) s.threads i t _ own at_p in
      let (rest, takes) =
        take_one t.gender sys.inside
          (omega (arith, stands, r.inside t.gender, same_one t.gender)) in
      let gone = λ (part : Gender → Position → ℕ). ap (part t'.gender) out in
      (
        _,
        Step.leaves t.gender rest b takes (rw r.room e),
        record {
          room = refl;
          inside = λ g. omega (
            arith,
            r.inside g,
            number-Takes g takes,
            gone (is_inside g),
            moved (is_inside g) s.threads i t t' _ own at_p,
          );
          waiting = λ g. omega (
            arith,
            r.waiting g,
            gone (is_waiting g),
            moved (is_waiting g) s.threads i t t' _ own at_p,
          );
          woken = λ g.
              omega (
                arith,
                r.woken g,
                gone (is_woken g),
                moved (is_woken g) s.threads i t t' _ own at_p,
              );
        },
      )

  -- A thread that leaves as the last one.
  pub leaves_last-Next :
      (waited : Bool) (t' : Thread) (b : Bathroom)
      → t.place ≡ Position.inside waited
      → t'.place ≡ Position.outside
      → leave s.room ≡ some (true, b)
      → Next n sys (record { room = b; threads = map wake (set s.threads i t') })
  leaves_last-Next waited t' b at_p out e =
      let stands = at_place (is_inside t.gender) s.threads i t _ own at_p in
      let (rest, takes) =
        take_one t.gender sys.inside
          (omega (arith, stands, r.inside t.gender, same_one t.gender)) in
      let gone = λ (part : Gender → Position → ℕ). ap (part t'.gender) out in
      (
        _,
        Step.leaves_last t.gender rest b takes (rw r.room e),
        record {
          room = refl;
          inside = λ g. omega (
            arith,
            r.inside g,
            number-Takes g takes,
            gone (is_inside g),
            moved (is_inside g) s.threads i t t' _ own at_p,
            inside-wake g (set s.threads i t'),
          );
          waiting = λ g. sym (waiting-wake g (set s.threads i t'));
          woken = λ g. omega (
            arith,
            number-append g sys.waiting sys.woken,
            r.waiting g,
            r.woken g,
            gone (is_waiting g),
            gone (is_woken g),
            woken-wake g (set s.threads i t'),
            moved (is_waiting g) s.threads i t t' _ own at_p,
            moved (is_woken g) s.threads i t t' _ own at_p,
          );
        },
      )
