-- ===== src/Commander/Children/Tracked.antt =====
-- The background queue of project1/mc2.c against the children that the shell has.
use cs3013_operating_systems.Prelude.{
  ℕ, ◌+◌, ◌≤◌, ◌≡◌, ◌≢◌, refl, ◌∙◌, sym, ap, subst, ◌↔◌, inl, inr, some, Bool, true, false, List,
  ◌∷◌, length, ◌==◌, if◌then◌else◌, arith, ℕ_discrete, replicate, All-get_elem?, All-replicate,
}
use cs3013_operating_systems.Commander.Queue.{max_back, add_running}
use cs3013_operating_systems.Commander.Queue.Laws.{In}
use cs3013_operating_systems.Commander.Queue.Tasks.{remove_background-Others}
use cs3013_operating_systems.Commander.Shell.{Shell, Input, Action, Round, main_round}
use cs3013_operating_systems.Commander.Children.{
  Family, World, Gone, children, Polled, After, nothing, awaited, other_awaited, kept, refused,
  world,
}
use cs3013_operating_systems.Commander.Children.Effects.{
  Queued, same, runs, starts, refuses, RoundQueue, main_round-RoundQueue,
}
use cs3013_operating_systems.Commander.Children.Counts.{
  times-Gone, children-Polled, Reaped-In, Reaped-length, add_running-In, Queued-length, round-size,
}

-- The queue holds the child, and there is no more than one of its pid.
abbrev Lists : List ℕ → Family → ℕ → Type 0
Lists running f p = (In p running ↔ (children p f ≡ 1)) × (children p f ≤ 1)

pub record IsTracked (w : World) : Type 0 where
  pub size : length w.shell.running ≡ max_back
  pub listed : (p : ℕ) → p ≢ 0 → Lists w.shell.running w.family p

polled-Lists :
    (r q : ℕ) (f f' : Family) (running before : List ℕ)
    → q ≢ 0
    → (In q before ↔ (In q running × (q ≢ r)))
    → children q f ≡ (if q == r then 1 else 0) + children q f'
    → Lists running f q
    → Lists before f' q
polled-Lists r q f f' running before nz queue count (listed, once) = elim (ℕ_discrete q r) [
  | yes eq ↦
      (let none_left : children q f' ≡ 0 = ground (arith, eq, count, once) in
        (
          (λ held. absurd ((queue.0 held).1 eq), λ one. absurd (omega (arith, one, none_left))),
          omega (arith, none_left),
        ))
  | no ne ↦
      (let equal : children q f ≡ children q f' = ground (arith, ne, count) in
        (
          (
            λ held. sym equal ∙ listed.0 (queue.0 held).0,
            λ one. queue.1 (listed.1 (equal ∙ one), ne),
          ),
          omega (arith, equal, once),
        ))
]

-- A command that is run is awaited, and no child is turned away by a full queue.
abbrev pub is_calm : {pid : ℕ} {acts : List Action} {f f' : Family} → After pid acts f f' → Bool
is_calm (nothing inert) = true
is_calm (awaited args) = true
is_calm (other_awaited args q g) = false
is_calm (kept index) = true
is_calm refused = false

-- A child that is new, beside the others.
fresh_Lists :
    (pid index q : ℕ) (f : Family) (before after : List ℕ)
    → q ≢ 0
    → children pid f ≡ 0
    → add_running pid before ≡ (some index, after)
    → Lists before f q
    → Lists after (record f { alive = pid ∷ f.alive }) q
fresh_Lists pid index q f before after nz fresh e (listed, once) =
    let queue = add_running-In pid index q before after nz e in
    elim (ℕ_discrete q pid) [
      | yes own ↦
          (let none_yet : children q f ≡ 0 = ap (λ p. children p f) own ∙ fresh in
            (
              (λ held. ground (arith, own, none_yet), λ one. queue.1 (inr own)),
              ground (arith, own, none_yet),
            ))
      | no ne ↦ (
        (
          λ held. elim (queue.0 held) [
            | inl old ↦ ground (arith, ne, listed.0 old)
            | inr own ↦ absurd (ne own)
          ],
          λ one. queue.1 (inl (listed.1 (ground (arith, ne, one)))),
        ),
        ground (arith, ne, once),
      )
    ]

After-Lists :
    {pid : ℕ} {acts : List Action} {f f' : Family} {before after : List ℕ} (q : ℕ)
    (a : After pid acts f f')
    → is_calm a ≡ true
    → q ≢ 0
    → children pid f ≡ 0
    → Queued pid before acts after
    → Lists before f q
    → Lists after f' q
After-Lists q (nothing inert) calm nz fresh (same inert') l = l
After-Lists q (nothing inert) calm nz fresh (runs args) l = absurd inert
After-Lists q (nothing inert) calm nz fresh (starts index number own e) l = absurd inert
After-Lists q (nothing inert) calm nz fresh (refuses e) l = absurd inert
After-Lists q (awaited args) calm nz fresh (same inert) l = absurd inert
After-Lists q (awaited args) calm nz fresh (runs args') l = l
After-Lists q (other_awaited args p g) calm nz fresh queued l = cc
After-Lists q (kept number) calm nz fresh (same inert) l = absurd inert
After-Lists {pid} {acts} {f} {f'} {before} {after} q (kept number) calm nz fresh
      (starts index number' own r) l =
    fresh_Lists pid index q f before after nz fresh r l
After-Lists q refused calm nz fresh queued l = cc

-- The children and the queue through a round.
round_Lists :
    (i : Input) (running out : List ℕ) (acts : List Action) (w f f' : Family) (q : ℕ)
    → q ≢ 0
    → length running ≡ max_back
    → Polled i.reaped w f
    → children i.forked f ≡ 0
    → RoundQueue i running acts out
    → (a : After i.forked acts f f') → is_calm a ≡ true
    → Lists running w q
    → Lists out f' q
round_Lists i running out acts w f f' q nz size polled fresh r a calm l =
    let (listed, once) = After-Lists q a calm nz fresh r.queued (
      polled-Lists i.reaped q w f running r.before nz (Reaped-In q nz size r.reaped)
        (children-Polled q nz polled) l) in
    let full_size : length r.after ≡ max_back =
      Queued-length r.queued ∙ Reaped-length r.reaped ∙ size in
    let queue = remove_background-Others 0 q r.after out nz full_size r.closed in
    ((λ held. listed.0 (queue.0 held).0, λ one. queue.1 (listed.1 one, nz)), once)

-- A run of the shell in which every command that is run is awaited and no child is turned away.
pub data Calm : World → World → Type 0 where
  still : {w : World} → Calm w w
  ends_one :
      {w u : World} (p : ℕ) (rest : List ℕ)
      → Gone p u.family.alive rest
      → Calm w u
      → Calm w (record u { family = record { alive = rest; ended = p ∷ u.family.ended } })
  one_round :
      {w u : World} (i : Input) (s' : Shell) (acts : List Action) (f f' : Family)
      → Polled i.reaped u.family f
      → i.forked ≢ 0
      → children i.forked f ≡ 0
      → main_round i u.shell ≡ Round.round true s' acts
      → (a : After i.forked acts f f') → is_calm a ≡ true
      → Calm w u
      → Calm w (record { shell = s'; family = f' })

Calm-IsTracked : {w u : World} → Calm w u → IsTracked w → IsTracked u
Calm-IsTracked still t = t
Calm-IsTracked (ends_one {w} {u} p rest g c) t =
    let before = Calm-IsTracked c t in
    record {
      size = before.size;
      listed = λ q nz.
          subst (λ n. (In q u.shell.running ↔ (n ≡ 1)) × (n ≤ 1)) (omega (arith, times-Gone q g))
            (before.listed q nz);
    }
Calm-IsTracked (one_round {w} {u} i s' acts f f' polled nz fresh run a calm c) t =
    let before = Calm-IsTracked c t in
    let r = main_round-RoundQueue i u.shell s' acts run in
    record {
      size = round-size i u.shell.running s'.running acts r ∙ before.size;
      listed = λ q nzq.
          round_Lists i u.shell.running s'.running acts u.family f f' q nzq before.size polled fresh
            r a calm (before.listed q nzq);
    }

empty_queue : (p : ℕ) (n : ℕ) → In p (replicate n 0) → p ≡ 0
empty_queue p n (i, at) =
    All-get_elem? (λ q. q ≡ 0) (replicate n 0) i p (All-replicate (λ q. q ≡ 0) n 0 refl) at

world-IsTracked : IsTracked world
world-IsTracked = record {
  size = refl;
  listed = λ p nz. (
    (λ held. absurd (nz (empty_queue p max_back held)), λ one. absurd (omega arith)),
    omega arith,
  );
}

-- From its start on, the queue of the shell holds the pids of the children that run or have ended and
-- were not waited for, and no other, and no two children have the same pid, as long as every command that
-- is run is awaited and no child is turned away by a full queue.
pub reachable-IsTracked : {w : World} → Calm world w → IsTracked w
reachable-IsTracked c = Calm-IsTracked c world-IsTracked
