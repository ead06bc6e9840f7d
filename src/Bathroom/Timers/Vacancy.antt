-- ===== src/Bathroom/Timers/Vacancy.antt =====
-- The vacant time of project3/bathroom.c against the time for which nobody is inside.
use cs3013_operating_systems.Prelude.{
  ℕ, ◌-◌, ◌*◌, ◌≤◌, ◌≡◌, ◌≢◌, refl, sym, ap, ◌∙◌, Bool, true, false, Option, none, some, List,
  sub_ℕ, Difference-unique, arith, Option-cases, inl, inr, subst,
}
use cs3013_operating_systems.Bathroom.Monitor.{Gender, Bathroom, leave}
use cs3013_operating_systems.Bathroom.Statistics.{timeval_at}
use cs3013_operating_systems.Bathroom.System.Counts.{leave-empties, leave-stays, resume-counts}
use cs3013_operating_systems.Bathroom.Timers.{
  Timed, Visit, initialize_timed, enter_timed, resume_timed, leave_with, visit,
}
use cs3013_operating_systems.Bathroom.Timers.Watch.{
  Watch, look, Watched, Agrees, enter_taken, taken_Agrees, taken_Difference, end_vacancy-Difference,
}

entered_Agrees :
    (t : Timed) (w : Watch) (now : ℕ) (g : Gender)
    → Agrees t w
    → w.last ≤ now
    → Agrees (enter_timed (timeval_at now) g t) (look now t.room.flag w)
unfolding enter_timed
entered_Agrees t w now g a h =
    taken_Agrees _ _ a.since a.vacstart (end_vacancy-Difference t w now t.room.flag a h refl)
      (enter_taken g t.room)

look_taken :
    (now : ℕ) (f : Option Gender) (g : Gender) (w : Watch)
    → f ≡ some g
    → look now f w ≡ record w { last = now }
look_taken now f g w e = ap (λ f. look now f w) e

resumed_Agrees :
    (users : ℕ) (t : Timed) (w : Watch) (now : ℕ) (g : Gender)
    → Agrees t w
    → w.last ≤ now
    → t.room.flag ≢ none
    → Agrees (resume_timed users g t) (look now t.room.flag w)
unfolding resume_timed
resumed_Agrees users t w now g a h taken = elim (Option-cases t.room.flag) [
  | inl vacant ↦ absurd (taken vacant)
  | inr (g', e) ↦ subst (Agrees _) (sym (look_taken now t.room.flag g' w e)) (
      taken_Agrees _ _ a.since a.vacstart (taken_Difference t w g' a e)
        (λ f. let now_set = (resume-counts users g t.room).0 in cc))
]

-- The last one leaves, and one of several.
emptied_Agrees :
    (t : Timed) (w : Watch) (now : ℕ) (g : Gender)
    → Agrees t w
    → t.room.flag ≡ some g
    → Agrees
        (record t { room = record t.room { flag = none; users = 0 }; vacstart = timeval_at now })
        (record w { last = now })
emptied_Agrees t w now g a e = record {
  since = now;
  vacstart = refl;
  counted = w.vacancy;
  turned = w.turns;
  vacanttime = taken_Difference t w g a e;
  taken = λ g h. cc;
  vacant = λ h. (omega arith, omega arith, omega arith);
  empty = λ h. refl;
}

thinned_Agrees :
    (t : Timed) (w : Watch) (now k : ℕ) (g : Gender)
    → Agrees t w
    → t.room.flag ≡ some g
    → Agrees (record t { room = record t.room { users = k } }) (record w { last = now })
thinned_Agrees t w now k g a e =
    taken_Agrees _ _ a.since a.vacstart (taken_Difference t w g a e) (λ h. cc)

some-injective : {x y : Timed} → some x ≡ some y → x ≡ y
some-injective e = cc

left_Agrees :
    (t t' : Timed) (w : Watch) (now : ℕ) (o : Option (Bool × Bathroom))
    → Agrees t w
    → leave t.room ≡ o
    → leave_with (timeval_at now) t o ≡ some t'
    → Agrees t' (look now t.room.flag w)
unfolding leave_with
left_Agrees t t' w now none a run e = cc
left_Agrees t t' w now (some (true, b)) a run e = elim (Option-cases t.room.flag) [
  | inl vacant ↦ absurd (omega (arith, a.empty vacant, (leave-empties t.room b run).0))
  | inr (g, set) ↦
      (let left : record t {
        room = record t.room { flag = none; users = 0 };
        vacstart = timeval_at now;
      }
            ≡ t' =
          ap (λ (r : Bathroom). record t { room = r; vacstart = timeval_at now })
            (sym (leave-empties t.room b run).1)
          ∙ some-injective e in
        rw (look_taken now t.room.flag g w set)
          (subst (λ u. Agrees u (record w { last = now })) left (emptied_Agrees t w now g a set)))
]
left_Agrees t t' w now (some (false, b)) a run e = elim (Option-cases t.room.flag) [
  | inl vacant ↦ absurd (omega (arith, a.empty vacant, (leave-stays t.room b run).0))
  | inr (g, set) ↦
      (let left : record t { room = record t.room { users = t.room.users - 1 } } ≡ t' =
          ap (λ (r : Bathroom). record t { room = r }) (sym (leave-stays t.room b run).1)
          ∙ some-injective e in
        rw (look_taken now t.room.flag g w set) (
          subst (λ u. Agrees u (record w { last = now })) left
            (thinned_Agrees t w now (t.room.users - 1) g a set)))
]

visit-Agrees :
    (users : ℕ) (t t' : Timed) (w : Watch) (now : ℕ) (v : Visit)
    → Agrees t w
    → w.last ≤ now
    → ((g : Gender) → v ≡ Visit.resumes g → t.room.flag ≢ none)
    → visit users (timeval_at now) v t ≡ some t'
    → Agrees t' (look now t.room.flag w)
unfolding visit
visit-Agrees users t t' w now (Visit.enters g) a h allowed e =
    subst (λ u. Agrees u (look now t.room.flag w)) (cc) (entered_Agrees t w now g a h)
visit-Agrees users t t' w now (Visit.resumes g) a h allowed e =
    subst (λ u. Agrees u (look now t.room.flag w)) (cc)
      (resumed_Agrees users t w now g a h (allowed g refl))
visit-Agrees users t t' w now Visit.leaves a h allowed e =
    left_Agrees t t' w now (leave t.room) a refl e

Watched-Agrees :
    {users : ℕ} {t u : Timed} {w w' : Watch} {vs : List (ℕ × Visit)}
    → Watched users t w vs u w'
    → Agrees t w
    → Agrees u w'
Watched-Agrees Watched.over a = a
Watched-Agrees {users} {t} {u} {w} (Watched.next {t'} now v h allowed e more) a =
    Watched-Agrees more (visit-Agrees users t t' w now v a h allowed e)

abbrev pub watch_from : ℕ → Watch
watch_from begin = record { last = begin; vacancy = 0; turns = 0 }

start_Agrees :
    (users begin : ℕ) → Agrees (initialize_timed users (timeval_at begin)) (watch_from begin)
start_Agrees users begin = record {
  since = begin;
  vacstart = refl;
  counted = 0;
  turned = 0;
  vacanttime = omega arith;
  taken = λ g h. cc;
  vacant = λ h. (omega arith, omega arith, omega arith);
  empty = λ h. refl;
}

-- Where no thread that waited finds the bathroom vacant, and somebody is inside in the end, `vacanttime`
-- is the number of microseconds for which nobody was inside, less a million for each full second that the
-- clock turned over meanwhile.
pub vacanttime-vacancy :
    (users begin : ℕ) (vs : List (ℕ × Visit)) (t : Timed) (w : Watch)
    → Watched users (initialize_timed users (timeval_at begin)) (watch_from begin) vs t w
    → t.room.flag ≢ none
    → t.vacanttime ≡ sub_ℕ w.vacancy (1000000 * w.turns)
vacanttime-vacancy users begin vs t w watched taken =
    let a = Watched-Agrees watched (start_Agrees users begin) in
    elim (Option-cases t.room.flag) [
      | inl vacant ↦ absurd (taken vacant)
      | inr (g, set) ↦ sym (
          Difference-unique t.vacanttime w.vacancy (1000000 * w.turns)
            (taken_Difference t w g a set))
    ]
