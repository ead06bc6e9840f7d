-- ===== src/Bathroom/Timers/Watch.antt =====
-- The vacant time of project3/bathroom.c beside what somebody sees at the door.
use cs3013_operating_systems.Prelude.{
  ℕ, ◌+◌, ◌-◌, ◌*◌, ◌/◌, ◌%◌, ◌≤◌, ◌≡◌, ◌≢◌, refl, sym, ap, ◌∙◌, Option, none, some, List, [], ◌∷◌,
  sub_ℕ, add_ℤ, Difference, sub_ℕ-Difference, add_ℤ-Difference, shift_Difference, arith, inl, inr,
}
use cs3013_operating_systems.Bathroom.Monitor.{Gender, Bathroom, enter}
use cs3013_operating_systems.Bathroom.Statistics.{timeval_at}
use cs3013_operating_systems.Bathroom.System.Counts.{enter_cases, admit-counts, queue_up-counts}
use cs3013_operating_systems.Bathroom.Timers.{Timed, Visit, end_vacancy, visit}

-- What somebody sees who looks at the door: the time of the last visit, the microseconds for which nobody
-- was inside, and the full seconds that the clock turned over meanwhile.
pub record Watch : Type 0 where
  pub last : ℕ
  pub vacancy : ℕ
  pub turns : ℕ

-- The time from the last visit to this one, by the flag between them.
abbrev pub look : ℕ → Option Gender → Watch → Watch
look now none w = record {
  last = now;
  vacancy = w.vacancy + (now - w.last);
  turns = w.turns + (now / 1000000 - w.last / 1000000);
}
look now (some g) w = record w { last = now }

-- A run of the timed monitor beside the watch, in which no time is before the last and no thread that
-- waited finds the bathroom vacant.
pub data Watched (users : ℕ) : Timed → Watch → List (ℕ × Visit) → Timed → Watch → Type 0 where
  over : {t : Timed} {w : Watch} → Watched users t w [] t w
  next :
      {t t' u : Timed} {w w' : Watch} {vs : List (ℕ × Visit)} (now : ℕ) (v : Visit)
      → w.last ≤ now
      → ((g : Gender) → v ≡ Visit.resumes g → t.room.flag ≢ none)
      → visit users (timeval_at now) v t ≡ some t'
      → Watched users t' (look now t.room.flag w) vs u w'
      → Watched users t w ((now, v) ∷ vs) u w'

-- While nobody is inside, the vacancy since `vacstart` is still to be added.
pub record Agrees (t : Timed) (w : Watch) : Type 0 where
  pub since : ℕ
  pub vacstart : t.vacstart ≡ timeval_at since
  pub counted : ℕ
  pub turned : ℕ
  pub vacanttime : Difference t.vacanttime counted (1000000 * turned)
  pub taken : (g : Gender) → t.room.flag ≡ some g → (w.vacancy ≡ counted) × (w.turns ≡ turned)
  pub vacant :
      t.room.flag ≡ none
      → (since ≤ w.last)
        × (w.vacancy ≡ counted + (w.last - since))
        × (w.turns ≡ turned + (w.last / 1000000 - since / 1000000))
  pub empty : t.room.flag ≡ none → t.room.users ≡ 0

pub enter_taken : (g : Gender) (b : Bathroom) → (enter g b).1.flag ≢ none
enter_taken g b e = elim (enter_cases g b) [
  | inl in_now ↦
      (let flag : (enter g b).1.flag ≡ some g = ap (λ r. r.1.flag) in_now ∙ (admit-counts g b).0 in
        cc)
  | inr (queued, taken) ↦ taken (sym (ap (λ r. r.1.flag) queued ∙ (queue_up-counts b).0) ∙ e)
]

-- A state in which somebody is inside.
pub taken_Agrees :
    (t : Timed) (w : Watch) (since : ℕ)
    → t.vacstart ≡ timeval_at since
    → Difference t.vacanttime w.vacancy (1000000 * w.turns)
    → t.room.flag ≢ none
    → Agrees t w
taken_Agrees t w since e d taken = record {
  since = since;
  vacstart = e;
  counted = w.vacancy;
  turned = w.turns;
  vacanttime = d;
  taken = λ g h. (refl, refl);
  vacant = λ h. absurd (taken h);
  empty = λ h. absurd (taken h);
}

-- Where the flag is set, the watch has counted as much.
pub taken_Difference :
    (t : Timed) (w : Watch) (g : Gender)
    → Agrees t w
    → t.room.flag ≡ some g
    → Difference t.vacanttime w.vacancy (1000000 * w.turns)
taken_Difference t w g a e =
    let (vacancy, turns) = a.taken g e in
    shift_Difference t.vacanttime a.counted (1000000 * a.turned) w.vacancy (1000000 * w.turns)
      (omega (arith, vacancy, turns)) a.vacanttime

pub end_vacancy-Difference :
    (t : Timed) (w : Watch) (now : ℕ) (f : Option Gender)
    → Agrees t w
    → w.last ≤ now
    → t.room.flag ≡ f
    → Difference
        (end_vacancy (timeval_at now) f t)
        (look now f w).vacancy
        (1000000 * (look now f w).turns)
unfolding end_vacancy
end_vacancy-Difference t w now (some g) a h e = taken_Difference t w g a e
end_vacancy-Difference t w now none a h e =
    let (before, vacancy, turns) = a.vacant e in
    let usec : t.vacstart.tv_usec ≡ a.since % 1000000 = ap (λ v. v.tv_usec) a.vacstart in
    let part : Difference (sub_ℕ (now % 1000000) t.vacstart.tv_usec) (now % 1000000)
        (a.since % 1000000) =
      rw usec (sub_ℕ-Difference (now % 1000000) (a.since % 1000000)) in
    shift_Difference (add_ℤ t.vacanttime (sub_ℕ (now % 1000000) t.vacstart.tv_usec)) _ _ _ _
      (omega (arith, before, vacancy, turns, h))
      (add_ℤ-Difference t.vacanttime (sub_ℕ (now % 1000000) t.vacstart.tv_usec) _ _ _ _ a.vacanttime
        part)
