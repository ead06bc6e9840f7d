-- ===== src/Bathroom/Statistics/Tests.antt =====
-- The statistics of project3/bathroom.c with whole numbers for `double`.
use cs3013_operating_systems.Prelude.{ℕ, ◌+◌, ◌≡◌, refl, some, [], ◌∷◌, ℤ, pos, add_ℤ, sub_ℕ}
use cs3013_operating_systems.Bathroom.Monitor.{male, initialize, admit, enter}
use cs3013_operating_systems.Bathroom.System.{System, start, Step, Steps, stay, step}
use cs3013_operating_systems.Bathroom.Statistics.{
  Double, Statistics, timeval_at, frequencies, finalize,
}
use cs3013_operating_systems.Bathroom.Statistics.Totals.{
  entries_used, finalize-runtime, frequencies_fall_short,
}

abbrev whole : Double ℤ
whole = record { of_int = λ z. z; add = add_ℤ; sub = λ x y. x; mul = λ x y. x; divide = λ x y. x }

-- Two threads of three are inside.
abbrev two_inside : System
two_inside = record {
  room = admit male (admit male (initialize 3));
  inside = male ∷ male ∷ [];
  waiting = [];
  woken = [];
}

two_inside-Steps : Steps 3 (start 3) two_inside
unfolding enter
two_inside-Steps = step (step stay (Step.enters male _ refl)) (Step.enters male _ refl)

finalize-runtime_example :
    (r : Statistics ℤ) × (finalize whole 3
        (pos 7)
        (timeval_at 999990)
        (timeval_at 1000010)
        two_inside.room
      ≡ some r)
    × (r.runtime ≡ whole.divide (whole.of_int (sub_ℕ 1000010 999990)) (whole.of_int (pos 1000000)))
    × (r.occtime ≡ whole.sub r.runtime r.vacanttime)
finalize-runtime_example = finalize-runtime whole 2 (pos 7) 999990 1000010 two_inside.room

frequencies_fall_short_example :
    (bper qper : ℕ) × (frequencies (pos 0) two_inside.room.barray ≡ pos bper)
    × (frequencies (pos 0) two_inside.room.qarray ≡ pos qper)
    × (bper
          + entries_used two_inside.room.barray
          + (qper + entries_used two_inside.room.qarray)
          + two_inside.room.overruns
        ≡ two_inside.room.uses + two_inside.room.ques)
frequencies_fall_short_example = frequencies_fall_short two_inside-Steps

-- Both uses have been written, and the total of the frequencies is 0.
two_inside-frequencies : frequencies (pos 0) two_inside.room.barray ≡ pos 0
unfolding frequencies admit
two_inside-frequencies = refl
