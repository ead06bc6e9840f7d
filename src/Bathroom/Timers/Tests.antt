-- ===== src/Bathroom/Timers/Tests.antt =====
-- The vacant time of project3/bathroom.c while the clock turns over.
use cs3013_operating_systems.Prelude.{
  ℕ, ◌≡◌, ◌≢◌, ◌*◌, refl, none, List, [], ◌∷◌, arith, negsuc, sub_ℕ,
}
use cs3013_operating_systems.Bathroom.Monitor.{male, initialize, admit, enter, leave}
use cs3013_operating_systems.Bathroom.Statistics.{timeval_at}
use cs3013_operating_systems.Bathroom.Timers.{Timed, Visit, initialize_timed, visit}
use cs3013_operating_systems.Bathroom.Timers.Vacancy.{watch_from, vacanttime-vacancy}
use cs3013_operating_systems.Bathroom.Timers.Watch.{Watch, Watched, over, next}

-- A thread goes in, leaves, and goes in again in the next second.
abbrev day : List (ℕ × Visit)
day = (1000500, Visit.enters male) ∷ (1000900, Visit.leaves) ∷ (2000100, Visit.enters male) ∷ []

abbrev evening : Timed
evening = record {
  room = admit male (record (admit male (initialize 2)) { flag = none; users = 0 });
  vacanttime = negsuc 299;
  vacstart = timeval_at 1000900;
}

abbrev seen : Watch
seen = record { last = 2000100; vacancy = 999700; turns = 1 }

day-Watched :
    Watched 2 (initialize_timed 2 (timeval_at 1000000)) (watch_from 1000000) day evening seen
unfolding visit enter leave
day-Watched =
    next 1000500 _ (omega arith) (λ g e. cc) refl
      (next 1000900 _ (omega arith) (λ g e. cc) refl
        (next 2000100 _ (omega arith) (λ g e. cc) refl over))

evening-flag : evening.room.flag ≢ none
unfolding admit
evening-flag e = cc

vacanttime-vacancy_example : evening.vacanttime ≡ sub_ℕ seen.vacancy (1000000 * seen.turns)
vacanttime-vacancy_example = vacanttime-vacancy 2 1000000 day evening seen day-Watched evening-flag
