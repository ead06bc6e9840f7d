-- ===== src/Bathroom/Timers.antt =====
-- The time that the bathroom of project3/bathroom.c is vacant, as `Enter` and `Leave` add it up.
pub mod Vacancy
pub mod Watch
mod Tests
use cs3013_operating_systems.Prelude.{
  ℕ, ◌+◌, Bool, true, false, Option, none, some, List, [], ◌∷◌, ℤ, pos, sub_ℕ, add_ℤ,
}
use cs3013_operating_systems.Bathroom.Monitor.{Gender, Bathroom, initialize, enter, resume, leave}
use cs3013_operating_systems.Bathroom.Statistics.{Timeval, timeval_at}

-- The monitor with its timers. `vacanttime` stays an integer until `Finalize`.
pub record Timed : Type 0 where
  pub room : Bathroom
  pub vacanttime : ℤ
  pub vacstart : Timeval

-- `Initialize`, with `gettimeofday(&vacstart, NULL)`
abbrev pub initialize_timed : (users : ℕ) → Timeval → Timed
initialize_timed users now = record { room = initialize users; vacanttime = pos 0; vacstart = now }

-- `gettimeofday(&vacend, NULL)` and the line behind it, where the flag is VACANT.
unfoldable pub end_vacancy : Timeval → Option Gender → Timed → ℤ
end_vacancy vacend none t = add_ℤ t.vacanttime (sub_ℕ vacend.tv_usec t.vacstart.tv_usec)
end_vacancy vacend (some g) t = t.vacanttime

-- `Enter` up to its end or its wait.
unfoldable pub enter_timed : Timeval → Gender → Timed → Timed
unfolding end_vacancy
enter_timed now g t = record t {
  room = (enter g t.room).1;
  vacanttime = end_vacancy now t.room.flag t;
}

-- `Enter` after its wait, which has no timer.
unfoldable pub resume_timed : (users : ℕ) → Gender → Timed → Timed
resume_timed users g t = record t { room = resume users g t.room }

-- The timer of `Leave`, by whether it signals.
unfoldable pub leave_with : Timeval → Timed → Option (Bool × Bathroom) → Option Timed
leave_with now t none = none
leave_with now t (some (true, b)) = some (record t { room = b; vacstart = now })
leave_with now t (some (false, b)) = some (record t { room = b })

unfoldable pub leave_timed : Timeval → Timed → Option Timed
unfolding leave_with
leave_timed now t = leave_with now t (leave t.room)

-- What a thread does while it holds the lock.
pub data Visit : Type 0 where
  enters : Gender → Visit
  resumes : Gender → Visit
  leaves : Visit

unfoldable pub visit : (users : ℕ) → Timeval → Visit → Timed → Option Timed
unfolding enter_timed resume_timed leave_timed
visit users now (Visit.enters g) t = some (enter_timed now g t)
visit users now (Visit.resumes g) t = some (resume_timed users g t)
visit users now Visit.leaves t = leave_timed now t

abbrev pub and_then : (Timed → Option Timed) → Option Timed → Option Timed
and_then f none = none
and_then f (some t) = f t

-- The visits of a run, each at a number of microseconds.
unfoldable pub visits : (users : ℕ) → List (ℕ × Visit) → Timed → Option Timed
unfolding visit
visits users [] t = some t
visits users ((now, v) ∷ vs) t = and_then (visits users vs) (visit users (timeval_at now) v t)
