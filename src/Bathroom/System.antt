-- ===== src/Bathroom/System.antt =====
-- The threads around the monitor of project3/bathroom.c: each step is what one thread does while it
-- holds the lock.
pub mod Arrays
pub mod Counts
pub mod Drain
pub mod Exclusive
pub mod Recorded
pub mod Tallies
use cs3013_operating_systems.Prelude.{ℕ, ◌≡◌, Bool, true, false, Option, some, List, [], ◌∷◌, ◌++◌}
use cs3013_operating_systems.Bathroom.Monitor.{Gender, Bathroom, initialize, enter, resume, leave}

-- The monitor, and the genders of the threads that are inside, that wait, and that were woken and have
-- not yet taken the lock again.
pub record System : Type 0 where
  pub room : Bathroom
  pub inside : List Gender
  pub waiting : List Gender
  pub woken : List Gender

abbrev pub start : ℕ → System
start users = record { room = initialize users; inside = []; waiting = []; woken = [] }

-- `xs` is `ys` with `g` somewhere in it.
pub data Takes (g : Gender) : List Gender → List Gender → Type 0 where
  here : (xs : List Gender) → Takes g (g ∷ xs) xs
  there : (x : Gender) {xs ys : List Gender} → Takes g xs ys → Takes g (x ∷ xs) (x ∷ ys)

pub data Step (users : ℕ) (s : System) : System → Type 0 where
  enters :
      (g : Gender) (b : Bathroom)
      → enter g s.room ≡ (false, b)
      → Step users s (record s { room = b; inside = g ∷ s.inside })
  waits :
      (g : Gender) (b : Bathroom)
      → enter g s.room ≡ (true, b)
      → Step users s (record s { room = b; waiting = g ∷ s.waiting })
  -- a wait may also end without a signal
  wakes :
      (g : Gender) (rest : List Gender)
      → Takes g s.waiting rest
      → Step users s (record s { waiting = rest; woken = g ∷ s.woken })
  resumes :
      (g : Gender) (rest : List Gender)
      → Takes g s.woken rest
      → Step users s
          (record s { room = resume users g s.room; inside = g ∷ s.inside; woken = rest })
  leaves :
      (g : Gender) (rest : List Gender) (b : Bathroom)
      → Takes g s.inside rest
      → leave s.room ≡ some (false, b)
      → Step users s (record s { room = b; inside = rest })
  leaves_last :
      (g : Gender) (rest : List Gender) (b : Bathroom)
      → Takes g s.inside rest
      → leave s.room ≡ some (true, b)
      → Step users s
          (record s { room = b; inside = rest; waiting = []; woken = s.waiting ++ s.woken })

pub data Steps (users : ℕ) (s : System) : System → Type 0 where
  stay : Steps users s s
  step : {t u : System} → Steps users s t → Step users t u → Steps users s u
