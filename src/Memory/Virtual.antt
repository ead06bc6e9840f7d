-- ===== src/Memory/Virtual.antt =====
-- An abstract memory for `store` and `load` of project4/memory.c: each process has bytes at its
-- addresses, with no frames, no tables and no messages but those that show a value.
pub mod Console
pub mod Refinement
mod Tests
use mathlib.Core.List.{append_assoc, append-nil}
use cs3013_operating_systems.Prelude.{
  subst, ℤ, pos, ℕ, ◌+◌, ◌*◌, ◌/◌, ◌%◌, ◌<◌, ◌≡◌, ◌≢◌, refl, sym, ap, ◌∙◌, Bool, true, false, ◌&&◌,
  ◌==◌, if◌then◌else◌, List, [], ◌∷◌, ◌++◌, arith, some, none, Option, get_elem?, set,
  get_elem?-set_self, get_elem?-set_ne, lt-length_of_get_elem?, ℕ_discrete,
}
use cs3013_operating_systems.Memory.State.{
  Machine, Event, stored, value_at, ok, Cmd, pure, ◌>>=◌, ◌>>◌, page_mem, writeable,
}
use cs3013_operating_systems.Memory.Paging.Entry.{EntryAt}
use cs3013_operating_systems.Memory.Commands.{store, load}
use cs3013_operating_systems.Memory.Commands.Resident.{
  say, after_store, load_present, store_present, stored-EntryAt, frames_apart, say-EntryAt,
}

-- The bytes that the processes see: by process and address.
abbrev pub View : Type 0
View = ℕ → ℕ → ℕ

abbrev pub update : ℕ → ℕ → ℕ → View → View
update pid vaddr val v pid' vaddr' =
    if (pid == pid') && (vaddr == vaddr') then val else v pid' vaddr'

pub data Access : Type 0 where
  put : (pid vaddr val : ℕ) → Access
  get : (pid vaddr : ℕ) → Access

-- What a sequence of accesses shows, as addresses with their bytes.
unfoldable pub specified : List Access → View → List (ℕ × ℕ)
specified [] v = []
specified (put pid vaddr val ∷ rest) v = specified rest (update pid vaddr val v)
specified (get pid vaddr ∷ rest) v = (vaddr, v pid vaddr) ∷ specified rest v

-- The same sequence of calls on the machine.
unfoldable pub perform : List Access → Cmd (Unit {0})
perform [] = pure tt
perform (put pid vaddr val ∷ rest) = do r ← store pid vaddr val; perform rest
perform (get pid vaddr ∷ rest) = do r ← load pid vaddr 0; perform rest

-- The values that a list of messages shows.
unfoldable pub shown : List Event → List (ℕ × ℕ)
shown [] = []
shown (value_at vaddr val ∷ es) = (vaddr, val) ∷ shown es
shown (e ∷ es) = shown es

-- For a page of a process, the frame of the process's page table and that of the page, where the page is
-- resident and writeable.
abbrev pub Layout : Type 0
Layout = (pid vpage : ℕ) → Option (ℕ × ℕ)

-- Every access is to a page of the layout.
unfoldable pub IsWithin : Layout → List Access → Type 0
IsWithin l [] = Unit
IsWithin l (put pid vaddr val ∷ rest) =
    ((f : ℕ × ℕ) × (vaddr < 64) × (l pid (vaddr / page_mem) ≡ some f)) × IsWithin l rest
IsWithin l (get pid vaddr ∷ rest) =
    ((f : ℕ × ℕ) × (vaddr < 64) × (l pid (vaddr / page_mem) ≡ some f)) × IsWithin l rest

-- No page shares its frame with a page table or with another page.
pub record IsApart (l : Layout) : Type 0 where
  pub tables :
      (pid vpage pid' vpage' : ℕ) (f f' : ℕ × ℕ)
      → l pid vpage ≡ some f
      → l pid' vpage' ≡ some f'
      → f.0 ≢ f'.1
  pub pages :
      (pid vpage pid' vpage' : ℕ) (f f' : ℕ × ℕ)
      → l pid vpage ≡ some f
      → l pid' vpage' ≡ some f'
      → f.1 ≡ f'.1
      → (pid ≡ pid') × (vpage ≡ vpage')

-- The machine holds the view in the frames of the layout.
pub record Holds (l : Layout) (v : View) (m : Machine) : Type 0 where
  pub entry :
      (pid vaddr : ℕ) (f : ℕ × ℕ)
      → vaddr < 64
      → l pid (vaddr / page_mem) ≡ some f
      → EntryAt m pid vaddr (f.0 * page_mem) (f.1 * page_mem) writeable 2
  pub byte :
      (pid vaddr : ℕ) (f : ℕ × ℕ)
      → vaddr < 64
      → l pid (vaddr / page_mem) ≡ some f
      → get_elem? m.mem (f.1 * page_mem + vaddr % page_mem) ≡ some (v pid vaddr)

-- What a machine has done: the calls of `accesses` succeed, and the values shown are those specified.
abbrev pub Shows : List Access → View → Machine → Type 0
Shows accesses v m =
    (m' : Machine) × (perform accesses m ≡ ok tt m')
    × (shown m'.out ≡ shown m.out ++ specified accesses v)
