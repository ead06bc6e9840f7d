-- ===== src/Memory/Frames/Laws.antt =====
-- The virtual page of an address, and the search for a free frame.
use mathlib.Core.WellFounded.{Acc}
use cs3013_operating_systems.Prelude.{
  ℕ, zero, suc, ◌+◌, ◌-◌, ◌*◌, ◌/◌, ◌<◌, ◌≡◌, refl, ◌≢◌, some, List, [], ◌∷◌, arith, ℤ, pos,
  minus_one, length, get_elem?, set, four_elements, if◌then◌else◌, ◌==◌, get_elem?_of_lt,
  ℕ_discrete,
}
use cs3013_operating_systems.Prelude.Order.{lt_wf}
use cs3013_operating_systems.Memory.State.{Machine, Run, ok, num_pages, page_mem}
use cs3013_operating_systems.Memory.Frames.{
  page_loop, page_of, find_free_loop, find_free, count_free,
}

page_loop-eq-div : (v vpage : ℕ) (w : Acc ◌<◌ v) → page_loop v vpage w ≡ vpage + v / 16
unfolding page_loop
page_loop-eq-div v vpage (Acc.intro _ smaller) =
    grind (arith, λ (p : v - 16 < v). page_loop-eq-div (v - 16) (vpage + 1) (smaller (v - 16) p))

-- The loop of `findpte` and `convert` divides the address by the page size.
pub page_of_lem : (vaddr : ℕ) → page_of vaddr ≡ vaddr / page_mem
unfolding page_of
page_of_lem vaddr = omega (arith, page_loop-eq-div vaddr 0 (lt_wf.apply vaddr))

-- Frame `i` is the first that is free.
pub record FirstFree (free : List ℕ) (i : ℕ) : Type 0 where
  pub below : i < num_pages
  pub is_free : get_elem? free i ≡ some 1
  pub none_before : (j : ℕ) → j < i → get_elem? free j ≢ some 1

abbrev pub NoneFree : List ℕ → Type 0
NoneFree free = (j : ℕ) → j < num_pages → get_elem? free j ≢ some 1

-- What `findfree` returns, and the state that it leaves.
pub data FoundFree (m : Machine) (r : Run ℤ) : Type 0 where
  taken :
      (i : ℕ)
      → FirstFree m.freelist i
      → r ≡ ok (pos (i * page_mem)) (record m { freelist = set m.freelist i 0 })
      → FoundFree m r
  full : NoneFree m.freelist → r ≡ ok minus_one m → FoundFree m r

find_free_loop-FoundFree :
    (n i : ℕ) (m : Machine)
    → i + n ≡ num_pages
    → length m.freelist ≡ num_pages
    → ((j : ℕ) → j < i → get_elem? m.freelist j ≢ some 1)
    → FoundFree m (find_free_loop n i m)
unfolding find_free_loop
find_free_loop-FoundFree zero i m e l before = full (λ j h. before j (omega arith)) refl
find_free_loop-FoundFree (suc n) i m e l before =
    let (f, q) = get_elem?_of_lt m.freelist i (omega arith) in
    elim (ℕ_discrete f 1) [
      | yes one ↦
          taken i (record { below = omega arith; is_free = ground arith; none_before = before })
            (ground arith)
      | no other ↦
          elim (find_free_loop-FoundFree n (i + 1) m (omega arith) l
            (λ j h. ground (arith, before j))) [
              | taken k first r ↦ taken k first (ground arith)
              | full all r ↦ full all (ground arith)
            ]
    ]

-- `findfree` takes the lowest free frame and marks it used; where none of the four frames is free it
-- returns -1 and changes nothing.
pub find_free-FoundFree : (m : Machine) → length m.freelist ≡ num_pages → FoundFree m (find_free m)
unfolding find_free
find_free-FoundFree m l =
    find_free_loop-FoundFree num_pages 0 m refl l (λ j h. absurd (omega arith))

-- The entries of `freelist` that are 1.
unfoldable pub ones : List ℕ → ℕ
ones [] = 0
ones (x ∷ xs) = (if x == 1 then 1 else 0) + ones xs

-- The loop over the four entries of `freelist` counts the ones.
pub count_free-ones :
    (m : Machine) → length m.freelist ≡ num_pages → count_free m ≡ ok (ones m.freelist) m
unfolding count_free ones
count_free-ones m l = let (a, b, c, d, e) = four_elements m.freelist l in rw e (ground arith)

FirstFree-unique : {free : List ℕ} {i k : ℕ} → FirstFree free i → FirstFree free k → i ≡ k
FirstFree-unique {i} {k} f g =
    let not_below : ¬ (i < k) = λ (h : i < k). g.none_before i h f.is_free in
    let not_above : ¬ (k < i) = λ (h : k < i). f.none_before k h g.is_free in omega arith

-- `findfree` where a frame is free.
pub find_free-first :
    (m : Machine) (i : ℕ)
    → length m.freelist ≡ num_pages
    → FirstFree m.freelist i
    → find_free m ≡ ok (pos (i * page_mem)) (record m { freelist = set m.freelist i 0 })
find_free-first m i l first = elim (find_free-FoundFree m l) [
  | taken k first' r ↦ rw (FirstFree-unique first first') r
  | full all r ↦ absurd (all i first.below first.is_free)
]
