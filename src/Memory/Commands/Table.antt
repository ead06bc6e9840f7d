-- ===== src/Memory/Commands/Table.antt =====
-- The loop of `map` that sets up a page table.
use cs3013_operating_systems.Prelude.{
  ℕ, zero, suc, ◌+◌, ◌*◌, ◌<◌, ◌≤◌, ◌≡◌, refl, ◌∙◌, some, List, arith, pos, length, length-set,
  get_elem?, set, ltb, true, ℕ_discrete, get_elem?-set_self, get_elem?-set_ne,
}
use cs3013_operating_systems.Memory.State.{Machine, ok, pte_size, valpres_offset}
use cs3013_operating_systems.Memory.Commands.{number_entries}

-- Memory with the entries `i`, … of the table at `b` numbered, and no page present in them.
unfoldable pub numbered : ℕ → ℕ → ℕ → List ℕ → List ℕ
numbered zero b i mem = mem
numbered (suc n) b i mem =
    numbered n b (i + 1)
      (set (set mem (b + pte_size * i) i) (b + (pte_size * i + valpres_offset)) 0)

pub number_entries-numbered :
    (n b i : ℕ) (m : Machine)
    → b + pte_size * (i + n) ≤ length m.mem
    → number_entries n (pos b) i m ≡ ok tt (record m { mem = numbered n b i m.mem })
unfolding number_entries numbered
number_entries-numbered zero b i m h = refl
number_entries-numbered (suc n) b i m h =
    let first : ltb (b + pte_size * i) (length m.mem) ≡ true = ground (arith, h) in
    let last : ltb (b + (pte_size * i + valpres_offset)) (length m.mem) ≡ true =
      ground (arith, h) in
    rw (first, length-set, last)
      (number_entries-numbered n b (i + 1)
        (record m {
          mem = set (set m.mem (b + pte_size * i) i) (b + (pte_size * i + valpres_offset)) 0;
        })
        (rw (length-set, length-set) (omega arith)))

pub length-numbered : (n b i : ℕ) (mem : List ℕ) → length (numbered n b i mem) ≡ length mem
unfolding numbered
length-numbered zero b i mem = refl
length-numbered (suc n) b i mem =
    length-numbered n b (i + 1) _ ∙ length-set _ _ 0 ∙ length-set mem _ i

get_elem?-numbered_lt :
    (n b i : ℕ) (mem : List ℕ) (j : ℕ)
    → j < b + pte_size * i
    → get_elem? (numbered n b i mem) j ≡ get_elem? mem j
unfolding numbered
get_elem?-numbered_lt zero b i mem j h = refl
get_elem?-numbered_lt (suc n) b i mem j h =
    get_elem?-numbered_lt n b (i + 1) _ j (omega arith)
    ∙ get_elem?-set_ne (set mem (b + pte_size * i) i) {i = b + (pte_size * i + valpres_offset)}
        {j = j} 0 (λ e. omega (arith, e))
    ∙ get_elem?-set_ne mem {i = b + pte_size * i} {j = j} i (λ e. omega (arith, e))

entry_first :
    (n b i : ℕ) (mem : List ℕ)
    → b + pte_size * (i + suc n) ≤ length mem
    → (get_elem? (numbered (suc n) b i mem) (b + pte_size * i) ≡ some i)
      × (get_elem? (numbered (suc n) b i mem) (b + (pte_size * i + valpres_offset)) ≡ some 0)
unfolding numbered
entry_first n b i mem h = (
  get_elem?-numbered_lt n b (i + 1) _ (b + pte_size * i) (omega arith)
      ∙ get_elem?-set_ne (set mem (b + pte_size * i) i) {i = b + (pte_size * i + valpres_offset)}
          {j = b + pte_size * i} 0 (λ e. omega (arith, e))
      ∙ get_elem?-set_self mem (b + pte_size * i) i (omega arith),
  get_elem?-numbered_lt n b (i + 1) _ (b + (pte_size * i + valpres_offset)) (omega arith)
      ∙ get_elem?-set_self (set mem (b + pte_size * i) i) (b + (pte_size * i + valpres_offset)) 0
          (omega (arith, length-set mem (b + pte_size * i) i)),
)

-- Entry `v` has its number, and no page is present in it.
pub get_elem?-numbered :
    (n b i : ℕ) (mem : List ℕ) (v : ℕ)
    → i ≤ v
    → v < i + n
    → b + pte_size * (i + n) ≤ length mem
    → (get_elem? (numbered n b i mem) (b + pte_size * v) ≡ some v)
      × (get_elem? (numbered n b i mem) (b + (pte_size * v + valpres_offset)) ≡ some 0)
unfolding numbered
get_elem?-numbered zero b i mem v low high h = absurd (omega arith)
get_elem?-numbered (suc n) b i mem v low high h = elim (ℕ_discrete i v) [
  | yes e ↦ rw (← e) (entry_first n b i mem h)
  | no ne ↦
      get_elem?-numbered n b (i + 1)
        (set (set mem (b + pte_size * i) i) (b + (pte_size * i + valpres_offset)) 0) v (omega arith)
        (omega arith) (rw (length-set, length-set) (omega arith))
]
