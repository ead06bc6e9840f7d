-- ===== src/Memory/Swap/Copy.antt =====
-- Copying a frame to the swap file, and a page of the swap file to a frame.
use mathlib.Core.List.{append_assoc, append-nil}
use native.Mathlib.Nat.{zero-add, add-zero}
use cs3013_operating_systems.Prelude.{
  ℕ, zero, suc, ◌+◌, ◌<◌, ◌≤◌, ◌≡◌, refl, ◌≢◌, ◌∙◌, some, List, [], ◌∷◌, ◌++◌, arith, pos, length,
  length-set, get_elem?, set, ltb, true, get_elem?-set_self, get_elem?-set_ne,
}
use cs3013_operating_systems.Memory.State.{Machine, ok, page_mem}
use cs3013_operating_systems.Memory.Swap.{
  page_line, page_to_file, read_bytes, append_swapspace, swap_loop, swap_to_mem,
}
use cs3013_operating_systems.Memory.Swap.Lines.{IsPage}
use cs3013_operating_systems.Memory.Swap.RoundTrip.{file_of}

-- `bs` stand in memory from `a` on.
abbrev pub StandsAt : List ℕ → ℕ → List ℕ → Type 0
StandsAt mem a [] = Unit
StandsAt mem a (b ∷ bs) = (get_elem? mem a ≡ some b) × StandsAt mem (a + 1) bs

read_bytes-StandsAt :
    (bs : List ℕ) (n base i a : ℕ) (m : Machine)
    → length bs ≡ n
    → base + i ≡ a
    → StandsAt m.mem a bs
    → read_bytes n (pos base) i m ≡ ok bs m
unfolding read_bytes
read_bytes-StandsAt [] zero base i a m l e h = refl
read_bytes-StandsAt [] (suc n) base i a m l e h = absurd (omega arith)
read_bytes-StandsAt (b ∷ bs) zero base i a m l e h = absurd (omega arith)
read_bytes-StandsAt (b ∷ bs) (suc n) base i a m l e h =
    rw (e, h.0, read_bytes-StandsAt bs n base (i + 1) (a + 1) m (omega arith) (omega arith) h.1)

file_of-append :
    (n : ℕ) (ps : List (List ℕ)) (p : List ℕ)
    → file_of n (ps ++ (p ∷ [])) ≡ file_of n ps ++ page_line (n + length ps) p
unfolding file_of
file_of-append n [] p = rw (append-nil, add-zero)
file_of-append n (q ∷ ps) p =
    let same : n + 1 + length ps ≡ n + suc (length ps) = omega arith in
    rw (file_of-append (n + 1) ps p, append_assoc, same)

-- `pageToFile` with the next line number adds the frame's bytes to the pages of the swap file, and
-- returns that number.
pub page_to_file-file_of :
    {m : Machine} (ps : List (List ℕ)) (n : ℕ) (p : List ℕ) (base : ℕ)
    → m.swapspace ≡ file_of 0 ps
    → n ≡ length ps
    → StandsAt m.mem base p
    → IsPage p
    → page_to_file n (pos base) m ≡ ok n (record m { swapspace = file_of 0 (ps ++ (p ∷ [])) })
unfolding page_to_file append_swapspace
page_to_file-file_of {m} ps n p base text count stands page = rw (
  read_bytes-StandsAt p page_mem base 0 base m page.size (add-zero base) stands,
  file_of-append 0 ps p,
  zero-add,
  text,
  count,
)

-- Memory with `bs` written from `a` on.
unfoldable pub overwrite : ℕ → List ℕ → List ℕ → List ℕ
overwrite a [] mem = mem
overwrite a (b ∷ bs) mem = overwrite (a + 1) bs (set mem a b)

pub length-overwrite : (a : ℕ) (bs mem : List ℕ) → length (overwrite a bs mem) ≡ length mem
unfolding overwrite
length-overwrite a [] mem = refl
length-overwrite a (b ∷ bs) mem = length-overwrite (a + 1) bs (set mem a b) ∙ length-set mem a b

-- A byte outside the range is kept.
pub get_elem?-overwrite_ne :
    (a : ℕ) (bs mem : List ℕ) (j : ℕ)
    → ((k : ℕ) → k < length bs → j ≢ a + k)
    → get_elem? (overwrite a bs mem) j ≡ get_elem? mem j
unfolding overwrite
get_elem?-overwrite_ne a [] mem j out = refl
get_elem?-overwrite_ne a (b ∷ bs) mem j out =
    get_elem?-overwrite_ne (a + 1) bs (set mem a b) j
      (λ k h e. out (suc k) (omega arith) (omega (arith, e)))
    ∙ get_elem?-set_ne mem b (λ e. out 0 (omega arith) (omega (arith, e)))

pub overwrite-StandsAt :
    (a : ℕ) (bs mem : List ℕ) → a + length bs ≤ length mem → StandsAt (overwrite a bs mem) a bs
unfolding overwrite
overwrite-StandsAt a [] mem h = tt
overwrite-StandsAt a (b ∷ bs) mem h = (
  get_elem?-overwrite_ne (a + 1) bs (set mem a b) a (λ k l e. omega (arith, e))
      ∙ get_elem?-set_self mem a b (omega arith),
  overwrite-StandsAt (a + 1) bs (set mem a b) (omega (arith, length-set mem a b)),
)

swap_loop-overwrite :
    (bs extra : List ℕ) (n f i a : ℕ) (m : Machine)
    → length bs ≡ n
    → f + i ≡ a
    → a + n ≤ length m.mem
    → swap_loop n (bs ++ extra) (pos f) i m ≡ ok tt (record m { mem = overwrite a bs m.mem })
unfolding swap_loop overwrite
swap_loop-overwrite [] extra zero f i a m l e h = refl
swap_loop-overwrite [] extra (suc n) f i a m l e h = absurd (omega arith)
swap_loop-overwrite (b ∷ bs) extra zero f i a m l e h = absurd (omega arith)
swap_loop-overwrite (b ∷ bs) extra (suc n) f i a m l e h =
    let fits : ltb a (length m.mem) ≡ true = ground (arith, h) in
    rw (e, fits)
      (swap_loop-overwrite bs extra n f (i + 1) (a + 1) (record m { mem = set m.mem a b })
        (omega arith) (omega arith) (omega (arith, length-set m.mem a b)))

-- `swaptomem` copies the page and ignores what the buffer holds behind it.
pub swap_to_mem-overwrite :
    (bs extra : List ℕ) (f : ℕ) (m : Machine)
    → length bs ≡ page_mem
    → f + page_mem ≤ length m.mem
    → swap_to_mem (bs ++ extra) (pos f) m ≡ ok tt (record m { mem = overwrite f bs m.mem })
unfolding swap_to_mem
swap_to_mem-overwrite bs extra f m l h =
    swap_loop-overwrite bs extra page_mem f 0 f m l (add-zero f) h
