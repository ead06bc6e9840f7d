-- ===== src/Memory/Swap/RoundTrip.antt =====
-- What `pageToFile` writes, `pageFromFile` reads back.
use mathlib.Core.List.{append_assoc}
use native.Mathlib.Nat.{zero-add}
use cs3013_operating_systems.Prelude.{
  ℕ, zero, suc, ◌+◌, ◌-◌, ◌^◌, ◌<◌, ◌≤◌, ◌≡◌, refl, ◌∙◌, some, List, [], ◌∷◌, ◌++◌, arith, pos,
  length, length-append, get_elem?, All, All-get_elem?, Bool, ltb, subst, sym,
  lt-length_of_get_elem?, ◌==◌, true, false, if◌then◌else◌,
}
use cs3013_operating_systems.Memory.State.{Machine, Run, ok, fault, Cmd, page_mem}
use cs3013_operating_systems.Memory.Text.{decimal, strtok, fgets, space, newline}
use cs3013_operating_systems.Memory.Text.Laws.{atoi-decimal, strtok-cons}
use cs3013_operating_systems.Memory.Swap.{
  bytes_text, page_line, find_line, read_line, page_from_file, count_overruns,
}
use cs3013_operating_systems.Memory.Swap.Lines.{
  IsPage, fgets-line, strtok-decimal, token_values-bytes_text, length-bytes_text-ge,
}

-- The swap file after these pages were written, the first of them with line number `n`.
unfoldable pub file_of : ℕ → List (List ℕ) → List ℕ
file_of n [] = []
file_of n (p ∷ ps) = page_line n p ++ file_of (n + 1) ps

-- A line after the first begins with the space that ends the one before.
data Lead : List ℕ → Type 0 where
  first_line : Lead []
  later_line : Lead (space ∷ [])

strtok-Lead :
    {lead : List ℕ} (n : ℕ) (rest : List ℕ)
    → Lead lead
    → strtok space (lead ++ (decimal n ++ (space ∷ rest))) ≡ some (decimal n, rest)
strtok-Lead n rest first_line = strtok-decimal n rest
strtok-Lead n rest later_line = strtok-cons space _ ∙ strtok-decimal n rest

fgets-Lead :
    {lead : List ℕ} (n : ℕ) (bs rest : List ℕ)
    → Lead lead
    → n < 10 ^ 10
    → IsPage bs
    → fgets 127 (lead ++ (decimal n ++ (space ∷ (bytes_text bs ++ (newline ∷ rest)))))
      ≡ some (lead ++ (decimal n ++ (space ∷ (bytes_text bs ++ (newline ∷ [])))), rest)
fgets-Lead n bs rest first_line = fgets-line [] n bs rest (omega arith) tt
fgets-Lead n bs rest later_line =
    fgets-line (space ∷ []) n bs rest (omega arith) ((omega arith), tt)

elim_run :
    (b : Bool) (c d : Cmd (List ℕ)) (m : Machine)
    → (let r : Cmd (List ℕ) = elim b [ true ↦ c | false ↦ d ] in r m) ≡ (if b then c m else d m)
elim_run true c d m = refl
elim_run false c d m = refl

-- One step of the search.
find_line-step :
    {lead : List ℕ} (k n j : ℕ) (bs rest : List ℕ) (m : Machine)
    → Lead lead
    → n < 10 ^ 10
    → IsPage bs
    → find_line
        (suc k)
        (pos j)
        (lead ++ (decimal n ++ (space ∷ (bytes_text bs ++ (newline ∷ rest)))))
        m
      ≡ (if n == j then ok (bytes_text bs ++ (newline ∷ [])) m else find_line k (pos j) rest m)
unfolding find_line
find_line-step k n j bs rest m l hn page =
    rw (fgets-Lead n bs rest l hn page, find_line)
      (rw (strtok-Lead n (bytes_text bs ++ (newline ∷ [])) l, find_line)
        (rw (atoi-decimal n) (elim_run (n == j) _ _ m)))

page_line-append :
    (n : ℕ) (bs rest : List ℕ)
    → page_line n bs ++ rest
      ≡ decimal n ++ (space ∷ (bytes_text bs ++ (newline ∷ ((space ∷ []) ++ rest))))
unfolding page_line
page_line-append n bs rest = simp append_assoc

-- The search finds the page that was written with that line number.
find_line-file_of :
    {lead : List ℕ} (ps : List (List ℕ)) (k n i : ℕ) (p : List ℕ) (m : Machine)
    → Lead lead
    → length ps ≤ k
    → n + length ps ≤ 10 ^ 10
    → All IsPage ps
    → get_elem? ps i ≡ some p
    → find_line k (pos (n + i)) (lead ++ file_of n ps) m ≡ ok (bytes_text p ++ (newline ∷ [])) m
unfolding file_of
find_line-file_of [] k n i p m l hk hn pages e = cc
find_line-file_of (q ∷ ps) zero n i p m l hk hn pages e = absurd (omega arith)
find_line-file_of (q ∷ ps) (suc k) n zero p m l hk hn pages e =
    let here : (n == (n + 0)) ≡ true = ground arith in
    let same : q ≡ p = cc in
    rw page_line-append (find_line-step k n (n + 0) q _ m l (omega arith) pages.0 ∙ rw (here, same))
find_line-file_of (q ∷ ps) (suc k) n (suc i) p m l hk hn pages e =
    let further : (n == (n + suc i)) ≡ false = ground arith in
    let next : n + suc i ≡ (n + 1) + i = omega arith in
    rw page_line-append (
      find_line-step k n (n + suc i) q _ m l (omega arith) pages.0
      ∙ rw (further, next)
          (find_line-file_of ps k (n + 1) i p m later_line (omega arith) (omega arith) pages.1 e))

length-file_of : (n : ℕ) (ps : List (List ℕ)) → length ps ≤ length (file_of n ps)
unfolding file_of page_line
length-file_of n [] = omega arith
length-file_of n (p ∷ ps) =
    rw (length-append, length-append) (omega (arith, length-file_of (n + 1) ps))

-- The swap file holds the pages `ps`, in the order in which they were written. Its line numbers have at
-- most ten digits; the `int` of the program, which is not bounded here, holds those below 2 ^ 31.
pub record Holds (m : Machine) (ps : List (List ℕ)) : Type 0 where
  pub text : m.swapspace ≡ file_of 0 ps
  pub lines : m.linecount ≡ length ps
  pub pages : All IsPage ps
  pub few : length ps ≤ 10 ^ 10

read_line-Holds :
    {m : Machine} {ps : List (List ℕ)} {p : List ℕ} (i : ℕ)
    → Holds m ps
    → get_elem? ps i ≡ some p
    → read_line (pos i) m ≡ ok (p ++ (0 ∷ [])) m
unfolding read_line
read_line-Holds {m} {ps} {p} i h e = rw (
  found,
  token_values-bytes_text (length (bytes_text p ++ (newline ∷ [])) + 1) p m (omega (arith, long))
      page.bytes,
)
  where
    page : IsPage p
    page = All-get_elem? IsPage ps i p h.pages e

    found :
        find_line (length m.swapspace + 1) (pos i) m.swapspace m
        ≡ ok (bytes_text p ++ (newline ∷ [])) m
    found =
        subst
          (λ (t : List ℕ).
            find_line (length t + 1) (pos i) t m ≡ ok (bytes_text p ++ (newline ∷ [])) m)
          (sym h.text)
          (rw zero-add at (
            find_line-file_of {lead = []} ps (length (file_of 0 ps) + 1) 0 i p m first_line
              (omega (arith, length-file_of 0 ps)) (omega (arith, h.few)) h.pages e))

    long : length p < length (bytes_text p ++ (newline ∷ []))
    long = rw length-append (omega (arith, length-bytes_text-ge p))

nonempty_run :
    {A : Type 0} (xs : List ℕ) (r : Run A)
    → 0 < length xs
    → (let q : Run A = elim xs [ [] ↦ fault | _ ↦ r ] in q) ≡ r
nonempty_run [] r h = absurd (omega arith)
nonempty_run (x ∷ xs) r h = refl

-- Where the swap file holds the page `p` as number `i`, `pageFromFile` writes
-- the sixteen bytes of the page to its buffer, and a zero behind it.
pub page_from_file-Holds :
    {m : Machine} {ps : List (List ℕ)} {p : List ℕ} (i : ℕ)
    → Holds m ps
    → get_elem? ps i ≡ some p
    → page_from_file (pos i) m ≡ ok (some (p ++ (0 ∷ []))) (record m { overruns = m.overruns + 1 })
unfolding page_from_file count_overruns
page_from_file-Holds {m} {ps} {p} i h e = rw below (
    nonempty_run m.swapspace _ written
    ∙ rw (read_line-Holds i h e, page_from_file) (rw one_more refl))
  where
    one_more : length (p ++ (0 ∷ [])) - page_mem ≡ 1
    one_more =
        let page : IsPage p = All-get_elem? IsPage ps i p h.pages e in
        rw length-append (omega (arith, page.size))

    inside : i < length ps
    inside = lt-length_of_get_elem? ps i p e

    below : ltb m.linecount i ≡ false
    below = ground (arith, inside, h.lines)

    written : 0 < length m.swapspace
    written = rw h.text (omega (arith, inside, length-file_of 0 ps))
