-- ===== src/Memory/Virtual/Console.antt =====
-- Maps and accesses as lines of the input of project4/memory.c.
use cs3013_operating_systems.Prelude.{
  ℕ, zero, suc, ◌+◌, ◌<◌, ◌≤◌, ◌≡◌, refl, sym, ap, ◌∙◌, List, [], ◌∷◌, ◌++◌, All, arith, length,
  length-append,
}
use mathlib.Core.List.{append_assoc}
use cs3013_operating_systems.Memory.State.{
  Machine, Run, ok, fault, hang, out_of_fuel, Cmd, and_then, pure, ◌>>=◌,
}
use cs3013_operating_systems.Memory.Text.{fgets}
use cs3013_operating_systems.Memory.Text.Laws.{length-decimal-le}
use cs3013_operating_systems.Memory.Commands.{map, store, load}
use cs3013_operating_systems.Memory.Console.{console_loop, instructions, set_up, main}
use cs3013_operating_systems.Memory.Console.Line.{line_of}
use cs3013_operating_systems.Memory.Console.Rounds.{IsPlain, console_loop-line_of}
use cs3013_operating_systems.Memory.Virtual.{
  View, Access, put, get, perform, specified, shown, Layout, IsWithin, IsApart, Holds,
}
use cs3013_operating_systems.Memory.Virtual.Refinement.{perform-specified}

-- The words "store" and "load" without their first letters.
abbrev pub tore : List ℕ
tore = b't' ∷ b'o' ∷ b'r' ∷ b'e' ∷ []

abbrev pub oad : List ℕ
oad = b'o' ∷ b'a' ∷ b'd' ∷ []

-- The text of a sequence of accesses, a line for each.
unfoldable pub text_of : List Access → List ℕ
text_of [] = []
text_of (put pid vaddr val ∷ rest) = line_of pid b's' tore vaddr val ++ text_of rest
text_of (get pid vaddr ∷ rest) = line_of pid b'l' oad vaddr 0 ++ text_of rest

-- Numbers that the program accepts.
unfoldable pub IsInRange : List Access → Type 0
IsInRange [] = Unit
IsInRange (put pid vaddr val ∷ rest) = ((pid < 4) × (vaddr < 64) × (val < 256)) × IsInRange rest
IsInRange (get pid vaddr ∷ rest) = ((pid < 4) × (vaddr < 64)) × IsInRange rest

-- The calls of `map`, by process, address and value, and their text.
abbrev pub Mapping : Type 0
Mapping = ℕ × ℕ × ℕ

unfoldable pub map_all : List Mapping → Cmd (Unit {0})
map_all [] = pure tt
map_all ((pid, vaddr, val) ∷ rest) = do r ← map pid vaddr val; map_all rest

abbrev pub ap_word : List ℕ
ap_word = b'a' ∷ b'p' ∷ []

unfoldable pub maps_text : List Mapping → List ℕ
maps_text [] = []
maps_text ((pid, vaddr, val) ∷ rest) = line_of pid b'm' ap_word vaddr val ++ maps_text rest

abbrev pub MapsInRange : List Mapping → Type 0
MapsInRange maps = All (λ x. (x.0 < 4) × (x.1 < 64) × (x.2 < 256)) maps

-- A line of a command whose word is short has at most 19 characters.
length-line_of :
    (pid letter : ℕ) (word : List ℕ) (vaddr val : ℕ)
    → length word ≤ 4
    → vaddr < 64
    → val < 256
    → length (line_of pid letter word vaddr val) ≤ 19
length-line_of pid letter word vaddr val short low_vaddr low_val =
    let vaddr_digits = length-decimal-le vaddr 1 (omega (arith, low_vaddr)) in
    let val_digits = length-decimal-le val 2 (omega (arith, low_val)) in
    simp length-append (omega (arith, short, vaddr_digits, val_digits))

tore-IsPlain : All IsPlain tore
tore-IsPlain = (
  (λ e. cc, λ e. cc, λ e. cc),
  ((λ e. cc, λ e. cc, λ e. cc), ((λ e. cc, λ e. cc, λ e. cc), ((λ e. cc, λ e. cc, λ e. cc), tt))),
)

oad-IsPlain : All IsPlain oad
oad-IsPlain =
    ((λ e. cc, λ e. cc, λ e. cc), ((λ e. cc, λ e. cc, λ e. cc), ((λ e. cc, λ e. cc, λ e. cc), tt)))

ap_word-IsPlain : All IsPlain ap_word
ap_word-IsPlain = ((λ e. cc, λ e. cc, λ e. cc), ((λ e. cc, λ e. cc, λ e. cc), tt))

and_then-same :
    {A : Type 0} (run : Run A) (next next' : A → Cmd (Unit {0}))
    → ((a : A) (m : Machine) → next a m ≡ next' a m)
    → and_then run next ≡ and_then run next'
and_then-same (ok a m) next next' same = same a m
and_then-same fault next next' same = refl
and_then-same hang next next' same = refl
and_then-same out_of_fuel next next' same = refl

and_then_assoc :
    {A B : Type 0} (run : Run A) (next : A → Cmd B) (last : B → Cmd (Unit {0}))
    → and_then (and_then run next) last ≡ and_then run (λ a m. and_then (next a m) last)
and_then_assoc (ok a m) next last = refl
and_then_assoc fault next last = refl
and_then_assoc hang next last = refl
and_then_assoc out_of_fuel next last = refl

console_loop-perform :
    (accesses : List Access) (k choice : ℕ) (m : Machine)
    → length accesses < k
    → IsInRange accesses
    → console_loop k choice (text_of accesses) m ≡ perform accesses m
unfolding text_of IsInRange perform console_loop fgets
console_loop-perform accesses zero choice m enough h = absurd (omega (arith, enough))
console_loop-perform [] (suc k) choice m enough h = refl
console_loop-perform (put pid vaddr val ∷ rest) (suc k) choice m enough
      ((low_pid, low_vaddr, low_val), h) =
    (console_loop-line_of pid tore vaddr val k choice (text_of rest) m low_pid low_vaddr low_val
      tore-IsPlain (length-line_of pid b'm' tore vaddr val (omega arith) low_vaddr low_val)).1
    ∙ and_then-same (store pid vaddr val m) (λ r. console_loop k 1 (text_of rest))
        (λ r. perform rest) (λ r m'. console_loop-perform rest k 1 m' (omega (arith, enough)) h)
console_loop-perform (get pid vaddr ∷ rest) (suc k) choice m enough ((low_pid, low_vaddr), h) =
    (console_loop-line_of pid oad vaddr 0 k choice (text_of rest) m low_pid low_vaddr (omega arith)
      oad-IsPlain (length-line_of pid b'm' oad vaddr 0 (omega arith) low_vaddr (omega arith))).2
    ∙ and_then-same (load pid vaddr 0 m) (λ r. console_loop k 2 (text_of rest)) (λ r. perform rest)
        (λ r m'. console_loop-perform rest k 2 m' (omega (arith, enough)) h)

console_loop-map_all :
    (maps : List Mapping) (accesses : List Access) (k choice : ℕ) (m : Machine)
    → length maps + length accesses < k
    → MapsInRange maps
    → IsInRange accesses
    → console_loop k choice (maps_text maps ++ text_of accesses) m
      ≡ and_then (map_all maps m) (λ u. perform accesses)
unfolding maps_text map_all
console_loop-map_all maps accesses zero choice m enough h g = absurd (omega (arith, enough))
console_loop-map_all [] accesses (suc k) choice m enough h g =
    console_loop-perform accesses (suc k) choice m (omega (arith, enough)) g
console_loop-map_all ((pid, vaddr, val) ∷ rest) accesses (suc k) choice m enough
      ((low_pid, low_vaddr, low_val), h) g =
    let last = maps_text rest ++ text_of accesses in
    ap (λ t. console_loop (suc k) choice t m)
      (append_assoc (line_of pid b'm' ap_word vaddr val) (maps_text rest) (text_of accesses))
    ∙ (console_loop-line_of pid ap_word vaddr val k choice last m low_pid low_vaddr low_val
        ap_word-IsPlain
        (length-line_of pid b'm' ap_word vaddr val (omega arith) low_vaddr low_val)).0
    ∙ and_then-same (map pid vaddr val m) (λ r. console_loop k 0 last)
        (λ r m'. and_then (map_all rest m') (λ u. perform accesses))
        (λ r m'. console_loop-map_all rest accesses k 0 m' (omega (arith, enough)) h g)
    ∙ sym (and_then_assoc (map pid vaddr val m) (λ r. map_all rest) (λ u. perform accesses))

length-text_of : (accesses : List Access) → length accesses ≤ length (text_of accesses)
unfolding text_of
length-text_of [] = omega arith
length-text_of (put pid vaddr val ∷ rest) = rw length-append (omega (arith, length-text_of rest))
length-text_of (get pid vaddr ∷ rest) = rw length-append (omega (arith, length-text_of rest))

length-maps_text : (maps : List Mapping) → length maps ≤ length (maps_text maps)
unfolding maps_text
length-maps_text [] = omega arith
length-maps_text ((pid, vaddr, val) ∷ rest) =
    rw length-append (omega (arith, length-maps_text rest))

-- On the text of a sequence of maps, and of stores and loads after them, with numbers in range, `main`
-- makes those calls from the machine that it sets up, one after the other, and nothing else.
main-perform :
    (maps : List Mapping) (accesses : List Access) (m : Machine)
    → MapsInRange maps
    → IsInRange accesses
    → main (maps_text maps ++ text_of accesses) m
      ≡ and_then (map_all maps (set_up m)) (λ u. perform accesses)
unfolding main instructions
main-perform maps accesses m h g =
    console_loop-map_all maps accesses (length (maps_text maps ++ text_of accesses) + 1) 255
      (set_up m) (rw length-append (omega (arith, length-maps_text maps, length-text_of accesses)))
      h g

-- The input is the text of a sequence of maps, and of stores and loads after them, with numbers in
-- range. Where the maps, called on the machine that `main` sets up, lead to one that holds a view in the
-- frames of a layout in which no page shares its frame with a page table or with another page, and the
-- stores and loads are on the layout's pages, `main` runs to its end, and the values that it shows after
-- those maps are those of the abstract memory that starts with the view.
pub main-specified :
    {l : Layout} {v : View} {mapped : Machine} (m : Machine) (maps : List Mapping)
    (accesses : List Access)
    → MapsInRange maps
    → IsInRange accesses
    → map_all maps (set_up m) ≡ ok tt mapped
    → IsApart l
    → IsWithin l accesses
    → Holds l v mapped
    → (m' : Machine) × (main (maps_text maps ++ text_of accesses) m ≡ ok tt m')
      × (shown m'.out ≡ shown mapped.out ++ specified accesses v)
main-specified {l} {v} {mapped} m maps accesses in_range in_range' run apart within h =
    let (m', performed, seen) = perform-specified {l = l} {v = v} accesses apart within h in
    (
      m',
      main-perform maps accesses m in_range in_range'
          ∙ ap (λ r. and_then r (λ u. perform accesses)) run
          ∙ performed,
      seen,
    )
