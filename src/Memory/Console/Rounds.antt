-- ===== src/Memory/Console/Rounds.antt =====
-- A round of the loop of `main` of project4/memory.c on a line of the input.
use cs3013_operating_systems.Prelude.{
  ℕ, suc, ◌+◌, ◌<◌, ◌≤◌, ◌≡◌, ◌≢◌, refl, sym, ap, ◌∙◌, some, List, [], ◌∷◌, ◌++◌, All, All-append,
  All-mono, arith, length, length-append, false,
}
use mathlib.Core.List.{append_assoc}
use cs3013_operating_systems.Memory.State.{
  Machine, Run, ok, fault, hang, out_of_fuel, Cmd, and_then, pure,
}
use cs3013_operating_systems.Memory.Text.{newline, decimal, fgets, c_string}
use cs3013_operating_systems.Memory.Text.Laws.{
  IsDigit, decimal-IsDigit, fgets-append, until_undelimited,
}
use cs3013_operating_systems.Memory.Commands.{map, store, load}
use cs3013_operating_systems.Memory.Console.{comma, execute, is_short, console_loop}
use cs3013_operating_systems.Memory.Console.Line.{line_of, execute-line_of}

-- A character that can stand in a word: no comma, no end of a line, no end of a string.
abbrev pub IsPlain : ℕ → Type 0
IsPlain c = (c ≢ comma) × (c ≢ newline) × (c ≢ 0)

-- A line without its newline.
abbrev front : (pid letter : ℕ) (word : List ℕ) (vaddr val : ℕ) → List ℕ
front pid letter word vaddr val =
    (b'0' + pid) ∷ comma ∷ letter ∷ (word ++ (comma ∷ (decimal vaddr ++ (comma ∷ decimal val))))

line_of-front :
    (pid letter : ℕ) (word : List ℕ) (vaddr val : ℕ) (rest : List ℕ)
    → line_of pid letter word vaddr val ++ rest
      ≡ front pid letter word vaddr val ++ (newline ∷ rest)
line_of-front pid letter word vaddr val rest = simp append_assoc refl

-- A character of the line that is none of the word, for a test that numbers pass.
front-All :
    (d : ℕ) (pid letter : ℕ) (word : List ℕ) (vaddr val : ℕ)
    → d < b'+'
    → letter ≢ d
    → All (λ c. c ≢ d) word
    → All (λ c. c ≢ d) (front pid letter word vaddr val)
front-All d pid letter word vaddr val low h in_word =
    let digits : (n : ℕ) → All (λ c. c ≢ d) (decimal n) =
      λ n. All-mono IsDigit (decimal n) (λ c h'. omega (arith, low, h')) (decimal-IsDigit n) in
    let tail =
      All-append (λ c. c ≢ d) (decimal vaddr) (comma ∷ decimal val) (digits vaddr)
        ((λ e. omega (arith, low, e)), digits val) in
    (
      λ e. omega (arith, low, e),
      (
        λ e. omega (arith, low, e),
        (
          h,
          All-append (λ c. c ≢ d) word (comma ∷ (decimal vaddr ++ (comma ∷ decimal val))) in_word
              ((λ e. omega (arith, low, e)), tail),
        ),
      ),
    )

module _ (pid letter : ℕ) (word : List ℕ) (vaddr val : ℕ)
    (short : length (line_of pid letter word vaddr val) ≤ 19) (plain_letter : IsPlain letter)
    (plain : All IsPlain word) where
  abbrev line : List ℕ
  line = line_of pid letter word vaddr val

  ended : line ≡ front pid letter word vaddr val ++ (newline ∷ [])
  ended = simp append_assoc refl

  -- The first line of the input.
  fgets-line_of : (rest : List ℕ) → fgets 19 (line ++ rest) ≡ some (line, rest)
  fgets-line_of rest =
      let fits : length (front pid letter word vaddr val) < 19 =
        let size = ap length ended in
        let one_more = length-append (front pid letter word vaddr val) (newline ∷ []) in
        omega (arith, short, size, one_more) in
      ap (fgets 19) (line_of-front pid letter word vaddr val rest)
      ∙ fgets-append 19 (front pid letter word vaddr val) rest fits (
          front-All newline pid letter word vaddr val (omega arith) plain_letter.1
            (All-mono IsPlain word (λ c h. h.1) plain))
      ∙ ap (λ l. some (l, rest)) (sym ended)

  c_string-line_of : c_string line ≡ line
  c_string-line_of =
      let no_zero =
        All-append (λ c. c ≢ 0) (front pid letter word vaddr val) (newline ∷ [])
          (front-All 0 pid letter word vaddr val (omega arith) plain_letter.2
            (All-mono IsPlain word (λ c h. h.2) plain))
          ((λ e. cc), tt) in
      ap c_string ended
      ∙ ap (λ r. r.0)
          (until_undelimited 0 (front pid letter word vaddr val ++ (newline ∷ [])) no_zero)
      ∙ sym ended

  -- A round of the loop on such a line.
  console_loop-execute :
      (k choice : ℕ) (rest : List ℕ) (m : Machine)
      → console_loop (suc k) choice (line ++ rest) m
        ≡ and_then (execute choice line m) (λ choice'. console_loop k choice' rest)
  unfolding console_loop
  console_loop-execute k choice rest m =
      let long : is_short (c_string line) ≡ false =
        ap is_short c_string-line_of
        ∙ (let starts : is_short line ≡ false = ground arith in starts) in
      rw (fgets-line_of rest, console_loop) (rw (long, console_loop) refl)
      ∙ ap (λ l. and_then (execute choice l m) (λ choice'. console_loop k choice' rest))
          c_string-line_of

then :
    (run : Run ℕ) (choice : ℕ) (next : ℕ → Cmd (Unit {0}))
    → and_then (and_then run (λ r. pure choice)) next ≡ and_then run (λ r. next choice)
then (ok r m) choice next = refl
then fault choice next = refl
then hang choice next = refl
then out_of_fuel choice next = refl

m-IsPlain : IsPlain b'm'
m-IsPlain = (λ e. cc, λ e. cc, λ e. cc)

s-IsPlain : IsPlain b's'
s-IsPlain = (λ e. cc, λ e. cc, λ e. cc)

l-IsPlain : IsPlain b'l'
l-IsPlain = (λ e. cc, λ e. cc, λ e. cc)

-- Where the input goes on with a line of at most 19 characters, its newline among them, with a process
-- below 4, a word that starts with m, s or l and has no comma, newline or NUL behind it, an address below
-- 64 and a value below 256, a round of the loop of `main` calls map, store or load with those numbers,
-- and goes on with the rest of the input.
pub console_loop-line_of :
    (pid : ℕ) (word : List ℕ) (vaddr val k choice : ℕ) (rest : List ℕ) (m : Machine)
    → pid < 4
    → vaddr < 64
    → val < 256
    → All IsPlain word
    → length (line_of pid b'm' word vaddr val) ≤ 19
    → (console_loop (suc k) choice (line_of pid b'm' word vaddr val ++ rest) m
        ≡ and_then (map pid vaddr val m) (λ r. console_loop k 0 rest))
      × (console_loop (suc k) choice (line_of pid b's' word vaddr val ++ rest) m
          ≡ and_then (store pid vaddr val m) (λ r. console_loop k 1 rest))
      × (console_loop (suc k) choice (line_of pid b'l' word vaddr val ++ rest) m
          ≡ and_then (load pid vaddr val m) (λ r. console_loop k 2 rest))
console_loop-line_of pid word vaddr val k choice rest m low_pid low_vaddr low_val plain short =
    let next : ℕ → Cmd (Unit {0}) = λ choice'. console_loop k choice' rest in
    let no_comma = All-mono IsPlain word (λ c h. h.0) plain in
    let calls = execute-line_of pid word vaddr val choice m low_pid low_vaddr low_val no_comma in
    (
      console_loop-execute pid b'm' word vaddr val short m-IsPlain plain k choice rest m
          ∙ ap (λ run. and_then run next) calls.0
          ∙ then (map pid vaddr val m) 0 next,
      console_loop-execute pid b's' word vaddr val short s-IsPlain plain k choice rest m
          ∙ ap (λ run. and_then run next) calls.1
          ∙ then (store pid vaddr val m) 1 next,
      console_loop-execute pid b'l' word vaddr val short l-IsPlain plain k choice rest m
          ∙ ap (λ run. and_then run next) calls.2
          ∙ then (load pid vaddr val m) 2 next,
    )
