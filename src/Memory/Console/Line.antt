-- ===== src/Memory/Console/Line.antt =====
-- A line of the input of project4/memory.c: a process, a command, an address and a value.
use cs3013_operating_systems.Prelude.{
  ℕ, ◌+◌, ◌-◌, ◌%◌, ◌<◌, ◌≡◌, ◌≢◌, refl, some, List, [], ◌∷◌, ◌++◌, All, All-append, All-mono,
  arith, length-append, ◌∙◌, ltb, false,
}
use cs3013_operating_systems.Memory.State.{
  Machine, Run, ok, fault, hang, out_of_fuel, and_then, pure,
}
use cs3013_operating_systems.Memory.Text.{newline, decimal}
use cs3013_operating_systems.Memory.Text.Laws.{
  IsDigit, decimal-IsDigit, decimal-pos, atoi-decimal, strtok-append, strtok_last, atoi_line,
}
use cs3013_operating_systems.Memory.Commands.{map, store, load}
use cs3013_operating_systems.Memory.Console.{
  Instruction, comma, parse, choose, validate, dispatch, execute,
}

-- "1,map,12,0" and a newline, for the process 1, the word "map", and the numbers 12 and 0
abbrev pub line_of : (pid letter : ℕ) (word : List ℕ) (vaddr val : ℕ) → List ℕ
line_of pid letter word vaddr val =
    ((b'0' + pid) ∷ [])
    ++ (comma
        ∷ ((letter ∷ word)
            ++ (comma ∷ (decimal vaddr ++ (comma ∷ (decimal val ++ (newline ∷ [])))))))

digits-no_comma : (n : ℕ) → All (λ c. c ≢ comma) (decimal n)
digits-no_comma n = All-mono IsDigit (decimal n) (λ c h. omega arith) (decimal-IsDigit n)

module _ (pid letter : ℕ) (word : List ℕ) (vaddr val : ℕ) (digit : pid < 10)
    (no_comma : All (λ c. c ≢ comma) (letter ∷ word)) where
  abbrev line : List ℕ
  line = line_of pid letter word vaddr val

  abbrev instruction : Instruction
  instruction = record { pid = pid; letter = letter; vaddr = vaddr % 256; val = val % 256 }

  parse-line_of : parse line ≡ some instruction
  unfolding parse
  parse-line_of =
      let last = decimal val ++ (newline ∷ []) in
      let third = decimal vaddr ++ (comma ∷ last) in
      let process : (b'0' + pid + 256 - 48) % 256 ≡ pid = omega (arith, digit) in
      let e₁ =
        strtok-append comma ((b'0' + pid) ∷ []) ((letter ∷ word) ++ (comma ∷ third)) (omega arith)
          ((λ e. omega (arith, e)), tt) in
      let e₂ = strtok-append comma (letter ∷ word) third (omega arith) no_comma in
      let e₃ =
        strtok-append comma (decimal vaddr) last (decimal-pos vaddr) (digits-no_comma vaddr) in
      let e₄ = strtok_last comma last (rw length-append (omega arith)) (
        All-append (λ c. c ≢ comma) (decimal val) (newline ∷ []) (digits-no_comma val)
          ((λ e. cc), tt)) in
      rw (e₁, parse)
        (rw (e₂, parse)
          (rw (e₃, parse) (rw (e₄, parse) (rw (atoi-decimal vaddr, atoi_line val, process) refl))))

  execute-dispatch :
      (choice : ℕ) (m : Machine)
      → pid < 4
      → vaddr < 64
      → val < 256
      → execute choice line m
        ≡ and_then
            (dispatch
              (record { pid = pid; letter = letter; vaddr = vaddr; val = val })
              (choose letter choice)
              m)
            (λ u. pure (choose letter choice))
  unfolding execute validate
  execute-dispatch choice m low_pid low_vaddr low_val =
      let known : ltb 3 pid ≡ false = ground (arith, low_pid) in
      let in_space : ltb 63 vaddr ≡ false = ground (arith, low_vaddr) in
      let same_vaddr : vaddr % 256 ≡ vaddr = omega (arith, low_vaddr) in
      let same_val : val % 256 ≡ val = omega (arith, low_val) in
      rw (parse-line_of, execute) (rw (same_vaddr, same_val, known, in_space) refl)

drop_result :
    {A : Type 0} (k : ℕ) (run : Run A)
    → and_then (and_then run (λ a. pure tt)) (λ u. pure k) ≡ and_then run (λ a. pure k)
drop_result k (ok a m) = refl
drop_result k fault = refl
drop_result k hang = refl
drop_result k out_of_fuel = refl

-- What a round does with such a line.
pub execute-line_of :
    (pid : ℕ) (word : List ℕ) (vaddr val choice : ℕ) (m : Machine)
    → pid < 4
    → vaddr < 64
    → val < 256
    → All (λ c. c ≢ comma) word
    → (execute choice (line_of pid b'm' word vaddr val) m
        ≡ and_then (map pid vaddr val m) (λ r. pure 0))
      × (execute choice (line_of pid b's' word vaddr val) m
          ≡ and_then (store pid vaddr val m) (λ r. pure 1))
      × (execute choice (line_of pid b'l' word vaddr val) m
          ≡ and_then (load pid vaddr val m) (λ r. pure 2))
unfolding dispatch choose
execute-line_of pid word vaddr val choice m low_pid low_vaddr low_val no_comma = (
  execute-dispatch pid b'm' word vaddr val (omega arith) ((λ e. cc), no_comma) choice m low_pid
        low_vaddr low_val
      ∙ drop_result 0 (map pid vaddr val m),
  execute-dispatch pid b's' word vaddr val (omega arith) ((λ e. cc), no_comma) choice m low_pid
        low_vaddr low_val
      ∙ drop_result 1 (store pid vaddr val m),
  execute-dispatch pid b'l' word vaddr val (omega arith) ((λ e. cc), no_comma) choice m low_pid
        low_vaddr low_val
      ∙ drop_result 2 (load pid vaddr val m),
)
