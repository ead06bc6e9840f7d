-- ===== src/Memory/SoundTests.antt =====
-- The theorems about whole runs of project4/memory.c at concrete inputs.
use cs3013_operating_systems.Prelude.{◌≡◌, ℕ, List, [], ◌∷◌, ◌++◌, arith, pos}
use cs3013_operating_systems.Memory.State.{init, and_then}
use cs3013_operating_systems.Memory.Sound.{IsSound, Ends, Any}
use cs3013_operating_systems.Memory.Evict.{free_space}
use cs3013_operating_systems.Memory.Evict.Sound.{free_space-IsSound}
use cs3013_operating_systems.Memory.Commands.{map, store, load}
use cs3013_operating_systems.Memory.Console.{main, console_loop}
use cs3013_operating_systems.Memory.Console.Line.{line_of}
use cs3013_operating_systems.Memory.Console.Rounds.{console_loop-line_of}
use cs3013_operating_systems.Memory.Text.{decimal}
use cs3013_operating_systems.Memory.Console.Sound.{init-IsSound, main-IsSound}

-- `0,m,0,1` and `0,s,1,77`
abbrev two_instructions : List ℕ
two_instructions =
    48 ∷ 44 ∷ 109 ∷ 44 ∷ 48 ∷ 44 ∷ 49 ∷ 10 ∷ 48 ∷ 44 ∷ 115 ∷ 44 ∷ 49 ∷ 44 ∷ 55 ∷ 55 ∷ 10 ∷ []

main_example : Ends IsSound Any (main two_instructions init)
main_example = main-IsSound two_instructions

free_space-IsSound_example : Ends IsSound Any (free_space 2 (pos 0) init)
free_space-IsSound_example = free_space-IsSound 2 (pos 0) (omega arith) init-IsSound

-- The rest of the three words
abbrev rest : List ℕ
rest = b'a' ∷ b'p' ∷ []

-- A line in front of another one.
console_loop-line_of_example :
    (console_loop 9 255 (line_of 1 b'm' rest 12 0 ++ two_instructions) init
      ≡ and_then (map 1 12 0 init) (λ r. console_loop 8 0 two_instructions))
    × (console_loop 9 255 (line_of 1 b's' rest 12 0 ++ two_instructions) init
        ≡ and_then (store 1 12 0 init) (λ r. console_loop 8 1 two_instructions))
    × (console_loop 9 255 (line_of 1 b'l' rest 12 0 ++ two_instructions) init
        ≡ and_then (load 1 12 0 init) (λ r. console_loop 8 2 two_instructions))
unfolding decimal
console_loop-line_of_example =
    console_loop-line_of 1 rest 12 0 8 255 two_instructions init (omega arith) (omega arith)
      (omega arith) ((λ e. cc, λ e. cc, λ e. cc), ((λ e. cc, λ e. cc, λ e. cc), tt)) (omega arith)
