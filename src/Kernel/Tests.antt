-- ===== src/Kernel/Tests.antt =====
-- The theorems about the modules of project2 at concrete tables and registers.
use cs3013_operating_systems.Prelude.{
  ℕ, ◌+◌, ◌≡◌, refl, true, List, [], ◌∷◌, some, arith, pos, if◌then◌else◌, none, replicate, ◌==◌,
}
use cs3013_operating_systems.Memory.Text.{atoi}
use cs3013_operating_systems.Kernel.ProcAncestry.{main, report, zeroed, main-report}
use cs3013_operating_systems.Kernel.Ancestry.{
  Ancestry, Processes, parents, all_copied, with_pids, new_cs3013_syscall2,
  new_cs3013_syscall2-with_pids, new_cs3013_syscall2-children,
}
use cs3013_operating_systems.Kernel.Search.{table_at}
use cs3013_operating_systems.Kernel.Interceptor.{Kernel, Calls, boot}
use cs3013_operating_systems.Kernel.Calls.{new_sys_read}
use cs3013_operating_systems.Kernel.Part1.{Distinct, unload_loses_call}
use cs3013_operating_systems.Kernel.Part1 as Part1
use cs3013_operating_systems.Kernel.Part2.{unload_after_load}
use cs3013_operating_systems.Kernel.Part2 as Part2

-- A register with the protect bit on.
abbrev cr0 : ℕ
cr0 = 2147811379

abbrev calls : Calls
calls = record {
  nr_open = 2;
  nr_close = 3;
  nr_read = 0;
  nr_syscall1 = 355;
  nr_syscall2 = 356;
  new_sys_open = 9002;
  new_sys_close = 9003;
  new_sys_read = 9000;
  new_sys_syscall1 = 9355;
  new_sys_syscall2 = 9356;
}

abbrev table : ℕ → ℕ
table i = 5000 + i

calls-Distinct : Distinct calls
calls-Distinct = record {
  open_close = omega arith;
  open_read = omega arith;
  open_call = omega arith;
  close_read = omega arith;
  close_call = omega arith;
  read_call = omega arith;
}

unload_loses_call_example :
    (k : Kernel) × (k' : Kernel) × (Part1.interceptor_start calls (table_at 64) (boot table cr0)
      ≡ some (pos 0, k))
    × (k.table 2 ≡ 9002)
    × (k.table 3 ≡ 9003)
    × (k.table 0 ≡ 9000)
    × (k.table 355 ≡ 9355)
    × (Part1.interceptor_end calls k ≡ some k')
    × ((i : ℕ) → k'.table i ≡ (if i == 355 then 0 else table i))
    × (k'.cr0 ≡ cr0)
unload_loses_call_example = unload_loses_call calls table cr0 64 calls-Distinct refl

unload_after_load_example :
    (k : Kernel) × (k' : Kernel) × (Part2.interceptor_start calls (table_at 64) (boot table cr0)
      ≡ some (pos 0, k))
    × ((i : ℕ) → k.table i ≡ (if i == 356 then 9356 else table i))
    × (Part2.interceptor_end calls k ≡ some k')
    × ((i : ℕ) → k'.table i ≡ table i)
    × (k'.cr0 ≡ cr0)
unload_after_load_example = unload_after_load calls table cr0 64 refl

-- The buffer with "VIRUS" in it.
abbrev infected : List ℕ
infected = b'a' ∷ b'V' ∷ b'I' ∷ b'R' ∷ b'U' ∷ b'S' ∷ 0 ∷ []

-- Process 7 has the parent 5, whose parent is 1; processes 7 and 8 are the children of 5.
abbrev family : Processes
family = record {
  is_running = λ pid. true;
  children = λ pid. if pid == 5 then 7 ∷ 8 ∷ [] else [];
  parent = λ pid. if pid == 5 then 1 else 5;
}

abbrev empty_answer : Ancestry
empty_answer = record {
  ancestors = replicate 10 0;
  siblings = replicate 100 0;
  children = replicate 100 0;
}

new_cs3013_syscall2-with_pids_example : new_cs3013_syscall2 all_copied family 7 empty_answer ≡ (
  0,
  some (record {
    ancestors = with_pids (parents 10 family.parent 7) empty_answer.ancestors;
    siblings = 7 ∷ 8 ∷ replicate 98 0;
    children = replicate 100 0;
  }),
)
unfolding parents
new_cs3013_syscall2-with_pids_example =
    new_cs3013_syscall2-with_pids family 7 empty_answer refl (omega arith) (omega arith)
      (omega arith) (omega arith) refl refl refl

new_cs3013_syscall2-children_example :
    new_cs3013_syscall2 all_copied
      (record family { children = λ pid. replicate 120 9 })
      7
      empty_answer
    ≡ (1, none)
new_cs3013_syscall2-children_example =
    new_cs3013_syscall2-children (record family { children = λ pid. replicate 120 9 }) 7
      empty_answer refl (omega arith)

main-report_example :
    main all_copied family (some (b'7' ∷ [])) zeroed ≡ report 0 7 [] (7 ∷ 8 ∷ []) (5 ∷ 1 ∷ [])
unfolding parents atoi
main-report_example =
    main-report family (b'7' ∷ []) 7 refl refl (omega arith) (omega arith) (omega arith)
      (omega arith) tt (omega arith, (omega arith, tt)) (omega arith, (omega arith, tt))
