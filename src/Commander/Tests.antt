-- ===== src/Commander/Tests.antt =====
-- The theorems about project1/mc2.c at concrete queues and shells.
use cs3013_operating_systems.Prelude.{
  All, sub_ℕ, ◌-◌, ◌*◌, ◌/◌, ℕ, zero, suc, ◌+◌, ◌≡◌, refl, ◌≢◌, ap, sym, ◌↔◌, none, some, List, [],
  ◌∷◌, arith, get_elem?, length, replicate, minus_one, false, true,
}
use cs3013_operating_systems.Commander.Queue.{max_back, add_running, remove_background}
use cs3013_operating_systems.Commander.Queue.Laws.{In}
use cs3013_operating_systems.Commander.Queue.Tasks.{remove_background-In}
use cs3013_operating_systems.Commander.Queue.Defects.{remove_background_full}
use cs3013_operating_systems.Commander.Shell.{
  main_round, Command, Shell, Input, round, run, select, init,
}
use cs3013_operating_systems.Commander.Shell.Keeps.{IsTidy, Keeps, main_round-Keeps}
use cs3013_operating_systems.Bathroom.Statistics.{timeval_at}
use cs3013_operating_systems.Commander.Menu.{menu_version2}
use cs3013_operating_systems.Commander.Menu.Offers.{Offers, menu_version2-Offers}
use cs3013_operating_systems.Commander.Numbers.{set-HasNumbers}
use cs3013_operating_systems.Commander.Report.{
  Rusage, report_usage, report_version1, add_usage, reports_differ,
}
use cs3013_operating_systems.Commander.Shell.Laws.{
  new_command, with_command, IsNumbered, slash_runs_unused,
}

-- Three tasks.
abbrev three : List ℕ
three = 101 ∷ 102 ∷ 103 ∷ replicate 17 0

-- Twenty tasks, with pids from 101 on.
abbrev count_from : ℕ → ℕ → List ℕ
count_from zero a = []
count_from (suc n) a = a ∷ count_from n (a + 1)

remove_background_example :
    (r : List ℕ) × (remove_background 102 three ≡ some r)
    × (length r ≡ max_back)
    × (In 103 r ↔ (In 103 three × ◌≢◌ {A = ℕ} 103 102))
remove_background_example =
    remove_background-In 102 103 three (omega arith) (omega arith) refl (1, refl)

abbrev busy : List ℕ
busy = count_from max_back 101

count_from-get : (n a j q : ℕ) → get_elem? (count_from n a) j ≡ some q → q ≡ a + j
count_from-get zero a j q e = cc
count_from-get (suc n) a zero q e = ground (arith, e)
count_from-get (suc n) a (suc j) q e = omega (arith, count_from-get n (a + 1) j q e)

remove_background_full_example :
    (r : List ℕ) × (remove_background 103 busy ≡ some r) × (add_running 150 r ≡ (none, r))
remove_background_full_example =
    remove_background_full 103 150 2 busy refl (λ j e. omega (arith, count_from-get 20 101 j 0 e))
      refl (λ j e. omega (arith, count_from-get 20 101 j 103 e)) (omega arith)

unused_command : (n i : ℕ) (c d : Command) → get_elem? (replicate n d) i ≡ some c → d ≡ c
unused_command zero i c d e = cc
unused_command (suc n) zero c d e = cc
unused_command (suc n) (suc i) c d e = unused_command n i c d e

abbrev unset_command : Command
unset_command = record {
  word₀ = [];
  word₁ = [];
  commandname = [];
  opnum = minus_one;
  background = false;
}

init-IsNumbered : IsNumbered init
init-IsNumbered = record {
  size = refl;
  used = λ i c l e. absurd (omega arith);
  unused = λ i c l e. ap (λ d. d.opnum) (sym (unused_command 100 i c unset_command e));
}

-- `a`, and the line "ls -l"
abbrev input : Input
input = record {
  reaped = 0;
  choice = some b'a';
  line₁ = b'l' ∷ b's' ∷ b' ' ∷ b'-' ∷ b'l' ∷ 10 ∷ [];
  line₂ = [];
  stale = [];
  forked = 0;
}

init-IsTidy : IsTidy init
init-IsTidy = record { numbered = init-IsNumbered; fits = omega arith; queue = refl }

main_round-Keeps_example : Keeps (main_round input init)
main_round-Keeps_example = main_round-Keeps input init-IsTidy

slash_runs_unused_example : select input b'/' init ≡ round true init (run ([] ∷ [] ∷ []) ∷ [])
slash_runs_unused_example = slash_runs_unused input init _ init-IsNumbered refl refl

-- The shell after "a b" was added.
abbrev one_added : Shell
one_added = with_command (new_command (b'a' ∷ []) (b'b' ∷ []) (b'a' ∷ 32 ∷ b'b' ∷ []) [] 0) init

one_added-IsNumbered : IsNumbered one_added
one_added-IsNumbered = set-HasNumbers init.commands 0 _ init-IsNumbered (omega arith) refl

menu_version2-Offers_example : All (Offers one_added) (menu_version2 one_added)
menu_version2-Offers_example = menu_version2-Offers one_added one_added-IsNumbered

-- A child with 30 page faults, 2 of them from the disk, that takes 600 microseconds.
abbrev usage : Rusage
usage = record { ru_minflt = 30; ru_majflt = 2 }

reports_differ_example :
    let version1 = report_version1 (timeval_at 999800) (timeval_at 1000400) usage in
    let version2 =
      report_usage (timeval_at 999800) (timeval_at 1000400) usage (add_usage usage usage) in
    (version1.page_faults ≡ version2.page_faults_reclaimed)
    × (version1.page_faults_reclaimed ≡ version2.page_faults)
    × (version1.runtime ≡ version2.runtime)
    × (version1.runtime
        ≡ sub_ℕ (1000400 - 999800) (1000000 * (1000400 / 1000000 - 999800 / 1000000)))
reports_differ_example = reports_differ 999800 1000400 usage usage (omega arith)
