-- ===== src/Commander/Report.antt =====
-- The statistics that `run` prints in project1/mc0.c, mc1.c and mc2.c.
use cs3013_operating_systems.Prelude.{
  ℕ, ◌+◌, ◌-◌, ◌*◌, ◌/◌, ◌%◌, ◌≤◌, ◌≡◌, refl, sym, ℤ, pos, sub_ℕ, arith, Difference-unique,
  sub_ℕ-Difference, shift_Difference,
}
use cs3013_operating_systems.Bathroom.Statistics.{Timeval, timeval_at}

-- What the source uses of `struct rusage`.
pub record Rusage : Type 0 where
  pub ru_minflt : ℕ
  pub ru_majflt : ℕ

-- The numbers that are printed. `runtime` is in microseconds, and printed in milliseconds.
pub record Report : Type 0 where
  pub runtime : ℤ
  pub page_faults : ℤ
  pub page_faults_reclaimed : ℤ

-- `run` of mc0.c and mc2.c, from the usage of all children before and after the wait
unfoldable pub report_usage : (start end : Timeval) (rstart rend : Rusage) → Report
report_usage start end rstart rend =
    let minfaults = sub_ℕ rend.ru_minflt rstart.ru_minflt in
    let majfaults = sub_ℕ rend.ru_majflt rstart.ru_majflt in
    record {
      runtime = sub_ℕ end.tv_usec start.tv_usec;
      page_faults = minfaults;
      page_faults_reclaimed = majfaults;
    }

-- `run` of mc1.c, from the usage of the child that `wait4` reports
unfoldable pub report_version1 : (start end : Timeval) (r : Rusage) → Report
report_version1 start end r = record {
  runtime = sub_ℕ end.tv_usec start.tv_usec;
  page_faults = pos r.ru_majflt;
  page_faults_reclaimed = pos r.ru_minflt;
}

-- The usage of all children once another one is added to it, as the manual page of `getrusage` has it.
abbrev pub add_usage : Rusage → Rusage → Rusage
add_usage all r = record {
  ru_minflt = all.ru_minflt + r.ru_minflt;
  ru_majflt = all.ru_majflt + r.ru_majflt;
}

sub_ℕ-added : (a b : ℕ) → sub_ℕ (a + b) a ≡ pos b
sub_ℕ-added a b = Difference-unique (pos b) (a + b) a (omega arith)

usec-elapsed :
    (begin end : ℕ)
    → begin ≤ end
    → sub_ℕ (end % 1000000) (begin % 1000000)
      ≡ sub_ℕ (end - begin) (1000000 * (end / 1000000 - begin / 1000000))
usec-elapsed begin end h = sym (
    Difference-unique (sub_ℕ (end % 1000000) (begin % 1000000)) _ _ (
      shift_Difference (sub_ℕ (end % 1000000) (begin % 1000000)) (end % 1000000) (begin % 1000000) _
        _ (omega arith) (sub_ℕ-Difference (end % 1000000) (begin % 1000000))))

-- For one child, the versions print the two numbers of page faults under each other's names, and both
-- print the microseconds that it took less a million for each full second that the clock turned over.
pub reports_differ :
    (begin end : ℕ) (all r : Rusage)
    → begin ≤ end
    → let version1 = report_version1 (timeval_at begin) (timeval_at end) r in
      let version2 = report_usage (timeval_at begin) (timeval_at end) all (add_usage all r) in
      (version1.page_faults ≡ version2.page_faults_reclaimed)
      × (version1.page_faults_reclaimed ≡ version2.page_faults)
      × (version1.runtime ≡ version2.runtime)
      × (version1.runtime ≡ sub_ℕ (end - begin) (1000000 * (end / 1000000 - begin / 1000000)))
unfolding report_usage report_version1
reports_differ begin end all r h = (
  sym (sub_ℕ-added all.ru_majflt r.ru_majflt),
  sym (sub_ℕ-added all.ru_minflt r.ru_minflt),
  refl,
  usec-elapsed begin end h,
)
