-- ===== src/Bathroom/Simulation.antt =====
-- The waiting times that a thread of project3/bathroomsim.c collects in `Individual`. The times that it
-- measures are parameters, and an `int` is not bounded.
pub mod Bounds
use cs3013_operating_systems.Prelude.{
  ℕ, zero, suc, ◌+◌, Bool, true, false, List, [], ◌∷◌, if◌then◌else◌, ℤ, pos, lt_ℤ, add_ℤ, div_ℤ,
}

-- A round of the loop: the time that `Enter` took, and whether the thread waited.
pub record Use : Type 0 where
  pub lapsed : ℤ
  pub wait : Bool

pub record Times : Type 0 where
  pub queuemin : ℤ
  pub queuemax : ℤ
  pub queuetime : ℤ
  pub numwaits : ℕ

abbrev pub no_times : Times
no_times = record { queuemin = pos 9999999; queuemax = pos 0; queuetime = pos 0; numwaits = 0 }

-- `if (lapsed > queuemax) { queuemax = lapsed; }`, and the same for the minimum
abbrev pub max_ℤ : ℤ → ℤ → ℤ
max_ℤ lapsed queuemax = if lt_ℤ queuemax lapsed then lapsed else queuemax

abbrev pub min_ℤ : ℤ → ℤ → ℤ
min_ℤ lapsed queuemin = if lt_ℤ lapsed queuemin then lapsed else queuemin

-- The end of a round.
unfoldable pub collect : Use → Times → Times
collect u t =
    let t' = record t { queuemax = max_ℤ u.lapsed t.queuemax } in
    if u.wait
    then (record {
      queuemin = min_ℤ u.lapsed t'.queuemin;
      queuemax = max_ℤ u.lapsed t'.queuemax;
      queuetime = add_ℤ t'.queuetime u.lapsed;
      numwaits = t'.numwaits + 1;
    })
    else t'

unfoldable pub collect_all : List Use → Times → Times
unfolding collect
collect_all [] t = t
collect_all (u ∷ us) t = collect_all us (collect u t)

-- What the thread prints: the minimum, the average and the maximum.
pub record Printed : Type 0 where
  pub minimum : ℤ
  pub average : ℤ
  pub maximum : ℤ

-- The end of `Individual`, by the number of waits.
unfoldable pub summary : ℕ → Times → Printed
summary zero t = record { minimum = pos 0; average = pos 0; maximum = pos 0 }
summary (suc n) t = record {
  minimum = t.queuemin;
  average = div_ℤ t.queuetime (suc n);
  maximum = t.queuemax;
}

unfoldable pub individual : List Use → Printed
unfolding collect_all summary
individual us = let t = collect_all us no_times in summary t.numwaits t
