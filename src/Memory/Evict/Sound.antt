-- ===== src/Memory/Evict/Sound.antt =====
-- The machine's soundness through `freespace` of project4/memory.c, and the rounds of its loops.
use cs3013_operating_systems.Prelude.{
  ℕ, zero, suc, ◌+◌, ◌%◌, ◌<◌, ◌≤◌, ◌≡◌, ◌≢◌, refl, ◌∙◌, ◌⊎◌, inl, inr, false, arith, ℤ, pos,
  get_elem?, some, ltb, Bool-cases, ◌==◌, ap, subst, ℕ_discrete, replicate,
}
use cs3013_operating_systems.Memory.State.{Machine, ok}
use cs3013_operating_systems.Memory.Sound.{
  At, IsSound, Ends, returns, Any, bind, Yields, yields, after, chain, finish, Yields-if, fetch-At,
}
use cs3013_operating_systems.Memory.Frames.{robin}
use cs3013_operating_systems.Memory.Frames.Sound.{count_free-At}
use cs3013_operating_systems.Memory.Evict.{
  Scan, table_round, table_rounds, eviction_fuel, free_space,
}
use cs3013_operating_systems.Memory.Evict.PageRounds.{
  steps, robin_counter, skip_own-Skipped, marked, marked_self, marked_other, Late, evict_page-At,
  evict_table-At, page_rounds-Outcome,
}

-- A round frees a frame, or it has met the page that was evicted, and then the next one does not.
abbrev Freed : ℕ → ℕ → Scan → Scan → Machine → Type 0
Freed q r s s' m = (IsSound m × (s'.f ≡ s.f + 1)) ⊎ ((s' ≡ s) × At (steps q 1) m × (r ≢ steps q 1))

table_round-Freed :
    {r : ℕ} {m : Machine} (pid : ℤ) (s : Scan) (q : ℕ)
    → s.removed ≡ marked q
    → q < 4
    → At r m
    → Yields (Freed q r s) (table_round pid s m)
unfolding table_round robin
table_round-Freed {r} {m} pid s q removed low h = chain (skip_own-Skipped pid h) λ own m₁ (sk, few).
    elim (ℕ_discrete (steps r own) q) [
      | yes back ↦
          (let read : get_elem? s.removed m₁.roundrobin ≡ some 1 =
              ap (get_elem? s.removed) (sk.at.counter ∙ back) ∙ marked_self s q low removed in
            rw read (
              yields (
                inr (
                  refl,
                  subst (λ k. At (steps k 1) (record m₁ { roundrobin = (m₁.roundrobin + 1) % 4 }))
                      back (robin_counter sk.at),
                  omega (arith, back, few, low),
                ))))
      | no other ↦
          (let read : get_elem? s.removed m₁.roundrobin ≡ some 0 =
              ap (get_elem? s.removed) sk.at.counter
              ∙ marked_other s q (steps r own) sk.at.low other removed in
            rw read (
              after (fetch-At sk.at (λ m. m.ispagetable) (pos m₁.roundrobin)) λ table m₂ h₂ _.
                Yields-if (table == 1) _ _
                  (λ _.
                    after (evict_table-At h₂)
                      λ u m₃ h₃ _. yields (inl ((_, robin_counter h₃), refl)))
                  (λ _.
                    after (evict_page-At h₂)
                      λ u m₃ h₃ _. yields (inl ((steps r own, search h₃), refl)))))
    ]

table_rounds-done :
    (k n : ℕ) (pid : ℤ) (s : Scan) (m : Machine) → n ≤ s.f → table_rounds k n pid s m ≡ ok tt m
unfolding table_rounds
table_rounds-done zero n pid s m h = let stop : ltb s.f n ≡ false = ground arith in rw stop
table_rounds-done (suc k) n pid s m h = let stop : ltb s.f n ≡ false = ground arith in rw stop

-- A round is enough where the counter has just left the page that was evicted.
table_rounds_last :
    {m : Machine} (k n : ℕ) (pid : ℤ) (s : Scan) (q : ℕ)
    → Late n q s
    → At (steps q 1) m
    → Ends IsSound Any (table_rounds (suc k) n pid s m)
unfolding table_rounds
table_rounds_last {m} k n pid s q (removed, low, near) h = elim (Bool-cases (ltb s.f n)) [
  | inr enough ↦ rw enough (returns (_, h) tt)
  | inl more ↦ rw more (
      finish (table_round-Freed pid s q removed low h) λ s' m₁ freed. elim freed [
        | inl (sound, e) ↦
            (let enough : n ≤ s'.f = omega (arith, e, near) in
              rw (table_rounds-done k n pid s' m₁ enough) (returns sound tt))
        | inr (same, at, left) ↦ absurd (left refl)
      ])
]

-- Two are enough from anywhere.
table_rounds-IsSound :
    {r : ℕ} {m : Machine} (k n : ℕ) (pid : ℤ) (s : Scan) (q : ℕ)
    → Late n q s
    → At r m
    → Ends IsSound Any (table_rounds (suc (suc k)) n pid s m)
unfolding table_rounds
table_rounds-IsSound {r} {m} k n pid s q (removed, low, near) h = elim (Bool-cases (ltb s.f n)) [
  | inr enough ↦ rw enough (returns (_, h) tt)
  | inl more ↦ rw more (
      finish (table_round-Freed pid s q removed low h) λ s' m₁ freed. elim freed [
        | inl (sound, e) ↦
            (let enough : n ≤ s'.f = omega (arith, e, near) in
              rw (table_rounds-done (suc k) n pid s' m₁ enough) (returns sound tt))
        | inr (same, at, left) ↦
            table_rounds_last k n pid s' q
              (ap (λ t. t.removed) same ∙ removed, low, omega (arith, near, ap (λ t. t.f) same)) at
      ])
]

-- From a sound machine, `freespace` for one frame or two ends, unless an access is out of range or a
-- scan hangs, and leaves a sound machine. Its fuel is enough.
pub free_space-IsSound :
    {m : Machine} (n : ℕ) (pid : ℤ) → n ≤ 2 → IsSound m → Ends IsSound Any (free_space n pid m)
unfolding free_space robin
free_space-IsSound {m} n pid two (r, h) = bind (count_free-At (robin_counter h)) λ f m₁ h₁ _.
    finish (page_rounds-Outcome 14 n pid (record { f = f; removed = replicate 4 0 }) two refl h₁)
      λ s m₂ out. elim out.1 [
        | inl enough ↦ rw (table_rounds-done eviction_fuel n pid s m₂ enough) (returns out.0 tt)
        | inr (q, late) ↦ table_rounds-IsSound 14 n pid s q late out.0.1
      ]
