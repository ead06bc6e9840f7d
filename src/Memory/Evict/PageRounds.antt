-- ===== src/Memory/Evict/PageRounds.antt =====
-- The rounds of the first loop of `freespace` of project4/memory.c.
use cs3013_operating_systems.Prelude.{
  ℕ, zero, suc, ◌+◌, ◌*◌, ◌%◌, ◌<◌, ◌≤◌, ◌≡◌, ◌≢◌, refl, ◌∙◌, sym, ◌⊎◌, inl, inr, false, List,
  arith, ℤ, pos, get_elem?, set, ℕ_discrete, get_elem?-set_self, get_elem?-set_ne, replicate, some,
  ltb, ◌==◌, ap, subst,
}
use cs3013_operating_systems.Memory.State.{Machine, Event, ok, num_pages, page_mem}
use cs3013_operating_systems.Memory.Sound.{
  At, IsSound, Ends, Any, bind, Yields-if, Yields, yields, after, chain, fetch-At,
}
use cs3013_operating_systems.Memory.Frames.{robin}
use cs3013_operating_systems.Memory.Paging.Sound.{remove_page-At, remove_page_table-At}
use cs3013_operating_systems.Memory.Evict.{
  is_table_of, skip_own, skip_tables, Scan, evict_page, evict_table, page_round, page_rounds,
}

-- the counter after `k` steps
abbrev pub steps : ℕ → ℕ → ℕ
steps r k = (r + k) % 4

pub robin_counter :
    {r : ℕ} {m : Machine}
    → At r m
    → At (steps r 1) (record m { roundrobin = (m.roundrobin + 1) % 4 })
robin_counter {r} {m} h =
    let counter : (m.roundrobin + 1) % 4 ≡ steps r 1 = omega (arith, h.counter) in
    let low : steps r 1 < num_pages = omega arith in search (h, counter, low)

pub said_counter :
    {r : ℕ} {m : Machine} (out : List Event)
    → At r m
    → At (steps r 1) (record m { roundrobin = (m.roundrobin + 1) % 4; out = out })
said_counter out h = search (robin_counter h)

-- How far the counter is after `j` steps of a round.
pub record Skipped (r j : ℕ) (m : Machine) : Type 0 where
  pub at : At (steps r j) m
  pub few : j ≤ 4

Skipped-next :
    {r j : ℕ} {m : Machine}
    → j < 4
    → At (steps r j) m
    → Skipped r (j + 1) (record m { roundrobin = (m.roundrobin + 1) % 4 })
Skipped-next {r} {j} {m} low h =
    let more : steps (steps r j) 1 ≡ steps r (j + 1) = omega arith in
    record {
      at =
          subst (λ k. At k (record m { roundrobin = (m.roundrobin + 1) % 4 })) more
            (robin_counter h);
      few = omega arith;
    }

Skipped-start : {r : ℕ} {m : Machine} → At r m → Skipped r 0 m
Skipped-start {r} {m} h =
    let same : r ≡ steps r 0 = omega (arith, h.low) in
    record { at = subst (λ k. At k m) same h; few = omega arith }

pub skip_own-Skipped :
    {r : ℕ} {m : Machine} (pid : ℤ)
    → At r m
    → Yields (λ j m'. Skipped r j m' × (j ≤ 1)) (skip_own pid m)
unfolding skip_own robin
skip_own-Skipped {r} {m} pid h = after (fetch-At h (λ m. m.hardware) pid) λ hp m₁ h₁ _.
    Yields-if (is_table_of m.roundrobin hp) _ _
      (λ own. yields (Skipped-next (omega arith) (Skipped-start h₁).at, omega arith))
      (λ other. yields (Skipped-start h₁, omega arith))

skip_tables-Skipped :
    {r : ℕ} (k j : ℕ) {m : Machine}
    → j < 4
    → 4 ≤ k + j
    → Skipped r j m
    → Yields (Skipped r) (skip_tables k j m)
unfolding skip_tables robin
skip_tables-Skipped zero j low enough h = absurd (omega arith)
skip_tables-Skipped {r} (suc k) j {m} low enough h =
    after (fetch-At h.at (λ m. m.ispagetable) (pos m.roundrobin)) λ table m₁ h₁ _.
      Yields-if (table == 1) _ _
        (λ is_table.
          Yields-if (j + 1 == 4) _ _
            (λ last.
              let all : j + 1 ≡ 4 = ground (arith, last) in
              yields (
                subst (λ n. Skipped r n (record m₁ { roundrobin = (m₁.roundrobin + 1) % 4 })) all
                  (Skipped-next low h₁)))
            (λ more.
              skip_tables-Skipped k (j + 1) (ground (arith, more)) (omega arith)
                (Skipped-next low h₁)))
        (λ free. yields (record { at = h₁; few = omega arith }))

abbrev pub none_evicted : List ℕ
none_evicted = replicate 4 0

-- `removed` after the page in frame `q` was evicted.
abbrev pub marked : ℕ → List ℕ
marked q = set (none_evicted) q 1

-- At most one more frame is needed, and the page in frame `q` was evicted.
abbrev pub Late : ℕ → ℕ → Scan → Type 0
Late n q s = (s.removed ≡ marked q) × (q < 4) × (n ≤ s.f + 1)

pub evict_page-At : {r : ℕ} {m : Machine} → At r m → Ends (At r) Any (evict_page m)
unfolding evict_page
evict_page-At {r} {m} h =
    bind (fetch-At h (λ m. m.pages) (pos m.roundrobin))
      λ owner m₁ h₁ _. remove_page-At owner (m.roundrobin * page_mem) h₁

pub evict_table-At : {r : ℕ} {m : Machine} → At r m → Ends (At r) Any (evict_table m)
unfolding evict_table
evict_table-At {r} {m} h =
    bind (fetch-At h (λ m. m.pages) (pos m.roundrobin))
      λ owner m₁ h₁ _. remove_page_table-At owner h₁

-- A round that evicts.
page_round-evicts :
    {r : ℕ} {m : Machine} (s : Scan)
    → At r m
    → get_elem? s.removed r ≡ some 0
    → Yields
        (λ s' m'. (s' ≡ record { f = s.f + 1; removed = set s.removed r 1 }) × At (steps r 1) m')
        (page_round s m)
unfolding page_round robin
page_round-evicts {r} {m} s h e =
    let gone : get_elem? s.removed m.roundrobin ≡ some 0 = ap (get_elem? s.removed) h.counter ∙ e in
    rw gone (
      after (evict_page-At h) λ u m₁ h₁ _. yields (
        ap (λ k. record { f = s.f + 1; removed = set s.removed k 1 }) h.counter,
        said_counter _ h₁,
      ))

page_round-stays :
    {r : ℕ} {m : Machine} (s : Scan)
    → At r m
    → get_elem? s.removed r ≡ some 1
    → Yields (λ s' m'. (s' ≡ s) × At (steps r 1) m') (page_round s m)
unfolding page_round robin
page_round-stays {r} {m} s h e =
    let gone : get_elem? s.removed m.roundrobin ≡ some 1 = ap (get_elem? s.removed) h.counter ∙ e in
    rw gone (yields (refl, robin_counter h))

none_gone : (r : ℕ) → r < 4 → get_elem? (none_evicted) r ≡ some 0
none_gone zero h = refl
none_gone (suc zero) h = refl
none_gone (suc (suc zero)) h = refl
none_gone (suc (suc (suc zero))) h = refl
none_gone (suc (suc (suc (suc r)))) h = absurd (omega arith)

pub marked_self : (s : Scan) (q : ℕ) → q < 4 → s.removed ≡ marked q → get_elem? s.removed q ≡ some 1
marked_self s q h e = ap (λ xs. get_elem? xs q) e ∙ get_elem?-set_self (none_evicted) q 1 h

pub marked_other :
    (s : Scan) (q r : ℕ) → r < 4 → r ≢ q → s.removed ≡ marked q → get_elem? s.removed r ≡ some 0
marked_other s q r h ne e =
    ap (λ xs. get_elem? xs r) e
    ∙ get_elem?-set_ne (none_evicted) {i = q} {j = r} 1 (λ same. ne (sym same))
    ∙ none_gone r h

abbrev pub Outcome : ℕ → Scan → Machine → Type 0
Outcome n s m = IsSound m × ((n ≤ s.f) ⊎ ((q : ℕ) × Late n q s))

page_rounds-done :
    (k n : ℕ) (pid : ℤ) (s : Scan) (m : Machine) → n ≤ s.f → page_rounds k n pid s m ≡ ok s m
unfolding page_rounds
page_rounds-done zero n pid s m h = let stop : ltb s.f n ≡ false = ground arith in rw stop
page_rounds-done (suc k) n pid s m h = let stop : ltb s.f n ≡ false = ground arith in rw stop

page_rounds-Late :
    {m : Machine} (k n : ℕ) (pid : ℤ) (s : Scan) (q : ℕ)
    → Late n q s
    → At (steps q 1) m
    → Yields (Outcome n) (page_rounds (suc k) n pid s m)
unfolding page_rounds
page_rounds-Late {m} k n pid s q (removed, low, near) h =
    Yields-if (ltb s.f n) _ _
      (λ more. chain (skip_own-Skipped pid h) λ own m₁ (sk, few).
        chain (skip_tables-Skipped 4 own (omega arith) (omega arith) sk) λ j m₂ at.
          elim (ℕ_discrete (steps (steps q 1) j) q) [
            | yes back ↦
                let last : j + 1 ≡ 4 = omega (arith, back, at.few) in
                chain
                  (page_round-stays s at.at
                    (ap (get_elem? s.removed) back ∙ marked_self s q low removed))
                  λ s' m₃ p.
                    Yields-if (j + 1 == 4) _ _
                      (λ _. yields ((_, p.1), inr (q, rw p.0 (removed, low, near))))
                      (λ no_stop. ground (arith, last, no_stop))
            | no other ↦
                chain (page_round-evicts s at.at (marked_other s q _ at.at.low other removed))
                  λ s' m₃ p.
                    let enough : n ≤ s'.f = rw p.0 near in
                    Yields-if (j + 1 == 4) _ _ (λ _. yields ((_, p.1), inl enough))
                      (λ _.
                        rw (page_rounds-done k n pid s' m₃ enough) (yields ((_, p.1), inl enough)))
          ])
      (λ enough. yields ((_, h), inl (ground (arith, enough))))

pub page_rounds-Outcome :
    {r : ℕ} {m : Machine} (k n : ℕ) (pid : ℤ) (s : Scan)
    → n ≤ 2
    → s.removed ≡ none_evicted
    → At r m
    → Yields (Outcome n) (page_rounds (suc (suc k)) n pid s m)
unfolding page_rounds
page_rounds-Outcome {r} {m} k n pid s two removed h =
    Yields-if (ltb s.f n) _ _
      (λ more. chain (skip_own-Skipped pid h) λ own m₁ (sk, few).
        chain (skip_tables-Skipped 4 own (omega arith) (omega arith) sk) λ j m₂ at.
          chain
            (page_round-evicts s at.at
              (ap (λ xs. get_elem? xs (steps r j)) removed ∙ none_gone _ at.at.low))
            λ s' m₃ p.
              let late : Late n (steps r j) s' = rw p.0 (rw removed, at.at.low, omega arith) in
              Yields-if (j + 1 == 4) _ _ (λ _. yields ((_, p.1), inr (steps r j, late)))
                (λ _. page_rounds-Late k n pid s' (steps r j) late p.1))
      (λ enough. yields ((_, h), inl (ground (arith, enough))))
