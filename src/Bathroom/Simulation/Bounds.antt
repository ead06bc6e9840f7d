-- ===== src/Bathroom/Simulation/Bounds.antt =====
-- The three waiting times that a thread of project3/bathroomsim.c prints.
use native.Mathlib.Nat.{le-div_iff_mul-le, div-le_of_le-mul}
use cs3013_operating_systems.Prelude.{
  ℕ, zero, suc, ◌+◌, ◌*◌, ◌/◌, ◌<◌, ◌≤◌, ◌≡◌, refl, ◌∙◌, ap, inl, inr, Bool, Bool-cases, true,
  false, List, [], ◌∷◌, map, All, All-mono, arith, ltb, pos, add_ℤ,
}
use cs3013_operating_systems.Bathroom.Simulation.{
  Use, Times, Printed, no_times, max_ℤ, min_ℤ, collect, collect_all, summary, individual,
}

-- A use whose time is not negative.
abbrev pub use_of : ℕ × Bool → Use
use_of (lapsed, wait) = record { lapsed = pos lapsed; wait = wait }

max_ℤ-pos : (x y : ℕ) → (k : ℕ) × (max_ℤ (pos x) (pos y) ≡ pos k) × (x ≤ k) × (y ≤ k)
max_ℤ-pos x y = elim (Bool-cases (ltb y x)) [
  | inl e ↦ (x, rw e refl, omega arith, ground (arith, e))
  | inr e ↦ (y, rw e refl, ground (arith, e), omega arith)
]

min_ℤ-pos : (x y : ℕ) → (k : ℕ) × (min_ℤ (pos x) (pos y) ≡ pos k) × (k ≤ x) × (k ≤ y)
min_ℤ-pos x y = elim (Bool-cases (ltb x y)) [
  | inl e ↦ (x, rw e refl, omega arith, ground (arith, e))
  | inr e ↦ (y, rw e refl, ground (arith, e), omega arith)
]

-- The sum of the waits lies between the number of waits times the extremes.
record Spread (t : Times) (low high : ℕ) : Type 0 where
  total : ℕ
  queuemin : t.queuemin ≡ pos low
  queuemax : t.queuemax ≡ pos high
  queuetime : t.queuetime ≡ pos total
  above : low * t.numwaits ≤ total
  below : total ≤ t.numwaits * high

more_below : (low k x n total : ℕ) → low * n ≤ total → k ≤ low → k ≤ x → k * (n + 1) ≤ total + x
more_below low k x n total h hk hx = grind arith

more_above : (high k x n total : ℕ) → total ≤ n * high → high ≤ k → x ≤ k → total + x ≤ (n + 1) * k
more_above high k x n total h hk hx = grind arith

still_above : (high k n total : ℕ) → total ≤ n * high → high ≤ k → total ≤ n * k
still_above high k n total h hk = grind arith

-- A round widens the extremes, to the time of the round where the thread waited.
record Wider (u : ℕ × Bool) (low high : ℕ) (t t' : Times) : Type 0 where
  low' : ℕ
  high' : ℕ
  spread : Spread t' low' high'
  lower : low' ≤ low
  higher : high ≤ high'
  counted : t.numwaits ≤ t'.numwaits
  between : u.1 ≡ true → (0 < t'.numwaits) × (low' ≤ u.0) × (u.0 ≤ high')

collect-Wider :
    (u : ℕ × Bool) (t : Times) (low high : ℕ)
    → Spread t low high
    → Wider u low high t (collect (use_of u) t)
unfolding collect
collect-Wider (x, false) t low high s =
    let (k, e, hx, hk) = max_ℤ-pos x high in
    record {
      low' = low;
      high' = k;
      spread = record {
        total = s.total;
        queuemin = s.queuemin;
        queuemax = ap (max_ℤ (pos x)) s.queuemax ∙ e;
        queuetime = s.queuetime;
        above = s.above;
        below = still_above high k t.numwaits s.total s.below hk;
      };
      lower = omega arith;
      higher = hk;
      counted = omega arith;
      between = λ h. cc;
    }
collect-Wider (x, true) t low high s =
    let (k, e, hx, hk) = max_ℤ-pos x high in
    let (k', e', hx', hk') = max_ℤ-pos x k in
    let (j, d, hj, hl) = min_ℤ-pos x low in
    record {
      low' = j;
      high' = k';
      spread = record {
        total = s.total + x;
        queuemin = ap (min_ℤ (pos x)) s.queuemin ∙ d;
        queuemax = ap (λ z. max_ℤ (pos x) (max_ℤ (pos x) z)) s.queuemax ∙ ap (max_ℤ (pos x)) e ∙ e';
        queuetime = ap (λ z. add_ℤ z (pos x)) s.queuetime;
        above = more_below low j x t.numwaits s.total s.above hl hj;
        below = more_above high k' x t.numwaits s.total s.below (omega (arith, hk, hk')) hx';
      };
      lower = hl;
      higher = omega (arith, hk, hk');
      counted = omega arith;
      between = λ h. (omega arith, hj, hx');
    }

-- The times of the rounds in which the thread waited.
abbrev pub waits : List (ℕ × Bool) → List ℕ
waits [] = []
waits ((x, true) ∷ us) = x ∷ waits us
waits ((x, false) ∷ us) = waits us

All-waits :
    (P : ℕ → Type 0) (u : ℕ × Bool) (us : List (ℕ × Bool))
    → (u.1 ≡ true → P u.0)
    → All P (waits us)
    → All P (waits (u ∷ us))
All-waits P (x, true) us h all = (h refl, all)
All-waits P (x, false) us h all = all

-- The times at the end, and where they stand to each round.
record Collected (us : List (ℕ × Bool)) (low high : ℕ) (t t' : Times) : Type 0 where
  low' : ℕ
  high' : ℕ
  spread : Spread t' low' high'
  lower : low' ≤ low
  higher : high ≤ high'
  counted : t.numwaits ≤ t'.numwaits
  between : All (λ x. (0 < t'.numwaits) × ((low' ≤ x) × (x ≤ high'))) (waits us)

collect_all-Collected :
    (us : List (ℕ × Bool)) (t : Times) (low high : ℕ)
    → Spread t low high
    → Collected us low high t (collect_all (map use_of us) t)
unfolding collect_all
collect_all-Collected [] t low high s = record {
  low' = low;
  high' = high;
  spread = s;
  lower = omega arith;
  higher = omega arith;
  counted = omega arith;
  between = tt;
}
collect_all-Collected (u ∷ us) t low high s =
    let w = collect-Wider u t low high s in
    let c = collect_all-Collected us (collect (use_of u) t) w.low' w.high' w.spread in
    record {
      low' = c.low';
      high' = c.high';
      spread = c.spread;
      lower = omega (arith, c.lower, w.lower);
      higher = omega (arith, c.higher, w.higher);
      counted = omega (arith, c.counted, w.counted);
      between =
          All-waits _ u us
            (λ h.
              let (some', below, above) = w.between h in
              (
                omega (arith, some', c.counted),
                (omega (arith, below, c.lower), omega (arith, above, c.higher)),
              ))
            c.between;
    }

-- What is printed.
data Summary (n : ℕ) (low high : ℕ) : Printed → Type 0 where
  nobody_waited :
      n ≡ 0 → Summary n low high (record { minimum = pos 0; average = pos 0; maximum = pos 0 })
  waited :
      (average : ℕ)
      → low ≤ average
      → average ≤ high
      → Summary n low high (record { minimum = pos low; average = pos average; maximum = pos high })

summary-Summary :
    (n total : ℕ) (t : Times) (low high : ℕ)
    → t.queuemin ≡ pos low
    → t.queuemax ≡ pos high
    → t.queuetime ≡ pos total
    → low * n ≤ total
    → total ≤ n * high
    → Summary n low high (summary n t)
unfolding summary
summary-Summary zero total t low high e₁ e₂ e₃ above below = nobody_waited refl
summary-Summary (suc n) total t low high e₁ e₂ e₃ above below =
    rw (e₁, e₂, e₃)
      (waited (total / suc n) ((le-div_iff_mul-le (omega arith)).1 above)
        (div-le_of_le-mul (suc n) below))

-- The average lies between the minimum and the maximum, and so does each wait.
abbrev pub Bounded : List ℕ → Printed → Type 0
Bounded xs p =
    (minimum : ℕ) × (average : ℕ) × (maximum : ℕ) × (p
      ≡ record { minimum = pos minimum; average = pos average; maximum = pos maximum })
    × (minimum ≤ average)
    × (average ≤ maximum)
    × All (λ x. (minimum ≤ x) × (x ≤ maximum)) xs

nobody : (P Q : ℕ → Type 0) (xs : List ℕ) {n : ℕ} → n ≡ 0 → All (λ x. (0 < n) × P x) xs → All Q xs
nobody P Q [] none all = tt
nobody P Q (x ∷ xs) none ((some', h), all) = absurd (omega (arith, some', none))

Summary-Bounded :
    {p : Printed} (n low high : ℕ) (xs : List ℕ)
    → Summary n low high p
    → All (λ x. (0 < n) × ((low ≤ x) × (x ≤ high))) xs
    → Bounded xs p
Summary-Bounded n low high xs (nobody_waited none) all =
    (0, 0, 0, refl, omega arith, omega arith, nobody (λ x. (low ≤ x) × (x ≤ high)) _ xs none all)
Summary-Bounded n low high xs (waited average above below) all =
    (low, average, high, refl, above, below, All-mono _ xs (λ x h. h.1) all)

no_times-Spread : Spread no_times 9999999 0
no_times-Spread = record {
  total = 0;
  queuemin = refl;
  queuemax = refl;
  queuetime = refl;
  above = omega arith;
  below = omega arith;
}

-- Where no time is negative, a thread prints numbers with minimum ≤ average ≤ maximum, and each time
-- that it waited lies between the minimum and the maximum.
pub individual-bounds : (us : List (ℕ × Bool)) → Bounded (waits us) (individual (map use_of us))
unfolding individual
individual-bounds us =
    let c = collect_all-Collected us no_times 9999999 0 no_times-Spread in
    let t = collect_all (map use_of us) no_times in
    Summary-Bounded t.numwaits c.low' c.high' (waits us)
      (summary-Summary t.numwaits c.spread.total t c.low' c.high' c.spread.queuemin
        c.spread.queuemax c.spread.queuetime c.spread.above c.spread.below)
      c.between
