-- ===== src/Bathroom/Statistics/Totals.antt =====
-- The sums in `Finalize` of project3/bathroom.c.
use cs3013_operating_systems.Prelude.{
  ℕ, zero, suc, ◌+◌, ◌*◌, ◌/◌, ◌%◌, ◌≡◌, refl, sym, ap, ◌∙◌, some, List, [], ◌∷◌, ℤ, pos, negsuc,
  sub_ℕ, Difference, Difference-unique, sub_ℕ-Difference, add_ℤ-Difference, arith, All,
}
use cs3013_operating_systems.Bathroom.Monitor.{Bathroom}
use cs3013_operating_systems.Bathroom.System.{System, start, Steps}
use cs3013_operating_systems.Bathroom.System.Arrays.{total_writes, AtLeastMinusOne}
use cs3013_operating_systems.Bathroom.System.Recorded.{reachable-Recorded}
use cs3013_operating_systems.Bathroom.Statistics.{
  Double, Statistics, timeval_at, seconds, elapsed, frequencies, finalize,
}

split : (n : ℕ) → n % 1000000 + 1000000 * (n / 1000000) ≡ n
split n = omega arith

seconds-Difference :
    (z : ℤ) (a b : ℕ) → Difference z a b → Difference (seconds z) (1000000 * a) (1000000 * b)
seconds-Difference (pos k) a b h = omega arith
seconds-Difference (negsuc k) a b h = omega arith

-- The time that `Finalize` computes from the seconds and the microseconds of two times is the number of
-- microseconds between them.
pub elapsed-timeval_at : (a b : ℕ) → elapsed (timeval_at a) (timeval_at b) ≡ sub_ℕ b a
unfolding elapsed
elapsed-timeval_at a b =
    let whole : Difference (elapsed (timeval_at a) (timeval_at b)) _ _ =
      add_ℤ-Difference (sub_ℕ (b % 1000000) (a % 1000000))
        (seconds (sub_ℕ (b / 1000000) (a / 1000000))) _ _ _ _
        (sub_ℕ-Difference (b % 1000000) (a % 1000000))
        (seconds-Difference (sub_ℕ (b / 1000000) (a / 1000000)) _ _
          (sub_ℕ-Difference (b / 1000000) (a / 1000000))) in
    sym (
      sym (λ i. sub_ℕ (split b i) (split a i))
      ∙ Difference-unique (elapsed (timeval_at a) (timeval_at b)) _ _ whole)

-- Where there is a thread, `Finalize` comes to its end, and the run time that it prints is the number of
-- microseconds from the start to the end over a million, whatever seconds these lie in; the occupied time
-- is the rest that the vacant time leaves.
pub finalize-runtime {ℓ} :
    {F : Type ℓ} (d : Double F) (k : ℕ) (vacanttime : F) (begin end : ℕ) (a : Bathroom)
    → (r : Statistics F) × (finalize d (suc k) vacanttime (timeval_at begin) (timeval_at end) a
        ≡ some r)
      × (r.runtime ≡ d.divide (d.of_int (sub_ℕ end begin)) (d.of_int (pos 1000000)))
      × (r.occtime ≡ d.sub r.runtime r.vacanttime)
unfolding finalize
finalize-runtime d k vacanttime begin end a = (
  _,
  refl,
  ap (λ (z : ℤ). d.divide (d.of_int z) (d.of_int (pos 1000000))) (elapsed-timeval_at begin end),
  refl,
)

-- The entries that are not -1.
abbrev pub entries_used : List ℤ → ℕ
entries_used [] = 0
entries_used (pos k ∷ zs) = suc (entries_used zs)
entries_used (negsuc k ∷ zs) = entries_used zs

impossible_entry : (k : ℕ) {A : Type 0} → AtLeastMinusOne (negsuc (suc k)) → A
impossible_entry k (n, e, was) = ground arith

frequencies-writes :
    (k : ℕ) (zs : List ℤ)
    → All AtLeastMinusOne zs
    → (total : ℕ) × (frequencies (pos k) zs ≡ pos total)
      × (total + entries_used zs ≡ k + total_writes zs)
unfolding frequencies
frequencies-writes k [] h = (k, refl, omega arith)
frequencies-writes k (pos z ∷ zs) h =
    let (total, e, eq) = frequencies-writes (k + z) zs h.1 in (total, e, omega (arith, eq))
frequencies-writes k (negsuc zero ∷ zs) h =
    let (total, e, eq) = frequencies-writes k zs h.1 in (total, e, omega (arith, eq))
frequencies-writes k (negsuc (suc z) ∷ zs) h = impossible_entry z h.0

-- In every state that the threads can reach, the totals of the frequencies that `Finalize` divides by are
-- not negative, and with one more for each entry that is not -1, and the writes behind the arrays, they
-- add up to the uses and the waits.
pub frequencies_fall_short :
    {n : ℕ} {s : System}
    → Steps n (start n) s
    → (bper qper : ℕ) × (frequencies (pos 0) s.room.barray ≡ pos bper)
      × (frequencies (pos 0) s.room.qarray ≡ pos qper)
      × (bper + entries_used s.room.barray + (qper + entries_used s.room.qarray) + s.room.overruns
          ≡ s.room.uses + s.room.ques)
frequencies_fall_short {n} {s} reach =
    let a = (reachable-Recorded reach).arrays in
    let (bper, e, short) = frequencies-writes 0 s.room.barray a.users in
    let (qper, e', short') = frequencies-writes 0 s.room.qarray a.queue in
    (bper, qper, e, e', omega (arith, short, short', a.total))
