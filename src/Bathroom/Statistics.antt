-- ===== src/Bathroom/Statistics.antt =====
-- `Finalize` of project3/bathroom.c, over the operations of `double` as a parameter. An `int` and a
-- `long` are not bounded.
pub mod Totals
mod Tests
use cs3013_operating_systems.Prelude.{
  ℕ, zero, suc, ◌*◌, ◌+◌, ◌/◌, ◌%◌, Bool, Option, none, some, List, [], ◌∷◌, if◌then◌else◌, ℤ, pos,
  negsuc, sub_ℕ, minus_one, eq_ℤ, add_ℤ,
}
use cs3013_operating_systems.Bathroom.Monitor.{Bathroom}

-- What the source uses of `double`.
pub record Double {ℓ} (F : Type ℓ) : Type ℓ where
  pub of_int : ℤ → F
  pub add : F → F → F
  pub sub : F → F → F
  pub mul : F → F → F
  pub divide : F → F → F

-- `struct timeval`
pub record Timeval : Type 0 where
  pub tv_sec : ℕ
  pub tv_usec : ℕ

-- The `timeval` of a number of microseconds.
abbrev pub timeval_at : ℕ → Timeval
timeval_at now = record { tv_sec = now / 1000000; tv_usec = now % 1000000 }

-- `1000000* (endtime.tv_sec - starttime.tv_sec)`, by the difference
abbrev pub seconds : ℤ → ℤ
seconds (pos k) = pos (1000000 * k)
seconds (negsuc k) = negsuc (1000000 * k + 999999)

-- `(endtime.tv_usec-starttime.tv_usec) + 1000000* (endtime.tv_sec - starttime.tv_sec)`
unfoldable pub elapsed : (starttime endtime : Timeval) → ℤ
elapsed starttime endtime =
    add_ℤ (sub_ℕ endtime.tv_usec starttime.tv_usec)
      (seconds (sub_ℕ endtime.tv_sec starttime.tv_sec))

-- The loop that adds the frequencies of an array.
unfoldable pub frequencies : ℤ → List ℤ → ℤ
frequencies total [] = total
frequencies total (z ∷ zs) = frequencies (if eq_ℤ z minus_one then total else add_ℤ total z) zs

-- What `Finalize` prints behind the arguments of the program.
pub record Statistics {ℓ} (F : Type ℓ) : Type ℓ where
  pub runtime : F
  pub uses : ℕ
  pub vacanttime : F
  pub occtime : F
  pub avgqlen : F
  pub avgnumusers : F

module _ {ℓ} {F : Type ℓ} (d : Double F) where
  -- The loop that adds the expected value of an array, from index `i` on.
  unfoldable pub expectation : (total : ℤ) → ℕ → F → List ℤ → F
  expectation total i average [] = average
  expectation total i average (z ∷ zs) =
      let term =
        d.mul (d.divide (d.mul (d.of_int z) (d.of_int (pos 1))) (d.of_int total))
          (d.of_int (pos i)) in
      expectation total (suc i) (if eq_ℤ z minus_one then average else d.add average term) zs

  -- `Finalize`, for a number of threads. `none`: the division by a number of 0.
  unfoldable pub finalize :
      (users : ℕ) (vacanttime : F) (starttime endtime : Timeval) → Bathroom → Option (Statistics F)
  unfolding expectation frequencies elapsed
  finalize zero vacanttime starttime endtime a = none
  finalize (suc k) vacanttime starttime endtime a =
      let million = d.of_int (pos 1000000) in
      let runtime = d.divide (d.of_int (elapsed starttime endtime)) million in
      let vacant = d.divide vacanttime million in
      some (record {
        runtime = runtime;
        uses = a.uses;
        vacanttime = vacant;
        occtime = d.sub runtime vacant;
        avgqlen =
            expectation (frequencies (pos 0) a.qarray) 0 (d.of_int (pos (a.ques / suc k))) a.qarray;
        avgnumusers =
            expectation (frequencies (pos 0) a.barray) 0 (d.of_int (pos (a.uses / suc k))) a.barray;
      })
