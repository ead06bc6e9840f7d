-- ===== src/Commander/Version1/Tests.antt =====
-- The theorems about project1/mc0.c and mc1.c at their first inputs.
use cs3013_operating_systems.Prelude.{
  ℕ, zero, suc, ◌≡◌, refl, sym, ap, some, [], ◌∷◌, arith, pos, minus_one, replicate, get_elem?,
  false,
}
use cs3013_operating_systems.Memory.Text.{until}
use cs3013_operating_systems.Commander.Queue.{is_background}
use cs3013_operating_systems.Commander.Shell.{Input}
use cs3013_operating_systems.Commander.Shell as Mc2
use cs3013_operating_systems.Commander.Version1 as Mc1
use cs3013_operating_systems.Commander.Shell.Session.{session}
use cs3013_operating_systems.Commander.Version1.Programs.{SameSession, main-SameSession}
use cs3013_operating_systems.Commander.Version1.Agrees.{Agrees}
use cs3013_operating_systems.Commander.Version1.Agreement.{IsPlain}

replicated : {A : Type 0} (n i : ℕ) (c d : A) → get_elem? (replicate n d) i ≡ some c → d ≡ c
replicated zero i c d e = cc
replicated (suc n) zero c d e = cc
replicated (suc n) (suc i) c d e = replicated n i c d e

init-Agrees : Agrees Mc1.init Mc2.init
init-Agrees = record {
  added = refl;
  fits = omega arith;
  first = refl;
  numbers₁ = record {
    size = refl;
    used = λ i c l e. absurd (omega arith);
    unused = λ i c l e.
        ap (λ d. d.opnum)
          (sym (
            replicated 100 i c (record { word₀ = []; word₁ = []; commandname = []; opnum = pos 0 })
              e));
  };
  numbers₂ = record {
    size = refl;
    used = λ i c l e. absurd (omega arith);
    unused = λ i c l e.
        ap (λ d. d.opnum)
          (sym (
            replicated 100 i c
              (record {
                word₀ = [];
                word₁ = [];
                commandname = [];
                opnum = minus_one;
                background = false;
              })
              e));
  };
  idle = refl;
  stays = refl;
  words = λ i c d l e₁ e₂. absurd (omega arith);
}

-- `a`, and the line "ls -l"
abbrev add_ls : Input
add_ls = record {
  reaped = 0;
  choice = some b'a';
  line₁ = b'l' ∷ b's' ∷ b' ' ∷ b'-' ∷ b'l' ∷ 10 ∷ [];
  line₂ = [];
  stale = [];
  forked = 0;
}

add_ls-IsPlain : IsPlain add_ls
unfolding until is_background
add_ls-IsPlain = record {
  reaped = refl;
  no_list = λ e. ground (arith, e);
  no_slash = λ e. ground (arith, e);
  foreground = refl;
}

-- Then the choice to leave.
abbrev leave : Input
leave = record add_ls { choice = some b'e' }

leave-IsPlain : IsPlain leave
unfolding until is_background
leave-IsPlain = record {
  reaped = refl;
  no_list = λ e. ground (arith, e);
  no_slash = λ e. ground (arith, e);
  foreground = refl;
}

main-SameSession_example :
    SameSession (Mc1.main (add_ls ∷ leave ∷ []) Mc1.init) (session (add_ls ∷ leave ∷ []) Mc2.init)
main-SameSession_example =
    main-SameSession (add_ls ∷ leave ∷ []) Mc1.init Mc2.init (add_ls-IsPlain, (leave-IsPlain, tt))
      init-Agrees
