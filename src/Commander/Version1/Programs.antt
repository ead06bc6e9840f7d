-- ===== src/Commander/Version1/Programs.antt =====
-- project1/mc1.c and project1/mc2.c as whole programs.
use cs3013_operating_systems.Prelude.{
  ◌≡◌, refl, sym, ap, ◌∙◌, true, false, not, Option, none, some, List, [], ◌∷◌, ◌++◌, All,
  replicate,
}
use cs3013_operating_systems.Commander.Queue.{max_back, empty_background}
use cs3013_operating_systems.Commander.Shell.{
  Input, Shell, Action, run, started, queue_full, added_with_id, listing, changed_to, invalid_input,
  logging_out,
}
use cs3013_operating_systems.Commander.Shell as Mc2
use cs3013_operating_systems.Commander.Shell.Session.{Session, and_then, close, session}
use cs3013_operating_systems.Commander.Version1 as Mc1
use cs3013_operating_systems.Commander.Version1.{Storage}
use cs3013_operating_systems.Commander.Version1.Agreement.{IsPlain, main_round-Matches}
use cs3013_operating_systems.Commander.Version1.Agrees.{Agrees, done, Matches, crashes, rounds}

done-append : (xs ys : List Action) → done (xs ++ ys) ≡ done xs ++ done ys
unfolding done
done-append [] ys = refl
done-append (run args ∷ xs) ys = ap (λ r. run args ∷ r) (done-append xs ys)
done-append (started index pid ∷ xs) ys = ap (λ r. started index pid ∷ r) (done-append xs ys)
done-append (queue_full ∷ xs) ys = ap (λ r. queue_full ∷ r) (done-append xs ys)
done-append (added_with_id n ∷ xs) ys = ap (λ r. added_with_id n ∷ r) (done-append xs ys)
done-append (listing l ∷ xs) ys = ap (λ r. listing l ∷ r) (done-append xs ys)
done-append (changed_to t ∷ xs) ys = ap (λ r. changed_to t ∷ r) (done-append xs ys)
done-append (invalid_input ∷ xs) ys = done-append xs ys
done-append (logging_out ∷ xs) ys = ap (λ r. logging_out ∷ r) (done-append xs ys)

-- Both programs crash, or do the same, and mc2.c waits for no background task.
pub data SameSession : Option (List Action) → Option Session → Type 0 where
  both_crash : SameSession none none
  same_actions :
      {acts : List Action} {s : Session}
      → done acts ≡ done s.actions
      → s.waits ≡ false
      → SameSession (some acts) (some s)

prepended :
    (as₁ as₂ : List Action) {o₁ : Option (List Action)} {o₂ : Option Session}
    → done as₁ ≡ done as₂
    → SameSession o₁ o₂
    → SameSession (elim o₁ [ none ↦ none | some rest ↦ some (as₁ ++ rest) ]) (and_then as₂ o₂)
unfolding and_then
prepended as₁ as₂ e both_crash = both_crash
prepended as₁ as₂ e (same_actions {acts} {s} e' w) =
    same_actions
      (done-append as₁ acts
        ∙ ap (λ r. r ++ done acts) e
        ∙ ap (λ r. done as₂ ++ r) e'
        ∙ sym (done-append as₂ s.actions))
      w

idle_empty : empty_background (replicate max_back 0) ≡ true
unfolding empty_background
idle_empty = refl

closed :
    {s₁ : Storage} {s₂ : Shell} (as₁ as₂ : List Action)
    → Agrees s₁ s₂
    → done as₁ ≡ done as₂
    → SameSession (some as₁) (some (close as₂ s₂))
unfolding close
closed as₁ as₂ a e = same_actions e (ap not (ap empty_background a.idle ∙ idle_empty))

after_round :
    (is : List Input) {r₁ : Mc1.Round} {r₂ : Mc2.Round}
    → ((s₁ : Storage) (s₂ : Shell) → Agrees s₁ s₂ → SameSession (Mc1.main is s₁) (session is s₂))
    → Matches r₁ r₂
    → SameSession
        (elim r₁ [
          | Mc1.crash ↦ none
          | Mc1.round false s' actions ↦ some actions
          | Mc1.round true s' actions ↦ elim (Mc1.main is s') [
            | none ↦ none
            | some rest ↦ some (actions ++ rest)
          ]
        ])
        (elim r₂ [
          | Mc2.crash ↦ none
          | Mc2.round false s' acts ↦ some (close acts s')
          | Mc2.round true s' acts ↦ and_then acts (session is s')
        ])
after_round is next crashes = both_crash
after_round is next (rounds {again = false} {as₁} {as₂} a e) = closed as₁ as₂ a e
after_round is next (rounds {again = true} {s₁} {s₂} {as₁} {as₂} a e) =
    prepended as₁ as₂ e (next s₁ s₂ a)

-- From storages that agree and on plain inputs, both programs crash, or their actions are the same but
-- for the message about a choice that is not valid, and mc2.c waits for no background task in the end.
-- The menu, and the statistics that `run` prints, in which the programs differ, are no actions.
pub main-SameSession :
    (is : List Input) (s₁ : Storage) (s₂ : Shell)
    → All IsPlain is
    → Agrees s₁ s₂
    → SameSession (Mc1.main is s₁) (session is s₂)
unfolding Mc1.main session done
main-SameSession [] s₁ s₂ plain a = same_actions refl refl
main-SameSession (i ∷ is) s₁ s₂ plain a =
    after_round is (λ t₁ t₂ a'. main-SameSession is t₁ t₂ plain.1 a')
      (main_round-Matches i plain.0 a)
