-- ===== src/Commander/Children/Lost.antt =====
-- A background task of project1/mc2.c for which the `wait(NULL)` of another command returns.
use cs3013_operating_systems.Prelude.{
  ℕ, ◌+◌, ◌≡◌, ◌≢◌, ◌∙◌, sym, ap, subst, inl, true, List, [], ◌∷◌, length, ◌==◌, if◌then◌else◌,
  arith,
}
use cs3013_operating_systems.Commander.Queue.{max_back}
use cs3013_operating_systems.Commander.Queue.Laws.{In}
use cs3013_operating_systems.Commander.Queue.Tasks.{remove_background-Others}
use cs3013_operating_systems.Commander.Shell.{Shell, Input, Action, Round, Text, main_round}
use cs3013_operating_systems.Commander.Children.{
  Family, World, Gone, children, Polled, nobody, Awaited, had_ended, ended_now, After, nothing,
  awaited, other_awaited, kept, refused, Happens, ends, rounds,
}
use cs3013_operating_systems.Commander.Children.Effects.{
  Queued, same, runs, starts, refuses, RoundQueue, main_round-RoundQueue,
}
use cs3013_operating_systems.Commander.Children.Tracked.{IsTracked}
use cs3013_operating_systems.Commander.Children.Counts.{
  times-Gone, children-Polled, Reaped-In, Reaped-length, Queued-length, add_running-In, round-size,
}

-- The pid of the child that a round may start.
abbrev pub forks : {w u : World} → Happens w u → ℕ
forks (ends p rest g) = 0
forks (rounds i s' acts f f' polled nz fresh run a) = i.forked

-- What may come later, while no child is given the pid again.
pub data Later (p : ℕ) : World → World → Type 0 where
  nothing_yet : {w : World} → Later p w w
  later : {w u v : World} → Later p w u → (h : Happens u v) → forks h ≢ p → Later p w v

-- The queue holds the pid, and no child has it.
pub record IsLost (p : ℕ) (w : World) : Type 0 where
  pub size : length w.shell.running ≡ max_back
  pub queued : In p w.shell.running
  pub gone : children p w.family ≡ 0

children-Awaited :
    {q : ℕ} {f f' : Family} (p : ℕ)
    → Awaited q f f'
    → children p f ≡ (if p == q then 1 else 0) + children p f'
children-Awaited p (had_ended rest g) = omega (arith, times-Gone p g)
children-Awaited p (ended_now rest g) = omega (arith, times-Gone p g)

-- A child of another pid does not count.
children-After :
    {pid : ℕ} {acts : List Action} {f f' : Family} (p : ℕ)
    → After pid acts f f'
    → pid ≢ p
    → children p f ≡ 0
    → children p f' ≡ 0
children-After p (nothing inert) ne gone = gone
children-After p (awaited args) ne gone = gone
children-After p (other_awaited args q g) ne gone = ground (arith, children-Awaited p g, gone)
children-After p (kept index) ne gone = ground (arith, gone)
children-After p refused ne gone = ground (arith, gone)

-- What is in the queue stays in it but for `removebackground`.
Queued-In :
    {pid : ℕ} {before after : List ℕ} {acts : List Action} (p : ℕ)
    → p ≢ 0
    → Queued pid before acts after
    → In p before
    → In p after
Queued-In p nz (same inert) held = held
Queued-In p nz (runs args) held = held
Queued-In {pid} {before} {after} p nz (starts index number own e) held =
    (add_running-In pid index p before after nz e).1 (inl held)
Queued-In p nz (refuses e) held = rw e held

round-In :
    (i : Input) (running out : List ℕ) (acts : List Action) (p : ℕ)
    → p ≢ 0
    → p ≢ i.reaped
    → length running ≡ max_back
    → RoundQueue i running acts out
    → In p running
    → In p out
round-In i running out acts p nz ne size r held =
    let before = (Reaped-In p nz size r.reaped).1 (held, ne) in
    (remove_background-Others 0 p r.after out nz
        (Queued-length r.queued ∙ Reaped-length r.reaped ∙ size) r.closed).1
      (Queued-In p nz r.queued before, nz)

Happens-IsLost :
    {w u : World} (p : ℕ) → p ≢ 0 → (h : Happens w u) → forks h ≢ p → IsLost p w → IsLost p u
Happens-IsLost p nz (ends q rest g) ne l = record {
  size = l.size;
  queued = l.queued;
  gone = omega (arith, l.gone, times-Gone p g);
}
Happens-IsLost {w} p nz (rounds i s' acts f f' polled nzf fresh run a) ne l =
    let r = main_round-RoundQueue i w.shell s' acts run in
    let count = children-Polled p nz polled in
    record {
      size = round-size i w.shell.running s'.running acts r ∙ l.size;
      queued =
          round-In i w.shell.running s'.running acts p nz (λ e. ground (arith, e, count, l.gone))
            l.size r l.queued;
      gone = children-After p a ne (ground (arith, count, l.gone));
    }

Later-IsLost : (p : ℕ) {w u : World} → p ≢ 0 → Later p w u → IsLost p w → IsLost p u
Later-IsLost p nz nothing_yet l = l
Later-IsLost p nz (later before h ne) l = Happens-IsLost p nz h ne (Later-IsLost p nz before l)

-- The state after a round in which the child `forked` is started and the child that leaves `rest` behind
-- is waited for.
abbrev pub after_wait : Shell → (forked : ℕ) (rest : List ℕ) → World
after_wait s' forked rest = record {
  shell = s';
  family = record { alive = forked ∷ rest; ended = [] };
}

-- Where a background task runs, none has ended, and the shell runs a command: the task may end before the
-- command does, so that `wait(NULL)` returns for the task. The task is then in the queue though no child
-- has its pid, and stays there whatever happens while no child is given the pid again.
pub wait_loses_task :
    (w v : World) (i : Input) (s' : Shell) (args : List Text) (p : ℕ) (rest : List ℕ)
    → IsTracked w
    → p ≢ 0
    → Gone p w.family.alive rest
    → w.family.ended ≡ []
    → i.reaped ≡ 0
    → i.forked ≢ 0
    → children i.forked w.family ≡ 0
    → main_round i w.shell ≡ Round.round true s' (Action.run args ∷ [])
    → Later p (after_wait s' i.forked rest) v
    → Happens w (after_wait s' i.forked rest) × IsLost p v
wait_loses_task w v i s' args p rest t nz running none_ended none_reaped nzf fresh run since =
    let polled : Polled i.reaped w.family w.family =
      subst (λ r. Polled r w.family w.family) (sym none_reaped) (nobody none_ended) in
    let lost : Awaited p w.family (record w.family { alive = rest }) = ended_now rest running in
    let cleared : record w.family { alive = rest } ≡ record { alive = rest; ended = [] } =
      λ j. record { alive = rest; ended = none_ended j } in
    let r = main_round-RoundQueue i w.shell s' (Action.run args ∷ []) run in
    let own = children-Awaited p lost in
    let (listed, once) = t.listed p nz in
    let held : In p w.shell.running = listed.1 (ground (arith, own, once)) in
    let other : i.forked ≢ p =
      λ e. ground (arith, own, ap (λ k. children k w.family) (sym e), fresh) in
    let gone_now : children p (record w.family { alive = rest }) ≡ 0 = ground (arith, own, once) in
    (
      rounds i s' _ _ _ polled nzf fresh run
          (other_awaited args p (subst (Awaited p w.family) cleared lost)),
      Later-IsLost p nz since (record {
        size = round-size i w.shell.running s'.running (Action.run args ∷ []) r ∙ t.size;
        queued =
            round-In i w.shell.running s'.running (Action.run args ∷ []) p nz
              (λ e. nz (e ∙ none_reaped)) t.size r held;
        gone = ground (arith, other, ap (children p) (sym cleared) ∙ gone_now);
      }),
    )
