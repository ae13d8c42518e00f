-- ===== src/Sandbox/Threads/Run/Bound.antt =====
-- How many sandboxes `run` of judge/sandbox_manager/main.py keeps, from its start to its end.
use byte_battles.Base.{
  ℕ, zero, suc, ◌+◌, ◌≤◌, ◌≡◌, refl, sym, subst, inl, inr, Bool, true, false, Option, none, some,
  List, [], ◌∷◌, ◌++◌, arith, Bool-cases, Option-cases, length,
}
use byte_battles.Base.Text.{Text}
use mathlib.Core.Option
use byte_battles.Enums.{Language}
use byte_battles.Sandbox.Threads.{
  Manager, Creator, Action, step, maintain, proceed, shut_down, lease,
}
use byte_battles.Sandbox.Threads.Pool.{tally, holds, unpushed, supply, IsSound, step-IsSound}
use byte_battles.Sandbox.Threads.Supply.{initial-IsSound}
use byte_battles.Sandbox.Threads.Run.{
  Message, RunPhase, Run, Event, starting, filling, testing, reading, joining, cleaning, popping,
  broken_off, all_exited, with_manager, in_maintain_pool, is_of_main, run_step, receive,
  interrupt_in, advance, run_events, main_thread, interrupt, other_thread, absent, unrelated,
  malformed, announced, start_creator,
}
use byte_battles.Sandbox.Threads.Run.Ending.{starting_run}

tally-append :
    (f : Creator → ℕ) (cs : List Creator) (c : Creator) → tally f (cs ++ c ∷ []) ≡ tally f cs + f c
tally-append f [] c = omega arith
tally-append f (x ∷ cs) c = omega (arith, tally-append f cs c)

start_creator-IsSound :
    (l : Language) (threshold : ℕ) (m : Manager)
    → IsSound l threshold m
    → IsSound l threshold (start_creator m)
start_creator-IsSound l threshold m v = ground (
  arith,
  tally-append (holds l) m.creators Creator.ready,
  tally-append (unpushed l) m.creators Creator.ready,
)

-- What the steps of the threads keep, and the start of a creator, `run` keeps.
module _ {κ} (P : Manager → Type κ)
    (stepped : (a : Action) (s t : Manager) → step a s ≡ some t → P s → P t)
    (started : (m : Manager) → P m → P (start_creator m)) where
  with_manager-kept :
      (phase : RunPhase) (o : Option Manager) (t : Run)
      → ((m : Manager) → o ≡ some m → P m)
      → with_manager phase o ≡ some t
      → P t.manager
  with_manager-kept phase none t k h = cc h
  with_manager-kept phase (some m) t k h =
      subst (λ o. P o.manager) (let e : record { manager = m; phase = phase } ≡ t = cc h in e)
        (k m refl)

  same-kept : (r t : Run) → some r ≡ some t → P r.manager → P t.manager
  same-kept r t h v = subst (λ o. P o.manager) (let e : r ≡ t = cc h in e) v

  stop-kept :
      (r t : Run)
      → with_manager joining (step shut_down r.manager) ≡ some t
      → P r.manager
      → P t.manager
  stop-kept r t h v =
      with_manager-kept joining (step shut_down r.manager) t
        (λ m e. stepped shut_down r.manager m e v) h

  call-kept :
      (m : Language) (next : RunPhase) (r t : Run)
      → with_manager next (step (maintain m) r.manager) ≡ some t
      → P r.manager
      → P t.manager
  call-kept m next r t h v =
      with_manager-kept next (step (maintain m) r.manager) t
        (λ n e. stepped (maintain m) r.manager n e v) h

  receive-kept :
      (message : Message) (r t : Run) → receive message r ≡ some t → P r.manager → P t.manager
  unfolding receive
  receive-kept absent r t h v = same-kept _ t h v
  receive-kept unrelated r t h v = same-kept _ t h v
  receive-kept malformed r t h v = stop-kept r t h v
  receive-kept (announced m) r t h v = call-kept m testing r t h v

  run_step-kept :
      (phase : RunPhase) (down : Bool) (message : Message) (r t : Run)
      → run_step phase down message r ≡ some t
      → P r.manager
      → P t.manager
  unfolding run_step
  run_step-kept (starting zero) down message r t h v = same-kept _ t h v
  run_step-kept (starting (suc n)) down message r t h v = same-kept _ t h (started r.manager v)
  run_step-kept (filling []) down message r t h v = same-kept _ t h v
  run_step-kept (filling (m ∷ ls)) down message r t h v = call-kept m (filling ls) r t h v
  run_step-kept testing true message r t h v = stop-kept r t h v
  run_step-kept testing false message r t h v = same-kept _ t h v
  run_step-kept reading down message r t h v = receive-kept message r t h v
  run_step-kept joining down message r t h v = elim (Bool-cases (all_exited r.manager.creators)) [
    | inl e ↦ same-kept _ t (rw e at h) v
    | inr e ↦ absurd (let k = rw e at h in cc k)
  ]
  run_step-kept (cleaning []) down message r t h v = cc h
  run_step-kept (cleaning (m ∷ ls)) down message r t h v = same-kept _ t h v
  run_step-kept broken_off down message r t h v = cc h
  run_step-kept (popping m ls) down message r t h v =
      with_manager-kept (cleaning (m ∷ ls)) (step (lease m) r.manager) t
        (λ n e. stepped (lease m) r.manager n e v) h

  interrupt_in-kept :
      (phase : RunPhase) (r t : Run) → interrupt_in phase r ≡ some t → P r.manager → P t.manager
  unfolding interrupt_in
  interrupt_in-kept joining r t h v = same-kept _ t h v
  interrupt_in-kept (cleaning []) r t h v = cc h
  interrupt_in-kept (cleaning (m ∷ ls)) r t h v = same-kept _ t h v
  interrupt_in-kept (popping m ls) r t h v = same-kept _ t h v
  interrupt_in-kept broken_off r t h v = cc h
  interrupt_in-kept _ r t h v = stop-kept r t h v

  advance-kept : (e : Event) (r t : Run) → advance e r ≡ some t → P r.manager → P t.manager
  advance-kept (main_thread down message) r t h v =
      unfold advance in
      elim (Bool-cases (in_maintain_pool r.manager.main)) [
        | inl e ↦
            with_manager-kept r.phase (step proceed r.manager) t
              (λ m k. stepped proceed r.manager m k v) (rw e at h)
        | inr e ↦ run_step-kept r.phase down message r t (rw e at h) v
      ]
  advance-kept interrupt r t h v = unfold advance in interrupt_in-kept r.phase r t h v
  advance-kept (other_thread a) r t h v =
      unfold advance in
      elim (Bool-cases (is_of_main a)) [
        | inl e ↦ absurd (let k = rw e at h in cc k)
        | inr e ↦
            with_manager-kept r.phase (step a r.manager) t (λ m k. stepped a r.manager m k v)
              (rw e at h)
      ]

  run_events-kept : (events : List Event) (r : Run) → P r.manager → P (run_events events r).manager
  unfolding run_events
  run_events-kept [] r v = v
  run_events-kept (e ∷ events) r v =
      let after = λ (o : Option Run). P (run_events events (Option.get_or o r)).manager in
      elim (Option-cases (advance e r)) [
        | inl f ↦ subst after (sym f) (run_events-kept events r v)
        | inr (t, f) ↦ subst after (sym f) (run_events-kept events t (advance-kept e r t f v))
      ]

-- From at most threshold warm sandboxes of a language, whatever happens from the start of run of
-- the sandbox manager to its end, the warm sandboxes together with those that are still to be made
-- never exceed the threshold.
pub supply-run_events :
    (l : Language) (threshold workers : ℕ) (warm : Language → List Text) (events : List Event)
    → length (warm l) ≤ threshold
    → supply l (run_events events (starting_run threshold workers warm)).manager ≤ threshold
supply-run_events l threshold workers warm events h =
    let v =
      run_events-kept (IsSound l threshold) (step-IsSound l threshold)
        (start_creator-IsSound l threshold) events (starting_run threshold workers warm)
        (initial-IsSound l threshold warm 0 h) in
    omega (arith, v.bounded)
