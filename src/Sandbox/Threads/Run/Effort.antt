-- ===== src/Sandbox/Threads/Run/Effort.antt =====
-- What the threads of judge/sandbox_manager/main.py still have to do once `run` is in the `finally`.
use byte_battles.Base.{
  ℕ, ◌+◌, ◌*◌, ◌≤◌, ◌≡◌, inl, inr, false, Option, none, some, List, ◌∷◌, arith, if◌then◌else◌,
  Option-cases, length, is_empty, split_last-cases,
}
use byte_battles.Base.Text.{Text}
use byte_battles.Redis.{rpop, set_warm}
use byte_battles.Enums.{Language}
use byte_battles.Sandbox.Threads.{
  Manager, Creator, Action, step, maintain, proceed, shut_down, lease, go_on, create, break_down,
  get_elem?, creator_step, take_task, finish_creation, fail_creation, with_creator,
}
use byte_battles.Sandbox.Threads.Pool.{tally, tally-set}
use byte_battles.Sandbox.Threads.Run.{RunPhase, joining, cleaning, popping, is_of_main}
use byte_battles.Sandbox.Threads.Run.Stopped.{IsStopped, List-cases}

-- The steps that a creator has left after the stop, a push counted with the two of its cleaning.
abbrev rank : Creator → ℕ
rank Creator.exited = 0
rank Creator.ready = 1
rank (Creator.created l) = 2
rank (Creator.failed l) = 2
rank (Creator.creating l) = 5
rank Creator.waiting = 6

abbrev pub total : (Language → List Text) → ℕ
total w = length (w Language.c) + (length (w Language.cpp) + length (w Language.python))

abbrev to_clean : RunPhase → (Language → List Text) → ℕ
to_clean joining w = 7
to_clean (cleaning ls) w = 2 * length ls
to_clean (popping l ls) w = 2 * length ls + (if is_empty (w l) then 3 else 1)
to_clean _ w = 0

abbrev pub effort : RunPhase → Manager → ℕ
effort phase m = tally rank m.creators + 2 * total m.warm + to_clean phase m.warm

-- A lease may happen at any time.
abbrev pub cost : Action → ℕ
cost (lease l) = 0
cost _ = 1

to_clean-push :
    (phase : RunPhase) (w : Language → List Text) (l : Language) (x : Text)
    → 2 * total (set_warm w l (x ∷ w l)) + to_clean phase (set_warm w l (x ∷ w l))
      ≤ 2 * total w + 2 + to_clean phase w
unfolding set_warm
to_clean-push phase w l x = ground arith

to_clean-pop :
    (phase : RunPhase) (w : Language → List Text) (l : Language)
    → 2 * total (set_warm w l (rpop (w l)).1) + to_clean phase (set_warm w l (rpop (w l)).1)
      ≤ 2 * total w + to_clean phase w
unfolding set_warm rpop
to_clean-pop phase w l = ground (arith, split_last-cases (w l))

module _ (phase : RunPhase) where
  creator_step-effort :
      (i : ℕ) (c : Creator) (s t : Manager)
      → get_elem? s.creators i ≡ some c
      → creator_step i c s ≡ some t
      → IsStopped s
      → effort phase t + 1 ≤ effort phase s
  unfolding creator_step take_task
  creator_step-effort i Creator.waiting s t e h v = elim (List-cases s.task_queue) [
    | inl f ↦
        let k = rw f at h in
        ground (arith, k, tally-set rank s.creators i Creator.waiting Creator.ready e)
    | inr (l, ls, f) ↦
        let k = rw f at h in
        ground (arith, k, tally-set rank s.creators i Creator.waiting (Creator.creating l) e)
  ]
  creator_step-effort i Creator.ready s t e h v =
      let k = rw v.1 at h in
      ground (arith, k, tally-set rank s.creators i Creator.ready Creator.exited e)
  creator_step-effort i (Creator.created l) s t e h v =
      let k = rw v.0 at h in
      ground (arith, k, tally-set rank s.creators i (Creator.created l) Creator.ready e)
  creator_step-effort i (Creator.failed l) s t e h v =
      ground (arith, h, tally-set rank s.creators i (Creator.failed l) Creator.ready e)
  creator_step-effort i (Creator.creating l) s t e h v = cc h
  creator_step-effort i Creator.exited s t e h v = cc h

  finish_creation-effort :
      (i : ℕ) (c : Creator) (x : Text) (s t : Manager)
      → get_elem? s.creators i ≡ some c
      → finish_creation i c x s ≡ some t
      → effort phase t + 1 ≤ effort phase s
  unfolding finish_creation
  finish_creation-effort i (Creator.creating l) x s t e h = ground (
    arith,
    h,
    tally-set rank s.creators i (Creator.creating l) (Creator.created l) e,
    to_clean-push phase s.warm l x,
  )
  finish_creation-effort i _ x s t e h = cc h

  fail_creation-effort :
      (i : ℕ) (c : Creator) (s t : Manager)
      → get_elem? s.creators i ≡ some c
      → fail_creation i c s ≡ some t
      → effort phase t + 1 ≤ effort phase s
  unfolding fail_creation
  fail_creation-effort i (Creator.creating l) s t e h =
      ground (arith, h, tally-set rank s.creators i (Creator.creating l) (Creator.failed l) e)
  fail_creation-effort i _ s t e h = cc h

  with_creator-effort :
      (i : ℕ) (f : Creator → Option Manager) (s t : Manager)
      → ((c : Creator)
          → get_elem? s.creators i ≡ some c
          → f c ≡ some t
          → effort phase t + 1 ≤ effort phase s)
      → with_creator (get_elem? s.creators i) f ≡ some t
      → effort phase t + 1 ≤ effort phase s
  with_creator-effort i f s t k h = elim (Option-cases (get_elem? s.creators i)) [
    | inl e ↦ absurd (let x : none ≡ some t = rw e at h in cc x)
    | inr (c, e) ↦ k c e (rw e at h)
  ]

  -- Every step of another thread but a lease takes some of the effort.
  pub step-effort :
      (a : Action) (s t : Manager)
      → is_of_main a ≡ false
      → step a s ≡ some t
      → IsStopped s
      → effort phase t + cost a ≤ effort phase s
  step-effort (maintain m) s t n h v = cc n
  step-effort shut_down s t n h v = cc n
  step-effort proceed s t n h v = cc n
  step-effort (go_on i) s t n h v =
      unfold step in
      with_creator-effort i (λ c. creator_step i c s) s t
        (λ c e k. creator_step-effort i c s t e k v) h
  step-effort (create i x) s t n h v =
      unfold step in
      with_creator-effort i (λ c. finish_creation i c x s) s t
        (λ c e k. finish_creation-effort i c x s t e k) h
  step-effort (break_down i) s t n h v =
      unfold step in
      with_creator-effort i (λ c. fail_creation i c s) s t
        (λ c e k. fail_creation-effort i c s t e k) h
  step-effort (lease m) s t n h v = unfold step in ground (arith, h, to_clean-pop phase s.warm m)
