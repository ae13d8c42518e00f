-- ===== src/Sandbox/Threads/Pool.antt =====
-- How many sandboxes the threads of judge/sandbox_manager/main.py make, whatever the scheduler does.
use byte_battles.Base.{
  ℕ, zero, suc, ◌+◌, ◌≤◌, ◌≡◌, refl, subst, inl, inr, Bool, true, false, Option, none, some, List,
  [], ◌∷◌, ◌++◌, arith, if◌then◌else◌, Option-cases, length, split_last-cases,
}
use byte_battles.Base.Text.{Text}
use byte_battles.Enums.{Language, language_eq}
use byte_battles.Sandbox.Threads.{
  Manager, MainPhase, Creator, Action, set_pending, get_elem?, set, main_step, take_task,
  creator_step, finish_creation, fail_creation, call_main, step, run_schedule, maintain, proceed,
  shut_down, go_on, with_creator, create, break_down, lease,
}

abbrev pub tally : (Creator → ℕ) → List Creator → ℕ
tally f [] = 0
tally f (c ∷ cs) = f c + tally f cs

abbrev one_if : Bool → ℕ
one_if true = 1
one_if false = 0

-- The creators that hold a task of the language, and those of them that have pushed no sandbox yet.
abbrev pub holds : Language → Creator → ℕ
holds l (Creator.creating m) = one_if (language_eq m l)
holds l (Creator.created m) = one_if (language_eq m l)
holds l (Creator.failed m) = one_if (language_eq m l)
holds l _ = 0

abbrev pub unpushed : Language → Creator → ℕ
unpushed l (Creator.creating m) = one_if (language_eq m l)
unpushed l (Creator.failed m) = one_if (language_eq m l)
unpushed l _ = 0

abbrev pub queued : Language → List Language → ℕ
queued l [] = 0
queued l (m ∷ q) = one_if (language_eq m l) + queued l q

abbrev pub to_put : Language → MainPhase → ℕ
to_put l (MainPhase.putting m n) = if language_eq m l then n else 0
to_put l _ = 0

-- The sandboxes of a language that are warm, or that some thread is still to make.
abbrev pub supply : Language → Manager → ℕ
supply l s =
    length (s.warm l) + queued l s.task_queue + tally (unpushed l) s.creators + to_put l s.main

-- What `maintain_pool` has read under the lock is no less than the supply.
abbrev Measured : Language → MainPhase → ℕ → ℕ → Type 0
Measured l (MainPhase.counted m n) supply pending = language_eq m l ≡ true → supply ≤ n + pending
Measured l _ supply pending = Unit

pub record IsSound (l : Language) (threshold : ℕ) (s : Manager) : Type 0 where
  -- `pending` counts the tasks: in the queue, with a creator, or to be put by the main thread.
  pub counted : s.pending l ≡ queued l s.task_queue + tally (holds l) s.creators + to_put l s.main
  pub limit : s.pool_threshold ≡ threshold
  pub bounded : supply l s ≤ threshold
  pub measured : Measured l s.main (supply l s) (s.pending l)

pub tally-set :
    (f : Creator → ℕ) (cs : List Creator) (i : ℕ) (c d : Creator)
    → get_elem? cs i ≡ some c
    → tally f (set cs i d) + f c ≡ tally f cs + f d
unfolding get_elem? set
tally-set f [] i c d e = cc
tally-set f (x ∷ cs) zero c d e = ground arith
tally-set f (x ∷ cs) (suc i) c d e = omega (arith, tally-set f cs i c d e)

queued-append :
    (l m : Language) (q : List Language)
    → queued l (q ++ m ∷ []) ≡ queued l q + one_if (language_eq m l)
queued-append l m [] = omega arith
queued-append l m (x ∷ q) = omega (arith, queued-append l m q)

unpushed-le-holds : (l : Language) (c : Creator) → unpushed l c ≤ holds l c
unpushed-le-holds l c = ground arith

tally-unpushed-le : (l : Language) (cs : List Creator) → tally (unpushed l) cs ≤ tally (holds l) cs
tally-unpushed-le l [] = omega arith
tally-unpushed-le l (c ∷ cs) = omega (arith, tally-unpushed-le l cs, unpushed-le-holds l c)

some-eq : {s t : Manager} → some s ≡ some t → s ≡ t
some-eq e = cc

module _ (l : Language) (threshold : ℕ) where
  main_step-IsSound :
      (p : MainPhase) (s t : Manager)
      → s.main ≡ p
      → main_step p s ≡ some t
      → IsSound l threshold s
      → IsSound l threshold t
  unfolding main_step set_pending
  main_step-IsSound (MainPhase.locked m) s t e h v = ground (arith, tally-unpushed-le l s.creators)
  main_step-IsSound (MainPhase.counted m n) s t e h v = ground arith
  main_step-IsSound (MainPhase.putting m zero) s t e h v = ground arith
  main_step-IsSound (MainPhase.putting m (suc n)) s t e h v =
      ground (arith, queued-append l m s.task_queue)
  main_step-IsSound _ s t e h v = cc

  take_task-IsSound :
      (i : ℕ) (q : List Language) (s : Manager)
      → get_elem? s.creators i ≡ some Creator.waiting
      → s.task_queue ≡ q
      → IsSound l threshold s
      → IsSound l threshold (take_task i q s)
  unfolding take_task
  take_task-IsSound i [] s e h v = ground (
    arith,
    tally-set (holds l) s.creators i Creator.waiting Creator.ready e,
    tally-set (unpushed l) s.creators i Creator.waiting Creator.ready e,
  )
  take_task-IsSound i (m ∷ rest) s e h v = ground (
    arith,
    tally-set (holds l) s.creators i Creator.waiting (Creator.creating m) e,
    tally-set (unpushed l) s.creators i Creator.waiting (Creator.creating m) e,
  )

  creator_step-IsSound :
      (i : ℕ) (c : Creator) (s t : Manager)
      → get_elem? s.creators i ≡ some c
      → creator_step i c s ≡ some t
      → IsSound l threshold s
      → IsSound l threshold t
  creator_step-IsSound i Creator.ready s t e h v =
      unfold creator_step in
      let d = if s.stop_event then Creator.exited else Creator.waiting in
      ground (
        arith,
        tally-set (holds l) s.creators i Creator.ready d e,
        tally-set (unpushed l) s.creators i Creator.ready d e,
      )
  creator_step-IsSound i Creator.waiting s t e h v =
      let k : some (take_task i s.task_queue s) ≡ some t = unfold creator_step in h in
      subst (IsSound l threshold) (some-eq k) (take_task-IsSound i s.task_queue s e refl v)
  creator_step-IsSound i (Creator.created m) s t e h v =
      unfold creator_step in
      ground (
        arith,
        tally-set (holds l) s.creators i (Creator.created m) Creator.ready e,
        tally-set (unpushed l) s.creators i (Creator.created m) Creator.ready e,
      )
  creator_step-IsSound i (Creator.failed m) s t e h v =
      unfold creator_step in
      ground (
        arith,
        queued-append l m s.task_queue,
        tally-set (holds l) s.creators i (Creator.failed m) Creator.ready e,
        tally-set (unpushed l) s.creators i (Creator.failed m) Creator.ready e,
      )
  creator_step-IsSound i (Creator.creating m) s t e h v = unfold creator_step in cc h
  creator_step-IsSound i Creator.exited s t e h v = unfold creator_step in cc h

  finish_creation-IsSound :
      (i : ℕ) (c : Creator) (container_id : Text) (s t : Manager)
      → get_elem? s.creators i ≡ some c
      → finish_creation i c container_id s ≡ some t
      → IsSound l threshold s
      → IsSound l threshold t
  unfolding finish_creation
  finish_creation-IsSound i (Creator.creating m) container_id s t e h v = ground (
    arith,
    tally-set (holds l) s.creators i (Creator.creating m) (Creator.created m) e,
    tally-set (unpushed l) s.creators i (Creator.creating m) (Creator.created m) e,
  )
  finish_creation-IsSound i _ container_id s t e h v = cc h

  fail_creation-IsSound :
      (i : ℕ) (c : Creator) (s t : Manager)
      → get_elem? s.creators i ≡ some c
      → fail_creation i c s ≡ some t
      → IsSound l threshold s
      → IsSound l threshold t
  unfolding fail_creation
  fail_creation-IsSound i (Creator.creating m) s t e h v = ground (
    arith,
    tally-set (holds l) s.creators i (Creator.creating m) (Creator.failed m) e,
    tally-set (unpushed l) s.creators i (Creator.creating m) (Creator.failed m) e,
  )
  fail_creation-IsSound i _ s t e h v = cc h

  call_main-IsSound :
      (p next : MainPhase) (stops : Bool) (s t : Manager)
      → s.main ≡ p
      → to_put l next ≡ 0
      → ((x y : ℕ) → Measured l next x y)
      → call_main p next stops s ≡ some t
      → IsSound l threshold s
      → IsSound l threshold t
  unfolding call_main
  call_main-IsSound MainPhase.idle next stops s t e z m h v =
      ground (arith, m (supply l t) (t.pending l))
  call_main-IsSound _ next stops s t e z m h v = cc h

  lease-IsSound :
      (m : Language) (s t : Manager)
      → step (lease m) s ≡ some t
      → IsSound l threshold s
      → IsSound l threshold t
  unfolding step
  lease-IsSound m s t h v = ground (arith, split_last-cases (s.warm m))

  with_creator-IsSound :
      (i : ℕ) (f : Creator → Option Manager) (s t : Manager)
      → ((c : Creator) → get_elem? s.creators i ≡ some c → f c ≡ some t → IsSound l threshold t)
      → with_creator (get_elem? s.creators i) f ≡ some t
      → IsSound l threshold t
  with_creator-IsSound i f s t k h = elim (Option-cases (get_elem? s.creators i)) [
    | inl e ↦ absurd (let x : none ≡ some t = rw e at h in cc x)
    | inr (c, e) ↦ k c e (rw e at h)
  ]

  -- Every step keeps the counts, for every language and whatever stands in the other threads.
  pub step-IsSound :
      (a : Action) (s t : Manager)
      → step a s ≡ some t
      → IsSound l threshold s
      → IsSound l threshold t
  step-IsSound (maintain m) s t h v =
      unfold step in
      call_main-IsSound s.main (MainPhase.locked m) false s t refl refl (λ x y. tt) h v
  step-IsSound shut_down s t h v =
      unfold step in call_main-IsSound s.main MainPhase.stopping true s t refl refl (λ x y. tt) h v
  step-IsSound proceed s t h v = unfold step in main_step-IsSound s.main s t refl h v
  step-IsSound (go_on i) s t h v =
      unfold step in
      with_creator-IsSound i (λ c. creator_step i c s) s t
        (λ c e k. creator_step-IsSound i c s t e k v) h
  step-IsSound (create i x) s t h v =
      unfold step in
      with_creator-IsSound i (λ c. finish_creation i c x s) s t
        (λ c e k. finish_creation-IsSound i c x s t e k v) h
  step-IsSound (break_down i) s t h v =
      unfold step in
      with_creator-IsSound i (λ c. fail_creation i c s) s t
        (λ c e k. fail_creation-IsSound i c s t e k v) h
  step-IsSound (lease m) s t h v = lease-IsSound m s t h v

  pub run_schedule-IsSound :
      (actions : List Action) (s : Manager)
      → IsSound l threshold s
      → IsSound l threshold (run_schedule actions s)
  unfolding run_schedule
  run_schedule-IsSound [] s v = v
  run_schedule-IsSound (a ∷ actions) s v = elim (Option-cases (step a s)) [
    | inl e ↦ rw e (run_schedule-IsSound actions s v)
    | inr (t, e) ↦ rw e (run_schedule-IsSound actions t (step-IsSound a s t e v))
  ]
