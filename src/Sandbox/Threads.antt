-- ===== src/Sandbox/Threads.antt =====
-- judge/sandbox_manager/main.py as its threads run together: `run` and `maintain_pool` in the main
-- thread, `creator_worker` in the others, and a judge worker that takes a sandbox now and then. A step
-- is one access to what the threads share; the lock is held by the main thread in `locked` and
-- `counted`, and a creator settles its task in one step that needs the lock to be free.
pub mod Pool
pub mod Supply
pub mod Run
use byte_battles.Base.{
  ℕ, zero, suc, ◌+◌, ◌-◌, Bool, true, false, ◌||◌, Option, none, some, List, [], ◌∷◌, ◌++◌, ◌==◌,
  if◌then◌else◌, length,
}
use byte_battles.Base.Text.{Text}
use mathlib.Core.Option
use byte_battles.Enums.{Language, language_eq}
use byte_battles.Redis.{rpop, set_warm}

-- Where the main thread stands.
pub data MainPhase : Type 0 where
  -- In `run`, between two calls of `maintain_pool`.
  idle : MainPhase
  -- In `maintain_pool`: the lock is held; the warm sandboxes are counted; so many tasks are to put.
  locked : Language → MainPhase
  counted : Language → ℕ → MainPhase
  putting : Language → ℕ → MainPhase
  -- In the `finally` of `run`: `stop_event` is set.
  stopping : MainPhase

-- Where a creator stands in `creator_worker`.
pub data Creator : Type 0 where
  -- At the test of `stop_event`, and at `task_queue.get`.
  ready waiting : Creator
  -- With a task: before the push of `create_sandbox`; behind it; in `except`.
  creating created failed : Language → Creator
  exited : Creator

pub record Manager : Type 0 where
  pub pool_threshold : ℕ
  pub warm : Language → List Text
  pub pending : Language → ℕ
  pub task_queue : List Language
  pub stop_event : Bool
  pub main : MainPhase
  pub creators : List Creator

unfoldable pub set_pending : (Language → ℕ) → Language → ℕ → Language → ℕ
set_pending f l v m = if language_eq m l then v else f m

module _ {ℓ} {A : Type ℓ} where
  unfoldable pub get_elem? : List A → ℕ → Option A
  get_elem? [] i = none
  get_elem? (x ∷ xs) zero = some x
  get_elem? (x ∷ xs) (suc i) = get_elem? xs i

  unfoldable pub set : List A → ℕ → A → List A
  set [] i v = []
  set (x ∷ xs) zero v = v ∷ xs
  set (x ∷ xs) (suc i) v = x ∷ set xs i v

-- What happens next, chosen by the scheduler and by the world outside.
pub data Action : Type 0 where
  -- `maintain_pool(language)` is called; one more step of the main thread; the shutdown.
  maintain : Language → Action
  proceed shut_down : Action
  -- The creator with this index goes on; its `create_sandbox` pushes this container, or raises.
  go_on : ℕ → Action
  create : ℕ → Text → Action
  break_down : ℕ → Action
  -- A judge worker takes a sandbox.
  lease : Language → Action

abbrev is_locked : MainPhase → Bool
is_locked (MainPhase.locked l) = true
is_locked (MainPhase.counted l n) = true
is_locked _ = false

-- The body of the lock in `maintain_pool` from the count on: `deficit` is not positive where the
-- difference on ℕ is 0.
unfoldable pub reserve : Language → ℕ → Manager → Manager
unfolding set_pending
reserve l n s =
    let deficit = s.pool_threshold - (n + s.pending l) in
    if deficit == 0 then record s { main = MainPhase.idle } else record s {
      main = MainPhase.putting l deficit;
      pending = set_pending s.pending l (s.pending l + deficit);
    }

unfoldable pub main_step : MainPhase → Manager → Option Manager
unfolding reserve
main_step (MainPhase.locked l) s =
    some (record s { main = MainPhase.counted l (length (s.warm l)) })
main_step (MainPhase.counted l n) s = some (reserve l n s)
main_step (MainPhase.putting l zero) s = some (record s { main = MainPhase.idle })
main_step (MainPhase.putting l (suc n)) s =
    some (record s { main = MainPhase.putting l n; task_queue = s.task_queue ++ l ∷ [] })
main_step _ s = none

-- `task_queue.get(timeout=1)`: the creator waits on if there is no task.
unfoldable pub take_task : ℕ → List Language → Manager → Manager
take_task i [] s = record s { creators = set s.creators i Creator.ready }
take_task i (l ∷ rest) s = record s {
  creators = set s.creators i (Creator.creating l);
  task_queue = rest;
}

-- One step of a creator that needs nothing from outside.
unfoldable pub creator_step : ℕ → Creator → Manager → Option Manager
unfolding set_pending take_task
creator_step i Creator.ready s = some (record s {
  creators = set s.creators i (if s.stop_event then Creator.exited else Creator.waiting);
})
creator_step i Creator.waiting s = some (take_task i s.task_queue s)
creator_step i (Creator.created l) s =
    if is_locked s.main
    then none
    else some (record s {
      creators = set s.creators i Creator.ready;
      pending = set_pending s.pending l (s.pending l - 1);
    })
creator_step i (Creator.failed l) s =
    some
      (record s { creators = set s.creators i Creator.ready; task_queue = s.task_queue ++ l ∷ [] })
creator_step i _ s = none

unfoldable pub finish_creation : ℕ → Creator → Text → Manager → Option Manager
unfolding set_warm
finish_creation i (Creator.creating l) container_id s = some (record s {
  creators = set s.creators i (Creator.created l);
  warm = set_warm s.warm l (container_id ∷ s.warm l);
})
finish_creation i _ container_id s = none

unfoldable pub fail_creation : ℕ → Creator → Manager → Option Manager
fail_creation i (Creator.creating l) s =
    some (record s { creators = set s.creators i (Creator.failed l) })
fail_creation i _ s = none

unfoldable pub call_main : MainPhase → MainPhase → Bool → Manager → Option Manager
call_main MainPhase.idle next stops s =
    some (record s { main = next; stop_event = stops || s.stop_event })
call_main _ next stops s = none

abbrev pub with_creator : Option Creator → (Creator → Option Manager) → Option Manager
with_creator none f = none
with_creator (some c) f = f c

-- `none` where the action cannot happen.
unfoldable pub step : Action → Manager → Option Manager
unfolding set_warm rpop
step (maintain l) s = call_main s.main (MainPhase.locked l) false s
step shut_down s = call_main s.main MainPhase.stopping true s
step proceed s = main_step s.main s
step (go_on i) s = with_creator (get_elem? s.creators i) λ c. creator_step i c s
step (create i container_id) s =
    with_creator (get_elem? s.creators i) λ c. finish_creation i c container_id s
step (break_down i) s = with_creator (get_elem? s.creators i) λ c. fail_creation i c s
step (lease l) s = some (record s { warm = set_warm s.warm l (rpop (s.warm l)).1 })

-- An action that cannot happen is passed over.
unfoldable pub run_schedule : List Action → Manager → Manager
run_schedule [] s = s
run_schedule (a ∷ actions) s = run_schedule actions (Option.get_or (step a s) s)
