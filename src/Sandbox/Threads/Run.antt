-- ===== src/Sandbox/Threads/Run.antt =====
-- `run` of judge/sandbox_manager/main.py, whose main thread drives the machine of the threads. A
-- KeyboardInterrupt comes between two calls of `maintain_pool`, or in the `finally` once the event is
-- set.
pub mod Stopped
pub mod Ending
pub mod Effort
pub mod Finishing
pub mod Bound
use byte_battles.Base.{
  ℕ, zero, suc, Bool, true, false, ◌&&◌, Option, none, some, List, [], ◌∷◌, ◌++◌, if◌then◌else◌,
  is_empty,
}
use mathlib.Core.Option
use byte_battles.Enums.{Language, languages}
use byte_battles.Sandbox.Threads.{
  Manager, MainPhase, Creator, Action, step, maintain, proceed, shut_down, lease,
}

-- What `get_message` returns: nothing, or a message of another type than "message", or one whose data
-- names no language, or one that names this language.
pub data Message : Type 0 where
  absent unrelated malformed : Message
  announced : Language → Message

-- Where the main thread stands, while it is in no call of `maintain_pool`.
pub data RunPhase : Type 0 where
  -- So many creators are to be started; these languages are to be filled.
  starting : ℕ → RunPhase
  filling : List Language → RunPhase
  -- At the test of the loop, and at `get_message`.
  testing reading : RunPhase
  -- In `finally`: at the joins; at the test of `clean_pool` for the first of these languages; behind
  -- it. The end is `cleaning []`.
  joining : RunPhase
  cleaning : List Language → RunPhase
  popping : Language → List Language → RunPhase
  -- A KeyboardInterrupt has ended `run` in its `finally`.
  broken_off : RunPhase

pub record Run : Type 0 where
  pub manager : Manager
  pub phase : RunPhase

-- What happens next: the main thread goes on, with what Redis answers if it asks for SHUTDOWN_KEY or
-- for a message; it is interrupted; another thread goes on.
pub data Event : Type 0 where
  main_thread : Bool → Message → Event
  interrupt : Event
  other_thread : Action → Event

abbrev pub in_maintain_pool : MainPhase → Bool
in_maintain_pool MainPhase.idle = false
in_maintain_pool MainPhase.stopping = false
in_maintain_pool _ = true

abbrev pub exited : Creator → Bool
exited Creator.exited = true
exited _ = false

-- `t.join()` has returned for each thread.
unfoldable pub all_exited : List Creator → Bool
all_exited [] = true
all_exited (c ∷ cs) = exited c && all_exited cs

abbrev pub go_to : RunPhase → Run → Run
go_to phase r = record r { phase = phase }

abbrev pub with_manager : RunPhase → Option Manager → Option Run
with_manager phase none = none
with_manager phase (some m) = some (record { manager = m; phase = phase })

-- `t.start()` and `self.threads.append(t)`
abbrev pub start_creator : Manager → Manager
start_creator m = record m { creators = m.creators ++ Creator.ready ∷ [] }

abbrev call_maintain_pool : Language → RunPhase → Run → Option Run
call_maintain_pool l next r = with_manager next (step (maintain l) r.manager)

-- `stop_event.set()`
abbrev stop : Run → Option Run
stop r = with_manager joining (step shut_down r.manager)

unfoldable pub receive : Message → Run → Option Run
receive absent r = some (go_to testing r)
receive unrelated r = some (go_to testing r)
receive malformed r = stop r
receive (announced l) r = call_maintain_pool l testing r

unfoldable pub run_step : RunPhase → Bool → Message → Run → Option Run
unfolding all_exited receive
run_step (starting zero) down message r = some (go_to (filling languages) r)
run_step (starting (suc n)) down message r =
    some (record { manager = start_creator r.manager; phase = starting n })
run_step (filling []) down message r = some (go_to testing r)
run_step (filling (l ∷ ls)) down message r = call_maintain_pool l (filling ls) r
run_step testing down message r = if down then stop r else some (go_to reading r)
run_step reading down message r = receive message r
run_step joining down message r =
    if all_exited r.manager.creators then some (go_to (cleaning languages) r) else none
run_step (cleaning []) down message r = none
run_step (cleaning (l ∷ ls)) down message r =
    some (go_to (if is_empty (r.manager.warm l) then cleaning ls else popping l ls) r)
run_step (popping l ls) down message r = with_manager (cleaning (l ∷ ls)) (step (lease l) r.manager)
run_step broken_off down message r = none

-- KeyboardInterrupt: in the `try` it is caught, in the `finally` it leaves `run` at once.
unfoldable pub interrupt_in : RunPhase → Run → Option Run
interrupt_in joining r = some (go_to broken_off r)
interrupt_in (cleaning []) r = none
interrupt_in (cleaning (l ∷ ls)) r = some (go_to broken_off r)
interrupt_in (popping l ls) r = some (go_to broken_off r)
interrupt_in broken_off r = none
interrupt_in _ r = stop r

abbrev pub is_of_main : Action → Bool
is_of_main (maintain l) = true
is_of_main proceed = true
is_of_main shut_down = true
is_of_main _ = false

unfoldable pub advance : Event → Run → Option Run
unfolding run_step interrupt_in
advance (main_thread down message) r =
    if in_maintain_pool r.manager.main
    then with_manager r.phase (step proceed r.manager)
    else run_step r.phase down message r
advance interrupt r = interrupt_in r.phase r
advance (other_thread a) r = if is_of_main a then none else with_manager r.phase (step a r.manager)

-- An event that cannot happen is passed over.
unfoldable pub run_events : List Event → Run → Run
run_events [] r = r
run_events (e ∷ events) r = run_events events (Option.get_or (advance e r) r)
