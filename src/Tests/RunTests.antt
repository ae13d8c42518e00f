-- ===== src/Tests/RunTests.antt =====
-- `run` of the sandbox manager with one creator and a threshold of 1, from its start to its end.
use byte_battles.Base.{ℕ, ◌≤◌, ◌≡◌, refl, true, false, List, [], ◌∷◌, ◌++◌, arith, replicate}
use byte_battles.Base.Text.{Text, codes}
use byte_battles.Enums.{Language}
use byte_battles.Sandbox.Threads.{
  go_on, create, get_elem?, set, main_step, creator_step, finish_creation, call_main, step,
}
use byte_battles.Sandbox.Threads.Pool.{supply}
use byte_battles.Sandbox.Threads.Run.{
  broken_off, interrupt_in, interrupt, Event, cleaning, all_exited, main_thread, other_thread,
  absent, advance, run_events,
}
use byte_battles.Sandbox.Threads.Run.Ending.{starting_run, run_events-ended}
use byte_battles.Sandbox.Threads.Run.Bound.{supply-run_events}

abbrev no_sandbox : Language → List Text
no_sandbox l = []

abbrev main_turns : ℕ → List Event
main_turns n = replicate n (main_thread false absent)

-- The creator is started and the three pools are ordered.
abbrev filled : List Event
filled = main_turns 18

-- One sandbox is made, then the shutdown is seen.
abbrev stopped : List Event
stopped =
    filled
    ++ (other_thread (go_on 0)
        ∷ other_thread (go_on 0)
        ∷ other_thread (create 0 (codes "s1"))
        ∷ other_thread (go_on 0)
        ∷ main_thread true absent
        ∷ [])

-- The creator exits; the sandbox is taken from its pool.
abbrev remaining : List Event
remaining = other_thread (go_on 0) ∷ main_turns 6

ended_run : (run_events (stopped ++ remaining) (starting_run 1 1 no_sandbox)).phase ≡ cleaning []
unfolding run_events advance step get_elem? call_main main_step creator_step set finish_creation
ended_run = refl

run_events-ended_example :
    let r = run_events (stopped ++ remaining) (starting_run 1 1 no_sandbox) in
    (all_exited r.manager.creators ≡ true) × (r.manager.warm Language.c ≡ [])
run_events-ended_example =
    run_events-ended 1 1 no_sandbox (stopped ++ remaining) Language.c ended_run

-- A second interrupt, in the finally: the container stays.
broken_off_run :
    let r = run_events (stopped ++ interrupt ∷ []) (starting_run 1 1 no_sandbox) in
    (r.phase ≡ broken_off) × (r.manager.warm Language.c ≡ codes "s1" ∷ [])
unfolding run_events advance interrupt_in step get_elem? call_main main_step creator_step set
    finish_creation
broken_off_run = (refl, refl)

supply-run_events_example :
    supply Language.c (run_events stopped (starting_run 1 1 no_sandbox)).manager ≤ 1
supply-run_events_example = supply-run_events Language.c 1 1 no_sandbox stopped (omega arith)
