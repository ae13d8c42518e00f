-- ===== src/Tests/PoolTests.antt =====
-- The sandbox manager on the fixtures: a schedule in which one creation fails.
use byte_battles.Base.{◌+◌, ◌≡◌, refl, List, [], ◌∷◌, arith}
use byte_battles.Base.Text.{Text, codes}
use byte_battles.Enums.{Language}
use byte_battles.Redis.{set_warm}
use byte_battles.World.{World, on_services, on_redis}
use byte_battles.Sandbox.{clean_pool, clean_one, count, pop_warm}
use byte_battles.Sandbox.Cleaning.{count-clean_pool}
use byte_battles.Sandbox.Threads.{
  Creator, Action, maintain, proceed, go_on, create, break_down, get_elem?, set, set_pending,
  reserve, main_step, take_task, creator_step, finish_creation, fail_creation, call_main, step,
  run_schedule,
}
use byte_battles.Sandbox.Threads.Pool.{tally, holds, queued, to_put}
use byte_battles.Sandbox.Threads.Supply.{initial, pending-run_schedule}
use byte_battles.Tests.Fixtures.{config, echo, world}

abbrev no_sandbox : Language → List Text
no_sandbox l = []

-- The pool is filled up to 2: one creator pushes a sandbox and is about to settle, the other failed.
abbrev schedule : List Action
schedule =
    maintain Language.c
    ∷ proceed
    ∷ proceed
    ∷ proceed
    ∷ proceed
    ∷ proceed
    ∷ go_on 0
    ∷ go_on 1
    ∷ go_on 0
    ∷ go_on 1
    ∷ create 0 (codes "s1")
    ∷ break_down 1
    ∷ []

schedule_run :
    let s = run_schedule schedule (initial 2 no_sandbox 2) in
    (s.creators ≡ Creator.created Language.c ∷ Creator.failed Language.c ∷ [])
    × (s.pending Language.c ≡ 2)
    × (s.warm Language.c ≡ codes "s1" ∷ [])
unfolding run_schedule step main_step reserve creator_step take_task finish_creation fail_creation
    call_main get_elem? set set_pending set_warm
schedule_run = (refl, refl, refl)

pending-run_schedule_example :
    let s = run_schedule schedule (initial 2 no_sandbox 2) in
    s.pending Language.c
    ≡ queued Language.c s.task_queue
      + tally (holds Language.c) s.creators
      + to_put Language.c s.main
pending-run_schedule_example = pending-run_schedule Language.c 2 no_sandbox 2 schedule (omega arith)

cleaned : World echo
cleaned = (clean_pool echo config Language.c world).1

count-clean_pool_example : count Language.c cleaned.redis ≡ 0
unfolding cleaned clean_pool clean_one count pop_warm on_services on_redis
count-clean_pool_example = count-clean_pool echo config Language.c world cleaned refl
