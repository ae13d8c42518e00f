-- ===== src/Tests/LoopTests.antt =====
-- A worker that waits for submissions and is stopped by the orchestrator.
use byte_battles.Base.{◌≡◌, refl, none, List, [], ◌∷◌, ◌++◌, ◌==◌, ◌||◌, true}
use byte_battles.Redis.{rpop, set_key}
use byte_battles.World.{World}
use byte_battles.Orchestrator.{Orchestrator}
use byte_battles.Worker.{again, returned, is_running, beat, popped, turn}
use byte_battles.Worker.Loop.{Round, consume_from_list, run, stopping, run-stop_worker}
use byte_battles.Tests.Fixtures.{config, echo, world, redis}

abbrev idle_world : World echo
idle_world = record world { redis = record redis { jobs = [] } }

abbrev orchestrator : Orchestrator
orchestrator = record {
  min_workers = 2;
  max_workers = 4;
  workers = 1 ∷ 3 ∷ [];
  global_worker_id = 4;
  alive = λ i. i == 1 || i == 3;
  manager_alive = true;
  redis = redis;
}

abbrev waiting : List (Round echo)
waiting =
    record { now = 110; outage = none; others = λ w. w }
    ∷ record { now = 120; outage = none; others = λ w. w }
    ∷ []

abbrev last_turn : World echo
last_turn = (consume_from_list echo config 3 waiting none idle_world).1

waiting_run : consume_from_list echo config 3 waiting none idle_world ≡ (again none, last_turn)
unfolding consume_from_list turn popped rpop is_running beat set_key
waiting_run = refl

run-stop_worker_example :
    let (ending, v) = run echo config 3 (waiting ++ stopping orchestrator 130 ∷ []) idle_world in
    (ending ≡ returned)
    × (v.redis.shutdown 3 ≡ none)
    × (v.redis.heartbeat 3 ≡ none)
    × (v.redis.submission ≡ last_turn.redis.submission)
    × (v.redis.jobs ≡ last_turn.redis.jobs)
    × (v.db ≡ last_turn.db)
run-stop_worker_example =
    run-stop_worker echo config 3 waiting [] (1 ∷ []) orchestrator 130 none idle_world last_turn
      refl waiting_run
