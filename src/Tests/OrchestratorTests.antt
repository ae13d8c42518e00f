-- ===== src/Tests/OrchestratorTests.antt =====
-- The orchestrator on the fixtures: a healthy, a frozen and a dead worker, and a short run.
use byte_battles.Base.{
  ℕ, ◌+◌, ◌/◌, min, max, ◌≡◌, refl, true, false, ◌||◌, some, List, [], ◌∷◌, arith, ◌==◌,
  if◌then◌else◌, length,
}
use byte_battles.Orchestrator.{
  Orchestrator, Observation, health, init, start_sandbox_manager, scale, check_heartbeat,
  check_workers, check_worker, run_rounds,
}
use byte_battles.Database.{select}
use byte_battles.Orchestrator.Scaling.{length-scale}
use byte_battles.Orchestrator.Identifiers.{IsTracked, run_rounds-init-IsTracked}
use byte_battles.Orchestrator.Heartbeat.{is_kept, retry_late, check_heartbeat_lem}
use byte_battles.Tests.Fixtures.{config, redis}

-- Worker 1 beat in time, worker 2 did not, worker 4 has ended; each names a submission.
abbrev three_workers : Orchestrator
three_workers = record {
  min_workers = 2;
  max_workers = 4;
  workers = 1 ∷ 2 ∷ 4 ∷ [];
  global_worker_id = 5;
  alive = λ i. i == 1 || i == 2;
  manager_alive = true;
  redis = record redis {
    heartbeat = λ i. if i == 2 then some 10 else some 90;
    submission = λ i. some (i + 40);
  };
}

three_workers-IsTracked : IsTracked three_workers
three_workers-IsTracked = record { serial = omega arith; tracked = λ i h. ground arith }

check_heartbeat_run :
    ((check_heartbeat config 100 three_workers).workers ≡ 1 ∷ [])
    × ((check_heartbeat config 100 three_workers).redis.jobs ≡ 42 ∷ 3 ∷ 7 ∷ [])
unfolding check_heartbeat check_workers check_worker health
check_heartbeat_run = (refl, refl)

check_heartbeat_lem_example :
    ((check_heartbeat config 100 three_workers).workers
      ≡ select (is_kept config 100 three_workers) (1 ∷ 2 ∷ 4 ∷ []))
    × ((check_heartbeat config 100 three_workers).redis.jobs
        ≡ retry_late config 100 three_workers (1 ∷ 2 ∷ 4 ∷ []) (3 ∷ 7 ∷ []))
check_heartbeat_lem_example = check_heartbeat_lem config 100 three_workers three_workers-IsTracked

length-scale_example :
    length (scale 100 three_workers).workers ≡ min 4 (max 2 (length {A = ℕ} (3 ∷ 7 ∷ []) / 5 + 1))
length-scale_example = length-scale 100 three_workers

abbrev observations : List Observation
observations =
    record { now = 100; redis = redis; survives = λ i. true }
    ∷ record { now = 200; redis = redis; survives = λ i. i == 2 }
    ∷ []

run_rounds-init-IsTracked_example :
    IsTracked
      (run_rounds config observations (start_sandbox_manager (init config (λ _. false) redis)))
run_rounds-init-IsTracked_example = run_rounds-init-IsTracked config observations redis
