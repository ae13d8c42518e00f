-- ===== src/Orchestrator.antt =====
-- judge/run.py. A worker process is known by its worker's identifier; `alive` is what `is_alive()`
-- answers, and `join()` returns when the process has ended.
pub mod Identifiers
pub mod Scaling
pub mod Heartbeat
pub mod Keys
use byte_battles.Base.{
  ℕ, zero, suc, ◌+◌, ◌-◌, ◌/◌, min, max, Bool, true, false, not, ◌&&◌, Option, none, some, List, [],
  ◌∷◌, ◌++◌, ltb, ◌==◌, if◌then◌else◌, length, split_last,
}
use byte_battles.Config.{Config}
use byte_battles.Redis.{Redis, set_key, push_job}

pub record Orchestrator : Type 0 where
  pub min_workers : ℕ
  pub max_workers : ℕ
  -- The list of pairs `(identifier, p)`.
  pub workers : List ℕ
  pub global_worker_id : ℕ
  pub alive : ℕ → Bool
  pub manager_alive : Bool
  pub redis : Redis

-- `__init__`
unfoldable pub init : Config → (ℕ → Bool) → Redis → Orchestrator
init config alive redis = record {
  min_workers = config.minimum_judge_worker;
  max_workers = config.maximum_judge_worker;
  workers = [];
  global_worker_id = 1;
  alive = alive;
  manager_alive = false;
  redis = record redis { shutdown_all = some false };
}

-- `start_sandbox_manager`
unfoldable pub start_sandbox_manager : Orchestrator → Orchestrator
start_sandbox_manager s = record s { manager_alive = true }

-- `p.start()`, and the end of a process, by itself or by `terminate()`.
unfoldable pub set_alive : (ℕ → Bool) → ℕ → Bool → ℕ → Bool
set_alive f k v j = if j == k then v else f j

-- `get_worker_id`
unfoldable get_worker_id : Orchestrator → ℕ × Orchestrator
get_worker_id s = (s.global_worker_id, record s { global_worker_id = s.global_worker_id + 1 })

-- `get_queue_size`
unfoldable get_queue_size : Orchestrator → ℕ
get_queue_size s = length s.redis.jobs

-- `spawn_worker`, at the time `now`.
unfoldable pub spawn_worker : ℕ → Orchestrator → Orchestrator
unfolding get_worker_id set_alive set_key
spawn_worker now s =
    let (identifier, s') = get_worker_id s in
    record s' {
      alive = set_alive s.alive identifier true;
      workers = s.workers ++ identifier ∷ [];
      redis = record s.redis {
        shutdown = set_key s.redis.shutdown identifier (some false);
        heartbeat = set_key s.redis.heartbeat identifier (some now);
      };
    }

-- `stop_worker`: the worker is told to stop, and has ended by itself or by `terminate()` at the end.
unfoldable pub stop_worker : Orchestrator → Orchestrator
unfolding set_alive set_key
stop_worker s = elim (split_last s.workers) [
  | none ↦ s
  | some (rest, identifier) ↦ record s {
    workers = rest;
    alive = set_alive s.alive identifier false;
    redis = record s.redis { shutdown = set_key s.redis.shutdown identifier (some true) };
  }
]

-- `for _ in range(n): body()`
unfoldable pub repeat {ℓ} : {S : Type ℓ} → ℕ → (S → S) → S → S
repeat zero body s = s
repeat (suc n) body s = repeat n body (body s)

-- The policy of `scale`.
unfoldable pub desired : Orchestrator → ℕ
unfolding get_queue_size
desired s = min s.max_workers (max s.min_workers (get_queue_size s / 5 + 1))

-- `scale`
unfoldable pub scale : ℕ → Orchestrator → Orchestrator
scale now s =
    let current = length s.workers in
    if ltb current (desired s)
    then repeat (desired s - current) (spawn_worker now) s
    else if ltb (desired s) current
    then repeat (current - desired s) stop_worker s
    else s

-- What `check_heartbeat` finds of one worker.
pub data Health : Type 0 where
  stopped frozen healthy : Health

unfoldable pub health : Config → ℕ → (ℕ → Bool) → Redis → ℕ → Health
health config now alive r identifier =
    if not (alive identifier) then Health.stopped else elim (r.heartbeat identifier) [
      | none ↦ Health.stopped
      | some hb ↦
          if ltb (hb + config.judge_worker_timeout) now then Health.frozen else Health.healthy
    ]

-- `if current_submission_id: lpush(...)`: the text of a number is true.
unfoldable retry : Option ℕ → Redis → Redis
unfolding push_job
retry none r = r
retry (some id) r = push_job id r

unfoldable forget_worker : ℕ → Redis → Redis
unfolding set_key
forget_worker identifier r = record r {
  shutdown = set_key r.shutdown identifier none;
  heartbeat = set_key r.heartbeat identifier none;
  submission = set_key r.submission identifier none;
}

-- The body of the loop of `check_heartbeat`.
unfoldable pub check_worker : Health → ℕ → Orchestrator → Orchestrator
unfolding set_alive forget_worker retry
check_worker Health.stopped identifier s = record s { alive = set_alive s.alive identifier false }
check_worker Health.frozen identifier s = record s {
  alive = set_alive s.alive identifier false;
  redis = forget_worker identifier (retry (s.redis.submission identifier) s.redis);
}
check_worker Health.healthy identifier s = s

abbrev pub keep : Health → ℕ → List ℕ → List ℕ
keep Health.healthy identifier rest = identifier ∷ rest
keep _ identifier rest = rest

-- The loop: `alive_workers`, and what it did to the rest of the state.
unfoldable pub check_workers : Config → ℕ → List ℕ → Orchestrator → List ℕ × Orchestrator
check_workers config now [] s = ([], s)
check_workers config now (identifier ∷ ids) s =
    let h = health config now s.alive s.redis identifier in
    let (rest, s') = check_workers config now ids (check_worker h identifier s) in
    (keep h identifier rest, s')

-- `check_heartbeat`
unfoldable pub check_heartbeat : Config → ℕ → Orchestrator → Orchestrator
check_heartbeat config now s =
    let (alive_workers, s') = check_workers config now s.workers s in
    record s' { workers = alive_workers }

-- One turn of the loop of `run`.
unfoldable pub round : Config → ℕ → Orchestrator → Orchestrator
round config now s = scale now (check_heartbeat config now s)

-- The joins of `shutdown`.
unfoldable pub join_all : List ℕ → (ℕ → Bool) → ℕ → Bool
unfolding set_alive
join_all [] alive = alive
join_all (identifier ∷ ids) alive = join_all ids (set_alive alive identifier false)

-- `shutdown`, which has told all to stop before it waits, and deletes the key behind.
unfoldable pub shutdown : Orchestrator → Orchestrator
unfolding join_all
shutdown s = record s {
  alive = join_all s.workers s.alive;
  manager_alive = false;
  redis = record s.redis { shutdown_all = none };
}

-- What the other processes did before a turn of the loop, and when it runs: they wrote to Redis, and
-- some of them ended.
pub record Observation : Type 0 where
  pub now : ℕ
  pub redis : Redis
  pub survives : ℕ → Bool

unfoldable pub observe : Observation → Orchestrator → Orchestrator
observe o s = record s { redis = o.redis; alive = λ i. s.alive i && o.survives i }

-- `run`: the sandbox manager, a turn for each of these observations, and the `finally`.
unfoldable pub run_rounds : Config → List Observation → Orchestrator → Orchestrator
run_rounds config [] s = s
run_rounds config (o ∷ os) s = run_rounds config os (round config o.now (observe o s))

unfoldable pub run : Config → List Observation → Orchestrator → Orchestrator
unfolding start_sandbox_manager
run config os s = shutdown (run_rounds config os (start_sandbox_manager s))
