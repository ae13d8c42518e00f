-- ===== src/Worker.antt =====
-- judge/judge_worker/worker.py.
pub mod Retry
pub mod Loop
use byte_battles.Base.{ℕ, Bool, not, ◌||◌, Option, none, some, if◌then◌else◌}
use byte_battles.Base.Exec.{
  Exec, Result, ok, err, Fault, is_exception, is_value_error, pure, ◌>>=◌, ◌>>◌,
}
use byte_battles.Config.{Config}
use byte_battles.Services.{Services}
use byte_battles.Redis.{Redis, is_one, set_key, rpop, push_job}
use byte_battles.World.{World, on_redis}
use byte_battles.Pipeline.{SubmissionResult, process_submission}

-- How one turn of the loop of `_consume_from_list` ends: it goes on, with what the local variable
-- `submission_id` holds by then; it returns; or an exception leaves it.
pub data Turn : Type 0 where
  again : Option ℕ → Turn
  returned : Turn
  crashed : Fault → Turn

module _ (env : Services) (config : Config) (identifier : ℕ) where
  -- The test of the `while`.
  unfoldable pub is_running : Redis → Bool
  is_running r = not (is_one r.shutdown_all || is_one (r.shutdown identifier))

  unfoldable pub beat : ℕ → Redis → Redis
  unfolding set_key
  beat now r = record r { heartbeat = set_key r.heartbeat identifier (some now) }

  -- `_set_submission` and `_delete_submission`
  unfoldable pub set_submission : Option ℕ → Redis → Redis
  unfolding set_key
  set_submission v r = record r { submission = set_key r.submission identifier v }

  -- The three `except` clauses. The last one reads the local variable, which may not be bound yet.
  unfoldable pub handle : Fault → Option ℕ → World env → Turn × World env
  unfolding push_job
  handle e variable w =
      if not (is_exception e)
      then (returned, w)
      else if is_value_error e
      then (again variable, w)
      else (elim variable [
        | none ↦ (crashed Fault.unbound_local, w)
        | some id ↦ (again (some id), record w { redis = push_job id w.redis })
      ])

  unfoldable pub attempt : ℕ → Exec (World env) SubmissionResult
  unfolding on_redis set_submission
  attempt submission_id = do
    on_redis env (λ r. (tt, set_submission (some submission_id) r))
    result ← process_submission env config submission_id
    on_redis env (λ r. (tt, set_submission none r))
    pure result

  -- The end of the `try`, with its handlers.
  unfoldable pub settle : ℕ → Result SubmissionResult → World env → Turn × World env
  unfolding handle
  settle submission_id (ok result) w = (again (some submission_id), w)
  settle submission_id (err e) w = handle e (some submission_id) w

  unfoldable pub consume : ℕ → World env → Turn × World env
  unfolding settle
  consume submission_id w = let (r, w') = attempt submission_id w in settle submission_id r w'

  -- What follows a `brpop` that found this.
  unfoldable pub popped : Option ℕ → Option ℕ → World env → Turn × World env
  unfolding consume
  popped none variable w = (again variable, w)
  popped (some submission_id) variable w = consume submission_id w

  -- One turn of the loop at the time `now`. `outage` is what the Redis client raises at `brpop`.
  unfoldable pub turn : ℕ → Option Fault → Option ℕ → World env → Turn × World env
  unfolding is_running beat handle popped rpop
  turn now outage variable w =
      if is_running w.redis
      then (let w' : World env = record w { redis = beat now w.redis } in
          elim outage [
            | some e ↦ handle e variable w'
            | none ↦
                let (item, rest) = rpop w'.redis.jobs in
                popped item variable (record w' { redis = record w'.redis { jobs = rest } })
          ])
      else (returned, w)

  -- `run` behind the loop: the keys that the worker deletes when the loop returned.
  unfoldable pub finish_run : Redis → Redis
  unfolding set_key
  finish_run r = record r {
    shutdown = set_key r.shutdown identifier none;
    heartbeat = set_key r.heartbeat identifier none;
  }
