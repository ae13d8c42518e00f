-- ===== src/Worker/Retry.antt =====
-- What becomes of the submission that a turn of `_consume_from_list` (worker.py) takes.
use byte_battles.Base.{
  ℕ, ◌≡◌, ap, true, Option, none, some, List, [], ◌∷◌, ◌++◌, arith, if◌then◌else◌,
  split_last-append,
}
use byte_battles.Base.Exec.{Result, ok, err, is_exception, is_value_error}
use byte_battles.Config.{Config}
use byte_battles.Services.{Services}
use byte_battles.World.{World}
use byte_battles.Pipeline.{SubmissionResult, process_submission}
use byte_battles.Pipeline.Lease.{process_submission-keeps}
use byte_battles.Pipeline.Outcome.{stored, stored-process_submission}
use byte_battles.Worker.{is_running, beat, set_submission, attempt, consume, turn}

-- The queue after a submission was processed so: back at the left end after an exception that is not
-- a ValueError, and gone otherwise.
abbrev pub requeued : ℕ → Result SubmissionResult → List ℕ → List ℕ
requeued id (ok result) jobs = jobs
requeued id (err e) jobs =
    if is_exception e then (if is_value_error e then jobs else id ∷ jobs) else jobs

-- The key `...:submission` of the worker afterwards: deleted only where the processing returned.
abbrev pub held : ℕ → Result SubmissionResult → Option ℕ
held id (ok result) = none
held id (err e) = some id

module _ (env : Services) (config : Config) (identifier : ℕ) where
  -- The world in which a popped submission is processed.
  abbrev pub taken : ℕ → ℕ → List ℕ → World env → World env
  taken now id jobs w = record w {
    redis =
        set_submission env config identifier (some id)
          (record (beat env config identifier now w.redis) { jobs = jobs });
  }

  pub consume-settled :
      (id : ℕ) (v : World env)
      → let v' : World env = record v {
        redis = set_submission env config identifier (some id) v.redis;
      } in
        let r = (process_submission env config id v').0 in
        let u = (consume env config identifier id v).1 in
        (u.redis.jobs ≡ requeued id r v.redis.jobs)
        × (u.db ≡ stored id r v.db)
        × (u.redis.submission identifier ≡ held id r)
  unfolding consume attempt
  consume-settled id v =
      let v' : World env = record v {
        redis = set_submission env config identifier (some id) v.redis;
      } in
      ground (
        arith,
        (process_submission-keeps env config id v').0,
        ap (λ (f : ℕ → Option ℕ). f identifier) (process_submission-keeps env config id v').1,
        stored-process_submission env config id v',
      )

  pub turn-consume :
      (now id : ℕ) (variable : Option ℕ) (jobs : List ℕ) (w : World env)
      → is_running env config identifier w.redis ≡ true
      → w.redis.jobs ≡ jobs ++ id ∷ []
      → turn env config identifier now none variable w
        ≡ consume env config identifier id
            (record w { redis = record (beat env config identifier now w.redis) { jobs = jobs } })
  unfolding turn
  turn-consume now id variable jobs w running e = ground (arith, split_last-append jobs id)

  -- A turn that takes a submission stores its result or leaves the tables as they were; the
  -- submission is back at the left end of the queue exactly after an exception that is not a
  -- ValueError; and the worker's submission key is deleted exactly if the processing returned.
  pub turn-settled :
      (now id : ℕ) (variable : Option ℕ) (jobs : List ℕ) (w : World env)
      → is_running env config identifier w.redis ≡ true
      → w.redis.jobs ≡ jobs ++ id ∷ []
      → let r = (process_submission env config id (taken now id jobs w)).0 in
        let u = (turn env config identifier now none variable w).1 in
        (u.redis.jobs ≡ requeued id r jobs)
        × (u.db ≡ stored id r w.db)
        × (u.redis.submission identifier ≡ held id r)
  turn-settled now id variable jobs w running e =
      rw (turn-consume now id variable jobs w running e) (
        consume-settled id
          (record w { redis = record (beat env config identifier now w.redis) { jobs = jobs } }))
