-- ===== src/Orchestrator/Heartbeat.antt =====
-- What `check_heartbeat` of run.py decides of each worker, and which submissions it retries.
use byte_battles.Base.{
  ℕ, suc, ◌+◌, ◌≤◌, ◌≡◌, refl, ap, ◌∙◌, Bool, false, ◌&&◌, Option, none, some, List, [], ◌∷◌, arith,
  ltb, leb, if◌then◌else◌, All,
}
use byte_battles.Config.{Config}
use byte_battles.Redis.{Redis}
use byte_battles.Database.{select}
use byte_battles.Orchestrator.{
  Orchestrator, Health, health, set_alive, check_worker, keep, check_workers, check_heartbeat,
}
use byte_battles.Orchestrator.Identifiers.{Rising, IsTracked}

-- The workers that were found healthy in the state `s`, and the queue after the submissions of those
-- that were found frozen were pushed.
abbrev pub healthy_workers : Config → ℕ → Orchestrator → List ℕ → List ℕ
healthy_workers config now s [] = []
healthy_workers config now s (id ∷ ids) =
    keep (health config now s.alive s.redis id) id (healthy_workers config now s ids)

abbrev pub push_if_frozen : Health → Option ℕ → List ℕ → List ℕ
push_if_frozen Health.frozen (some submission) jobs = submission ∷ jobs
push_if_frozen _ submission jobs = jobs

abbrev pub retried : Config → ℕ → Orchestrator → List ℕ → List ℕ → List ℕ
retried config now s [] jobs = jobs
retried config now s (id ∷ ids) jobs =
    retried config now s ids
      (push_if_frozen (health config now s.alive s.redis id) (s.redis.submission id) jobs)

-- Two states look the same for the workers from `lo` on.
record Agree (lo : ℕ) (s t : Orchestrator) : Type 0 where
  alive : (i : ℕ) → lo ≤ i → t.alive i ≡ s.alive i
  heartbeat : (i : ℕ) → lo ≤ i → t.redis.heartbeat i ≡ s.redis.heartbeat i
  submission : (i : ℕ) → lo ≤ i → t.redis.submission i ≡ s.redis.submission i

health-dead :
    (config : Config) (now : ℕ) (alive : ℕ → Bool) (r : Redis) (i : ℕ)
    → alive i ≡ false
    → health config now alive r i ≡ Health.stopped
unfolding health
health-dead config now alive r i d = rw d

module _ (config : Config) (now : ℕ) where
  health-Agree :
      (lo id : ℕ) (s t : Orchestrator)
      → Agree lo s t
      → lo ≤ id
      → health config now t.alive t.redis id ≡ health config now s.alive s.redis id
  unfolding health
  health-Agree lo id s t a h = ground (arith, a.alive id h, a.heartbeat id h)

  check_worker-Agree :
      (h : Health) (lo id : ℕ) (s t : Orchestrator)
      → Agree lo s t
      → lo ≤ id
      → Agree (suc id) s (check_worker h id t)
  unfolding check_worker
  check_worker-Agree h lo id s t a e = record {
    alive = λ i le. ground (arith, a.alive i (omega arith));
    heartbeat = λ i le. ground (arith, a.heartbeat i (omega arith));
    submission = λ i le. ground (arith, a.submission i (omega arith));
  }

  jobs-check_worker :
      (h : Health) (id : ℕ) (t : Orchestrator)
      → (check_worker h id t).redis.jobs ≡ push_if_frozen h (t.redis.submission id) t.redis.jobs
  unfolding check_worker
  jobs-check_worker h id t = ground arith

  check_workers_lem :
      (lo hi : ℕ) (ids : List ℕ) (s t : Orchestrator)
      → Rising lo ids hi
      → Agree lo s t
      → ((check_workers config now ids t).0 ≡ healthy_workers config now s ids)
        × ((check_workers config now ids t).1.redis.jobs ≡ retried config now s ids t.redis.jobs)
  unfolding check_workers
  check_workers_lem lo hi [] s t r a = (refl, refl)
  check_workers_lem lo hi (id ∷ ids) s t r a =
      let h = health config now t.alive t.redis id in
      let u = check_worker h id t in
      let ih = check_workers_lem (suc id) hi ids s u r.1 (check_worker-Agree h lo id s t a r.0) in
      let same = health-Agree lo id s t a r.0 in
      (cc (same, ih.0), cc (same, ih.1, jobs-check_worker h id t, a.submission id r.0))

  pub check_heartbeat-retried :
      (s : Orchestrator)
      → IsTracked s
      → ((check_heartbeat config now s).workers ≡ healthy_workers config now s s.workers)
        × ((check_heartbeat config now s).redis.jobs ≡ retried config now s s.workers s.redis.jobs)
  unfolding check_heartbeat
  check_heartbeat-retried s v =
      check_workers_lem 0 s.global_worker_id s.workers s s v.serial
        (record { alive = λ i h. refl; heartbeat = λ i h. refl; submission = λ i h. refl })

  -- The process is alive, and its last heartbeat is not longer ago than the timeout; or longer ago.
  abbrev pub in_time : Option ℕ → Bool
  in_time none = false
  in_time (some beaten) = leb now (beaten + config.judge_worker_timeout)

  abbrev pub is_late : Option ℕ → Bool
  is_late none = false
  is_late (some beaten) = ltb (beaten + config.judge_worker_timeout) now

  abbrev pub is_kept : Orchestrator → ℕ → Bool
  is_kept s i = s.alive i && in_time (s.redis.heartbeat i)

  -- The queue after the submissions of the workers that are alive and late were pushed, in the order
  -- of the workers.
  abbrev pub with_submission : Option ℕ → List ℕ → List ℕ
  with_submission none jobs = jobs
  with_submission (some submission) jobs = submission ∷ jobs

  abbrev pub retry_late : Orchestrator → List ℕ → List ℕ → List ℕ
  retry_late s [] jobs = jobs
  retry_late s (i ∷ ids) jobs = retry_late s ids (
      if s.alive i && is_late (s.redis.heartbeat i)
      then with_submission (s.redis.submission i) jobs
      else jobs)

  healthy-is_kept :
      (s : Orchestrator) (ids : List ℕ) → healthy_workers config now s ids ≡ select (is_kept s) ids
  unfolding select health
  healthy-is_kept s [] = refl
  healthy-is_kept s (i ∷ ids) = ground (arith, healthy-is_kept s ids)

  push-late :
      (s : Orchestrator) (i : ℕ) (jobs : List ℕ)
      → push_if_frozen (health config now s.alive s.redis i) (s.redis.submission i) jobs ≡ (
          if s.alive i && is_late (s.redis.heartbeat i)
          then with_submission (s.redis.submission i) jobs
          else jobs)
  unfolding health
  push-late s i jobs = ground arith

  retried-late :
      (s : Orchestrator) (ids jobs : List ℕ) → retried config now s ids jobs ≡ retry_late s ids jobs
  retried-late s [] jobs = refl
  retried-late s (i ∷ ids) jobs =
      ap (retried config now s ids) (push-late s i jobs) ∙ retried-late s ids _

  -- In a state where the identifiers in the list rise below the next one and every live worker
  -- process is in the list, check_heartbeat keeps the workers that are alive and whose last
  -- heartbeat is no longer ago than the timeout, in their order, and pushes the submissions that
  -- the keys name for those that are alive and whose last heartbeat is longer ago, in the order of
  -- the workers, and nothing else.
  pub check_heartbeat_lem :
      (s : Orchestrator)
      → IsTracked s
      → ((check_heartbeat config now s).workers ≡ select (is_kept s) s.workers)
        × ((check_heartbeat config now s).redis.jobs ≡ retry_late s s.workers s.redis.jobs)
  check_heartbeat_lem s v =
      let k = check_heartbeat-retried s v in
      (k.0 ∙ healthy-is_kept s s.workers, k.1 ∙ retried-late s s.workers s.redis.jobs)

  All-set_alive :
      (ids : List ℕ) (alive : ℕ → Bool) (x : ℕ)
      → All (λ i. alive i ≡ false) ids
      → All (λ i. set_alive alive x false i ≡ false) ids
  unfolding set_alive
  All-set_alive [] alive x d = tt
  All-set_alive (i ∷ ids) alive x d = (ground (arith, d.0), All-set_alive ids alive x d.1)

  check_workers-dead :
      (ids : List ℕ) (s : Orchestrator)
      → All (λ i. s.alive i ≡ false) ids
      → ((check_workers config now ids s).0 ≡ [])
        × ((check_workers config now ids s).1.redis ≡ s.redis)
  unfolding check_workers check_worker
  check_workers-dead [] s d = (refl, refl)
  check_workers-dead (i ∷ ids) s d = rw (health-dead config now s.alive s.redis i d.0) (
      check_workers-dead ids (record s { alive = set_alive s.alive i false })
        (All-set_alive ids s.alive i d.1))

  -- Where every worker process is found dead, check_heartbeat drops all workers and leaves Redis
  -- as it was, so no submission that such a worker was processing is retried.
  check_heartbeat-dead :
      (s : Orchestrator)
      → All (λ i. s.alive i ≡ false) s.workers
      → ((check_heartbeat config now s).workers ≡ [])
        × ((check_heartbeat config now s).redis ≡ s.redis)
  unfolding check_heartbeat
  check_heartbeat-dead s dead = check_workers-dead s.workers s dead
