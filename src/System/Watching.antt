-- ===== src/System/Watching.antt =====
-- What a turn of the orchestrator (judge/run.py) does to the queue and to the workers' keys.
use byte_battles.Base.{
  ℕ, zero, suc, ◌-◌, ◌<◌, ◌≡◌, refl, inl, inr, true, none, some, List, [], ◌∷◌, arith, ltb, ◌==◌,
  Bool-cases, Option-cases, length, All,
}
use byte_battles.Config.{Config}
use byte_battles.Redis.{Redis, set_key, push_job}
use byte_battles.Orchestrator.{
  Orchestrator, Health, Observation, observe, health, check_worker, check_workers, check_heartbeat,
  round, scale, spawn_worker, stop_worker, repeat, desired,
}
use byte_battles.System.Rows.{occurs}

-- The ids in the queue and in the workers' submission keys are below the bound.
pub record Known (bound : ℕ) (r : Redis) : Type 0 where
  pub queued : All (λ id. id < bound) r.jobs
  pub held : (i id : ℕ) → r.submission i ≡ some id → id < bound

-- Of the queue nothing is lost, and what comes is known.
pub record Kept (bound : ℕ) (r t : Redis) : Type 0 where
  pub known : Known bound r → Known bound t
  pub occurring : (id : ℕ) → occurs id r.jobs ≡ true → occurs id t.jobs ≡ true

pub Kept-same :
    (bound : ℕ) (r t : Redis) → r.jobs ≡ t.jobs → r.submission ≡ t.submission → Kept bound r t
Kept-same bound r t e f = record {
  known = λ v. record { queued = rw (← e) v.queued; held = λ i id h. v.held i id (rw f h) };
  occurring = λ id h. rw (← e) h;
}

pub Kept-trans : (bound : ℕ) (r s t : Redis) → Kept bound r s → Kept bound s t → Kept bound r t
Kept-trans bound r s t u v = record {
  known = λ h. v.known (u.known h);
  occurring = λ id h. v.occurring id (u.occurring id h);
}

-- An id that is known is pushed.
pub Kept-push : (bound id : ℕ) (r : Redis) → id < bound → Kept bound r (push_job id r)
unfolding push_job
Kept-push bound id r h = record {
  known = λ v. record { queued = (h, v.queued); held = v.held };
  occurring = λ i e. ground (arith, e);
}

-- A worker is forgotten.
forgotten-Kept :
    (bound i : ℕ) (r t : Redis)
    → r.jobs ≡ t.jobs
    → t.submission ≡ set_key r.submission i none
    → Kept bound r t
unfolding set_key
forgotten-Kept bound i r t e f = record {
  known = λ v. record {
    queued = rw (← e) v.queued;
    held = λ j id h. elim (Bool-cases (j == i)) [
      | inl g ↦ let k = rw (f, g) at h in cc k
      | inr g ↦ v.held j id (let k = rw (f, g) at h in k)
    ];
  };
  occurring = λ id h. rw (← e) h;
}

module _ (bound : ℕ) where
  check_worker-Kept :
      (h : Health) (i : ℕ) (s : Orchestrator)
      → Known bound s.redis
      → Kept bound s.redis (check_worker h i s).redis
  unfolding check_worker
  check_worker-Kept Health.stopped i s v = Kept-same bound s.redis s.redis refl refl
  check_worker-Kept Health.healthy i s v = Kept-same bound s.redis s.redis refl refl
  check_worker-Kept Health.frozen i s v = elim (Option-cases (s.redis.submission i)) [
    | inl e ↦ rw e (forgotten-Kept bound i s.redis _ refl refl)
    | inr (id, e) ↦ rw e (
        Kept-trans bound s.redis (push_job id s.redis) _
          (Kept-push bound id s.redis (v.held i id e))
          (forgotten-Kept bound i (push_job id s.redis) _ refl refl))
  ]

  check_workers-Kept :
      (config : Config) (now : ℕ) (ids : List ℕ) (s : Orchestrator)
      → Known bound s.redis
      → Kept bound s.redis (check_workers config now ids s).1.redis
  unfolding check_workers
  check_workers-Kept config now [] s v = Kept-same bound s.redis s.redis refl refl
  check_workers-Kept config now (i ∷ ids) s v =
      let h = health config now s.alive s.redis i in
      let t = check_worker h i s in
      let k = check_worker-Kept h i s v in
      Kept-trans bound s.redis t.redis (check_workers config now ids t).1.redis k
        (check_workers-Kept config now ids t (k.known v))

  spawn_worker-Kept : (now : ℕ) (s : Orchestrator) → Kept bound s.redis (spawn_worker now s).redis
  unfolding spawn_worker
  spawn_worker-Kept now s = Kept-same bound s.redis (spawn_worker now s).redis refl refl

  stop_worker-same :
      (s : Orchestrator)
      → (s.redis.jobs ≡ (stop_worker s).redis.jobs)
        × (s.redis.submission ≡ (stop_worker s).redis.submission)
  unfolding stop_worker
  stop_worker-same s = ground arith

  stop_worker-Kept : (s : Orchestrator) → Kept bound s.redis (stop_worker s).redis
  stop_worker-Kept s =
      Kept-same bound s.redis (stop_worker s).redis (stop_worker-same s).0 (stop_worker-same s).1

  repeat-Kept :
      (n : ℕ) (body : Orchestrator → Orchestrator) (s : Orchestrator)
      → ((t : Orchestrator) → Kept bound t.redis (body t).redis)
      → Kept bound s.redis (repeat n body s).redis
  unfolding repeat
  repeat-Kept zero body s h = Kept-same bound s.redis s.redis refl refl
  repeat-Kept (suc n) body s h =
      Kept-trans bound s.redis (body s).redis (repeat n body (body s)).redis (h s)
        (repeat-Kept n body (body s) h)

  pub scale-Kept : (now : ℕ) (s : Orchestrator) → Kept bound s.redis (scale now s).redis
  unfolding scale
  scale-Kept now s =
      let current = length s.workers in
      elim (Bool-cases (ltb current (desired s))) [
        | inl e ↦
            rw e (repeat-Kept (desired s - current) (spawn_worker now) s (spawn_worker-Kept now))
        | inr e ↦ elim (Bool-cases (ltb (desired s) current)) [
          | inl f ↦ rw (e, f) (repeat-Kept (current - desired s) stop_worker s stop_worker-Kept)
          | inr f ↦ rw (e, f) (Kept-same bound s.redis s.redis refl refl)
        ]
      ]

  pub round-Kept :
      (config : Config) (o : Observation) (s : Orchestrator)
      → Known bound o.redis
      → Kept bound o.redis (round config o.now (observe o s)).redis
  unfolding round observe check_heartbeat
  round-Kept config o s v =
      let t = observe o s in
      Kept-trans bound o.redis (check_heartbeat config o.now t).redis (round config o.now t).redis
        (check_workers-Kept config o.now t.workers t v)
        (scale-Kept o.now (check_heartbeat config o.now t))
