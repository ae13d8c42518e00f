-- ===== src/System/Recovery.antt =====
-- That a submission of a stuck worker comes back: the orchestrator (judge/run.py) pushes it to the
-- queue again, whatever the other parts do meanwhile.
use byte_battles.Base.{
  ℕ, ◌+◌, ◌<◌, ◌≡◌, ap, ◌∙◌, inl, inr, Bool, true, Option, none, some, List, [], ◌∷◌, ◌++◌, arith,
  ◌==◌, ==_iff, Bool-cases, split_last, split_last-append,
}
use byte_battles.Config.{Config}
use byte_battles.Redis.{Redis, set_key}
use byte_battles.Worker.{beat, set_submission}
use byte_battles.Orchestrator.{Orchestrator, Health, health, check_heartbeat, round, observe}
use byte_battles.Orchestrator.Identifiers.{contains, IsTracked, observe-IsTracked}
use byte_battles.Orchestrator.Heartbeat.{push_if_frozen, retried, check_heartbeat-retried}
use byte_battles.System.{Parts, System, Event, step, run, get_stuck, watch, begun}
use byte_battles.System.Rows.{occurs}
use byte_battles.System.Watching.{scale-Kept}
use byte_battles.System.Draining.{run-append}
use byte_battles.System.Keys.{IsOther, redis_of, observation, observed, step-KeysOf, step-IsTracked}

module _ (config : Config) (now i id : ℕ) (s : Orchestrator) where
  retried-keeps :
      (ids jobs : List ℕ) → occurs id jobs ≡ true → occurs id (retried config now s ids jobs) ≡ true
  retried-keeps [] jobs h = h
  retried-keeps (j ∷ ids) jobs h =
      let f = health config now s.alive s.redis j in
      retried-keeps ids (push_if_frozen f (s.redis.submission j) jobs)
        (pushed f (s.redis.submission j))
    where
      pushed : (f : Health) (v : Option ℕ) → occurs id (push_if_frozen f v jobs) ≡ true
      pushed Health.frozen (some x) = ground (arith, h)
      pushed Health.frozen none = h
      pushed Health.stopped v = h
      pushed Health.healthy v = h

  retried-frozen :
      (ids jobs : List ℕ)
      → contains ids i ≡ true
      → health config now s.alive s.redis i ≡ Health.frozen
      → s.redis.submission i ≡ some id
      → occurs id (retried config now s ids jobs) ≡ true
  retried-frozen [] jobs c h e = cc c
  retried-frozen (j ∷ ids) jobs c h e = elim (Bool-cases (i == j)) [
    | inl q ↦
        let same = (==_iff i j).0 q in
        rw (← same, h, e) (retried-keeps ids (id ∷ jobs) (ground arith))
    | inr q ↦ retried-frozen ids _ (ground (arith, c, q)) h e
  ]

module _ (parts : Parts) (i : ℕ) where
  -- The events are of others, and after each of them the worker is in the orchestrator's list.
  abbrev pub Undisturbed : List (Event parts) → System parts → Type 0
  Undisturbed [] s = Unit
  Undisturbed (e ∷ events) s =
      IsOther parts i e
      × (contains (step parts e s).orchestrator.workers i ≡ true)
      × Undisturbed events (step parts e s)

  record IsStuck (id time : ℕ) (s : System parts) : Type 0 where
    submission : s.site.redis.submission i ≡ some id
    heartbeat : s.site.redis.heartbeat i ≡ some time
    tracked : IsTracked s.orchestrator
    listed : contains s.orchestrator.workers i ≡ true

  run-IsStuck :
      (id time : ℕ) (events : List (Event parts)) (s : System parts)
      → IsStuck id time s
      → Undisturbed events s
      → IsStuck id time (run parts events s)
  unfolding run
  run-IsStuck id time [] s h u = h
  run-IsStuck id time (e ∷ events) s h (o, l, u) =
      let (submission, heartbeat) = step-KeysOf parts i e s h.tracked h.listed o l in
      run-IsStuck id time events (step parts e s)
        (record {
          submission = submission ∙ h.submission;
          heartbeat = heartbeat ∙ h.heartbeat;
          tracked = step-IsTracked parts e s h.tracked;
          listed = l;
        })
        u

  watch-recovers :
      (id time now : ℕ) (alive : ℕ → Bool) (s : System parts)
      → IsStuck id time s
      → s.orchestrator.alive i ≡ true
      → alive i ≡ true
      → time + parts.config.judge_worker_timeout < now
      → occurs id (redis_of parts (step parts (watch now alive) s)).jobs ≡ true
  unfolding step round observe health
  watch-recovers id time now alive s h a b late =
      let t = observed parts now alive s in
      let frozen : health parts.config now t.alive t.redis i ≡ Health.frozen =
        ground (arith, a, b, late, h.heartbeat) in
      let pushed =
        retried-frozen parts.config now i id t s.orchestrator.workers s.site.redis.jobs h.listed
          frozen h.submission in
      let jobs =
        (check_heartbeat-retried parts.config now t
          (observe-IsTracked (observation parts now alive s) s.orchestrator h.tracked)).1 in
      (scale-Kept 0 now (check_heartbeat parts.config now t)).occurring id (rw jobs pushed)

  begun-keys :
      (now id : ℕ) (rest : List ℕ) (r : Redis)
      → ((begun parts i now id rest r).submission i ≡ some id)
        × ((begun parts i now id rest r).heartbeat i ≡ some now)
  unfolding set_submission beat set_key
  begun-keys now id rest r = ground arith

  get_stuck-IsStuck :
      (id now : ℕ) (rest : List ℕ) (s : System parts)
      → s.site.redis.jobs ≡ rest ++ id ∷ []
      → IsTracked s.orchestrator
      → contains s.orchestrator.workers i ≡ true
      → IsStuck id now (step parts (get_stuck i now) s)
  unfolding step
  get_stuck-IsStuck id now rest s q v l =
      let e : split_last s.site.redis.jobs ≡ some (rest, id) =
        ap split_last q ∙ split_last-append rest id in
      let (submission, heartbeat) = begun-keys now id rest s.site.redis in
      rw (e, step)
        (record { submission = submission; heartbeat = heartbeat; tracked = v; listed = l })

  -- In a state where the identifiers in the orchestrator's list rise below the next one and every
  -- live worker process is in the list, a worker of that list takes a submission and goes no
  -- further. Whatever the others do then, if the orchestrator keeps the worker in its list through
  -- these events and finds the process alive in a turn that comes later than the timeout after the
  -- worker began, the submission is in the queue again after that turn.
  pub run-recovers :
      (id taken_at now : ℕ) (rest : List ℕ) (events : List (Event parts)) (alive : ℕ → Bool)
      (s : System parts)
      → s.site.redis.jobs ≡ rest ++ id ∷ []
      → IsTracked s.orchestrator
      → contains s.orchestrator.workers i ≡ true
      → Undisturbed events (step parts (get_stuck i taken_at) s)
      → (run parts (get_stuck i taken_at ∷ events) s).orchestrator.alive i ≡ true
      → alive i ≡ true
      → taken_at + parts.config.judge_worker_timeout < now
      → occurs id
          (run parts (get_stuck i taken_at ∷ events ++ watch now alive ∷ []) s).site.redis.jobs
        ≡ true
  unfolding run
  run-recovers id taken_at now rest events alive s q v l u a b late =
      rw (run-append parts events (watch now alive ∷ []) (step parts (get_stuck i taken_at) s)) (
        watch-recovers id taken_at now alive _
          (run-IsStuck id taken_at events (step parts (get_stuck i taken_at) s)
            (get_stuck-IsStuck id taken_at rest s q v l) u)
          a b late)
