-- ===== src/Pipeline/Lease.antt =====
-- What `process_submission` (pipeline.py) does with the sandbox that it takes from the warm pool: the
-- announcement to the sandbox manager, and the `finally` of `_get_container`.
use byte_battles.Base.{
  ℕ, suc, ◌+◌, ◌≡◌, refl, sym, ap, subst, inl, inr, none, some, List, [], ◌∷◌, ◌++◌, arith,
  if◌then◌else◌, length, split_last-cases,
}
use byte_battles.Base.Text.{Text}
use byte_battles.Base.Exec.{Exec, Result, ok, err, Outcome-cases, pure, ◌>>◌}
use byte_battles.Services.{Services}
use byte_battles.Config.{Config}
use byte_battles.Enums.{Language, language_eq, language_eq_sound, language_eq_refl}
use byte_battles.Redis.{Redis, acquire_warm_sandbox, publish_event}
use byte_battles.Database.{Db}
use byte_battles.World.{World, session, on_services, on_redis, end_session}
use byte_battles.Pipeline.{
  Job, update_result, SubmissionResult, read_job, new_result, judge, stop_after, with_container,
  process_leased, process_submission,
}

abbrev count_events : Language → List Language → ℕ
count_events l [] = 0
count_events l (m ∷ ms) = if language_eq m l then suc (count_events l ms) else count_events l ms

-- The sandboxes of a language that are warm, and those that were taken and announced.
abbrev pub warm_and_announced : Redis → Language → ℕ
warm_and_announced r l = length (r.warm l) + count_events l r.events

-- What taking a sandbox for a job does to Redis.
abbrev leased : Language → Redis → Redis
leased l r = elim (acquire_warm_sandbox l r).0 [
  | none ↦ (acquire_warm_sandbox l r).1
  | some c ↦ publish_event l (acquire_warm_sandbox l r).1
]

abbrev after_read : Result Job → Redis → Redis
after_read (err e) r = r
after_read (ok job) r = leased job.submission.language r

count_events-append :
    (l m : Language) (ms : List Language)
    → count_events l (ms ++ m ∷ []) ≡ count_events l ms + count_events l (m ∷ [])
count_events-append l m [] = ground arith
count_events-append l m (x ∷ ms) = ground (arith, count_events-append l m ms)

leased-warm_and_announced :
    (m l : Language) (r : Redis) → warm_and_announced (leased m r) l ≡ warm_and_announced r l
unfolding acquire_warm_sandbox publish_event
leased-warm_and_announced m l r = ground (
  arith,
  split_last-cases (r.warm m),
  language_eq_sound l m,
  language_eq_sound m l,
  language_eq_refl l,
  count_events-append l m r.events,
)

state-then-pure : {S A : Type 0} (m : Exec S Unit) (a : A) (s : S) → ((m >> pure a) s).1 ≡ (m s).1
state-then-pure m a s = ground arith

after_read-warm_and_announced :
    (x : Result Job) (l : Language) (r : Redis)
    → warm_and_announced (after_read x r) l ≡ warm_and_announced r l
after_read-warm_and_announced (err e) l r = refl
after_read-warm_and_announced (ok job) l r = leased-warm_and_announced job.submission.language l r

module _ (env : Services) (config : Config) (submission_id : ℕ) (w : World env) where
  -- Of Redis, a submission touches only the pool of its language and the events.
  redis-process_submission :
      (process_submission env config submission_id w).1.redis
      ≡ after_read (session env (λ v. (read_job v.db submission_id, v)) w).0 w.redis
  unfolding process_submission process_leased session on_services on_redis
  redis-process_submission = ground arith

  -- process_submission keeps the sum of the warm sandboxes of a language and of the announced
  -- leases of that language, so each sandbox that is taken is announced once and no other
  -- announcement is made.
  pub process_submission-warm_and_announced :
      (l : Language)
      → warm_and_announced (process_submission env config submission_id w).1.redis l
        ≡ warm_and_announced w.redis l
  process_submission-warm_and_announced l = rw redis-process_submission (
      after_read-warm_and_announced (session env (λ v. (read_job v.db submission_id, v)) w).0 l
        w.redis)

-- A submission touches no job, no key and no flag.
abbrev KeysKept : Redis → Redis → Type 0
KeysKept r t =
    (t.jobs ≡ r.jobs)
    × (t.submission ≡ r.submission)
    × (t.shutdown_all ≡ r.shutdown_all)
    × (t.shutdown ≡ r.shutdown)
    × (t.heartbeat ≡ r.heartbeat)

leased-KeysKept : (l : Language) (r : Redis) → KeysKept r (leased l r)
unfolding acquire_warm_sandbox publish_event
leased-KeysKept l r = ground arith

after_read-KeysKept : (x : Result Job) (r : Redis) → KeysKept r (after_read x r)
after_read-KeysKept (err e) r = (refl, refl, refl, refl, refl)
after_read-KeysKept (ok job) r = leased-KeysKept job.submission.language r

module _ (env : Services) (config : Config) (submission_id : ℕ) (w : World env) where
  pub process_submission-keeps :
      KeysKept w.redis (process_submission env config submission_id w).1.redis
  process_submission-keeps =
      rw (redis-process_submission env config submission_id w)
        (after_read-KeysKept (session env (λ v. (read_job v.db submission_id, v)) w).0 w.redis)

module _ (env : Services) (config : Config) (P : env.State → Type 0) (container : Text)
    (stops : (s : env.State) → P (env.stop_container container s).1) where
  stop_after-state :
      {A : Type 0} (r : Result A) (s : env.State)
      → (stop_after env container r s).1 ≡ (env.stop_container container s).1
  unfolding stop_after
  stop_after-state r s = ground arith

  with_container-stops :
      {A : Type 0} (body : Exec env.State A) (s : env.State)
      → (env.get_container container s).0 ≡ ok tt
      → P (with_container env container body s).1
  unfolding with_container
  with_container-stops body s e =
      let m = (env.get_container container s).1 in
      rw (e, with_container)
        (subst P (sym (stop_after-state (body m).0 (body m).1)) (stops (body m).1))

  module _ (begins : (s : env.State) → P s → P (env.begin s).1)
      (commits : (s : env.State) → P s → P (env.commit s).1) where
    services-end_session :
        (before : Db) (w : World env)
        → (end_session env (ok tt) before w).1.services ≡ (env.commit w.services).1
    unfolding end_session
    services-end_session before w = ground arith

    session-keeps :
        (f : Db → Db) (w : World env)
        → P w.services
        → P (session env (λ v. (ok tt, record v { db = f v.db })) w).1.services
    unfolding session
    session-keeps f w h = elim (Outcome-cases (env.begin w.services)) [
      | inl (_, u, q) ↦
          let q0 = ap (λ (x : Result Unit × env.State). x.0) q in
          let s = (env.begin w.services).1 in
          rw (q0, session)
            (subst P (sym (services-end_session w.db (record w { services = s; db = f w.db })))
              (commits s (begins w.services h)))
      | inr (e, u, q) ↦
          let q0 = ap (λ (x : Result Unit × env.State). x.0) q in
          rw (q0, session) (begins w.services h)
    ]

    -- Once the container of a leased sandbox was found, whatever stopping it achieves, and opening
    -- and committing a database session does not undo, holds when the processing ends, whether it
    -- returned or raised.
    pub process_leased-stops :
        (submission_id : ℕ) (job : Job) (w : World env)
        → (env.get_container container w.services).0 ≡ ok tt
        → P (process_leased env config submission_id job container w).1.services
    unfolding process_leased on_services on_redis
    process_leased-stops submission_id job w e =
        let body = judge env config container job (new_result submission_id) in
        let stopped = with_container-stops body w.services e in
        elim (Outcome-cases (with_container env container body w.services)) [
          | inl (r, u, q) ↦
              let q0 = ap (λ (x : Result SubmissionResult × env.State). x.0) q in
              rw q0 (
                subst (λ (v : World env). P v.services)
                  (sym (
                    state-then-pure
                      (session env
                        (λ v. (ok tt, record v { db = update_result submission_id r v.db })))
                      r _))
                  (session-keeps (update_result submission_id r) _ stopped))
          | inr (f, u, q) ↦
              let q0 = ap (λ (x : Result SubmissionResult × env.State). x.0) q in rw q0 stopped
        ]
