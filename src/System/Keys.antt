-- ===== src/System/Keys.antt =====
-- Which keys of Redis an event leaves alone: those of a worker that is not its own, as long as the
-- orchestrator keeps that worker.
use byte_battles.Base.{
  ℕ, ◌≡◌, refl, ap, ◌≢◌, inl, inr, Bool, true, Option, none, some, List, [], arith, Bool-cases,
  Option-cases, split_last-cases,
}
use byte_battles.Base.Exec.{Fault}
use byte_battles.Config.{Config}
use byte_battles.Services.{Services}
use byte_battles.Redis.{Redis, set_key, push_job}
use byte_battles.World.{World}
use byte_battles.Database.{first}
use byte_battles.Pipeline.Lease.{process_submission-keeps}
use byte_battles.Worker.{turn, is_running, beat, set_submission, handle, attempt, settle, consume}
use byte_battles.Worker.Retry.{turn-consume}
use byte_battles.Api.Site.{Site}
use byte_battles.Api.Accounts.{has_id}
use byte_battles.Orchestrator.{Orchestrator, Observation, round, observe}
use byte_battles.Orchestrator.Identifiers.{
  contains, IsTracked, observe-IsTracked, check_heartbeat-IsTracked, scale-IsTracked,
}
use byte_battles.Orchestrator.Keys.{KeysOf, KeysOf-trans, Rising-below, round-KeysOf}
use byte_battles.System.{
  Parts, System, Event, step, submit, upload_problem, remove_problem, sign_up, change_account,
  delete_account, work, get_stuck, watch, refill, world,
}
use byte_battles.System.Requests.{
  Untouched, Queued, Reduced, create_submission-Queued, create_after_read-Untouched,
  delete_problem-Reduced,
}
use byte_battles.System.Turns.{turn_empty}

-- The turns of a worker leave the keys of the others alone.
module _ (env : Services) (config : Config) (j i : ℕ) (other : i ≢ j) where
  consume-KeysOf : (id : ℕ) (v : World env) → KeysOf i v.redis (consume env config j id v).1.redis
  unfolding consume attempt settle handle set_submission set_key push_job
  consume-KeysOf id v =
      let v' : World env = record v { redis = set_submission env config j (some id) v.redis } in
      let (_, submission, _, _, heartbeat) = process_submission-keeps env config id v' in
      ground (
        arith,
        other,
        ap (λ (f : ℕ → Option ℕ). f i) submission,
        ap (λ (f : ℕ → Option ℕ). f i) heartbeat,
      )

  beat-KeysOf :
      (now : ℕ) (jobs : List ℕ) (r : Redis)
      → KeysOf i r (record (beat env config j now r) { jobs = jobs })
  unfolding beat set_key
  beat-KeysOf now jobs r = ground (arith, other)

  begun-KeysOf :
      (now id : ℕ) (jobs : List ℕ) (r : Redis)
      → KeysOf i r
          (set_submission env config j (some id) (record (beat env config j now r) { jobs = jobs }))
  unfolding beat set_submission set_key
  begun-KeysOf now id jobs r = ground (arith, other)

  handle-KeysOf :
      (e : Fault) (variable : Option ℕ) (w : World env)
      → KeysOf i w.redis (handle env config j e variable w).1.redis
  unfolding handle push_job
  handle-KeysOf e none w = ground arith
  handle-KeysOf e (some id) w = ground arith

  turn-KeysOf :
      (now : ℕ) (outage : Option Fault) (variable : Option ℕ) (w : World env)
      → KeysOf i w.redis (turn env config j now outage variable w).1.redis
  unfolding turn
  turn-KeysOf now outage variable w = elim (Bool-cases (is_running env config j w.redis)) [
    | inr e ↦ rw e (refl, refl)
    | inl e ↦ taken_up outage e
  ]
    where
      taken_up :
          (outage : Option Fault)
          → is_running env config j w.redis ≡ true
          → KeysOf i w.redis (turn env config j now outage variable w).1.redis
      taken_up (some x) e =
          let v : World env = record w { redis = beat env config j now w.redis } in
          rw (e, turn)
            (KeysOf-trans i w.redis v.redis (handle env config j x variable v).1.redis
              (beat-KeysOf now v.redis.jobs w.redis) (handle-KeysOf x variable v))
      taken_up none e = elim (split_last-cases w.redis.jobs) [
        | inl (q, f) ↦
            rw (turn_empty env config j 0 now none variable w e f) (beat-KeysOf now [] w.redis)
        | inr (rest, id, q, _, _) ↦
            let v : World env = record w {
              redis = record (beat env config j now w.redis) { jobs = rest };
            } in
            rw (turn-consume env config j now id variable rest w e q) (
              KeysOf-trans i w.redis v.redis (consume env config j id v).1.redis
                (beat-KeysOf now rest w.redis) (consume-KeysOf id v))
      ]

module _ (parts : Parts) where
  abbrev pub redis_of : System parts → Redis
  redis_of s = s.site.redis

  abbrev pub observation : ℕ → (ℕ → Bool) → System parts → Observation
  observation now alive s = record { now = now; redis = s.site.redis; survives = alive }

  abbrev pub observed : ℕ → (ℕ → Bool) → System parts → Orchestrator
  observed now alive s = observe (observation now alive s) s.orchestrator

  pub step-IsTracked :
      (e : Event parts) (s : System parts)
      → IsTracked s.orchestrator
      → IsTracked (step parts e s).orchestrator
  unfolding step round
  step-IsTracked (change_account salt updates connection id) s v =
      elim (Option-cases (first (has_id id) s.site.users.rows)) [
        | inl e ↦ rw (e, step) v
        | inr (me, e) ↦ rw (e, step) v
      ]
  step-IsTracked (delete_account id) s v =
      elim (Option-cases (first (has_id id) s.site.users.rows)) [
        | inl e ↦ rw (e, step) v
        | inr (me, e) ↦ rw (e, step) v
      ]
  step-IsTracked (get_stuck j now) s v = elim (split_last-cases s.site.redis.jobs) [
    | inl (q, e) ↦ rw (e, step) v
    | inr (rest, id, q, e, _) ↦ rw (e, step) v
  ]
  step-IsTracked (watch now alive) s v = scale-IsTracked now _ (
      check_heartbeat-IsTracked parts.config now (observed now alive s)
        (observe-IsTracked (observation now alive s) s.orchestrator v))
  step-IsTracked (submit details user now) s v = v
  step-IsTracked (upload_problem form now) s v = v
  step-IsTracked (remove_problem id) s v = v
  step-IsTracked (sign_up salt new_user connection now) s v = v
  step-IsTracked (work j now outage) s v = v
  step-IsTracked (refill warm) s v = v

  module _ (i : ℕ) where
    -- What the worker itself does not do.
    abbrev pub IsOther : Event parts → Type 0
    IsOther (work j now outage) = i ≢ j
    IsOther (get_stuck j now) = i ≢ j
    IsOther _ = Unit

    Untouched-KeysOf : (s t : Site parts.backend) → Untouched s t → KeysOf i s.redis t.redis
    Untouched-KeysOf s t h = rw h.redis (refl, refl)

    watch-KeysOf :
        (now : ℕ) (alive : ℕ → Bool) (s : System parts)
        → IsTracked s.orchestrator
        → contains s.orchestrator.workers i ≡ true
        → contains (step parts (watch now alive) s).orchestrator.workers i ≡ true
        → KeysOf i (redis_of s) (redis_of (step parts (watch now alive) s))
    unfolding step observe
    watch-KeysOf now alive s v l c =
        round-KeysOf parts.config now i (observed now alive s)
          (observe-IsTracked (observation now alive s) s.orchestrator v)
          (Rising-below 0 s.orchestrator.global_worker_id s.orchestrator.workers i v.serial l).1 c

    pub step-KeysOf :
        (e : Event parts) (s : System parts)
        → IsTracked s.orchestrator
        → contains s.orchestrator.workers i ≡ true
        → IsOther e
        → contains (step parts e s).orchestrator.workers i ≡ true
        → KeysOf i (redis_of s) (redis_of (step parts e s))
    unfolding step push_job set_submission set_key
    step-KeysOf (submit details user now) s v l o c =
        elim (create_submission-Queued parts.backend parts.encode parts.decode now details user
          s.site) [
            | Queued.unchanged h ↦ Untouched-KeysOf s.site _ h
            | Queued.added key e f g ↦ rw f (refl, refl)
            | Queued.left key x q e f g ↦ rw f (refl, refl)
          ]
    step-KeysOf (upload_problem form now) s v l o c =
        Untouched-KeysOf s.site _
          (create_after_read-Untouched parts.backend parts.archives form now s.site)
    step-KeysOf (remove_problem id) s v l o c =
        elim (delete_problem-Reduced parts.backend id s.site) [
          | Reduced.whole h ↦ Untouched-KeysOf s.site _ h
          | Reduced.selected test e f g h ↦ rw g (refl, refl)
        ]
    step-KeysOf (sign_up salt new_user connection now) s v l o c = (refl, refl)
    step-KeysOf (change_account salt updates connection id) s v l o c =
        elim (Option-cases (first (has_id id) s.site.users.rows)) [
          | inl e ↦ rw (e, step) (refl, refl)
          | inr (me, e) ↦ rw (e, step) (refl, refl)
        ]
    step-KeysOf (delete_account id) s v l o c =
        elim (Option-cases (first (has_id id) s.site.users.rows)) [
          | inl e ↦ rw (e, step) (refl, refl)
          | inr (me, e) ↦ rw (e, step) (refl, refl)
        ]
    step-KeysOf (work j now outage) s v l o c =
        turn-KeysOf parts.services parts.config j i o now outage (s.variable j) (world parts s)
    step-KeysOf (get_stuck j now) s v l o c = elim (split_last-cases s.site.redis.jobs) [
      | inl (q, e) ↦ rw (e, step) (refl, refl)
      | inr (rest, id, q, e, _) ↦
          rw (e, step) (begun-KeysOf parts.services parts.config j i o now id rest s.site.redis)
    ]
    step-KeysOf (watch now alive) s v l o c = watch-KeysOf now alive s v l c
    step-KeysOf (refill warm) s v l o c = (refl, refl)
