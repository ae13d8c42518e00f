-- ===== src/System.antt =====
-- The parts together: requests to the web service (api/app), turns of judge workers and of the
-- orchestrator, and the sandbox manager's changes of the pools, in any order, on one database and one
-- Redis. An event is a request or a turn as a whole, but for the creation of a problem, which is cut at
-- its `await`, and for a worker that gets stuck.
pub mod Rows
pub mod Watching
pub mod Verdicts
pub mod Handling
pub mod Turns
pub mod Requests
pub mod Consistent
pub mod Steps
pub mod Pending
pub mod Accounted
pub mod Queue
pub mod Draining
pub mod Lasting
pub mod Keys
pub mod Recovery
use byte_battles.Base.{
  ℕ, Bool, not, Option, none, some, List, [], ◌∷◌, ◌++◌, ◌==◌, if◌then◌else◌, split_last, ltb, ◌&&◌,
}
use byte_battles.Base.Text.{Text}
use byte_battles.Base.Exec.{Result, ok, err, Fault, is_exception, is_value_error}
use byte_battles.Enums.{Language}
use byte_battles.Config.{Config}
use byte_battles.Services.{Services, Bytes}
use byte_battles.Redis.{Redis}
use byte_battles.Database.{first, select}
use byte_battles.System.Rows.{occurs}
use byte_battles.World.{World}
use byte_battles.Pipeline.{SubmissionResult, process_submission}
use byte_battles.Worker.{Turn, again, is_running, beat, set_submission, turn}
use byte_battles.Orchestrator.{Orchestrator, observe, round}
use byte_battles.Api.Accounts.{User, Users, Connection, has_id}
use byte_battles.Api.Auth.{Passwords, UserCreate, register}
use byte_battles.Api.Profiles.{UserUpdate, update_current_user, delete_current_user}
use byte_battles.Api.Backend.{Backend}
use byte_battles.Api.Http.{Reply, unhandled}
use byte_battles.Api.Site.{Site}
use byte_battles.Api.Problems.Form.{Archives, ProblemForm}
use byte_battles.Api.Problems.Upload.{create_after_read}
use byte_battles.Api.Problems.Removal.{delete_problem}
use byte_battles.Api.Submissions.Create.{SubmissionCreate, SubmissionResponse, create_submission}

-- What the parts call and do not implement, and the settings.
pub record Parts : Type 1 where
  pub backend : Backend
  pub services : Services
  pub archives : Archives
  pub passwords : Passwords
  pub config : Config
  pub encode : Text → Bytes
  pub decode : Bytes → Result Text

-- What the local variable holds after a turn; it does not matter when the loop was left.
abbrev pub bound : Turn → Option ℕ → Option ℕ
bound (again v) old = v
bound _ old = old

abbrev pub set_variable : (ℕ → Option ℕ) → ℕ → Option ℕ → ℕ → Option ℕ
set_variable f i v j = if j == i then v else f j

-- A submission whose processing ends so is not tried again.
abbrev pub given_up : ℕ → Result SubmissionResult → List ℕ
given_up id (ok result) = []
given_up id (err e) = if is_exception e then (if is_value_error e then id ∷ [] else []) else id ∷ []

module _ (parts : Parts) where
  pub record System : Type 0 where
    pub site : Site parts.backend
    pub services : parts.services.State
    -- The local variable `submission_id` of each worker.
    pub variable : ℕ → Option ℕ
    pub orchestrator : Orchestrator

  pub data Event : Type 0 where
    -- Requests, with the time.
    submit : SubmissionCreate → User → ℕ → Event
    upload_problem : ProblemForm → ℕ → Event
    remove_problem : Text → Event
    sign_up : parts.passwords.Salt → UserCreate → Connection → ℕ → Event
    change_account : parts.passwords.Salt → UserUpdate → Connection → ℕ → Event
    -- The deletion of an account whose commit returns; one whose commit raises changes nothing.
    delete_account : ℕ → Event
    -- A turn of a worker at a time, with what the pop raises; a worker that takes a submission and
    -- goes no further.
    work : (identifier now : ℕ) → Option Fault → Event
    get_stuck : (identifier now : ℕ) → Event
    -- A turn of the orchestrator at a time, with the processes that are alive then.
    watch : (now : ℕ) → (ℕ → Bool) → Event
    -- The sandbox manager has changed the warm pools.
    refill : (Language → List Text) → Event

  abbrev pub world : System → World parts.services
  world s = record { services = s.services; redis = s.site.redis; db = s.site.db }

  abbrev with_world : World parts.services → System → System
  with_world w s = record s {
    site = record s.site { redis = w.redis; db = w.db };
    services = w.services;
  }

  abbrev pub take_turn : ℕ → Turn × World parts.services → System → System
  take_turn i (t, w) s =
      with_world w (record s { variable = set_variable s.variable i (bound t (s.variable i)) })

  -- The pop of `brpop`, and the keys that the worker sets before the processing.
  abbrev pub begun : (identifier now id : ℕ) → List ℕ → Redis → Redis
  begun i now id rest r =
      set_submission parts.services parts.config i (some id)
        (record (beat parts.services parts.config i now r) { jobs = rest })

  abbrev pub with_redis : Redis → System → System
  with_redis r s = record s { site = record s.site { redis = r } }

  abbrev with_users : Users → System → System
  with_users users s = record s { site = record s.site { users = users } }

  abbrev with_site : Site parts.backend → System → System
  with_site site s = record s { site = site }

  -- The rows of a deleted user's submissions go with the user.
  abbrev pub remove_user : User → System → System
  remove_user u s = record s {
    site = record s.site {
      users = delete_current_user u s.site.users;
      db = record s.site.db {
        submissions = select (λ t. not (t.user_id == u.id)) s.site.db.submissions;
      };
    };
  }

  abbrev take_part : Orchestrator → System → System
  take_part o s = record s { orchestrator = o; site = record s.site { redis = o.redis } }

  unfoldable pub step : Event → System → System
  step (submit details user now) s =
      with_site
        (create_submission parts.backend parts.encode parts.decode now details user s.site).1 s
  step (upload_problem form now) s =
      with_site (create_after_read parts.backend parts.archives form now s.site).1 s
  step (remove_problem id) s = with_site (delete_problem parts.backend id s.site).1 s
  step (sign_up salt new_user connection now) s =
      with_users (register parts.passwords now salt new_user connection s.site.users).1 s
  step (change_account salt updates connection id) s = elim (first (has_id id) s.site.users.rows) [
    | none ↦ s
    | some me ↦
        with_users (update_current_user parts.passwords salt updates me connection s.site.users).1 s
  ]
  step (delete_account id) s = elim (first (has_id id) s.site.users.rows) [
    | none ↦ s
    | some me ↦ remove_user me s
  ]
  step (work i now outage) s =
      take_turn i (turn parts.services parts.config i now outage (s.variable i) (world s)) s
  step (get_stuck i now) s = elim (split_last s.site.redis.jobs) [
    | none ↦ s
    | some (rest, id) ↦ with_redis (begun i now id rest s.site.redis) s
  ]
  step (watch now alive) s =
      take_part
        (round parts.config now
          (observe (record { now = now; redis = s.site.redis; survives = alive }) s.orchestrator))
        s
  step (refill warm) s = with_redis (record s.site.redis { warm = warm }) s

  unfoldable pub run : List Event → System → System
  run [] s = s
  run (e ∷ events) s = run events (step e s)

  -- A request that raised has stored this submission, and its id is not in the queue.
  abbrev pub left_behind :
      Reply SubmissionResponse → Site parts.backend → Site parts.backend → List ℕ
  left_behind (unhandled e) s t =
      if ltb s.db.next_submission t.db.next_submission
        && not (occurs s.db.next_submission t.redis.jobs)
      then s.db.next_submission ∷ []
      else []
  left_behind _ s t = []

  -- The submissions that an event takes from the queue and neither judges nor puts back, or that it
  -- stores and does not push.
  unfoldable pub abandoned : Event → System → List ℕ
  abandoned (work i now none) s = elim (split_last s.site.redis.jobs) [
    | none ↦ []
    | some (rest, id) ↦
        if is_running parts.services parts.config i s.site.redis
        then given_up id
            (process_submission parts.services parts.config id
              (record (world s) { redis = begun i now id rest s.site.redis })).0
        else []
  ]
  abandoned (submit details user now) s =
      let (r, t) =
        create_submission parts.backend parts.encode parts.decode now details user s.site in
      left_behind r s.site t
  abandoned (get_stuck i now) s = elim (split_last s.site.redis.jobs) [
    | none ↦ []
    | some (rest, id) ↦ id ∷ []
  ]
  abandoned _ s = []

  unfoldable pub all_abandoned : List Event → System → List ℕ
  all_abandoned [] s = []
  all_abandoned (e ∷ events) s = abandoned e s ++ all_abandoned events (step e s)
