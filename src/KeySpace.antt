-- ===== src/KeySpace.antt =====
-- The keys of Redis as texts, which judge/run.py, judge/judge_worker/worker.py,
-- judge/judge_worker/redis_queue.py and judge/sandbox_manager/main.py put together from the names of
-- config.py, and the commands on them.
pub mod Apart
pub mod Fields
pub mod Refinement
use byte_battles.Base.{
  ℕ, ◌≡◌, Bool, true, false, Option, none, some, List, [], ◌∷◌, ◌++◌, map, if◌then◌else◌,
}
use byte_battles.Base.Text.{Text, codes, text_eq}
use byte_battles.Base.Number.{str}
use byte_battles.Base.Exec.{Exec, Result, ok, err, pure, ◌>>=◌, ◌>>◌}
use byte_battles.Enums.{Language}
use byte_battles.Redis.{Redis, set_key, set_warm, rpop, push_job}

-- What the names are in the environment, and what `format` of a language gives.
pub record Names : Type 0 where
  pub job_list : Text
  pub shutdown_key : Text
  pub worker_prefix : Text
  pub warm_queue_prefix : Text
  pub format : Language → Text

pub data Kind : Type 0 where
  shutdown heartbeat submission : Kind

pub data Key : Type 0 where
  job_list shutdown_key : Key
  warm_queue : Language → Key
  worker : ℕ → Kind → Key

-- What stands between two parts of a key.
abbrev pub colon : ℕ
colon = 58

abbrev pub kind_name : Kind → Text
kind_name Kind.shutdown = codes "shutdown"
kind_name Kind.heartbeat = codes "heartbeat"
kind_name Kind.submission = codes "submission"

unfoldable pub worker_key : Names → ℕ → Kind → Text
worker_key names identifier kind =
    names.worker_prefix ++ colon ∷ (str identifier ++ colon ∷ kind_name kind)

unfoldable pub warm_queue_key : Names → Language → Text
warm_queue_key names language = names.warm_queue_prefix ++ colon ∷ names.format language

abbrev pub key_text : Names → Key → Text
key_text names Key.job_list = names.job_list
key_text names Key.shutdown_key = names.shutdown_key
key_text names (Key.warm_queue language) = warm_queue_key names language
key_text names (Key.worker identifier kind) = worker_key names identifier kind

-- What a key may hold.
pub data Value : Type 0 where
  text : Text → Value
  items : List Text → Value

-- A client of a Redis server: what a key holds, and the commands.
pub record Client : Type 1 where
  pub State : Type 0
  pub value : State → Text → Option Value
  pub get : Text → Exec State (Option Text)
  pub set : Text → Text → Exec State Unit
  pub delete : Text → Exec State Unit
  pub lpush : Text → Text → Exec State Unit
  pub rpop : Text → Exec State (Option Text)

-- Redis keeps no empty list.
abbrev pub items_of : List Text → Option Value
items_of [] = none
items_of (x ∷ xs) = some (Value.items (x ∷ xs))

abbrev pub text_of : Option Text → Option Value
text_of none = none
text_of (some t) = some (Value.text t)

abbrev pub put : (Text → Option Value) → Text → Option Value → Text → Option Value
put f k v j = if text_eq j k then v else f j

-- What the commands are documented to do, on a key of the right kind, with no fault of the server.
pub record IsClient (C : Client) : Type 0 where
  pub gets :
      (k : Text) (v : Option Text) (s : C.State) → C.value s k ≡ text_of v → C.get k s ≡ (ok v, s)
  pub sets :
      (k v : Text) (s : C.State)
      → ((C.set k v s).0 ≡ ok tt)
        × ((j : Text) → C.value (C.set k v s).1 j ≡ put (C.value s) k (some (Value.text v)) j)
  pub deletes :
      (k : Text) (s : C.State)
      → ((C.delete k s).0 ≡ ok tt)
        × ((j : Text) → C.value (C.delete k s).1 j ≡ put (C.value s) k none j)
  pub pushes :
      (k v : Text) (xs : List Text) (s : C.State)
      → C.value s k ≡ items_of xs
      → ((C.lpush k v s).0 ≡ ok tt)
        × ((j : Text) → C.value (C.lpush k v s).1 j ≡ put (C.value s) k (items_of (v ∷ xs)) j)
  pub pops :
      (k : Text) (xs : List Text) (s : C.State)
      → C.value s k ≡ items_of xs
      → ((C.rpop k s).0 ≡ ok (rpop xs).0)
        × ((j : Text) → C.value (C.rpop k s).1 j ≡ put (C.value s) k (items_of (rpop xs).1) j)

-- "1" and "0"
abbrev flag : Bool → Text
flag true = codes "1"
flag false = codes "0"

abbrev pub flag_text : Option Bool → Option Text
flag_text none = none
flag_text (some b) = some (flag b)

abbrev pub number_text : Option ℕ → Option Text
number_text none = none
number_text (some n) = some (str n)

-- The commands that the judge gives. A time is written like a number.
pub data Command : Type 0 where
  get_shutdown_all delete_shutdown_all pop_job : Command
  set_shutdown_all : Bool → Command
  get_worker delete_worker : ℕ → Kind → Command
  set_shutdown : ℕ → Bool → Command
  set_heartbeat set_submission : ℕ → ℕ → Command
  push_id : ℕ → Command
  push_warm : Language → Text → Command
  pop_warm : Language → Command

abbrev replied : Result (Unit {0}) → Result (Option Text)
replied (ok done) = ok none
replied (err e) = err e

-- A command whose answer is not looked at.
unfoldable pub silent : {S : Type 0} → Exec S (Unit {0}) → Exec S (Option Text)
silent command s = let (result, t) = command s in (replied result, t)

module _ (C : Client) (names : Names) where
  unfoldable pub execute : Command → Exec C.State (Option Text)
  unfolding silent
  execute get_shutdown_all = C.get names.shutdown_key
  execute delete_shutdown_all = silent (C.delete names.shutdown_key)
  execute pop_job = C.rpop names.job_list
  execute (set_shutdown_all b) = silent (C.set names.shutdown_key (flag b))
  execute (get_worker i kind) = C.get (worker_key names i kind)
  execute (delete_worker i kind) = silent (C.delete (worker_key names i kind))
  execute (set_shutdown i b) = silent (C.set (worker_key names i Kind.shutdown) (flag b))
  execute (set_heartbeat i time) = silent (C.set (worker_key names i Kind.heartbeat) (str time))
  execute (set_submission i id) = silent (C.set (worker_key names i Kind.submission) (str id))
  execute (push_id id) = silent (C.lpush names.job_list (str id))
  execute (push_warm l container) = silent (C.lpush (warm_queue_key names l) container)
  execute (pop_warm l) = C.rpop (warm_queue_key names l)

-- What a worker's key holds in the record.
abbrev worker_text : Redis → ℕ → Kind → Option Text
worker_text r i Kind.shutdown = flag_text (r.shutdown i)
worker_text r i Kind.heartbeat = number_text (r.heartbeat i)
worker_text r i Kind.submission = number_text (r.submission i)

abbrev delete_field : ℕ → Kind → Redis → Redis
delete_field i Kind.shutdown r = record r { shutdown = set_key r.shutdown i none }
delete_field i Kind.heartbeat r = record r { heartbeat = set_key r.heartbeat i none }
delete_field i Kind.submission r = record r { submission = set_key r.submission i none }

-- The same commands on the record that the other modules work on.
unfoldable pub perform : Command → Redis → Option Text × Redis
perform get_shutdown_all r = (flag_text r.shutdown_all, r)
perform delete_shutdown_all r = (none, record r { shutdown_all = none })
perform pop_job r = let (id, rest) = rpop r.jobs in (number_text id, record r { jobs = rest })
perform (set_shutdown_all b) r = (none, record r { shutdown_all = some b })
perform (get_worker i kind) r = (worker_text r i kind, r)
perform (delete_worker i kind) r = (none, delete_field i kind r)
perform (set_shutdown i b) r = (none, record r { shutdown = set_key r.shutdown i (some b) })
perform (set_heartbeat i time) r =
    (none, record r { heartbeat = set_key r.heartbeat i (some time) })
perform (set_submission i id) r = (none, record r { submission = set_key r.submission i (some id) })
perform (push_id id) r = (none, push_job id r)
perform (push_warm l container) r =
    (none, record r { warm = set_warm r.warm l (container ∷ r.warm l) })
perform (pop_warm l) r =
    let (container, rest) = rpop (r.warm l) in
    (container, record r { warm = set_warm r.warm l rest })

-- What a key holds when the record is kept in a Redis server.
abbrev pub contents : Redis → Key → Option Value
contents r Key.job_list = items_of (map str r.jobs)
contents r Key.shutdown_key = text_of (flag_text r.shutdown_all)
contents r (Key.warm_queue l) = items_of (r.warm l)
contents r (Key.worker i kind) = text_of (worker_text r i kind)

module _ (C : Client) (names : Names) where
  abbrev pub Represents : C.State → Redis → Type 0
  Represents s r = (k : Key) → C.value s (key_text names k) ≡ contents r k

  -- Several commands, one after the other.
  unfoldable pub execute_all : List Command → Exec C.State (List (Option Text))
  execute_all [] = pure []
  execute_all (c ∷ commands) = do
    reply ← execute C names c
    replies ← execute_all commands
    pure (reply ∷ replies)

unfoldable pub perform_all : List Command → Redis → List (Option Text) × Redis
perform_all [] r = ([], r)
perform_all (c ∷ commands) r =
    let (reply, t) = perform c r in
    let (replies, u) = perform_all commands t in (reply ∷ replies, u)
