-- ===== src/Tests/KeySpaceTests.antt =====
-- The keys of Redis with the names of .env.example, on a server in memory.
use byte_battles.Base.{◌≡◌, refl, ◌≢◌, false, Option, none, some, List, [], ◌∷◌}
use byte_battles.Base.Text.{Text, codes, text_eq, text_eq_iff}
use byte_battles.Base.Exec.{Exec, Result, ok, err, Fault}
use byte_battles.Enums.{Language, language_value}
use byte_battles.Redis.{Redis, rpop, set_key, set_warm, push_job}
use byte_battles.Base.Number.{str}
use byte_battles.KeySpace.{
  Names, Kind, Key, Value, Client, IsClient, Command, items_of, text_of, put, perform, Represents,
  execute_all, perform_all, pop_job, set_shutdown_all, get_worker, delete_worker, set_heartbeat,
  set_submission, push_id, push_warm, pop_warm,
}
use byte_battles.KeySpace.Apart.{AreApart}
use byte_battles.KeySpace.Refinement.{execute_all-perform_all}

abbrev Store : Type 0
Store = Text → Option Value

abbrev wrong_kind : {A : Type 0} → Store → Result A × Store
wrong_kind s = (err Fault.external, s)

abbrev read : Option Value → Exec Store (Option Text)
read none s = (ok none, s)
read (some (Value.text t)) s = (ok (some t), s)
read (some (Value.items xs)) s = wrong_kind s

abbrev push : Text → Text → Option Value → Exec Store (Unit {0})
push k v none s = (ok tt, put s k (items_of (v ∷ [])))
push k v (some (Value.items xs)) s = (ok tt, put s k (items_of (v ∷ xs)))
push k v (some (Value.text t)) s = wrong_kind s

abbrev pop : Text → Option Value → Exec Store (Option Text)
pop k none s = (ok none, put s k none)
pop k (some (Value.items xs)) s = (ok (rpop xs).0, put s k (items_of (rpop xs).1))
pop k (some (Value.text t)) s = wrong_kind s

abbrev server : Client
server = record {
  State = Store;
  value = λ s k. s k;
  get = λ k s. read (s k) s;
  set = λ k v s. (ok tt, put s k (some (Value.text v)));
  delete = λ k s. (ok tt, put s k none);
  lpush = λ k v s. push k v (s k) s;
  rpop = λ k s. pop k (s k) s;
}

gets_text : (k : Text) (v : Option Text) (s : Store) → s k ≡ text_of v → read (s k) s ≡ (ok v, s)
gets_text k none s h = rw h refl
gets_text k (some t) s h = rw h refl

pushes_items :
    (k v : Text) (xs : List Text) (s : Store)
    → s k ≡ items_of xs
    → ((push k v (s k) s).0 ≡ ok tt)
      × ((j : Text) → (push k v (s k) s).1 j ≡ put s k (items_of (v ∷ xs)) j)
pushes_items k v [] s h = rw h (refl, λ j. refl)
pushes_items k v (x ∷ xs) s h = rw h (refl, λ j. refl)

pops_items :
    (k : Text) (xs : List Text) (s : Store)
    → s k ≡ items_of xs
    → ((pop k (s k) s).0 ≡ ok (rpop xs).0)
      × ((j : Text) → (pop k (s k) s).1 j ≡ put s k (items_of (rpop xs).1) j)
unfolding rpop
pops_items k [] s h = rw h (refl, λ j. refl)
pops_items k (x ∷ xs) s h = rw h (refl, λ j. refl)

server-IsClient : IsClient server
server-IsClient = record {
  gets = gets_text;
  sets = λ k v s. (refl, λ j. refl);
  deletes = λ k s. (refl, λ j. refl);
  pushes = pushes_items;
  pops = pops_items;
}

abbrev names : Names
names = record {
  job_list = codes "judge:queue";
  shutdown_key = codes "control:shutdown";
  worker_prefix = codes "worker";
  warm_queue_prefix = codes "warm";
  format = language_value;
}

formats_differ : (l m : Language) → language_value l ≡ language_value m → l ≡ m
unfolding language_value
formats_differ Language.c Language.c h = refl
formats_differ Language.cpp Language.cpp h = refl
formats_differ Language.python Language.python h = refl
formats_differ Language.c Language.cpp h = cc h
formats_differ Language.c Language.python h = cc h
formats_differ Language.cpp Language.c h = cc h
formats_differ Language.cpp Language.python h = cc h
formats_differ Language.python Language.c h = cc h
formats_differ Language.python Language.cpp h = cc h

differ : (s t : Text) → text_eq s t ≡ false → s ≢ t
differ s t e h = let k = (text_eq_iff s t).1 h in cc (k, e)

names-AreApart : AreApart names
unfolding text_eq
names-AreApart = record {
  worker_whole = refl;
  warm_whole = refl;
  prefixes = differ _ _ refl;
  lists = differ _ _ refl;
  job_worker = differ _ _ refl;
  job_warm = differ _ _ refl;
  shutdown_worker = differ _ _ refl;
  shutdown_warm = differ _ _ refl;
  formats = formats_differ;
}

abbrev empty_redis : Redis
empty_redis = record {
  jobs = [];
  warm = λ l. [];
  events = [];
  shutdown_all = none;
  shutdown = λ i. none;
  heartbeat = λ i. none;
  submission = λ i. none;
}

empty-Represents : Represents server names (λ k. none) empty_redis
empty-Represents Key.job_list = refl
empty-Represents Key.shutdown_key = refl
empty-Represents (Key.warm_queue l) = refl
empty-Represents (Key.worker i Kind.shutdown) = refl
empty-Represents (Key.worker i Kind.heartbeat) = refl
empty-Represents (Key.worker i Kind.submission) = refl

-- Workers 1 and 11, and a submission that worker 1 takes.
abbrev commands : List Command
commands =
    set_shutdown_all false
    ∷ set_heartbeat 1 90
    ∷ set_heartbeat 11 95
    ∷ push_id 7
    ∷ push_warm Language.c (codes "c1")
    ∷ pop_job
    ∷ set_submission 1 7
    ∷ delete_worker 11 Kind.heartbeat
    ∷ get_worker 1 Kind.heartbeat
    ∷ pop_warm Language.c
    ∷ pop_job
    ∷ []

replies_run :
    (perform_all commands empty_redis).0
    ≡ none
      ∷ none
      ∷ none
      ∷ none
      ∷ none
      ∷ some (codes "7")
      ∷ none
      ∷ none
      ∷ some (codes "90")
      ∷ some (codes "c1")
      ∷ none
      ∷ []
unfolding perform_all perform rpop set_key set_warm push_job str
replies_run = refl

execute_all-perform_all_example :
    let (replies, u) = perform_all commands empty_redis in
    ((execute_all server names commands (λ k. none)).0 ≡ ok replies)
    × Represents server names (execute_all server names commands (λ k. none)).1 u
execute_all-perform_all_example =
    execute_all-perform_all server server-IsClient names names-AreApart commands (λ k. none)
      empty_redis empty-Represents
