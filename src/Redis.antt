-- ===== src/Redis.antt =====
-- The part of Redis that the judge and the API share, and judge/judge_worker/redis_queue.py. A list
-- is kept with its left end first; keys are told apart by what they are for.
use byte_battles.Base.{
  ℕ, Bool, false, Option, none, some, List, [], ◌∷◌, ◌++◌, ◌==◌, if◌then◌else◌, length, split_last,
}
use byte_battles.Base.Text.{Text}
use byte_battles.Enums.{Language, language_eq}

pub record Redis : Type 0 where
  -- REDIS_JOB_LIST. An id is pushed as `str(id)` and read back by `int`.
  pub jobs : List ℕ
  -- `{WARM_QUEUE_PREFIX}:{language}`
  pub warm : Language → List Text
  -- What was published on REDIS_RESULT_CHANNEL, oldest first: the language of each message.
  pub events : List Language
  -- SHUTDOWN_KEY and `{WORKER_PREFIX}:{identifier}:shutdown`; `some true` is "1".
  pub shutdown_all : Option Bool
  pub shutdown : ℕ → Option Bool
  -- `{WORKER_PREFIX}:{identifier}:heartbeat` and `:submission`
  pub heartbeat : ℕ → Option ℕ
  pub submission : ℕ → Option ℕ

-- `redis.get(key) == "1"`
abbrev pub is_one : Option Bool → Bool
is_one none = false
is_one (some b) = b

-- `redis.set(key, v)` and `redis.delete(key)` on the keys of one kind.
unfoldable pub set_key {ℓ} : {A : Type ℓ} → (ℕ → Option A) → ℕ → Option A → ℕ → Option A
set_key f k v j = if j == k then v else f j

unfoldable pub set_warm : (Language → List Text) → Language → List Text → Language → List Text
set_warm f l v m = if language_eq m l then v else f m

-- `rpop(list)`, which is also what `brpop` does when it is served.
unfoldable pub rpop {ℓ} : {A : Type ℓ} → List A → Option A × List A
rpop xs = elim (split_last xs) [ none ↦ (none, []) | some (ys, y) ↦ (some y, ys) ]

-- `lpush(REDIS_JOB_LIST, id)`
unfoldable pub push_job : ℕ → Redis → Redis
push_job id r = record r { jobs = id ∷ r.jobs }

-- `acquire_warm_sandbox`: `brpop` on the queue of the language, `none` after the timeout.
unfoldable pub acquire_warm_sandbox : Language → Redis → Option Text × Redis
unfolding rpop set_warm
acquire_warm_sandbox language r =
    let (found, rest) = rpop (r.warm language) in
    (found, record r { warm = set_warm r.warm language rest })

-- `publish_event`
unfoldable pub publish_event : Language → Redis → Redis
publish_event language r = record r { events = r.events ++ language ∷ [] }

-- `warm_count`
unfoldable warm_count : Language → Redis → ℕ
warm_count language r = length (r.warm language)
