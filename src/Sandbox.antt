-- ===== src/Sandbox.antt =====
-- judge/sandbox_manager/main.py: what one thread does with Docker and Redis. The threads together are
-- in `Sandbox.Threads`.
pub mod Cleaning
pub mod Threads
use byte_battles.Base.{
  ℕ, zero, suc, Bool, true, false, Option, none, some, [], ◌∷◌, ◌++◌, ltb, ◌==◌, if◌then◌else◌,
  length,
}
use byte_battles.Base.Text.{Text, codes}
use byte_battles.Base.Number.{str}
use byte_battles.Base.Exec.{Exec, Result, ok, err, Fault, is_exception, pure, raise, ◌>>=◌, ◌>>◌}
use byte_battles.Enums.{Language, language_value, image}
use byte_battles.Config.{Config}
use byte_battles.Services.{Services, Limits}
use byte_battles.Redis.{Redis, rpop, set_warm}
use byte_battles.World.{World, on_services, on_redis}

-- `count`
unfoldable pub count : Language → Redis → ℕ
count language r = length (r.warm language)

-- `redis.lpush(self.warm_queue(language), container_id)`
unfoldable pub push_warm : Language → Text → Redis → Redis
unfolding set_warm
push_warm language container_id r = record r {
  warm = set_warm r.warm language (container_id ∷ r.warm language);
}

-- `redis.rpop(self.warm_queue(language))`
unfoldable pub pop_warm : Language → Redis → Option Text × Redis
unfolding rpop set_warm
pop_warm language r =
    let (found, rest) = rpop (r.warm language) in
    (found, record r { warm = set_warm r.warm language rest })

-- `try: m except Exception: pass`, also where the exception is only logged.
unfoldable pub ignore_errors {ℓ} : {S : Type ℓ} → Result (Unit {0}) × S → Result (Unit {0}) × S
ignore_errors (ok _, s) = (ok tt, s)
ignore_errors (err e, s) = (if is_exception e then ok tt else err e, s)

-- The end of `healthcheck`.
abbrev healthy {ℓ} : {S : Type ℓ} → Result ℕ × S → Result Bool × S
healthy (ok exit_code, s) = (ok (exit_code == 0), s)
healthy (err e, s) = (if is_exception e then ok false else err e, s)

module _ (env : Services) (config : Config) where
  open env use {
    State, uuid_hex, create_container, start_container, exec_plain, remove_container, get_container,
    stop_container,
  }

  unfoldable healthcheck : Text → Exec State Bool
  healthcheck container s =
      healthy (exec_plain container (codes "/bin/sh" ∷ codes "-lc" ∷ codes "true" ∷ []) s)

  abbrev limits : Limits
  limits = record {
    cap_drop = codes "ALL" ∷ [];
    network_mode = codes "none";
    security_opt = codes "no-new-privileges" ∷ [];
    mem_limit = str config.max_memcap_gb ++ codes "g";
    memswap_limit = str config.max_memcap_gb ++ codes "g";
    pids_limit = config.max_pids;
    user = codes "run";
  }

  -- `create_sandbox` up to the push: a started container that passed its health check.
  unfoldable pub start_sandbox : Language → Exec State Text
  unfolding healthcheck ignore_errors
  start_sandbox language = do
    id ← uuid_hex
    container ←
        create_container (codes "sandbox_" ++ language_value language ++ codes "_" ++ id)
          (image language) limits
    start_container container
    passed ← healthcheck container
    let failed = (λ s. ignore_errors (remove_container container s)) >> raise Fault.runtime_error
    if passed then pure container else failed

  unfoldable pub create_sandbox : Language → Exec (World env) Text
  create_sandbox language = do
    container_id ← on_services env (start_sandbox language)
    on_redis env (λ r. (tt, push_warm language container_id r))
    pure container_id

  -- The body of the loop of `clean_pool`. If the pop found nothing,
  -- `containers.get(None)` raises, which is logged.
  unfoldable pub clean_one : Language → Exec (World env) Unit
  unfolding ignore_errors
  clean_one language = on_redis env (pop_warm language) >>= λ found. elim found [
    | none ↦ pure tt
    | some container_id ↦
        on_services env
          λ s. ignore_errors ((get_container container_id >> stop_container container_id) s)
  ]

  -- `while self.count(language) > 0`, on as many rounds as there are containers.
  unfoldable pub clean_rounds : ℕ → Language → Exec (World env) Unit
  clean_rounds zero language w = (ok tt, w)
  clean_rounds (suc rounds) language w =
      let more = (clean_one language >> clean_rounds rounds language) w in
      if ltb 0 (count language w.redis) then more else (ok tt, w)

  unfoldable pub clean_pool : Language → Exec (World env) Unit
  unfolding clean_rounds
  clean_pool language w = clean_rounds (count language w.redis) language w
