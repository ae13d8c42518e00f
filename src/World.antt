-- ===== src/World.antt =====
-- The state that the judge's processes share: Redis, the database, and the services outside.
use byte_battles.Base.Exec.{Exec, Result, ok, err}
use byte_battles.Services.{Services}
use byte_battles.Redis.{Redis}
use byte_battles.Database.{Db}

pub record World (env : Services) : Type 0 where
  pub services : env.State
  pub redis : Redis
  pub db : Db

module _ (env : Services) {A : Type 0} where
  -- A call of a service.
  unfoldable pub on_services : Exec env.State A → Exec (World env) A
  on_services m w = let (r, s) = m w.services in (r, record w { services = s })

  -- A call of Redis, which is taken to be up.
  unfoldable pub on_redis : (Redis → A × Redis) → Exec (World env) A
  on_redis f w = let (a, r) = f w.redis in (ok a, record w { redis = r })

  -- The end of `Database.session` (judge/judge_worker/database.py): after the body, commit; after a
  -- raise, also of the commit, roll back and raise again.
  unfoldable pub end_session : Result A → Db → World env → Result A × World env
  end_session (err e) before w = (err e, record w { db = before })
  end_session (ok a) before w =
      let (r, s) = env.commit w.services in
      elim r [
        | ok _ ↦ (ok a, record w { services = s })
        | err e ↦ (err e, record w { services = s; db = before })
      ]

  -- `with db.session() as db: body`
  unfoldable pub session : Exec (World env) A → Exec (World env) A
  unfolding on_services end_session
  session body w =
      let (opened, s) = env.begin w.services in
      elim opened [
        | err e ↦ (err e, record w { services = s })
        | ok _ ↦ let (r, w') = body (record w { services = s }) in end_session r w.db w'
      ]
