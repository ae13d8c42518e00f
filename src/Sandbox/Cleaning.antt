-- ===== src/Sandbox/Cleaning.antt =====
-- `create_sandbox` and `clean_pool` of judge/sandbox_manager/main.py, run by one thread.
use byte_battles.Base.{
  ℕ, zero, suc, ◌-◌, ◌≤◌, ◌≡◌, refl, ap, inl, inr, false, arith, ltb, Bool-cases, split_last-cases,
}
use byte_battles.Base.Text.{Text}
use byte_battles.Base.Exec.{Result, ok, err, bind-eq-ok, ◌>>◌}
use byte_battles.Enums.{Language, language_eq, language_eq_refl}
use byte_battles.Config.{Config}
use byte_battles.Services.{Services}
use byte_battles.Redis.{Redis}
use byte_battles.World.{World, on_services, on_redis}
use byte_battles.Sandbox.{
  count, push_warm, pop_warm, create_sandbox, clean_one, clean_rounds, clean_pool, ignore_errors,
}

-- Redis after a call of `create_sandbox` that ended so.
abbrev pushed : Language → Result Text → Redis → Redis
pushed language (ok container_id) r = push_warm language container_id r
pushed language (err e) r = r

module _ (env : Services) (config : Config) (language : Language) (w : World env) where
  -- On every path, create_sandbox changes Redis exactly if it returns, and then only by pushing
  -- the returned container to the warm queue of its language.
  redis-create_sandbox :
      (create_sandbox env config language w).1.redis
      ≡ pushed language (create_sandbox env config language w).0 w.redis
  unfolding create_sandbox on_services on_redis
  redis-create_sandbox = ground arith

module _ (env : Services) (config : Config) (language : Language) where
  redis-clean_one :
      (w : World env) → (clean_one env config language w).1.redis ≡ (pop_warm language w.redis).1
  unfolding clean_one on_services on_redis ignore_errors
  redis-clean_one w = ground arith

count-pop_warm : (l : Language) (r : Redis) → count l (pop_warm l r).1 ≡ count l r - 1
unfolding count pop_warm
count-pop_warm l r = ground (arith, split_last-cases (r.warm l), language_eq_refl l)

warm-pop_warm :
    (l m : Language) (r : Redis) → language_eq m l ≡ false → (pop_warm l r).1.warm m ≡ r.warm m
unfolding pop_warm
warm-pop_warm l m r h = rw h

module _ (env : Services) (config : Config) (language : Language) where
  count-clean_one :
      (w : World env)
      → count language (clean_one env config language w).1.redis ≡ count language w.redis - 1
  count-clean_one w = rw (redis-clean_one env config language w) (count-pop_warm language w.redis)

  warm-clean_one :
      (w : World env) (m : Language)
      → language_eq m language ≡ false
      → (clean_one env config language w).1.redis.warm m ≡ w.redis.warm m
  warm-clean_one w m h =
      rw (redis-clean_one env config language w) (warm-pop_warm language m w.redis h)

  count-clean_rounds :
      (rounds : ℕ) (w u : World env)
      → count language w.redis ≤ rounds
      → clean_rounds env config rounds language w ≡ (ok tt, u)
      → count language u.redis ≡ 0
  unfolding clean_rounds
  count-clean_rounds zero w u h e =
      ground (arith, ap (λ (x : Result Unit × World env). count language x.1.redis) e)
  count-clean_rounds (suc rounds) w u h e = elim (Bool-cases (ltb 0 (count language w.redis))) [
    | inl more ↦
        let k : (clean_one env config language >> clean_rounds env config rounds language) w
            ≡ (ok tt, u) =
          rw more at e in
        let (_, t, one, rest) =
          bind-eq-ok (clean_one env config language) (λ _. clean_rounds env config rounds language)
            w k in
        count-clean_rounds rounds t u
          (ground (
            arith,
            count-clean_one w,
            ap (λ (x : Result Unit × World env). count language x.1.redis) one,
          ))
          rest
    | inr empty ↦
        let k : ◌≡◌ {A = Result Unit × World env} (ok tt, w) (ok tt, u) = rw empty at e in
        ground (arith, ap (λ (x : Result Unit × World env). count language x.1.redis) k)
  ]

  -- When clean_pool returns, the warm queue of the language is empty: as many rounds as there were
  -- sandboxes are enough for the loop to end by its test.
  pub count-clean_pool :
      (w u : World env) → clean_pool env config language w ≡ (ok tt, u) → count language u.redis ≡ 0
  unfolding clean_pool
  count-clean_pool w u e = count-clean_rounds (count language w.redis) w u (omega arith) e

  -- `clean_pool` takes nothing from the pools of the other languages.
  warm-clean_rounds :
      (rounds : ℕ) (w : World env) (m : Language)
      → language_eq m language ≡ false
      → (clean_rounds env config rounds language w).1.redis.warm m ≡ w.redis.warm m
  unfolding clean_rounds
  warm-clean_rounds zero w m h = refl
  warm-clean_rounds (suc rounds) w m h = elim (Bool-cases (ltb 0 (count language w.redis))) [
    | inl more ↦ rw more (
        ground (
          arith,
          warm-clean_one w m h,
          warm-clean_rounds rounds (clean_one env config language w).1 m h,
        ))
    | inr empty ↦ rw empty refl
  ]
