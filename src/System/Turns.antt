-- ===== src/System/Turns.antt =====
-- What a turn of a worker (judge/judge_worker/worker.py) does to the queue, the tables and the keys.
use byte_battles.Base.{
  ℕ, ◌<◌, ◌≡◌, refl, sym, ◌∙◌, subst, inl, inr, true, Option, none, some, List, [], ◌∷◌, ◌++◌,
  arith, Bool-cases, split_last, split_last-cases, All,
}
use byte_battles.Base.Exec.{Fault}
use byte_battles.Services.{Services}
use byte_battles.Config.{Config}
use byte_battles.Redis.{rpop}
use byte_battles.World.{World}
use byte_battles.Pipeline.{process_submission}
use byte_battles.Worker.{Turn, again, is_running, beat, handle, popped, consume, turn}
use byte_battles.Pipeline.Outcome.{stored}
use byte_battles.Worker.Retry.{requeued, taken, turn-settled, turn-consume}
use byte_battles.System.{bound}
use byte_battles.System.Watching.{Known, Kept, Kept-same, Kept-trans}
use byte_battles.System.Handling.{
  Limited, All-init, All-end, handle-Kept, consume-Known, is_running-consume, bound-handle,
  bound-consume,
}

module _ (env : Services) (config : Config) (identifier n now : ℕ) (outage : Option Fault)
    (variable : Option ℕ) (w : World env) where
  -- A turn takes no submission, or it takes the oldest one.
  pub data TurnEffect : Turn × World env → Type 0 where
    idle :
        (t : Turn) (u : World env)
        → Kept n w.redis u.redis
        → u.db ≡ w.db
        → Limited n (bound t variable)
        → TurnEffect (t, u)
    took :
        (rest : List ℕ) (id : ℕ) (t : Turn) (u : World env)
        → outage ≡ none
        → is_running env config identifier w.redis ≡ true
        → w.redis.jobs ≡ rest ++ id ∷ []
        → (let r =
              (process_submission env config id (taken env config identifier now id rest w)).0 in
            (u.redis.jobs ≡ requeued id r rest) × (u.db ≡ stored id r w.db))
        → Known n u.redis
        → Limited n (bound t variable)
        → TurnEffect (t, u)

  took-TurnEffect :
      (rest : List ℕ) (id : ℕ)
      → outage ≡ none
      → is_running env config identifier w.redis ≡ true
      → w.redis.jobs ≡ rest ++ id ∷ []
      → Limited n variable
      → Known n w.redis
      → TurnEffect (turn env config identifier now none variable w)
  unfolding beat
  took-TurnEffect rest id o running e l h =
      let v : World env = record w {
        redis = record (beat env config identifier now w.redis) { jobs = rest };
      } in
      let both : All (λ j. j < n) (rest ++ id ∷ []) = rw e at h.queued in
      let (x, y, z) = turn-settled env config identifier now id variable rest w running e in
      let same = turn-consume env config identifier now id variable rest w running e in
      let below = All-end (λ j. j < n) rest id both in
      let known : Known n (consume env config identifier id v).1.redis =
        consume-Known env config identifier n id v below
          (record { queued = All-init (λ j. j < n) rest id both; held = h.held }) in
      TurnEffect.took rest id _ _ o running e (x, y)
        (subst (λ (p : Turn × World env). Known n p.1.redis) (sym same) known)
        (λ j q.
          let q' : bound (consume env config identifier id v).0 variable ≡ some j =
            subst (λ (p : Turn × World env). bound p.0 variable ≡ some j) same q in
          elim (bound-consume env config identifier id variable v) [
            | inl k ↦
                let i : some id ≡ some j = sym k ∙ q' in
                let same_id : id ≡ j = cc i in rw same_id at below
            | inr k ↦ l j (sym k ∙ q')
          ])

  outage-TurnEffect :
      (e : Fault)
      → is_running env config identifier w.redis ≡ true
      → Limited n variable
      → TurnEffect (turn env config identifier now (some e) variable w)
  unfolding turn beat
  outage-TurnEffect e running l =
      let v : World env = record w { redis = beat env config identifier now w.redis } in
      let (k, same) = handle-Kept env config identifier n e variable v l in
      rw (running, turn)
        (TurnEffect.idle _ _
          (Kept-trans n w.redis v.redis (handle env config identifier e variable v).1.redis
            (Kept-same n w.redis v.redis refl refl) k)
          same (rw (bound-handle env config identifier e variable v) l))

  abbrev rested : World env
  rested = record w { redis = record (beat env config identifier now w.redis) { jobs = [] } }

  pub turn_empty :
      is_running env config identifier w.redis ≡ true
      → split_last w.redis.jobs ≡ none
      → turn env config identifier now none variable w ≡ (again variable, rested)
  unfolding turn rpop popped
  turn_empty running e = ground (arith, e)

  empty-TurnEffect :
      is_running env config identifier w.redis ≡ true
      → w.redis.jobs ≡ []
      → split_last w.redis.jobs ≡ none
      → Limited n variable
      → TurnEffect (turn env config identifier now none variable w)
  unfolding beat
  empty-TurnEffect running q e l =
      subst TurnEffect (sym (turn_empty running e))
        (TurnEffect.idle (again variable) rested (Kept-same n w.redis rested.redis q refl) refl l)

module _ (env : Services) (config : Config) (identifier n now : ℕ) where
  pub turn-TurnEffect :
      (outage : Option Fault) (variable : Option ℕ) (w : World env)
      → Limited n variable
      → Known n w.redis
      → TurnEffect env config identifier n now outage variable w
          (turn env config identifier now outage variable w)
  turn-TurnEffect outage variable w l h =
      elim (Bool-cases (is_running env config identifier w.redis)) [
        | inr e ↦
            unfold turn in rw e (TurnEffect.idle _ w (Kept-same n w.redis w.redis refl refl) refl l)
        | inl e ↦ taken_up outage e
      ]
    where
      taken_up :
          (outage : Option Fault)
          → is_running env config identifier w.redis ≡ true
          → TurnEffect env config identifier n now outage variable w
              (turn env config identifier now outage variable w)
      taken_up (some x) e = outage-TurnEffect env config identifier n now (some x) variable w x e l
      taken_up none e = elim (split_last-cases w.redis.jobs) [
        | inl (q, f) ↦ empty-TurnEffect env config identifier n now none variable w e q f l
        | inr (rest, id, q, _, _) ↦
            took-TurnEffect env config identifier n now none variable w rest id refl e q l h
      ]

  -- The worker goes on after a turn without an outage.
  pub is_running-turn :
      (variable : Option ℕ) (w : World env)
      → is_running env config identifier w.redis ≡ true
      → is_running env config identifier (turn env config identifier now none variable w).1.redis
        ≡ true
  unfolding is_running beat
  is_running-turn variable w e = elim (split_last-cases w.redis.jobs) [
    | inl (q, f) ↦ rw (turn_empty env config identifier n now none variable w e f) e
    | inr (rest, id, q, _, _) ↦ rw (turn-consume env config identifier now id variable rest w e q) (
        is_running-consume env config identifier id
          (record w { redis = record (beat env config identifier now w.redis) { jobs = rest } })
        ∙ e)
  ]
