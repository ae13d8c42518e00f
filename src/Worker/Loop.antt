-- ===== src/Worker/Loop.antt =====
-- `run` and the loop of `_consume_from_list` (worker.py), and how the orchestrator (run.py) ends them.
use byte_battles.Base.{
  ℕ, ◌≡◌, refl, ap, ◌∙◌, inl, inr, false, Option, none, some, List, [], ◌∷◌, ◌++◌, arith,
  split_last, split_last-append, split_last-cases,
}
use byte_battles.Base.Exec.{Fault}
use byte_battles.Config.{Config}
use byte_battles.Services.{Services}
use byte_battles.Redis.{set_key}
use byte_battles.World.{World}
use byte_battles.Orchestrator.{Orchestrator, stop_worker}
use byte_battles.Worker.{Turn, again, returned, crashed, is_running, turn, finish_run}

-- A turn of the loop: its time, what the pop raises, and what the other processes do before.
pub record Round (env : Services) : Type 0 where
  pub now : ℕ
  pub outage : Option Fault
  pub others : World env → World env

-- A turn before which the orchestrator runs `stop_worker`.
abbrev pub stopping : {env : Services} → Orchestrator → ℕ → Round env
stopping s now = record {
  now = now;
  outage = none;
  others = λ w. record w { redis = (stop_worker (record s { redis = w.redis })).redis };
}

-- The loop goes on behind a turn, or it has ended.
abbrev proceed : {W : Type 0} → Turn → W → (Option ℕ → W → Turn × W) → Turn × W
proceed (again variable) w next = next variable w
proceed returned w next = (returned, w)
proceed (crashed e) w next = (crashed e, w)

module _ (env : Services) (config : Config) (identifier : ℕ) where
  -- As many turns as there are rounds; `again` if the loop goes on behind them.
  unfoldable pub consume_from_list : List (Round env) → Option ℕ → World env → Turn × World env
  consume_from_list [] variable w = (again variable, w)
  consume_from_list (x ∷ rounds) variable w =
      let (ending, w') = turn env config identifier x.now x.outage variable (x.others w) in
      proceed ending w' (consume_from_list rounds)

  abbrev after_loop : Turn → World env → Turn × World env
  after_loop (again variable) u = (again variable, u)
  after_loop returned u = (returned, record u { redis = finish_run env config identifier u.redis })
  after_loop (crashed e) u = (crashed e, u)

  -- `run`: where the loop returned, the keys are deleted behind it.
  unfoldable pub run : List (Round env) → World env → Turn × World env
  run rounds w = let (ending, u) = consume_from_list rounds none w in after_loop ending u

  -- The loop behind other turns, after which it goes on.
  consume_from_list-append :
      (rounds more : List (Round env)) (variable bound : Option ℕ) (w u : World env)
      → consume_from_list rounds variable w ≡ (again bound, u)
      → consume_from_list (rounds ++ more) variable w ≡ consume_from_list more bound u
  unfolding consume_from_list
  consume_from_list-append [] more variable bound w u h =
      let same : variable ≡ bound = cc h in
      let here : w ≡ u = ap (λ (p : Turn × World env). p.1) h in rw (same, here) refl
  consume_from_list-append (x ∷ rounds) more variable bound w u h =
      behind (turn env config identifier x.now x.outage variable (x.others w)).0
        (turn env config identifier x.now x.outage variable (x.others w)).1
        (λ next v q. consume_from_list-append rounds more next bound v u q) h
    where
      behind :
          (ending : Turn) (v : World env)
          → ((next : Option ℕ) (v' : World env)
              → consume_from_list rounds next v' ≡ (again bound, u)
              → consume_from_list (rounds ++ more) next v' ≡ consume_from_list more bound u)
          → proceed ending v (consume_from_list rounds) ≡ (again bound, u)
          → proceed ending v (consume_from_list (rounds ++ more)) ≡ consume_from_list more bound u
      behind (again next) v tail q = tail next v q
      behind returned v tail q = cc q
      behind (crashed e) v tail q = cc q

  consume_from_list-stops :
      (x : Round env) (more : List (Round env)) (bound : Option ℕ) (u : World env)
      → is_running env config identifier (x.others u).redis ≡ false
      → consume_from_list (x ∷ more) bound u ≡ (returned, x.others u)
  unfolding consume_from_list turn
  consume_from_list-stops x more bound u h = rw h refl

  -- The last worker of the list is told to stop.
  is_running-stop_worker :
      (ids : List ℕ) (s : Orchestrator)
      → s.workers ≡ ids ++ identifier ∷ []
      → is_running env config identifier (stop_worker s).redis ≡ false
  unfolding stop_worker is_running set_key
  is_running-stop_worker ids s e =
      let q : split_last s.workers ≡ some (ids, identifier) =
        ap split_last e ∙ split_last-append ids identifier in
      rw (q, stop_worker) (ground arith)

  finish_run-stop_worker :
      (s : Orchestrator)
      → let r = finish_run env config identifier (stop_worker s).redis in
        (r.shutdown identifier ≡ none)
        × (r.heartbeat identifier ≡ none)
        × (r.submission ≡ s.redis.submission)
        × (r.jobs ≡ s.redis.jobs)
  unfolding stop_worker finish_run set_key
  finish_run-stop_worker s = elim (split_last-cases s.workers) [
    | inl (q, e) ↦ rw (e, stop_worker) (ground arith, ground arith, refl, refl)
    | inr (ids, id, q, e, _) ↦ rw (e, stop_worker) (ground arith, ground arith, refl, refl)
  ]

  -- If the loop of a worker is still going on after some turns, whatever the others did before
  -- each of them, and the orchestrator then stops that worker, the last of its list, run returns
  -- at the next turn: it has deleted the worker's shutdown and heartbeat keys, and left the queue,
  -- the submission keys and the tables as they were.
  pub run-stop_worker :
      (rounds more : List (Round env)) (ids : List ℕ) (s : Orchestrator) (now : ℕ)
      (variable : Option ℕ) (w u : World env)
      → s.workers ≡ ids ++ identifier ∷ []
      → consume_from_list rounds none w ≡ (again variable, u)
      → let (ending, v) = run (rounds ++ stopping s now ∷ more) w in
        (ending ≡ returned)
        × (v.redis.shutdown identifier ≡ none)
        × (v.redis.heartbeat identifier ≡ none)
        × (v.redis.submission ≡ u.redis.submission)
        × (v.redis.jobs ≡ u.redis.jobs)
        × (v.db ≡ u.db)
  unfolding run
  run-stop_worker rounds more ids s now variable w u e h =
      let x = stopping s now in
      let stopped = is_running-stop_worker ids (record s { redis = u.redis }) e in
      let ended =
        consume_from_list-append rounds (x ∷ more) none variable w u h
        ∙ consume_from_list-stops x more variable u stopped in
      let (a, b, c, d) = finish_run-stop_worker (record s { redis = u.redis }) in
      rw (ended, run) (refl, a, b, c, d, refl)
