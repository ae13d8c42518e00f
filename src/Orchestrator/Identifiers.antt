-- ===== src/Orchestrator/Identifiers.antt =====
-- The identifiers and processes of the workers of run.py: no identifier is given twice, and no process
-- is left behind.
use byte_battles.Base.{
  ℕ, zero, suc, ◌+◌, ◌-◌, ◌≤◌, ◌≡◌, refl, ap, subst, inl, inr, Bool, true, false, not, ◌&&◌, ◌||◌,
  none, List, [], ◌∷◌, ◌++◌, arith, ltb, ◌==◌, Bool-cases, length, split_last-cases,
}
use byte_battles.Config.{Config}
use byte_battles.Redis.{Redis}
use byte_battles.Orchestrator.{
  Orchestrator, Observation, Health, init, start_sandbox_manager, set_alive, spawn_worker,
  stop_worker, repeat, desired, scale, health, check_worker, keep, check_workers, check_heartbeat,
  round, observe, run_rounds, join_all, shutdown, run,
}

-- The identifiers rise along the list, from `lo` on and below `hi`.
abbrev pub Rising : ℕ → List ℕ → ℕ → Type 0
Rising lo [] hi = lo ≤ hi
Rising lo (x ∷ xs) hi = (lo ≤ x) × Rising (suc x) xs hi

abbrev pub contains : List ℕ → ℕ → Bool
contains [] i = false
contains (x ∷ xs) i = i == x || contains xs i

Rising-mono : (lo lo' : ℕ) (xs : List ℕ) (hi : ℕ) → lo' ≤ lo → Rising lo xs hi → Rising lo' xs hi
Rising-mono lo lo' [] hi h r = omega arith
Rising-mono lo lo' (x ∷ xs) hi h r = (omega arith, r.1)

Rising-append :
    (lo : ℕ) (xs : List ℕ) (hi : ℕ) → Rising lo xs hi → Rising lo (xs ++ hi ∷ []) (hi + 1)
Rising-append lo [] hi r = omega arith
Rising-append lo (x ∷ xs) hi r = (r.0, Rising-append (suc x) xs hi r.1)

Rising-init : (lo : ℕ) (xs : List ℕ) (y hi : ℕ) → Rising lo (xs ++ y ∷ []) hi → Rising lo xs hi
Rising-init lo [] y hi r = omega arith
Rising-init lo (x ∷ xs) y hi r = (r.0, Rising-init (suc x) xs y hi r.1)

pub contains-append :
    (xs : List ℕ) (y i : ℕ) → contains (xs ++ y ∷ []) i ≡ (contains xs i || i == y)
contains-append [] y i = ground arith
contains-append (x ∷ xs) y i = ground (arith, contains-append xs y i)

-- The identifiers in the list are distinct and were given out, and whatever process is alive is in it.
pub record IsTracked (s : Orchestrator) : Type 0 where
  pub serial : Rising 0 s.workers s.global_worker_id
  pub tracked : (i : ℕ) → s.alive i ≡ true → contains s.workers i ≡ true

spawn_worker-IsTracked : (now : ℕ) (s : Orchestrator) → IsTracked s → IsTracked (spawn_worker now s)
unfolding spawn_worker
spawn_worker-IsTracked now s v = record {
  serial = Rising-append 0 s.workers s.global_worker_id v.serial;
  tracked = λ i h. ground (arith, contains-append s.workers s.global_worker_id i, v.tracked i);
}

stop_worker-IsTracked : (s : Orchestrator) → IsTracked s → IsTracked (stop_worker s)
unfolding stop_worker
stop_worker-IsTracked s v = elim (split_last-cases s.workers) [
  | inl (e, q) ↦ rw (q, stop_worker) v
  | inr (ys, y, e, q, _) ↦
      rw (q, stop_worker)
        (record {
          serial =
              Rising-init 0 ys y s.global_worker_id
                (subst (λ l. Rising 0 l s.global_worker_id) e v.serial);
          tracked = λ i h.
              ground
                (arith, v.tracked i, contains-append ys y i, ap (λ (l : List ℕ). contains l i) e);
        })
]

repeat-IsTracked :
    (n : ℕ) (body : Orchestrator → Orchestrator) (s : Orchestrator)
    → ((t : Orchestrator) → IsTracked t → IsTracked (body t))
    → IsTracked s
    → IsTracked (repeat n body s)
unfolding repeat
repeat-IsTracked zero body s keeps v = v
repeat-IsTracked (suc n) body s keeps v = repeat-IsTracked n body (body s) keeps (keeps s v)

pub scale-IsTracked : (now : ℕ) (s : Orchestrator) → IsTracked s → IsTracked (scale now s)
unfolding scale
scale-IsTracked now s v =
    let more =
      repeat-IsTracked (desired s - length s.workers) (spawn_worker now) s
        (spawn_worker-IsTracked now) v in
    let fewer =
      repeat-IsTracked (length s.workers - desired s) stop_worker s stop_worker-IsTracked v in
    elim (Bool-cases (ltb (length s.workers) (desired s))) [
      | inl a ↦ rw (a, scale) more
      | inr a ↦ elim (Bool-cases (ltb (desired s) (length s.workers))) [
        | inl b ↦ rw (a, scale) (rw b fewer)
        | inr b ↦ rw (a, scale) (rw b v)
      ]
    ]

module _ (config : Config) (now : ℕ) where
  alive-check_workers :
      (ids : List ℕ) (s : Orchestrator) (i : ℕ)
      → (check_workers config now ids s).1.alive i ≡ true
      → s.alive i ≡ true
  unfolding check_workers check_worker
  alive-check_workers [] s i h = h
  alive-check_workers (id ∷ ids) s i h = ground (
    arith,
    alive-check_workers ids (check_worker (health config now s.alive s.redis id) id s) i h,
  )

  contains-check_workers :
      (ids : List ℕ) (s : Orchestrator) (i : ℕ)
      → contains ids i ≡ true
      → (check_workers config now ids s).1.alive i ≡ true
      → contains (check_workers config now ids s).0 i ≡ true
  unfolding check_workers check_worker
  contains-check_workers [] s i c h = cc c
  contains-check_workers (id ∷ ids) s i c h =
      let t = check_worker (health config now s.alive s.redis id) id s in
      ground (arith, alive-check_workers ids t i, contains-check_workers ids t i)

  Rising-keep :
      (h : Health) (lo id hi : ℕ) (rest : List ℕ)
      → lo ≤ id
      → Rising (suc id) rest hi
      → Rising lo (keep h id rest) hi
  Rising-keep Health.healthy lo id hi rest e r = (e, r)
  Rising-keep Health.stopped lo id hi rest e r = Rising-mono (suc id) lo rest hi (omega arith) r
  Rising-keep Health.frozen lo id hi rest e r = Rising-mono (suc id) lo rest hi (omega arith) r

  Rising-check_workers :
      (lo hi : ℕ) (ids : List ℕ) (s : Orchestrator)
      → Rising lo ids hi
      → Rising lo (check_workers config now ids s).0 hi
  unfolding check_workers
  Rising-check_workers lo hi [] s r = r
  Rising-check_workers lo hi (id ∷ ids) s r =
      let h = health config now s.alive s.redis id in
      Rising-keep h lo id hi _ r.0 (Rising-check_workers (suc id) hi ids (check_worker h id s) r.1)

  pub id-check_workers :
      (ids : List ℕ) (s : Orchestrator)
      → (check_workers config now ids s).1.global_worker_id ≡ s.global_worker_id
  unfolding check_workers check_worker
  id-check_workers [] s = refl
  id-check_workers (id ∷ ids) s =
      ground
        (arith, id-check_workers ids (check_worker (health config now s.alive s.redis id) id s))

  pub check_heartbeat-IsTracked :
      (s : Orchestrator) → IsTracked s → IsTracked (check_heartbeat config now s)
  unfolding check_heartbeat
  check_heartbeat-IsTracked s v = record {
    serial = rw id-check_workers (Rising-check_workers 0 s.global_worker_id s.workers s v.serial);
    tracked = λ i h.
        contains-check_workers s.workers s i (v.tracked i (alive-check_workers s.workers s i h)) h;
  }

pub observe-IsTracked : (o : Observation) (s : Orchestrator) → IsTracked s → IsTracked (observe o s)
unfolding observe
observe-IsTracked o s v = record { serial = v.serial; tracked = λ i h. v.tracked i (ground arith) }

run_rounds-IsTracked :
    (config : Config) (os : List Observation) (s : Orchestrator)
    → IsTracked s
    → IsTracked (run_rounds config os s)
unfolding run_rounds round
run_rounds-IsTracked config [] s v = v
run_rounds-IsTracked config (o ∷ os) s v = run_rounds-IsTracked config os _ (
    scale-IsTracked o.now _
      (check_heartbeat-IsTracked config o.now (observe o s) (observe-IsTracked o s v)))

alive-join_all :
    (ids : List ℕ) (alive : ℕ → Bool) (i : ℕ)
    → join_all ids alive i ≡ (alive i && not (contains ids i))
unfolding join_all set_alive
alive-join_all [] alive i = ground arith
alive-join_all (x ∷ xs) alive i = ground (arith, alive-join_all xs (set_alive alive x false) i)

start :
    (config : Config) (redis : Redis)
    → IsTracked (start_sandbox_manager (init config (λ _. false) redis))
unfolding init start_sandbox_manager
start config redis = record { serial = omega arith; tracked = λ i h. cc h }

-- From the start with no process alive, whatever the workers and Redis do between the turns of
-- run, the identifiers in the list are distinct and below the next one, and every live worker
-- process is in the list.
pub run_rounds-init-IsTracked :
    (config : Config) (os : List Observation) (redis : Redis)
    → IsTracked (run_rounds config os (start_sandbox_manager (init config (λ _. false) redis)))
run_rounds-init-IsTracked config os redis = run_rounds-IsTracked config os _ (start config redis)

-- Started with no process alive, after run no worker process and no sandbox manager is alive, and
-- the shutdown key is deleted.
pub run-leaves_nothing :
    (config : Config) (os : List Observation) (redis : Redis) (i : ℕ)
    → let s = run config os (init config (λ _. false) redis) in
      (s.alive i ≡ false) × (s.manager_alive ≡ false) × (s.redis.shutdown_all ≡ none)
unfolding run shutdown
run-leaves_nothing config os redis i =
    let t = run_rounds config os (start_sandbox_manager (init config (λ _. false) redis)) in
    let v = run_rounds-init-IsTracked config os redis in
    (ground (arith, alive-join_all t.workers t.alive i, v.tracked i), refl, refl)
