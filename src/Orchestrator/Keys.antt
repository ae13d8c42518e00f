-- ===== src/Orchestrator/Keys.antt =====
-- Which keys of Redis a turn of the loop of run.py leaves alone: those of a worker that it keeps.
use byte_battles.Base.{
  ℕ, zero, suc, ◌-◌, ◌≤◌, ◌<◌, ◌≡◌, refl, sym, ◌∙◌, ◌≢◌, inl, inr, true, false, List, [], ◌∷◌,
  arith, ltb, ◌==◌, ==_iff, Bool-cases, length, split_last-cases,
}
use byte_battles.Config.{Config}
use byte_battles.Redis.{Redis, set_key, push_job}
use byte_battles.Orchestrator.{
  Orchestrator, Health, spawn_worker, stop_worker, repeat, desired, scale, health, check_worker,
  keep, check_workers, check_heartbeat, round,
}
use byte_battles.Orchestrator.Identifiers.{
  Rising, contains, contains-append, id-check_workers, IsTracked,
}

-- The heartbeat and the submission of a worker are the same.
abbrev pub KeysOf : ℕ → Redis → Redis → Type 0
KeysOf i r t = (t.submission i ≡ r.submission i) × (t.heartbeat i ≡ r.heartbeat i)

pub KeysOf-trans : (i : ℕ) (r s t : Redis) → KeysOf i r s → KeysOf i s t → KeysOf i r t
KeysOf-trans i r s t h k = (k.0 ∙ h.0, k.1 ∙ h.1)

pub Rising-below :
    (lo hi : ℕ) (ids : List ℕ) (i : ℕ)
    → Rising lo ids hi
    → contains ids i ≡ true
    → (lo ≤ i) × (i < hi)
Rising-below lo hi [] i r c = cc c
Rising-below lo hi (x ∷ xs) i r c = elim (Bool-cases (i == x)) [
  | inl e ↦
      let top = Rising-top (suc x) xs hi r.1 in
      let same = (==_iff i x).0 e in (omega (arith, same, r.0), omega (arith, same, top))
  | inr e ↦
      let (a, b) = Rising-below (suc x) hi xs i r.1 (ground (arith, e, c)) in
      (omega (arith, a, r.0), b)
]
  where
    Rising-top : (lo : ℕ) (xs : List ℕ) (hi : ℕ) → Rising lo xs hi → lo ≤ hi
    Rising-top lo [] hi r = r
    Rising-top lo (x ∷ xs) hi r = let k = Rising-top (suc x) xs hi r.1 in omega (arith, k, r.0)

module _ (i : ℕ) where
  stop_worker-same :
      (s : Orchestrator)
      → KeysOf i s.redis (stop_worker s).redis
        × (contains (stop_worker s).workers i ≡ true → contains s.workers i ≡ true)
  unfolding stop_worker
  stop_worker-same s = elim (split_last-cases s.workers) [
    | inl (q, e) ↦ rw (e, stop_worker) ((refl, refl), λ c. c)
    | inr (rest, id, q, e, _) ↦
        rw (e, stop_worker) ((refl, refl), λ c. rw q (ground (arith, c, contains-append rest id i)))
  ]

  stop_workers-same :
      (n : ℕ) (s : Orchestrator)
      → let t = repeat n stop_worker s in
        KeysOf i s.redis t.redis × (contains t.workers i ≡ true → contains s.workers i ≡ true)
  unfolding repeat
  stop_workers-same zero s = ((refl, refl), λ c. c)
  stop_workers-same (suc n) s =
      let (k, c) = stop_worker-same s in
      let (k', c') = stop_workers-same n (stop_worker s) in
      (
        KeysOf-trans i s.redis (stop_worker s).redis (repeat n stop_worker (stop_worker s)).redis k
            k',
        λ q. c (c' q),
      )

  module _ (now : ℕ) where
    spawn_worker-same :
        (s : Orchestrator)
        → i < s.global_worker_id
        → KeysOf i s.redis (spawn_worker now s).redis
          × (contains (spawn_worker now s).workers i ≡ contains s.workers i)
          × (i < (spawn_worker now s).global_worker_id)
    unfolding spawn_worker set_key
    spawn_worker-same s l = ground (arith, l, contains-append s.workers s.global_worker_id i)

    spawn_workers-same :
        (n : ℕ) (s : Orchestrator)
        → i < s.global_worker_id
        → let t = repeat n (spawn_worker now) s in
          KeysOf i s.redis t.redis × (contains t.workers i ≡ contains s.workers i)
    unfolding repeat
    spawn_workers-same zero s l = ((refl, refl), refl)
    spawn_workers-same (suc n) s l =
        let (k, c, l') = spawn_worker-same s l in
        let (k', c') = spawn_workers-same n (spawn_worker now s) l' in
        (
          KeysOf-trans i s.redis (spawn_worker now s).redis
              (repeat n (spawn_worker now) (spawn_worker now s)).redis k k',
          c' ∙ c,
        )

    scale-same :
        (s : Orchestrator)
        → i < s.global_worker_id
        → KeysOf i s.redis (scale now s).redis
          × (contains (scale now s).workers i ≡ true → contains s.workers i ≡ true)
    unfolding scale
    scale-same s l =
        let more = spawn_workers-same (desired s - length s.workers) s l in
        let fewer = stop_workers-same (length s.workers - desired s) s in
        elim (Bool-cases (ltb (length s.workers) (desired s))) [
          | inl a ↦ rw (a, scale) (more.0, λ c. sym more.1 ∙ c)
          | inr a ↦ elim (Bool-cases (ltb (desired s) (length s.workers))) [
            | inl b ↦ rw (a, b, scale) fewer
            | inr b ↦ rw (a, b, scale) ((refl, refl), λ c. c)
          ]
        ]

module _ (config : Config) (now i : ℕ) where
  check_worker-KeysOf :
      (h : Health) (id : ℕ) (s : Orchestrator)
      → i ≢ id
      → KeysOf i s.redis (check_worker h id s).redis
  unfolding check_worker set_key push_job
  check_worker-KeysOf h id s n = ground (arith, n)

  contains-kept :
      (ids : List ℕ) (s : Orchestrator)
      → contains (check_workers config now ids s).0 i ≡ true
      → contains ids i ≡ true
  unfolding check_workers
  contains-kept [] s c = c
  contains-kept (id ∷ ids) s c =
      let h = health config now s.alive s.redis id in
      ground (arith, c, contains-kept ids (check_worker h id s))

  check_workers-KeysOf :
      (ids : List ℕ) (s : Orchestrator)
      → contains ids i ≡ false
      → KeysOf i s.redis (check_workers config now ids s).1.redis
  unfolding check_workers
  check_workers-KeysOf [] s c = (refl, refl)
  check_workers-KeysOf (id ∷ ids) s c =
      let h = health config now s.alive s.redis id in
      let t = check_worker h id s in
      KeysOf-trans i s.redis t.redis (check_workers config now ids t).1.redis
        (check_worker-KeysOf h id s (ground (arith, c)))
        (check_workers-KeysOf ids t (ground (arith, c)))

  -- A worker that is in the list afterwards was found healthy.
  kept-KeysOf :
      (lo hi : ℕ) (ids : List ℕ) (s : Orchestrator)
      → Rising lo ids hi
      → contains (check_workers config now ids s).0 i ≡ true
      → KeysOf i s.redis (check_workers config now ids s).1.redis
  unfolding check_workers check_worker
  kept-KeysOf lo hi [] s r c = (refl, refl)
  kept-KeysOf lo hi (id ∷ ids) s r c =
      let h = health config now s.alive s.redis id in
      let t = check_worker h id s in
      elim (Bool-cases (i == id)) [
        | inl e ↦
            let same = (==_iff i id).0 e in
            let absent : contains ids i ≡ false = elim (Bool-cases (contains ids i)) [
              | inr q ↦ q
              | inl q ↦
                  let k = (Rising-below (suc id) hi ids i r.1 q).0 in
                  absurd (omega (arith, k, same))
            ] in
            let healthy =
              first_kept h id (check_workers config now ids t).0
                (λ q. let k = contains-kept ids t q in cc (k, absent)) c in
            KeysOf-trans i s.redis t.redis (check_workers config now ids t).1.redis
              (rw healthy (refl, refl)) (check_workers-KeysOf ids t absent)
        | inr e ↦
            KeysOf-trans i s.redis t.redis (check_workers config now ids t).1.redis
              (check_worker-KeysOf h id s (ground (arith, e)))
              (kept-KeysOf (suc id) hi ids t r.1 (ground (arith, e, c)))
      ]
    where
      first_kept :
          (h : Health) (id : ℕ) (rest : List ℕ)
          → ¬ (contains rest i ≡ true)
          → contains (keep h id rest) i ≡ true
          → h ≡ Health.healthy
      first_kept Health.healthy id rest n q = refl
      first_kept Health.stopped id rest n q = absurd (n q)
      first_kept Health.frozen id rest n q = absurd (n q)

  -- A turn of the loop that keeps a worker leaves its keys alone.
  pub round-KeysOf :
      (s : Orchestrator)
      → IsTracked s
      → i < s.global_worker_id
      → contains (round config now s).workers i ≡ true
      → KeysOf i s.redis (round config now s).redis
  unfolding round check_heartbeat
  round-KeysOf s v l c =
      let t = check_heartbeat config now s in
      let (k, back) = scale-same i now t (rw (id-check_workers config now s.workers s) l) in
      KeysOf-trans i s.redis t.redis (scale now t).redis
        (kept-KeysOf 0 s.global_worker_id s.workers s v.serial (back c)) k
