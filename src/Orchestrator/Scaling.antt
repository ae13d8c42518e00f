-- ===== src/Orchestrator/Scaling.antt =====
-- How many workers `scale` of run.py leaves.
use byte_battles.Base.{
  ℕ, zero, suc, ◌+◌, ◌-◌, ◌/◌, min, max, ◌≡◌, [], ◌∷◌, arith, length, length-append,
  split_last-cases,
}
use byte_battles.Orchestrator.{Orchestrator, spawn_worker, stop_worker, repeat, desired, scale}

length-spawn_worker :
    (now : ℕ) (s : Orchestrator) → length (spawn_worker now s).workers ≡ suc (length s.workers)
unfolding spawn_worker
length-spawn_worker now s = omega (arith, length-append s.workers (s.global_worker_id ∷ []))

length-stop_worker : (s : Orchestrator) → length (stop_worker s).workers ≡ length s.workers - 1
unfolding stop_worker
length-stop_worker s = ground (arith, split_last-cases s.workers)

length-repeat-spawn_worker :
    (n now : ℕ) (s : Orchestrator)
    → length (repeat n (spawn_worker now) s).workers ≡ length s.workers + n
unfolding repeat
length-repeat-spawn_worker zero now s = omega arith
length-repeat-spawn_worker (suc n) now s =
    omega (arith, length-repeat-spawn_worker n now (spawn_worker now s), length-spawn_worker now s)

length-repeat-stop_worker :
    (n : ℕ) (s : Orchestrator) → length (repeat n stop_worker s).workers ≡ length s.workers - n
unfolding repeat
length-repeat-stop_worker zero s = omega arith
length-repeat-stop_worker (suc n) s =
    omega (arith, length-repeat-stop_worker n (stop_worker s), length-stop_worker s)

-- However many workers there were, scale leaves the queue length divided by five plus one, raised
-- to the minimum and then cut to the maximum.
pub length-scale :
    (now : ℕ) (s : Orchestrator)
    → length (scale now s).workers
      ≡ min s.max_workers (max s.min_workers (length s.redis.jobs / 5 + 1))
unfolding scale desired
length-scale now s =
    let current = length s.workers in
    let d = min s.max_workers (max s.min_workers (length s.redis.jobs / 5 + 1)) in
    ground (
      arith,
      length-repeat-spawn_worker (d - current) now s,
      length-repeat-stop_worker (current - d) s,
    )
