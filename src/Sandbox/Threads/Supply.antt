-- ===== src/Sandbox/Threads/Supply.antt =====
-- What the counts of `Pool` mean for the warm pool of judge/sandbox_manager/main.py.
use byte_battles.Base.{
  ℕ, zero, suc, ◌+◌, ◌≤◌, ◌<◌, ◌≡◌, refl, false, some, List, [], ◌∷◌, arith, length, replicate,
}
use byte_battles.Base.Text.{Text}
use byte_battles.Enums.{Language, language_eq, language_eq_refl}
use byte_battles.Sandbox.Threads.{
  Manager, MainPhase, Creator, Action, get_elem?, reserve, run_schedule,
}
use byte_battles.Sandbox.Threads.Pool.{
  IsSound, tally, holds, unpushed, queued, to_put, supply, run_schedule-IsSound,
}

-- The manager as `__init__` leaves it, with the creators at the start of their loops and what an
-- earlier run may have left in the pools.
abbrev pub initial : ℕ → (Language → List Text) → ℕ → Manager
initial threshold warm workers = record {
  pool_threshold = threshold;
  warm = warm;
  pending = λ _. 0;
  task_queue = [];
  stop_event = false;
  main = MainPhase.idle;
  creators = replicate workers Creator.ready;
}

tally-replicate :
    (f : Creator → ℕ) (n : ℕ) → f Creator.ready ≡ 0 → tally f (replicate n Creator.ready) ≡ 0
tally-replicate f zero e = omega arith
tally-replicate f (suc n) e = omega (arith, tally-replicate f n e)

pub initial-IsSound :
    (l : Language) (threshold : ℕ) (warm : Language → List Text) (workers : ℕ)
    → length (warm l) ≤ threshold
    → IsSound l threshold (initial threshold warm workers)
initial-IsSound l threshold warm workers h = record {
  counted = omega (arith, tally-replicate (holds l) workers refl);
  limit = refl;
  bounded = omega (arith, tally-replicate (unpushed l) workers refl);
  measured = tt;
}

after :
    (l : Language) (threshold : ℕ) (warm : Language → List Text) (workers : ℕ)
    (actions : List Action)
    → length (warm l) ≤ threshold
    → IsSound l threshold (run_schedule actions (initial threshold warm workers))
after l threshold warm workers actions h =
    run_schedule-IsSound l threshold actions (initial threshold warm workers)
      (initial-IsSound l threshold warm workers h)

-- From at most threshold warm sandboxes of a language, under any schedule of the threads, leases
-- and failed creations, the warm sandboxes together with those that are still to be made never
-- exceed the threshold.
supply-run_schedule :
    (l : Language) (threshold : ℕ) (warm : Language → List Text) (workers : ℕ)
    (actions : List Action)
    → length (warm l) ≤ threshold
    → supply l (run_schedule actions (initial threshold warm workers)) ≤ threshold
supply-run_schedule l threshold warm workers actions h =
    (after l threshold warm workers actions h).bounded

tally-pos :
    (l : Language) (cs : List Creator) (i : ℕ)
    → get_elem? cs i ≡ some (Creator.created l)
    → 0 < tally (holds l) cs
unfolding get_elem?
tally-pos l [] i e = cc
tally-pos l (c ∷ cs) zero e = ground (arith, language_eq_refl l)
tally-pos l (c ∷ cs) (suc i) e = omega (arith, tally-pos l cs i e)

-- From at most threshold warm sandboxes of the language, under any schedule, pending is the number
-- of tasks of the language in the queue, with a creator, or still to be put by maintain_pool, so a
-- failed creation loses no task.
pub pending-run_schedule :
    (l : Language) (threshold : ℕ) (warm : Language → List Text) (workers : ℕ)
    (actions : List Action)
    → length (warm l) ≤ threshold
    → let s = run_schedule actions (initial threshold warm workers) in
      s.pending l ≡ queued l s.task_queue + tally (holds l) s.creators + to_put l s.main
pending-run_schedule l threshold warm workers actions h =
    (after l threshold warm workers actions h).counted

-- Under any schedule, a creator that has pushed its sandbox and is about to decrement pending
-- finds it positive.
pending-pos :
    (l : Language) (threshold : ℕ) (warm : Language → List Text) (workers : ℕ)
    (actions : List Action) (i : ℕ)
    → length (warm l) ≤ threshold
    → let s = run_schedule actions (initial threshold warm workers) in
      get_elem? s.creators i ≡ some (Creator.created l) → 0 < s.pending l
pending-pos l threshold warm workers actions i h e =
    let s = run_schedule actions (initial threshold warm workers) in
    let v = after l threshold warm workers actions h in
    omega (arith, v.counted, tally-pos l s.creators i e)

-- After maintain_pool has reserved, its count and the pending tasks of the language reach the
-- threshold, pending has grown by the number of tasks it is to put, and no other language is
-- touched.
reserve-reaches :
    (l m : Language) (n : ℕ) (s : Manager)
    → let t = reserve l n s in
      (s.pool_threshold ≤ n + t.pending l)
      × (t.pending l ≡ s.pending l + to_put l t.main)
      × (language_eq m l ≡ false → t.pending m ≡ s.pending m)
unfolding reserve
reserve-reaches l m n s = ground (arith, language_eq_refl l)
