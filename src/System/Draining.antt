-- ===== src/System/Draining.antt =====
-- The queue drains: a worker (judge/judge_worker/worker.py) that takes enough turns, none of which puts
-- its submission back, empties the queue, so that every submission has a verdict or was given up.
use byte_battles.Base.{
  ℕ, ◌-◌, ◌≤◌, ◌≡◌, refl, ◌∙◌, ◌⊎◌, inl, inr, true, none, some, List, [], ◌∷◌, ◌++◌, arith, length,
  split_last, length-append, split_last-cases, All, All-map,
}
use byte_battles.Base.Exec.{Result, ok, err, is_value_error}
use byte_battles.Enums.{Verdict}
use byte_battles.Pipeline.{SubmissionResult, process_submission}
use byte_battles.Worker.{is_running}
use byte_battles.Worker.Retry.{taken, requeued, turn-settled}
use byte_battles.System.{Parts, System, Event, step, run, work, world, all_abandoned}
use byte_battles.System.Rows.{occurs}
use byte_battles.System.Turns.{turn_empty, is_running-turn}
use byte_battles.System.Queue.{IsNew, run-loses_none}

-- The processing returned a result, or it ended by the ValueError of a submission that is unknown or
-- not pending.
abbrev IsSettled : Result SubmissionResult → Type 0
IsSettled (ok result) = Unit
IsSettled (err e) = is_value_error e ≡ true

requeued-settled :
    (id : ℕ) (r : Result SubmissionResult) (rest : List ℕ) → IsSettled r → requeued id r rest ≡ rest
requeued-settled id (ok result) rest h = refl
requeued-settled id (err e) rest h = ground (arith, h)

no_jobs_left : (xs : List ℕ) → length xs ≤ 0 → xs ≡ []
no_jobs_left [] h = refl
no_jobs_left (x ∷ xs) h = absurd (omega (arith, h))

module _ (parts : Parts) where
  -- The turns of one worker at these times, with nothing in between.
  abbrev pub turns : ℕ → List ℕ → List (Event parts)
  turns i [] = []
  turns i (now ∷ times) = work i now none ∷ turns i times

  -- What the next turn of the worker takes, it settles.
  abbrev TakesAndSettles : (i now : ℕ) → System parts → Type 0
  TakesAndSettles i now s = elim (split_last s.site.redis.jobs) [
    | none ↦ Unit
    | some (rest, id) ↦
        IsSettled
          (process_submission parts.services parts.config id
            (taken parts.services parts.config i now id rest (world parts s))).0
  ]

  abbrev pub Settles : ℕ → List ℕ → System parts → Type 0
  Settles i [] s = Unit
  Settles i (now ∷ times) s =
      TakesAndSettles i now s × Settles i times (step parts (work i now none) s)

  abbrev jobs : System parts → List ℕ
  jobs s = s.site.redis.jobs

  abbrev Running : ℕ → System parts → Type 0
  Running i s = is_running parts.services parts.config i s.site.redis ≡ true

  Running-work :
      (i now : ℕ) (s : System parts) → Running i s → Running i (step parts (work i now none) s)
  unfolding step
  Running-work i now s h =
      is_running-turn parts.services parts.config i 0 now (s.variable i) (world parts s) h

  length-work :
      (i now : ℕ) (s : System parts)
      → Running i s
      → TakesAndSettles i now s
      → length (jobs (step parts (work i now none) s)) ≡ length (jobs s) - 1
  unfolding step
  length-work i now s h k = elim (split_last-cases (jobs s)) [
    | inl (q, e) ↦
        rw
          (
            turn_empty parts.services parts.config i 0 now none (s.variable i) (world parts s) h e,
            q,
          )
          refl
    | inr (rest, id, q, e, _) ↦
        let r =
          process_submission parts.services parts.config id
            (taken parts.services parts.config i now id rest (world parts s)) in
        let settled : IsSettled r.0 = rw (e, TakesAndSettles) at k in
        let same =
          (turn-settled parts.services parts.config i now id (s.variable i) rest (world parts s) h
            q).0
          ∙ requeued-settled id r.0 rest settled in
        let n = length-append rest (id ∷ []) in rw (same, q) (omega (arith, n))
  ]

  turns-drain :
      (i : ℕ) (times : List ℕ) (s : System parts)
      → Running i s
      → length (jobs s) ≤ length times
      → Settles i times s
      → jobs (run parts (turns i times) s) ≡ []
  unfolding run
  turns-drain i [] s h l k = no_jobs_left (jobs s) l
  turns-drain i (now ∷ times) s h l (k, rest) =
      let n = length-work i now s h k in
      turns-drain i times (step parts (work i now none) s) (Running-work i now s h)
        (omega (arith, n, l)) rest

  pub run-append :
      (xs ys : List (Event parts)) (s : System parts)
      → run parts (xs ++ ys) s ≡ run parts ys (run parts xs s)
  unfolding run
  run-append [] ys s = refl
  run-append (x ∷ xs) ys s = run-append xs ys (step parts x s)

  -- From no users, no submissions, an empty queue, no submission keys and workers that have taken
  -- nothing yet, whatever requests, turns of workers and of the orchestrator, stuck workers and
  -- refills follow one another, if then one worker that is not told to stop takes at least as many
  -- turns as the queue is long, with nothing in between and without an outage, and each of them
  -- returns a result or ends by a ValueError, every submission that is still pending afterwards is
  -- among those that its request stored and did not push because the connection failed behind the
  -- commit, that a turn gave up (a ValueError, or what is no Exception), or that a stuck worker
  -- took.
  pub run-judges_all :
      (events : List (Event parts)) (i : ℕ) (times : List ℕ) (s : System parts)
      → IsNew parts s
      → (let u = run parts events s in is_running parts.services parts.config i u.site.redis ≡ true)
      → length (run parts events s).site.redis.jobs ≤ length times
      → Settles i times (run parts events s)
      → let history = events ++ turns i times in
        All
          (λ t. t.verdict ≡ Verdict.pending → occurs t.id (all_abandoned parts history s) ≡ true)
          (run parts history s).site.db.submissions
  run-judges_all events i times s new h l k =
      let history = events ++ turns i times in
      let t = run parts history s in
      let e : jobs t ≡ [] =
        rw (run-append events (turns i times) s) (turns-drain i times (run parts events s) h l k) in
      All-map
        {P = λ r.
          r.verdict ≡ Verdict.pending
          → (occurs r.id (jobs t) ≡ true) ⊎ (occurs r.id (all_abandoned parts history s) ≡ true)}
        (λ r v p. elim (v p) [ inl q ↦ let q' = rw e at q in cc q' | inr q ↦ q ])
        t.site.db.submissions (run-loses_none parts history s new)
