-- ===== src/System/Accounted.antt =====
-- What each event does to the submissions without a verdict: they stay in the queue, or they are
-- given up.
use byte_battles.Base.{
  ℕ, ◌≡◌, refl, sym, ap, ◌∙◌, ◌≢◌, inl, inr, true, false, not, Option, none, some, List, [], ◌∷◌,
  ◌++◌, arith, ◌==◌, ==_iff, Bool-cases, Option-cases, split_last, split_last-append,
  split_last-cases, All,
}
use byte_battles.Base.Exec.{Result, ok, err, Fault, is_exception, is_value_error}
use byte_battles.Enums.{Verdict}
use byte_battles.World.{World}
use byte_battles.Database.{first}
use byte_battles.Database.Queries.{All-select}
use byte_battles.Pipeline.{SubmissionResult, update_result, process_submission}
use byte_battles.Pipeline.Outcome.{stored}
use byte_battles.Worker.{Turn, is_running, set_submission}
use byte_battles.Worker.Retry.{taken, requeued}
use byte_battles.Api.Accounts.{has_id}
use byte_battles.Orchestrator.{Observation, observe, round}
use byte_battles.System.{
  Parts, System, Event, step, submit, upload_problem, remove_problem, sign_up, change_account,
  delete_account, work, get_stuck, watch, refill, world, take_turn, given_up, abandoned,
}
use byte_battles.System.Rows.{occurs, occurs-append, Traced, All-Traced, All-Traced-updated}
use byte_battles.System.Watching.{round-Kept}
use byte_battles.System.Verdicts.{process_submission-Returns}
use byte_battles.System.Requests.{
  create_submission-Queued, create_after_read-Untouched, delete_problem-Reduced,
}
use byte_battles.System.Pending.{occurs-wider, Untouched-Traces, Queued-Traces, Reduced-Traces}
use byte_battles.System.Turns.{TurnEffect, turn-TurnEffect}
use byte_battles.System.Consistent.{IsConsistent}

-- What a turn took and did not judge is put back or given up.
occurs-requeued :
    (i id : ℕ) (e : Fault) (rest lost : List ℕ)
    → occurs i ((rest ++ id ∷ []) ++ lost) ≡ true
    → occurs i (requeued id (err e) rest ++ (given_up id (err e) ++ lost)) ≡ true
occurs-requeued i id e rest lost h =
    let x = occurs-append i (rest ++ id ∷ []) lost in
    let y = occurs-append i rest (id ∷ []) in
    let z = occurs-append i rest lost in
    elim (Bool-cases (is_exception e)) [
      | inr f ↦ rw f (ground (arith, h, x, y, occurs-append i rest (id ∷ lost)))
      | inl f ↦ elim (Bool-cases (is_value_error e)) [
        | inl g ↦ rw (f, g) (ground (arith, h, x, y, occurs-append i rest (id ∷ lost)))
        | inr g ↦ rw (f, g) (ground (arith, h, x, y, z))
      ]
    ]

occurs-judged :
    (i id : ℕ) (rest lost : List ℕ)
    → i ≢ id
    → occurs i ((rest ++ id ∷ []) ++ lost) ≡ true
    → occurs i (rest ++ lost) ≡ true
occurs-judged i id rest lost n h =
    let other : (id == i) ≡ false = elim (Bool-cases (id == i)) [
      | inl e ↦ absurd (n (sym ((==_iff id i).0 e)))
      | inr e ↦ e
    ] in
    ground (
      arith,
      h,
      other,
      occurs-append i (rest ++ id ∷ []) lost,
      occurs-append i rest (id ∷ []),
      occurs-append i rest lost,
    )

module _ (parts : Parts) where
  -- Every submission without a verdict is in the queue or in the list.
  abbrev pub Accounted : List ℕ → System parts → Type 0
  Accounted lost s = All (Traced (s.site.redis.jobs ++ lost)) s.site.db.submissions

  module _ (lost : List ℕ) where
    took-Traced :
        (i now : ℕ) (rest : List ℕ) (id : ℕ) (r : Result SubmissionResult) (s : System parts)
        → ((result : SubmissionResult) → r ≡ ok result → result.verdict ≢ Verdict.pending)
        → s.site.redis.jobs ≡ rest ++ id ∷ []
        → IsConsistent parts s
        → Accounted lost s
        → All
            (Traced (requeued id r rest ++ (given_up id r ++ lost)))
            (stored id r s.site.db).submissions
    unfolding update_result
    took-Traced i now rest id (ok result) s k q c v =
        All-Traced-updated id result ((rest ++ id ∷ []) ++ lost) (rest ++ lost)
          s.site.db.submissions (λ j n h. occurs-judged j id rest lost n h) (k result refl) c.differ
          (rw q at v)
    took-Traced i now rest id (err e) s k q c v =
        All-Traced ((rest ++ id ∷ []) ++ lost)
          (requeued id (err e) rest ++ (given_up id (err e) ++ lost)) s.site.db.submissions
          (λ j h. occurs-requeued j id e rest lost h) (rw q at v)

    abandoned-work :
        (i now : ℕ) (outage : Option Fault) (rest : List ℕ) (id : ℕ) (s : System parts)
        → outage ≡ none
        → is_running parts.services parts.config i s.site.redis ≡ true
        → s.site.redis.jobs ≡ rest ++ id ∷ []
        → abandoned parts (work i now outage) s
          ≡ given_up id
              (process_submission parts.services parts.config id
                (taken parts.services parts.config i now id rest (world parts s))).0
    unfolding abandoned
    abandoned-work i now (some x) rest id s o running q = cc o
    abandoned-work i now none rest id s o running q =
        let e : split_last s.site.redis.jobs ≡ some (rest, id) =
          ap split_last q ∙ split_last-append rest id in
        rw (e, running, abandoned) refl

    work-Accounted :
        (i now : ℕ) (outage : Option Fault) (s : System parts) (p : Turn × World parts.services)
        → IsConsistent parts s
        → TurnEffect parts.services parts.config i s.site.db.next_submission now outage
            (s.variable i)
            (world parts s)
            p
        → Accounted lost s
        → Accounted (abandoned parts (work i now outage) s ++ lost) (take_turn parts i p s)
    unfolding abandoned
    work-Accounted i now outage s p c (TurnEffect.idle t u k same l) v = rw same (
        All-Traced (s.site.redis.jobs ++ lost) _ s.site.db.submissions
          (λ j h.
            occurs-wider j s.site.redis.jobs u.redis.jobs lost
              (abandoned parts (work i now outage) s) (k.occurring j) h)
          v)
    work-Accounted i now outage s p c (TurnEffect.took rest id t u o running q (jobs, db) known l)
          v =
        let w' = taken parts.services parts.config i now id rest (world parts s) in
        let m = process_submission parts.services parts.config id in
        rw (abandoned-work i now outage rest id s o running q, jobs, db)
          (took-Traced i now rest id (m w').0 s
            (λ result e.
              process_submission-Returns parts.services parts.config id w' result (m w').1
                (ap (λ r. (r, (m w').1)) e))
            q c v)

    pub step-Accounted :
        (e : Event parts) (s : System parts)
        → IsConsistent parts s
        → Accounted lost s
        → Accounted (abandoned parts e s ++ lost) (step parts e s)
    unfolding step abandoned set_submission
    step-Accounted (submit details user now) s c v =
        Queued-Traces parts details user now lost _ s.site _
          (create_submission-Queued parts.backend parts.encode parts.decode now details user s.site)
          v
    step-Accounted (upload_problem form now) s c v =
        Untouched-Traces parts lost s.site _
          (create_after_read-Untouched parts.backend parts.archives form now s.site) v
    step-Accounted (remove_problem id) s c v =
        Reduced-Traces parts lost s.site _ (delete_problem-Reduced parts.backend id s.site) v
    step-Accounted (sign_up salt new_user connection now) s c v = v
    step-Accounted (change_account salt updates connection id) s c v =
        elim (Option-cases (first (has_id id) s.site.users.rows)) [
          | inl e ↦ rw (e, step) v
          | inr (me, e) ↦ rw (e, step) v
        ]
    step-Accounted (delete_account id) s c v =
        elim (Option-cases (first (has_id id) s.site.users.rows)) [
          | inl e ↦ rw (e, step) v
          | inr (me, e) ↦
              rw (e, step)
                (All-select (Traced (s.site.redis.jobs ++ lost)) (λ t. not (t.user_id == me.id))
                  s.site.db.submissions v)
        ]
    step-Accounted (work i now outage) s c v =
        work-Accounted i now outage s _ c
          (turn-TurnEffect parts.services parts.config i s.site.db.next_submission now outage
            (s.variable i) (world parts s) (c.limited i) c.known)
          v
    step-Accounted (get_stuck i now) s c v = elim (split_last-cases s.site.redis.jobs) [
      | inl (q, e) ↦ rw (e, step, abandoned) v
      | inr (rest, id, q, e, _) ↦
          let k : All (Traced ((rest ++ id ∷ []) ++ lost)) s.site.db.submissions = rw q at v in
          rw (e, step, abandoned)
            (All-Traced ((rest ++ id ∷ []) ++ lost) (rest ++ (id ∷ lost)) s.site.db.submissions
              (λ j h. ground (
                arith,
                h,
                occurs-append j (rest ++ id ∷ []) lost,
                occurs-append j rest (id ∷ []),
                occurs-append j rest (id ∷ lost),
              ))
              k)
    ]
    step-Accounted (watch now alive) s c v =
        let o : Observation = record { now = now; redis = s.site.redis; survives = alive } in
        let k = round-Kept s.site.db.next_submission parts.config o s.orchestrator c.known in
        All-Traced (s.site.redis.jobs ++ lost) _ s.site.db.submissions
          (λ j h.
            occurs-wider j s.site.redis.jobs
              (round parts.config now (observe o s.orchestrator)).redis.jobs lost [] (k.occurring j)
              h)
          v
    step-Accounted (refill warm) s c v = v
