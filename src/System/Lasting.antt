-- ===== src/System/Lasting.antt =====
-- What lasts of a submission in a history of the system: what was submitted, and that it was judged.
use byte_battles.Base.{
  ℕ, ◌≤◌, ◌<◌, ◌≡◌, refl, sym, ap, ◌∙◌, subst, ◌≢◌, inl, inr, Bool, not, Option, List, [], ◌∷◌,
  ◌++◌, arith, ◌==◌, Bool-cases, Option-cases, split_last-cases, All, Any, All-map, All-last,
  Any-map,
}
use byte_battles.Base.Exec.{Result, ok, err, Fault}
use byte_battles.Enums.{Verdict}
use byte_battles.Database.{Submission, Db, first, select, update_first}
use byte_battles.Database.Queries.{All-select}
use byte_battles.Pipeline.{SubmissionResult, process_submission, update_result}
use byte_battles.Pipeline.Outcome.{stored}
use byte_battles.World.{World}
use byte_battles.Worker.{Turn}
use byte_battles.Worker.Retry.{taken}
use byte_battles.Api.Accounts.{has_id}
use byte_battles.Api.Site.{Site}
use byte_battles.Api.Submissions.Create.{add_submission}
use byte_battles.System.{
  Parts, System, Event, step, run, submit, upload_problem, remove_problem, sign_up, change_account,
  delete_account, work, get_stuck, watch, refill, world, take_turn,
}
use byte_battles.System.Verdicts.{process_submission-Returns}
use byte_battles.System.Requests.{
  Untouched, Queued, Reduced, create_submission-Queued, create_after_read-Untouched,
  delete_problem-Reduced,
}
use byte_battles.System.Turns.{TurnEffect, turn-TurnEffect}
use byte_battles.System.Consistent.{IsConsistent}
use byte_battles.System.Steps.{step-IsConsistent}
use byte_battles.System.Queue.{IsNew, run-reached}
use byte_battles.System.Draining.{run-append}

-- The later row of a submission: it is the same submission, and if it was judged, it still is.
pub record Keeps (s t : Submission) : Type 0 where
  pub id : t.id ≡ s.id
  pub language : t.language ≡ s.language
  pub code_object_key : t.code_object_key ≡ s.code_object_key
  pub submitted_at : t.submitted_at ≡ s.submitted_at
  pub problem_id : t.problem_id ≡ s.problem_id
  pub user_id : t.user_id ≡ s.user_id
  pub judged : s.verdict ≢ Verdict.pending → t.verdict ≢ Verdict.pending

Keeps-refl : (s : Submission) → Keeps s s
Keeps-refl s = record {
  id = refl;
  language = refl;
  code_object_key = refl;
  submitted_at = refl;
  problem_id = refl;
  user_id = refl;
  judged = λ n. n;
}

Keeps-trans : (s t u : Submission) → Keeps s t → Keeps t u → Keeps s u
Keeps-trans s t u h k = record {
  id = k.id ∙ h.id;
  language = k.language ∙ h.language;
  code_object_key = k.code_object_key ∙ h.code_object_key;
  submitted_at = k.submitted_at ∙ h.submitted_at;
  problem_id = k.problem_id ∙ h.problem_id;
  user_id = k.user_id ∙ h.user_id;
  judged = λ n. k.judged (h.judged n);
}

abbrev pub IsLaterOf : List Submission → Submission → Type 0
IsLaterOf rows t = Any (λ s. Keeps s t) rows

-- Every row of the later tables whose id was given out before is the later row of an earlier one.
pub record Lasts (a b : Db) : Type 0 where
  pub next : a.next_submission ≤ b.next_submission
  pub rows : All (λ t. t.id < a.next_submission → IsLaterOf a.submissions t) b.submissions

all_later : (rows : List Submission) → All (IsLaterOf rows) rows
all_later [] = tt
all_later (s ∷ rows) =
    (inl (Keeps-refl s), All-map {Q = IsLaterOf (s ∷ rows)} (λ t h. inr h) rows (all_later rows))

Lasts-rows :
    (a b : Db)
    → b.next_submission ≡ a.next_submission
    → All (IsLaterOf a.submissions) b.submissions
    → Lasts a b
Lasts-rows a b e h = record { next = omega (arith, e); rows = All-map (λ t k l. k) b.submissions h }

Lasts-same :
    (a b : Db) → b.submissions ≡ a.submissions → b.next_submission ≡ a.next_submission → Lasts a b
Lasts-same a b e f = Lasts-rows a b f (rw e (all_later a.submissions))

-- A row was appended under the next id.
Lasts-added :
    (a b : Db) (row : Submission)
    → row.id ≡ a.next_submission
    → b ≡ add_submission row a
    → Lasts a b
Lasts-added a b row q e = rw e (record {
  next = omega arith;
  rows =
      All-last (λ t. t.id < a.next_submission → IsLaterOf a.submissions t) a.submissions
        (All-map (λ t k l. k) a.submissions (all_later a.submissions))
        (λ l. absurd (omega (arith, l, q)));
})

Lasts-select :
    (a b : Db) (test : Submission → Bool)
    → b.submissions ≡ select test a.submissions
    → b.next_submission ≡ a.next_submission
    → Lasts a b
Lasts-select a b test e f =
    Lasts-rows a b f
      (rw e (All-select (IsLaterOf a.submissions) test a.submissions (all_later a.submissions)))

-- An earlier row has a later one of its id, or the later rows.
later_of :
    (old mid : List Submission) (n : ℕ) (t : Submission)
    → t.id < n
    → All (λ s. s.id < n → IsLaterOf old s) mid
    → IsLaterOf mid t
    → IsLaterOf old t
later_of old [] n t l h k = absurd k
later_of old (s ∷ mid) n t l h (inl k) =
    let e = k.id in
    Any-map {Q = λ r. Keeps r t} (λ r q. Keeps-trans r s t q k) old (h.0 (omega (arith, e, l)))
later_of old (s ∷ mid) n t l h (inr k) = later_of old mid n t l h.1 k

Lasts-trans : (a b c : Db) → Lasts a b → Lasts b c → Lasts a c
Lasts-trans a b c h k = record {
  next = let x = h.next in let y = k.next in omega (arith, x, y);
  rows =
      All-map
        (λ t q l.
          later_of a.submissions b.submissions a.next_submission t l h.rows
            (q (let x = h.next in omega (arith, x, l))))
        c.submissions k.rows;
}

updated_later :
    (id : ℕ) (result : SubmissionResult) (a : Db)
    → result.verdict ≢ Verdict.pending
    → All (IsLaterOf a.submissions) (update_result id result a).submissions
unfolding update_result update_first
updated_later id result a n = go a.submissions
  where
    go :
        (rows : List Submission)
        → All
            (IsLaterOf rows)
            (update_result id result (record a { submissions = rows })).submissions
    go [] = tt
    go (s ∷ rows) = elim (Bool-cases (s.id == id)) [
      | inl e ↦ rw e (
        inl (record {
          id = refl;
          language = refl;
          code_object_key = refl;
          submitted_at = refl;
          problem_id = refl;
          user_id = refl;
          judged = λ m. n;
        }),
        All-map {Q = IsLaterOf (s ∷ rows)} (λ t h. inr h) rows (all_later rows),
      )
      | inr e ↦
          rw e (inl (Keeps-refl s), All-map {Q = IsLaterOf (s ∷ rows)} (λ t h. inr h) _ (go rows))
    ]

module _ (parts : Parts) where
  abbrev db_of : System parts → Db
  db_of s = s.site.db

  Untouched-Lasts : (s t : Site parts.backend) → Untouched s t → Lasts s.db t.db
  Untouched-Lasts s t h = Lasts-same s.db t.db h.submissions h.sequence

  stored-Lasts :
      (id : ℕ) (r : Result SubmissionResult) (a : Db)
      → ((result : SubmissionResult) → r ≡ ok result → result.verdict ≢ Verdict.pending)
      → Lasts a (stored id r a)
  unfolding update_result
  stored-Lasts id (ok result) a n =
      Lasts-rows a (update_result id result a) refl (updated_later id result a (n result refl))
  stored-Lasts id (err e) a n = Lasts-same a a refl refl

  work-Lasts :
      (i n now : ℕ) (outage : Option Fault) (s : System parts) (p : Turn × World parts.services)
      → TurnEffect parts.services parts.config i n now outage (s.variable i) (world parts s) p
      → Lasts (db_of s) (db_of (take_turn parts i p s))
  work-Lasts i n now outage s p (TurnEffect.idle t u k same l) =
      Lasts-same (db_of s) u.db (ap (λ (d : Db). d.submissions) same)
        (ap (λ (d : Db). d.next_submission) same)
  work-Lasts i n now outage s p (TurnEffect.took rest id t u o running q (jobs, db) known l) =
      let w' = taken parts.services parts.config i now id rest (world parts s) in
      let m = process_submission parts.services parts.config id in
      subst (λ d. Lasts (db_of s) d) (sym db)
        (stored-Lasts id (m w').0 (db_of s) (λ result e.
          process_submission-Returns parts.services parts.config id w' result (m w').1
            (ap (λ r. (r, (m w').1)) e)))

  step-Lasts :
      (e : Event parts) (s : System parts)
      → IsConsistent parts s
      → Lasts (db_of s) (db_of (step parts e s))
  unfolding step
  step-Lasts (submit details user now) s c =
      elim (create_submission-Queued parts.backend parts.encode parts.decode now details user
        s.site) [
          | Queued.unchanged h ↦ Untouched-Lasts s.site _ h
          | Queued.added key e f g ↦ Lasts-added s.site.db _ _ refl e
          | Queued.left key x q e f g ↦ Lasts-added s.site.db _ _ refl e
        ]
  step-Lasts (upload_problem form now) s c =
      Untouched-Lasts s.site _
        (create_after_read-Untouched parts.backend parts.archives form now s.site)
  step-Lasts (remove_problem id) s c = elim (delete_problem-Reduced parts.backend id s.site) [
    | Reduced.whole h ↦ Untouched-Lasts s.site _ h
    | Reduced.selected test e f g h ↦ Lasts-select s.site.db _ test e f
  ]
  step-Lasts (sign_up salt new_user connection now) s c = Lasts-same (db_of s) (db_of s) refl refl
  step-Lasts (change_account salt updates connection id) s c =
      elim (Option-cases (first (has_id id) s.site.users.rows)) [
        | inl e ↦ rw (e, step) (Lasts-same (db_of s) (db_of s) refl refl)
        | inr (me, e) ↦ rw (e, step) (Lasts-same (db_of s) (db_of s) refl refl)
      ]
  step-Lasts (delete_account id) s c = elim (Option-cases (first (has_id id) s.site.users.rows)) [
    | inl e ↦ rw (e, step) (Lasts-same (db_of s) (db_of s) refl refl)
    | inr (me, e) ↦
        rw (e, step) (Lasts-select (db_of s) _ (λ t. not (t.user_id == me.id)) refl refl)
  ]
  step-Lasts (work i now outage) s c = work-Lasts i s.site.db.next_submission now outage s _ (
      turn-TurnEffect parts.services parts.config i s.site.db.next_submission now outage
        (s.variable i) (world parts s) (c.limited i) c.known)
  step-Lasts (get_stuck i now) s c = elim (split_last-cases s.site.redis.jobs) [
    | inl (q, e) ↦ rw (e, step) (Lasts-same (db_of s) (db_of s) refl refl)
    | inr (rest, id, q, e, _) ↦ rw (e, step) (Lasts-same (db_of s) (db_of s) refl refl)
  ]
  step-Lasts (watch now alive) s c = Lasts-same (db_of s) (db_of s) refl refl
  step-Lasts (refill warm) s c = Lasts-same (db_of s) (db_of s) refl refl

  run-Lasts :
      (events : List (Event parts)) (s : System parts)
      → IsConsistent parts s
      → Lasts (db_of s) (db_of (run parts events s))
  unfolding run
  run-Lasts [] s c = Lasts-same (db_of s) (db_of s) refl refl
  run-Lasts (e ∷ events) s c =
      let t = step parts e s in
      Lasts-trans (db_of s) (db_of t) (db_of (run parts events t)) (step-Lasts e s c)
        (run-Lasts events t (step-IsConsistent parts e s c))

  -- From no users, no submissions, an empty queue, no submission keys and workers that have taken
  -- nothing yet, whatever requests, turns of workers and of the orchestrator, stuck workers and
  -- refills follow one another, and however the history goes on: ids of submissions are never
  -- given out again, and each later row with an id from before is the row of the same submission,
  -- with the same code key, language, time, problem and user, and with a verdict if it had one. So
  -- no submission is overwritten by another, and none is pending again.
  pub run-lasting :
      (earlier later : List (Event parts)) (s : System parts)
      → IsNew parts s
      → Lasts (run parts earlier s).site.db (run parts (earlier ++ later) s).site.db
  run-lasting earlier later s new =
      rw (run-append parts earlier later s)
        (run-Lasts later (run parts earlier s) (run-reached parts earlier s new))
