-- ===== src/Pipeline/Outcome.antt =====
-- What `process_submission` (pipeline.py) decides, and what it leaves in the database on every path.
use byte_battles.Base.{
  ℕ, ◌+◌, ◌≡◌, refl, sym, ap, ◌∙◌, subst, ◌≢◌, inl, inr, true, false, some, List, [], ◌∷◌, ◌++◌,
  arith, ◌==◌, if◌then◌else◌, length, take, All,
}
use byte_battles.Base.Text.{Text}
use byte_battles.Base.Exec.{Result, ok, err, Returns, bind-eq-ok, pure, lift, ◌>>=◌}
use byte_battles.Services.{Services}
use byte_battles.Config.{Config}
use byte_battles.Enums.{Verdict, is_pending}
use byte_battles.Database.{Db, TestCase, update_first}
use byte_battles.World.{World, session, on_services, on_redis}
use byte_battles.Executor.{
  RunResult, CompileResult, copy_code_to_container, run_program, run_result, run_verdict,
}
use byte_battles.Executor.Verdicts.{IsJudged}
use byte_battles.Pipeline.{
  SubmissionResult, Progress, Job, new_result, no_progress, conclude, update_result, store_result,
  run_test, run_tests, compile, judge, process_leased, process_submission,
}
use byte_battles.Pipeline.Compiling.{CompilerRan, IsCompiled, CompileCases, compile-cases}
use byte_battles.Pipeline.Judging.{
  Runs, Judged, all_passed, failed, Passed, max_ms, max_kb, run_tests-Judged,
}

module _ (env : Services) (config : Config) (container : Text) (job : Job) where
  open env use {State}

  run_test-IsJudged : (t : TestCase) → Returns IsJudged (run_test env config container job t)
  unfolding run_test run_program run_result run_verdict
  run_test-IsJudged t s r u e = ground arith

  -- What `judge` may return: a compilation error and nothing run; or all test cases run in order and
  -- passed; or the verdict, the number, the input and the output of the first that failed.
  pub data JudgedResult (r : SubmissionResult) (u : State) : Type 0 where
    not_compiled :
        (k : State) (x : CompileResult)
        → CompilerRan env config container job.submission.language k x u
        → x.exit_code ≢ 0
        → r.verdict ≡ Verdict.compilation_error
        → r.output ≡ some x.output
        → JudgedResult r u
    accepted :
        (k m : State) (rs : List RunResult)
        → IsCompiled env config container job.submission.language k m
        → Runs env config container job m job.testcases rs u
        → All Passed rs
        → r.verdict ≡ Verdict.accepted
        → r.runtime_ms ≡ some (max_ms rs)
        → r.memory_kb ≡ some (max_kb rs)
        → JudgedResult r u
    rejected :
        (before after : List TestCase) (t : TestCase) (k m v : State) (rs : List RunResult)
        (x : RunResult)
        → IsCompiled env config container job.submission.language k m
        → job.testcases ≡ before ++ t ∷ after
        → Runs env config container job m before rs v
        → All Passed rs
        → run_test env config container job t v ≡ (ok x, u)
        → x.ok ≡ false
        → IsJudged x
        → r.verdict ≡ x.verdict
        → r.incorrect_testcase_idx ≡ some (1 + length before)
        → r.incorrect_testcase_key ≡ some t.input_key
        → r.output ≡ some (take 8192 x.output)
        → JudgedResult r u

  -- The tail behind the loop keeps what the loop found; `first_failure` is there when it is read.
  conclude-JudgedResult :
      (compiled : SubmissionResult) (k m u : State) (q : Progress)
      → IsCompiled env config container job.submission.language k m
      → Judged env config container job 1 job.testcases no_progress m q u
      → (r : SubmissionResult) × (conclude compiled q ≡ ok r) × JudgedResult r u
  unfolding conclude
  conclude-JudgedResult compiled k m u q ready (all_passed rs runs oks eq) = (
    record compiled {
      verdict = Verdict.accepted;
      runtime_ms = some (max_ms rs);
      memory_kb = some (max_kb rs);
    },
    ground arith,
    accepted k m rs ready runs oks refl refl refl,
  )
  conclude-JudgedResult compiled k m u q ready
        (failed before after t rs x v split runs oks e bad eq) =
      let j = run_test-IsJudged t v x u e in
      (
        record compiled {
          verdict = x.verdict;
          output = some (take 8192 x.output);
          incorrect_testcase_idx = some (1 + length before);
          incorrect_testcase_key = some t.input_key;
          runtime_ms = some (max_ms (rs ++ x ∷ []));
          memory_kb = some (max_kb (rs ++ x ∷ []));
        },
        ground (arith, j.consistent),
        rejected before after t k m v rs x ready split runs oks e bad j refl refl refl refl,
      )

  -- The body of the loop and what follows it, from a result that is still pending.
  finish-JudgedResult :
      (compiled r : SubmissionResult) (k m u : State)
      → IsCompiled env config container job.submission.language k m
      → (run_tests env config container job 1 job.testcases no_progress >>= λ p.
            lift (conclude compiled p))
          m
        ≡ (ok r, u)
      → JudgedResult r u
  finish-JudgedResult compiled r k m u ready e =
      let (q, v, ran, concluded) =
        bind-eq-ok (run_tests env config container job 1 job.testcases no_progress)
          (λ p. lift (conclude compiled p)) m e in
      let (r', returned, j) =
        conclude-JudgedResult compiled k m v q ready
          (run_tests-Judged env config container job 1 job.testcases no_progress m ran) in
      subst (λ x. JudgedResult x u) (cc (returned, concluded))
        (subst (λ y. JudgedResult r' y)
          (ap (λ (x : Result SubmissionResult × State). x.1) concluded) j)

  ok-injective :
      {a b : SubmissionResult} {m u : State}
      → ◌≡◌ {A = Result SubmissionResult × State} (ok a, m) (ok b, u)
      → a ≡ b
  ok-injective e = cc e

  abbrev finish : SubmissionResult → State → Result SubmissionResult × State
  finish c =
      if is_pending c.verdict
      then (run_tests env config container job 1 job.testcases no_progress >>= λ p.
          lift (conclude c p))
      else pure c

  compiled-JudgedResult :
      (submission_id : ℕ) (c r : SubmissionResult) (k m u : State)
      → finish c m ≡ (ok r, u)
      → CompileCases env config container job.submission.language (new_result submission_id) c k m
      → JudgedResult r u
  compiled-JudgedResult id c r k m u e (inl (same, ready)) =
      let pending : is_pending c.verdict ≡ true = rw same refl in
      finish-JudgedResult c r k m u ready (rw pending at e)
  compiled-JudgedResult id c r k m u e (inr (x, ran, bad, same)) =
      let settled : is_pending c.verdict ≡ false = rw same refl in
      let g : ◌≡◌ {A = Result SubmissionResult × State} (ok c, m) (ok r, u) = rw settled at e in
      let q : c ≡ r = ok-injective g in
      let v : m ≡ u = cc g in
      not_compiled k x
        (subst (λ w. CompilerRan env config container job.submission.language k x w) v ran) bad
        (ap (λ (y : SubmissionResult). y.verdict) (sym q ∙ same))
        (ap (λ (y : SubmissionResult). y.output) (sym q ∙ same))

  -- Whatever the services answer, when the judging of a submission returns, either the compiler of
  -- the language returned an exit code other than 0, nothing was run, and the result is a
  -- compilation error with the compiler's output; or the compiler's exit code was 0, or the
  -- language has none, and every test case was run in order and passed, and the reported time and
  -- memory are the greatest of the runs; or so compiled it has the verdict, the number, the input
  -- key and the first 8192 characters of output of the first test case that failed, after runs
  -- that all passed.
  pub judge-JudgedResult :
      (submission_id : ℕ) (s : State) (r : SubmissionResult) (u : State)
      → judge env config container job (new_result submission_id) s ≡ (ok r, u)
      → JudgedResult r u
  unfolding judge
  judge-JudgedResult submission_id s r u e =
      let start : SubmissionResult = new_result submission_id in
      let (code, s1, _, e1) =
        bind-eq-ok (env.get_submission_file job.submission.code_object_key) _ s e in
      let (_, s2, _, e2) =
        bind-eq-ok (copy_code_to_container env config container job.submission.language code) _ s1
          e1 in
      let (c, s3, done, e3) =
        bind-eq-ok (compile env config container job.submission.language start) _ s2 e2 in
      compiled-JudgedResult submission_id c r s2 s3 u e3
        (compile-cases env config container job.submission.language start c s2 s3 done)

-- The tables after a call that ended so: the result is in the submission's row exactly when the call
-- returned it.
abbrev pub stored : ℕ → Result SubmissionResult → Db → Db
stored submission_id (ok result) db = update_result submission_id result db
stored submission_id (err e) db = db

-- The columns that a result has in the row of its submission, all else of the tables as it was.
abbrev pub recorded : ℕ → Result SubmissionResult → Db → Db
recorded submission_id (err e) db = db
recorded submission_id (ok result) db = record db {
  submissions =
      update_first (λ s. s.id == submission_id)
        (λ s. record s {
          verdict = result.verdict;
          output = result.output;
          incorrect_testcase_key = result.incorrect_testcase_key;
          walltime_ms = result.runtime_ms;
          memory_kb = result.memory_kb;
        })
        db.submissions;
}

stored-recorded :
    (id : ℕ) (r : Result SubmissionResult) (db : Db) → stored id r db ≡ recorded id r db
unfolding update_result store_result
stored-recorded id (ok result) db = refl
stored-recorded id (err e) db = refl

module _ (env : Services) (config : Config) (submission_id : ℕ) (w : World env) where
  pub stored-process_submission :
      (process_submission env config submission_id w).1.db
      ≡ stored submission_id (process_submission env config submission_id w).0 w.db
  unfolding process_submission process_leased session on_services on_redis
  stored-process_submission = ground arith

  -- On every path, process_submission changes the tables exactly if it returns, and then only by
  -- writing the verdict, the output, the key of the failed test case, the time and the memory of
  -- the returned result into the submission's row.
  pub db-process_submission :
      (process_submission env config submission_id w).1.db
      ≡ recorded submission_id (process_submission env config submission_id w).0 w.db
  db-process_submission =
      stored-process_submission
      ∙ stored-recorded submission_id (process_submission env config submission_id w).0 w.db
