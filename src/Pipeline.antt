-- ===== src/Pipeline.antt =====
-- judge/judge_worker/pipeline.py.
pub mod Judging
pub mod Compiling
pub mod Outcome
pub mod Lease
use byte_battles.Base.{
  ℕ, suc, ◌*◌, max, Option, none, some, List, [], ◌∷◌, ◌++◌, ◌==◌, if◌then◌else◌, take,
}
use byte_battles.Base.Text.{Text, codes, text_eq}
use byte_battles.Base.Exec.{
  Exec, Result, ok, err, Fault, is_exception, pure, raise, lift, ◌>>=◌, ◌>>◌,
}
use byte_battles.Enums.{Language, Verdict, is_accepted, is_pending}
use byte_battles.Config.{Config}
use byte_battles.Services.{Services}
use byte_battles.Redis.{acquire_warm_sandbox, publish_event}
use byte_battles.Database.{Db, TestCase, Submission, first, select, update_first, order_by}
use byte_battles.World.{World, on_services, on_redis, session}
use byte_battles.Executor.{
  CompileResult, RunResult, compile_c, compile_cpp, run_program, copy_code_to_container,
}

-- `SubmissionResult` of judge/judge_worker/types.py.
pub record SubmissionResult : Type 0 where
  pub submission_id : ℕ
  pub verdict : Verdict
  pub output : Option Text
  pub incorrect_testcase_idx : Option ℕ
  pub incorrect_testcase_key : Option Text
  pub runtime_ms : Option ℕ
  pub memory_kb : Option ℕ

-- `SubmissionResult(submission_id=..., verdict=Verdict.PENDING)`
abbrev pub new_result : ℕ → SubmissionResult
new_result submission_id = record {
  submission_id = submission_id;
  verdict = Verdict.pending;
  output = none;
  incorrect_testcase_idx = some 0;
  incorrect_testcase_key = none;
  runtime_ms = none;
  memory_kb = none;
}

-- The dictionary `first_failure`.
pub record Failure : Type 0 where
  pub idx : ℕ
  pub key : Text
  pub output : Text

-- The variables of the loop over the test cases.
pub record Progress : Type 0 where
  pub final_verdict : Verdict
  pub first_failure : Option Failure
  pub max_runtime_ms : ℕ
  pub max_memory_used_kb : ℕ

abbrev pub no_progress : Progress
no_progress = record {
  final_verdict = Verdict.accepted;
  first_failure = none;
  max_runtime_ms = 0;
  max_memory_used_kb = 0;
}

-- What the first session reads for a submission.
pub record Job : Type 0 where
  pub submission : Submission
  pub testcases : List TestCase
  pub time_limit_sec : ℕ
  pub memory_limit_kb : ℕ

-- One turn of the loop: the maxima, and the failure if there is one.
unfoldable pub measure : Progress → RunResult → Progress
measure p r = record p {
  max_runtime_ms = max p.max_runtime_ms r.runtime_ms;
  max_memory_used_kb = max p.max_memory_used_kb r.memory_kb;
}

unfoldable pub fail : ℕ → TestCase → Progress → RunResult → Progress
fail idx testcase p r = record p {
  final_verdict = r.verdict;
  first_failure =
      some (record { idx = idx; key = testcase.input_key; output = take 8192 r.output });
}

-- The tail of `process_submission` behind the loop. `first_failure[...]` raises on `None`.
unfoldable pub conclude : SubmissionResult → Progress → Result SubmissionResult
conclude result p =
    if is_accepted p.final_verdict
    then ok (record result {
      verdict = p.final_verdict;
      runtime_ms = some p.max_runtime_ms;
      memory_kb = some p.max_memory_used_kb;
    })
    else (elim p.first_failure [
      | none ↦ err Fault.type_error
      | some f ↦ ok (record result {
        verdict = p.final_verdict;
        output = some f.output;
        incorrect_testcase_idx = some f.idx;
        incorrect_testcase_key = some f.key;
        runtime_ms = some p.max_runtime_ms;
        memory_kb = some p.max_memory_used_kb;
      })
    ])

-- What a failed compilation writes into the result.
unfoldable pub after_compile : SubmissionResult → CompileResult → SubmissionResult
after_compile result c =
    if c.ok
    then result
    else record result { verdict = Verdict.compilation_error; output = some c.output }

-- `_get_submission`, `_get_testcases` (whose list is never `None`) and `_get_time_mem_limit`.
unfoldable get_submission : Db → ℕ → Result Submission
get_submission db submission_id = elim (first (λ s. s.id == submission_id) db.submissions) [
  | none ↦ err Fault.value_error
  | some s ↦ ok s
]

unfoldable get_testcases : Db → Text → List TestCase
get_testcases db problem_id =
    order_by (λ t. t.id) (select (λ t. text_eq t.problem_id problem_id) db.testcases)

unfoldable get_time_mem_limit : Db → Text → Result (ℕ × ℕ)
get_time_mem_limit db problem_id = elim (first (λ p. text_eq p.id problem_id) db.problems) [
  | none ↦ err Fault.value_error
  | some p ↦ ok (p.time_limit_sec, p.memory_limit_mb * 1024)
]

abbrev limits_of : Submission → List TestCase → Result (ℕ × ℕ) → Result Job
limits_of s ts (err e) = err e
limits_of s ts (ok (sec, kb)) =
    ok (record { submission = s; testcases = ts; time_limit_sec = sec; memory_limit_kb = kb })

-- The body of the first session.
unfoldable pub read_job : Db → ℕ → Result Job
unfolding get_submission get_testcases get_time_mem_limit
read_job db submission_id = elim (get_submission db submission_id) [
  | err e ↦ err e
  | ok s ↦ limits_of s (get_testcases db s.problem_id) (get_time_mem_limit db s.problem_id)
]

-- What `_update_submission_result` writes into a row.
unfoldable pub store_result : SubmissionResult → Submission → Submission
store_result result s = record s {
  verdict = result.verdict;
  output = result.output;
  incorrect_testcase_key = result.incorrect_testcase_key;
  walltime_ms = result.runtime_ms;
  memory_kb = result.memory_kb;
}

unfoldable pub update_result : ℕ → SubmissionResult → Db → Db
unfolding store_result
update_result submission_id result db = record db {
  submissions = update_first (λ s. s.id == submission_id) (store_result result) db.submissions;
}

module _ (env : Services) where
  -- The end of `_get_container`'s `finally`: what `stop` raises replaces what the body gave.
  unfoldable pub stop_after {ℓ} : {A : Type ℓ} → Text → Result A → env.State → Result A × env.State
  stop_after container r s =
      let (stopped, s') = env.stop_container container s in
      elim stopped [ ok _ ↦ (r, s') | err e ↦ (err e, s') ]

  -- `with self._get_container(container_id) as container: body`
  unfoldable pub with_container : {A : Type 0} → Text → Exec env.State A → Exec env.State A
  unfolding stop_after
  with_container container_id body s =
      let (got, s') = env.get_container container_id s in
      elim got [
        | err e ↦ (if is_exception e then err Fault.runtime_error else err e, s')
        | ok _ ↦ let (r, s'') = body s' in stop_after container_id r s''
      ]

module _ (env : Services) (config : Config) where
  open env use {State, get_testcase_file, get_submission_file, decode}

  abbrev executable_path : Language → Text
  executable_path Language.c = config.workspace_dir ++ codes "/main.out"
  executable_path Language.cpp = config.workspace_dir ++ codes "/main.out"
  executable_path Language.python = config.workspace_dir ++ codes "/main.py"

  -- The body of the loop up to `run_program`.
  unfoldable pub run_test : Text → Job → TestCase → Exec State RunResult
  run_test container job testcase = do
    input_bytes ← get_testcase_file testcase.input_key
    input_data ← lift (decode input_bytes)
    output_bytes ← get_testcase_file testcase.output_key
    expected_output ← lift (decode output_bytes)
    run_program env config container job.submission.language
        (executable_path job.submission.language) input_data expected_output job.time_limit_sec
        job.memory_limit_kb

  -- `for idx, testcase in enumerate(testcases, start=1)`, with its `break`.
  unfoldable pub run_tests : Text → Job → ℕ → List TestCase → Progress → Exec State Progress
  run_tests container job idx [] p = pure p
  run_tests container job idx (testcase ∷ testcases) p = run_test container job testcase >>= λ r.
      let rest = run_tests container job (suc idx) testcases (measure p r) in
      if r.ok then rest else pure (fail idx testcase (measure p r) r)

  -- The three branches on the language, up to the test of the verdict.
  unfoldable pub compile : Text → Language → SubmissionResult → Exec State SubmissionResult
  compile container Language.c result = do
    c ← compile_c env config container
    pure (after_compile result c)
  compile container Language.cpp result = do
    c ← compile_cpp env config container
    pure (after_compile result c)
  compile container Language.python result = pure result

  -- The body of `with self._get_container(container_id)`.
  unfoldable pub judge : Text → Job → SubmissionResult → Exec State SubmissionResult
  judge container job result = do
    code_data ← get_submission_file job.submission.code_object_key
    copy_code_to_container env config container job.submission.language code_data
    compiled ← compile container job.submission.language result
    let run =
        run_tests container job 1 job.testcases no_progress >>= λ p. lift (conclude compiled p)
    if is_pending compiled.verdict then run else pure compiled

  -- What follows once a container was leased.
  unfoldable pub process_leased : ℕ → Job → Text → Exec (World env) SubmissionResult
  process_leased submission_id job container_id = do
    on_redis env (λ r. (tt, publish_event job.submission.language r))
    result ←
        on_services env
          (with_container env container_id (judge container_id job (new_result submission_id)))
    session env (λ w. (ok tt, record w { db = update_result submission_id result w.db }))
    pure result

  unfoldable pub process_submission : ℕ → Exec (World env) SubmissionResult
  process_submission submission_id = do
    job ← session env (λ w. (read_job w.db submission_id, w))
    leased ← on_redis env (acquire_warm_sandbox job.submission.language)
    elim leased [
      | none ↦ raise Fault.timeout_error
      | some container_id ↦ process_leased submission_id job container_id
    ]
