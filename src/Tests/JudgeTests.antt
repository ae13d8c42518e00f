-- ===== src/Tests/JudgeTests.antt =====
-- Runs of the executor, the pipeline and the worker on the fixtures, and their theorems there.
use byte_battles.Base.{ℕ, ◌*◌, ◌≤◌, ◌<◌, ◌≡◌, refl, ◌≢◌, ◌↔◌, true, Option, none, some, [], ◌∷◌}
use byte_battles.Base.Text.{codes, is_space, split, split_on, strip, join, text_eq}
use byte_battles.Base.Number.{int, int_float, read_digits}
use byte_battles.Base.Exec.{ok}
use byte_battles.Enums.{Language, Verdict, file_name}
use byte_battles.Executor.{
  run_program, run_result, run_verdict, run_command, read_stats, stream, copy_code_to_container,
}
use byte_battles.Executor.Output.{norm, norm-eq_iff}
use byte_battles.Executor.Verdicts.{accepted_iff, run_result_bounds}
use byte_battles.Executor.Stats.{time_output, time_line, read_stats-time_output}
use byte_battles.Pipeline.{
  SubmissionResult, Progress, no_progress, new_result, judge, run_test, run_tests, measure, fail,
  conclude, compile, process_leased, process_submission,
}
use byte_battles.Pipeline.Judging.{Judged, run_tests-Judged, Judged-run_tests}
use byte_battles.Pipeline.Outcome.{
  JudgedResult, judge-JudgedResult, recorded, stored, db-process_submission,
}
use byte_battles.Pipeline.Lease.{
  warm_and_announced, process_leased-stops, process_submission-warm_and_announced,
}
use byte_battles.Worker.{turn, is_running}
use byte_battles.Worker.Retry.{turn-settled, taken, requeued, held}
use byte_battles.Tests.Fixtures.{config, EchoState, echo, job, redis, world}

abbrev start : EchoState
start = ([], [])

abbrev end : EchoState
end = (codes "8", [])

abbrev rejection : SubmissionResult
rejection = record {
  submission_id = 7;
  verdict = Verdict.wrong_answer;
  output = some (codes "8");
  incorrect_testcase_idx = some 2;
  incorrect_testcase_key = some (codes "8");
  runtime_ms = some 0;
  memory_kb = some 900;
}

abbrev rejected_progress : Progress
rejected_progress = record {
  final_verdict = Verdict.wrong_answer;
  first_failure = some (record { idx = 2; key = codes "8"; output = codes "8" });
  max_runtime_ms = 0;
  max_memory_used_kb = 900;
}

-- The first test case passes, though its output has other white space; the second does not.
run_tests_run :
    run_tests echo config (codes "c1") job 1 job.testcases no_progress start
    ≡ (ok rejected_progress, end)
unfolding run_tests run_test run_program run_command run_result run_verdict norm strip split join
    text_eq stream read_stats split_on int int_float read_digits is_space measure fail
run_tests_run = refl

judge_run : judge echo config (codes "c1") job (new_result 7) start ≡ (ok rejection, end)
unfolding judge compile copy_code_to_container file_name conclude run_tests run_test run_program
    run_command run_result run_verdict norm strip split join text_eq stream read_stats split_on int
    int_float read_digits is_space measure fail
judge_run = refl

judge-JudgedResult_example : JudgedResult echo config (codes "c1") job rejection end
judge-JudgedResult_example =
    judge-JudgedResult echo config (codes "c1") job 7 start rejection end judge_run

run_tests-Judged_example :
    Judged echo config (codes "c1") job 1 job.testcases no_progress start rejected_progress end
run_tests-Judged_example =
    run_tests-Judged echo config (codes "c1") job 1 job.testcases no_progress start run_tests_run

Judged-run_tests_example :
    run_tests echo config (codes "c1") job 1 job.testcases no_progress start
    ≡ (ok rejected_progress, end)
Judged-run_tests_example =
    Judged-run_tests echo config (codes "c1") job 1 job.testcases no_progress start (
      run_tests-Judged echo config (codes "c1") job 1 job.testcases no_progress start run_tests_run)

accepted_iff_example :
    ((run_result 2 1024 (some 0) (codes "5 6") (codes "5\n6\n") (0, 900)).ok ≡ true) ↔ (
      (900 < 1024)
      × (◌≡◌ {A = Option ℕ} (some 0) (some 0))
      × (split (codes "5 6") ≡ split (codes "5\n6\n")))
accepted_iff_example = accepted_iff 2 1024 (some 0) (codes "5 6") (codes "5\n6\n") 0 900

run_result_bounds_example :
    let r = run_result 2 1024 (some 137) [] [] (7, 4000) in
    (r.runtime_ms ≤ 2 * 1000)
    × (r.memory_kb ≤ 1024)
    × ((r.verdict ≡ Verdict.memory_limit_exceeded) ↔ (r.memory_kb ≡ 1024))
    × ((r.ok ≡ true) ↔ (r.verdict ≡ Verdict.accepted))
run_result_bounds_example = run_result_bounds 2 1024 (some 137) [] [] 7 4000

norm-eq_iff_example :
    (norm (codes "5 6") ≡ norm (codes " 5\n6\n")) ↔ (split (codes "5 6") ≡ split (codes " 5\n6\n"))
norm-eq_iff_example = norm-eq_iff (codes "5 6") (codes " 5\n6\n")

-- A run of 1.99 seconds is read as 1.
read_stats-time_output_example :
    read_stats (time_output none (time_line (codes "1") (codes "99") (codes "3520"))) ≡ ok (1, 3520)
read_stats-time_output_example =
    read_stats-time_output none (codes "1") (codes "99") (codes "3520") refl (refl, refl)
      (refl, (refl, (refl, refl)))

db-process_submission_example :
    (process_submission echo config 7 world).1.db
    ≡ recorded 7 (process_submission echo config 7 world).0 world.db
db-process_submission_example = db-process_submission echo config 7 world

process_leased-stops_example :
    (process_leased echo config 7 job (codes "c1") world).1.services.1 ≢ []
process_leased-stops_example =
    process_leased-stops echo config (λ s. s.1 ≢ []) (codes "c1") (λ s e. cc e) (λ s h. h)
      (λ s h. h) 7 job world refl

process_submission-warm_and_announced_example :
    warm_and_announced (process_submission echo config 7 world).1.redis Language.python
    ≡ warm_and_announced redis Language.python
process_submission-warm_and_announced_example =
    process_submission-warm_and_announced echo config 7 world Language.python

turn-settled_example :
    let r = (process_submission echo config 7 (taken echo config 1 100 7 (3 ∷ []) world)).0 in
    let u = (turn echo config 1 100 none none world).1 in
    (u.redis.jobs ≡ requeued 7 r (3 ∷ []))
    × (u.db ≡ stored 7 r world.db)
    × (u.redis.submission 1 ≡ held 7 r)
turn-settled_example =
    turn-settled echo config 1 100 7 none (3 ∷ []) world (unfold is_running in refl) refl
