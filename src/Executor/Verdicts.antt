-- ===== src/Executor/Verdicts.antt =====
-- What `run_program` of executor.py makes of the numbers and outputs of one run.
use byte_battles.Base.{ℕ, ◌*◌, ◌≤◌, ◌<◌, ◌≡◌, ◌≢◌, ◌↔◌, true, Option, some, arith}
use byte_battles.Base.Text.{Text, split, text_eq_iff}
use byte_battles.Base.Exec.{Returns}
use byte_battles.Config.{Config}
use byte_battles.Services.{Services}
use byte_battles.Enums.{Language, Verdict, is_accepted}
use byte_battles.Executor.Output.{norm, norm-eq_iff}
use byte_battles.Executor.{RunResult, run_result, run_verdict, run_program}

module _ (time_limit_sec memory_limit_kb : ℕ) (exit_code : Option ℕ) (stdout expected : Text)
    (seconds kb : ℕ) where
  -- A run is accepted exactly when it used less than the memory limit, exited with 0 and printed
  -- the expected words in the expected order.
  pub accepted_iff :
      ((run_result time_limit_sec memory_limit_kb exit_code stdout expected (seconds, kb)).ok
        ≡ true)
      ↔ ((kb < memory_limit_kb) × (exit_code ≡ some 0) × (split stdout ≡ split expected))
  unfolding run_result run_verdict
  accepted_iff =
      ground (arith, text_eq_iff (norm stdout) (norm expected), norm-eq_iff stdout expected)

  -- The reported time is at most 1000 times the time limit, the reported memory at most the memory
  -- limit, the memory verdict is given exactly when the reported memory is the limit, and ok is
  -- set exactly with the accepting verdict.
  pub run_result_bounds :
      let r = run_result time_limit_sec memory_limit_kb exit_code stdout expected (seconds, kb) in
      (r.runtime_ms ≤ time_limit_sec * 1000)
      × (r.memory_kb ≤ memory_limit_kb)
      × ((r.verdict ≡ Verdict.memory_limit_exceeded) ↔ (r.memory_kb ≡ memory_limit_kb))
      × ((r.ok ≡ true) ↔ (r.verdict ≡ Verdict.accepted))
  unfolding run_result run_verdict
  run_result_bounds = ground arith

-- What every run has: a verdict of a run, and `ok` when it is the accepting one.
pub record IsJudged (r : RunResult) : Type 0 where
  pub consistent : r.ok ≡ is_accepted r.verdict
  pub not_pending : r.verdict ≢ Verdict.pending
  pub not_compilation_error : r.verdict ≢ Verdict.compilation_error
  pub not_skipped : r.verdict ≢ Verdict.skipped

-- Whatever the services answer, a run that returns has such a result.
run_program-IsJudged :
    (env : Services) (config : Config) (container : Text) (language : Language)
    (path input_data expected : Text) (tl ml : ℕ)
    → Returns IsJudged (run_program env config container language path input_data expected tl ml)
unfolding run_program run_result run_verdict
run_program-IsJudged env config container language path input_data expected tl ml s a u e =
    ground arith
