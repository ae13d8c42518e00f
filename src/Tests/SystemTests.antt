-- ===== src/Tests/SystemTests.antt =====
-- The whole system from no users and no submissions: an account, two submissions, a worker that gets
-- stuck with one of them, the orchestrator that puts it back, and turns of a second worker.
use byte_battles.Base.{
  Bool, ℕ, ◌≤◌, ◌≡◌, refl, ◌⊎◌, true, ◌||◌, none, List, [], ◌∷◌, ◌++◌, map, arith, ◌==◌, length,
  All,
}
use byte_battles.Base.Text.{codes}
use byte_battles.Enums.{Verdict}
use byte_battles.Redis.{set_key, push_job}
use byte_battles.Api.Accounts.{works}
use byte_battles.Api.Auth.{UserCreate}
use byte_battles.Worker.{is_running}
use byte_battles.Tests.Memory.{total}
use byte_battles.Enums.{extension}
use byte_battles.World.{session}
use byte_battles.Database.{order_by, select, update_first}
use byte_battles.Orchestrator.{desired, repeat, spawn_worker}
use byte_battles.Redis.{acquire_warm_sandbox, publish_event}
use byte_battles.Executor.{
  copy_code_to_container, run_program, read_stats, stream, run_result, run_verdict,
}
use byte_battles.Executor.Output.{norm}
use byte_battles.Base.Number.{int_float, read_digits, int}
use byte_battles.Pipeline.{
  read_job, process_leased, with_container, judge, compile, run_tests, run_test, measure, fail,
  conclude, update_result,
}
use byte_battles.Api.Storage.SubmissionCode.{upload_bytes}
use byte_battles.Api.Submissions.Create.{create_submission, save_submission}
use byte_battles.Base.Text.{text_eq, split_on, split, is_space, join, strip}
use byte_battles.Database.{first}
use byte_battles.Orchestrator.{
  round, check_heartbeat, check_workers, check_worker, scale, health, observe,
}
use byte_battles.Worker.{beat, set_submission, turn, popped, consume, attempt, settle}
use byte_battles.Pipeline.{process_submission}
use byte_battles.System.{
  Parts, System, Event, step, run, submit, upload_problem, sign_up, work, get_stuck, watch,
  all_abandoned, abandoned,
}
use byte_battles.System.Rows.{occurs}
use byte_battles.System.Consistent.{IsConsistent}
use byte_battles.System.Queue.{IsNew, run-reached, run-loses_none}
use byte_battles.Orchestrator.Identifiers.{contains, IsTracked}
use byte_battles.System.Lasting.{Lasts, run-lasting}
use byte_battles.System.Recovery.{Undisturbed, run-recovers}
use byte_battles.System.Draining.{turns, Settles, run-judges_all}
use byte_battles.Tests.Fixtures.{config, echo, world, redis}
use byte_battles.Tests.ApiFixtures.{passwords, bob}
use byte_battles.Tests.SiteTests.{archives, decode, details, form}
use byte_battles.Tests.Memory.{memory}

abbrev parts : Parts
parts = record {
  backend = memory;
  services = echo;
  archives = archives;
  passwords = passwords;
  config = config;
  encode = λ t. t;
  decode = decode;
}

-- The orchestrator has started workers 1 and 2.
abbrev new_system : System parts
new_system = record {
  site = record {
    store = [];
    db = record world.db { submissions = []; next_submission = 1 };
    redis = record redis { jobs = [] };
    users = record { rows = []; next_id = 1 };
  };
  services = ([], []);
  variable = λ i. none;
  orchestrator = record {
    min_workers = 2;
    max_workers = 4;
    workers = 1 ∷ 2 ∷ [];
    global_worker_id = 3;
    alive = λ i. i == 1 || i == 2;
    manager_alive = true;
    redis = redis;
  };
}

new_system-IsNew : IsNew parts new_system
new_system-IsNew = record {
  no_submissions = refl;
  no_users = refl;
  no_jobs = refl;
  no_keys = λ i. refl;
  unbound = λ i. refl;
}

abbrev bobs_account : UserCreate
bobs_account = record {
  username = codes "bob";
  email = codes "b@x.org";
  password = codes "secret22";
  conf_password = codes "secret22";
}

abbrev events : List (Event parts)
events =
    sign_up 9 bobs_account works 60
    ∷ submit details bob 90
    ∷ submit details bob 91
    ∷ get_stuck 1 100
    ∷ work 2 120 none
    ∷ watch 140 (λ i. i == 1 || i == 2)
    ∷ upload_problem form 150
    ∷ []

run-reached_example : IsConsistent parts (run parts events new_system)
run-reached_example = run-reached parts events new_system new_system-IsNew

run-loses_none_example :
    All
      (λ t.
        t.verdict ≡ Verdict.pending
        → (occurs t.id (run parts events new_system).site.redis.jobs ≡ true)
          ⊎ (occurs t.id (all_abandoned parts events new_system) ≡ true))
      (run parts events new_system).site.db.submissions
run-loses_none_example = run-loses_none parts events new_system new_system-IsNew

-- Worker 1 gets stuck with the first submission, which is put back, and worker 2 judges both.
abbrev history : List (Event parts)
history =
    submit details bob 90
    ∷ submit details bob 91
    ∷ get_stuck 1 100
    ∷ watch 140 (λ i. i == 1 || i == 2)
    ∷ []

abbrev before : System parts
before = run parts history new_system

worker_2-is_running : is_running echo config 2 before.site.redis ≡ true
unfolding run step create_submission save_submission push_job first upload_bytes text_eq round
    check_heartbeat check_workers check_worker scale health observe set_key is_running
    set_submission total extension beat desired repeat spawn_worker
worker_2-is_running = refl

two_jobs : length before.site.redis.jobs ≤ 2
unfolding run step create_submission save_submission push_job first upload_bytes text_eq round
    check_heartbeat check_workers check_worker scale health observe set_key is_running
    set_submission total extension beat desired repeat spawn_worker
two_jobs = omega arith

worker_2-Settles : Settles parts 2 (150 ∷ 160 ∷ []) before
unfolding run step create_submission save_submission push_job first upload_bytes text_eq round
    check_heartbeat check_workers check_worker scale health observe set_key is_running
    set_submission total extension beat desired repeat spawn_worker turn popped consume attempt
    settle process_submission session read_job acquire_warm_sandbox process_leased with_container
    judge copy_code_to_container compile run_tests order_by select run_test run_program measure fail
    conclude read_stats split_on stream split is_space int_float read_digits int run_result
    run_verdict norm join strip publish_event update_result update_first
worker_2-Settles = (tt, (tt, tt))

run-judges_all_example :
    let full = history ++ turns parts 2 (150 ∷ 160 ∷ []) in
    All
      (λ t. t.verdict ≡ Verdict.pending → occurs t.id (all_abandoned parts full new_system) ≡ true)
      (run parts full new_system).site.db.submissions
run-judges_all_example =
    run-judges_all parts history 2 (150 ∷ 160 ∷ []) new_system new_system-IsNew worker_2-is_running
      two_jobs worker_2-Settles

-- Only the first submission was ever abandoned, and both have their verdicts.
abbrev full_history : List (Event parts)
full_history = history ++ turns parts 2 (150 ∷ 160 ∷ [])

both_judged :
    (map (λ t. t.verdict) (run parts full_history new_system).site.db.submissions
      ≡ Verdict.wrong_answer ∷ Verdict.wrong_answer ∷ [])
    × (all_abandoned parts full_history new_system ≡ 1 ∷ [])
unfolding all_abandoned abandoned run step create_submission save_submission push_job first
    upload_bytes text_eq round check_heartbeat check_workers check_worker scale health observe
    set_key is_running set_submission total extension beat desired repeat spawn_worker turn popped
    consume attempt settle process_submission session read_job acquire_warm_sandbox process_leased
    with_container judge copy_code_to_container compile run_tests order_by select run_test
    run_program measure fail conclude read_stats split_on stream split is_space int_float
    read_digits int run_result run_verdict norm join strip publish_event update_result update_first
both_judged = (refl, refl)

-- Worker 1 gets stuck with the first of two submissions; meanwhile worker 2 judges the second, and the
-- orchestrator finds nothing late.
abbrev submitted : System parts
submitted = run parts (submit details bob 90 ∷ submit details bob 91 ∷ []) new_system

abbrev both_alive : ℕ → Bool
both_alive i = i == 1 || i == 2

abbrev meanwhile : List (Event parts)
meanwhile = work 2 120 none ∷ watch 125 both_alive ∷ []

submitted-IsTracked : IsTracked submitted.orchestrator
unfolding run step create_submission save_submission push_job first upload_bytes text_eq round
    check_heartbeat check_workers check_worker scale health observe set_key is_running
    set_submission total extension beat desired repeat spawn_worker
submitted-IsTracked = record { serial = omega arith; tracked = λ i h. ground arith }

submitted_jobs : submitted.site.redis.jobs ≡ (2 ∷ []) ++ 1 ∷ []
unfolding run step create_submission save_submission push_job first upload_bytes text_eq round
    check_heartbeat check_workers check_worker scale health observe set_key is_running
    set_submission total extension beat desired repeat spawn_worker
submitted_jobs = refl

submitted_workers : contains submitted.orchestrator.workers 1 ≡ true
unfolding run step create_submission save_submission push_job first upload_bytes text_eq round
    check_heartbeat check_workers check_worker scale health observe set_key is_running
    set_submission total extension beat desired repeat spawn_worker
submitted_workers = refl

meanwhile-Undisturbed : Undisturbed parts 1 meanwhile (step parts (get_stuck 1 100) submitted)
unfolding run step create_submission save_submission push_job first upload_bytes text_eq round
    check_heartbeat check_workers check_worker scale health observe set_key is_running
    set_submission total extension beat desired repeat spawn_worker turn popped consume attempt
    settle process_submission session read_job acquire_warm_sandbox process_leased with_container
    judge copy_code_to_container compile run_tests order_by select run_test run_program measure fail
    conclude read_stats split_on stream split is_space int_float read_digits int run_result
    run_verdict norm join strip publish_event update_result update_first
meanwhile-Undisturbed = (omega arith, refl, (tt, refl, tt))

still_alive : (run parts (get_stuck 1 100 ∷ meanwhile) submitted).orchestrator.alive 1 ≡ true
unfolding run step create_submission save_submission push_job first upload_bytes text_eq round
    check_heartbeat check_workers check_worker scale health observe set_key is_running
    set_submission total extension beat desired repeat spawn_worker turn popped consume attempt
    settle process_submission session read_job acquire_warm_sandbox process_leased with_container
    judge copy_code_to_container compile run_tests order_by select run_test run_program measure fail
    conclude read_stats split_on stream split is_space int_float read_digits int run_result
    run_verdict norm join strip publish_event update_result update_first
still_alive = refl

run-recovers_example :
    occurs 1
      (run parts
        (get_stuck 1 100 ∷ meanwhile ++ watch 140 both_alive ∷ [])
        submitted).site.redis.jobs
    ≡ true
run-recovers_example =
    run-recovers parts 1 1 100 140 (2 ∷ []) meanwhile both_alive submitted submitted_jobs
      submitted-IsTracked submitted_workers meanwhile-Undisturbed still_alive refl (omega arith)

run-lasting_example :
    Lasts
      (run parts events new_system).site.db
      (run parts (events ++ turns parts 2 (150 ∷ 160 ∷ [])) new_system).site.db
run-lasting_example =
    run-lasting parts events (turns parts 2 (150 ∷ 160 ∷ [])) new_system new_system-IsNew
