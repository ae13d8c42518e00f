-- ===== src/Tests/Fixtures.antt =====
-- What the tests share. The services run a program that prints its input; the bytes of a file are its
-- key, and a text is its own encoding.
use byte_battles.Base.{true, false, none, some, List, [], ◌∷◌, ◌++◌}
use byte_battles.Base.Text.{Text, codes}
use byte_battles.Base.Exec.{ok}
use byte_battles.Enums.{Difficulty, Language, Verdict}
use byte_battles.Config.{Config}
use byte_battles.Services.{Services}
use byte_battles.Redis.{Redis}
use byte_battles.Database.{Problem, TestCase, Submission}
use byte_battles.World.{World}
use byte_battles.Pipeline.{Job}

abbrev pub config : Config
config = record {
  workspace_dir = codes "/w";
  container_pool_threshold = 3;
  container_worker_count = 2;
  minimum_judge_worker = 2;
  maximum_judge_worker = 4;
  judge_worker_timeout = 30;
  acquire_timeout_seconds = 5;
  max_memcap_gb = 1;
  max_pids = 64;
}

-- The input that was sent last, and the containers that were stopped.
abbrev pub EchoState : Type 0
EchoState = Text × List Text

abbrev pub echo : Services
echo = record {
  State = EchoState;
  get_container = λ id s. (ok tt, s);
  stop_container = λ id s. (ok tt, (s.0, id ∷ s.1));
  exec_run = λ id cmd dir s. (ok (record { exit_code = 0; output = some (none, none) }), s);
  uuid_hex = λ s. (ok (codes "f00d"), s);
  create_container = λ name image limits s. (ok name, s);
  start_container = λ id s. (ok tt, s);
  exec_plain = λ id cmd s. (ok 0, s);
  remove_container = λ id s. (ok tt, s);
  put_archive = λ id path bytes s. (ok tt, s);
  exec_create = λ id cmd s. (ok id, s);
  exec_start = λ id s. (ok id, s);
  send_all = λ sock bytes s. (ok tt, (bytes, s.1));
  frames_iter = λ sock s. (ok ((1, s.0) ∷ (2, codes "0.02 900\n") ∷ []), s);
  close_socket = λ sock s. (ok tt, s);
  exec_inspect = λ id s. (ok (some 0), s);
  get_submission_file = λ key s. (ok key, s);
  get_testcase_file = λ key s. (ok key, s);
  begin = λ s. (ok tt, s);
  commit = λ s. (ok tt, s);
  encode = λ t. t;
  decode = λ b. ok b;
  decode_replace = λ b. b;
  tar_file = λ name bytes. name ++ bytes;
}

abbrev pub submission_7 : Submission
submission_7 = record {
  id = 7;
  language = Language.python;
  code_object_key = codes "code";
  submitted_at = 70;
  problem_id = codes "P1";
  user_id = 1;
  verdict = Verdict.pending;
  incorrect_testcase_key = none;
  output = none;
  walltime_ms = none;
  memory_kb = none;
}

abbrev test_1 : TestCase
test_1 = record {
  id = 1;
  problem_id = codes "P1";
  input_key = codes "5 6";
  output_key = codes "5\n6\n";
}

abbrev test_2 : TestCase
test_2 = record { id = 2; problem_id = codes "P1"; input_key = codes "8"; output_key = codes "9" }

abbrev pub job : Job
job = record {
  submission = submission_7;
  testcases = test_1 ∷ test_2 ∷ [];
  time_limit_sec = 2;
  memory_limit_kb = 1024;
}

abbrev pub problem_1 : Problem
problem_1 = record {
  id = codes "P1";
  title = codes "Echo";
  difficulty = Difficulty.easy;
  description = codes "Print the input.";
  constraints = [];
  input_desc = codes "A number.";
  output_desc = codes "The number.";
  sample_io = [];
  explanation = none;
  created_at = 10;
  memory_limit_mb = 1;
  time_limit_sec = 2;
  tags = [];
  visibility = true;
  source = none;
  accepted_submissions = 0;
  total_submissions = 0;
  editorial = none;
}

abbrev pub redis : Redis
redis = record {
  jobs = 3 ∷ 7 ∷ [];
  warm = λ l. codes "c1" ∷ codes "c2" ∷ [];
  events = [];
  shutdown_all = some false;
  shutdown = λ i. some false;
  heartbeat = λ i. some 100;
  submission = λ i. none;
}

abbrev pub world : World echo
world = record {
  services = ([], []);
  redis = redis;
  db = record {
    problems = problem_1 ∷ [];
    testcases = test_2 ∷ test_1 ∷ [];
    submissions = submission_7 ∷ [];
    categories = [];
    next_testcase = 3;
    next_submission = 8;
  };
}
