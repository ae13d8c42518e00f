-- ===== src/Tests/SiteTests.antt =====
-- The routes of problems and submissions on a store in memory.
use mathlib.Core.List
use byte_battles.Base.{
  false, ◌*◌, ◌≡◌, refl, true, false, none, some, List, [], ◌∷◌, map, ◌==◌, take, length,
}
use byte_battles.Base.Text.{Text, codes, text_eq}
use byte_battles.Base.Text.Affixes.{starts_with, contains, ends_with, sort, text_leb}
use byte_battles.Base.Exec.{Result, ok, err, Fault}
use byte_battles.Base.Text.{split_on}
use byte_battles.Enums.{Difficulty, Language}
use byte_battles.Services.{Bytes}
use byte_battles.Database.{Submission, Db, first, select}
use byte_battles.Api.Http.{reply, unhandled}
use byte_battles.Api.Backend.{Backend, Bucket}
use byte_battles.Api.Site.{Site}
use byte_battles.Api.Storage.Testcases.{upload_bytes, delete_problem_folder}
use byte_battles.Api.Storage.SubmissionCode
use byte_battles.Api.Submissions.Create.{
  SubmissionCreate, SubmissionResponse, view, incorrect_testcase, create_submission,
  save_submission, get_submission_by_id,
}
use byte_battles.Api.Submissions.Create.Accepted.{Submitted, create_submission-Submitted}
use byte_battles.Api.Submissions.Create.Shown.{get_submission_by_id-hidden}
use byte_battles.Api.Problems.{get_problems, order_by_id, allowed, header, insert_by_id}
use byte_battles.Api.Problems.Catalogue.{IsSorted, pages, get_problems-pages}
use byte_battles.Api.Problems.Form.{ProblemForm, Archives, check_upload, same_names, zip}
use byte_battles.Api.Problems.Upload.{create_problem, create_after_read}
use byte_battles.Api.Problems.Removal.{delete_problem}
use byte_battles.Api.Problems.Removal.Traces.{Removal}
use byte_battles.Tests.Fixtures.{submission_7, world, redis, problem_1}
use byte_battles.Tests.ApiFixtures.{bob, users}
use byte_battles.Tests.Memory.{memory, lookup, erase, keys_under, memory-IsObjectStore}

-- A submission of bob's that failed, and the code and the test file that it names.
abbrev failed_submission : Submission
failed_submission = record submission_7 {
  user_id = 2;
  code_object_key = codes "k7.py";
  incorrect_testcase_key = some (codes "problems/P1/u-1.txt");
}

abbrev site : Site memory
site = record {
  store =
      (Bucket.submission_bucket, codes "k7.py", codes "print(7)")
      ∷ (Bucket.testcase_bucket, codes "problems/P1/u-1.txt", codes "5 6")
      ∷ [];
  db = record world.db { submissions = failed_submission ∷ [] };
  redis = redis;
  users = users;
}

abbrev pub decode : Bytes → Result Text
decode b = ok b

abbrev pub details : SubmissionCreate
details = record { problem_id = codes "P1"; code = codes "print(1)"; language = Language.python }

create_submission-Submitted_example :
    Submitted memory lookup memory-IsObjectStore
      (λ t. t)
      90
      details
      bob
      site
      (create_submission memory (λ t. t) decode 90 details bob site)
create_submission-Submitted_example =
    create_submission-Submitted memory lookup memory-IsObjectStore (λ t. t) decode 90 details bob
      site

-- The connection fails behind the commit: the row is there, and nothing was pushed.
abbrev cut_off : Backend
cut_off = record memory { refresh = λ s. (err Fault.external, s) }

abbrev cut_off_site : Site cut_off
cut_off_site = record { store = site.store; db = site.db; redis = site.redis; users = site.users }

unqueued_run :
    let (r, t) = create_submission cut_off (λ t. t) decode 90 details bob cut_off_site in
    (r ≡ unhandled Fault.external) × (length t.db.submissions ≡ 2) × (t.redis.jobs ≡ redis.jobs)
unfolding create_submission save_submission first text_eq SubmissionCode.upload_bytes
unqueued_run = (refl, refl, refl)

-- The file of the failed test case is there, and not shown.
abbrev seen : SubmissionResponse
seen = view failed_submission bob.username none (codes "print(7)")

failed_submission_found : first (λ s. s.id == 7) site.db.submissions ≡ some failed_submission
unfolding first
failed_submission_found = refl

testcase_elsewhere : lookup site.store Bucket.submission_bucket (codes "problems/P1/u-1.txt") ≡ none
unfolding lookup text_eq
testcase_elsewhere = refl

submission_shown : (get_submission_by_id memory (λ t. t) decode 90 7 site).0 ≡ reply seen
unfolding get_submission_by_id first text_eq lookup incorrect_testcase SubmissionCode.file_exists
    SubmissionCode.get_file
submission_shown = refl

get_submission_by_id-hidden_example : seen.incorrect_testcase ≡ none
get_submission_by_id-hidden_example =
    get_submission_by_id-hidden memory lookup memory-IsObjectStore (λ t. t) decode 90 7
      failed_submission (codes "problems/P1/u-1.txt") site seen failed_submission_found refl
      testcase_elsewhere submission_shown

-- A second visible problem and a hidden one.
abbrev catalogue : Db
catalogue = record world.db {
  problems =
      record problem_1 { id = codes "P3" }
      ∷ record problem_1 { id = codes "P2"; visibility = false }
      ∷ problem_1
      ∷ [];
}

get_problems-pages_example :
    List.Perm (order_by_id (allowed none catalogue.problems)) (allowed none catalogue.problems)
    × IsSorted (order_by_id (allowed none catalogue.problems))
    × (pages 2 1 none catalogue
        ≡ map header (take (2 * 1) (order_by_id (allowed none catalogue.problems))))
get_problems-pages_example = get_problems-pages 2 1 none catalogue

get_problems_run :
    get_problems 2 1 none catalogue ≡ header (record problem_1 { id = codes "P3" }) ∷ []
unfolding get_problems order_by_id insert_by_id text_leb select
get_problems_run = refl

-- An archive is the list of its files, whatever the bytes, with their own names for content.
abbrev names : List Text
names = codes "t/inputs/1.txt" ∷ codes "t/outputs/1.txt" ∷ []

abbrev pub archives : Archives
archives = record {
  Zip = List Text;
  open_zip = λ bytes. some names;
  namelist = λ archive. archive;
  read = λ archive name. ok name;
  array_data = λ tags constraints sample_io.
      some (record { tags = []; constraints = constraints ∷ []; sample_io = [] });
}

abbrev pub form : ProblemForm
form = record {
  id = codes "P9";
  title = codes "Sum";
  description = codes "Add.";
  difficulty = Difficulty.easy;
  constraints = codes "c";
  tags = [];
  sample_io = [];
  input_desc = [];
  output_desc = [];
  explanation = none;
  memory_limit_mb = 64;
  time_limit_sec = 2;
  visibility = true;
  source = none;
  editorial = none;
  filename = codes "t.zip";
  zip_bytes = [];
}

create_problem_run :
    (create_problem memory archives form 90 (λ s. s) site).0
    ≡ reply (record {
      id = codes "P9";
      title = codes "Sum";
      difficulty = Difficulty.easy;
      tags = [];
      testcases = 1;
    })
unfolding create_problem first text_eq ends_with create_after_read check_upload sort select
    starts_with split_on same_names zip upload_bytes
create_problem_run = refl

delete_problem_run : (delete_problem memory (codes "P1") site).1.store ≡ []
unfolding delete_problem first text_eq select SubmissionCode.delete_file delete_problem_folder
    keys_under erase contains starts_with
delete_problem_run = refl
