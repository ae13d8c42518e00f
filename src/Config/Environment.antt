-- ===== src/Config/Environment.antt =====
-- config.py as a module: what it reads when it is imported.
use byte_battles.Base.{ℕ, Option, none, some, List, [], ◌∷◌, ◌≡◌, refl, ◌↔◌, inl, inr, All}
use byte_battles.Base.Text.{Text, codes}
use byte_battles.Base.Number.{int}
use byte_battles.Base.Exec.{Exec, Result, ok, err, Fault, Result-cases, pure, ◌>>=◌}

pub record Settings : Type 0 where
  pub s3_endpoint_url : Option Text
  pub s3_access_key : Option Text
  pub s3_secret_key : Option Text
  pub s3_region : Option Text
  pub s3_signature_version : Option Text
  pub redis_host : Option Text
  pub redis_port : ℕ
  pub redis_db : ℕ
  pub db_url : Option Text
  pub secret_key : Option Text
  pub algorithm : Option Text
  pub access_token_expire_minutes : ℕ
  pub refresh_token_expire_days : ℕ
  pub dummy_pass : Option Text
  pub redis_job_list : Option Text
  pub redis_result_channel : Option Text
  pub shutdown_key : Option Text
  pub worker_prefix : Option Text
  pub warm_queue_prefix : Option Text
  pub container_pool_threshold : ℕ
  pub container_worker_count : ℕ
  pub minimum_judge_worker : ℕ
  pub maximum_judge_worker : ℕ
  pub judge_worker_timeout : ℕ
  pub acquire_timeout_seconds : ℕ
  pub max_memcap_gb : ℕ
  pub max_pids : ℕ
  pub workspace_dir : Option Text
  pub testcase_bucket : Option Text
  pub submission_bucket : Option Text

-- The variables of the environment, those of `.env` among them.
abbrev pub Environment : Type 0
Environment = Text → Option Text

-- `int(v)` of what `os.getenv` found; `int(None)` is a TypeError.
abbrev int_of : Option Text → Result ℕ
int_of none = err Fault.type_error
int_of (some t) = int t

abbrev getenv : Text → Exec Environment (Option Text)
getenv name env = (ok (env name), env)

abbrev get_int : Text → Exec Environment ℕ
get_int name env = (int_of (env name), env)

unfoldable pub load : Exec Environment Settings
load = do
  s3_endpoint_url ← getenv (codes "S3_ENDPOINT_URL")
  s3_access_key ← getenv (codes "S3_ACCESS_KEY")
  s3_secret_key ← getenv (codes "S3_SECRET_KEY")
  s3_region ← getenv (codes "S3_REGION")
  s3_signature_version ← getenv (codes "S3_SIGNATURE_VERSION")
  redis_host ← getenv (codes "REDIS_HOST")
  redis_port ← get_int (codes "REDIS_PORT")
  redis_db ← get_int (codes "REDIS_DB")
  db_url ← getenv (codes "DB_URL")
  secret_key ← getenv (codes "SECRET_KEY")
  algorithm ← getenv (codes "ALGORITHM")
  access_token_expire_minutes ← get_int (codes "ACCESS_TOKEN_EXPIRE_MINUTES")
  refresh_token_expire_days ← get_int (codes "REFRESH_TOKEN_EXPIRE_DAYS")
  dummy_pass ← getenv (codes "DUMMY_PASS")
  redis_job_list ← getenv (codes "REDIS_JOB_LIST")
  redis_result_channel ← getenv (codes "REDIS_RESULT_CHANNEL")
  shutdown_key ← getenv (codes "SHUTDOWN_KEY")
  worker_prefix ← getenv (codes "WORKER_PREFIX")
  warm_queue_prefix ← getenv (codes "WARM_QUEUE_PREFIX")
  container_pool_threshold ← get_int (codes "CONTAINER_POOL_THRESHOLD")
  container_worker_count ← get_int (codes "CONTAINER_WORKER_COUNT")
  minimum_judge_worker ← get_int (codes "MINIMUM_JUDGE_WORKER")
  maximum_judge_worker ← get_int (codes "MAXIMUM_JUDGE_WORKER")
  judge_worker_timeout ← get_int (codes "JUDGE_WORKER_TIMEOUT")
  acquire_timeout_seconds ← get_int (codes "ACQUIRE_TIMEOUT_SECONDS")
  max_memcap_gb ← get_int (codes "MAX_MEMCAP_GB")
  max_pids ← get_int (codes "MAX_PIDS")
  workspace_dir ← getenv (codes "WORKSPACE_DIR")
  testcase_bucket ← getenv (codes "TESTCASE_BUCKET")
  submission_bucket ← getenv (codes "SUBMISSION_BUCKET")
  pure (record {
    s3_endpoint_url = s3_endpoint_url;
    s3_access_key = s3_access_key;
    s3_secret_key = s3_secret_key;
    s3_region = s3_region;
    s3_signature_version = s3_signature_version;
    redis_host = redis_host;
    redis_port = redis_port;
    redis_db = redis_db;
    db_url = db_url;
    secret_key = secret_key;
    algorithm = algorithm;
    access_token_expire_minutes = access_token_expire_minutes;
    refresh_token_expire_days = refresh_token_expire_days;
    dummy_pass = dummy_pass;
    redis_job_list = redis_job_list;
    redis_result_channel = redis_result_channel;
    shutdown_key = shutdown_key;
    worker_prefix = worker_prefix;
    warm_queue_prefix = warm_queue_prefix;
    container_pool_threshold = container_pool_threshold;
    container_worker_count = container_worker_count;
    minimum_judge_worker = minimum_judge_worker;
    maximum_judge_worker = maximum_judge_worker;
    judge_worker_timeout = judge_worker_timeout;
    acquire_timeout_seconds = acquire_timeout_seconds;
    max_memcap_gb = max_memcap_gb;
    max_pids = max_pids;
    workspace_dir = workspace_dir;
    testcase_bucket = testcase_bucket;
    submission_bucket = submission_bucket;
  })

-- The variables that have to be numbers.
abbrev numeric : List Text
numeric =
    codes "REDIS_PORT"
    ∷ codes "REDIS_DB"
    ∷ codes "ACCESS_TOKEN_EXPIRE_MINUTES"
    ∷ codes "REFRESH_TOKEN_EXPIRE_DAYS"
    ∷ codes "CONTAINER_POOL_THRESHOLD"
    ∷ codes "CONTAINER_WORKER_COUNT"
    ∷ codes "MINIMUM_JUDGE_WORKER"
    ∷ codes "MAXIMUM_JUDGE_WORKER"
    ∷ codes "JUDGE_WORKER_TIMEOUT"
    ∷ codes "ACQUIRE_TIMEOUT_SECONDS"
    ∷ codes "MAX_MEMCAP_GB"
    ∷ codes "MAX_PIDS"
    ∷ []

-- A variable is there and is a number.
abbrev IsNumber : Option Text → Type 0
IsNumber v = (n : ℕ) × (int_of v ≡ ok n)

abbrev Ends : Exec Environment Settings → Environment → Type 0
Ends m env = (s : Settings) × ((m env).0 ≡ ok s)

goes_on :
    (name : Text) (f : ℕ → Exec Environment Settings) (env : Environment)
    → Ends (get_int name >>= f) env
    → (n : ℕ) × (int_of (env name) ≡ ok n) × Ends (f n) env
goes_on name f env (s, h) = elim (Result-cases (int_of (env name))) [
  | inl (n, e) ↦ (n, e, (s, rw e at h))
  | inr (x, e) ↦ absurd (let k : ◌≡◌ {A = Result Settings} (err x) (ok s) = rw e at h in cc k)
]

read_on :
    (name : Text) (f : ℕ → Exec Environment Settings) (env : Environment)
    → IsNumber (env name)
    → ((n : ℕ) → int_of (env name) ≡ ok n → Ends (f n) env)
    → Ends (get_int name >>= f) env
read_on name f env (n, e) more = let (s, h) = more n e in (s, rw e h)

-- The module is imported exactly if each of these variables is there and is a number.
load_iff :
    (env : Environment)
    → ((s : Settings) × ((load env).0 ≡ ok s)) ↔ All (λ name. IsNumber (env name)) numeric
unfolding load
load_iff env = (
  λ h.
      let (n0, e0, h0) = goes_on (codes "REDIS_PORT") _ env h in
      let (n1, e1, h1) = goes_on (codes "REDIS_DB") _ env h0 in
      let (n2, e2, h2) = goes_on (codes "ACCESS_TOKEN_EXPIRE_MINUTES") _ env h1 in
      let (n3, e3, h3) = goes_on (codes "REFRESH_TOKEN_EXPIRE_DAYS") _ env h2 in
      let (n4, e4, h4) = goes_on (codes "CONTAINER_POOL_THRESHOLD") _ env h3 in
      let (n5, e5, h5) = goes_on (codes "CONTAINER_WORKER_COUNT") _ env h4 in
      let (n6, e6, h6) = goes_on (codes "MINIMUM_JUDGE_WORKER") _ env h5 in
      let (n7, e7, h7) = goes_on (codes "MAXIMUM_JUDGE_WORKER") _ env h6 in
      let (n8, e8, h8) = goes_on (codes "JUDGE_WORKER_TIMEOUT") _ env h7 in
      let (n9, e9, h9) = goes_on (codes "ACQUIRE_TIMEOUT_SECONDS") _ env h8 in
      let (n10, e10, h10) = goes_on (codes "MAX_MEMCAP_GB") _ env h9 in
      let (n11, e11, h11) = goes_on (codes "MAX_PIDS") _ env h10 in
      (
        (n0, e0),
        (
          (n1, e1),
          (
            (n2, e2),
            (
              (n3, e3),
              (
                (n4, e4),
                (
                  (n5, e5),
                  ((n6, e6), ((n7, e7), ((n8, e8), ((n9, e9), ((n10, e10), ((n11, e11), tt)))))),
                ),
              ),
            ),
          ),
        ),
      ),
  λ k.
      let (k0, (k1, (k2, (k3, (k4, (k5, (k6, (k7, (k8, (k9, (k10, (k11, _)))))))))))) = k in
      read_on (codes "REDIS_PORT") _ env k0 (λ n0 e0. read_on (codes "REDIS_DB") _ env k1 (λ n1 e1.
        read_on (codes "ACCESS_TOKEN_EXPIRE_MINUTES") _ env k2 (λ n2 e2.
          read_on (codes "REFRESH_TOKEN_EXPIRE_DAYS") _ env k3 (λ n3 e3.
            read_on (codes "CONTAINER_POOL_THRESHOLD") _ env k4 (λ n4 e4.
              read_on (codes "CONTAINER_WORKER_COUNT") _ env k5 (λ n5 e5.
                read_on (codes "MINIMUM_JUDGE_WORKER") _ env k6 (λ n6 e6.
                  read_on (codes "MAXIMUM_JUDGE_WORKER") _ env k7 (λ n7 e7.
                    read_on (codes "JUDGE_WORKER_TIMEOUT") _ env k8 (λ n8 e8.
                      read_on (codes "ACQUIRE_TIMEOUT_SECONDS") _ env k9 (λ n9 e9.
                        read_on (codes "MAX_MEMCAP_GB") _ env k10 (λ n10 e10.
                          read_on (codes "MAX_PIDS") _ env k11 (λ n11 e11. (_, refl))))))))))))),
)
