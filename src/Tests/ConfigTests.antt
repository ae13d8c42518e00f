-- ===== src/Tests/ConfigTests.antt =====
-- config.py with the numbers of .env.example.
use byte_battles.Base.{ℕ, none, some, List, [], ◌∷◌, ◌≡◌, refl, if◌then◌else◌}
use byte_battles.Base.Text.{Text, codes, text_eq}
use byte_battles.Base.Number.{int, read_digits}
use byte_battles.Base.Exec.{Result, ok, err, Fault}
use byte_battles.Config.Environment.{Environment, Settings, load}

unfoldable look_up : List (Text × Text) → Environment
look_up [] name = none
look_up ((key, value) ∷ rest) name =
    let found = look_up rest name in if text_eq key name then some value else found

abbrev example : List (Text × Text)
example =
    (codes "REDIS_PORT", codes "6379")
    ∷ (codes "REDIS_DB", codes "0")
    ∷ (codes "ACCESS_TOKEN_EXPIRE_MINUTES", codes "30")
    ∷ (codes "REFRESH_TOKEN_EXPIRE_DAYS", codes "7")
    ∷ (codes "CONTAINER_POOL_THRESHOLD", codes "10")
    ∷ (codes "CONTAINER_WORKER_COUNT", codes "4")
    ∷ (codes "MAX_MEMCAP_GB", codes "1")
    ∷ (codes "MAX_PIDS", codes "64")
    ∷ (codes "ACQUIRE_TIMEOUT_SECONDS", codes "10")
    ∷ (codes "MINIMUM_JUDGE_WORKER", codes "4")
    ∷ (codes "MAXIMUM_JUDGE_WORKER", codes "20")
    ∷ (codes "JUDGE_WORKER_TIMEOUT", codes "120")
    ∷ []

abbrev timeouts : Result Settings → List ℕ
timeouts (ok s) = s.judge_worker_timeout ∷ s.acquire_timeout_seconds ∷ s.max_pids ∷ []
timeouts (err e) = []

load_run : timeouts (load (look_up example)).0 ≡ 120 ∷ 10 ∷ 64 ∷ []
unfolding load look_up int read_digits text_eq
load_run = refl

load_nothing : (load (λ name. none)).0 ≡ err Fault.type_error
unfolding load
load_nothing = refl
