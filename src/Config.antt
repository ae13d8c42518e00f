-- ===== src/Config.antt =====
-- config.py: the settings that the judge reads from its environment, each as the value that
-- `os.getenv` or `int(os.getenv(...))` gave it.
pub mod Environment
use byte_battles.Base.{ℕ}
use byte_battles.Base.Text.{Text}

pub record Config : Type 0 where
  pub workspace_dir : Text
  pub container_pool_threshold : ℕ
  pub container_worker_count : ℕ
  pub minimum_judge_worker : ℕ
  pub maximum_judge_worker : ℕ
  pub judge_worker_timeout : ℕ
  pub acquire_timeout_seconds : ℕ
  pub max_memcap_gb : ℕ
  pub max_pids : ℕ
