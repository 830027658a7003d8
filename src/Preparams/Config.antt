-- ===== src/Preparams/Config.antt =====
-- internal/preparams/config.go, tss/preparams_config.go and the start of `NewPool` (pool.go): the
-- settings of the pool. A negative number is zero here: both are raised alike.
use brosettlement_mpc_core.Base.{
  ℕ, ◌*◌, ◌≤◌, Bool, true, false, [], Bytes, codes, ltb, ◌==◌, ◌=?◌, if◌then◌else◌, arith,
}
use brosettlement_mpc_core.RunnerConfig.{second}

pub record Config : Type 0 where
  pub enabled : Bool
  pub target_size : ℕ
  pub max_concurrency : ℕ
  pub generation_parallelism : ℕ
  pub generate_timeout : ℕ
  pub acquire_timeout : ℕ
  pub retry_backoff : ℕ
  pub sync_fallback_on_empty : Bool
  pub auto_refill_on_acquire : Bool
  pub file_cache_enabled : Bool
  pub file_cache_dir : Bytes

abbrev pub default_config : Config
default_config = record {
  enabled = true;
  target_size = 5;
  max_concurrency = 1;
  generation_parallelism = 2;
  generate_timeout = 420 * second;
  acquire_timeout = 45 * second;
  retry_backoff = 2 * second;
  sync_fallback_on_empty = true;
  auto_refill_on_acquire = true;
  file_cache_enabled = false;
  file_cache_dir = codes ".tmp/tss-preparams";
}

abbrev pub at_least_one : ℕ → ℕ
at_least_one n = if ltb n 1 then 1 else n

abbrev pub unless_zero : ℕ → ℕ → ℕ
unless_zero n fallback = if n == 0 then fallback else n

-- `normalizePreParamsConfig`, and the same lines of `NewPool`.
unfoldable pub normalize_config : Config → Config
normalize_config cfg =
    let target = at_least_one cfg.target_size in
    let workers = at_least_one cfg.max_concurrency in
    record cfg {
      target_size = target;
      max_concurrency = if ltb target workers then target else workers;
      generation_parallelism =
          if ltb cfg.generation_parallelism 1 then 2 else cfg.generation_parallelism;
      generate_timeout = unless_zero cfg.generate_timeout (420 * second);
      acquire_timeout = unless_zero cfg.acquire_timeout (45 * second);
      retry_backoff = unless_zero cfg.retry_backoff (2 * second);
      file_cache_dir =
          if cfg.file_cache_dir =? [] then codes ".tmp/tss-preparams" else cfg.file_cache_dir;
    }

-- Settings that a pool can work with.
pub record IsWorkable (cfg : Config) : Type 0 where
  pub target : 1 ≤ cfg.target_size
  pub some_worker : 1 ≤ cfg.max_concurrency
  pub workers : cfg.max_concurrency ≤ cfg.target_size
  pub parallelism : 1 ≤ cfg.generation_parallelism
  pub generate : 1 ≤ cfg.generate_timeout
  pub acquire : 1 ≤ cfg.acquire_timeout
  pub backoff : 1 ≤ cfg.retry_backoff

-- Whatever the settings were, normalised ones have a target and workers of at least one, no more
-- workers than the target, and positive timeouts.
pub normalize_config-IsWorkable : (cfg : Config) → IsWorkable (normalize_config cfg)
unfolding normalize_config
normalize_config-IsWorkable cfg = record {
  target = ground arith;
  some_worker = ground arith;
  workers = ground arith;
  parallelism = ground arith;
  generate = ground arith;
  acquire = ground arith;
  backoff = ground arith;
}
