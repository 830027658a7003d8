-- ===== src/RunnerConfig.antt =====
-- internal/tssbnb/utils/config.go: the settings of a run, in nanoseconds, bytes and entries.
-- The environment, `time.ParseDuration` and `strconv.Atoi` are parameters. A duration is an int64; a
-- negative one stands as 0, which a time that has passed reaches at once, as it does a negative one.
pub mod Bounds
use brosettlement_mpc_core.Base.{
  ℕ, ◌+◌, ◌*◌, ◌%◌, ◌^◌, ◌≡◌, Option, none, some, [], Bytes, codes, ltb, leb, ◌==◌, ◌=?◌,
  if◌then◌else◌,
}

pub record RunnerConfig : Type 0 where
  pub stall_warn : ℕ
  pub stall_fail : ℕ
  pub stall_warn_every : ℕ
  pub watchdog_tick : ℕ
  pub max_frame_bytes : ℕ
  pub inbound_queue_cap : ℕ
  pub dedup_ttl : ℕ
  pub dedup_max_entries : ℕ

abbrev pub second : ℕ
second = 1000000000

abbrev pub default_runner_config : RunnerConfig
default_runner_config = record {
  stall_warn = 30 * second;
  stall_fail = 120 * second;
  stall_warn_every = 30 * second;
  watchdog_tick = 5 * second;
  max_frame_bytes = 2097152;
  inbound_queue_cap = 256;
  dedup_ttl = 600 * second;
  dedup_max_entries = 10000;
}

-- The environment and the parsers: a negative number and a parse error are both none.
pub record Environment : Type 0 where
  pub getenv : Bytes → Bytes
  pub parse_duration : Bytes → Option ℕ
  pub atoi : Bytes → Option ℕ

abbrev pub positive_or : ℕ → Option ℕ → ℕ
positive_or fallback none = fallback
positive_or fallback (some n) = if n == 0 then fallback else n

unfoldable pub env_duration : Environment → Bytes → ℕ → ℕ
env_duration env key fallback =
    if env.getenv key =? []
    then fallback
    else positive_or fallback (env.parse_duration (env.getenv key))

unfoldable pub env_int : Environment → Bytes → ℕ → ℕ
env_int env key fallback =
    if env.getenv key =? [] then fallback else positive_or fallback (env.atoi (env.getenv key))

-- The settings as the environment gives them, over the defaults.
unfoldable pub read_config : Environment → RunnerConfig
unfolding env_duration env_int
read_config env =
    let cfg = default_runner_config in
    record {
      stall_warn = env_duration env (codes "TSS_STALL_WARN") cfg.stall_warn;
      stall_fail = env_duration env (codes "TSS_STALL_FAIL") cfg.stall_fail;
      stall_warn_every = env_duration env (codes "TSS_STALL_WARN_EVERY") cfg.stall_warn_every;
      watchdog_tick = env_duration env (codes "TSS_WATCHDOG_TICK") cfg.watchdog_tick;
      max_frame_bytes = env_int env (codes "TSS_MAX_FRAME_BYTES") cfg.max_frame_bytes;
      inbound_queue_cap = env_int env (codes "TSS_INBOUND_QUEUE_CAP") cfg.inbound_queue_cap;
      dedup_ttl = env_duration env (codes "TSS_DEDUP_TTL") cfg.dedup_ttl;
      dedup_max_entries = env_int env (codes "TSS_DEDUP_MAX_ENTRIES") cfg.dedup_max_entries;
    }

abbrev pub int64_end : ℕ
int64_end = 2 ^ 63

-- The sum of two durations that are not negative: from 2^63 on it wraps to a negative one.
unfoldable pub add_durations : ℕ → ℕ → ℕ
add_durations a b = let sum = (a + b) % 2 ^ 64 in if leb int64_end sum then 0 else sum

-- The corrections at the end of `LoadRunnerConfigFromEnv`.
unfoldable pub corrected : RunnerConfig → RunnerConfig
unfolding add_durations
corrected cfg = record cfg {
  inbound_queue_cap = if ltb cfg.inbound_queue_cap 1 then 1 else cfg.inbound_queue_cap;
  dedup_max_entries = if ltb cfg.dedup_max_entries 100 then 100 else cfg.dedup_max_entries;
  stall_fail =
      if leb cfg.stall_fail cfg.stall_warn
      then add_durations cfg.stall_warn (30 * second)
      else cfg.stall_fail;
  stall_warn_every = if leb cfg.stall_warn_every 0 then 30 * second else cfg.stall_warn_every;
}

unfoldable pub load_runner_config_from_env : Environment → RunnerConfig
unfolding corrected
load_runner_config_from_env env = corrected (read_config env)
