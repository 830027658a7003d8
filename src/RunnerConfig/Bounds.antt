-- ===== src/RunnerConfig/Bounds.antt =====
-- What the loaded settings satisfy, whatever the environment holds.
use brosettlement_mpc_core.Base.{
  ℕ, ◌+◌, ◌*◌, ◌≤◌, ◌<◌, ◌≡◌, refl, ◌⊎◌, inl, inr, Option, none, some, Bytes, codes, leb,
  if◌then◌else◌, Bool-cases, arith,
}
use brosettlement_mpc_core.RunnerConfig.{
  RunnerConfig, Environment, second, int64_end, add_durations, positive_or, env_duration, env_int,
  read_config, corrected, load_runner_config_from_env,
}

-- Every limit is positive, the queue and the table have room, and a warning comes before failure,
-- unless the warning is so late that the sum for the failure wraps to a negative limit.
pub record IsUsable (cfg : RunnerConfig) : Type 0 where
  pub stall_warn : 1 ≤ cfg.stall_warn
  pub stall_fail :
      (cfg.stall_warn < cfg.stall_fail)
      ⊎ ((int64_end ≤ cfg.stall_warn + 30 * second) × (cfg.stall_fail ≡ 0))
  pub stall_warn_every : 1 ≤ cfg.stall_warn_every
  pub watchdog_tick : 1 ≤ cfg.watchdog_tick
  pub max_frame_bytes : 1 ≤ cfg.max_frame_bytes
  pub inbound_queue_cap : 1 ≤ cfg.inbound_queue_cap
  pub dedup_ttl : 1 ≤ cfg.dedup_ttl
  pub dedup_max_entries : 100 ≤ cfg.dedup_max_entries

positive_or-positive : (fallback : ℕ) (o : Option ℕ) → 1 ≤ fallback → 1 ≤ positive_or fallback o
positive_or-positive fallback none h = h
positive_or-positive fallback (some n) h = ground arith

env_duration-positive :
    (env : Environment) (key : Bytes) (fallback : ℕ)
    → 1 ≤ fallback
    → 1 ≤ env_duration env key fallback
unfolding env_duration
env_duration-positive env key fallback h =
    ground (arith, positive_or-positive fallback (env.parse_duration (env.getenv key)) h)

env_int-positive :
    (env : Environment) (key : Bytes) (fallback : ℕ) → 1 ≤ fallback → 1 ≤ env_int env key fallback
unfolding env_int
env_int-positive env key fallback h =
    ground (arith, positive_or-positive fallback (env.atoi (env.getenv key)) h)

positive_or-fits :
    (fallback : ℕ) (o : Option ℕ)
    → fallback < int64_end
    → ((n : ℕ) → o ≡ some n → n < int64_end)
    → positive_or fallback o < int64_end
positive_or-fits fallback none h fits = h
positive_or-fits fallback (some n) h fits = let less = fits n refl in ground arith

env_duration-fits :
    (env : Environment) (key : Bytes) (fallback : ℕ)
    → fallback < int64_end
    → ((s : Bytes) (n : ℕ) → env.parse_duration s ≡ some n → n < int64_end)
    → env_duration env key fallback < int64_end
unfolding env_duration
env_duration-fits env key fallback h fits = ground (
  arith,
  h,
  positive_or-fits fallback (env.parse_duration (env.getenv key)) h (fits (env.getenv key)),
)

add_durations-cases :
    (a : ℕ)
    → 1 ≤ a
    → a < int64_end
    → (a < add_durations a (30 * second))
      ⊎ ((int64_end ≤ a + 30 * second) × (add_durations a (30 * second) ≡ 0))
unfolding add_durations
add_durations-cases a positive fits = elim (Bool-cases (leb int64_end (a + 30 * second))) [
  | inl wraps ↦ inr (ground (arith, wraps), ground (arith, wraps, fits))
  | inr small ↦ inl (ground (arith, small, fits))
]

corrected_fail :
    (warn fail : ℕ)
    → 1 ≤ warn
    → warn < int64_end
    → (warn < (if leb fail warn then add_durations warn (30 * second) else fail))
      ⊎ ((int64_end ≤ warn + 30 * second)
          × ((if leb fail warn then add_durations warn (30 * second) else fail) ≡ 0))
corrected_fail warn fail positive fits = elim (Bool-cases (leb fail warn)) [
  | inl early ↦ rw early (add_durations-cases warn positive fits)
  | inr late ↦ rw late (inl (ground (arith, late)))
]

-- Whatever the environment holds, with a parser whose durations are below 2^63: the loaded settings
-- have positive limits but for the stall failure, and room for 100 frames in the table of seen ones;
-- and the stall failure is later than the stall warning, or the warning is within 30 seconds of
-- 2^63 nanoseconds, and the limit of the failure has wrapped to a negative one.
pub load_runner_config_from_env-IsUsable :
    (env : Environment)
    → ((s : Bytes) (n : ℕ) → env.parse_duration s ≡ some n → n < int64_end)
    → IsUsable (load_runner_config_from_env env)
unfolding load_runner_config_from_env corrected read_config
load_runner_config_from_env-IsUsable env fits = record {
  stall_warn = env_duration-positive env _ _ (omega arith);
  stall_fail =
      corrected_fail _ _ (env_duration-positive env (codes "TSS_STALL_WARN") _ (omega arith))
        (env_duration-fits env (codes "TSS_STALL_WARN") _ (omega arith) fits);
  stall_warn_every = ground arith;
  watchdog_tick = env_duration-positive env _ _ (omega arith);
  max_frame_bytes = env_int-positive env _ _ (omega arith);
  inbound_queue_cap = ground arith;
  dedup_ttl = env_duration-positive env _ _ (omega arith);
  dedup_max_entries = ground arith;
}
