-- ===== src/Service/Snapshot.antt =====
-- internal/tss/service/snapshot.go: the numbers that a service reports of its pre-parameters.
use brosettlement_mpc_core.Base.{ℕ, Option, none, some, ◌==◌, if◌then◌else◌}
use brosettlement_mpc_core.Preparams.Handle.{HandleMetrics}

-- `preparams.Snapshot`
pub record PoolSnapshot : Type 0 where
  pub size : ℕ
  pub in_flight : ℕ  -- int32
  pub sync_fallback_count : ℕ  -- uint64
  pub acquire_wait_nanos : ℕ  -- int64
  pub acquire_count : ℕ  -- uint64
  pub acquire_failed_count : ℕ  -- uint64

pub record Snapshot : Type 0 where
  pub pre_params_pool_size : ℕ
  pub pre_params_generation_in_flight : ℕ  -- int32
  pub pre_params_sync_fallback_count : ℕ  -- uint64
  pub pre_params_acquire_wait_nanos : ℕ  -- int64
  pub pre_params_acquired_count : ℕ  -- uint64
  pub pre_params_consumed_count : ℕ  -- uint64
  pub pre_params_discarded_before_start_count : ℕ  -- uint64
  pub pre_params_acquire_failed_count : ℕ  -- uint64
  pub pre_params_consume_conflict_count : ℕ  -- uint64

abbrev pub size_or_zero : Option ℕ → ℕ
size_or_zero none = 0
size_or_zero (some size) = size

abbrev pub with_provider : Snapshot → Option PoolSnapshot → Snapshot
with_provider snapshot none = snapshot
with_provider snapshot (some p) = record snapshot {
  pre_params_generation_in_flight = p.in_flight;
  pre_params_sync_fallback_count = p.sync_fallback_count;
  pre_params_acquire_wait_nanos = p.acquire_wait_nanos;
  pre_params_acquired_count = p.acquire_count;
  pre_params_acquire_failed_count = p.acquire_failed_count;
  pre_params_pool_size =
      if snapshot.pre_params_pool_size == 0 then p.size else snapshot.pre_params_pool_size;
}

-- The size of the pool and the snapshot of its provider, each if there is one.
unfoldable pub build_snapshot : Option ℕ → Option PoolSnapshot → HandleMetrics → Snapshot
build_snapshot pool provider handles =
    with_provider
      (record {
        pre_params_pool_size = size_or_zero pool;
        pre_params_generation_in_flight = 0;
        pre_params_sync_fallback_count = 0;
        pre_params_acquire_wait_nanos = 0;
        pre_params_acquired_count = 0;
        pre_params_consumed_count = handles.consumed_count;
        pre_params_discarded_before_start_count = handles.discarded_before_start_count;
        pre_params_acquire_failed_count = 0;
        pre_params_consume_conflict_count = handles.consume_conflict_count;
      })
      provider
