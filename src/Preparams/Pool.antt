-- ===== src/Preparams/Pool.antt =====
-- internal/preparams/pool.go: the inventory of pre-parameters, its refill and its counters. The
-- generator, the validator and the removal of a cache file are parameters; the durations that the
-- pool measures, its start and the loading of the cache are left out. What a worker does up to its
-- last `select` and its deferred end are two steps.
pub mod Stock
pub mod Refill
pub mod Deficit
pub mod Valid
use brosettlement_mpc_core.Base.{
  ℕ, zero, suc, ◌+◌, ◌-◌, ◌≡◌, refl, Bool, true, false, not, ◌&&◌, ◌||◌, ◌==◌, Option, none, some,
  List, [], ◌∷◌, ◌++◌, Bytes, leb, ltb, ◌=?◌, if◌then◌else◌, Result, ok, err, length,
}
use brosettlement_mpc_core.Execution.State.{incremented}
use brosettlement_mpc_core.Preparams.Config.{Config, normalize_config}

pub data PoolError : Type 0 where
  pool_closed : PoolError
  pool_empty : PoolError
  deadline_exceeded : PoolError
  canceled : PoolError
  invalid_cached : PoolError
  cache_path_required : PoolError
  failed_validation : PoolError
  foreign_error : ℕ → PoolError

pub record Item (Material : Type 0) : Type 0 where
  pub params : Material
  pub cache_path : Bytes

-- `validate`, and the removal of a cache file with its error.
pub record Services (Material : Type 0) : Type 0 where
  pub validate : Material → Bool
  pub remove_file : Bytes → Option PoolError

pub record Pool (Material : Type 0) : Type 0 where
  pub cfg : Config
  pub inventory : List (Item Material)
  pub started : Bool
  pub closed : Bool
  pub refill_signal : Bool
  pub refill_paused : Bool
  pub in_flight : ℕ
  pub generations_ok : ℕ
  pub generations_failed : ℕ
  pub acquires : ℕ
  pub acquire_failed : ℕ
  pub empty_count : ℕ
  pub sync_fallback : ℕ

-- How a generation ends: nothing to count, a failure, or an item to store.
pub data Generation (Material : Type 0) : Type 0 where
  stopped : Generation Material
  failing : Generation Material
  stored : Item Material → Generation Material

abbrev pub is_context_error : PoolError → Bool
is_context_error deadline_exceeded = true
is_context_error canceled = true
is_context_error x = false

-- The cache path of a generated item: none on an error, empty without a file cache.
abbrev pub cache_path_of : Bool → Result PoolError Bytes → Option Bytes
cache_path_of false saved = some []
cache_path_of true (ok path) = some path
cache_path_of true (err x) = none

module _ {Material : Type 0} where
  unfoldable pub new_pool : Config → Pool Material
  unfolding normalize_config
  new_pool cfg = record {
    cfg = normalize_config cfg;
    inventory = [];
    started = false;
    closed = false;
    refill_signal = false;
    refill_paused = false;
    in_flight = 0;
    generations_ok = 0;
    generations_failed = 0;
    acquires = 0;
    acquire_failed = 0;
    empty_count = 0;
    sync_fallback = 0;
  }

  abbrev pub signal_refill : Pool Material → Pool Material
  signal_refill p = record p { refill_signal = true }

  abbrev pub fail_acquire : Pool Material → PoolError → Pool Material × Result PoolError Material
  fail_acquire p x = (record p { acquire_failed = incremented p.acquire_failed }, err x)

  unfoldable pub finish_synchronous_acquire :
      Pool Material → Result PoolError Material → Pool Material × Result PoolError Material
  finish_synchronous_acquire p (err x) = fail_acquire p x
  finish_synchronous_acquire p (ok m) = (record p { acquires = incremented p.acquires }, ok m)

  -- `generated` is what the generator gives.
  unfoldable pub sync_generate :
      Services Material → Result PoolError Material → Result PoolError Material
  sync_generate s (err x) = err x
  sync_generate s (ok m) = if not (s.validate m) then err failed_validation else ok m

  abbrev pub removal : Services Material → Bytes → Option PoolError
  removal s path = if path =? [] then none else s.remove_file path

  unfoldable pub finish_item :
      Services Material → Pool Material → Item Material → Pool Material × Result PoolError Material
  finish_item s p it =
      if not (s.validate it.params)
      then fail_acquire p invalid_cached
      else if p.cfg.file_cache_enabled && (it.cache_path =? [])
      then fail_acquire p cache_path_required
      else elim (removal s it.cache_path) [
        | some x ↦ fail_acquire p x
        | none ↦ (record p { acquires = incremented p.acquires }, ok it.params)
      ]

  abbrev pub refilled : Pool Material → Pool Material
  refilled p = if p.cfg.auto_refill_on_acquire then signal_refill p else p

  -- The receive from the channel; the deferred signal comes last.
  abbrev pub signalled :
      Pool Material × Result PoolError Material → Pool Material × Result PoolError Material
  signalled (p, r) = (refilled p, r)

  unfoldable pub take_item :
      Services Material
      → Pool Material
      → List (Item Material)
      → Option (Pool Material × Result PoolError Material)
  unfolding finish_item
  take_item s p [] = none
  take_item s p (it ∷ rest) = some (signalled (finish_item s (record p { inventory = rest }) it))

  abbrev pub or_empty :
      Pool Material
      → Option (Pool Material × Result PoolError Material)
      → Pool Material × Result PoolError Material
  or_empty p none =
      fail_acquire (signal_refill (record p { empty_count = incremented p.empty_count })) pool_empty
  or_empty p (some r) = r

  -- `ctx_err` is `ctx.Err()`, `generated` what the generator would give.
  unfoldable pub try_acquire :
      Services Material
      → Pool Material
      → Option PoolError
      → Result PoolError Material
      → Pool Material × Result PoolError Material
  unfolding take_item finish_synchronous_acquire sync_generate
  try_acquire s p (some x) generated = fail_acquire p x
  try_acquire s p none generated =
      if p.closed
      then fail_acquire p pool_closed
      else if not p.cfg.enabled
      then finish_synchronous_acquire p (sync_generate s generated)
      else or_empty p (take_item s p p.inventory)

  -- An empty pool: an error, or the generator.
  unfoldable pub acquire_fallback :
      Services Material
      → Pool Material
      → PoolError
      → Result PoolError Material
      → Pool Material × Result PoolError Material
  unfolding finish_synchronous_acquire sync_generate
  acquire_fallback s p x generated =
      let p = record p { empty_count = incremented p.empty_count } in
      if not p.cfg.sync_fallback_on_empty
      then fail_acquire p x
      else finish_synchronous_acquire (record p { sync_fallback = incremented p.sync_fallback })
          (sync_generate s generated)

  -- `timeout` is the error of the context if the `select` takes it; otherwise the call takes an
  -- item, and none is the value while there is none and it waits.
  unfoldable pub acquire :
      Services Material
      → Pool Material
      → Option PoolError
      → Result PoolError Material
      → Option (Pool Material × Result PoolError Material)
  unfolding acquire_fallback take_item finish_synchronous_acquire sync_generate
  acquire s p timeout generated =
      if p.closed
      then some (fail_acquire p pool_closed)
      else if not p.cfg.enabled
      then some (finish_synchronous_acquire p (sync_generate s generated))
      else if not p.started
      then some (acquire_fallback s p deadline_exceeded generated)
      else elim timeout [
        | some x ↦ some (acquire_fallback s p x generated)
        | none ↦ take_item s p p.inventory
      ]

  unfoldable pub pause_refill : Pool Material → Pool Material
  pause_refill p = record p { refill_paused = true }

  unfoldable pub resume_refill : Pool Material → Pool Material
  resume_refill p =
      if p.refill_paused then signal_refill (record p { refill_paused = false }) else p

  unfoldable pub close : Pool Material → Pool Material
  close p = record p { closed = true }

  -- The tests that end the loop of `ensureRefillWorkers`.
  unfoldable pub is_staffed : Pool Material → Bool
  is_staffed p =
      p.closed
      || p.refill_paused
      || leb p.cfg.max_concurrency p.in_flight
      || leb p.cfg.target_size (length p.inventory + p.in_flight)

  -- The loop, on fuel; every round starts one worker.
  unfoldable pub start_workers : ℕ → Pool Material → Pool Material
  unfolding is_staffed
  start_workers zero p = p
  start_workers (suc fuel) p =
      let rest = start_workers fuel (record p { in_flight = p.in_flight + 1 }) in
      if is_staffed p then p else rest

  unfoldable pub ensure_refill_workers : Pool Material → Pool Material
  unfolding start_workers
  ensure_refill_workers p = start_workers p.cfg.max_concurrency p

  abbrev pub store_item : Pool Material → Item Material → Pool Material
  store_item p it =
      if ltb (length p.inventory) p.cfg.target_size
      then record p {
        inventory = p.inventory ++ it ∷ [];
        generations_ok = incremented p.generations_ok;
      }
      else p

  -- The end of `generateOne` but for what it defers: the counters, and the push of an item.
  abbrev pub after_generation : Pool Material → Generation Material → Pool Material
  after_generation p stopped = p
  after_generation p failing = record p { generations_failed = incremented p.generations_failed }
  after_generation p (stored it) = store_item p it

  -- What `generateOne` defers.
  abbrev pub worker_ended : Pool Material → Pool Material
  worker_ended p = signal_refill (record p { in_flight = p.in_flight - 1 })

  -- How a worker ends. `run_ended` says whether `runCtx` has ended when the generator returns,
  -- `dropped` whether the last `select` takes that end, `saved` is what the cache answers.
  unfoldable pub generation :
      Services Material
      → Pool Material
      → Bool
      → Result PoolError Material
      → Result PoolError Bytes
      → Bool
      → Generation Material
  generation s p run_ended (err x) saved dropped =
      if run_ended && is_context_error x then stopped else failing
  generation s p run_ended (ok m) saved dropped =
      if not (s.validate m) then failing else elim (cache_path_of p.cfg.file_cache_enabled saved) [
        | none ↦ failing
        | some path ↦ if dropped then stopped else stored (record { params = m; cache_path = path })
      ]
