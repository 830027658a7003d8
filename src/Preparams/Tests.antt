-- ===== src/Preparams/Tests.antt =====
-- Runs of handles and pools on concrete inputs, and the instances of the theorems about them.
use brosettlement_mpc_core.Base.{
  false, ◌≡◌, refl, ◌⊎◌, true, ◌+◌, ◌||◌, none, some, List, [], ◌∷◌, Bytes, codes, ok, err, ◌=?◌,
  if◌then◌else◌,
}
use brosettlement_mpc_core.Preparams.Handle.{
  Store, Handle, acquired, operate, consume_by, discard_by_owner, consume, valid_locked, count,
}
use brosettlement_mpc_core.Preparams.Handle.Single.{NothingGiven, GivenOnce, operate-GivenOnce}
use brosettlement_mpc_core.Preparams.Config.{
  default_config, normalize_config, IsWorkable, normalize_config-IsWorkable,
}
use brosettlement_mpc_core.Preparams.Pool.{
  generation, pool_closed, Pool, Item, Services, stored, new_pool, try_acquire, take_item,
  finish_item, is_staffed, start_workers, ensure_refill_workers,
}
use brosettlement_mpc_core.Preparams.Pool.Refill.{
  Step, round_step, generation_step, end_step, steps, steps-IsStocked, new_pool-IsStocked,
}
use brosettlement_mpc_core.Preparams.Pool.Stock.{Running, IsStocked}
use brosettlement_mpc_core.Preparams.Pool.Deficit.{
  with_workers, lacking, ensure_refill_workers-lacking,
}
use brosettlement_mpc_core.Preparams.Pool.Valid.{IsHandedOut, IsGenerated, try_acquire-IsHandedOut}

abbrev zeros : Store
zeros b = record {
  consumed_count = 0;
  discarded_before_start_count = 0;
  consume_conflict_count = 0;
}

abbrev handle : Handle Bytes
handle = record { binding = some 7; state = acquired; material = some (codes "pre") }

-- A stranger gets nothing, the owner gets the pre-parameters once.
gives_once :
    (operate handle zeros (consume_by (some 3) ∷ consume_by (some 7) ∷ consume_by (some 7) ∷ [])).1
    ≡ codes "pre" ∷ []
unfolding operate consume valid_locked count
gives_once = refl

operate-GivenOnce_example :
    NothingGiven Bytes 7 zeros (operate handle zeros (consume_by (some 7) ∷ discard_by_owner ∷ []))
    ⊎ GivenOnce Bytes 7
        (codes "pre")
        zeros
        (operate handle zeros (consume_by (some 7) ∷ discard_by_owner ∷ []))
operate-GivenOnce_example =
    operate-GivenOnce Bytes 7 (codes "pre") zeros (consume_by (some 7) ∷ discard_by_owner ∷ [])

normalize_config-IsWorkable_example :
    IsWorkable (normalize_config (record default_config { target_size = 0; max_concurrency = 9 }))
normalize_config-IsWorkable_example =
    normalize_config-IsWorkable (record default_config { target_size = 0; max_concurrency = 9 })

abbrev services : Services Bytes
services = record { validate = λ m. true; remove_file = λ path. none }

abbrev item : Item Bytes
item = record { params = codes "pre"; cache_path = [] }

abbrev pool : Pool Bytes
pool = record (new_pool default_config) { inventory = item ∷ [] }

takes : (try_acquire services pool none (err pool_closed)).1 ≡ ok (codes "pre")
unfolding try_acquire take_item finish_item new_pool normalize_config ◌=?◌
takes = refl

try_acquire-IsHandedOut_example :
    IsHandedOut services pool (try_acquire services pool none (err pool_closed)).0 (codes "pre")
    ⊎ IsGenerated services pool
        (try_acquire services pool none (err pool_closed)).0
        (codes "pre")
        (err pool_closed)
try_acquire-IsHandedOut_example =
    try_acquire-IsHandedOut services pool none (err pool_closed) (codes "pre") takes

ensure_refill_workers-lacking_example : ensure_refill_workers pool ≡ (
    if pool.closed || pool.refill_paused
    then pool
    else with_workers pool (pool.in_flight + lacking pool))
ensure_refill_workers-lacking_example = ensure_refill_workers-lacking pool

lacks_one : (ensure_refill_workers pool).in_flight ≡ 1
unfolding ensure_refill_workers start_workers is_staffed new_pool normalize_config
lacks_one = refl

abbrev new_running : Running Bytes
new_running = record { pool = new_pool default_config; generating = 0; ending = 0 }

abbrev life : List (Step Bytes)
life = round_step ∷ generation_step (stored item) ∷ round_step ∷ end_step ∷ []

steps-IsStocked_example : IsStocked (steps services new_running life)
steps-IsStocked_example =
    steps-IsStocked services new_running life (new_pool-IsStocked default_config)

generated : generation services pool false (ok (codes "pre")) (ok []) false ≡ stored item
unfolding generation new_pool normalize_config
generated = refl
