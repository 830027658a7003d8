-- ===== src/Preparams/Pool/Stock.antt =====
-- What is kept of the stock of a pool, and that acquisitions keep it (internal/preparams/pool.go).
use brosettlement_mpc_core.Base.{
  ℕ, ◌∙◌, ◌+◌, ◌≤◌, ◌≡◌, refl, sym, subst, inl, inr, Bool, true, false, not, ◌&&◌, Option, none,
  some, List, [], ◌∷◌, ◌=?◌, if◌then◌else◌, Bool-cases, Option-cases, Result, ok, err, length,
  arith,
}
use brosettlement_mpc_core.Execution.State.{incremented}
use brosettlement_mpc_core.Preparams.Pool.{
  PoolError, deadline_exceeded, signal_refill, Item, Services, Pool, finish_synchronous_acquire,
  sync_generate, removal, finish_item, signalled, take_item, or_empty, try_acquire,
  acquire_fallback, acquire,
}

-- A pool, with its workers that still generate, and those that are left with what they defer.
pub record Running (Material : Type 0) : Type 0 where
  pub pool : Pool Material
  pub generating : ℕ
  pub ending : ℕ

module _ {Material : Type 0} where
  -- The items and the workers that generate are together within the target, and the counter of the
  -- workers is right and within its limit.
  pub record IsStocked (r : Running Material) : Type 0 where
    pub planned : length r.pool.inventory + r.generating ≤ r.pool.cfg.target_size
    pub counted : r.pool.in_flight ≡ r.generating + r.ending
    pub workers : r.pool.in_flight ≤ r.pool.cfg.max_concurrency

  -- The same settings, with no more items and no other number of workers.
  abbrev pub IsFewer : Pool Material → Pool Material → Type 0
  IsFewer p q =
      (q.cfg ≡ p.cfg) × (length q.inventory ≤ length p.inventory) × (q.in_flight ≡ p.in_flight)

  pub fewer-IsStocked :
      (r : Running Material) (q : Pool Material)
      → IsFewer r.pool q
      → IsStocked r
      → IsStocked (record r { pool = q })
  fewer-IsStocked r q (same, less, still) h = record {
    planned =
        subst (λ c. length q.inventory + r.generating ≤ c.target_size) (sym same)
          (omega (arith, h.planned, less));
    counted = still ∙ h.counted;
    workers =
        subst (λ c. q.in_flight ≤ c.max_concurrency) (sym same) (omega (arith, h.workers, still));
  }

  finish_synchronous_acquire-IsFewer :
      (p : Pool Material) (r : Result PoolError Material)
      → IsFewer p (finish_synchronous_acquire p r).0
  unfolding finish_synchronous_acquire
  finish_synchronous_acquire-IsFewer p (err x) = (refl, omega arith, refl)
  finish_synchronous_acquire-IsFewer p (ok m) = (refl, omega arith, refl)

  finish_item-IsFewer :
      (s : Services Material) (p : Pool Material) (it : Item Material)
      → IsFewer p (finish_item s p it).0
  unfolding finish_item
  finish_item-IsFewer s p it = elim (Bool-cases (s.validate it.params)) [
    | inr broken ↦ rw broken (refl, omega arith, refl)
    | inl valid ↦ elim (Bool-cases (p.cfg.file_cache_enabled && (it.cache_path =? []))) [
      | inl missing ↦ rw (valid, missing) (refl, omega arith, refl)
      | inr given ↦ elim (Option-cases (removal s it.cache_path)) [
        | inl removed ↦ rw (valid, given, removed) (refl, omega arith, refl)
        | inr (x, failed) ↦ rw (valid, given, failed) (refl, omega arith, refl)
      ]
    ]
  ]

  either-IsFewer :
      (p : Pool Material) (b : Bool) (q r : Pool Material × Result PoolError Material)
      → IsFewer p q.0
      → IsFewer p r.0
      → IsFewer p (if b then q else r).0
  either-IsFewer p true q r hq hr = hq
  either-IsFewer p false q r hq hr = hr

  either_pool-IsFewer :
      (p : Pool Material) (b : Bool) (q r : Pool Material)
      → IsFewer p q
      → IsFewer p r
      → IsFewer p (if b then q else r)
  either_pool-IsFewer p true q r hq hr = hq
  either_pool-IsFewer p false q r hq hr = hr

  signalled-IsFewer :
      (p : Pool Material) (r : Pool Material × Result PoolError Material)
      → IsFewer p r.0
      → IsFewer p (signalled r).0
  signalled-IsFewer p (q, r) h =
      either_pool-IsFewer p q.cfg.auto_refill_on_acquire (signal_refill q) q h h

  -- An acquisition that took nothing, or one that is fewer.
  abbrev pub IsTaken : Pool Material → Option (Pool Material × Result PoolError Material) → Type 0
  IsTaken p none = Unit {0}
  IsTaken p (some r) = IsFewer p r.0

  take_item-IsTaken :
      (s : Services Material) (p : Pool Material) (items : List (Item Material))
      → length items ≤ length p.inventory
      → IsTaken p (take_item s p items)
  unfolding take_item
  take_item-IsTaken s p [] h = tt
  take_item-IsTaken s p (it ∷ rest) h =
      let (same, less, still) = finish_item-IsFewer s (record p { inventory = rest }) it in
      signalled-IsFewer p (finish_item s (record p { inventory = rest }) it)
        (same, omega (arith, less, h), still)

  or_empty-IsFewer :
      (p : Pool Material) (o : Option (Pool Material × Result PoolError Material))
      → IsTaken p o
      → IsFewer p (or_empty p o).0
  or_empty-IsFewer p none h = (refl, omega arith, refl)
  or_empty-IsFewer p (some r) h = h

  pub try_acquire-IsFewer :
      (s : Services Material) (p : Pool Material) (ctx_err : Option PoolError)
      (generated : Result PoolError Material)
      → IsFewer p (try_acquire s p ctx_err generated).0
  unfolding try_acquire
  try_acquire-IsFewer s p (some x) generated = (refl, omega arith, refl)
  try_acquire-IsFewer s p none generated =
      either-IsFewer p p.closed _ _ (refl, omega arith, refl)
        (either-IsFewer p (not p.cfg.enabled) _ _
          (finish_synchronous_acquire-IsFewer p (sync_generate s generated))
          (or_empty-IsFewer p (take_item s p p.inventory)
            (take_item-IsTaken s p p.inventory (omega arith))))

  acquire_fallback-IsFewer :
      (s : Services Material) (p : Pool Material) (x : PoolError)
      (generated : Result PoolError Material)
      → IsFewer p (acquire_fallback s p x generated).0
  unfolding acquire_fallback
  acquire_fallback-IsFewer s p x generated =
      either-IsFewer p (not p.cfg.sync_fallback_on_empty) _ _ (refl, omega arith, refl)
        (finish_synchronous_acquire-IsFewer
          (record p {
            empty_count = incremented p.empty_count;
            sync_fallback = incremented p.sync_fallback;
          })
          (sync_generate s generated))

  either-IsTaken :
      (p : Pool Material) (b : Bool) (o o' : Option (Pool Material × Result PoolError Material))
      → IsTaken p o
      → IsTaken p o'
      → IsTaken p (if b then o else o')
  either-IsTaken p true o o' h h' = h
  either-IsTaken p false o o' h h' = h'

  pub acquire-IsTaken :
      (s : Services Material) (p : Pool Material) (timeout : Option PoolError)
      (generated : Result PoolError Material)
      → IsTaken p (acquire s p timeout generated)
  unfolding acquire
  acquire-IsTaken s p timeout generated =
      either-IsTaken p p.closed _ _ (refl, omega arith, refl)
        (either-IsTaken p (not p.cfg.enabled) _ _
          (finish_synchronous_acquire-IsFewer p (sync_generate s generated))
          (either-IsTaken p (not p.started) _ _
            (acquire_fallback-IsFewer s p deadline_exceeded generated) (waited timeout)))
    where
      waited :
          (o : Option PoolError)
          → IsTaken p (elim o [
            | some x ↦ some (acquire_fallback s p x generated)
            | none ↦ take_item s p p.inventory
          ])
      waited none = take_item-IsTaken s p p.inventory (omega arith)
      waited (some x) = acquire_fallback-IsFewer s p x generated
