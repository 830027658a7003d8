-- ===== src/Preparams/Pool/Valid.antt =====
-- What the pool hands out.
use brosettlement_mpc_core.Base.{
  Bytes, ap, Option-cases, ◌≡◌, refl, subst, ◌⊎◌, inl, inr, Bool, true, false, not, ◌&&◌, Option,
  none, some, List, [], ◌∷◌, ◌=?◌, if◌then◌else◌, Bool-cases, Result, ok, err,
}
use brosettlement_mpc_core.Execution.State.{incremented}
use brosettlement_mpc_core.Preparams.Pool.{
  stopped, stored, generation, is_context_error, cache_path_of, PoolError, invalid_cached,
  cache_path_required, Item, Services, Pool, fail_acquire, finish_synchronous_acquire,
  sync_generate, removal, finish_item, signalled, take_item, or_empty, try_acquire,
}

module _ {Material : Type 0} where
  -- Pre-parameters from the head of the inventory: valid, their cache file gone, the rest left.
  pub record IsHandedOut (s : Services Material) (p q : Pool Material) (m : Material) : Type 0 where
    pub item : Item Material
    pub rest : List (Item Material)
    pub head_item : p.inventory ≡ item ∷ rest
    pub same : item.params ≡ m
    pub valid : s.validate item.params ≡ true
    pub removed : removal s item.cache_path ≡ none
    pub left : q.inventory ≡ rest

  -- Pre-parameters that the generator gave: valid, and the inventory is left.
  pub record IsGenerated (s : Services Material) (p q : Pool Material) (m : Material)
      (generated : Result PoolError Material) : Type 0 where
    pub given : generated ≡ ok m
    pub valid : s.validate m ≡ true
    pub left : q.inventory ≡ p.inventory

  -- No answer, or one of the two.
  abbrev IsGood :
      Services Material
      → Pool Material
      → Result PoolError Material
      → Pool Material × Result PoolError Material
      → Type 0
  IsGood s p g (q, err x) = Unit {0}
  IsGood s p g (q, ok m) = IsHandedOut s p q m ⊎ IsGenerated s p q m g

  either-IsGood :
      (s : Services Material) (p : Pool Material) (g : Result PoolError Material) (b : Bool)
      (r r' : Pool Material × Result PoolError Material)
      → (b ≡ true → IsGood s p g r)
      → (b ≡ false → IsGood s p g r')
      → IsGood s p g (if b then r else r')
  either-IsGood s p g true r r' h h' = h refl
  either-IsGood s p g false r r' h h' = h' refl

  sync_generate-IsGood :
      (s : Services Material) (p : Pool Material) (g : Result PoolError Material)
      → IsGood s p g (finish_synchronous_acquire p (sync_generate s g))
  unfolding finish_synchronous_acquire sync_generate
  sync_generate-IsGood s p (err x) = tt
  sync_generate-IsGood s p (ok m) = elim (Bool-cases (s.validate m)) [
    | inl valid ↦ rw valid (inr (record { given = refl; valid = valid; left = refl }))
    | inr broken ↦ rw broken tt
  ]

  removed-IsGood :
      (s : Services Material) (p : Pool Material) (g : Result PoolError Material)
      (it : Item Material) (rest : List (Item Material)) (q : Pool Material)
      → p.inventory ≡ it ∷ rest
      → q.inventory ≡ rest
      → s.validate it.params ≡ true
      → (o : Option PoolError) → removal s it.cache_path ≡ o
      → IsGood s p g (
          signalled (elim o [
            | some x ↦ fail_acquire q x
            | none ↦ (record q { acquires = incremented q.acquires }, ok it.params)
          ]))
  removed-IsGood s p g it rest q here left valid (some x) e = tt
  removed-IsGood s p g it rest q here left valid none e = inl (record {
    item = it;
    rest = rest;
    head_item = here;
    same = refl;
    valid = valid;
    removed = e;
    left = refilled-left q.cfg.auto_refill_on_acquire;
  })
    where
      refilled-left :
          (b : Bool)
          → (if b
              then record q { acquires = incremented q.acquires; refill_signal = true }
              else record q { acquires = incremented q.acquires }).inventory
            ≡ rest
      refilled-left true = left
      refilled-left false = left

  take_item-IsGood :
      (s : Services Material) (p : Pool Material) (g : Result PoolError Material)
      (items : List (Item Material))
      → p.inventory ≡ items
      → IsGood s p g (or_empty p (take_item s p items))
  unfolding take_item finish_item
  take_item-IsGood s p g [] here = tt
  take_item-IsGood s p g (it ∷ rest) here =
      signalled_if (s.validate it.params) (p.cfg.file_cache_enabled && (it.cache_path =? [])) refl
    where
      signalled_if :
          (valid missing : Bool)
          → s.validate it.params ≡ valid
          → IsGood s p g (
              signalled (
                if not valid
                then fail_acquire (record p { inventory = rest }) invalid_cached
                else if missing
                then fail_acquire (record p { inventory = rest }) cache_path_required
                else elim (removal s it.cache_path) [
                  | some x ↦ fail_acquire (record p { inventory = rest }) x
                  | none ↦ (
                    record p { inventory = rest; acquires = incremented p.acquires },
                    ok it.params,
                  )
                ]))
      signalled_if false missing e = tt
      signalled_if true true e = tt
      signalled_if true false e =
          removed-IsGood s p g it rest (record p { inventory = rest }) here refl e
            (removal s it.cache_path) refl

  try_acquire-IsGood :
      (s : Services Material) (p : Pool Material) (ctx_err : Option PoolError)
      (g : Result PoolError Material)
      → IsGood s p g (try_acquire s p ctx_err g)
  unfolding try_acquire
  try_acquire-IsGood s p (some x) g = tt
  try_acquire-IsGood s p none g =
      either-IsGood s p g p.closed _ _ (λ e. tt)
        (λ e.
          either-IsGood s p g (not p.cfg.enabled) _ _ (λ e'. sync_generate-IsGood s p g)
            (λ e'. take_item-IsGood s p g p.inventory refl))

  good_answer :
      (s : Services Material) (p : Pool Material) (g : Result PoolError Material)
      (r : Pool Material × Result PoolError Material) (m : Material)
      → IsGood s p g r
      → r.1 ≡ ok m
      → IsHandedOut s p r.0 m ⊎ IsGenerated s p r.0 m g
  good_answer s p g (q, err x) m h e = cc
  good_answer s p g (q, ok m') m h e =
      subst (λ n. IsHandedOut s p q n ⊎ IsGenerated s p q n g) (ok_cancel e) h
    where
      ok_cancel : {a b : Material} → ◌≡◌ {A = Result PoolError Material} (ok a) (ok b) → a ≡ b
      ok_cancel q = cc

  -- Pre-parameters that `TryAcquire` gives are the valid ones at the head of the inventory, which
  -- loses them and whose cache file is removed, or valid ones from the generator.
  pub try_acquire-IsHandedOut :
      (s : Services Material) (p : Pool Material) (ctx_err : Option PoolError)
      (g : Result PoolError Material) (m : Material)
      → (try_acquire s p ctx_err g).1 ≡ ok m
      → IsHandedOut s p (try_acquire s p ctx_err g).0 m
        ⊎ IsGenerated s p (try_acquire s p ctx_err g).0 m g
  try_acquire-IsHandedOut s p ctx_err g m h =
      good_answer s p g (try_acquire s p ctx_err g) m (try_acquire-IsGood s p ctx_err g) h

  -- An item that a worker stores has valid pre-parameters, those that the generator gave.
  generation-valid :
      (s : Services Material) (p : Pool Material) (run_ended : Bool) (g : Result PoolError Material)
      (saved : Result PoolError Bytes) (dropped : Bool) (it : Item Material)
      → generation s p run_ended g saved dropped ≡ stored it
      → (g ≡ ok it.params) × (s.validate it.params ≡ true)
  unfolding generation
  generation-valid s p run_ended (err x) saved dropped it h =
      elim (Bool-cases (run_ended && is_context_error x)) [
        | inl ended ↦ absurd (cc (rw ended at h))
        | inr other ↦ absurd (cc (rw other at h))
      ]
  generation-valid s p run_ended (ok m) saved dropped it h = elim (Bool-cases (s.validate m)) [
    | inr broken ↦ absurd (cc (rw broken at h))
    | inl valid ↦ elim (Option-cases (cache_path_of p.cfg.file_cache_enabled saved)) [
      | inl unsaved ↦ absurd (cc (rw (valid, unsaved) at h))
      | inr (path, whole) ↦ stored_valid dropped path (rw (valid, whole) at h) valid
    ]
  ]
    where
      stored_valid :
          (b : Bool) (path : Bytes)
          → (if b then stopped else stored (record { params = m; cache_path = path })) ≡ stored it
          → s.validate m ≡ true
          → (◌≡◌ {A = Result PoolError Material} (ok m) (ok it.params))
            × (s.validate it.params ≡ true)
      stored_valid true path h' valid = absurd (cc)
      stored_valid false path h' valid =
          let same : m ≡ it.params = cc in
          (ap (λ n. ok n) same, subst (λ n. s.validate n ≡ true) same valid)
