-- ===== src/Preparams/Handle/Single.antt =====
-- The pre-parameters of a handle are handed out once, and only to the owner.
use brosettlement_mpc_core.Base.{
  ℕ, ◌≡◌, refl, sym, ap, ◌∙◌, ◌⊎◌, inl, inr, true, false, ◌==◌, ==_iff, Option, none, some, List,
  [], ◌∷◌, Bool-cases, Result, ok, err,
}
use brosettlement_mpc_core.Execution.State.{incremented}
use brosettlement_mpc_core.Preparams.Handle.{
  HandleError, invalid_handle, foreign_handle, handle_consumed, handle_discarded, HandleState,
  invalid, acquired, consumed, discarded, HandleMetrics, Store, count, add_consumed, add_discarded,
  add_conflict, Handle, valid_locked, discard, consume, Operation, consume_by, discard_by_owner,
  operate,
}

-- A counter of other events leaves the count of the consumed.
count-consumed_count :
    (store : Store) (b c : ℕ) (f : HandleMetrics → HandleMetrics)
    → ((m : HandleMetrics) → (f m).consumed_count ≡ m.consumed_count)
    → (count store c f b).consumed_count ≡ (store b).consumed_count
unfolding count
count-consumed_count store b c f h = elim (Bool-cases (b == c)) [
  | inl same ↦ rw same (h (store b))
  | inr other ↦ rw other refl
]

count-same :
    (store : Store) (b : ℕ) (f : HandleMetrics → HandleMetrics) → count store b f b ≡ f (store b)
unfolding count
count-same store b f = rw ((==_iff b b).1 refl) refl

module _ (Material : Type 0) where
  abbrev spent : Option ℕ → HandleState → Handle Material
  spent b s = record { binding = b; state = s; material = none }

  abbrev fresh_handle : ℕ → Material → Handle Material
  fresh_handle b m = record { binding = some b; state = acquired; material = some m }

  -- An operation that hands out nothing, on a handle that it leaves, and no count of consumption.
  IsIdle :
      ℕ → Handle Material → Store → (Handle Material × Store) × Result HandleError Material → Type 0
  IsIdle b h store r =
      (store' : Store) × (x : HandleError) × (r ≡ ((h, store'), err x))
      × ((store' b).consumed_count ≡ (store b).consumed_count)

  IsIdle-conflict :
      (b c : ℕ) (h : Handle Material) (store : Store) (x : HandleError)
      → IsIdle b h store ((h, count store c add_conflict), err x)
  unfolding IsIdle
  IsIdle-conflict b c h store x =
      (count store c add_conflict, x, refl, count-consumed_count store b c add_conflict (λ m. refl))

  spent-consume :
      (b : ℕ) (c hb : Option ℕ) (s : HandleState) (store : Store)
      → IsIdle b (spent hb s) store (consume {Material = Material} c (spent hb s) store)
  unfolding consume valid_locked IsIdle
  spent-consume b none hb s store = (store, invalid_handle, refl, refl)
  spent-consume b (some c) none s store = (store, invalid_handle, refl, refl)
  spent-consume b (some c) (some d) invalid store = (store, invalid_handle, refl, refl)
  spent-consume b (some c) (some d) acquired store = (store, invalid_handle, refl, refl)
  spent-consume b (some c) (some d) consumed store = elim (Bool-cases (d == c)) [
    | inl own ↦ rw own (IsIdle-conflict b c (spent (some d) consumed) store handle_consumed)
    | inr foreign ↦ rw foreign (store, foreign_handle, refl, refl)
  ]
  spent-consume b (some c) (some d) discarded store = elim (Bool-cases (d == c)) [
    | inl own ↦ rw own (IsIdle-conflict b c (spent (some d) discarded) store handle_discarded)
    | inr foreign ↦ rw foreign (store, foreign_handle, refl, refl)
  ]

  spent-discard :
      (hb : Option ℕ) (s : HandleState) (store : Store)
      → (discard {Material = Material} (spent hb s) store).0 ≡ (spent hb s, store)
  unfolding discard valid_locked
  spent-discard none s store = refl
  spent-discard (some d) invalid store = refl
  spent-discard (some d) acquired store = refl
  spent-discard (some d) consumed store = refl
  spent-discard (some d) discarded store = refl

  -- The answers of a sequence of operations: nothing, or the pre-parameters once, and counted.
  abbrev pub NothingGiven : ℕ → Store → (Handle Material × Store) × List Material → Type 0
  NothingGiven b store r = (r.1 ≡ []) × ((r.0.1 b).consumed_count ≡ (store b).consumed_count)

  abbrev pub GivenOnce : ℕ → Material → Store → (Handle Material × Store) × List Material → Type 0
  GivenOnce b m store r =
      (r.1 ≡ m ∷ []) × ((r.0.1 b).consumed_count ≡ incremented (store b).consumed_count)

  idle-operate :
      (c : Option ℕ) (h : Handle Material) (store store' : Store) (x : HandleError)
      (ops : List Operation)
      → consume c h store ≡ ((h, store'), err x)
      → operate h store (consume_by c ∷ ops) ≡ operate h store' ops
  unfolding operate
  idle-operate c h store store' x ops e = rw e refl

  discarded-operate :
      (h h' : Handle Material) (store store' : Store) (ops : List Operation)
      → (discard h store).0 ≡ (h', store')
      → operate h store (discard_by_owner ∷ ops) ≡ operate h' store' ops
  unfolding operate
  discarded-operate h h' store store' ops e = ap (λ r. operate r.0 r.1 ops) e

  spent-operate :
      (b : ℕ) (hb : Option ℕ) (s : HandleState) (store : Store) (ops : List Operation)
      → NothingGiven b store (operate (spent hb s) store ops)
  unfolding IsIdle
  spent-operate b hb s store [] = unfold operate in (refl, refl)
  spent-operate b hb s store (consume_by c ∷ ops) =
      let (store', x, e, kept) = spent-consume b c hb s store in
      let (empty, same) = spent-operate b hb s store' ops in
      rw (idle-operate c (spent hb s) store store' x ops e) (empty, same ∙ kept)
  spent-operate b hb s store (discard_by_owner ∷ ops) =
      rw (discarded-operate (spent hb s) (spent hb s) store store ops (spent-discard hb s store))
        (spent-operate b hb s store ops)

  pending-discard :
      (b : ℕ) (m : Material) (store : Store)
      → (discard (fresh_handle b m) store).0
        ≡ (spent (some b) discarded, count store b add_discarded)
  unfolding discard valid_locked
  pending-discard b m store = refl

  owner-consume :
      (b c : ℕ) (m : Material) (store : Store)
      → (b == c) ≡ true
      → consume (some c) (fresh_handle b m) store
        ≡ ((spent (some b) consumed, count store c add_consumed), ok m)
  unfolding consume valid_locked
  owner-consume b c m store own = rw own refl

  stranger-consume :
      (b c : ℕ) (m : Material) (store : Store)
      → (b == c) ≡ false
      → consume (some c) (fresh_handle b m) store ≡ ((fresh_handle b m, store), err foreign_handle)
  unfolding consume valid_locked
  stranger-consume b c m store foreign = rw foreign refl

  owner-operate :
      (c : Option ℕ) (h h' : Handle Material) (store store' : Store) (m : Material)
      (ops : List Operation)
      → consume c h store ≡ ((h', store'), ok m)
      → operate h store (consume_by c ∷ ops)
        ≡ ((operate h' store' ops).0, m ∷ (operate h' store' ops).1)
  unfolding operate
  owner-operate c h h' store store' m ops e = rw e refl

  -- However the services use a new handle, its pre-parameters are handed out at most once, and
  -- the counter of its owner says how often.
  pub operate-GivenOnce :
      (b : ℕ) (m : Material) (store : Store) (ops : List Operation)
      → NothingGiven b store (operate (fresh_handle b m) store ops)
        ⊎ GivenOnce b m store (operate (fresh_handle b m) store ops)
  operate-GivenOnce b m store [] = unfold operate in inl (refl, refl)
  operate-GivenOnce b m store (consume_by none ∷ ops) =
      rw
        (idle-operate none (fresh_handle b m) store store invalid_handle ops
          (unfold consume in refl))
        (operate-GivenOnce b m store ops)
  operate-GivenOnce b m store (consume_by (some c) ∷ ops) = elim (Bool-cases (b == c)) [
    | inr foreign ↦
        rw
          (idle-operate (some c) (fresh_handle b m) store store foreign_handle ops
            (stranger-consume b c m store foreign))
          (operate-GivenOnce b m store ops)
    | inl own ↦
        let (empty, same) = spent-operate b (some b) consumed (count store c add_consumed) ops in
        let at_owner : count store c add_consumed b ≡ add_consumed (store b) =
          ap (λ d. count store d add_consumed b) (sym ((==_iff b c).0 own))
          ∙ count-same store b add_consumed in
        rw
          (owner-operate (some c) (fresh_handle b m) _ store _ m ops
            (owner-consume b c m store own))
          (inr (ap (◌∷◌ m) empty, same ∙ ap (λ n. n.consumed_count) at_owner))
  ]
  operate-GivenOnce b m store (discard_by_owner ∷ ops) =
      let (empty, same) = spent-operate b (some b) discarded (count store b add_discarded) ops in
      rw
        (discarded-operate (fresh_handle b m) (spent (some b) discarded) store
          (count store b add_discarded) ops (pending-discard b m store))
        (inl (empty, same ∙ count-consumed_count store b b add_discarded (λ n. refl)))
