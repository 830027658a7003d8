-- ===== src/Preparams/Handle.antt =====
-- internal/preparams/handle.go: a handle gives its pre-parameters to one key generation. A binding
-- is a number that stands for the pointer; its counters stand in a store. The mutex makes each
-- operation one step. `nil` is none.
pub mod Single
use brosettlement_mpc_core.Base.{
  ℕ, ◌+◌, ◌%◌, ◌≡◌, refl, Bool, true, false, not, ◌||◌, ◌==◌, Option, none, some, List, [], ◌∷◌,
  if◌then◌else◌, Result, ok, err,
}
use brosettlement_mpc_core.Execution.State.{incremented}

pub data HandleError : Type 0 where
  invalid_handle : HandleError
  foreign_handle : HandleError
  handle_consumed : HandleError
  handle_discarded : HandleError

pub data HandleState : Type 0 where
  invalid : HandleState
  acquired : HandleState
  consumed : HandleState
  discarded : HandleState

-- The counters of a `ServiceBinding`, as `Snapshot` gives them.
pub record HandleMetrics : Type 0 where
  pub consumed_count : ℕ  -- uint64
  pub discarded_before_start_count : ℕ  -- uint64
  pub consume_conflict_count : ℕ  -- uint64

abbrev pub Store : Type 0
Store = ℕ → HandleMetrics

unfoldable pub snapshot : Store → Option ℕ → HandleMetrics
snapshot store none = record {
  consumed_count = 0;
  discarded_before_start_count = 0;
  consume_conflict_count = 0;
}
snapshot store (some b) = store b

unfoldable pub count : Store → ℕ → (HandleMetrics → HandleMetrics) → Store
count store b f c = if c == b then f (store c) else store c

abbrev pub add_consumed : HandleMetrics → HandleMetrics
add_consumed m = record m { consumed_count = incremented m.consumed_count }

abbrev pub add_discarded : HandleMetrics → HandleMetrics
add_discarded m = record m {
  discarded_before_start_count = incremented m.discarded_before_start_count;
}

abbrev pub add_conflict : HandleMetrics → HandleMetrics
add_conflict m = record m { consume_conflict_count = incremented m.consume_conflict_count }

pub record Handle (Material : Type 0) : Type 0 where
  pub binding : Option ℕ
  pub state : HandleState
  pub material : Option Material

abbrev pub same_binding : Option ℕ → ℕ → Bool
same_binding none b = false
same_binding (some c) b = c == b

module _ {Material : Type 0} where
  unfoldable pub new_handle : Option ℕ → Option Material → Option (Handle Material)
  new_handle none material = none
  new_handle (some b) none = none
  new_handle (some b) (some m) =
      some (record { binding = some b; state = acquired; material = some m })

  -- The test of the fields: a binding, a state, and the pre-parameters if they are acquired.
  abbrev pub valid_fields : Option ℕ → HandleState → Option Material → Bool
  valid_fields none s material = false
  valid_fields (some b) invalid material = false
  valid_fields (some b) acquired none = false
  valid_fields (some b) acquired (some m) = true
  valid_fields (some b) consumed material = true
  valid_fields (some b) discarded material = true

  unfoldable pub valid_locked : Handle Material → Bool
  valid_locked h = valid_fields h.binding h.state h.material

  abbrev pub discard_state :
      Handle Material
      → ℕ
      → HandleState
      → Store
      → (Handle Material × Store) × Result HandleError (Unit {0})
  discard_state h b acquired store =
      ((record h { material = none; state = discarded }, count store b add_discarded), ok tt)
  discard_state h b discarded store = ((h, store), ok tt)
  discard_state h b consumed store = ((h, store), err handle_consumed)
  discard_state h b invalid store = ((h, store), err invalid_handle)

  -- The binding of a valid handle is not nil.
  unfoldable pub discard :
      Handle Material → Store → (Handle Material × Store) × Result HandleError (Unit {0})
  unfolding valid_locked
  discard h store =
      if not (valid_locked h) then ((h, store), err invalid_handle) else elim h.binding [
        | none ↦ ((h, store), err invalid_handle)
        | some b ↦ discard_state h b h.state store
      ]

  abbrev pub consume_material :
      Handle Material
      → ℕ
      → Option Material
      → Store
      → (Handle Material × Store) × Result HandleError Material
  consume_material h b none store = ((h, store), err invalid_handle)
  consume_material h b (some m) store =
      ((record h { material = none; state = consumed }, count store b add_consumed), ok m)

  -- The pre-parameters of a valid handle in the acquired state are not nil.
  abbrev pub consume_state :
      Handle Material
      → ℕ
      → HandleState
      → Store
      → (Handle Material × Store) × Result HandleError Material
  consume_state h b acquired store = consume_material h b h.material store
  consume_state h b consumed store = ((h, count store b add_conflict), err handle_consumed)
  consume_state h b discarded store = ((h, count store b add_conflict), err handle_discarded)
  consume_state h b invalid store = ((h, store), err invalid_handle)

  unfoldable pub consume :
      Option ℕ → Handle Material → Store → (Handle Material × Store) × Result HandleError Material
  unfolding valid_locked
  consume none h store = ((h, store), err invalid_handle)
  consume (some b) h store =
      if not (valid_locked h)
      then ((h, store), err invalid_handle)
      else if not (same_binding h.binding b)
      then ((h, store), err foreign_handle)
      else consume_state h b h.state store

-- What the services do with a handle, in the order of its mutex.
pub data Operation : Type 0 where
  consume_by : Option ℕ → Operation
  discard_by_owner : Operation

module _ {Material : Type 0} where
  abbrev pub given : Result HandleError Material → List Material → List Material
  given (ok m) ms = m ∷ ms
  given (err x) ms = ms

  -- The pre-parameters that a sequence of operations hands out, and the state it leaves.
  unfoldable pub operate :
      Handle Material → Store → List Operation → (Handle Material × Store) × List Material
  unfolding consume discard
  operate h store [] = ((h, store), [])
  operate h store (consume_by b ∷ ops) =
      let r = consume b h store in let rest = operate r.0.0 r.0.1 ops in (rest.0, given r.1 rest.1)
  operate h store (discard_by_owner ∷ ops) = let r = discard h store in operate r.0.0 r.0.1 ops
