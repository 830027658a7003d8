-- ===== src/Preparams/Pool/Refill.antt =====
-- What every sequence of the operations of a pool and of its workers keeps.
use brosettlement_mpc_core.Base.{
  ℕ, zero, suc, ◌+◌, ◌≤◌, ◌<◌, ◌≡◌, refl, sym, subst, inl, inr, false, Option, none, some, List, [],
  ◌∷◌, ltb, if◌then◌else◌, Result, length, length-append, Bool-cases, arith,
}
use brosettlement_mpc_core.Preparams.Config.{Config}
use brosettlement_mpc_core.Preparams.Pool.{
  PoolError, Item, Services, Pool, Generation, stopped, failing, stored, new_pool, try_acquire,
  acquire, pause_refill, resume_refill, close, is_staffed, after_generation, store_item,
  worker_ended,
}
use brosettlement_mpc_core.Preparams.Pool.Stock.{
  Running, IsStocked, IsTaken, IsFewer, fewer-IsStocked, try_acquire-IsFewer, acquire-IsTaken,
}

-- What is done to a pool. A round is one of the loop of `ensureRefillWorkers`; a generation is the
-- work of one worker up to what it defers, an end the rest.
pub data Step (Material : Type 0) : Type 0 where
  try_acquire_step : Option PoolError → Result PoolError Material → Step Material
  acquire_step : Option PoolError → Result PoolError Material → Step Material
  round_step : Step Material
  generation_step : Generation Material → Step Material
  end_step : Step Material
  pause_step : Step Material
  resume_step : Step Material
  close_step : Step Material

module _ {Material : Type 0} where
  abbrev pub acquired_or :
      Pool Material → Option (Pool Material × Result PoolError Material) → Pool Material
  acquired_or p none = p
  acquired_or p (some r) = r.0

  -- A round that starts a worker, unless a test ends the loop.
  abbrev pub refill_round : Running Material → Running Material
  refill_round r = if is_staffed r.pool then r else record r {
    pool = record r.pool { in_flight = r.pool.in_flight + 1 };
    generating = r.generating + 1;
  }

  -- Without a worker to take the step, nothing is done.
  abbrev pub generated : Running Material → ℕ → Generation Material → Running Material
  generated r zero g = r
  generated r (suc generating) g = record {
    pool = after_generation r.pool g;
    generating = generating;
    ending = r.ending + 1;
  }

  abbrev pub ended : Running Material → ℕ → Running Material
  ended r zero = r
  ended r (suc ending) = record r { pool = worker_ended r.pool; ending = ending }

  abbrev pub step : Services Material → Running Material → Step Material → Running Material
  step s r (try_acquire_step ctx_err generated) = record r {
    pool = (try_acquire s r.pool ctx_err generated).0;
  }
  step s r (acquire_step timeout generated) = record r {
    pool = acquired_or r.pool (acquire s r.pool timeout generated);
  }
  step s r round_step = refill_round r
  step s r (generation_step g) = generated r r.generating g
  step s r end_step = ended r r.ending
  step s r pause_step = record r { pool = pause_refill r.pool }
  step s r resume_step = record r { pool = resume_refill r.pool }
  step s r close_step = record r { pool = close r.pool }

  abbrev pub steps : Services Material → Running Material → List (Step Material) → Running Material
  steps s r [] = r
  steps s r (x ∷ xs) = steps s (step s r x) xs

  unstaffed_room :
      (p : Pool Material)
      → is_staffed p ≡ false
      → (p.in_flight < p.cfg.max_concurrency)
        × (length p.inventory + p.in_flight < p.cfg.target_size)
  unfolding is_staffed
  unstaffed_room p h = (ground (arith, h), ground (arith, h))

  refill_round-IsStocked : (r : Running Material) → IsStocked r → IsStocked (refill_round r)
  refill_round-IsStocked r h = elim (Bool-cases (is_staffed r.pool)) [
    | inl staffed ↦ rw staffed h
    | inr more ↦
        let (worker, place) = unstaffed_room r.pool more in
        rw more (record {
          planned = omega (arith, place, h.counted);
          counted = omega (arith, h.counted);
          workers = omega (arith, worker);
        })
  ]

  -- The same settings, with one item more at most and no other number of workers.
  abbrev IsGrown : Pool Material → Pool Material → Type 0
  IsGrown p q =
      (q.cfg ≡ p.cfg)
      × ((length q.inventory ≤ length p.inventory + 1) × (q.in_flight ≡ p.in_flight))

  store_item-IsGrown : (p : Pool Material) (it : Item Material) → IsGrown p (store_item p it)
  store_item-IsGrown p it = elim (Bool-cases (ltb (length p.inventory) p.cfg.target_size)) [
    | inl room ↦ rw room (refl, (omega (arith, length-append p.inventory (it ∷ [])), refl))
    | inr full ↦ rw full (refl, (omega arith, refl))
  ]

  after_generation-IsGrown :
      (p : Pool Material) (g : Generation Material) → IsGrown p (after_generation p g)
  after_generation-IsGrown p stopped = (refl, (omega arith, refl))
  after_generation-IsGrown p failing = (refl, (omega arith, refl))
  after_generation-IsGrown p (stored it) = store_item-IsGrown p it

  generated-IsStocked :
      (r : Running Material) (n : ℕ) (g : Generation Material)
      → r.generating ≡ n
      → IsStocked r
      → IsStocked (generated r n g)
  generated-IsStocked r zero g is h = h
  generated-IsStocked r (suc n) g is h =
      let (same, (less, still)) = after_generation-IsGrown r.pool g in
      let q = after_generation r.pool g in
      record {
        planned =
            subst (λ c. length q.inventory + n ≤ c.target_size) (sym same)
              (omega (arith, h.planned, less, is));
        counted = omega (arith, h.counted, still, is);
        workers =
            subst (λ c. q.in_flight ≤ c.max_concurrency) (sym same)
              (omega (arith, h.workers, still));
      }

  ended-IsStocked :
      (r : Running Material) (n : ℕ) → r.ending ≡ n → IsStocked r → IsStocked (ended r n)
  ended-IsStocked r zero is h = h
  ended-IsStocked r (suc n) is h = record {
    planned = h.planned;
    counted = omega (arith, h.counted, is);
    workers = omega (arith, h.workers);
  }

  resume_refill-IsFewer : (p : Pool Material) → IsFewer p (resume_refill p)
  unfolding resume_refill
  resume_refill-IsFewer p = elim (Bool-cases p.refill_paused) [
    | inl paused ↦ rw paused (refl, omega arith, refl)
    | inr runs ↦ rw runs (refl, omega arith, refl)
  ]

  taken-IsFewer :
      (p : Pool Material) (o : Option (Pool Material × Result PoolError Material))
      → IsTaken p o
      → IsFewer p (acquired_or p o)
  taken-IsFewer p none t = (refl, omega arith, refl)
  taken-IsFewer p (some r) t = t

  step-IsStocked :
      (s : Services Material) (r : Running Material) (x : Step Material)
      → IsStocked r
      → IsStocked (step s r x)
  step-IsStocked s r (try_acquire_step ctx_err generated) h =
      fewer-IsStocked r _ (try_acquire-IsFewer s r.pool ctx_err generated) h
  step-IsStocked s r (acquire_step timeout generated) h =
      fewer-IsStocked r _ (taken-IsFewer r.pool _ (acquire-IsTaken s r.pool timeout generated)) h
  step-IsStocked s r round_step h = refill_round-IsStocked r h
  step-IsStocked s r (generation_step g) h = generated-IsStocked r r.generating g refl h
  step-IsStocked s r end_step h = ended-IsStocked r r.ending refl h
  step-IsStocked s r pause_step h =
      fewer-IsStocked r (pause_refill r.pool) (unfold pause_refill in (refl, omega arith, refl)) h
  step-IsStocked s r resume_step h =
      fewer-IsStocked r (resume_refill r.pool) (resume_refill-IsFewer r.pool) h
  step-IsStocked s r close_step h =
      fewer-IsStocked r (close r.pool) (unfold close in (refl, omega arith, refl)) h

  -- Whatever is done to a stocked pool, in any order of the steps: its items and the workers that
  -- still generate are together within the target size; the counter of the workers is the number
  -- of those that generate or are about to end, and is within its limit.
  pub steps-IsStocked :
      (s : Services Material) (r : Running Material) (xs : List (Step Material))
      → IsStocked r
      → IsStocked (steps s r xs)
  steps-IsStocked s r [] h = h
  steps-IsStocked s r (x ∷ xs) h = steps-IsStocked s (step s r x) xs (step-IsStocked s r x h)

  -- A new pool is stocked.
  pub new_pool-IsStocked :
      (cfg : Config)
      → IsStocked (record { pool = new_pool {Material = Material} cfg; generating = 0; ending = 0 })
  unfolding new_pool
  new_pool-IsStocked cfg = record { planned = omega arith; counted = refl; workers = omega arith }
