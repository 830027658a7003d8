-- ===== src/Preparams/Pool/Deficit.antt =====
-- How many workers a refill starts (`ensureRefillWorkers` of internal/preparams/pool.go).
use brosettlement_mpc_core.Base.{
  ℕ, zero, suc, ◌+◌, ◌-◌, ◌≤◌, ◌≡◌, refl, ap, ◌∙◌, inl, inr, true, false, ◌||◌, leb, if◌then◌else◌,
  length, Bool-cases, arith,
}
use brosettlement_mpc_core.Preparams.Pool.{Pool, is_staffed, start_workers, ensure_refill_workers}

abbrev pub least : ℕ → ℕ → ℕ
least a b = if leb a b then a else b

module _ {Material : Type 0} where
  -- The workers that the limit leaves, and those that the target lacks: the fewer of the two.
  abbrev pub lacking : Pool Material → ℕ
  lacking p =
      least (p.cfg.max_concurrency - p.in_flight)
        (p.cfg.target_size - (length p.inventory + p.in_flight))

  abbrev pub with_workers : Pool Material → ℕ → Pool Material
  with_workers p n = record p { in_flight = n }

  staffed_lacking :
      (p : Pool Material)
      → (p.closed || p.refill_paused) ≡ false
      → is_staffed p ≡ true
      → lacking p ≡ 0
  unfolding is_staffed
  staffed_lacking p runs h = ground (arith, runs, h)

  unstaffed_lacking :
      (p : Pool Material)
      → is_staffed p ≡ false
      → lacking p ≡ suc (lacking (with_workers p (p.in_flight + 1)))
  unfolding is_staffed
  unstaffed_lacking p h = ground (arith, h)

  start_workers-idle :
      (fuel : ℕ) (p : Pool Material)
      → (p.closed || p.refill_paused) ≡ true
      → start_workers fuel p ≡ p
  unfolding start_workers
  start_workers-idle zero p idle = refl
  start_workers-idle (suc fuel) p idle =
      let staffed : is_staffed p ≡ true = unfold is_staffed in ground (arith, idle) in
      rw staffed refl

  start_workers-lacking :
      (fuel : ℕ) (p : Pool Material)
      → (p.closed || p.refill_paused) ≡ false
      → p.cfg.max_concurrency ≤ p.in_flight + fuel
      → start_workers fuel p ≡ with_workers p (p.in_flight + lacking p)
  unfolding start_workers
  start_workers-lacking zero p runs h = ap (with_workers p) (ground (arith, h))
  start_workers-lacking (suc fuel) p runs h = elim (Bool-cases (is_staffed p)) [
    | inl staffed ↦
        let none_lacks = staffed_lacking p runs staffed in
        rw staffed (ap (with_workers p) (omega (arith, none_lacks)))
    | inr more ↦
        let one_less = unstaffed_lacking p more in
        rw more (
          start_workers-lacking fuel (with_workers p (p.in_flight + 1)) runs (omega (arith, h))
          ∙ ap (with_workers p) (omega (arith, one_less)))
  ]

  -- A refill of a pool that is closed or paused starts nothing. Any other starts as many workers as
  -- the items and workers together lack to the target size, but no more than the limit of the
  -- workers leaves; it changes nothing else.
  pub ensure_refill_workers-lacking :
      (p : Pool Material)
      → ensure_refill_workers p
        ≡ (if p.closed || p.refill_paused then p else with_workers p (p.in_flight + lacking p))
  unfolding ensure_refill_workers
  ensure_refill_workers-lacking p = elim (Bool-cases (p.closed || p.refill_paused)) [
    | inl idle ↦ rw idle (start_workers-idle p.cfg.max_concurrency p idle)
    | inr runs ↦ rw runs (start_workers-lacking p.cfg.max_concurrency p runs (omega arith))
  ]
