-- ===== src/Text/Split.antt =====
-- Splitting and joining at a byte undo each other.
use mathlib.Core.List.{cons-ne-nil}
use brosettlement_mpc_core.Base.{
  ℕ, ◌≡◌, ◌≢◌, refl, inl, inr, List, [], ◌∷◌, ◌++◌, Bytes, arith, All, Bool-cases, ◌==◌, ==_iff,
}
use brosettlement_mpc_core.Text.{split, join, cons_head}

abbrev pub Lacks : ℕ → Bytes → Type 0
Lacks sep = All (λ c. c ≢ sep)

pub split-Lacks : (sep : ℕ) (p : Bytes) → Lacks sep p → split sep p ≡ p ∷ []
unfolding split
split-Lacks sep [] h = refl
split-Lacks sep (c ∷ p) (hc, hp) = ground (arith, split-Lacks sep p hp)

pub split-append :
    (sep : ℕ) (p s : Bytes) → Lacks sep p → split sep (p ++ sep ∷ s) ≡ p ∷ split sep s
unfolding split
split-append sep [] s h = ground arith
split-append sep (c ∷ p) s (hc, hp) = ground (arith, split-append sep p s hp)

pub split-join :
    (sep : ℕ) (p : Bytes) (ps : List Bytes)
    → All (Lacks sep) (p ∷ ps)
    → split sep (join sep (p ∷ ps)) ≡ p ∷ ps
unfolding join
split-join sep p [] (hp, _) = split-Lacks sep p hp
split-join sep p (q ∷ ps) (hp, hs) =
    ground (arith, split-append sep p (join sep (q ∷ ps)) hp, split-join sep q ps hs)

pub split-ne-nil : (sep : ℕ) (s : Bytes) → split sep s ≢ []
unfolding split
split-ne-nil sep [] = cons-ne-nil [] []
split-ne-nil sep (c ∷ s) = ground (arith, split-ne-nil sep s)

join-nil_cons : (sep : ℕ) (ps : List Bytes) → ps ≢ [] → join sep ([] ∷ ps) ≡ sep ∷ join sep ps
unfolding join
join-nil_cons sep [] h = absurd (h refl)
join-nil_cons sep (p ∷ ps) h = refl

join-cons_head :
    (sep c : ℕ) (ps : List Bytes) → ps ≢ [] → join sep (cons_head c ps) ≡ c ∷ join sep ps
unfolding join
join-cons_head sep c [] h = absurd (h refl)
join-cons_head sep c (p ∷ []) h = refl
join-cons_head sep c (p ∷ q ∷ ps) h = refl

pub join-split : (sep : ℕ) (s : Bytes) → join sep (split sep s) ≡ s
unfolding split
join-split sep [] = unfold join in refl
join-split sep (c ∷ s) = elim (Bool-cases (c == sep)) [
  | inl e ↦ rw e (
      cc (
        join-nil_cons sep (split sep s) (split-ne-nil sep s),
        join-split sep s,
        (==_iff c sep).0 e,
      ))
  | inr e ↦ rw e (cc (join-cons_head sep c (split sep s) (split-ne-nil sep s), join-split sep s))
]
