-- ===== src/Derivation/Path/Marks.antt =====
-- Several marks at the end of one component of an account path (internal/tss/derivation/path.go).
use brosettlement_mpc_core.Base.{
  ℕ, ◌<◌, ◌≡◌, refl, ◌∙◌, ap, ◌⊎◌, Bool, true, false, ◌||◌, [], ◌∷◌, ◌++◌, Bytes, codes, arith,
  ◌==◌, ◌=?◌, ok, All, All-append, append-nil,
}
use brosettlement_mpc_core.Text.{ends_with, trim_suffix, contains, contains_any}
use brosettlement_mpc_core.Text.Decimal.{format_uint, format_uint-IsDigit, format_uint_leads}
use brosettlement_mpc_core.Derivation.Path.{hardened_start, normalize_account_path_component}
use brosettlement_mpc_core.Derivation.Path.Segment.{
  print_segment, ends_with-append, drop_last-append, finish_at, format_uint_unmarked, digit_plain,
  contains_any-All, All-map,
}

abbrev pub mark : Bool → ℕ → Bytes
mark true c = c ∷ []
mark false c = []

-- The marks that are given of H, h and ', in this order.
abbrev pub marked : Bytes → Bool → Bool → Bool → Bytes
marked s large small quote = ((s ++ mark large b'H') ++ mark small b'h') ++ mark quote b'\''

ends_with-mark :
    (c : ℕ) (b : Bool) (s : Bytes) → ends_with c s ≡ false → ends_with c (s ++ mark b c) ≡ b
ends_with-mark c true s h = ends_with-append c c s ∙ ground arith
ends_with-mark c false s h = ap (ends_with c) (append-nil s) ∙ h

ends_with-other :
    (c d : ℕ) (b : Bool) (s : Bytes)
    → (d == c) ≡ false
    → ends_with c s ≡ false
    → ends_with c (s ++ mark b d) ≡ false
ends_with-other c d true s differ h = ends_with-append c d s ∙ differ
ends_with-other c d false s differ h = ap (ends_with c) (append-nil s) ∙ h

trim_suffix-mark :
    (c : ℕ) (b : Bool) (s : Bytes) → ends_with c s ≡ false → trim_suffix c (s ++ mark b c) ≡ s
unfolding trim_suffix
trim_suffix-mark c true s h = let last = ends_with-mark c true s h in rw last (drop_last-append c s)
trim_suffix-mark c false s h =
    let none_ends = ends_with-mark c false s h in rw none_ends (append-nil s)

mark_plain :
    (b : Bool) (c : ℕ)
    → contains c (codes " +-") ≡ false
    → All (λ d. contains d (codes " +-") ≡ false) (mark b c)
mark_plain true c h = (h, tt)
mark_plain false c h = tt

module _ (n : ℕ) where
  abbrev s : Bytes
  s = format_uint n

  unmarked : (c : ℕ) → (b'9' < c) ⊎ (c < b'0') → ends_with c s ≡ false
  unmarked c h = (format_uint_unmarked c n h).0

  marked_plain :
      (large small quote : Bool) → contains_any (codes " +-") (marked s large small quote) ≡ false
  unfolding contains
  marked_plain large small quote = contains_any-All (codes " +-") (marked s large small quote) (
      All-append _ _ _
        (All-append _ _ _
          (All-append _ s _ (All-map digit_plain s (format_uint-IsDigit n))
            (mark_plain large b'H' refl))
          (mark_plain small b'h' refl))
        (mark_plain quote b'\'' refl))

  with_large_small : (large : Bool) → ends_with b'h' (s ++ mark large b'H') ≡ false
  with_large_small large =
      ends_with-other b'h' b'H' large s (ground arith) (unmarked b'h' (omega arith))

  with_small_quote :
      (large small : Bool) → ends_with b'\'' ((s ++ mark large b'H') ++ mark small b'h') ≡ false
  with_small_quote large small =
      ends_with-other b'\'' b'h' small (s ++ mark large b'H') (ground arith)
        (ends_with-other b'\'' b'H' large s (ground arith) (unmarked b'\'' (omega arith)))

  trimmed :
      (large small quote : Bool)
      → trim_suffix b'H' (trim_suffix b'h' (trim_suffix b'\'' (marked s large small quote))) ≡ s
  trimmed large small quote =
      ap (λ t. trim_suffix b'H' (trim_suffix b'h' t))
        (trim_suffix-mark b'\'' quote ((s ++ mark large b'H') ++ mark small b'h')
          (with_small_quote large small))
      ∙ ap (trim_suffix b'H')
          (trim_suffix-mark b'h' small (s ++ mark large b'H') (with_large_small large))
      ∙ trim_suffix-mark b'H' large s (unmarked b'H' (omega arith))

  -- Whether one of the marks is at the end.
  any_mark :
      (large small quote : Bool)
      → (ends_with b'\'' (marked s large small quote)
          || ends_with b'h' (marked s large small quote)
          || ends_with b'H' (marked s large small quote))
        ≡ (quote || small || large)
  any_mark large small true =
      rw
        (ends_with-mark b'\'' true ((s ++ mark large b'H') ++ mark small b'h')
          (with_small_quote large small))
        refl
  any_mark large true false =
      let quoted : ends_with b'\'' (marked s large true false) ≡ false =
        ends_with-mark b'\'' false _ (with_small_quote large true) in
      let small : ends_with b'h' (marked s large true false) ≡ true =
        ap (ends_with b'h') (append-nil ((s ++ mark large b'H') ++ b'h' ∷ []))
        ∙ ends_with-mark b'h' true (s ++ mark large b'H') (with_large_small large) in
      rw (quoted, small) refl
  any_mark large false false =
      let quoted : ends_with b'\'' (marked s large false false) ≡ false =
        ends_with-mark b'\'' false _ (with_small_quote large false) in
      let bare : marked s large false false ≡ s ++ mark large b'H' =
        append-nil ((s ++ mark large b'H') ++ []) ∙ append-nil (s ++ mark large b'H') in
      let small : ends_with b'h' (marked s large false false) ≡ false =
        ap (ends_with b'h') bare ∙ with_large_small large in
      let last : ends_with b'H' (marked s large false false) ≡ large =
        ap (ends_with b'H') bare ∙ ends_with-mark b'H' large s (unmarked b'H' (omega arith)) in
      rw (quoted, small, last) refl

  marked-ne-nil : (large small quote : Bool) → (marked s large small quote =? []) ≡ false
  unfolding ◌=?◌
  marked-ne-nil large small quote = let (c, t, e, _, _) = format_uint_leads n in rw e refl

-- A canonical number below 2^31 with any of the marks H, h and ' after it, in this order and each
-- at most once, passes as the number with one mark, or with none if there is none: each suffix is
-- cut once, one after another.
pub normalize_account_path_component_stacked :
    (n : ℕ) (large small quote : Bool)
    → n < hardened_start
    → normalize_account_path_component (marked (format_uint n) large small quote)
      ≡ ok (print_segment n (quote || small || large))
normalize_account_path_component_stacked n large small quote h =
    finish_at (marked (format_uint n) large small quote) (quote || small || large) n h
      (rw (marked-ne-nil n large small quote, marked_plain n large small quote) refl)
      (any_mark n large small quote) (trimmed n large small quote)
