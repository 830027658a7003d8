-- ===== src/Derivation/Path/Child.antt =====
-- `NormalizeChildPath` accepts two non-hardened indices and prints them back.
use brosettlement_mpc_core.Base.{
  ℕ, ◌<◌, ◌≡◌, refl, ◌∙◌, ap, inl, inr, false, not, ◌&&◌, ◌||◌, Option, none, some, List, [], ◌∷◌,
  ◌++◌, Bytes, codes, arith, ltb, ◌==◌, ◌=?◌, ok, >>=-eq-ok, Bool-cases, length,
}
use brosettlement_mpc_core.Text.{has_prefix, trim_prefix, trim_space, split, contains}
use brosettlement_mpc_core.Text.Split.{split-append, split-Lacks}
use brosettlement_mpc_core.Text.Trim.{trim_space_between, graphic-IsSolid}
use brosettlement_mpc_core.Text.Decimal.{
  parse_uint32, format_uint, IsDigit, format_uint-IsDigit, format_uint_leads,
  parse_uint32-format_uint,
}
use brosettlement_mpc_core.Derivation.Path.{
  hardened_start, first_is_zero, finish_index, parse_child_index, parse_child_indices, print_child,
  normalize_child_path,
}
use brosettlement_mpc_core.Derivation.Path.Segment.{contains_any-All, All-map}
use brosettlement_mpc_core.Derivation.Path.Account.{
  print_segment-Lacks, format_uint-EndsSolid, append-EndsSolid,
}

digit_plain : (c : ℕ) → IsDigit c → contains c (codes "'hH +-") ≡ false
unfolding contains
digit_plain c h = ground arith

no_leading_zero :
    (n : ℕ) → (ltb 1 (length (format_uint n)) && first_is_zero (format_uint n)) ≡ false
no_leading_zero n = let (c, t, e, _, alone) = format_uint_leads n in rw e (ground (arith, alone))

format_uint_nonempty : (n : ℕ) → (format_uint n =? []) ≡ false
unfolding ◌=?◌
format_uint_nonempty n = let (c, t, e, _, _) = format_uint_leads n in rw e

pub parse_child_index-format_uint :
    (n : ℕ) → n < hardened_start → parse_child_index (format_uint n) ≡ ok n
unfolding parse_child_index
parse_child_index-format_uint n h =
    let plain =
      contains_any-All (codes "'hH +-") (format_uint n)
        (All-map digit_plain (format_uint n) (format_uint-IsDigit n)) in
    rw (plain, format_uint_nonempty n, no_leading_zero n, parse_uint32-format_uint n (omega arith))
      (ground arith)

finish_index-lt : (o : Option ℕ) (n : ℕ) → finish_index o ≡ ok n → n < hardened_start
unfolding finish_index
finish_index-lt none n e = cc
finish_index-lt (some m) n e = ground arith

pub parse_child_index-lt :
    (part : Bytes) (n : ℕ) → parse_child_index part ≡ ok n → n < hardened_start
unfolding parse_child_index
parse_child_index-lt part n e = ground (arith, finish_index-lt (parse_uint32 part) n)

-- The result of a child path: two indices below 2^31, and their print.
abbrev pub IsChild : Bytes → List ℕ → Type 0
IsChild s indices =
    (i : ℕ) × (j : ℕ) × (i < hardened_start)
    × (j < hardened_start)
    × (indices ≡ i ∷ j ∷ [])
    × (s ≡ b'/' ∷ format_uint i ++ b'/' ∷ format_uint j)

parse_child_indices_two :
    (ps : List Bytes) (indices : List ℕ)
    → length ps ≡ 2
    → parse_child_indices ps ≡ ok indices
    → IsChild (print_child indices) indices
unfolding parse_child_indices
parse_child_indices_two [] indices h e = absurd (omega arith)
parse_child_indices_two (p ∷ []) indices h e = absurd (omega arith)
parse_child_indices_two (p ∷ q ∷ []) indices h e =
    let (i, hi, e') = >>=-eq-ok (parse_child_index p) _ e in
    let (rest, hr, e'') = >>=-eq-ok (parse_child_indices (q ∷ [])) _ e' in
    let (j, hj, e''') = >>=-eq-ok (parse_child_index q) _ hr in
    let both : indices ≡ i ∷ j ∷ [] = cc in
    rw both (i, j, parse_child_index-lt p i hi, parse_child_index-lt q j hj, refl, refl)
parse_child_indices_two (p ∷ q ∷ r ∷ ps) indices h e = absurd (omega arith)

-- An accepted child path has two indices below 2^31, and comes out as their decimal print.
pub normalize_child_path-IsChild :
    (raw s : Bytes) (indices : List ℕ)
    → normalize_child_path raw ≡ ok (s, indices)
    → IsChild s indices
unfolding normalize_child_path
normalize_child_path-IsChild raw s indices e =
    let t = trim_space raw in
    let parts = split b'/' (trim_prefix (codes "/") t) in
    elim (Bool-cases ((t =? []) || has_prefix (codes "m/") t || not (has_prefix (codes "/") t))) [
      | inl bad ↦ absurd (cc (rw bad at e))
      | inr good ↦ elim (Bool-cases (not (length parts == 2))) [
        | inl bad ↦ absurd (cc (rw (good, bad) at e))
        | inr two ↦
            let (is, hi, e') = >>=-eq-ok (parse_child_indices parts) _ (rw (good, two) at e) in
            let child = parse_child_indices_two parts is (ground arith) hi in
            let same : is ≡ indices = cc in
            let text : print_child is ≡ s = cc in rw same at (rw text at child)
      ]
    ]

-- The print of two indices below 2^31 is accepted, and read back.
pub normalize_child_path_canonical :
    (s : Bytes) (indices : List ℕ) → IsChild s indices → normalize_child_path s ≡ ok (s, indices)
unfolding normalize_child_path ◌=?◌ has_prefix trim_prefix parse_child_indices
normalize_child_path_canonical s indices (i, j, hi, hj, two, e) =
    let rest = format_uint i ++ b'/' ∷ format_uint j in
    let (t, d, ends, lo, hi', _) =
      append-EndsSolid (b'/' ∷ format_uint i) (b'/' ∷ format_uint j)
        (append-EndsSolid (b'/' ∷ []) (format_uint j) (format_uint-EndsSolid j)) in
    let trimmed : trim_space s ≡ s =
      trim_space_between b'/' d s rest t e (e ∙ ends)
        (graphic-IsSolid b'/' (omega arith) (omega arith)) (graphic-IsSolid d lo hi') in
    let parts : split b'/' rest ≡ format_uint i ∷ format_uint j ∷ [] =
      split-append b'/' (format_uint i) (format_uint j) (print_segment-Lacks i false)
      ∙ ap (◌∷◌ (format_uint i)) (split-Lacks b'/' (format_uint j) (print_segment-Lacks j false)) in
    rw (
      trimmed,
      e,
      parts,
      parse_child_index-format_uint i hi,
      parse_child_index-format_uint j hj,
      two,
    )
