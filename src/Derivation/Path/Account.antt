-- ===== src/Derivation/Path/Account.antt =====
-- `NormalizeAccountPath` returns canonical paths, and keeps those it is given.
use mathlib.Core.List.{cons-ne-nil}
use brosettlement_mpc_core.Base.{
  ℕ, ◌≤◌, ◌≡◌, ◌≢◌, refl, sym, ◌∙◌, ap, inl, inr, Bool, true, false, not, ◌||◌, List, [], ◌∷◌, ◌++◌,
  append_assoc, Bytes, codes, arith, ◌=?◌, ok, >>=-eq-ok, All, All-append, Bool-cases,
}
use brosettlement_mpc_core.Text.{has_prefix, trim_prefix, trim_space, split, join}
use brosettlement_mpc_core.Text.Split.{Lacks, split-join, split-ne-nil}
use brosettlement_mpc_core.Text.Trim.{trim_space_between, graphic-IsSolid}
use brosettlement_mpc_core.Text.Decimal.{
  format_uint, IsDigit, format_uint-IsDigit, format_uint_ends,
}
use brosettlement_mpc_core.Derivation.Path.{
  normalize_account_path_component, normalize_components, normalize_account_path,
}
use brosettlement_mpc_core.Derivation.Path.Segment.{
  IsSegment, print_segment, All-map, normalize_account_path_component-IsSegment,
  normalize_account_path_component-print,
}

-- A canonical account path: `m/` and one component or more.
abbrev pub IsAccount : Bytes → Type 0
IsAccount s =
    (q : Bytes) × (qs : List Bytes) × (All IsSegment (q ∷ qs))
    × (s ≡ codes "m/" ++ join b'/' (q ∷ qs))

digit-Lacks : (c : ℕ) → IsDigit c → c ≢ b'/'
digit-Lacks c h = omega arith

pub print_segment-Lacks : (n : ℕ) (hardened : Bool) → Lacks b'/' (print_segment n hardened)
print_segment-Lacks n true =
    All-append (λ c. c ≢ b'/') (format_uint n) (b'\'' ∷ [])
      (All-map digit-Lacks (format_uint n) (format_uint-IsDigit n)) (omega arith)
print_segment-Lacks n false = All-map digit-Lacks (format_uint n) (format_uint-IsDigit n)

pub IsSegment-Lacks : (q : Bytes) → IsSegment q → Lacks b'/' q
IsSegment-Lacks q (n, hardened, _, e) = rw e (print_segment-Lacks n hardened)

-- The text ends in a byte that no space character uses.
abbrev pub EndsSolid : Bytes → Type 0
EndsSolid s = (t : Bytes) × (d : ℕ) × (s ≡ t ++ d ∷ []) × (33 ≤ d) × (d ≤ 126) × (d ≢ b'/')

pub format_uint-EndsSolid : (n : ℕ) → EndsSolid (format_uint n)
format_uint-EndsSolid n =
    let (t, d, e, digit) = format_uint_ends n in (t, d, e, omega arith, omega arith, omega arith)

print_segment-EndsSolid : (n : ℕ) (hardened : Bool) → EndsSolid (print_segment n hardened)
print_segment-EndsSolid n true = (format_uint n, b'\'', refl, omega arith, omega arith, omega arith)
print_segment-EndsSolid n false = format_uint-EndsSolid n

pub append-EndsSolid : (s u : Bytes) → EndsSolid u → EndsSolid (s ++ u)
append-EndsSolid s u (t, d, e, lo, hi, ne) =
    (s ++ t, d, ap (◌++◌ s) e ∙ sym (append_assoc s t (d ∷ [])), lo, hi, ne)

pub join-EndsSolid :
    (q : Bytes) (qs : List Bytes) → All IsSegment (q ∷ qs) → EndsSolid (join b'/' (q ∷ qs))
unfolding join
join-EndsSolid q [] ((n, hardened, _, e), _) = rw e (print_segment-EndsSolid n hardened)
join-EndsSolid q (r ∷ qs) (_, h) =
    append-EndsSolid q (b'/' ∷ join b'/' (r ∷ qs))
      (append-EndsSolid (b'/' ∷ []) (join b'/' (r ∷ qs)) (join-EndsSolid r qs h))

pub IsAccount-EndsSolid : (s : Bytes) → IsAccount s → EndsSolid s
IsAccount-EndsSolid s (q, qs, h, e) =
    rw e (append-EndsSolid (codes "m/") (join b'/' (q ∷ qs)) (join-EndsSolid q qs h))

-- The loop over the parts.
normalize_components-IsSegment :
    (ps qs : List Bytes) → normalize_components ps ≡ ok qs → All IsSegment qs × (ps ≢ [] → qs ≢ [])
unfolding normalize_components
normalize_components-IsSegment [] [] e = (tt, λ h. h)
normalize_components-IsSegment [] (q ∷ qs) e = absurd (cc)
normalize_components-IsSegment (p ∷ ps) qs e =
    let (q, hq, e') = >>=-eq-ok (normalize_account_path_component p) _ e in
    let (rest, hrest, e'') = >>=-eq-ok (normalize_components ps) _ e' in
    let (all, _) = normalize_components-IsSegment ps rest hrest in
    let shape : qs ≡ q ∷ rest = cc in
    rw shape ((normalize_account_path_component-IsSegment p q hq, all), λ _. cons-ne-nil q rest)

normalize_components_canonical :
    (qs : List Bytes) → All IsSegment qs → normalize_components qs ≡ ok qs
unfolding normalize_components
normalize_components_canonical [] h = refl
normalize_components_canonical (q ∷ qs) ((n, hardened, lt, e), h) =
    rw
      (e, normalize_account_path_component-print n hardened lt, normalize_components_canonical qs h)

-- An accepted account path comes out canonical.
pub normalize_account_path-IsAccount :
    (raw s : Bytes) → normalize_account_path raw ≡ ok s → IsAccount s
unfolding normalize_account_path
normalize_account_path-IsAccount raw s e =
    let t = trim_space raw in
    elim (Bool-cases ((t =? []) || (t =? codes "m") || not (has_prefix (codes "m/") t))) [
      | inl bad ↦ absurd (cc (rw bad at e))
      | inr good ↦
          let parts = split b'/' (trim_prefix (codes "m/") t) in
          let (qs, hq, e') = >>=-eq-ok (normalize_components parts) _ (rw good at e) in
          let (all, some_part) = normalize_components-IsSegment parts qs hq in
          pick qs all (some_part (split-ne-nil b'/' (trim_prefix (codes "m/") t))) (cc)
    ]
  where
    pick :
        (qs : List Bytes)
        → All IsSegment qs
        → qs ≢ []
        → s ≡ codes "m/" ++ join b'/' qs
        → IsAccount s
    pick [] h ne eq = absurd (ne refl)
    pick (q ∷ qs) h ne eq = (q, qs, h, eq)

-- A canonical account path is kept as it is.
pub normalize_account_path_canonical : (s : Bytes) → IsAccount s → normalize_account_path s ≡ ok s
unfolding normalize_account_path ◌=?◌ has_prefix trim_prefix
normalize_account_path_canonical s (q, qs, h, e) =
    let rest = join b'/' (q ∷ qs) in
    let (t, d, ends, lo, hi, _) = IsAccount-EndsSolid s (q, qs, h, e) in
    let trimmed : trim_space s ≡ s =
      trim_space_between b'm' d s (b'/' ∷ rest) t e ends
        (graphic-IsSolid b'm' (omega arith) (omega arith)) (graphic-IsSolid d lo hi) in
    let parts : split b'/' rest ≡ q ∷ qs =
      split-join b'/' q qs (All-map IsSegment-Lacks (q ∷ qs) h) in
    rw (trimmed, e, parts, normalize_components_canonical (q ∷ qs) h)
