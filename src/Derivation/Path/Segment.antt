-- ===== src/Derivation/Path/Segment.antt =====
-- One component of an account path, in its canonical spelling.
use brosettlement_mpc_core.Base.{
  ℕ, ◌<◌, ◌≡◌, refl, ◌∙◌, ap, ◌⊎◌, inl, inr, Bool, true, false, ◌||◌, Option, none, some, List, [],
  ◌∷◌, ◌++◌, Bytes, codes, arith, ◌==◌, ◌=?◌, ok, All, All-append, Bool-cases,
}
use brosettlement_mpc_core.Text.{ends_with, drop_last, trim_suffix, contains, contains_any}
use brosettlement_mpc_core.Text.Decimal.{
  parse_uint32, format_uint, IsDigit, format_uint-IsDigit, format_uint_leads, format_uint_ends,
  parse_uint32-format_uint,
}
use brosettlement_mpc_core.Derivation.Path.{
  hardened_start, finish_component, normalize_account_path_component,
}

-- How the canonical path writes an index.
abbrev pub print_segment : ℕ → Bool → Bytes
print_segment n true = format_uint n ++ b'\'' ∷ []
print_segment n false = format_uint n

abbrev pub IsSegment : Bytes → Type 0
IsSegment s = (n : ℕ) × (hardened : Bool) × (n < hardened_start) × (s ≡ print_segment n hardened)

pub ends_with-append : (c d : ℕ) (t : Bytes) → ends_with c (t ++ d ∷ []) ≡ (d == c)
unfolding ends_with
ends_with-append c d [] = refl
ends_with-append c d (x ∷ []) = refl
ends_with-append c d (x ∷ y ∷ t) = ends_with-append c d (y ∷ t)

pub drop_last-append : (d : ℕ) (t : Bytes) → drop_last (t ++ d ∷ []) ≡ t
unfolding drop_last
drop_last-append d [] = refl
drop_last-append d (x ∷ []) = refl
drop_last-append d (x ∷ y ∷ t) = ap (◌∷◌ x) (drop_last-append d (y ∷ t))

pub contains_any-All :
    (chars s : Bytes) → All (λ c. contains c chars ≡ false) s → contains_any chars s ≡ false
unfolding contains_any
contains_any-All chars [] h = refl
contains_any-All chars (c ∷ s) (hc, hs) = ground (arith, contains_any-All chars s hs)

-- The predicate passes from one byte to the whole list.
pub All-map {ℓ κ} :
    {A : Type 0} {P : A → Type ℓ} {Q : A → Type κ}
    → ((a : A) → P a → Q a)
    → (xs : List A) → All P xs
    → All Q xs
All-map f [] h = tt
All-map f (x ∷ xs) (hx, hs) = (f x hx, All-map f xs hs)

pub digit_plain : (c : ℕ) → IsDigit c → contains c (codes " +-") ≡ false
unfolding contains
digit_plain c h = ground arith

digit_unmarked : (c : ℕ) → IsDigit c → contains c (codes "'hH") ≡ false
unfolding contains
digit_unmarked c h = ground arith

-- A printed number carries no hardened mark, and trimming one changes nothing.
pub format_uint_unmarked :
    (c n : ℕ)
    → (b'9' < c) ⊎ (c < b'0')
    → (ends_with c (format_uint n) ≡ false) × (trim_suffix c (format_uint n) ≡ format_uint n)
unfolding trim_suffix
format_uint_unmarked c n h =
    let (t, d, e, digit) = format_uint_ends n in
    let unmarked : ends_with c (format_uint n) ≡ false =
      ap (ends_with c) e ∙ ends_with-append c d t ∙ ground arith in
    (unmarked, rw unmarked)

format_uint-ne-nil : (n : ℕ) → (format_uint n =? []) ≡ false
unfolding ◌=?◌
format_uint-ne-nil n = let (c, t, e, _, _) = format_uint_leads n in rw e

append-ne-nil : (s : Bytes) (d : ℕ) → ((s ++ d ∷ []) =? []) ≡ false
unfolding ◌=?◌
append-ne-nil [] d = refl
append-ne-nil (c ∷ s) d = refl

finish_component_sound :
    (hardened : Bool) (o : Option ℕ) (s : Bytes) → finish_component hardened o ≡ ok s → IsSegment s
unfolding finish_component
finish_component_sound hardened none s e = cc
finish_component_sound true (some n) s e = (n, true, ground arith, ground arith)
finish_component_sound false (some n) s e = (n, false, ground arith, ground arith)

finish_component_print :
    (hardened : Bool) (n : ℕ)
    → n < hardened_start
    → finish_component hardened (some n) ≡ ok (print_segment n hardened)
unfolding finish_component
finish_component_print true n h = ground arith
finish_component_print false n h = ground arith

-- Whatever is accepted comes out in the canonical spelling.
pub normalize_account_path_component-IsSegment :
    (part s : Bytes) → normalize_account_path_component part ≡ ok s → IsSegment s
unfolding normalize_account_path_component
normalize_account_path_component-IsSegment part s e =
    let core = trim_suffix b'H' (trim_suffix b'h' (trim_suffix b'\'' part)) in
    let hardened = ends_with b'\'' part || ends_with b'h' part || ends_with b'H' part in
    elim (Bool-cases ((part =? []) || contains_any (codes " +-") part)) [
      | inl bad ↦ absurd (cc (rw bad at e))
      | inr good ↦ elim (Bool-cases ((core =? []) || contains_any (codes "'hH") core)) [
        | inl bad ↦ absurd (cc (rw (good, bad) at e))
        | inr fine ↦ finish_component_sound hardened (parse_uint32 core) s (rw (good, fine) at e)
      ]
    ]

-- What the component reads once its suffix is gone.
pub finish_at :
    (part : Bytes) (hardened : Bool) (n : ℕ)
    → n < hardened_start
    → ((part =? []) || contains_any (codes " +-") part) ≡ false
    → (ends_with b'\'' part || ends_with b'h' part || ends_with b'H' part) ≡ hardened
    → trim_suffix b'H' (trim_suffix b'h' (trim_suffix b'\'' part)) ≡ format_uint n
    → normalize_account_path_component part ≡ ok (print_segment n hardened)
unfolding normalize_account_path_component
finish_at part hardened n h plain mark core =
    let digits =
      contains_any-All (codes "'hH") (format_uint n)
        (All-map digit_unmarked (format_uint n) (format_uint-IsDigit n)) in
    rw (plain, mark, core, format_uint-ne-nil n, digits, parse_uint32-format_uint n (omega arith))
      (finish_component_print hardened n h)

-- A canonical component is kept as it is.
pub normalize_account_path_component-print :
    (n : ℕ) (hardened : Bool)
    → n < hardened_start
    → normalize_account_path_component (print_segment n hardened) ≡ ok (print_segment n hardened)
unfolding trim_suffix
normalize_account_path_component-print n true h =
    let s = format_uint n in
    let plain = contains_any-All (codes " +-") (s ++ b'\'' ∷ []) (
      All-append (λ c. contains c (codes " +-") ≡ false) s (b'\'' ∷ [])
        (All-map digit_plain s (format_uint-IsDigit n)) (unfold contains in refl, tt)) in
    let last : ends_with b'\'' (s ++ b'\'' ∷ []) ≡ true = ends_with-append b'\'' b'\'' s in
    finish_at (s ++ b'\'' ∷ []) true n h (rw (append-ne-nil s b'\'', plain)) (rw last) (
      rw (last, drop_last-append b'\'' s)
        (rw ((format_uint_unmarked b'h' n (omega arith)).1)
          ((format_uint_unmarked b'H' n (omega arith)).1)))
normalize_account_path_component-print n false h =
    let s = format_uint n in
    let plain = contains_any-All (codes " +-") s (All-map digit_plain s (format_uint-IsDigit n)) in
    let quote = format_uint_unmarked b'\'' n (omega arith) in
    let small = format_uint_unmarked b'h' n (omega arith) in
    let large = format_uint_unmarked b'H' n (omega arith) in
    finish_at s false n h (rw (format_uint-ne-nil n, plain)) (rw (quote.0, small.0, large.0))
      (rw (quote.1, small.1) large.1)
