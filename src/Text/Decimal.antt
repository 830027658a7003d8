-- ===== src/Text/Decimal.antt =====
-- `strconv.FormatUint(n, 10)` and `strconv.ParseUint(s, 10, 32)`, and that they agree.
use brosettlement_mpc_core.Base.{
  ℕ, zero, suc, ◌+◌, ◌-◌, ◌*◌, ◌/◌, ◌%◌, ◌^◌, ◌≤◌, ◌<◌, ◌≡◌, ◌≢◌, refl, ◌⊎◌, inl, inr, ◌||◌, [],
  ◌∷◌, ◌++◌, Option, none, some, Bytes, arith, ltb, All, All-append, if◌then◌else◌, Bool-cases,
}

-- The digits of `n`, most significant first; more fuel than `n` is enough.
unfoldable pub digits : ℕ → ℕ → Bytes
digits zero n = []
digits (suc f) n =
    let rest = digits f (n / 10) in
    if ltb n 10 then (b'0' + n) ∷ [] else rest ++ (b'0' + n % 10) ∷ []

unfoldable pub format_uint : ℕ → Bytes
unfolding digits
format_uint n = digits (suc n) n

abbrev pub max_uint32 : ℕ
max_uint32 = 2 ^ 32 - 1

-- A value above the 32-bit maximum is a range error at once.
unfoldable pub scan : ℕ → Bytes → Option ℕ
scan acc [] = some acc
scan acc (c ∷ s) =
    let next = acc * 10 + (c - b'0') in
    let rest = scan next s in
    if ltb c b'0' || ltb b'9' c then none else if ltb max_uint32 next then none else rest

unfoldable pub parse_uint32 : Bytes → Option ℕ
unfolding scan
parse_uint32 [] = none
parse_uint32 (c ∷ s) = scan 0 (c ∷ s)

abbrev pub IsDigit : ℕ → Type 0
IsDigit c = (b'0' ≤ c) × (c ≤ b'9')

digits-IsDigit : (f n : ℕ) → All IsDigit (digits f n)
unfolding digits
digits-IsDigit zero n = tt
digits-IsDigit (suc f) n = elim (Bool-cases (ltb n 10)) [
  | inl h ↦ rw h (ground arith)
  | inr h ↦
      rw h (All-append IsDigit (digits f (n / 10)) _ (digits-IsDigit f (n / 10)) (omega arith))
]

pub format_uint-IsDigit : (n : ℕ) → All IsDigit (format_uint n)
unfolding format_uint
format_uint-IsDigit n = digits-IsDigit (suc n) n

scan-append :
    (acc v c : ℕ) (s : Bytes)
    → scan acc s ≡ some v
    → IsDigit c
    → v * 10 + (c - b'0') ≤ max_uint32
    → scan acc (s ++ c ∷ []) ≡ some (v * 10 + (c - b'0'))
unfolding scan
scan-append acc v c [] e d h = ground arith
scan-append acc v c (x ∷ s) e d h = ground (arith, scan-append (acc * 10 + (x - b'0')) v c s)

scan-digits : (f n : ℕ) → n < f → n ≤ max_uint32 → scan 0 (digits f n) ≡ some n
unfolding digits
scan-digits zero n h m = absurd (omega arith)
scan-digits (suc f) n h m = elim (Bool-cases (ltb n 10)) [
  | inl e ↦ rw e (unfold scan in ground arith)
  | inr e ↦
      let whole : (n / 10) * 10 + (b'0' + n % 10 - b'0') ≡ n = omega arith in
      rw e (
        subst_some whole (
          scan-append 0 (n / 10) (b'0' + n % 10) (digits f (n / 10))
            (scan-digits f (n / 10) (ground arith) (omega arith)) (omega arith) (omega arith)))
]
  where
    subst_some : {a b : ℕ} {o : Option ℕ} → a ≡ b → o ≡ some a → o ≡ some b
    subst_some p q = cc

-- The first digit of a number of two digits or more is not 0.
abbrev Leads : ℕ → Bytes → Type 0
Leads n s =
    (c : ℕ) × (t : Bytes) × (s ≡ c ∷ t) × (IsDigit c) × (0 < n → c ≢ b'0') × (n < 10 → t ≡ [])

digits-Leads : (f n : ℕ) → n < f → Leads n (digits f n)
unfolding digits
digits-Leads zero n h = absurd (omega arith)
digits-Leads (suc f) n h = elim (Bool-cases (ltb n 10)) [
  | inl e ↦ rw e (b'0' + n, [], refl, ground arith, ground arith, λ _. refl)
  | inr e ↦
      let (c, t, p, d, nz, _) = digits-Leads f (n / 10) (ground arith) in
      rw (e, p)
        (c, t ++ (b'0' + n % 10) ∷ [], refl, d, λ _. nz (ground arith), λ k. absurd (ground arith))
]

-- A printed number is a digit alone, or starts with a digit that is not 0.
pub format_uint_leads :
    (n : ℕ)
    → (c : ℕ) × (t : Bytes) × (format_uint n ≡ c ∷ t) × (IsDigit c) × ((t ≡ []) ⊎ (c ≢ b'0'))
unfolding format_uint
format_uint_leads n =
    let (c, t, p, d, nz, one) = digits-Leads (suc n) n (omega arith) in
    (
      c,
      t,
      p,
      d,
      elim (Bool-cases (ltb n 10)) [
        | inl e ↦ inl (one (ground arith))
        | inr e ↦ inr (nz (ground arith))
      ],
    )

pub format_uint_ends : (n : ℕ) → (t : Bytes) × (d : ℕ) × (format_uint n ≡ t ++ d ∷ []) × (IsDigit d)
unfolding format_uint
format_uint_ends n = elim (Bool-cases (ltb n 10)) [
  | inl e ↦ ([], b'0' + n, rw e, ground arith)
  | inr e ↦ (digits n (n / 10), b'0' + n % 10, rw e, omega arith)
]

-- Every 32-bit value is read back from its print.
pub parse_uint32-format_uint : (n : ℕ) → n ≤ max_uint32 → parse_uint32 (format_uint n) ≡ some n
unfolding parse_uint32
parse_uint32-format_uint n h =
    let (c, t, p, _, _) = format_uint_leads n in
    let r : scan 0 (format_uint n) ≡ some n =
      unfold format_uint in scan-digits (suc n) n (omega arith) h in
    rw p (rw p at r)

scan-le : (acc : ℕ) (s : Bytes) (n : ℕ) → acc ≤ max_uint32 → scan acc s ≡ some n → n ≤ max_uint32
unfolding scan
scan-le acc [] n h e = ground arith
scan-le acc (c ∷ s) n h e = ground (arith, scan-le (acc * 10 + (c - b'0')) s n)

pub parse_uint32-le : (s : Bytes) (n : ℕ) → parse_uint32 s ≡ some n → n ≤ max_uint32
unfolding parse_uint32
parse_uint32-le [] n e = cc
parse_uint32-le (c ∷ s) n e = scan-le 0 (c ∷ s) n (omega arith) e

-- The number that a digit string spells behind `acc`.
value_from : ℕ → Bytes → ℕ
value_from acc [] = acc
value_from acc (c ∷ s) = value_from (acc * 10 + (c - b'0')) s

value_from-append :
    (acc c : ℕ) (s : Bytes) → value_from acc (s ++ c ∷ []) ≡ value_from acc s * 10 + (c - b'0')
unfolding value_from
value_from-append acc c [] = refl
value_from-append acc c (x ∷ s) = value_from-append (acc * 10 + (x - b'0')) c s

value_from-digits : (f n : ℕ) → n < f → value_from 0 (digits f n) ≡ n
unfolding digits
value_from-digits zero n h = absurd (omega arith)
value_from-digits (suc f) n h = elim (Bool-cases (ltb n 10)) [
  | inl e ↦ rw e (unfold value_from in omega arith)
  | inr e ↦
      rw (e, value_from-append 0 (b'0' + n % 10) (digits f (n / 10)))
        (ground (arith, value_from-digits f (n / 10)))
]

-- Printing is injective.
pub format_uint-injective : (m n : ℕ) → format_uint m ≡ format_uint n → m ≡ n
unfolding format_uint
format_uint-injective m n e =
    cc (value_from-digits (suc m) m (omega arith), value_from-digits (suc n) n (omega arith))
