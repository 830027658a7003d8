-- ===== src/Base/Tests.antt =====
-- Boolean tests on numbers and byte strings, the conditional, and results with an error.
use Prim.Native.Nat.{ℕ, zero, suc, ◌<◌, compare, Ordering}
use Prim.Native.Char.{code}
use Prim.Native.String.{String}
use mathlib.Core.Path.{◌≡◌, refl}
use mathlib.Core.Logic.{◌↔◌, ◌⊎◌, inl, inr}
use mathlib.Core.Bool.{Bool, true, false, ◌&&◌}
use mathlib.Core.Option.{Option, none, some}
use mathlib.Core.List.{List, [], ◌∷◌}
use native.Mathlib.Omega.{arith}

abbrev pub ltb : ℕ → ℕ → Bool
ltb a b = elim (compare a b) [ Ordering.lt ↦ true | _ ↦ false ]

abbrev pub leb : ℕ → ℕ → Bool
leb a b = elim (compare a b) [ Ordering.gt ↦ false | _ ↦ true ]

infix 50 ◌==◌
abbrev pub ◌==◌ : ℕ → ℕ → Bool
a == b = elim (compare a b) [ Ordering.eq ↦ true | _ ↦ false ]

infix 1 if◌then◌else◌
abbrev pub if◌then◌else◌ {ℓ} : {A : Type ℓ} → Bool → A → A → A
if true then x else y = x
if false then x else y = y

pub ==_iff : (a b : ℕ) → ((a == b) ≡ true) ↔ (a ≡ b)
==_iff a b = ground arith

-- To split on a computed value and keep the equation.
pub Bool-cases : (b : Bool) → (b ≡ true) ⊎ (b ≡ false)
Bool-cases true = inl refl
Bool-cases false = inr refl

pub Option-cases {ℓ} : {A : Type ℓ} (o : Option A) → (o ≡ none) ⊎ ((a : A) × (o ≡ some a))
Option-cases none = inl refl
Option-cases (some a) = inr (a, refl)

-- A Go string or byte slice.
abbrev pub Bytes : Type 0
Bytes = List ℕ

-- The bytes of an ASCII literal.
abbrev pub codes : String → Bytes
codes String.[] = []
codes (String.◌∷◌ c s) = code c ∷ codes s

-- Go's `==` on strings.
infix 50 ◌=?◌
unfoldable pub ◌=?◌ : Bytes → Bytes → Bool
[] =? [] = true
[] =? (b ∷ t) = false
(a ∷ s) =? [] = false
(a ∷ s) =? (b ∷ t) = (a == b) && (s =? t)

pub =?_iff : (s t : Bytes) → ((s =? t) ≡ true) ↔ (s ≡ t)
unfolding ◌=?◌
=?_iff [] [] = (λ _. refl, λ _. refl)
=?_iff [] (b ∷ t) = (λ h. cc, λ h. cc)
=?_iff (a ∷ s) [] = (λ h. cc, λ h. cc)
=?_iff (a ∷ s) (b ∷ t) = (λ h. ground (arith, =?_iff s t), λ h. ground (arith, =?_iff s t))

pub =?_refl : (s : Bytes) → (s =? s) ≡ true
=?_refl s = (=?_iff s s).1 refl

-- A Go pair `(value, error)`.
pub data Result {κ ℓ} (Failure : Type κ) (Value : Type ℓ) : Type (κ ⊔ ℓ) where
  err : Failure → Result Failure Value
  ok : Value → Result Failure Value

pub Result-cases {ℓ} :
    {E : Type 0} {A : Type ℓ} (r : Result E A) → ((e : E) × (r ≡ err e)) ⊎ ((a : A) × (r ≡ ok a))
Result-cases (err e) = inl (e, refl)
Result-cases (ok a) = inr (a, refl)

-- `if err != nil { return err }`
infixl 5 ◌>>=◌
abbrev pub ◌>>=◌ {κ ℓ} :
    {Failure : Type 0} {Value : Type κ} {Next : Type ℓ}
    → Result Failure Value
    → (Value → Result Failure Next)
    → Result Failure Next
(err failure) >>= continue = err failure
(ok value) >>= continue = continue value

pub >>=-eq-ok {κ ℓ} :
    {E : Type 0} {A : Type κ} {B : Type ℓ} (m : Result E A) (f : A → Result E B) {b : B}
    → (m >>= f) ≡ ok b
    → (a : A) × (m ≡ ok a) × (f a ≡ ok b)
>>=-eq-ok (err e) f h = cc
>>=-eq-ok (ok a) f h = (a, refl, h)

-- A property of small numbers is checked at each of them.
unfoldable pub every_below : ℕ → (ℕ → Bool) → Bool
every_below zero p = true
every_below (suc n) p = p n && every_below n p

pub every_below_holds : (n : ℕ) (p : ℕ → Bool) (x : ℕ) → every_below n p ≡ true → x < n → p x ≡ true
unfolding every_below
every_below_holds zero p x h lt = absurd (omega arith)
every_below_holds (suc n) p x h lt = ground (arith, every_below_holds n p x)
