-- ===== src/Text/Sort.antt =====
-- The order of Go strings, and `slices.Sort` on them: the result of sorting by a total order is
-- one and the same whatever the algorithm, and is computed here by insertion.
use brosettlement_mpc_core.Base.{
  ◌≡◌, refl, sym, ap, ◌∙◌, inl, inr, Bool, true, false, ◌&&◌, ◌||◌, ◌==◌, List, [], ◌∷◌, Bytes, ltb,
  if◌then◌else◌, Bool-cases, arith, length,
}
use Prim.Native.Nat.{suc}
use mathlib.Core.List.{Permᴰ}

-- Bytewise: a proper prefix comes first.
unfoldable pub string_le : Bytes → Bytes → Bool
string_le [] t = true
string_le (a ∷ s) [] = false
string_le (a ∷ s) (b ∷ t) = ltb a b || (a == b) && string_le s t

unfoldable pub insert : Bytes → List Bytes → List Bytes
insert x [] = x ∷ []
insert x (y ∷ ys) = let rest = insert x ys in if string_le x y then x ∷ y ∷ ys else y ∷ rest

unfoldable pub sort : List Bytes → List Bytes
sort [] = []
sort (x ∷ xs) = insert x (sort xs)

le_antisym : (s t : Bytes) → string_le s t ≡ true → string_le t s ≡ true → s ≡ t
unfolding string_le
le_antisym [] [] h k = refl
le_antisym [] (b ∷ t) h k = absurd (cc)
le_antisym (a ∷ s) [] h k = absurd (cc)
le_antisym (a ∷ s) (b ∷ t) h k = ground (arith, le_antisym s t)

le_total : (s t : Bytes) → string_le s t ≡ false → string_le t s ≡ true
unfolding string_le
le_total [] t h = absurd (cc)
le_total (a ∷ s) [] h = refl
le_total (a ∷ s) (b ∷ t) h = ground (arith, le_total s t)

le_trans : (s t u : Bytes) → string_le s t ≡ true → string_le t u ≡ true → string_le s u ≡ true
unfolding string_le
le_trans [] t u h k = refl
le_trans (a ∷ s) [] u h k = absurd (cc)
le_trans (a ∷ s) (b ∷ t) [] h k = absurd (cc)
le_trans (a ∷ s) (b ∷ t) (c ∷ u) h k = ground (arith, le_trans s t u)

insert-below :
    (x y : Bytes) (ys : List Bytes) → string_le x y ≡ true → insert x (y ∷ ys) ≡ x ∷ y ∷ ys
unfolding insert
insert-below x y ys h = rw h refl

insert-above :
    (x y : Bytes) (ys : List Bytes) → string_le x y ≡ false → insert x (y ∷ ys) ≡ y ∷ insert x ys
unfolding insert
insert-above x y ys h = rw h refl

insert-after :
    (a b : Bytes) (ys : List Bytes)
    → string_le a b ≡ true
    → insert b ys ≡ b ∷ ys
    → insert b (a ∷ ys) ≡ a ∷ b ∷ ys
insert-after a b ys h first = elim (Bool-cases (string_le b a)) [
  | inl same ↦ let equal = le_antisym a b h same in insert-below b a ys same ∙ rw equal refl
  | inr above ↦ insert-above b a ys above ∙ ap (◌∷◌ a) first
]

-- The order of two insertions does not matter, here with the smaller one first.
insert_le :
    (a b : Bytes) (ys : List Bytes)
    → string_le a b ≡ true
    → insert a (insert b ys) ≡ insert b (insert a ys)
insert_le a b [] h =
    unfold insert in insert-below a b [] h ∙ sym (insert-after a b [] h (unfold insert in refl))
insert_le a b (y ∷ ys) h = elim (Bool-cases (string_le b y)) [
  | inl first ↦
      let low = le_trans a b y h first in
      let stays = insert-below b y ys first in
      rw (stays, insert-below a y ys low, insert-below a b (y ∷ ys) h)
        (sym (insert-after a b (y ∷ ys) h stays))
  | inr later ↦ elim (Bool-cases (string_le a y)) [
    | inl low ↦ elim (Bool-cases (string_le b a)) [
      | inl below ↦ absurd (let far = le_trans b a y below low in cc)
      | inr above ↦
          rw
            (
              insert-above b y ys later,
              insert-below a y ys low,
              insert-below a y (insert b ys) low,
              insert-above b a (y ∷ ys) above,
            )
            (ap (◌∷◌ a) (sym (insert-above b y ys later)))
    ]
    | inr high ↦
        rw
          (
            insert-above b y ys later,
            insert-above a y ys high,
            insert-above a y (insert b ys) high,
            insert-above b y (insert a ys) later,
          )
          (ap (◌∷◌ y) (insert_le a b ys h))
  ]
]

insert_comm : (a b : Bytes) (ys : List Bytes) → insert a (insert b ys) ≡ insert b (insert a ys)
insert_comm a b ys = elim (Bool-cases (string_le a b)) [
  | inl h ↦ insert_le a b ys h
  | inr h ↦ sym (insert_le b a ys (le_total a b h))
]

-- The same strings in another order are sorted to the same list.
pub sort_permuted : {xs ys : List Bytes} → Permᴰ xs ys → sort xs ≡ sort ys
unfolding sort
sort_permuted Permᴰ.nil = refl
sort_permuted (Permᴰ.cons e p) = rw (e, sort_permuted p) refl
sort_permuted (Permᴰ.swap {l = l} e f) = rw (e, f) (insert_comm _ _ (sort l))
sort_permuted (Permᴰ.trans p q) = sort_permuted p ∙ sort_permuted q

length-insert : (x : Bytes) (ys : List Bytes) → length (insert x ys) ≡ suc (length ys)
unfolding insert
length-insert x [] = refl
length-insert x (y ∷ ys) = ground (arith, length-insert x ys)

pub length-sort : (xs : List Bytes) → length (sort xs) ≡ length xs
unfolding sort
length-sort [] = refl
length-sort (x ∷ xs) = length-insert x (sort xs) ∙ ap suc (length-sort xs)

pub length_permuted : {xs ys : List Bytes} → Permᴰ xs ys → length xs ≡ length ys
length_permuted Permᴰ.nil = refl
length_permuted (Permᴰ.cons e p) = ap suc (length_permuted p)
length_permuted (Permᴰ.swap e f) = refl
length_permuted (Permᴰ.trans p q) = length_permuted p ∙ length_permuted q
