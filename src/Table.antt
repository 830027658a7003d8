-- ===== src/Table.antt =====
-- Maps with string keys, as lists of entries; the order of the list is an order of iteration.
use brosettlement_mpc_core.Base.{
  ◌≤◌, ◌<◌, ◌≡◌, refl, sym, ap, ◌∙◌, inl, inr, Bool, true, false, ◌||◌, Option, none, some, List,
  [], ◌∷◌, arith, Bytes, ◌=?◌, =?_iff, if◌then◌else◌, Bool-cases, length,
}

module _ {ℓ} {A : Type ℓ} where
  unfoldable pub lookup : Bytes → List (Bytes × A) → Option A
  lookup key [] = none
  lookup key ((k, a) ∷ t) = let rest = lookup key t in if k =? key then some a else rest

  unfoldable pub has_key : Bytes → List (Bytes × A) → Bool
  has_key key [] = false
  has_key key ((k, a) ∷ t) = (k =? key) || has_key key t

  unfoldable pub delete : Bytes → List (Bytes × A) → List (Bytes × A)
  delete key [] = []
  delete key ((k, a) ∷ t) = let rest = delete key t in if k =? key then rest else (k, a) ∷ rest

  unfoldable pub filter : (Bytes × A → Bool) → List (Bytes × A) → List (Bytes × A)
  filter p [] = []
  filter p (e ∷ t) = let rest = filter p t in if p e then e ∷ rest else rest

  -- No key stands twice.
  abbrev pub IsTable : List (Bytes × A) → Type 0
  IsTable [] = Unit {0}
  IsTable ((k, a) ∷ t) = (has_key k t ≡ false) × IsTable t

  pub has_key-delete : (key : Bytes) (t : List (Bytes × A)) → has_key key (delete key t) ≡ false
  unfolding delete has_key
  has_key-delete key [] = refl
  has_key-delete key ((k, a) ∷ t) = ground (arith, has_key-delete key t)

  pub has_key-delete_other :
      (key other : Bytes) (t : List (Bytes × A))
      → has_key other t ≡ false
      → has_key other (delete key t) ≡ false
  unfolding delete has_key
  has_key-delete_other key other [] h = refl
  has_key-delete_other key other ((k, a) ∷ t) h = ground (arith, has_key-delete_other key other t)

  pub has_key-delete_kept :
      (key other : Bytes) (t : List (Bytes × A))
      → (key =? other) ≡ false
      → has_key other (delete key t) ≡ has_key other t
  unfolding delete has_key
  has_key-delete_kept key other [] h = refl
  has_key-delete_kept key other ((k, a) ∷ t) h = elim (Bool-cases (k =? key)) [
    | inl same ↦ rw same (rw ((=?_iff k key).0 same, h) (has_key-delete_kept key other t h))
    | inr differ ↦ rw differ (ap (◌||◌ (k =? other)) (has_key-delete_kept key other t h))
  ]

  pub delete-IsTable : (key : Bytes) (t : List (Bytes × A)) → IsTable t → IsTable (delete key t)
  unfolding delete
  delete-IsTable key [] h = tt
  delete-IsTable key ((k, a) ∷ t) (fresh, h) = elim (Bool-cases (k =? key)) [
    | inl same ↦ rw same (delete-IsTable key t h)
    | inr differ ↦ rw differ (has_key-delete_other key k t fresh, delete-IsTable key t h)
  ]

  pub length-delete : (key : Bytes) (t : List (Bytes × A)) → length (delete key t) ≤ length t
  unfolding delete
  length-delete key [] = omega arith
  length-delete key ((k, a) ∷ t) = ground (arith, length-delete key t)

  pub length-delete_present :
      (key : Bytes) (t : List (Bytes × A)) → has_key key t ≡ true → length (delete key t) < length t
  unfolding delete has_key
  length-delete_present key [] h = cc
  length-delete_present key ((k, a) ∷ t) h =
      ground (arith, length-delete key t, length-delete_present key t)

  pub has_key-filter :
      (p : Bytes × A → Bool) (key : Bytes) (t : List (Bytes × A))
      → has_key key t ≡ false
      → has_key key (filter p t) ≡ false
  unfolding filter has_key
  has_key-filter p key [] h = refl
  has_key-filter p key ((k, a) ∷ t) h = ground (arith, has_key-filter p key t)

  pub filter-IsTable :
      (p : Bytes × A → Bool) (t : List (Bytes × A)) → IsTable t → IsTable (filter p t)
  unfolding filter
  filter-IsTable p [] h = tt
  filter-IsTable p ((k, a) ∷ t) (fresh, h) = elim (Bool-cases (p (k, a))) [
    | inl kept ↦ rw kept (has_key-filter p k t fresh, filter-IsTable p t h)
    | inr gone ↦ rw gone (filter-IsTable p t h)
  ]

  pub length-filter : (p : Bytes × A → Bool) (t : List (Bytes × A)) → length (filter p t) ≤ length t
  unfolding filter
  length-filter p [] = omega arith
  length-filter p (e ∷ t) = ground (arith, length-filter p t)

  kept_entry :
      (key q k : Bytes) (a : A) (t : List (Bytes × A))
      → (k =? key) ≡ false
      → (if k =? q then some a else (if key =? q then none else lookup q t))
        ≡ (if key =? q then none else (if k =? q then some a else lookup q t))
  kept_entry key q k a t differ = elim (Bool-cases (k =? q)) [
    | inr other ↦ rw other refl
    | inl here ↦
        let away : (key =? q) ≡ false = elim (Bool-cases (key =? q)) [
          | inr no_key ↦ no_key
          | inl found ↦
              let same : k ≡ key = (=?_iff k q).0 here ∙ sym ((=?_iff key q).0 found) in
              absurd (let e = (=?_iff k key).1 same in cc)
        ] in
        rw (here, away) refl
  ]

  pub lookup-delete :
      (key q : Bytes) (t : List (Bytes × A))
      → lookup q (delete key t) ≡ (if key =? q then none else lookup q t)
  unfolding lookup delete
  lookup-delete key q [] = elim (Bool-cases (key =? q)) [ inl h ↦ rw h refl | inr h ↦ rw h refl ]
  lookup-delete key q ((k, a) ∷ t) = elim (Bool-cases (k =? key)) [
    | inr differ ↦ rw (differ, lookup, lookup-delete key q t) (kept_entry key q k a t differ)
    | inl same ↦
        rw (same, (=?_iff k key).0 same, lookup-delete key q t)
          (elim (Bool-cases (key =? q)) [ inl h ↦ rw h refl | inr h ↦ rw h refl ])
  ]

  -- After an entry is put in place of another.
  pub lookup-put :
      (key q : Bytes) (a : A) (t : List (Bytes × A))
      → lookup q ((key, a) ∷ delete key t) ≡ (if key =? q then some a else lookup q t)
  unfolding lookup
  lookup-put key q a t = elim (Bool-cases (key =? q)) [
    | inl h ↦ rw h refl
    | inr h ↦ rw (h, lookup-delete key q t) (rw h refl)
  ]
