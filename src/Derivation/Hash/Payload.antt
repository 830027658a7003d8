-- ===== src/Derivation/Hash/Payload.antt =====
-- The hash payload determines the fields of the normalised context that it is made of.
use mathlib.Core.List.{append_cancel_left}
use brosettlement_mpc_core.Base.{
  ℕ, ◌≡◌, refl, sym, subst, ◌∙◌, ap, inl, inr, true, not, List, [], ◌∷◌, ◌++◌, append_assoc,
  append-nil, if◌then◌else◌, Bytes, codes, arith, Result, ok, err, >>=-eq-ok, All, Bool-cases,
}
use brosettlement_mpc_core.Text.{trim_space, is_ascii}
use brosettlement_mpc_core.Text.Decimal.{
  format_uint, IsDigit, format_uint-IsDigit, format_uint-injective,
}
use brosettlement_mpc_core.Derivation.Errors.{Error, invalid_context}
use brosettlement_mpc_core.Derivation.PublicKey.{Platform}
use brosettlement_mpc_core.Derivation.Context.Idempotence.{normalize_context_idem}
use brosettlement_mpc_core.Derivation.Context.{Context, normalize_context}
use brosettlement_mpc_core.Derivation.Hash.{
  append_json_string_field, append_json_uint_field, fields, append_fields, write_payload,
  all_valid_utf8, canonical_hash_payload_v1, hash_v1,
}
use brosettlement_mpc_core.Derivation.Hash.Escape.{
  escape_json, append_json_string-escape_json, escape_json_cancel,
}

-- The text that one field adds, up to the opening quote of its value.
abbrev field_head : Bytes → Bytes
field_head name = codes ",\"" ++ (name ++ codes "\":")

print_field : Bytes → Bytes → Bytes
print_field name value = field_head name ++ b'"' ∷ (escape_json value ++ b'"' ∷ [])

append_json_string_field-print_field :
    (dst name value : Bytes)
    → append_json_string_field dst name value ≡ dst ++ print_field name value
unfolding append_json_string_field print_field
append_json_string_field-print_field dst name value =
    rw append_json_string-escape_json (simp append_assoc)

print_fields : List (Bytes × Bytes) → Bytes
print_fields [] = []
print_fields ((name, value) ∷ fs) = print_field name value ++ print_fields fs

append_fields-print_fields :
    (payload : Bytes) (fs : List (Bytes × Bytes))
    → append_fields payload fs ≡ payload ++ print_fields fs
unfolding append_fields print_fields
append_fields-print_fields payload [] = sym (append-nil payload)
append_fields-print_fields payload ((name, value) ∷ fs) =
    append_fields-print_fields (append_json_string_field payload name value) fs
    ∙ ap (λ d. d ++ print_fields fs) (append_json_string_field-print_field payload name value)
    ∙ append_assoc payload (print_field name value) (print_fields fs)

-- Two field lists with the same names, in the same order.
abbrev SameNames : List (Bytes × Bytes) → List (Bytes × Bytes) → Type 0
SameNames [] [] = Unit {0}
SameNames [] (f ∷ fs) = ⊥
SameNames (f ∷ fs) [] = ⊥
SameNames (f ∷ fs) (g ∷ gs) = (f.0 ≡ g.0) × SameNames fs gs

print_fields-cons :
    (name value : Bytes) (fs : List (Bytes × Bytes)) (r : Bytes)
    → print_fields ((name, value) ∷ fs) ++ r
      ≡ field_head name ++ b'"' ∷ (escape_json value ++ b'"' ∷ (print_fields fs ++ r))
unfolding print_fields print_field
print_fields-cons name value fs r = simp append_assoc

-- Two texts behind the same head.
head_cancel :
    (name name' r r' : Bytes)
    → name ≡ name'
    → field_head name ++ r ≡ field_head name' ++ r'
    → r ≡ r'
head_cancel name name' r r' same e =
    append_cancel_left (field_head name) r r' (e ∙ ap (λ n. field_head n ++ r') (sym same))

print_fields_cancel :
    (fs gs : List (Bytes × Bytes)) (r r' : Bytes)
    → SameNames fs gs
    → print_fields fs ++ r ≡ print_fields gs ++ r'
    → (fs ≡ gs) × (r ≡ r')
print_fields_cancel [] [] r r' h e = (refl, unfold print_fields in e)
print_fields_cancel [] (g ∷ gs) r r' h e = absurd h
print_fields_cancel (f ∷ fs) [] r r' h e = absurd h
print_fields_cancel ((n, v) ∷ fs) ((m, w) ∷ gs) r r' (same, h) e =
    let bodies =
      head_cancel n m (b'"' ∷ (escape_json v ++ b'"' ∷ (print_fields fs ++ r)))
        (b'"' ∷ (escape_json w ++ b'"' ∷ (print_fields gs ++ r'))) same
        (sym (print_fields-cons n v fs r) ∙ e ∙ print_fields-cons m w gs r') in
    let (value, rest) =
      escape_json_cancel v w (print_fields fs ++ r) (print_fields gs ++ r') (cc) in
    let (tail, after) = print_fields_cancel fs gs r r' h rest in
    (λ i. (same i, value i) ∷ tail i, after)

-- Two digit strings that end where something else begins are equal.
digits_cancel :
    (s t : Bytes) (c d : ℕ) (r r' : Bytes)
    → All IsDigit s
    → All IsDigit t
    → ¬ IsDigit c
    → ¬ IsDigit d
    → s ++ c ∷ r ≡ t ++ d ∷ r'
    → (s ≡ t) × (r ≡ r')
digits_cancel [] [] c d r r' hs ht hc hd e = (refl, cc)
digits_cancel [] (y ∷ t) c d r r' hs (hy, ht) hc hd e = absurd (hc (subst IsDigit (cc) hy))
digits_cancel (x ∷ s) [] c d r r' (hx, hs) ht hc hd e = absurd (hd (subst IsDigit (cc) hx))
digits_cancel (x ∷ s) (y ∷ t) c d r r' (hx, hs) (hy, ht) hc hd e =
    let (tail, after) = digits_cancel s t c d r r' hs ht hc hd (cc) in (cc, after)

number_cancel :
    (m n c d : ℕ) (r r' : Bytes)
    → ¬ IsDigit c
    → ¬ IsDigit d
    → format_uint m ++ c ∷ r ≡ format_uint n ++ d ∷ r'
    → (m ≡ n) × (r ≡ r')
number_cancel m n c d r r' hc hd e =
    let (text, after) =
      digits_cancel (format_uint m) (format_uint n) c d r r' (format_uint-IsDigit m)
        (format_uint-IsDigit n) hc hd e in
    (format_uint-injective m n text, after)

abbrev numbers : Context → Bytes
numbers c =
    field_head (codes "descriptor_version")
    ++ (format_uint c.descriptor_version
        ++ (field_head (codes "profile_version")
            ++ (format_uint c.profile_version
                ++ (field_head (codes "key_version") ++ (format_uint c.key_version ++ b'}' ∷ [])))))

write_payload-numbers :
    (c : Context)
    → write_payload c ≡ codes "{\"version\":1" ++ (print_fields (fields c) ++ numbers c)
unfolding write_payload append_json_uint_field
write_payload-numbers c = rw append_fields-print_fields (simp append_assoc)

-- The fields of a context that the hash covers.
pub record SameHashed (a b : Context) : Type 0 where
  pub strings : fields a ≡ fields b
  pub descriptor_version : a.descriptor_version ≡ b.descriptor_version
  pub profile_version : a.profile_version ≡ b.profile_version
  pub key_version : a.key_version ≡ b.key_version

number_field_cancel :
    (name : Bytes) (m n c : ℕ) (r r' : Bytes)
    → ¬ IsDigit c
    → field_head name ++ (format_uint m ++ c ∷ r) ≡ field_head name ++ (format_uint n ++ c ∷ r')
    → (m ≡ n) × (r ≡ r')
number_field_cancel name m n c r r' hc e =
    number_cancel m n c c r r' hc hc
      (append_cancel_left (field_head name) (format_uint m ++ c ∷ r) (format_uint n ++ c ∷ r') e)

-- What follows the comma between two numbers.
abbrev after_comma : Bytes → Bytes
after_comma name = b'"' ∷ (name ++ codes "\":")

three_numbers_cancel :
    (x1 x2 x3 : Bytes) (d d' v v' k k' : ℕ)
    → field_head x1
        ++ (format_uint d
            ++ b','
              ∷ (after_comma x2
                  ++ (format_uint v ++ b',' ∷ (after_comma x3 ++ (format_uint k ++ b'}' ∷ [])))))
      ≡ field_head x1
        ++ (format_uint d'
            ++ b','
              ∷ (after_comma x2
                  ++ (format_uint v' ++ b',' ∷ (after_comma x3 ++ (format_uint k' ++ b'}' ∷ [])))))
    → (d ≡ d') × (v ≡ v') × (k ≡ k')
three_numbers_cancel x1 x2 x3 d d' v v' k k' e =
    let (ed, e1) = number_field_cancel x1 d d' b',' _ _ (omega arith) e in
    let (ev, e2) = number_field_cancel x2 v v' b',' _ _ (omega arith) (ap (λ t. b',' ∷ t) e1) in
    let (ek, e3) = number_field_cancel x3 k k' b'}' [] [] (omega arith) (ap (λ t. b',' ∷ t) e2) in
    (ed, ev, ek)

numbers_cancel :
    (a b : Context)
    → numbers a ≡ numbers b
    → (a.descriptor_version ≡ b.descriptor_version)
      × (a.profile_version ≡ b.profile_version)
      × (a.key_version ≡ b.key_version)
numbers_cancel a b e =
    three_numbers_cancel (codes "descriptor_version") (codes "profile_version")
      (codes "key_version") a.descriptor_version b.descriptor_version a.profile_version
      b.profile_version a.key_version b.key_version e

write_payload-injective : (a b : Context) → write_payload a ≡ write_payload b → SameHashed a b
write_payload-injective a b e =
    let texts =
      append_cancel_left (codes "{\"version\":1") (print_fields (fields a) ++ numbers a)
        (print_fields (fields b) ++ numbers b)
        (sym (write_payload-numbers a) ∙ e ∙ write_payload-numbers b) in
    let (same, rest) =
      print_fields_cancel (fields a) (fields b) (numbers a) (numbers b)
        (refl, (refl, (refl, (refl, (refl, (refl, (refl, (refl, (refl, (refl, (refl, tt)))))))))))
        texts in
    let (d, v, k) = numbers_cancel a b rest in
    record { strings = same; descriptor_version = d; profile_version = v; key_version = k }

-- What a payload is, where there is one.
IsPayload : Platform → Context → Bytes → Type 0
IsPayload p c out =
    (n : Context) × (normalize_context p c ≡ ok n)
    × (all_valid_utf8 (fields n) ≡ true)
    × (write_payload n ≡ out)

checked_payload :
    (n : Context) (out : Bytes)
    → ◌≡◌ {A = Result Error Bytes}
        (if not (all_valid_utf8 (fields n)) then err invalid_context else ok (write_payload n))
        (ok out)
    → (all_valid_utf8 (fields n) ≡ true) × (write_payload n ≡ out)
checked_payload n out h = elim (Bool-cases (all_valid_utf8 (fields n))) [
  | inl valid ↦ (valid, ground (arith, valid, h))
  | inr invalid ↦ absurd (ground (arith, invalid, h))
]

canonical_hash_payload_v1-IsPayload :
    (p : Platform) (c : Context) (out : Bytes)
    → canonical_hash_payload_v1 p c ≡ ok out
    → IsPayload p c out
unfolding canonical_hash_payload_v1 IsPayload
canonical_hash_payload_v1-IsPayload p c out h =
    let (n, e, rest) = >>=-eq-ok (normalize_context p c) _ h in
    let (valid, written) = checked_payload n out rest in (n, e, valid, written)

shared_payload :
    (p : Platform) (a b : Context) (out : Bytes)
    → IsPayload p a out
    → IsPayload p b out
    → (na : Context) × ((nb : Context) × ((normalize_context p a ≡ ok na)
          × ((normalize_context p b ≡ ok nb) × SameHashed na nb)))
unfolding IsPayload
shared_payload p a b out (na, ea, va, wa) (nb, eb, vb, wb) =
    (na, (nb, (ea, (eb, write_payload-injective na nb (wa ∙ sym wb)))))

-- Two contexts with the same payload normalise to contexts that agree in every hashed field.
pub canonical_hash_payload_v1-injective :
    (p : Platform) (a b : Context) (out : Bytes)
    → canonical_hash_payload_v1 p a ≡ ok out
    → canonical_hash_payload_v1 p b ≡ ok out
    → (na : Context) × ((nb : Context) × ((normalize_context p a ≡ ok na)
          × ((normalize_context p b ≡ ok nb) × SameHashed na nb)))
canonical_hash_payload_v1-injective p a b out ha hb =
    shared_payload p a b out (canonical_hash_payload_v1-IsPayload p a out ha)
      (canonical_hash_payload_v1-IsPayload p b out hb)

-- A context and its normal form have the same hash, if the public key format is ASCII.
pub hash_v1-normalize_context :
    (p : Platform) (sha256 : Bytes → Bytes) (c out : Context)
    → is_ascii (trim_space c.public_key_format) ≡ true
    → normalize_context p c ≡ ok out
    → hash_v1 p sha256 c ≡ hash_v1 p sha256 out
unfolding hash_v1 canonical_hash_payload_v1
hash_v1-normalize_context p sha256 c out ascii h = rw (h, normalize_context_idem p c out ascii h)
