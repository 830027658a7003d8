-- ===== src/Derivation/Hash/Escape.antt =====
-- The JSON string encoding is uniquely readable.
use brosettlement_mpc_core.Base.{
  ℕ, ◌+◌, ◌-◌, ◌*◌, ◌/◌, ◌%◌, ◌<◌, ◌≡◌, ◌≢◌, refl, sym, ◌∙◌, ap, true, Option, none, some, [], ◌∷◌,
  ◌++◌, append-nil, append_assoc, Bytes, arith, leb, ◌==◌, ==_iff, if◌then◌else◌, get_or,
  every_below, every_below_holds,
}
use brosettlement_mpc_core.Derivation.Hash.{json_hex, json_escape, json_loop, append_json_string}

-- The reference: each byte is written on its own.
pub escape_byte : ℕ → Bytes
escape_byte c = elim (json_escape c) [ none ↦ c ∷ [] | some esc ↦ esc ]

pub escape_json : Bytes → Bytes
escape_json [] = []
escape_json (c ∷ s) = escape_byte c ++ escape_json s

json_loop-escape_json : (dst run s : Bytes) → json_loop dst run s ≡ (dst ++ run) ++ escape_json s
unfolding json_loop escape_json escape_byte
json_loop-escape_json dst run [] = sym (append-nil (dst ++ run))
json_loop-escape_json dst run (c ∷ s) =
    go (json_escape c) refl (json_loop-escape_json dst (run ++ c ∷ []) s)
      λ esc. json_loop-escape_json ((dst ++ run) ++ esc) [] s
  where
    go :
        (o : Option Bytes)
        → json_escape c ≡ o
        → json_loop dst (run ++ c ∷ []) s ≡ (dst ++ (run ++ c ∷ [])) ++ escape_json s
        → ((esc : Bytes)
            → json_loop ((dst ++ run) ++ esc) [] s ≡ (((dst ++ run) ++ esc) ++ []) ++ escape_json s)
        → json_loop dst run (c ∷ s) ≡ (dst ++ run) ++ escape_json (c ∷ s)
    go none e copy escaped =
        let alone : escape_byte c ≡ c ∷ [] = rw (e, escape_byte) in
        let regroup : (dst ++ (run ++ c ∷ [])) ++ escape_json s
            ≡ (dst ++ run) ++ (c ∷ escape_json s) =
          simp append_assoc in
        rw (e, json_loop)
          (copy ∙ regroup ∙ ap (λ b. (dst ++ run) ++ (b ++ escape_json s)) (sym alone))
    go (some esc) e copy escaped =
        let alone : escape_byte c ≡ esc = rw (e, escape_byte) in
        let regroup : (((dst ++ run) ++ esc) ++ []) ++ escape_json s
            ≡ (dst ++ run) ++ (esc ++ escape_json s) =
          simp (append_assoc, append-nil) in
        rw (e, json_loop)
          (escaped esc ∙ regroup ∙ ap (λ b. (dst ++ run) ++ (b ++ escape_json s)) (sym alone))

-- `appendJSONString` writes the quoted escapes of the bytes, one after another.
pub append_json_string-escape_json :
    (dst s : Bytes) → append_json_string dst s ≡ dst ++ b'"' ∷ (escape_json s ++ b'"' ∷ [])
unfolding append_json_string
append_json_string-escape_json dst s =
    rw (json_loop-escape_json (dst ++ b'"' ∷ []) [] s) (simp (append_assoc, append-nil))

-- Reads the first escape off a text.
unhex : ℕ → ℕ
unhex h = if leb h b'9' then h - b'0' else h - 87

read_unicode : Bytes → Option (ℕ × Bytes)
unfolding unhex
read_unicode (z ∷ z' ∷ h ∷ l ∷ r) = some (unhex h * 16 + unhex l, r)
read_unicode r = none

plain_escape : ℕ → ℕ
plain_escape k =
    if k == b'b'
    then 8
    else if k == b'f'
    then 12
    else if k == b'n'
    then 10
    else if k == b'r'
    then 13
    else if k == b't'
    then 9
    else k

read_escape : Bytes → Option (ℕ × Bytes)
unfolding read_unicode plain_escape
read_escape [] = none
read_escape (a ∷ r) = if a == b'\\' then after_backslash r else some (a, r)
  where
    after_backslash : Bytes → Option (ℕ × Bytes)
    after_backslash [] = none
    after_backslash (k ∷ r) = if k == b'u' then read_unicode r else some (plain_escape k, r)

control_table :
    every_below 32
      (λ c. unhex (get_or json_hex (c / 16) 0) * 16 + unhex (get_or json_hex (c % 16) 0) == c)
    ≡ true
unfolding every_below unhex
control_table = refl

control_code :
    (c : ℕ)
    → c < 32
    → unhex (get_or json_hex (c / 16) 0) * 16 + unhex (get_or json_hex (c % 16) 0) ≡ c
unfolding unhex
control_code c h = (==_iff _ c).0 (every_below_holds 32 _ c control_table h)

read_escape-escape_byte : (c : ℕ) (r : Bytes) → read_escape (escape_byte c ++ r) ≡ some (c, r)
unfolding read_escape escape_byte json_escape
read_escape-escape_byte c r = ground (arith, control_code c)

escape_byte_cancel :
    (c d : ℕ) (r r' : Bytes) → escape_byte c ++ r ≡ escape_byte d ++ r' → (c ≡ d) × (r ≡ r')
escape_byte_cancel c d r r' e =
    let same : ◌≡◌ {A = Option (ℕ × Bytes)} (some (c, r)) (some (d, r')) =
      sym (read_escape-escape_byte c r) ∙ ap read_escape e ∙ read_escape-escape_byte d r' in
    (cc, cc)

-- An escape never starts with the closing quote.
escape_byte_open : (c : ℕ) (r r' : Bytes) → escape_byte c ++ r ≢ b'"' ∷ r'
unfolding escape_byte json_escape
escape_byte_open c r r' = ground arith

-- Two quoted strings that agree up to what follows are equal.
pub escape_json_cancel :
    (s t r r' : Bytes) → escape_json s ++ b'"' ∷ r ≡ escape_json t ++ b'"' ∷ r' → (s ≡ t) × (r ≡ r')
unfolding escape_json
escape_json_cancel [] [] r r' e = (refl, cc)
escape_json_cancel [] (d ∷ t) r r' e = absurd (
    escape_byte_open d (escape_json t ++ b'"' ∷ r') r
      (sym (e ∙ append_assoc (escape_byte d) (escape_json t) (b'"' ∷ r'))))
escape_json_cancel (c ∷ s) [] r r' e = absurd (
    escape_byte_open c (escape_json s ++ b'"' ∷ r) r'
      (sym (append_assoc (escape_byte c) (escape_json s) (b'"' ∷ r)) ∙ e))
escape_json_cancel (c ∷ s) (d ∷ t) r r' e =
    let (head, rest) =
      escape_byte_cancel c d (escape_json s ++ b'"' ∷ r) (escape_json t ++ b'"' ∷ r') (
        sym (append_assoc (escape_byte c) (escape_json s) (b'"' ∷ r))
        ∙ e
        ∙ append_assoc (escape_byte d) (escape_json t) (b'"' ∷ r')) in
    let (tail, after) = escape_json_cancel s t r r' rest in (cc, after)
