-- ===== src/Derivation/Hash.antt =====
-- internal/tss/derivation/hash.go: the canonical JSON payload of a context and its hash.
-- SHA-256 is the parameter `sha256`.
pub mod Escape
pub mod Payload
use brosettlement_mpc_core.Base.{
  ℕ, zero, suc, ◌+◌, ◌/◌, ◌%◌, ◌≡◌, refl, Bool, true, false, not, ◌&&◌, ◌||◌, List, [], ◌∷◌, ◌++◌,
  Bytes, codes, leb, ltb, ◌==◌, if◌then◌else◌, Result, ok, err, ◌>>=◌, get_or, Option, none, some,
}
use brosettlement_mpc_core.Text.Decimal.{format_uint}
use brosettlement_mpc_core.Derivation.Errors.{Error, invalid_context}
use brosettlement_mpc_core.Derivation.PublicKey.{Platform}
use brosettlement_mpc_core.Derivation.Context.{Context, normalize_context}

-- The bytes that may follow the first byte of a character: a range for each.
abbrev pub Range : Type 0
Range = ℕ × ℕ

abbrev pub tail_byte : Range
tail_byte = (0x80, 0xbf)

unfoldable pub following : ℕ → Option (List Range)
following c =
    if leb c 0x7f
    then some []
    else if leb c 0xc1
    then none
    else if leb c 0xdf
    then some (tail_byte ∷ [])
    else if c == 0xe0
    then some ((0xa0, 0xbf) ∷ tail_byte ∷ [])
    else if c == 0xed
    then some ((0x80, 0x9f) ∷ tail_byte ∷ [])
    else if leb c 0xef
    then some (tail_byte ∷ tail_byte ∷ [])
    else if c == 0xf0
    then some ((0x90, 0xbf) ∷ tail_byte ∷ tail_byte ∷ [])
    else if leb c 0xf3
    then some (tail_byte ∷ tail_byte ∷ tail_byte ∷ [])
    else if c == 0xf4
    then some ((0x80, 0x8f) ∷ tail_byte ∷ tail_byte ∷ [])
    else none

-- `utf8.ValidString`; the first argument is what the current character still needs.
unfoldable pub valid_utf8_from : List Range → Bytes → Bool
unfolding following
valid_utf8_from [] [] = true
valid_utf8_from (r ∷ rs) [] = false
valid_utf8_from ((lo, hi) ∷ rs) (c ∷ s) =
    let rest = valid_utf8_from rs s in if leb lo c && leb c hi then rest else false
valid_utf8_from [] (c ∷ s) = elim (following c) [ none ↦ false | some rs ↦ valid_utf8_from rs s ]

unfoldable pub valid_utf8 : Bytes → Bool
unfolding valid_utf8_from
valid_utf8 s = valid_utf8_from [] s

abbrev pub json_hex : Bytes
json_hex = codes "0123456789abcdef"

-- The `switch` of `appendJSONString`: the escape of a byte, or none if the byte is copied.
unfoldable pub json_escape : ℕ → Option Bytes
json_escape c =
    if c == b'\\'
    then some (codes "\\\\")
    else if c == b'"'
    then some (codes "\\\"")
    else if c == 8
    then some (codes "\\b")
    else if c == 12
    then some (codes "\\f")
    else if c == 10
    then some (codes "\\n")
    else if c == 13
    then some (codes "\\r")
    else if c == 9
    then some (codes "\\t")
    else if ltb c 0x20
    then some (codes "\\u00" ++ get_or json_hex (c / 16) 0 ∷ get_or json_hex (c % 16) 0 ∷ [])
    else none

-- The loop: `run` is `s[start:i]`, the bytes that wait to be copied.
unfoldable pub json_loop : Bytes → Bytes → Bytes → Bytes
json_loop dst run [] = dst ++ run
json_loop dst run (c ∷ s) = elim (json_escape c) [
  | none ↦ json_loop dst (run ++ c ∷ []) s
  | some esc ↦ json_loop ((dst ++ run) ++ esc) [] s
]

unfoldable pub append_json_string : Bytes → Bytes → Bytes
unfolding json_loop
append_json_string dst s = json_loop (dst ++ b'"' ∷ []) [] s ++ b'"' ∷ []

unfoldable pub append_json_string_field : Bytes → Bytes → Bytes → Bytes
unfolding append_json_string
append_json_string_field dst name value =
    append_json_string (((dst ++ codes ",\"") ++ name) ++ codes "\":") value

unfoldable pub append_json_uint_field : Bytes → Bytes → ℕ → Bytes
append_json_uint_field dst name value =
    (((dst ++ codes ",\"") ++ name) ++ codes "\":") ++ format_uint value

abbrev pub fields : Context → List (Bytes × Bytes)
fields ctx =
    (codes "profile_id", ctx.profile_id)
    ∷ (codes "profile_template_id", ctx.profile_template_id)
    ∷ (codes "chain", ctx.chain)
    ∷ (codes "algorithm", ctx.algorithm)
    ∷ (codes "curve", ctx.curve)
    ∷ (codes "scheme", ctx.scheme)
    ∷ (codes "public_key_format", ctx.public_key_format)
    ∷ (codes "account_path", ctx.account_path)
    ∷ (codes "child_path", ctx.child_path)
    ∷ (codes "full_path", ctx.full_path)
    ∷ (codes "derived_public_key", ctx.derived_public_key)
    ∷ []

unfoldable pub all_valid_utf8 : List (Bytes × Bytes) → Bool
unfolding valid_utf8
all_valid_utf8 [] = true
all_valid_utf8 ((name, value) ∷ fs) = valid_utf8 value && all_valid_utf8 fs

unfoldable pub append_fields : Bytes → List (Bytes × Bytes) → Bytes
unfolding append_json_string_field
append_fields payload [] = payload
append_fields payload ((name, value) ∷ fs) =
    append_fields (append_json_string_field payload name value) fs

unfoldable pub write_payload : Context → Bytes
unfolding append_fields append_json_uint_field
write_payload ctx =
    let payload = append_fields (codes "{\"version\":1") (fields ctx) in
    let payload =
      append_json_uint_field payload (codes "descriptor_version") ctx.descriptor_version in
    let payload = append_json_uint_field payload (codes "profile_version") ctx.profile_version in
    let payload = append_json_uint_field payload (codes "key_version") ctx.key_version in
    payload ++ b'}' ∷ []

unfoldable pub canonical_hash_payload_v1 : Platform → Context → Result Error Bytes
unfolding all_valid_utf8 write_payload
canonical_hash_payload_v1 p c = do
  ctx ← normalize_context p c
  if not (all_valid_utf8 (fields ctx)) then err invalid_context else ok (write_payload ctx)

unfoldable pub hex_encode : Bytes → Bytes
hex_encode [] = []
hex_encode (c ∷ s) = get_or json_hex (c / 16) 0 ∷ get_or json_hex (c % 16) 0 ∷ hex_encode s

abbrev pub hash_domain_v1 : Bytes
hash_domain_v1 = codes "brosettlement.derivation_context.v1"

unfoldable pub hash_v1 : Platform → (Bytes → Bytes) → Context → Result Error Bytes
unfolding hex_encode
hash_v1 p sha256 c = do
  payload ← canonical_hash_payload_v1 p c
  ok (hex_encode (sha256 ((hash_domain_v1 ++ codes "\n") ++ payload)))
