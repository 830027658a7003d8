-- ===== src/Derivation/Path.antt =====
-- internal/tss/derivation/path.go: account, child and full derivation paths.
pub mod Segment
pub mod Marks
pub mod Account
pub mod Child
pub mod Full
use brosettlement_mpc_core.Base.{
  ℕ, zero, suc, ◌+◌, ◌-◌, ◌^◌, ◌≡◌, refl, Bool, true, false, not, ◌&&◌, ◌||◌, Option, none, some,
  List, [], ◌∷◌, ◌++◌, Bytes, codes, ltb, leb, ◌==◌, ◌=?◌, if◌then◌else◌, Result, ok, err, ◌>>=◌,
  length, get_or, take, drop,
}
use brosettlement_mpc_core.Text.{
  has_prefix, trim_prefix, ends_with, trim_suffix, contains_any, trim_space, split, join,
}
use brosettlement_mpc_core.Text.Decimal.{parse_uint32, format_uint}
use brosettlement_mpc_core.Derivation.Errors.{Error, invalid_context, path_invalid}

-- Indices from here on are hardened in BIP32.
abbrev pub hardened_start : ℕ
hardened_start = 2 ^ 31

-- The end of `normalizeAccountPathComponent`, over the parsed `core`.
finish_component : Bool → Option ℕ → Result Error Bytes
finish_component hardened none = err invalid_context
finish_component hardened (some n) =
    if leb hardened_start n
    then err invalid_context
    else if hardened
    then ok (format_uint n ++ b'\'' ∷ [])
    else ok (format_uint n)

unfoldable pub normalize_account_path_component : Bytes → Result Error Bytes
unfolding finish_component
normalize_account_path_component part =
    if (part =? []) || contains_any (codes " +-") part
    then err invalid_context
    else let hardened = ends_with b'\'' part || ends_with b'h' part || ends_with b'H' part in
      let core = trim_suffix b'H' (trim_suffix b'h' (trim_suffix b'\'' part)) in
      if (core =? []) || contains_any (codes "'hH") core
      then err invalid_context
      else finish_component hardened (parse_uint32 core)

-- The loop over the parts, which stops at the first error.
unfoldable pub normalize_components : List Bytes → Result Error (List Bytes)
normalize_components [] = ok []
normalize_components (part ∷ parts) = do
  normalized ← normalize_account_path_component part
  rest ← normalize_components parts
  ok (normalized ∷ rest)

unfoldable pub normalize_account_path : Bytes → Result Error Bytes
normalize_account_path raw =
    let s = trim_space raw in
    if (s =? []) || (s =? codes "m") || not (has_prefix (codes "m/") s)
    then err invalid_context
    else do
      out ← normalize_components (split b'/' (trim_prefix (codes "m/") s))
      ok (codes "m/" ++ join b'/' out)

abbrev first_is_zero : Bytes → Bool
first_is_zero [] = false
first_is_zero (c ∷ s) = c == b'0'

finish_index : Option ℕ → Result Error ℕ
finish_index none = err path_invalid
finish_index (some n) = if leb hardened_start n then err path_invalid else ok n

-- One round of the loop of `NormalizeChildPath`.
unfoldable pub parse_child_index : Bytes → Result Error ℕ
unfolding finish_index
parse_child_index part =
    if contains_any (codes "'hH +-") part
    then err path_invalid
    else if (part =? []) || (ltb 1 (length part) && first_is_zero part)
    then err path_invalid
    else finish_index (parse_uint32 part)

unfoldable pub parse_child_indices : List Bytes → Result Error (List ℕ)
parse_child_indices [] = ok []
parse_child_indices (part ∷ parts) = do
  n ← parse_child_index part
  rest ← parse_child_indices parts
  ok (n ∷ rest)

abbrev pub print_child : List ℕ → Bytes
print_child indices =
    b'/' ∷ format_uint (get_or indices 0 0) ++ b'/' ∷ format_uint (get_or indices 1 0)

unfoldable pub normalize_child_path : Bytes → Result Error (Bytes × List ℕ)
normalize_child_path raw =
    let s = trim_space raw in
    if (s =? []) || has_prefix (codes "m/") s || not (has_prefix (codes "/") s)
    then err path_invalid
    else let parts = split b'/' (trim_prefix (codes "/") s) in
      if not (length parts == 2)
      then err path_invalid
      else do indices ← parse_child_indices parts; ok (print_child indices, indices)

-- `strings.TrimRight(s, "/")`
unfoldable pub trim_right_slashes : Bytes → Bytes
trim_right_slashes [] = []
trim_right_slashes (c ∷ s) =
    let rest = trim_right_slashes s in if (rest =? []) && (c == b'/') then [] else c ∷ rest

unfoldable pub canonical_full_path : Bytes → Bytes → Bytes
canonical_full_path account_path child_path = trim_right_slashes account_path ++ child_path

unfoldable pub normalize_full_path : Bytes → Result Error Bytes
normalize_full_path raw =
    let s = trim_space raw in
    if (s =? []) || (not (s =? codes "m") && not (has_prefix (codes "m/") s))
    then err path_invalid
    else let parts = split b'/' (trim_prefix (codes "m/") s) in
      if ltb (length parts) 3 then err path_invalid else do
        account ← normalize_account_path (codes "m/" ++ join b'/' (take (length parts - 2) parts))
        child ← normalize_child_path (codes "/" ++ join b'/' (drop (length parts - 2) parts))
        ok (canonical_full_path account child.0)
