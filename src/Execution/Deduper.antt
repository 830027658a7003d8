-- ===== src/Execution/Deduper.antt =====
-- internal/tssbnb/execution/deduper.go and `shortHash`: frames that were seen before.
-- A clock reading is the nanoseconds since 1970 and is not negative; `ts < now - ttl` is written
-- `ts + ttl < now`. The map is a list, in the order in which Go's `range` happens to take it.
pub mod Bounds
pub mod Key
pub mod Replay
use brosettlement_mpc_core.Base.{
  ℕ, ◌+◌, ◌%◌, ◌≡◌, refl, Bool, true, false, not, ◌||◌, Option, none, some, List, [], ◌∷◌, Bytes,
  ltb, leb, ◌==◌, ◌=?◌, if◌then◌else◌, length, take,
}
use brosettlement_mpc_core.Table.{has_key, delete, filter}
use brosettlement_mpc_core.Text.{join}
use brosettlement_mpc_core.Text.Decimal.{format_uint}
use brosettlement_mpc_core.Derivation.Hash.{hex_encode}
use brosettlement_mpc_core.Protocol.{Frame}
use brosettlement_mpc_core.Execution.Errors.{Error, duplicate_frame, frame_too_large}

abbrev pub dedup_prune_every : ℕ
dedup_prune_every = 128

abbrev pub uint64_size : ℕ
uint64_size = 18446744073709551616

pub record Deduper : Type 0 where
  pub seen : List (Bytes × ℕ)
  pub insertions : ℕ  -- uint64
  pub ttl_nanos : ℕ
  pub max_entries : ℕ
  pub max_frame_size : ℕ

unfoldable pub new_deduper : ℕ → ℕ → ℕ → Deduper
new_deduper ttl max_entries max_frame_bytes = record {
  seen = [];
  insertions = 0;
  ttl_nanos = ttl;
  max_entries = max_entries;
  max_frame_size = max_frame_bytes;
}

unfoldable pub short_hash : (Bytes → Bytes) → Bytes → Bytes
short_hash sha256 payload = hex_encode (take 8 (sha256 payload))

unfoldable pub key_hash : (Bytes → Bytes) → Frame → Bytes
unfolding short_hash
key_hash sha256 frame =
    if frame.payload_hash =? [] then short_hash sha256 frame.payload else frame.payload_hash

unfoldable pub key_parts : (Bytes → Bytes) → Frame → List Bytes
key_parts sha256 frame =
    frame.session_id
    ∷ frame.stage
    ∷ frame.from_party
    ∷ format_uint frame.seq
    ∷ key_hash sha256 frame
    ∷ []

unfoldable pub frame_dedup_key : (Bytes → Bytes) → Frame → Bytes
unfolding key_parts
frame_dedup_key sha256 frame = join b'|' (key_parts sha256 frame)

-- The entries that are not older than the TTL.
abbrev pub fresh : ℕ → ℕ → Bytes × ℕ → Bool
fresh ttl now (key, ts) = not (ltb (ts + ttl) now)

unfoldable pub prune : Deduper → ℕ → List (Bytes × ℕ)
unfolding filter
prune d now =
    if d.insertions % dedup_prune_every == 0 then filter (fresh d.ttl_nanos now) d.seen else d.seen

-- The loop for the oldest entry; an empty key stands for none.
unfoldable pub oldest_from : Bytes → ℕ → List (Bytes × ℕ) → Bytes
oldest_from key ts [] = key
oldest_from key ts ((k, t) ∷ rest) =
    let older = (key =? []) || ltb t ts in
    oldest_from (if older then k else key) (if older then t else ts) rest

unfoldable pub oldest : List (Bytes × ℕ) → Bytes
unfolding oldest_from
oldest seen = oldest_from [] 0 seen

unfoldable pub evict : ℕ → List (Bytes × ℕ) → List (Bytes × ℕ)
unfolding oldest delete
evict max_entries seen =
    if leb max_entries (length seen)
    then if oldest seen =? [] then seen else delete (oldest seen) seen
    else seen

unfoldable pub accept_key : Deduper → Bytes → ℕ → Deduper × (Bool × Option Error)
unfolding has_key
accept_key d key now = if has_key key d.seen then (d, (false, some (duplicate_frame ∷ []))) else (
  record d { seen = (key, now) ∷ d.seen; insertions = (d.insertions + 1) % uint64_size },
  (true, none),
)

unfoldable pub should_accept :
    (Bytes → Bytes) → Deduper → Frame → ℕ → Deduper × (Bool × Option Error)
unfolding prune evict accept_key frame_dedup_key
should_accept sha256 d frame now =
    if ltb d.max_frame_size (length frame.payload)
    then (d, (false, some (frame_too_large ∷ [])))
    else accept_key (record d { seen = evict d.max_entries (prune d now) })
        (frame_dedup_key sha256 frame) now
