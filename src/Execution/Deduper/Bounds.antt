-- ===== src/Execution/Deduper/Bounds.antt =====
-- The table of seen frames stays a table and within its bound.
use brosettlement_mpc_core.Base.{
  ℕ, ◌≤◌, ◌<◌, ◌≡◌, refl, inl, inr, ◌⊎◌, Bool, true, false, List, [], ◌∷◌, ◌++◌, Bytes, ltb, ◌=?◌,
  =?_iff, =?_refl, Bool-cases, length, arith,
}
use brosettlement_mpc_core.Table.{
  has_key, delete, filter, IsTable, delete-IsTable, filter-IsTable, length-delete_present,
  length-filter,
}
use brosettlement_mpc_core.Text.{join}
use brosettlement_mpc_core.Protocol.{Frame}
use brosettlement_mpc_core.Execution.Deduper.{
  Deduper, fresh, prune, oldest_from, oldest, evict, accept_key, frame_dedup_key, key_parts,
  should_accept,
}

-- No key is empty.
abbrev pub IsNamed : List (Bytes × ℕ) → Type 0
IsNamed [] = Unit {0}
IsNamed ((k, t) ∷ seen) = ((k =? []) ≡ false) × IsNamed seen

delete-IsNamed : (key : Bytes) (seen : List (Bytes × ℕ)) → IsNamed seen → IsNamed (delete key seen)
unfolding delete
delete-IsNamed key [] h = tt
delete-IsNamed key ((k, t) ∷ seen) (named, h) = elim (Bool-cases (k =? key)) [
  | inl same ↦ rw same (delete-IsNamed key seen h)
  | inr differ ↦ rw differ (named, delete-IsNamed key seen h)
]

filter-IsNamed :
    (p : Bytes × ℕ → Bool) (seen : List (Bytes × ℕ)) → IsNamed seen → IsNamed (filter p seen)
unfolding filter
filter-IsNamed p [] h = tt
filter-IsNamed p ((k, t) ∷ seen) (named, h) = elim (Bool-cases (p (k, t))) [
  | inl kept ↦ rw kept (named, filter-IsNamed p seen h)
  | inr gone ↦ rw gone (filter-IsNamed p seen h)
]

-- The loop ends at the key it holds or at one of the table.
oldest_from-present :
    (key : Bytes) (ts : ℕ) (seen : List (Bytes × ℕ))
    → IsNamed seen
    → (oldest_from key ts seen ≡ key) ⊎ (has_key (oldest_from key ts seen) seen ≡ true)
unfolding oldest_from has_key
oldest_from-present key ts [] h = inl refl
oldest_from-present key ts ((k, t) ∷ seen) (named, h) =
    ground (arith, oldest_from-present k t seen h, oldest_from-present key ts seen h, =?_refl k)

pub has_key-oldest :
    (k : Bytes) (t : ℕ) (seen : List (Bytes × ℕ))
    → IsNamed seen
    → has_key (oldest ((k, t) ∷ seen)) ((k, t) ∷ seen) ≡ true
unfolding oldest oldest_from has_key ◌=?◌
has_key-oldest k t seen h = elim (oldest_from-present k t seen h) [
  | inl same ↦ rw (same, =?_refl k) refl
  | inr later ↦ ground (arith, later)
]

IsNamed-lacks : (seen : List (Bytes × ℕ)) → IsNamed seen → has_key [] seen ≡ false
unfolding has_key
IsNamed-lacks [] h = refl
IsNamed-lacks ((k, t) ∷ seen) (named, h) = rw named (IsNamed-lacks seen h)

present_named :
    (key : Bytes) (seen : List (Bytes × ℕ))
    → IsNamed seen
    → has_key key seen ≡ true
    → (key =? []) ≡ false
present_named key seen h present = elim (Bool-cases (key =? [])) [
  | inr named ↦ named
  | inl empty ↦ absurd (cc (present, IsNamed-lacks seen h, (=?_iff key []).0 empty))
]

pub oldest-named :
    (k : Bytes) (t : ℕ) (seen : List (Bytes × ℕ))
    → IsNamed ((k, t) ∷ seen)
    → (oldest ((k, t) ∷ seen) =? []) ≡ false
oldest-named k t seen (named, h) =
    present_named (oldest ((k, t) ∷ seen)) ((k, t) ∷ seen) (named, h) (has_key-oldest k t seen h)

-- Eviction makes room for one more entry.
pub length-evict :
    (max_entries : ℕ) (seen : List (Bytes × ℕ))
    → IsNamed seen
    → 1 ≤ max_entries
    → length seen ≤ max_entries
    → length (evict max_entries seen) < max_entries
unfolding evict
length-evict max_entries [] h room bound = ground arith
length-evict max_entries ((k, t) ∷ seen) (named, h) room bound = ground (
  arith,
  oldest-named k t seen (named, h),
  length-delete_present (oldest ((k, t) ∷ seen)) ((k, t) ∷ seen) (has_key-oldest k t seen h),
)

evict-IsTable :
    (max_entries : ℕ) (seen : List (Bytes × ℕ)) → IsTable seen → IsTable (evict max_entries seen)
unfolding evict
evict-IsTable max_entries seen h = ground (arith, delete-IsTable (oldest seen) seen h)

evict-IsNamed :
    (max_entries : ℕ) (seen : List (Bytes × ℕ)) → IsNamed seen → IsNamed (evict max_entries seen)
unfolding evict
evict-IsNamed max_entries seen h = ground (arith, delete-IsNamed (oldest seen) seen h)

-- A table without empty keys, within its bound.
pub record IsBounded (d : Deduper) : Type 0 where
  pub table : IsTable d.seen
  pub named : IsNamed d.seen
  pub room : 1 ≤ d.max_entries
  pub bound : length d.seen ≤ d.max_entries

prune-IsTable : (d : Deduper) (now : ℕ) → IsTable d.seen → IsTable (prune d now)
unfolding prune
prune-IsTable d now h = ground (arith, filter-IsTable (fresh d.ttl_nanos now) d.seen h)

prune-IsNamed : (d : Deduper) (now : ℕ) → IsNamed d.seen → IsNamed (prune d now)
unfolding prune
prune-IsNamed d now h = ground (arith, filter-IsNamed (fresh d.ttl_nanos now) d.seen h)

length-prune : (d : Deduper) (now : ℕ) → length (prune d now) ≤ length d.seen
unfolding prune
length-prune d now = ground (arith, length-filter (fresh d.ttl_nanos now) d.seen)

append-not_empty : (s : Bytes) (c : ℕ) (t : Bytes) → ((s ++ c ∷ t) =? []) ≡ false
unfolding ◌=?◌
append-not_empty [] c t = refl
append-not_empty (x ∷ s) c t = refl

frame_dedup_key-named :
    (sha256 : Bytes → Bytes) (frame : Frame) → (frame_dedup_key sha256 frame =? []) ≡ false
unfolding frame_dedup_key key_parts join
frame_dedup_key-named sha256 frame = append-not_empty frame.session_id _ _

accept_key-IsBounded :
    (d : Deduper) (key : Bytes) (now : ℕ)
    → (key =? []) ≡ false
    → IsTable d.seen
    → IsNamed d.seen
    → length d.seen < d.max_entries
    → IsBounded (accept_key d key now).0
unfolding accept_key
accept_key-IsBounded d key now key_named table named space =
    elim (Bool-cases (has_key key d.seen)) [
      | inl old ↦
          rw old (record { table = table; named = named; room = omega arith; bound = omega arith })
      | inr new ↦ rw new (record {
        table = (new, table);
        named = (key_named, named);
        room = omega arith;
        bound = omega arith;
      })
    ]

-- Whatever frame arrives, `ShouldAccept` keeps the table of seen frames within its configured size,
-- without an empty key and with no key twice.
pub should_accept-IsBounded :
    (sha256 : Bytes → Bytes) (d : Deduper) (frame : Frame) (now : ℕ)
    → IsBounded d
    → IsBounded (should_accept sha256 d frame now).0
unfolding should_accept
should_accept-IsBounded sha256 d frame now h =
    elim (Bool-cases (ltb d.max_frame_size (length frame.payload))) [
      | inl large ↦ rw large h
      | inr fits ↦ rw fits (
          accept_key-IsBounded (record d { seen = evict d.max_entries (prune d now) })
            (frame_dedup_key sha256 frame) now (frame_dedup_key-named sha256 frame)
            (evict-IsTable d.max_entries (prune d now) (prune-IsTable d now h.table))
            (evict-IsNamed d.max_entries (prune d now) (prune-IsNamed d now h.named))
            (length-evict d.max_entries (prune d now) (prune-IsNamed d now h.named) h.room
              (omega (arith, length-prune d now, h.bound))))
    ]
