-- ===== src/Execution/Deduper/Replay.antt =====
-- When a frame that was seen is accepted again, and when not.
use brosettlement_mpc_core.Base.{
  ℕ, suc, ◌+◌, ◌%◌, ◌≤◌, ◌<◌, ◌≡◌, ◌≢◌, refl, sym, subst, ◌∙◌, ap, inl, inr, ◌⊎◌, Bool, true, false,
  ◌||◌, none, some, List, [], ◌∷◌, Bytes, ltb, ◌=?◌, =?_iff, =?_refl, if◌then◌else◌, Bool-cases,
  length, All, arith,
}
use brosettlement_mpc_core.Table.{has_key, delete, filter, has_key-delete}
use brosettlement_mpc_core.Protocol.{Frame}
use brosettlement_mpc_core.Execution.Errors.{Error, duplicate_frame, frame_too_large}
use brosettlement_mpc_core.Execution.Deduper.{
  Deduper, fresh, prune, oldest, evict, accept_key, frame_dedup_key, should_accept,
  dedup_prune_every, uint64_size,
}
use brosettlement_mpc_core.Execution.Deduper.Bounds.{IsBounded, IsNamed, oldest-named}

-- The keys of the frames that are accepted, of those that arrive with their times.
unfoldable pub accepted_keys : (Bytes → Bytes) → Deduper → List (Frame × ℕ) → List Bytes
accepted_keys sha256 d [] = []
accepted_keys sha256 d ((frame, now) ∷ arrivals) =
    let r = should_accept sha256 d frame now in
    let rest = accepted_keys sha256 r.0 arrivals in
    if r.1.0 then frame_dedup_key sha256 frame ∷ rest else rest

abbrev pub occurs : Bytes → List Bytes → Bool
occurs key [] = false
occurs key (k ∷ ks) = (k =? key) || occurs key ks

abbrev pub AllDistinct : List Bytes → Type 0
AllDistinct [] = Unit {0}
AllDistinct (k ∷ ks) = (occurs k ks ≡ false) × AllDistinct ks

filter-fresh :
    (ttl now start : ℕ) (seen : List (Bytes × ℕ))
    → now ≤ start + ttl
    → All (λ e. start ≤ e.1) seen
    → filter (fresh ttl now) seen ≡ seen
unfolding filter
filter-fresh ttl now start [] le h = refl
filter-fresh ttl now start ((k, ts) ∷ seen) le (late, h) =
    ground (arith, filter-fresh ttl now start seen le h)

-- Nothing expires and there is room: arrivals `n` more, each between `start` and `start + ttl`.
pub record IsQuiet (start n : ℕ) (d : Deduper) : Type 0 where
  pub stamped : All (λ e. start ≤ e.1) d.seen
  pub space : length d.seen + n ≤ d.max_entries

abbrev pub IsTimely : ℕ → ℕ → List (Frame × ℕ) → Type 0
IsTimely start ttl = All (λ a. (start ≤ a.1) × (a.1 ≤ start + ttl))

prune_quiet :
    (start now : ℕ) (d : Deduper)
    → now ≤ start + d.ttl_nanos
    → All (λ e. start ≤ e.1) d.seen
    → prune d now ≡ d.seen
unfolding prune
prune_quiet start now d le h = ground (arith, filter-fresh d.ttl_nanos now start d.seen le h)

evict_room :
    (max_entries : ℕ) (seen : List (Bytes × ℕ))
    → length seen < max_entries
    → evict max_entries seen ≡ seen
unfolding evict
evict_room max_entries seen lt = ground arith

abbrev inserted : Deduper → Bytes → ℕ → Deduper
inserted d key now = record d {
  seen = (key, now) ∷ d.seen;
  insertions = (d.insertions + 1) % uint64_size;
}

accept_key-cases :
    (d : Deduper) (key : Bytes) (now : ℕ)
    → ((e : Error) × (accept_key d key now ≡ (d, (false, some e))))
      ⊎ ((has_key key d.seen ≡ false) × (accept_key d key now ≡ (inserted d key now, (true, none))))
unfolding accept_key
accept_key-cases d key now = elim (Bool-cases (has_key key d.seen)) [
  | inl old ↦ inl (duplicate_frame ∷ [], rw old refl)
  | inr new ↦ inr (new, rw new refl)
]

should_accept_quiet :
    (sha256 : Bytes → Bytes) (d : Deduper) (frame : Frame) (start now n : ℕ)
    → now ≤ start + d.ttl_nanos
    → IsQuiet start (suc n) d
    → (should_accept sha256 d frame now ≡ accept_key d (frame_dedup_key sha256 frame) now)
      ⊎ ((e : Error) × (should_accept sha256 d frame now ≡ (d, (false, some e))))
unfolding should_accept
should_accept_quiet sha256 d frame start now n le h =
    elim (Bool-cases (ltb d.max_frame_size (length frame.payload))) [
      | inl large ↦ inr (frame_too_large ∷ [], rw large refl)
      | inr fits ↦ inl (
          rw
            (
              fits,
              prune_quiet start now d le h.stamped,
              evict_room d.max_entries d.seen (omega (arith, h.space)),
            )
            refl)
    ]

should_accept-cases :
    (sha256 : Bytes → Bytes) (d : Deduper) (frame : Frame) (start now n : ℕ)
    → now ≤ start + d.ttl_nanos
    → IsQuiet start (suc n) d
    → ((e : Error) × (should_accept sha256 d frame now ≡ (d, (false, some e))))
      ⊎ ((has_key (frame_dedup_key sha256 frame) d.seen ≡ false)
          × (should_accept sha256 d frame now
              ≡ (inserted d (frame_dedup_key sha256 frame) now, (true, none))))
should_accept-cases sha256 d frame start now n le h =
    elim (should_accept_quiet sha256 d frame start now n le h) [
      | inr refused ↦ inl refused
      | inl e ↦ rw e (accept_key-cases d (frame_dedup_key sha256 frame) now)
    ]

-- What one arrival does to the keys that are accepted.
accepted_keys-refused :
    (sha256 : Bytes → Bytes) (d : Deduper) (frame : Frame) (now : ℕ) (es : List (Frame × ℕ))
    (e : Error)
    → should_accept sha256 d frame now ≡ (d, (false, some e))
    → accepted_keys sha256 d ((frame, now) ∷ es) ≡ accepted_keys sha256 d es
unfolding accepted_keys
accepted_keys-refused sha256 d frame now es e h = rw h refl

accepted_keys-accepted :
    (sha256 : Bytes → Bytes) (d d' : Deduper) (frame : Frame) (now : ℕ) (es : List (Frame × ℕ))
    → should_accept sha256 d frame now ≡ (d', (true, none))
    → accepted_keys sha256 d ((frame, now) ∷ es)
      ≡ frame_dedup_key sha256 frame ∷ accepted_keys sha256 d' es
unfolding accepted_keys
accepted_keys-accepted sha256 d d' frame now es h = rw h refl

inserted-IsQuiet :
    (start n : ℕ) (d : Deduper) (key : Bytes) (now : ℕ)
    → start ≤ now
    → IsQuiet start (suc n) d
    → IsQuiet start n (inserted d key now)
inserted-IsQuiet start n d key now le h = record {
  stamped = (le, h.stamped);
  space = omega (arith, h.space);
}

shrink-IsQuiet : (start n : ℕ) (d : Deduper) → IsQuiet start (suc n) d → IsQuiet start n d
shrink-IsQuiet start n d h = record { stamped = h.stamped; space = omega (arith, h.space) }

inserted-has_key :
    (d : Deduper) (key other : Bytes) (now : ℕ)
    → has_key other d.seen ≡ true
    → has_key other (inserted d key now).seen ≡ true
unfolding has_key
inserted-has_key d key other now h = ground (arith, h)

inserted-key : (d : Deduper) (key : Bytes) (now : ℕ) → has_key key (inserted d key now).seen ≡ true
unfolding has_key
inserted-key d key now = rw (=?_refl key) refl

seen_differs :
    (k key : Bytes) (seen : List (Bytes × ℕ))
    → has_key k seen ≡ false
    → has_key key seen ≡ true
    → (k =? key) ≡ false
seen_differs k key seen new old = elim (Bool-cases (k =? key)) [
  | inl same ↦ absurd (cc (new, old, (=?_iff k key).0 same))
  | inr differ ↦ differ
]

-- A key that was seen is not accepted.
accepted_keys-seen :
    (sha256 : Bytes → Bytes) (start : ℕ) (d : Deduper) (es : List (Frame × ℕ)) (key : Bytes)
    → IsTimely start d.ttl_nanos es
    → IsQuiet start (length es) d
    → has_key key d.seen ≡ true
    → occurs key (accepted_keys sha256 d es) ≡ false
unfolding accepted_keys
accepted_keys-seen sha256 start d [] key times h seen = refl
accepted_keys-seen sha256 start d ((frame, now) ∷ es) key ((late, soon), times) h seen =
    elim (should_accept-cases sha256 d frame start now (length es) soon h) [
      | inl (e, refused) ↦
          ap (occurs key) (accepted_keys-refused sha256 d frame now es e refused)
          ∙ accepted_keys-seen sha256 start d es key times (shrink-IsQuiet start (length es) d h)
              seen
      | inr (new, accepted) ↦
          ap (occurs key) (accepted_keys-accepted sha256 d _ frame now es accepted)
          ∙ rw (seen_differs (frame_dedup_key sha256 frame) key d.seen new seen) (
              accepted_keys-seen sha256 start (inserted d (frame_dedup_key sha256 frame) now) es key
                times
                (inserted-IsQuiet start (length es) d (frame_dedup_key sha256 frame) now late h)
                (inserted-has_key d (frame_dedup_key sha256 frame) key now seen))
    ]

-- Within one TTL, and while the table has room for every arrival, no key is accepted twice.
pub accepted_keys-AllDistinct :
    (sha256 : Bytes → Bytes) (start : ℕ) (d : Deduper) (es : List (Frame × ℕ))
    → IsTimely start d.ttl_nanos es
    → IsQuiet start (length es) d
    → AllDistinct (accepted_keys sha256 d es)
unfolding accepted_keys
accepted_keys-AllDistinct sha256 start d [] times h = tt
accepted_keys-AllDistinct sha256 start d ((frame, now) ∷ es) ((late, soon), times) h =
    elim (should_accept-cases sha256 d frame start now (length es) soon h) [
      | inl (e, refused) ↦
          subst AllDistinct (sym (accepted_keys-refused sha256 d frame now es e refused)) (
            accepted_keys-AllDistinct sha256 start d es times
              (shrink-IsQuiet start (length es) d h))
      | inr (new, accepted) ↦
          let key = frame_dedup_key sha256 frame in
          let later = inserted-IsQuiet start (length es) d key now late h in
          subst AllDistinct (sym (accepted_keys-accepted sha256 d _ frame now es accepted)) (
            accepted_keys-seen sha256 start (inserted d key now) es key times later
                (inserted-key d key now),
            accepted_keys-AllDistinct sha256 start (inserted d key now) es times later,
          )
    ]

accept_key-new :
    (d : Deduper) (key : Bytes) (now : ℕ)
    → has_key key d.seen ≡ false
    → (accept_key d key now).1 ≡ (true, none)
unfolding accept_key
accept_key-new d key now h = rw h refl

evict-full :
    (k : Bytes) (t : ℕ) (seen : List (Bytes × ℕ)) (max_entries : ℕ)
    → max_entries ≤ length ((k, t) ∷ seen)
    → (oldest ((k, t) ∷ seen) =? []) ≡ false
    → evict max_entries ((k, t) ∷ seen) ≡ delete (oldest ((k, t) ∷ seen)) ((k, t) ∷ seen)
unfolding evict
evict-full k t seen max_entries full named = ground (arith, named)

full_seen :
    (seen : List (Bytes × ℕ)) (max_entries : ℕ) (named : IsNamed seen)
    → 1 ≤ max_entries
    → length seen ≡ max_entries
    → evict max_entries seen ≡ delete (oldest seen) seen
full_seen [] max_entries named room full = absurd (omega arith)
full_seen ((k, t) ∷ seen) max_entries named room full =
    evict-full k t seen max_entries (omega arith) (oldest-named k t seen named)

-- A table that is bounded and full, at an arrival for which it is not pruned (the number of
-- insertions is no multiple of the interval), with a payload within the limit: the oldest entry is
-- dropped before the search for the frame's key, so a replay of the frame with the oldest key is
-- accepted, expired or not.
pub should_accept-oldest :
    (sha256 : Bytes → Bytes) (d : Deduper) (frame : Frame) (now : ℕ)
    → IsBounded d
    → length d.seen ≡ d.max_entries
    → d.insertions % dedup_prune_every ≢ 0
    → length frame.payload ≤ d.max_frame_size
    → frame_dedup_key sha256 frame ≡ oldest d.seen
    → (should_accept sha256 d frame now).1 ≡ (true, none)
unfolding should_accept prune
should_accept-oldest sha256 d frame now h full busy fits same = ground (
  arith,
  full_seen d.seen d.max_entries h.named h.room full,
  same,
  accept_key-new (record d { seen = delete (oldest d.seen) d.seen }) (oldest d.seen) now
      (has_key-delete (oldest d.seen) d.seen),
)
