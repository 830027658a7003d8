-- ===== src/Execution/Deduper/Key.antt =====
-- What the key of a frame identifies.
use brosettlement_mpc_core.Base.{◌≡◌, sym, ap, ◌∙◌, [], ◌∷◌, Bytes, All, arith}
use brosettlement_mpc_core.Text.{split}
use brosettlement_mpc_core.Text.Split.{Lacks, split-join}
use brosettlement_mpc_core.Text.Decimal.{
  format_uint, IsDigit, format_uint-IsDigit, format_uint-injective,
}
use brosettlement_mpc_core.Protocol.{Frame}
use brosettlement_mpc_core.Execution.Deduper.{key_hash, key_parts, frame_dedup_key}

digits-Lacks : (s : Bytes) → All IsDigit s → Lacks b'|' s
digits-Lacks [] h = tt
digits-Lacks (c ∷ s) (d, h) = (ground (arith, d), digits-Lacks s h)

-- The texts of a frame that its key is made of have no separator in them.
pub record IsPlain (sha256 : Bytes → Bytes) (f : Frame) : Type 0 where
  pub session_id : Lacks b'|' f.session_id
  pub stage : Lacks b'|' f.stage
  pub from_party : Lacks b'|' f.from_party
  pub hash : Lacks b'|' (key_hash sha256 f)

-- Two frames that the deduper cannot tell apart.
pub record SameKey (sha256 : Bytes → Bytes) (f g : Frame) : Type 0 where
  pub session_id : f.session_id ≡ g.session_id
  pub stage : f.stage ≡ g.stage
  pub from_party : f.from_party ≡ g.from_party
  pub seq : f.seq ≡ g.seq
  pub hash : key_hash sha256 f ≡ key_hash sha256 g

split-frame_dedup_key :
    (sha256 : Bytes → Bytes) (f : Frame)
    → IsPlain sha256 f
    → split b'|' (frame_dedup_key sha256 f) ≡ key_parts sha256 f
unfolding frame_dedup_key key_parts
split-frame_dedup_key sha256 f h =
    split-join b'|' f.session_id
      (f.stage ∷ f.from_party ∷ format_uint f.seq ∷ key_hash sha256 f ∷ [])
      (
        h.session_id,
        (h.stage, (h.from_party, (digits-Lacks _ (format_uint-IsDigit f.seq), (h.hash, tt)))),
      )

key_parts-SameKey :
    (sha256 : Bytes → Bytes) (f g : Frame)
    → key_parts sha256 f ≡ key_parts sha256 g
    → SameKey sha256 f g
unfolding key_parts
key_parts-SameKey sha256 f g e = record {
  session_id = cc;
  stage = cc;
  from_party = cc;
  seq = format_uint-injective f.seq g.seq (cc);
  hash = cc;
}

-- Frames with the same deduplication key agree in session, stage, sender, sequence number and
-- hash, if `|` is in none of the texts.
pub frame_dedup_key-injective :
    (sha256 : Bytes → Bytes) (f g : Frame)
    → IsPlain sha256 f
    → IsPlain sha256 g
    → frame_dedup_key sha256 f ≡ frame_dedup_key sha256 g
    → SameKey sha256 f g
frame_dedup_key-injective sha256 f g hf hg e = key_parts-SameKey sha256 f g (
    sym (split-frame_dedup_key sha256 f hf) ∙ ap (split b'|') e ∙ split-frame_dedup_key sha256 g hg)
