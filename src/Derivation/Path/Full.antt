-- ===== src/Derivation/Path/Full.antt =====
-- `CanonicalFullPath` and `NormalizeFullPath`: an account path with a child path behind it.
use brosettlement_mpc_core.Base.{
  ℕ, ◌-◌, ◌≤◌, ◌≡◌, ◌≢◌, refl, sym, ◌∙◌, ap, inl, inr, false, not, ◌&&◌, ◌||◌, List, [], ◌∷◌, ◌++◌,
  append_assoc, Bytes, codes, arith, ltb, ◌=?◌, ok, >>=-eq-ok, All, All-append, Bool-cases, length,
  length-append, take, drop, take-append, drop-append,
}
use brosettlement_mpc_core.Text.{has_prefix, trim_prefix, trim_space, split, join}
use brosettlement_mpc_core.Text.Split.{Lacks, split-join}
use brosettlement_mpc_core.Text.Trim.{trim_space_between, graphic-IsSolid}
use brosettlement_mpc_core.Text.Decimal.{format_uint}
use brosettlement_mpc_core.Derivation.Path.{
  normalize_account_path, normalize_child_path, trim_right_slashes, canonical_full_path,
  normalize_full_path,
}
use brosettlement_mpc_core.Derivation.Path.Segment.{All-map}
use brosettlement_mpc_core.Derivation.Path.Account.{
  IsAccount, IsSegment-Lacks, print_segment-Lacks, format_uint-EndsSolid, append-EndsSolid,
  IsAccount-EndsSolid, normalize_account_path-IsAccount, normalize_account_path_canonical,
}
use brosettlement_mpc_core.Derivation.Path.Child.{
  IsChild, normalize_child_path-IsChild, normalize_child_path_canonical,
}

trim_right_slashes-append :
    (t : Bytes) (d : ℕ) → d ≢ b'/' → trim_right_slashes (t ++ d ∷ []) ≡ t ++ d ∷ []
unfolding trim_right_slashes ◌=?◌
trim_right_slashes-append [] d h = ground arith
trim_right_slashes-append (c ∷ []) d h = ground (arith, trim_right_slashes-append [] d h)
trim_right_slashes-append (c ∷ x ∷ t) d h = rw (trim_right_slashes-append (x ∷ t) d h)

join-append :
    (sep : ℕ) (p : Bytes) (ps : List Bytes) (r : Bytes) (rs : List Bytes)
    → join sep ((p ∷ ps) ++ r ∷ rs) ≡ join sep (p ∷ ps) ++ sep ∷ join sep (r ∷ rs)
unfolding join
join-append sep p [] r rs = refl
join-append sep p (q ∷ ps) r rs =
    rw (join-append sep q ps r rs)
      (sym (append_assoc p (sep ∷ join sep (q ∷ ps)) (sep ∷ join sep (r ∷ rs))))

-- The canonical full path is the plain concatenation.
pub canonical_full_path-append :
    (account child : Bytes)
    → IsAccount account
    → canonical_full_path account child ≡ account ++ child
unfolding canonical_full_path
canonical_full_path-append account child h =
    let (t, d, e, _, _, ne) = IsAccount-EndsSolid account h in
    ap (λ a. a ++ child) (ap trim_right_slashes e ∙ trim_right_slashes-append t d ne ∙ sym e)

-- The parts that the canonical full path is split into, and what they join to.
record Parts (account child : Bytes) : Type 0 where
  front : List Bytes
  last_two : List Bytes
  two : length last_two ≡ 2
  some_front : 1 ≤ length front
  whole : split b'/' (trim_prefix (codes "m/") (account ++ child)) ≡ front ++ last_two
  account_parts : codes "m/" ++ join b'/' front ≡ account
  child_parts : codes "/" ++ join b'/' last_two ≡ child

Parts-of :
    (account child : Bytes) (indices : List ℕ)
    → IsAccount account
    → IsChild child indices
    → Parts account child
unfolding trim_prefix has_prefix
Parts-of account child indices (q, qs, hq, ea) (i, j, hi, hj, _, ec) =
    let last : List Bytes = format_uint i ∷ format_uint j ∷ [] in
    let joined : account ++ child ≡ codes "m/" ++ join b'/' ((q ∷ qs) ++ last) =
      rw (ea, ec, join-append b'/' q qs (format_uint i) (format_uint j ∷ []))
        (unfold join in refl) in
    let lacks : All (Lacks b'/') ((q ∷ qs) ++ last) =
      All-append (Lacks b'/') (q ∷ qs) last (All-map IsSegment-Lacks (q ∷ qs) hq)
        (print_segment-Lacks i false, (print_segment-Lacks j false, tt)) in
    record {
      front = q ∷ qs;
      last_two = last;
      two = refl;
      some_front = omega arith;
      whole = rw joined (split-join b'/' q (qs ++ last) lacks);
      account_parts = sym ea;
      child_parts = rw ec (unfold join in refl);
    }

-- The first two tests of the function, on a text that starts with `m/` and holds no outer space.
full_tests :
    (s rest : Bytes)
    → s ≡ codes "m/" ++ rest
    → ((s =? []) || (not (s =? codes "m") && not (has_prefix (codes "m/") s))) ≡ false
unfolding ◌=?◌ has_prefix
full_tests s rest e = rw e

normalize_full_path-Parts :
    (s account child : Bytes) (indices : List ℕ)
    → s ≡ account ++ child
    → trim_space s ≡ s
    → Parts account child
    → IsAccount account
    → IsChild child indices
    → normalize_full_path s ≡ ok (canonical_full_path account child)
unfolding normalize_full_path
normalize_full_path-Parts s account child indices e trimmed p (q, qs, hq, ea) hc =
    let front = p.front in
    let last = p.last_two in
    let tests = full_tests s (join b'/' (q ∷ qs) ++ child) (rw (e, ea)) in
    let split_s : split b'/' (trim_prefix (codes "m/") s) ≡ front ++ last = rw e p.whole in
    let three : ltb (length (front ++ last)) 3 ≡ false =
      ground (arith, length-append front last, p.two, p.some_front) in
    let here : length (front ++ last) - 2 ≡ length front =
      omega (arith, length-append front last, p.two) in
    rw (trimmed, tests, split_s, three, here, take-append front last, drop-append front last)
      (rw (p.account_parts, p.child_parts)
        (rw (normalize_account_path_canonical account (q, qs, hq, ea))
          (rw (normalize_child_path_canonical child indices hc))))

-- The canonical full path of canonical parts is accepted and kept.
pub normalize_full_path_canonical :
    (account child : Bytes) (indices : List ℕ)
    → IsAccount account
    → IsChild child indices
    → normalize_full_path (canonical_full_path account child)
      ≡ ok (canonical_full_path account child)
normalize_full_path_canonical account child indices ha (i, j, hi, hj, two, ec) =
    let (q, qs, hq, ea) = ha in
    let hc : IsChild child indices = (i, j, hi, hj, two, ec) in
    let e = canonical_full_path-append account child ha in
    let s = account ++ child in
    let (t, d, ends, lo, hi', _) =
      append-EndsSolid (account ++ b'/' ∷ format_uint i) (b'/' ∷ format_uint j)
        (append-EndsSolid (b'/' ∷ []) (format_uint j) (format_uint-EndsSolid j)) in
    let shape : s ≡ (account ++ b'/' ∷ format_uint i) ++ b'/' ∷ format_uint j =
      ap (◌++◌ account) ec
      ∙ sym (append_assoc account (b'/' ∷ format_uint i) (b'/' ∷ format_uint j)) in
    let start : s ≡ b'm' ∷ (b'/' ∷ join b'/' (q ∷ qs) ++ child) = rw ea in
    let trimmed : trim_space s ≡ s =
      trim_space_between b'm' d s (b'/' ∷ join b'/' (q ∷ qs) ++ child) t start (shape ∙ ends)
        (graphic-IsSolid b'm' (omega arith) (omega arith)) (graphic-IsSolid d lo hi') in
    ap normalize_full_path e
    ∙ normalize_full_path-Parts s account child indices refl trimmed
        (Parts-of account child indices ha hc) ha hc

-- An accepted full path comes out as the canonical full path of canonical parts.
pub normalize_full_path_sound :
    (raw s : Bytes)
    → normalize_full_path raw ≡ ok s
    → (account : Bytes) × (child : Bytes) × (indices : List ℕ) × (IsAccount account)
      × (IsChild child indices)
      × (s ≡ canonical_full_path account child)
unfolding normalize_full_path
normalize_full_path_sound raw s e =
    let t = trim_space raw in
    let parts = split b'/' (trim_prefix (codes "m/") t) in
    elim (Bool-cases ((t =? []) || (not (t =? codes "m") && not (has_prefix (codes "m/") t)))) [
      | inl bad ↦ absurd (cc (rw bad at e))
      | inr good ↦ elim (Bool-cases (ltb (length parts) 3)) [
        | inl bad ↦ absurd (cc (rw (good, bad) at e))
        | inr three ↦
            let (account, ha, e') =
              >>=-eq-ok (normalize_account_path _) _ (rw (good, three) at e) in
            let (child, hc, e'') = >>=-eq-ok (normalize_child_path _) _ e' in
            (
              account,
              child.0,
              child.1,
              normalize_account_path-IsAccount _ account ha,
              normalize_child_path-IsChild _ child.0 child.1 hc,
              cc,
            )
      ]
    ]

-- The account path that a full path holds, read off its text.
account_of : Bytes → Bytes
account_of s =
    let parts = split b'/' (trim_prefix (codes "m/") s) in
    codes "m/" ++ join b'/' (take (length parts - 2) parts)

child_of : Bytes → Bytes
child_of s =
    let parts = split b'/' (trim_prefix (codes "m/") s) in
    codes "/" ++ join b'/' (drop (length parts - 2) parts)

read_back :
    (account child : Bytes) (indices : List ℕ)
    → IsAccount account
    → IsChild child indices
    → (account_of (canonical_full_path account child) ≡ account)
      × (child_of (canonical_full_path account child) ≡ child)
unfolding account_of child_of
read_back account child indices ha hc =
    let p = Parts-of account child indices ha hc in
    let front = p.front in
    let last = p.last_two in
    let here : length (front ++ last) - 2 ≡ length front =
      omega (arith, length-append front last, p.two) in
    rw
      (
        canonical_full_path-append account child ha,
        p.whole,
        here,
        take-append front last,
        drop-append front last,
      )
      (p.account_parts, p.child_parts)

-- Two canonical full paths are equal only if their account paths and their child paths are.
canonical_full_path-injective :
    (account child account' child' : Bytes) (indices indices' : List ℕ)
    → IsAccount account
    → IsChild child indices
    → IsAccount account'
    → IsChild child' indices'
    → canonical_full_path account child ≡ canonical_full_path account' child'
    → (account ≡ account') × (child ≡ child')
canonical_full_path-injective account child account' child' indices indices' ha hc ha' hc' e =
    let (a, c) = read_back account child indices ha hc in
    let (a', c') = read_back account' child' indices' ha' hc' in
    (sym a ∙ ap account_of e ∙ a', sym c ∙ ap child_of e ∙ c')
