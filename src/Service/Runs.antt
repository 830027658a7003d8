-- ===== src/Service/Runs.antt =====
-- internal/tss/service/service.go: `beginDKGRun` and `endDKGRun`, each one step under its mutex.
-- A key is the pair of a session and a party.
use brosettlement_mpc_core.Base.{
  ◌≡◌, refl, ap, ◌∙◌, inl, inr, Bool, true, false, not, ◌&&◌, ◌||◌, List, [], ◌∷◌, Bytes, ◌=?◌,
  =?_iff, =?_refl, if◌then◌else◌, Bool-cases, arith,
}

abbrev pub RunKey : Type 0
RunKey = Bytes × Bytes

abbrev pub same_key : RunKey → RunKey → Bool
same_key (s, p) (s', p') = (s =? s') && (p =? p')

abbrev pub is_active : RunKey → List RunKey → Bool
is_active key [] = false
is_active key (k ∷ ks) = same_key k key || is_active key ks

-- Whether the run may start, with the table.
unfoldable pub begin_dkg_run : List RunKey → RunKey → List RunKey × Bool
begin_dkg_run active key = if is_active key active then (active, false) else (key ∷ active, true)

unfoldable pub end_dkg_run : List RunKey → RunKey → List RunKey
end_dkg_run [] key = []
end_dkg_run (k ∷ ks) key =
    let rest = end_dkg_run ks key in if same_key k key then rest else k ∷ rest

pub same_key_refl : (key : RunKey) → same_key key key ≡ true
same_key_refl (s, p) = rw (=?_refl s, =?_refl p) refl

pub end_dkg_run-is_active :
    (active : List RunKey) (key : RunKey) → is_active key (end_dkg_run active key) ≡ false
unfolding end_dkg_run
end_dkg_run-is_active [] key = refl
end_dkg_run-is_active (k ∷ ks) key = ground (arith, end_dkg_run-is_active ks key)

pub same_key_iff : (k key : RunKey) → same_key k key ≡ true → k ≡ key
same_key_iff (s, p) (s', p') h =
    let first : (s =? s') ≡ true = ground (arith, h) in
    let second : (p =? p') ≡ true = ground (arith, h) in
    cc ((=?_iff s s').0 first, (=?_iff p p').0 second)

pub other_kept :
    (active : List RunKey) (key other : RunKey)
    → same_key key other ≡ false
    → is_active other (end_dkg_run active key) ≡ is_active other active
unfolding end_dkg_run
other_kept [] key other h = refl
other_kept (k ∷ ks) key other h = elim (Bool-cases (same_key k key)) [
  | inl same ↦
      let other_key : same_key k other ≡ false =
        ap (λ j. same_key j other) (same_key_iff k key same) ∙ h in
      rw (same, other_key) (other_kept ks key other h)
  | inr differ ↦ rw differ (ap (◌||◌ (same_key k other)) (other_kept ks key other h))
]

-- A call of the table.
pub data Call : Type 0 where
  begin_call : RunKey → Call
  end_call : RunKey → Call

abbrev pub after_call : List RunKey → Call → List RunKey
after_call active (begin_call key) = (begin_dkg_run active key).0
after_call active (end_call key) = end_dkg_run active key

abbrev pub after_calls : List RunKey → List Call → List RunKey
after_calls active [] = active
after_calls active (c ∷ cs) = after_calls (after_call active c) cs

-- No call ends the run of a key.
abbrev pub keeps_running : RunKey → List Call → Bool
keeps_running key [] = true
keeps_running key (begin_call k ∷ cs) = keeps_running key cs
keeps_running key (end_call k ∷ cs) = not (same_key k key) && keeps_running key cs

begun : (active : List RunKey) (key : RunKey) → is_active key (begin_dkg_run active key).0 ≡ true
unfolding begin_dkg_run
begun active key = elim (Bool-cases (is_active key active)) [
  | inl old ↦ rw old old
  | inr new ↦ rw (new, same_key_refl key) refl
]

begin_keeps :
    (active : List RunKey) (k key : RunKey)
    → is_active key active ≡ true
    → is_active key (begin_dkg_run active k).0 ≡ true
unfolding begin_dkg_run
begin_keeps active k key h = ground (arith, h)

stays_active :
    (active : List RunKey) (key : RunKey) (cs : List Call)
    → is_active key active ≡ true
    → keeps_running key cs ≡ true
    → is_active key (after_calls active cs) ≡ true
stays_active active key [] h keeps = h
stays_active active key (begin_call k ∷ cs) h keeps =
    stays_active (begin_dkg_run active k).0 key cs (begin_keeps active k key h) keeps
stays_active active key (end_call k ∷ cs) h keeps =
    let differ : same_key k key ≡ false = ground (arith, keeps) in
    let rest : keeps_running key cs ≡ true = ground (arith, keeps) in
    stays_active (end_dkg_run active k) key cs (other_kept active k key differ ∙ h) rest

begin_active :
    (active : List RunKey) (key : RunKey) (b : Bool)
    → is_active key active ≡ b
    → (begin_dkg_run active key).1 ≡ not b
unfolding begin_dkg_run
begin_active active key true h = rw h refl
begin_active active key false h = rw h refl

-- While a run of a key generation goes on, whatever other runs begin and end, no second run with
-- the same session and party begins; and once it has ended, one may.
pub begin_dkg_run-once :
    (active : List RunKey) (key : RunKey) (cs : List Call)
    → keeps_running key cs ≡ true
    → ((begin_dkg_run (after_calls (begin_dkg_run active key).0 cs) key).1 ≡ false)
      × ((begin_dkg_run (end_dkg_run (after_calls (begin_dkg_run active key).0 cs) key) key).1
          ≡ true)
begin_dkg_run-once active key cs keeps =
    let going = stays_active (begin_dkg_run active key).0 key cs (begun active key) keeps in
    let gone = end_dkg_run-is_active (after_calls (begin_dkg_run active key).0 cs) key in
    (begin_active _ key true going, begin_active _ key false gone)
