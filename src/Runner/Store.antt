-- ===== src/Runner/Store.antt =====
-- The two maps of the runner as functions (internal/tssbnb/runner/bnb_runner.go), and each change
-- of a map as one of its function.
use brosettlement_mpc_core.Base.{
  ◌≡◌, refl, ap, sym, ◌∙◌, inl, inr, true, false, not, ◌&&◌, Option, none, some, List, [], ◌∷◌,
  Bytes, ◌=?◌, if◌then◌else◌, Bool-cases,
}
use mathlib.Core.Path.{fun_ext}
use brosettlement_mpc_core.Table.{lookup, lookup-put}
use brosettlement_mpc_core.Flow.{TssLib, SignatureData}
use brosettlement_mpc_core.Service.Runs.{RunKey, same_key, same_key_iff, same_key_refl}
use brosettlement_mpc_core.Runner.{
  lookup_run, delete_run, SignJob, BnbRunner, is_empty_key, set_temporary_ecdsa_dkg_share,
  delete_temporary_ecdsa_dkg_share, set_ecdsa_signature, on_ecdsa_key_share, on_signature,
}

-- What the runner keeps, as two partial functions.
pub record Store (tl : TssLib) : Type 0 where
  pub signatures : Bytes → Option SignatureData
  pub shares : RunKey → Option tl.library.KeyShare

kept_entry :
    {A : Type 0} (key q k : RunKey) (a : A) (rest : Option A)
    → same_key k key ≡ false
    → (if same_key k q then some a else (if same_key key q then none else rest))
      ≡ (if same_key key q then none else (if same_key k q then some a else rest))
kept_entry key q k a rest differ = elim (Bool-cases (same_key k q)) [
  | inr other ↦ rw other refl
  | inl here ↦
      let away : same_key key q ≡ false = elim (Bool-cases (same_key key q)) [
        | inr no_key ↦ no_key
        | inl found ↦
            let same : key ≡ k = same_key_iff key q found ∙ sym (same_key_iff k q here) in
            absurd (let e = ap (same_key k) same ∙ same_key_refl k in cc)
      ] in
      rw (here, away) refl
]

lookup_run-delete_run :
    {A : Type 0} (key q : RunKey) (t : List (RunKey × A))
    → lookup_run q (delete_run key t) ≡ (if same_key key q then none else lookup_run q t)
unfolding lookup_run delete_run
lookup_run-delete_run key q [] = elim (Bool-cases (same_key key q)) [
  | inl h ↦ rw h refl
  | inr h ↦ rw h refl
]
lookup_run-delete_run key q ((k, a) ∷ t) = elim (Bool-cases (same_key k key)) [
  | inr differ ↦
      rw (differ, lookup_run, lookup_run-delete_run key q t)
        (kept_entry key q k a (lookup_run q t) differ)
  | inl same ↦
      rw (same, same_key_iff k key same, lookup_run-delete_run key q t)
        (elim (Bool-cases (same_key key q)) [ inl h ↦ rw h refl | inr h ↦ rw h refl ])
]

lookup_run-put :
    {A : Type 0} (key q : RunKey) (a : A) (t : List (RunKey × A))
    → lookup_run q ((key, a) ∷ delete_run key t)
      ≡ (if same_key key q then some a else lookup_run q t)
unfolding lookup_run
lookup_run-put key q a t = elim (Bool-cases (same_key key q)) [
  | inl h ↦ rw h refl
  | inr h ↦ rw (h, lookup_run-delete_run key q t) (rw h refl)
]

module _ (tl : TssLib) where
  abbrev pub view : BnbRunner tl → Store tl
  view r = record {
    signatures = λ key. lookup key r.ecdsa_sigs;
    shares = λ key. lookup_run key r.temporary_ecdsa_dkg_shares;
  }

  -- The functions, changed at one key that is not empty.
  abbrev pub put_signature :
      Bytes → SignatureData → (Bytes → Option SignatureData) → Bytes → Option SignatureData
  put_signature key sig f q = if not (key =? []) && (key =? q) then some sig else f q

  abbrev pub put_share :
      RunKey
      → Option tl.library.KeyShare
      → (RunKey → Option tl.library.KeyShare)
      → RunKey
      → Option tl.library.KeyShare
  put_share key o f q = if not (is_empty_key key) && same_key key q then o else f q

  -- What a signing flow hands on is found under its session, and under its key if it has one; what
  -- a key generation hands on, under its session and party.
  abbrev pub signed : SignJob tl → Option SignatureData → Store tl → Store tl
  signed job none s = s
  signed job (some sig) s = record s {
    signatures = put_signature job.key_id sig (put_signature job.session_id sig s.signatures);
  }

  abbrev pub generated : RunKey → Option tl.library.KeyShare → Store tl → Store tl
  generated key none s = s
  generated key (some share) s = record s { shares = put_share key (some share) s.shares }

  pub signature_at :
      (r : BnbRunner tl) (key : Bytes) (sig : SignatureData) (q : Bytes)
      → lookup q (set_ecdsa_signature tl r key (some sig)).ecdsa_sigs
        ≡ put_signature key sig (λ k. lookup k r.ecdsa_sigs) q
  unfolding set_ecdsa_signature
  signature_at r key sig q = elim (Bool-cases (key =? [])) [
    | inl empty ↦ rw empty refl
    | inr given ↦ rw given (lookup-put key q sig r.ecdsa_sigs)
  ]

  share_at :
      (r : BnbRunner tl) (key : RunKey) (share : tl.library.KeyShare) (q : RunKey)
      → lookup_run q (set_temporary_ecdsa_dkg_share tl r key share).temporary_ecdsa_dkg_shares
        ≡ put_share key (some share) (λ k. lookup_run k r.temporary_ecdsa_dkg_shares) q
  unfolding set_temporary_ecdsa_dkg_share
  share_at r key share q = elim (Bool-cases (is_empty_key key)) [
    | inl empty ↦ rw empty refl
    | inr given ↦ rw given (lookup_run-put key q share r.temporary_ecdsa_dkg_shares)
  ]

  delete_at :
      (r : BnbRunner tl) (key q : RunKey)
      → lookup_run q (delete_temporary_ecdsa_dkg_share tl r key).temporary_ecdsa_dkg_shares
        ≡ put_share key none (λ k. lookup_run k r.temporary_ecdsa_dkg_shares) q
  unfolding delete_temporary_ecdsa_dkg_share
  delete_at r key q = elim (Bool-cases (is_empty_key key)) [
    | inl empty ↦ rw empty refl
    | inr given ↦ rw given (lookup_run-delete_run key q r.temporary_ecdsa_dkg_shares)
  ]

  store-ext :
      (s s' : Store tl)
      → ((q : Bytes) → s.signatures q ≡ s'.signatures q)
      → ((q : RunKey) → s.shares q ≡ s'.shares q)
      → s ≡ s'
  store-ext s s' h k = ap (make s.shares) (fun_ext h) ∙ ap (λ g. make g s'.signatures) (fun_ext k)
    where
      make : (RunKey → Option tl.library.KeyShare) → (Bytes → Option SignatureData) → Store tl
      make g f = record { signatures = f; shares = g }

  pub set_ecdsa_signature-rest :
      (r : BnbRunner tl) (key : Bytes) (o : Option SignatureData)
      → ((set_ecdsa_signature tl r key o).temporary_ecdsa_dkg_shares ≡ r.temporary_ecdsa_dkg_shares)
        × ((set_ecdsa_signature tl r key o).cfg ≡ r.cfg)
  unfolding set_ecdsa_signature
  set_ecdsa_signature-rest r key none = (refl, refl)
  set_ecdsa_signature-rest r key (some sig) = elim (Bool-cases (key =? [])) [
    | inl empty ↦ rw empty (refl, refl)
    | inr given ↦ rw given (refl, refl)
  ]

  set_ecdsa_signature-view :
      (r : BnbRunner tl) (key : Bytes) (sig : SignatureData)
      → view (set_ecdsa_signature tl r key (some sig))
        ≡ record (view r) { signatures = put_signature key sig (view r).signatures }
  set_ecdsa_signature-view r key sig =
      store-ext _ _ (signature_at r key sig)
        (λ q. ap (lookup_run q) (set_ecdsa_signature-rest r key (some sig)).0)

  pub on_signature-given :
      (r : BnbRunner tl) (job : SignJob tl) (o : Option SignatureData)
      → (job.key_id =? []) ≡ false
      → on_signature tl r job o
        ≡ set_ecdsa_signature tl (set_ecdsa_signature tl r job.session_id o) job.key_id o
  unfolding on_signature
  on_signature-given r job o given = rw given refl

  pub on_signature-empty :
      (r : BnbRunner tl) (job : SignJob tl) (o : Option SignatureData)
      → (job.key_id =? []) ≡ true
      → on_signature tl r job o ≡ set_ecdsa_signature tl r job.session_id o
  unfolding on_signature
  on_signature-empty r job o empty = rw empty refl

  pub on_signature-view :
      (r : BnbRunner tl) (job : SignJob tl) (o : Option SignatureData)
      → view (on_signature tl r job o) ≡ signed job o (view r)
  on_signature-view r job none = elim (Bool-cases (job.key_id =? [])) [
    | inl empty ↦ ap view (on_signature-empty r job none empty) ∙ unfold set_ecdsa_signature in refl
    | inr given ↦ ap view (on_signature-given r job none given) ∙ unfold set_ecdsa_signature in refl
  ]
  on_signature-view r job (some sig) = elim (Bool-cases (job.key_id =? [])) [
    | inl empty ↦
        ap view (on_signature-empty r job (some sig) empty)
        ∙ set_ecdsa_signature-view r job.session_id sig
        ∙ store-ext _ _ (λ q. rw empty refl) (λ q. refl)
    | inr given ↦
        ap view (on_signature-given r job (some sig) given)
        ∙ set_ecdsa_signature-view (set_ecdsa_signature tl r job.session_id (some sig)) job.key_id
            sig
        ∙ ap {A = Store tl}
            (λ st. record st { signatures = put_signature job.key_id sig st.signatures })
            (set_ecdsa_signature-view r job.session_id sig)
  ]

  pub on_signature-cfg :
      (r : BnbRunner tl) (job : SignJob tl) (o : Option SignatureData)
      → (on_signature tl r job o).cfg ≡ r.cfg
  on_signature-cfg r job o = elim (Bool-cases (job.key_id =? [])) [
    | inl empty ↦
        ap (λ x. x.cfg) (on_signature-empty r job o empty)
        ∙ (set_ecdsa_signature-rest r job.session_id o).1
    | inr given ↦
        ap (λ x. x.cfg) (on_signature-given r job o given)
        ∙ (set_ecdsa_signature-rest (set_ecdsa_signature tl r job.session_id o) job.key_id o).1
        ∙ (set_ecdsa_signature-rest r job.session_id o).1
  ]

  pub on_ecdsa_key_share-view :
      (r : BnbRunner tl) (key : RunKey) (o : Option tl.library.KeyShare)
      → (view (on_ecdsa_key_share tl r key o) ≡ generated key o (view r))
        × ((on_ecdsa_key_share tl r key o).cfg ≡ r.cfg)
  unfolding set_temporary_ecdsa_dkg_share
  on_ecdsa_key_share-view r key none = (refl, refl)
  on_ecdsa_key_share-view r key (some share) = elim (Bool-cases (is_empty_key key)) [
    | inl empty ↦ (store-ext _ _ (λ q. rw empty refl) (share_at r key share), rw empty refl)
    | inr given ↦ (store-ext _ _ (λ q. rw given refl) (share_at r key share), rw given refl)
  ]

  pub delete_temporary_ecdsa_dkg_share-view :
      (r : BnbRunner tl) (key : RunKey)
      → (view (delete_temporary_ecdsa_dkg_share tl r key)
          ≡ record (view r) { shares = put_share key none (view r).shares })
        × ((delete_temporary_ecdsa_dkg_share tl r key).cfg ≡ r.cfg)
  unfolding delete_temporary_ecdsa_dkg_share
  delete_temporary_ecdsa_dkg_share-view r key = elim (Bool-cases (is_empty_key key)) [
    | inl empty ↦ (store-ext _ _ (λ q. rw empty refl) (delete_at r key), rw empty refl)
    | inr given ↦ (store-ext _ _ (λ q. rw given refl) (delete_at r key), rw given refl)
  ]
