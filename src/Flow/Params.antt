-- ===== src/Flow/Params.antt =====
-- internal/tssbnb/utils/build_params.go: the parameters that tss-lib gets for a run, and the map of
-- its parties. The index that SortPartyIDs writes into a party id is not modelled.
use brosettlement_mpc_core.Base.{
  ℕ, ◌≡◌, refl, ◌==◌, Option, none, some, List, [], ◌∷◌, map, Bytes, ltb, if◌then◌else◌, Result, ok,
  err, ◌>>=◌, length,
}
use mathlib.Core.List.{Permᴰ}
use brosettlement_mpc_core.Table.{delete}
use brosettlement_mpc_core.Text.Sort.{sort, sort_permuted, length_permuted}
use brosettlement_mpc_core.Requests.{
  ParamsError, too_few_parties, unknown_local_party, to_tss_lib_threshold, pick_local_party_id,
  select_curve,
}
use brosettlement_mpc_core.Flow.{TssLib}
use brosettlement_mpc_core.BigInt.{set_bytes}

module _ (tl : TssLib) where
  unfoldable pub stable_party_key : Bytes → ℕ
  stable_party_key id = let key = set_bytes (tl.library.sha256 id) in if key == 0 then 1 else key

  abbrev pub party_id_of : Bytes → tl.library.PartyId
  party_id_of id = tl.new_party_id id id (stable_party_key id)

  -- The assignments `partyMap[partyID] = pid`, in the order of the parties.
  unfoldable pub party_map_from :
      List (Bytes × tl.library.PartyId) → List Bytes → List (Bytes × tl.library.PartyId)
  party_map_from m [] = m
  party_map_from m (id ∷ ids) = party_map_from ((id, party_id_of id) ∷ delete id m) ids

  -- `none` is nil.
  abbrev pub found_local : Option Bytes → Result ParamsError tl.library.PartyId
  found_local none = err unknown_local_party
  found_local (some id) = ok (party_id_of id)

  unfoldable pub build_params :
      List Bytes
      → Bytes
      → ℕ
      → Bytes
      → Bytes
      → Result ParamsError
          (tl.Parameters × (List (Bytes × tl.library.PartyId) × tl.library.PartyId))
  build_params parties local_party_id required curve algorithm =
      if ltb (length parties) 2 then err too_few_parties else do
        threshold ← to_tss_lib_threshold required (length parties)
        let sorted = sort parties
        let party_ids = map party_id_of sorted
        let party_map = party_map_from [] sorted
        local ← found_local (pick_local_party_id sorted local_party_id)
        let sorted_ids = tl.sort_party_ids party_ids
        selected ← select_curve tl.wide tl.equal_fold curve algorithm
        ok (
          tl.new_parameters selected (tl.new_peer_context sorted_ids) local (length sorted_ids)
              threshold,
          (party_map, local),
        )

  -- The parties of a run may be listed in any order: the parameters, the map of the parties and
  -- the local party, or the error, are the same.
  pub build_params_permuted :
      {parties parties' : List Bytes} (local_party_id : Bytes) (required : ℕ)
      (curve algorithm : Bytes)
      → Permᴰ parties parties'
      → build_params parties local_party_id required curve algorithm
        ≡ build_params parties' local_party_id required curve algorithm
  unfolding build_params
  build_params_permuted local_party_id required curve algorithm p =
      rw (length_permuted p, sort_permuted p) refl
