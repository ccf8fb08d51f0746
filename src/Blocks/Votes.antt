-- ===== src/Blocks/Votes.antt =====
-- services/blocks/standard/handler.go: the attestations of a block, with the beacon committees that they
-- need, and its sync aggregate.
pub mod Known
pub mod Laws
use chaind.Common.{
  ℕ, ◌+◌, ◌-◌, Bool, true, false, ◌&&◌, Option, none, some, List, [], ◌∷◌, if◌then◌else◌, ◌==◌, ltb,
  leb, length, pure, fail, crash, ◌>>=◌, ◌>>◌,
}
use chaind.Store.{Act, client, no_data, query, set_each}
use chaind.Store.Inserts.{
  Included, include, same_inclusion, upsert, insert_all, attempt, or_else, copy_from,
}
use chaind.ChainTime.{slot_to_sync_committee_period}
use chaind.BeaconCommittees.{BeaconCommittee}
use chaind.SyncCommittees.{SyncCommittee}
use chaind.Blocks.{AttestationData, ChainAttestation, Metadata, Env}
use chaind.Blocks.Rows.{Rows, Attestation, SyncAggregate}

-- The function's map from slots and indices to committees: an entry in front hides the ones behind.
abbrev pub Committees : Type 0
Committees = List BeaconCommittee

unfoldable pub find_committee : ℕ → ℕ → Committees → Option BeaconCommittee
find_committee slot index [] = none
find_committee slot index (c ∷ cs) =
    let other = find_committee slot index cs in
    if c.slot == slot && c.index == index then some c else other

unfoldable pub within : ℕ → ℕ → Committees → Committees
within from to [] = []
within from to (c ∷ cs) =
    let others = within from to cs in
    if leb from c.slot && leb c.slot to then c ∷ others else others

unfoldable pub put_committees : List BeaconCommittee → Committees → Committees
put_committees [] known = known
put_committees (c ∷ cs) known = put_committees cs (c ∷ known)

-- The entries of a committee at the bits that are set; `none` is the panic where one is out of range.
unfoldable pub members : List Bool → List ℕ → Option (List ℕ)
members [] cs = some []
members (true ∷ bs) [] = none
members (false ∷ bs) [] = members bs []
members (true ∷ bs) (c ∷ cs) = elim (members bs cs) [ none ↦ none | some is ↦ some (c ∷ is) ]
members (false ∷ bs) (c ∷ cs) = members bs cs

-- A value, or the run-time panic.
abbrev pub or_panic : {A B : Type 0} → Option A → (A → Act Rows Metadata B) → Act Rows Metadata B
or_panic none f = crash
or_panic (some a) f = f a

abbrev pub earliest_slot : ℕ → ℕ
earliest_slot slot = if ltb 5 slot then slot - 5 else 0

-- Aggregation indices are there only where the committee has as many members as there are bits.
abbrev pub attestation_row : BeaconCommittee → ChainAttestation → Attestation
attestation_row c a = record {
  slot = a.attestation_data.slot;
  committee_index = a.attestation_data.index;
  beacon_block_root = a.attestation_data.beacon_block_root;
  aggregation_bits = a.aggregation_bits;
  aggregation_indices =
      if length c.committee == length a.aggregation_bits
      then members a.aggregation_bits c.committee
      else none;
  source_epoch = a.attestation_data.source.epoch;
  source_root = a.attestation_data.source.root;
  target_epoch = a.attestation_data.target.epoch;
  target_root = a.attestation_data.target.root;
  canonical = none;
  target_correct = none;
  head_correct = none;
}

abbrev pub insert_attestations : List (Included Attestation) → Rows → Option Rows
insert_attestations as' rows = elim (insert_all same_inclusion as' rows.attestations) [
  | none ↦ none
  | some xs ↦ some (record rows { attestations = xs })
]

abbrev pub put_attestation : Included Attestation → Rows → Rows
put_attestation a rows = record rows { attestations = upsert same_inclusion a rows.attestations }

module _ (env : Env) where
  -- From the client, where neither the map nor the table has the committee.
  from_client :
      ℕ
      → ℕ
      → Committees
      → Option (List BeaconCommittee)
      → Act Rows Metadata (Option BeaconCommittee × Committees)
  from_client slot index known none = fail client
  from_client slot index known (some cs) =
      let all = put_committees cs known in pure (find_committee slot index all, all)

  from_table :
      ℕ
      → ℕ
      → Committees
      → Option (Option BeaconCommittee)
      → Act Rows Metadata (Option BeaconCommittee × Committees)
  unfolding from_client
  from_table slot index known (some (some c)) = pure (some c, c ∷ known)
  from_table slot index known (some none) =
      from_client slot index known (env.client_committees slot)
  from_table slot index known none = from_client slot index known (env.client_committees slot)

  pub from_map :
      ℕ
      → ℕ
      → Committees
      → Option BeaconCommittee
      → Act Rows Metadata (Option BeaconCommittee × Committees)
  unfolding from_table
  from_map slot index known (some c) = pure (some c, known)
  from_map slot index known none =
      attempt (query env.fault (λ db. find_committee slot index env.beacon_committees))
      >>= from_table slot index known

  -- The committee, if there is one, and the map with what has been fetched for it.
  unfoldable pub beacon_committee :
      ℕ → ℕ → Committees → Act Rows Metadata (Option BeaconCommittee × Committees)
  unfolding from_map
  beacon_committee slot index known = from_map slot index known (find_committee slot index known)

  with_committee :
      ChainAttestation
      → Option BeaconCommittee × Committees
      → Act Rows Metadata (Attestation × Committees)
  with_committee a (none, known) = fail no_data
  with_committee a (some c, known) = pure (attestation_row c a, known)

  unfoldable pub db_attestation :
      ChainAttestation → Committees → Act Rows Metadata (Attestation × Committees)
  unfolding with_committee
  db_attestation a known =
      beacon_committee a.attestation_data.slot a.attestation_data.index known >>= with_committee a

  -- The rows of the attestations of a block, from the one with index `i` on.
  unfoldable pub db_attestations :
      ℕ
      → ℕ
      → ℕ
      → List ChainAttestation
      → Committees
      → Act Rows Metadata (List (Included Attestation))
  db_attestations slot root i [] known = pure []
  db_attestations slot root i (a ∷ as') known = db_attestation a known >>= λ r.
      db_attestations slot root (i + 1) as' r.1 >>= λ rows. pure (include slot root i r.0 ∷ rows)

  -- SetAttestations, and SetAttestation for each of them where it fails.
  unfoldable pub set_attestations : List (Included Attestation) → Act Rows Metadata (Unit {0})
  set_attestations rows =
      or_else (copy_from env.fault (insert_attestations rows))
        (set_each env.fault put_attestation rows)

  unfoldable pub update_attestations_for_block :
      ℕ → ℕ → List ChainAttestation → Act Rows Metadata (Unit {0})
  unfolding db_attestations set_attestations
  update_attestations_for_block slot root as' =
      query env.fault (λ db. within (earliest_slot slot) slot env.beacon_committees) >>= λ cs.
      db_attestations slot root 0 as' (put_committees cs []) >>= set_attestations
