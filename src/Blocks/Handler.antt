-- ===== src/Blocks/Handler.antt =====
-- services/blocks/standard/handler.go: OnBlock, UpdateSlot and OnBeaconChainHeadUpdated, and
-- updateAfterRestart of service.go.
pub mod Laws
pub mod Stored
pub mod Refetch
pub mod Sidecars
use chaind.Common.{
  ℕ, Bool, ◌&&◌, Option, none, some, List, [], ◌∷◌, map, ◌==◌, pure, fail, ◌>>=◌, ◌>>◌,
}
use chaind.Store.{Act, bad_data, client}
use chaind.Store.Inserts.{
  Included, same_inclusion, upsert, insert_all, copy_or_set_each, set_included,
}
use chaind.Catchup
use chaind.Blocks.{
  ChainProposerSlashing, ChainAttesterSlashing, ChainDeposit, ChainVoluntaryExit, Body, SignedBlock,
  phase0, altair, bellatrix, capella, deneb, unknown_version, unhandled_version, BlobSidecar,
  ChainBlobSidecar, Metadata, Env,
}
use chaind.Blocks.Rows.{Rows, Block, ProposerSlashing, AttesterSlashing, Deposit, VoluntaryExit}
use chaind.Blocks.SetBlock.{set_block}
use chaind.Blocks.Convert.{db_block}
use chaind.Blocks.Operations.{
  db_proposer_slashing, db_attester_slashing, db_deposit, db_voluntary_exit, db_blob_sidecar,
  trim_right,
}
use chaind.Blocks.Votes.{update_attestations_for_block}
use chaind.Blocks.Sync.{Cache, update_sync_aggregate_for_block}

abbrev pub put_proposer_slashing : Included ProposerSlashing → Rows → Rows
put_proposer_slashing x rows = record rows {
  proposer_slashings = upsert same_inclusion x rows.proposer_slashings;
}

abbrev pub put_attester_slashing : Included AttesterSlashing → Rows → Rows
put_attester_slashing x rows = record rows {
  attester_slashings = upsert same_inclusion x rows.attester_slashings;
}

abbrev pub put_deposit : Included Deposit → Rows → Rows
put_deposit x rows = record rows { deposits = upsert same_inclusion x rows.deposits }

abbrev pub put_voluntary_exit : Included VoluntaryExit → Rows → Rows
put_voluntary_exit x rows = record rows {
  voluntary_exits = upsert same_inclusion x rows.voluntary_exits;
}

-- A blob is stored without the zeros at its end.
abbrev pub sidecar_row : BlobSidecar → BlobSidecar
sidecar_row b = record b { blob = trim_right b.blob }

abbrev pub same_sidecar : BlobSidecar → BlobSidecar → Bool
same_sidecar a b =
    a.inclusion_block_root == b.inclusion_block_root && a.inclusion_index == b.inclusion_index

abbrev pub put_blob_sidecar : BlobSidecar → Rows → Rows
put_blob_sidecar b rows = record rows {
  blob_sidecars = upsert same_sidecar (sidecar_row b) rows.blob_sidecars;
}

abbrev pub insert_blob_sidecars : List BlobSidecar → Rows → Option Rows
insert_blob_sidecars bs rows =
    elim (insert_all same_sidecar (map sidecar_row bs) rows.blob_sidecars) [
      | none ↦ none
      | some xs ↦ some (record rows { blob_sidecars = xs })
    ]

module _ (env : Env) where
  set_sidecars : ℕ → Option (List ChainBlobSidecar) → Act Rows Metadata (Unit {0})
  set_sidecars root none = fail client
  set_sidecars root (some bs) =
      let rows = map (db_blob_sidecar root) bs in
      copy_or_set_each env.fault (insert_blob_sidecars rows) put_blob_sidecar rows

  unfoldable pub update_blob_sidecars_for_block : ℕ → Act Rows Metadata (Unit {0})
  unfolding set_sidecars
  update_blob_sidecars_for_block root = set_sidecars root (env.client_blob_sidecars root)

  abbrev pub update_proposer_slashings_for_block :
      ℕ → ℕ → List ChainProposerSlashing → Act Rows Metadata (Unit {0})
  update_proposer_slashings_for_block slot root ps =
      set_included env.fault (db_proposer_slashing env) put_proposer_slashing slot root 0 ps

  abbrev pub update_attester_slashings_for_block :
      ℕ → ℕ → List ChainAttesterSlashing → Act Rows Metadata (Unit {0})
  update_attester_slashings_for_block slot root ss =
      set_included env.fault (λ s. some (db_attester_slashing s)) put_attester_slashing slot root 0
        ss

  abbrev pub update_deposits_for_block : ℕ → ℕ → List ChainDeposit → Act Rows Metadata (Unit {0})
  update_deposits_for_block slot root ds =
      set_included env.fault (λ d. some (db_deposit d)) put_deposit slot root 0 ds

  abbrev pub update_voluntary_exits_for_block :
      ℕ → ℕ → List ChainVoluntaryExit → Act Rows Metadata (Unit {0})
  update_voluntary_exits_for_block slot root es =
      set_included env.fault (λ e. some (db_voluntary_exit e)) put_voluntary_exit slot root 0 es

  -- What phase 0 has, and the later forks begin with.
  unfoldable pub on_block_phase0 : ℕ → ℕ → Body → Act Rows Metadata (Unit {0})
  on_block_phase0 slot root body =
      update_attestations_for_block env slot root body.attestations
      >> update_proposer_slashings_for_block slot root body.proposer_slashings
      >> update_attester_slashings_for_block slot root body.attester_slashings
      >> update_deposits_for_block slot root body.deposits
      >> update_voluntary_exits_for_block slot root body.voluntary_exits

  unfoldable pub on_block_altair : ℕ → ℕ → Body → List Bool → Cache → Act Rows Metadata Cache
  unfolding on_block_phase0
  on_block_altair slot root body bits cache =
      on_block_phase0 slot root body >> update_sync_aggregate_for_block env slot root bits cache

  -- onBlockBellatrix and onBlockCapella take the same steps.
  abbrev pub on_block_bellatrix : ℕ → ℕ → Body → List Bool → Cache → Act Rows Metadata Cache
  on_block_bellatrix = on_block_altair

  abbrev pub on_block_capella : ℕ → ℕ → Body → List Bool → Cache → Act Rows Metadata Cache
  on_block_capella = on_block_altair

  update_if_any : List ℕ → ℕ → Act Rows Metadata (Unit {0})
  unfolding update_blob_sidecars_for_block
  update_if_any [] root = pure tt
  update_if_any (c ∷ cs) root = update_blob_sidecars_for_block root

  unfoldable pub on_block_deneb :
      ℕ → ℕ → Body → List Bool → List ℕ → Cache → Act Rows Metadata Cache
  unfolding on_block_altair update_if_any
  on_block_deneb slot root body bits commitments cache =
      on_block_altair slot root body bits cache >>= λ cache'.
      update_if_any commitments root >> pure cache'

  by_version : SignedBlock → ℕ → Cache → Act Rows Metadata Cache
  unfolding on_block_phase0 on_block_altair on_block_deneb
  by_version (phase0 m) root cache = on_block_phase0 m.slot root m.body >> pure cache
  by_version (altair m bits) root cache = on_block_altair m.slot root m.body bits cache
  by_version (bellatrix m bits p) root cache = on_block_bellatrix m.slot root m.body bits cache
  by_version (capella m bits c) root cache = on_block_capella m.slot root m.body bits cache
  by_version (deneb m bits d) root cache =
      on_block_deneb m.slot root m.body bits d.blob_kzg_commitments cache
  by_version unknown_version root cache = fail bad_data
  by_version unhandled_version root cache = fail bad_data

  set_and_go_on : SignedBlock → Cache → Option Block → Act Rows Metadata Cache
  unfolding by_version
  set_and_go_on b cache none = fail bad_data
  set_and_go_on b cache (some row) = set_block env.fault row >> by_version b row.root cache

  unfoldable pub on_block : SignedBlock → Cache → Act Rows Metadata Cache
  unfolding set_and_go_on
  on_block b cache = set_and_go_on b cache (db_block env b)
