-- ===== src/Blocks/Rows.antt =====
-- The rows that services/blocks/standard writes (services/chaindb/types.go), and SetBlock of
-- services/chaindb/postgresql/blocks.go with the tables that belong to a block's.
use chaind.Common.{ℕ, Bool, Option, List}
use chaind.Store.Inserts.{Included}
use chaind.Blocks.{Payload, BlsChange, BlobSidecar}

pub record Withdrawal : Type 0 where
  pub withdrawal_index : ℕ
  pub validator_index : ℕ
  pub address : ℕ
  pub amount : ℕ

pub record ExecutionPayload : Type 0 where
  pub fields : Payload ℕ
  pub withdrawals : List (Included Withdrawal)
  pub blob_gas_used : ℕ
  pub excess_blob_gas : ℕ

pub record Block : Type 0 where
  pub slot : ℕ
  pub proposer_index : ℕ
  pub root : ℕ
  pub graffiti : ℕ
  pub randao_reveal : ℕ
  pub body_root : ℕ
  pub parent_root : ℕ
  pub state_root : ℕ
  pub canonical : Option Bool
  pub eth1_block_hash : ℕ
  pub eth1_deposit_count : ℕ
  pub eth1_deposit_root : ℕ
  pub execution_payload : Option ExecutionPayload
  pub bls_to_execution_changes : List (Included BlsChange)
  pub blob_kzg_commitments : List ℕ

pub record Attestation : Type 0 where
  pub slot : ℕ
  pub committee_index : ℕ
  pub beacon_block_root : ℕ
  pub aggregation_bits : List Bool
  pub aggregation_indices : Option (List ℕ)
  pub source_epoch : ℕ
  pub source_root : ℕ
  pub target_epoch : ℕ
  pub target_root : ℕ
  pub canonical : Option Bool
  pub target_correct : Option Bool
  pub head_correct : Option Bool

pub record ProposerSlashing : Type 0 where
  pub block_1_root : ℕ
  pub header_1_slot : ℕ
  pub header_1_proposer_index : ℕ
  pub header_1_parent_root : ℕ
  pub header_1_state_root : ℕ
  pub header_1_body_root : ℕ
  pub header_1_signature : ℕ
  pub block_2_root : ℕ
  pub header_2_slot : ℕ
  pub header_2_proposer_index : ℕ
  pub header_2_parent_root : ℕ
  pub header_2_state_root : ℕ
  pub header_2_body_root : ℕ
  pub header_2_signature : ℕ

pub record AttesterSlashing : Type 0 where
  pub attestation_1_indices : List ℕ
  pub attestation_1_slot : ℕ
  pub attestation_1_committee_index : ℕ
  pub attestation_1_beacon_block_root : ℕ
  pub attestation_1_source_epoch : ℕ
  pub attestation_1_source_root : ℕ
  pub attestation_1_target_epoch : ℕ
  pub attestation_1_target_root : ℕ
  pub attestation_1_signature : ℕ
  pub attestation_2_indices : List ℕ
  pub attestation_2_slot : ℕ
  pub attestation_2_committee_index : ℕ
  pub attestation_2_beacon_block_root : ℕ
  pub attestation_2_source_epoch : ℕ
  pub attestation_2_source_root : ℕ
  pub attestation_2_target_epoch : ℕ
  pub attestation_2_target_root : ℕ
  pub attestation_2_signature : ℕ

pub record Deposit : Type 0 where
  pub validator_pub_key : ℕ
  pub withdrawal_credentials : ℕ
  pub amount : ℕ

pub record VoluntaryExit : Type 0 where
  pub validator_index : ℕ
  pub epoch : ℕ

pub record SyncAggregate : Type 0 where
  pub inclusion_slot : ℕ
  pub inclusion_block_root : ℕ
  pub bits : List Bool
  pub indices : List ℕ

-- `execution_payloads` has the payload of the block with a root, without its withdrawals.
pub record PayloadRow : Type 0 where
  pub block_root : ℕ
  pub fields : Payload ℕ
  pub blob_gas_used : ℕ
  pub excess_blob_gas : ℕ

-- The column f_blob_kzg_commitments is NULL where there are none.
pub record BlockRow : Type 0 where
  pub slot : ℕ
  pub proposer_index : ℕ
  pub root : ℕ
  pub graffiti : ℕ
  pub randao_reveal : ℕ
  pub body_root : ℕ
  pub parent_root : ℕ
  pub state_root : ℕ
  pub canonical : Option Bool
  pub eth1_block_hash : ℕ
  pub eth1_deposit_count : ℕ
  pub eth1_deposit_root : ℕ
  pub blob_kzg_commitments : List ℕ

pub record Rows : Type 0 where
  pub blocks : List BlockRow
  pub execution_payloads : List PayloadRow
  pub withdrawals : List (Included Withdrawal)
  pub bls_to_execution_changes : List (Included BlsChange)
  pub attestations : List (Included Attestation)
  pub proposer_slashings : List (Included ProposerSlashing)
  pub attester_slashings : List (Included AttesterSlashing)
  pub deposits : List (Included Deposit)
  pub voluntary_exits : List (Included VoluntaryExit)
  pub sync_aggregates : List SyncAggregate
  pub blob_sidecars : List BlobSidecar
