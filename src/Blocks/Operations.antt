-- ===== src/Blocks/Operations.antt =====
-- services/blocks/standard/handler.go: the rows for a block's slashings, deposits, voluntary exits and
-- blob sidecars.
pub mod Blobs
use chaind.Common.{ℕ, Bool, false, Option, none, some, List, [], ◌∷◌, if◌then◌else◌, ◌==◌}
use chaind.Blocks.{
  ChainProposerSlashing, ChainAttesterSlashing, ChainDeposit, ChainVoluntaryExit, BlobSidecar,
  ChainBlobSidecar, Env,
}
use chaind.Blocks.Rows.{ProposerSlashing, AttesterSlashing, Deposit, VoluntaryExit}

module _ (env : Env) where
  slashing_row : ChainProposerSlashing → ℕ → ℕ → ProposerSlashing
  slashing_row p root_1 root_2 = record {
    block_1_root = root_1;
    header_1_slot = p.signed_header_1.message.slot;
    header_1_proposer_index = p.signed_header_1.message.proposer_index;
    header_1_parent_root = p.signed_header_1.message.parent_root;
    header_1_state_root = p.signed_header_1.message.state_root;
    header_1_body_root = p.signed_header_1.message.body_root;
    header_1_signature = p.signed_header_1.signature;
    block_2_root = root_2;
    header_2_slot = p.signed_header_2.message.slot;
    header_2_proposer_index = p.signed_header_2.message.proposer_index;
    header_2_parent_root = p.signed_header_2.message.parent_root;
    header_2_state_root = p.signed_header_2.message.state_root;
    header_2_body_root = p.signed_header_2.message.body_root;
    header_2_signature = p.signed_header_2.signature;
  }

  unfoldable pub db_proposer_slashing : ChainProposerSlashing → Option ProposerSlashing
  unfolding slashing_row
  db_proposer_slashing p = elim (env.header_root p.signed_header_1.message) [
    | none ↦ none
    | some root_1 ↦ elim (env.header_root p.signed_header_2.message) [
      | none ↦ none
      | some root_2 ↦ some (slashing_row p root_1 root_2)
    ]
  ]

unfoldable pub db_attester_slashing : ChainAttesterSlashing → AttesterSlashing
db_attester_slashing s = record {
  attestation_1_indices = s.attestation_1.attesting_indices;
  attestation_1_slot = s.attestation_1.attestation_data.slot;
  attestation_1_committee_index = s.attestation_1.attestation_data.index;
  attestation_1_beacon_block_root = s.attestation_1.attestation_data.beacon_block_root;
  attestation_1_source_epoch = s.attestation_1.attestation_data.source.epoch;
  attestation_1_source_root = s.attestation_1.attestation_data.source.root;
  attestation_1_target_epoch = s.attestation_1.attestation_data.target.epoch;
  attestation_1_target_root = s.attestation_1.attestation_data.target.root;
  attestation_1_signature = s.attestation_1.signature;
  attestation_2_indices = s.attestation_2.attesting_indices;
  attestation_2_slot = s.attestation_2.attestation_data.slot;
  attestation_2_committee_index = s.attestation_2.attestation_data.index;
  attestation_2_beacon_block_root = s.attestation_2.attestation_data.beacon_block_root;
  attestation_2_source_epoch = s.attestation_2.attestation_data.source.epoch;
  attestation_2_source_root = s.attestation_2.attestation_data.source.root;
  attestation_2_target_epoch = s.attestation_2.attestation_data.target.epoch;
  attestation_2_target_root = s.attestation_2.attestation_data.target.root;
  attestation_2_signature = s.attestation_2.signature;
}

unfoldable pub db_deposit : ChainDeposit → Deposit
db_deposit d = record {
  validator_pub_key = d.public_key;
  withdrawal_credentials = d.withdrawal_credentials;
  amount = d.amount;
}

unfoldable pub db_voluntary_exit : ChainVoluntaryExit → VoluntaryExit
db_voluntary_exit e = record { validator_index = e.validator_index; epoch = e.epoch }

ends_at_zero : ℕ → List ℕ → Bool
ends_at_zero b [] = b == 0
ends_at_zero b (_ ∷ _) = false

-- bytes.TrimRight of the zeros at the end of a blob, as it is stored.
unfoldable pub trim_right : List ℕ → List ℕ
unfolding ends_at_zero
trim_right [] = []
trim_right (b ∷ bs) = let others = trim_right bs in if ends_at_zero b others then [] else b ∷ others

unfoldable pub db_blob_sidecar : ℕ → ChainBlobSidecar → BlobSidecar
db_blob_sidecar root b = record {
  inclusion_block_root = root;
  inclusion_slot = b.header_slot;
  inclusion_index = b.index;
  blob = b.blob;
  kzg_commitment = b.kzg_commitment;
  kzg_proof = b.kzg_proof;
  kzg_commitment_inclusion_proof = b.kzg_commitment_inclusion_proof;
}
