-- ===== src/Blocks.antt =====
-- services/blocks/standard (service.go, metadata.go): the blocks of the consensus client, and the tables
-- that they are written to. Roots, hashes, keys, signatures and addresses, of a fixed number of bytes,
-- are numbers. In a table of a block's operations the columns of the key are those of `Included`.
pub mod Rows
pub mod SetBlock
pub mod Convert
pub mod Operations
pub mod Votes
pub mod Sync
pub mod Handler
pub mod Service
use chaind.Common.{ℕ, ◌-◌, Bool, Option, List, two64}
use chaind.Store.{Act}
use chaind.Store.Inserts.{Included}
use chaind.ChainTime
use chaind.BeaconCommittees.{BeaconCommittee}
use chaind.SyncCommittees.{SyncCommittee}

pub record Header : Type 0 where
  pub slot : ℕ
  pub proposer_index : ℕ
  pub parent_root : ℕ
  pub state_root : ℕ
  pub body_root : ℕ

pub record SignedHeader : Type 0 where
  pub message : Header
  pub signature : ℕ

pub record Checkpoint : Type 0 where
  pub epoch : ℕ
  pub root : ℕ

pub record AttestationData : Type 0 where
  pub slot : ℕ
  pub index : ℕ
  pub beacon_block_root : ℕ
  pub source : Checkpoint
  pub target : Checkpoint

pub record ChainAttestation : Type 0 where
  pub aggregation_bits : List Bool
  pub attestation_data : AttestationData

pub record IndexedAttestation : Type 0 where
  pub attesting_indices : List ℕ
  pub attestation_data : AttestationData
  pub signature : ℕ

pub record ChainProposerSlashing : Type 0 where
  pub signed_header_1 : SignedHeader
  pub signed_header_2 : SignedHeader

pub record ChainAttesterSlashing : Type 0 where
  pub attestation_1 : IndexedAttestation
  pub attestation_2 : IndexedAttestation

pub record ChainDeposit : Type 0 where
  pub public_key : ℕ
  pub withdrawal_credentials : ℕ
  pub amount : ℕ

pub record ChainVoluntaryExit : Type 0 where
  pub epoch : ℕ
  pub validator_index : ℕ

pub record Eth1Data : Type 0 where
  pub block_hash : ℕ
  pub deposit_count : ℕ
  pub deposit_root : ℕ

-- The body of a block of phase 0, which those of the later forks extend.
pub record Body : Type 0 where
  pub randao_reveal : ℕ
  pub eth1_data : Eth1Data
  pub graffiti : ℕ
  pub proposer_slashings : List ChainProposerSlashing
  pub attester_slashings : List ChainAttesterSlashing
  pub attestations : List ChainAttestation
  pub deposits : List ChainDeposit
  pub voluntary_exits : List ChainVoluntaryExit

-- An execution payload; until Deneb its base fee is 32 bytes, little-endian.
pub record Payload (Fee : Type 0) : Type 0 where
  pub parent_hash : ℕ
  pub fee_recipient : ℕ
  pub state_root : ℕ
  pub receipts_root : ℕ
  pub logs_bloom : ℕ
  pub prev_randao : ℕ
  pub block_number : ℕ
  pub gas_limit : ℕ
  pub gas_used : ℕ
  pub timestamp : ℕ
  pub extra_data : List ℕ
  pub base_fee_per_gas : Fee
  pub block_hash : ℕ

pub record ChainWithdrawal : Type 0 where
  pub index : ℕ
  pub validator_index : ℕ
  pub address : ℕ
  pub amount : ℕ

pub record BlsChange : Type 0 where
  pub validator_index : ℕ
  pub from_bls_pub_key : ℕ
  pub to_execution_address : ℕ

pub record CapellaParts (Fee : Type 0) : Type 0 where
  pub payload : Payload Fee
  pub withdrawals : List ChainWithdrawal
  pub bls_to_execution_changes : List BlsChange

pub record DenebParts : Type 0 where
  pub capella : CapellaParts ℕ
  pub blob_gas_used : ℕ
  pub excess_blob_gas : ℕ
  pub blob_kzg_commitments : List ℕ

pub record Message : Type 0 where
  pub slot : ℕ
  pub proposer_index : ℕ
  pub parent_root : ℕ
  pub state_root : ℕ
  pub body : Body

-- A block of the client, with what each fork adds to its body: a sync aggregate, as its bits, from
-- Altair on.
pub data SignedBlock : Type 0 where
  phase0 : Message → SignedBlock
  altair : Message → List Bool → SignedBlock
  bellatrix : Message → List Bool → Payload (List ℕ) → SignedBlock
  capella : Message → List Bool → CapellaParts (List ℕ) → SignedBlock
  deneb : Message → List Bool → DenebParts → SignedBlock
  unknown_version unhandled_version : SignedBlock

-- What the client answers for a slot; `not_found` is a status of 404.
pub data BlockAnswer : Type 0 where
  obtained : SignedBlock → BlockAnswer
  not_found failed : BlockAnswer

pub record BlobSidecar : Type 0 where
  pub inclusion_block_root : ℕ
  pub inclusion_slot : ℕ
  pub inclusion_index : ℕ
  pub blob : List ℕ
  pub kzg_commitment : ℕ
  pub kzg_proof : ℕ
  pub kzg_commitment_inclusion_proof : ℕ

pub record ChainBlobSidecar : Type 0 where
  pub header_slot : ℕ
  pub index : ℕ
  pub blob : List ℕ
  pub kzg_commitment : ℕ
  pub kzg_proof : ℕ
  pub kzg_commitment_inclusion_proof : ℕ

pub record Metadata : Type 0 where
  pub latest_slot : ℕ

abbrev pub no_metadata : Metadata
no_metadata = record { latest_slot = two64 - 1 }

-- What the service uses: the calls of the database that fail; the chain's parameters; `refetch` of its
-- parameters; the hash tree roots of a block's body and of a header; the answers of the client, for
-- a slot, a slot and a block's root; the tables of beacon committees and sync committees, which
-- other services write; and the service's map of sync committees, as the work for a slot finds it.
pub record Env : Type 0 where
  pub fault : ℕ → Bool
  pub chain_time : ChainTime.Service
  pub refetch : Bool
  pub body_root : SignedBlock → Option ℕ
  pub header_root : Header → Option ℕ
  pub signed_beacon_block : ℕ → BlockAnswer
  pub client_committees : ℕ → Option (List BeaconCommittee)
  pub client_blob_sidecars : ℕ → Option (List ChainBlobSidecar)
  pub beacon_committees : List BeaconCommittee
  pub sync_committees : ℕ → Option (List ℕ)
  pub cached : ℕ → List SyncCommittee
