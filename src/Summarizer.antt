-- ===== src/Summarizer.antt =====
-- services/summarizer/standard: what the summaries of an epoch are made of, and the metadata.
-- The queries of the database are those of the interfaces in services/chaindb/service.go.
pub mod Intersection
pub mod Votes
pub mod Epoch
pub mod Run
pub mod Day
pub mod Attestations
pub mod Halts
use chaind.Common.{
  ℕ, ◌-◌, Bool, false, Option, List, [], ◌∷◌, if◌then◌else◌, ◌==◌, two64, M, pure, fail, ok, none,
  some,
}
use chaind.Store.{Failure, database}
use chaind.ChainTime
use chaind.ChainDb.{Block}

pub record Validator : Type 0 where
  pub activation_eligibility_epoch : ℕ
  pub activation_epoch : ℕ
  pub exit_epoch : ℕ

pub record ValidatorBalance : Type 0 where
  pub balance : ℕ
  pub effective_balance : ℕ

-- `content` stands for the columns that the hash tree root is taken of.
pub record Attestation : Type 0 where
  pub slot : ℕ
  pub aggregation_indices : List ℕ
  pub canonical : Option Bool
  pub target_correct : Option Bool
  pub head_correct : Option Bool
  pub content : ℕ

pub record ProposerSlashing : Type 0 where
  pub header1_slot : ℕ
  pub inclusion_slot : ℕ
  pub inclusion_index : ℕ

pub record AttesterSlashing : Type 0 where
  pub attestation1_indices : List ℕ
  pub attestation2_indices : List ℕ
  pub inclusion_slot : ℕ
  pub inclusion_index : ℕ

pub record EpochSummary : Type 0 where
  pub epoch : ℕ
  pub activation_queue_length : ℕ
  pub activating_validators : ℕ
  pub active_validators : ℕ
  pub active_real_balance : ℕ
  pub active_balance : ℕ
  pub attesting_validators : ℕ
  pub attesting_balance : ℕ
  pub target_correct_validators : ℕ
  pub target_correct_balance : ℕ
  pub head_correct_validators : ℕ
  pub head_correct_balance : ℕ
  pub attestations_for_epoch : ℕ
  pub attestations_in_epoch : ℕ
  pub duplicate_attestations_for_epoch : ℕ
  pub proposer_slashings : ℕ
  pub attester_slashings : ℕ
  pub deposits : ℕ
  pub exiting_validators : ℕ
  pub canonical_blocks : ℕ
  pub withdrawals : ℕ

-- The last day is an int64.
pub record Metadata : Type 0 where
  pub last_validator_epoch : ℕ
  pub last_block_epoch : ℕ
  pub last_epoch : ℕ
  pub last_validator_day : ℕ
  pub periodic_validator_rollups : Bool

abbrev pub no_metadata : Metadata
no_metadata = record {
  last_validator_epoch = 0;
  last_block_epoch = 0;
  last_epoch = 0;
  last_validator_day = two64 - 1;
  periodic_validator_rollups = false;
}

abbrev pub Rows : Type 0
Rows = List EpochSummary

-- INSERT … ON CONFLICT (f_epoch) DO UPDATE.
unfoldable pub set_epoch_summary : EpochSummary → Rows → Rows
set_epoch_summary s [] = s ∷ []
set_epoch_summary s (e ∷ es) = if e.epoch == s.epoch then s ∷ es else e ∷ set_epoch_summary s es

-- What the service uses: the calls of a transaction that fail, and the answers to the queries, where
-- `none` is an error. A range is from its first slot up to, but without, its second; that of the
-- withdrawals, which are amounts of canonical blocks, has both. The epochs in a run are those of the days
-- that are allowed; their number goes through float64.
pub record Env : Type 0 where
  pub fault : ℕ → Bool
  pub chain_time : ChainTime.Service
  pub far_future_epoch : ℕ
  pub epoch_summaries : Bool
  pub validator_epoch_retention : Bool
  pub max_epochs_per_run : ℕ
  pub hash_tree_root : Attestation → Option ℕ
  pub validators : Option (List Validator)
  pub validator_balances_by_epoch : ℕ → Option (List ValidatorBalance)
  pub blocks_for_slot_range : ℕ → ℕ → Option (List Block)
  pub attestations_for_slot_range : ℕ → ℕ → Option (List Attestation)
  pub attestations_in_slot_range : ℕ → ℕ → Option (List Attestation)
  pub proposer_duties_for_slot_range : ℕ → ℕ → Option (List ℕ)
  pub proposer_slashings_for_slot_range : ℕ → ℕ → Option (List ProposerSlashing)
  pub proposer_slashings_for_validator : ℕ → Option (List ProposerSlashing)
  pub attester_slashings_for_slot_range : ℕ → ℕ → Option (List AttesterSlashing)
  pub attester_slashings_for_validator : ℕ → Option (List AttesterSlashing)
  pub deposits_for_slot_range : ℕ → ℕ → Option (List ℕ)
  pub withdrawals : ℕ → ℕ → Option (List ℕ)

-- A method on the summary that is being made.
abbrev pub Stats : Type 0 → Type 0
Stats A = M EpochSummary Failure A

-- The answer to a query.
abbrev pub get : {A : Type 0} → Option A → Stats A
get none = fail database
get (some a) = pure a

abbrev pub change : (EpochSummary → EpochSummary) → Stats (Unit {0})
change f summary = (ok tt, f summary)
