-- ===== src/Summarizer/Epoch.antt =====
-- services/summarizer/standard/epoch.go: the numbers of an epoch's summary. A method takes the summary
-- that is being made, and changes it.
pub mod Halts
use chaind.Common.{
  ℕ, ◌+◌, Bool, true, false, not, ◌&&◌, List, [], ◌∷◌, if◌then◌else◌, leb, ltb, ◌==◌, length, add64,
  pure, fail, crash, ok, ◌>>=◌, ◌>>◌,
}
use chaind.Store.{no_data, bad_data}
use chaind.ChainDb.{Block, is_canonical}
use chaind.ChainTime.{first_slot_of_epoch, last_slot_of_epoch}
use chaind.Summarizer.{
  Validator, ValidatorBalance, ProposerSlashing, AttesterSlashing, Env, Stats, get, change,
}
use chaind.Summarizer.Intersection.{intersection}
use chaind.Summarizer.Votes.{attestation_stats_for_epoch}

-- One validator, and whether it is active.
classify : ℕ → ℕ → Validator → Stats Bool
classify far_future_epoch epoch v summary =
    if v.activation_epoch == epoch
    then (
      ok true,
      record summary {
        active_validators = summary.active_validators + 1;
        activating_validators = summary.activating_validators + 1;
      },
    )
    else if v.exit_epoch == epoch
    then (ok false, record summary { exiting_validators = summary.exiting_validators + 1 })
    else if leb v.activation_epoch epoch && ltb epoch v.exit_epoch
    then (ok true, record summary { active_validators = summary.active_validators + 1 })
    else if leb v.activation_eligibility_epoch epoch
        && (not (v.activation_epoch == far_future_epoch) && ltb epoch v.activation_epoch)
    then (
      ok false,
      record summary { activation_queue_length = summary.activation_queue_length + 1 },
    )
    else (ok false, summary)

classify_each : ℕ → ℕ → List Validator → Stats (List Bool)
unfolding classify
classify_each far_future_epoch epoch [] = pure []
classify_each far_future_epoch epoch (v ∷ vs) = do
  active ← classify far_future_epoch epoch v
  rest ← classify_each far_future_epoch epoch vs
  pure (active ∷ rest)

-- The balances of the validators that are active; a balance without a validator panics.
add_balances : List ValidatorBalance → List Bool → Stats (Unit {0})
add_balances [] active = pure tt
add_balances (b ∷ bs) [] = crash
add_balances (b ∷ bs) (a ∷ active) =
    change (λ summary. if not a then summary else record summary {
      active_real_balance = add64 summary.active_real_balance b.balance;
      active_balance = add64 summary.active_balance b.effective_balance;
    })
    >> add_balances bs active

count_canonical : List Block → ℕ
count_canonical [] = 0
count_canonical (b ∷ bs) =
    let rest = count_canonical bs in if is_canonical b.canonical then rest + 1 else rest

sum_amounts : ℕ → List ℕ → ℕ
sum_amounts total [] = total
sum_amounts total (a ∷ amounts) = sum_amounts (add64 total a) amounts

-- Whether a slashing is the first one of a list; an empty list is an error.
first_proposer_slashing : ProposerSlashing → List ProposerSlashing → Stats (Unit {0})
first_proposer_slashing s [] = fail bad_data
first_proposer_slashing s (first ∷ others) = change λ summary.
    if first.inclusion_slot == s.inclusion_slot && first.inclusion_index == s.inclusion_index
    then record summary { proposer_slashings = summary.proposer_slashings + 1 }
    else summary

-- The only one of the duties.
only_duty : List ℕ → Stats ℕ
only_duty [] = fail bad_data
only_duty (validator_index ∷ []) = pure validator_index
only_duty (validator_index ∷ other ∷ others) = fail bad_data

first_attester_slashing : AttesterSlashing → List AttesterSlashing → Stats (Unit {0})
first_attester_slashing s [] = fail bad_data
first_attester_slashing s (first ∷ others) = change λ summary.
    if first.inclusion_slot == s.inclusion_slot && first.inclusion_index == s.inclusion_index
    then record summary { attester_slashings = summary.attester_slashings + 1 }
    else summary

module _ (env : Env) where
  unfoldable pub validator_summary_stats_for_epoch : ℕ → Stats (List Bool)
  unfolding classify_each
  validator_summary_stats_for_epoch epoch =
      get env.validators >>= λ validators. classify_each env.far_future_epoch epoch validators

  block_stats_for_epoch : ℕ → ℕ → Stats (Unit {0})
  unfolding count_canonical
  block_stats_for_epoch min_slot max_slot =
      get (env.blocks_for_slot_range min_slot (add64 max_slot 1)) >>= λ blocks. change λ summary.
        record summary { canonical_blocks = summary.canonical_blocks + count_canonical blocks }

  deposit_stats_for_epoch : ℕ → ℕ → Stats (Unit {0})
  deposit_stats_for_epoch min_slot max_slot =
      get (env.deposits_for_slot_range min_slot (add64 max_slot 1)) >>= λ deposits.
      change λ summary. record summary { deposits = length deposits }

  withdrawal_stats_for_epoch : ℕ → ℕ → Stats (Unit {0})
  unfolding sum_amounts
  withdrawal_stats_for_epoch min_slot max_slot =
      get (env.withdrawals min_slot max_slot) >>= λ amounts.
      change λ summary. record summary { withdrawals = sum_amounts summary.withdrawals amounts }

  proposer_slashing_each : List ProposerSlashing → Stats (Unit {0})
  unfolding first_proposer_slashing only_duty
  proposer_slashing_each [] = pure tt
  proposer_slashing_each (s ∷ ss) = do
    duties ← get (env.proposer_duties_for_slot_range s.header1_slot (add64 s.header1_slot 1))
    validator_index ← only_duty duties
    slashings ← get (env.proposer_slashings_for_validator validator_index)
    first_proposer_slashing s slashings
    proposer_slashing_each ss

  attester_slashing_index : AttesterSlashing → List ℕ → Stats (Unit {0})
  unfolding first_attester_slashing
  attester_slashing_index s [] = pure tt
  attester_slashing_index s (index ∷ indices) = do
    slashings ← get (env.attester_slashings_for_validator index)
    first_attester_slashing s slashings
    attester_slashing_index s indices

  attester_slashing_each : List AttesterSlashing → Stats (Unit {0})
  unfolding attester_slashing_index
  attester_slashing_each [] = pure tt
  attester_slashing_each (s ∷ ss) =
      attester_slashing_index s (intersection s.attestation1_indices s.attestation2_indices)
      >> attester_slashing_each ss

  slashings_stats_for_epoch : ℕ → ℕ → Stats (Unit {0})
  unfolding proposer_slashing_each attester_slashing_each
  slashings_stats_for_epoch min_slot max_slot = do
    proposers ← get (env.proposer_slashings_for_slot_range min_slot (add64 max_slot 1))
    proposer_slashing_each proposers
    attesters ← get (env.attester_slashings_for_slot_range min_slot (add64 max_slot 1))
    attester_slashing_each attesters

  -- Where there are no balances yet, the epoch is not summarized.
  stats_with_balances : ℕ → List Bool → List ValidatorBalance → Stats Bool
  unfolding add_balances block_stats_for_epoch slashings_stats_for_epoch deposit_stats_for_epoch
      withdrawal_stats_for_epoch
  stats_with_balances epoch active [] = pure false
  stats_with_balances epoch active (b ∷ bs) =
      let min_slot = first_slot_of_epoch env.chain_time epoch in
      let max_slot = last_slot_of_epoch env.chain_time epoch in
      add_balances (b ∷ bs) active
      >> block_stats_for_epoch min_slot max_slot
      >> slashings_stats_for_epoch min_slot max_slot
      >> attestation_stats_for_epoch env min_slot max_slot (b ∷ bs)
      >> deposit_stats_for_epoch min_slot max_slot
      >> withdrawal_stats_for_epoch min_slot max_slot
      >> pure true

  check_active : Stats (Unit {0})
  check_active summary =
      if summary.active_validators == 0 then fail no_data summary else pure tt summary

  -- The whole summary; false says that there are not enough data.
  unfoldable pub epoch_stats : ℕ → Stats Bool
  unfolding validator_summary_stats_for_epoch check_active stats_with_balances
  epoch_stats epoch = do
    active ← validator_summary_stats_for_epoch epoch
    check_active
    balances ← get (env.validator_balances_by_epoch epoch)
    stats_with_balances epoch active balances
