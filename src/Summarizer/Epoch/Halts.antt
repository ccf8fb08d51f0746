-- ===== src/Summarizer/Epoch/Halts.antt =====
-- services/summarizer/standard/epoch.go: making a summary comes to an end.
use chaind.Common.{
  ℕ, Bool, true, false, not, ◌&&◌, List, [], ◌∷◌, if◌then◌else◌, Outcome, add64, ◌==◌, leb, ltb,
}
use chaind.Store.{Failure}
use chaind.ChainTime.{first_slot_of_epoch, last_slot_of_epoch}
use chaind.Summarizer.{
  Validator, ValidatorBalance, ProposerSlashing, AttesterSlashing, EpochSummary, Env,
}
use chaind.Summarizer.Intersection.{intersection}
use chaind.Summarizer.Halts.{Ended, Halts, resume-Ended, get-Ended}
use chaind.Summarizer.Votes.Halts.{attestation_stats_for_epoch-Halts}
use chaind.Summarizer.Epoch.{
  classify, classify_each, add_balances, block_stats_for_epoch, deposit_stats_for_epoch,
  withdrawal_stats_for_epoch, proposer_slashing_each, attester_slashing_index,
  attester_slashing_each, slashings_stats_for_epoch, first_proposer_slashing,
  first_attester_slashing, only_duty, check_active, stats_with_balances,
  validator_summary_stats_for_epoch, epoch_stats,
}

if-Ended :
    {A : Type 0} (b : Bool) (x y : Outcome Failure A × EpochSummary)
    → Ended x
    → Ended y
    → Ended (if b then x else y)
if-Ended true x y p q = p
if-Ended false x y p q = q

classify-Halts : (far epoch : ℕ) (v : Validator) → Halts (classify far epoch v)
unfolding classify
classify-Halts far epoch v s = if-Ended (v.activation_epoch == epoch) _ _ tt (
    if-Ended (v.exit_epoch == epoch) _ _ tt (
      if-Ended (leb v.activation_epoch epoch && ltb epoch v.exit_epoch) _ _ tt (
        if-Ended
          (leb v.activation_eligibility_epoch epoch
            && (not (v.activation_epoch == far) && ltb epoch v.activation_epoch))
          _ _ tt tt)))

classify_each-Halts : (far epoch : ℕ) (vs : List Validator) → Halts (classify_each far epoch vs)
unfolding classify_each
classify_each-Halts far epoch [] s = tt
classify_each-Halts far epoch (v ∷ vs) s =
    resume-Ended _ (classify far epoch v s) (classify-Halts far epoch v s) λ active s.
      resume-Ended _ (classify_each far epoch vs s) (classify_each-Halts far epoch vs s)
        λ rest s. tt

add_balances-Halts :
    (bs : List ValidatorBalance) (active : List Bool) → Halts (add_balances bs active)
unfolding add_balances
add_balances-Halts [] active s = tt
add_balances-Halts (b ∷ bs) [] s = tt
add_balances-Halts (b ∷ bs) (a ∷ active) s = add_balances-Halts bs active _

first_proposer_slashing-Halts :
    (p : ProposerSlashing) (ps : List ProposerSlashing) → Halts (first_proposer_slashing p ps)
unfolding first_proposer_slashing
first_proposer_slashing-Halts p [] s = tt
first_proposer_slashing-Halts p (q ∷ qs) s = tt

only_duty-Halts : (ds : List ℕ) → Halts (only_duty ds)
unfolding only_duty
only_duty-Halts [] s = tt
only_duty-Halts (d ∷ []) s = tt
only_duty-Halts (d ∷ e ∷ ds) s = tt

first_attester_slashing-Halts :
    (p : AttesterSlashing) (ps : List AttesterSlashing) → Halts (first_attester_slashing p ps)
unfolding first_attester_slashing
first_attester_slashing-Halts p [] s = tt
first_attester_slashing-Halts p (q ∷ qs) s = tt

module _ (env : Env) where
  proposer_slashing_each-Halts :
      (ps : List ProposerSlashing) → Halts (proposer_slashing_each env ps)
  unfolding proposer_slashing_each
  proposer_slashing_each-Halts [] s = tt
  proposer_slashing_each-Halts (p ∷ ps) s =
      get-Ended (env.proposer_duties_for_slot_range p.header1_slot (add64 p.header1_slot 1)) _ s
        λ duties s. resume-Ended _ (only_duty duties s) (only_duty-Halts duties s) λ index s.
          get-Ended (env.proposer_slashings_for_validator index) _ s λ slashings s.
            resume-Ended _ (first_proposer_slashing p slashings s)
              (first_proposer_slashing-Halts p slashings s) λ _. proposer_slashing_each-Halts ps

  attester_slashing_index-Halts :
      (a : AttesterSlashing) (indices : List ℕ) → Halts (attester_slashing_index env a indices)
  unfolding attester_slashing_index
  attester_slashing_index-Halts a [] s = tt
  attester_slashing_index-Halts a (i ∷ indices) s =
      get-Ended (env.attester_slashings_for_validator i) _ s λ slashings s.
        resume-Ended _ (first_attester_slashing a slashings s)
          (first_attester_slashing-Halts a slashings s) λ _. attester_slashing_index-Halts a indices

  attester_slashing_each-Halts :
      (as' : List AttesterSlashing) → Halts (attester_slashing_each env as')
  unfolding attester_slashing_each
  attester_slashing_each-Halts [] s = tt
  attester_slashing_each-Halts (a ∷ as') s =
      let both = intersection a.attestation1_indices a.attestation2_indices in
      resume-Ended _ (attester_slashing_index env a both s) (attester_slashing_index-Halts a both s)
        λ _. attester_slashing_each-Halts as'

  slashings_stats_for_epoch-Halts :
      (min_slot max_slot : ℕ) → Halts (slashings_stats_for_epoch env min_slot max_slot)
  unfolding slashings_stats_for_epoch
  slashings_stats_for_epoch-Halts min_slot max_slot s =
      get-Ended (env.proposer_slashings_for_slot_range min_slot (add64 max_slot 1)) _ s λ ps s.
        resume-Ended _ (proposer_slashing_each env ps s) (proposer_slashing_each-Halts ps s) λ _ s.
          get-Ended (env.attester_slashings_for_slot_range min_slot (add64 max_slot 1)) _ s
            attester_slashing_each-Halts

  block_stats_for_epoch-Halts :
      (min_slot max_slot : ℕ) → Halts (block_stats_for_epoch env min_slot max_slot)
  unfolding block_stats_for_epoch
  block_stats_for_epoch-Halts min_slot max_slot s =
      get-Ended (env.blocks_for_slot_range min_slot (add64 max_slot 1)) _ s λ blocks s. tt

  deposit_stats_for_epoch-Halts :
      (min_slot max_slot : ℕ) → Halts (deposit_stats_for_epoch env min_slot max_slot)
  unfolding deposit_stats_for_epoch
  deposit_stats_for_epoch-Halts min_slot max_slot s =
      get-Ended (env.deposits_for_slot_range min_slot (add64 max_slot 1)) _ s λ deposits s. tt

  withdrawal_stats_for_epoch-Halts :
      (min_slot max_slot : ℕ) → Halts (withdrawal_stats_for_epoch env min_slot max_slot)
  unfolding withdrawal_stats_for_epoch
  withdrawal_stats_for_epoch-Halts min_slot max_slot s =
      get-Ended (env.withdrawals min_slot max_slot) _ s λ amounts s. tt

  stats_with_balances-Halts :
      (epoch : ℕ) (active : List Bool) (bs : List ValidatorBalance)
      → Halts (stats_with_balances env epoch active bs)
  unfolding stats_with_balances
  stats_with_balances-Halts epoch active [] s = tt
  stats_with_balances-Halts epoch active (b ∷ bs) s =
      let low = first_slot_of_epoch env.chain_time epoch in
      let high = last_slot_of_epoch env.chain_time epoch in
      resume-Ended _ _
        (resume-Ended _ _
          (resume-Ended _ _
            (resume-Ended _ _
              (resume-Ended _ _
                (resume-Ended _ (add_balances (b ∷ bs) active s)
                  (add_balances-Halts (b ∷ bs) active s) λ _. block_stats_for_epoch-Halts low high)
                λ _. slashings_stats_for_epoch-Halts low high)
              λ _. attestation_stats_for_epoch-Halts env low high (b ∷ bs))
            λ _. deposit_stats_for_epoch-Halts low high)
          λ _. withdrawal_stats_for_epoch-Halts low high)
        λ _ s. tt

  pub epoch_stats-Halts : (epoch : ℕ) → Halts (epoch_stats env epoch)
  unfolding epoch_stats validator_summary_stats_for_epoch check_active
  epoch_stats-Halts epoch s =
      resume-Ended _ (validator_summary_stats_for_epoch env epoch s)
        (get-Ended env.validators _ s λ vs. classify_each-Halts env.far_future_epoch epoch vs)
        λ active s.
          resume-Ended _ (check_active env s) (if-Ended (s.active_validators == 0) _ _ tt tt) λ _ s.
            get-Ended (env.validator_balances_by_epoch epoch) _ s
              λ bs. stats_with_balances-Halts epoch active bs
