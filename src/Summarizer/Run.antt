-- ===== src/Summarizer/Run.antt =====
-- services/summarizer/standard: summarizeEpoch (epoch.go) and summarizeEpochs (handler.go).
pub mod Progress
pub mod Target
use chaind.Common.{
  ℕ, zero, suc, ◌+◌, Bool, true, false, not, ◌&&◌, if◌then◌else◌, ltb, leb, ◌==◌, add64, sub64,
  Outcome, ok, err, panicked, looping, pure, ◌>>=◌, ◌>>◌,
}
use chaind.Store.{World, Act, Failure, hold, get_metadata, mutate}
use chaind.Catchup
use chaind.Catchup.{update_unit}
use chaind.Summarizer.{EpochSummary, Metadata, Rows, Env, no_metadata, set_epoch_summary}
use chaind.Summarizer.Epoch.{epoch_stats}

abbrev pub empty_summary : ℕ → EpochSummary
empty_summary epoch = record {
  epoch = epoch;
  activation_queue_length = 0;
  activating_validators = 0;
  active_validators = 0;
  active_real_balance = 0;
  active_balance = 0;
  attesting_validators = 0;
  attesting_balance = 0;
  target_correct_validators = 0;
  target_correct_balance = 0;
  head_correct_validators = 0;
  head_correct_balance = 0;
  attestations_for_epoch = 0;
  attestations_in_epoch = 0;
  duplicate_attestations_for_epoch = 0;
  proposer_slashings = 0;
  attester_slashings = 0;
  deposits = 0;
  exiting_validators = 0;
  canonical_blocks = 0;
  withdrawals = 0;
}

-- The epoch after the last one, but 0 after 0, which may mean that there is none.
unfoldable pub first_epoch : ℕ → ℕ
first_epoch last = if last == 0 then 0 else add64 last 1

module _ (env : Env) where
  -- The transaction that stores a summary, in the words of the services that catch up.
  abbrev pub writer : EpochSummary → Catchup.Service Rows Metadata
  writer summary = record {
    fault = env.fault;
    latest = λ md. md.last_epoch;
    advance = λ epoch md. record md { last_epoch = epoch };
    update = λ epoch. mutate env.fault λ db. record db { rows = set_epoch_summary summary db.rows };
  }

  pub after_stats : ℕ → Outcome Failure Bool → EpochSummary → Act Rows Metadata Bool
  after_stats epoch (ok true) summary = update_unit (writer summary) epoch >> pure true
  after_stats epoch (ok false) summary = pure false
  after_stats epoch (err e) summary = λ w. (err e, w)
  after_stats epoch panicked summary = λ w. (panicked, w)
  after_stats epoch looping summary = λ w. (looping, w)

  -- Whether the epoch has been updated.
  unfoldable pub summarize_epoch : ℕ → Act Rows Metadata Bool
  unfolding after_stats
  summarize_epoch epoch =
      let r = epoch_stats env epoch (empty_summary epoch) in
      if not env.epoch_summaries
      then pure false
      else if epoch == 0
      then pure true
      else after_stats epoch r.0 r.1

  pub epochs_from : ℕ → ℕ → ℕ → Act Rows Metadata (Unit {0})
  unfolding summarize_epoch
  epochs_from zero epoch target = λ w. (looping, w)
  epochs_from (suc fuel) epoch target =
      let rest = epochs_from fuel (add64 epoch 1) target in
      if leb epoch target
      then (summarize_epoch epoch >>= λ updated. if updated then rest else pure tt)
      else pure tt

  -- The last epoch of a run.
  unfoldable pub limit : ℕ → ℕ → ℕ
  limit first target =
      if env.validator_epoch_retention
        && (ltb 0 env.max_epochs_per_run && ltb env.max_epochs_per_run (sub64 target first))
      then add64 first env.max_epochs_per_run
      else target

  unfoldable pub summarize_epochs : ℕ → ℕ → Act Rows Metadata (Unit {0})
  unfolding first_epoch epochs_from limit
  summarize_epochs fuel target =
      if not env.epoch_summaries
      then pure tt
      else (get_metadata env.fault no_metadata >>= λ md.
          let first = first_epoch md.last_epoch in
          hold (λ _. md)
          >> (if ltb target first then pure tt else epochs_from fuel first (limit first target)))
