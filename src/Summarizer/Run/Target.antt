-- ===== src/Summarizer/Run/Target.antt =====
-- services/summarizer/standard/handler.go: summarizeEpochs, from the metadata to its end.
use chaind.Common.{
  ℕ, suc, ◌+◌, ◌≤◌, ◌<◌, ◌≡◌, Bool, true, false, two64, Outcome, ok, err, panicked, looping, arith,
}
use chaind.Store.{Failure}
use chaind.Summarizer.{EpochSummary, Env}
use chaind.Summarizer.Halts.{Ended}
use chaind.Summarizer.Epoch.{epoch_stats}
use chaind.Summarizer.Epoch.Halts.{epoch_stats-Halts}
use chaind.Summarizer.Run.{empty_summary}
use chaind.Summarizer.Run.Progress.{how}

Ended-not_looping : (r : Outcome Failure Bool × EpochSummary) → Ended r → r.0 ≡ looping → ⊥
Ended-not_looping (ok a, s) p q = ground arith
Ended-not_looping (err e, s) p q = ground arith
Ended-not_looping (panicked, s) p q = ground arith
Ended-not_looping (looping, s) p q = p

module _ (env : Env) where
  pub how-halts : (n : ℕ) → how env n ≡ looping → ⊥
  how-halts n =
      Ended-not_looping (epoch_stats env n (empty_summary n))
        (epoch_stats-Halts env n (empty_summary n))

  -- The epoch to start from: the one after the last one, but 0 where that is 0, as it is where none
  -- has been summarized, or the largest number.
  abbrev pub StartsAt : ℕ → ℕ → Type 0
  StartsAt last first =
      (last ≡ 0 → first ≡ 0)
      × (0 < last → suc last < two64 → first ≡ suc last)
      × (suc last ≡ two64 → first ≡ 0)

  -- The epoch to end with: the target; but with the pruning of validator epochs enabled and a number
  -- of epochs for a run, which fewer epochs than there are left, as many epochs behind the first.
  abbrev pub EndsAt : ℕ → ℕ → ℕ → Type 0
  EndsAt first target bound =
      (bound ≤ target)
      × (env.validator_epoch_retention ≡ false → bound ≡ target)
      × (env.max_epochs_per_run ≡ 0 → bound ≡ target)
      × (target ≤ first + env.max_epochs_per_run → bound ≡ target)
      × (env.validator_epoch_retention ≡ true
          → 0 < env.max_epochs_per_run
          → first + env.max_epochs_per_run < target
          → bound ≡ first + env.max_epochs_per_run)
