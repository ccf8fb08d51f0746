-- ===== src/Summarizer/Run/Progress.antt =====
-- services/summarizer/standard: what a run of summarizeEpochs leaves.
use chaind.Common.{
  ℕ, zero, suc, none, some, ◌+◌, ◌≤◌, ◌<◌, ◌≡◌, refl, sym, ap, subst, ◌∙◌, Bool, true, false, not,
  Bool-cases, ◌⊎◌, inl, inr, if◌then◌else◌, leb, ◌==◌, add64, two64, Outcome, ok, err, panicked,
  looping, Ends, resume, arith,
}
use chaind.Store.{Tables, World, Act, Failure}
use chaind.Store.Transactions.{mutate-Ends}
use chaind.Catchup.{update_unit}
use chaind.Catchup.Progress.{IsLawful, IsDone, IsUndone, update_unit-Ends}
use chaind.Summarizer.{EpochSummary, Metadata, Rows, Env, set_epoch_summary}
use chaind.Summarizer.Epoch.{epoch_stats}
use chaind.Summarizer.Run.{empty_summary, writer, after_stats, summarize_epoch, epochs_from}

module _ (env : Env) where
  Writes : EpochSummary → ℕ → Tables Rows Metadata → Tables Rows Metadata → Type 0
  Writes summary epoch db db' = db' ≡ record db { rows = set_epoch_summary summary db.rows }

  writer-IsLawful : (summary : EpochSummary) → IsLawful (writer env summary) (Writes summary)
  unfolding Writes
  writer-IsLawful summary = record {
    update_ends = λ epoch w.
        mutate-Ends env.fault (λ db. record db { rows = set_epoch_summary summary db.rows }) w;
  }

  -- The summary of an epoch is stored with the epoch's number; that of epoch 0 is never made.
  abbrev pub IsSummarized : ℕ → World Rows Metadata → World Rows Metadata → Type 0
  IsSummarized epoch w v =
      ((epoch ≡ 0) × (v ≡ w))
      ⊎ ((summary : EpochSummary) × (epoch_stats env epoch (empty_summary epoch)
            ≡ (ok true, summary))
          × (v.held ≡ record w.held { last_epoch = epoch })
          × (v.db ≡ record { rows = set_epoch_summary summary w.db.rows; metadata = some v.held })
          × (v.saved ≡ none))

  abbrev pub IsUntouched : World Rows Metadata → World Rows Metadata → Type 0
  IsUntouched w v = (v.db ≡ w.db) × (v.saved ≡ none)

  abbrev pub how : ℕ → Outcome Failure Bool
  how epoch = (epoch_stats env epoch (empty_summary epoch)).0

  -- How summarizeEpoch ends: the summary is stored whole; or there are not enough data, an error or a
  -- panic, and the tables are as they were.
  abbrev pub EpochEnds :
      ℕ → World Rows Metadata → Outcome Failure Bool × World Rows Metadata → Type 0
  EpochEnds epoch w (ok true, v) = IsSummarized epoch w v × (v.saved ≡ none)
  EpochEnds epoch w (ok false, v) = (v ≡ w) × (how epoch ≡ ok false)
  EpochEnds epoch w (err e, v) = IsUntouched w v
  EpochEnds epoch w (panicked, v) = (v ≡ w) × (how epoch ≡ panicked)
  EpochEnds epoch w (looping, v) = ⊥

  -- The end of the transaction that stores a summary.
  stored-EpochEnds :
      (epoch : ℕ) (summary : EpochSummary) (w : World Rows Metadata)
      (r : Outcome Failure (Unit {0}) × World Rows Metadata)
      → epoch_stats env epoch (empty_summary epoch) ≡ (ok true, summary)
      → Ends
          (λ _ v. IsDone (writer env summary) (Writes summary) (writer-IsLawful summary) epoch w v)
          (λ e v.
            IsUndone (writer env summary) (Writes summary) (writer-IsLawful summary) epoch w v)
          r
      → EpochEnds epoch w (resume (λ _ u. (ok true, u)) r.0 r.1)
  unfolding Writes
  stored-EpochEnds epoch summary w (ok _, v) q (db, written, same, closed, held) = (
    inr (
      summary,
      q,
      held,
      same
          ∙ ap
              (λ (d : Tables Rows Metadata). record d {
                metadata = some (record w.held { last_epoch = epoch });
              })
              written
          ∙ ap
              (λ (h : Metadata). record {
                rows = set_epoch_summary summary w.db.rows;
                metadata = some h;
              })
              (sym held),
      closed,
    ),
    closed,
  )
  stored-EpochEnds epoch summary w (err e, v) q (restored, held) = restored
  stored-EpochEnds epoch summary w (panicked, v) q p = absurd p
  stored-EpochEnds epoch summary w (looping, v) q p = absurd p

  module _ (halts : (n : ℕ) → how n ≡ looping → ⊥) where
    after_stats-EpochEnds :
        (epoch : ℕ) (w : World Rows Metadata) (r : Outcome Failure Bool × EpochSummary)
        → w.saved ≡ none
        → epoch_stats env epoch (empty_summary epoch) ≡ r
        → EpochEnds epoch w (after_stats env epoch r.0 r.1 w)
    unfolding after_stats
    after_stats-EpochEnds epoch w (ok true, summary) e q =
        stored-EpochEnds epoch summary w (update_unit (writer env summary) epoch w) q (
          update_unit-Ends (writer env summary) (Writes summary) (writer-IsLawful summary) epoch w
            e)
    after_stats-EpochEnds epoch w (ok false, summary) e q =
        (refl, ap (λ (x : Outcome Failure Bool × EpochSummary). x.0) q)
    after_stats-EpochEnds epoch w (err x, summary) e q = (refl, e)
    after_stats-EpochEnds epoch w (panicked, summary) e q =
        (refl, ap (λ (x : Outcome Failure Bool × EpochSummary). x.0) q)
    after_stats-EpochEnds epoch w (looping, summary) e q =
        halts epoch (ap (λ (x : Outcome Failure Bool × EpochSummary). x.0) q)

    module _ (enabled : env.epoch_summaries ≡ true) where
      summarize_epoch-EpochEnds :
          (epoch : ℕ) (w : World Rows Metadata)
          → w.saved ≡ none
          → EpochEnds epoch w (summarize_epoch env epoch w)
      unfolding summarize_epoch
      summarize_epoch-EpochEnds epoch w e =
          let on : not env.epoch_summaries ≡ false = ap not enabled in
          elim (Bool-cases (epoch == 0)) [
            | inl a ↦ rw (on, a) (inl (ground arith, refl), e)
            | inr a ↦
                rw (on, a)
                  (after_stats-EpochEnds epoch w (epoch_stats env epoch (empty_summary epoch)) e
                    refl)
          ]

      -- Epochs that have been summarized one after another, without a gap.
      pub data Summed : ℕ → ℕ → World Rows Metadata → World Rows Metadata → Type 0 where
        none_summed : {n : ℕ} {w : World Rows Metadata} → Summed n n w w
        next_summed :
            {n k : ℕ} {w u v : World Rows Metadata}
            → IsSummarized n w u
            → Summed (suc n) k u v
            → Summed n k w v

      -- How a run up to a target ends, after the epochs from one on: once the target is done, or at an
      -- epoch up to it without enough data; with an error or a panic in some epoch up to the target,
      -- which leaves no trace.
      abbrev pub RunEnds :
          ℕ → ℕ → World Rows Metadata → Outcome Failure (Unit {0}) × World Rows Metadata → Type 0
      RunEnds target n w (ok _, v) =
          (k : ℕ) × Summed n k w v
          × (v.saved ≡ none)
          × ((k ≡ suc target) ⊎ ((k ≤ target) × (how k ≡ ok false)))
      RunEnds target n w (err e, v) =
          (k : ℕ) × (u : World Rows Metadata) × Summed n k w u × (k ≤ target) × IsUntouched u v
      RunEnds target n w (panicked, v) =
          (k : ℕ) × Summed n k w v × (k ≤ target) × (how k ≡ panicked)
      RunEnds target n w (looping, v) = ⊥

      -- The rest of the run, behind an epoch that is summarized.
      RunEnds-next :
          (target n : ℕ) (w u : World Rows Metadata)
          (r : Outcome Failure (Unit {0}) × World Rows Metadata)
          → IsSummarized n w u
          → RunEnds target (suc n) u r
          → RunEnds target n w r
      RunEnds-next target n w u (ok _, v) p (k, summed, closed, end) =
          (k, next_summed p summed, closed, end)
      RunEnds-next target n w u (err e, v) p (k, x, summed, le, end) =
          (k, x, next_summed p summed, le, end)
      RunEnds-next target n w u (panicked, v) p (k, summed, le, end) =
          (k, next_summed p summed, le, end)
      RunEnds-next target n w u (looping, v) p q = q

      after_epoch-RunEnds :
          (target n : ℕ) (w : World Rows Metadata) (rest : Act Rows Metadata (Unit {0}))
          (r : Outcome Failure Bool × World Rows Metadata)
          → n ≤ target
          → w.saved ≡ none
          → ((u : World Rows Metadata) → u.saved ≡ none → RunEnds target (suc n) u (rest u))
          → EpochEnds n w r
          → RunEnds target n w
              (resume (λ updated. if updated then rest else (λ u. (ok tt, u))) r.0 r.1)
      after_epoch-RunEnds target n w rest (ok true, u) h e next (p, closed) =
          RunEnds-next target n w u (rest u) p (next u closed)
      after_epoch-RunEnds target n w rest (ok false, u) h e next (same, q) = (
        n,
        subst (Summed n n w) (sym same) none_summed,
        ap (λ (x : World Rows Metadata). x.saved) same ∙ e,
        inr (h, q),
      )
      after_epoch-RunEnds target n w rest (err x, u) h e next p = (n, w, none_summed, h, p)
      after_epoch-RunEnds target n w rest (panicked, u) h e next (same, q) =
          (n, subst (Summed n n w) (sym same) none_summed, h, q)
      after_epoch-RunEnds target n w rest (looping, u) h e next p = absurd p

      pub epochs_from-RunEnds :
          (fuel n target : ℕ) (w : World Rows Metadata)
          → w.saved ≡ none
          → 0 < fuel
          → n ≤ suc target
          → suc target < n + fuel
          → suc target < two64
          → RunEnds target n w (epochs_from env fuel n target w)
      unfolding epochs_from
      epochs_from-RunEnds zero n target w e pos near h small = absurd (omega arith)
      epochs_from-RunEnds (suc fuel) n target w e pos near h small =
          elim (Bool-cases (leb n target)) [
            | inr a ↦ rw a (n, none_summed, e, inl (ground arith))
            | inl a ↦
                let le : n ≤ target = ground arith in
                let next : add64 n 1 ≡ suc n = omega arith in
                rw (a, next)
                  (after_epoch-RunEnds target n w (epochs_from env fuel (suc n) target)
                    (summarize_epoch env n w) le e
                    (λ u e'.
                      epochs_from-RunEnds fuel (suc n) target u e' (omega arith) (omega arith)
                        (omega arith) small)
                    (summarize_epoch-EpochEnds n w e))
          ]
