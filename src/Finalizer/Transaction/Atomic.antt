-- ===== src/Finalizer/Transaction/Atomic.antt =====
-- services/finalizer/standard/handler.go: what runFinalityTransaction leaves of a transaction that
-- fails, and what is left of a stack of checkpoints whose transactions stop at one that fails.
use chaind.Common.{
  ◌≡◌, refl, ◌∙◌, ap, none, some, List, [], ◌∷◌, ◌++◌, Outcome, ok, err, panicked, looping, resume,
  Bool-cases, inl, inr, ◌||◌,
}
use chaind.ChainDb.{Db}
use chaind.Finalizer.{Env, World, Act, Checkpoint, FinalizerError, begin_tx, commit_tx, cancel_tx}
use chaind.Finalizer.Keeps.{Keeps}
use chaind.Finalizer.Blocks.{update_canonical_blocks}
use chaind.Finalizer.Blocks.Saved.{update_canonical_blocks-Keeps}
use chaind.Finalizer.Votes.{update_attestations}
use chaind.Finalizer.Votes.Saved.{update_attestations-Keeps}
use chaind.Finalizer.Transaction.{
  or_cancel, cancelled, ignore_error, ignored, run_finality_transaction, run_each,
}

-- Within a transaction that was begun with some rows: an error has ended it and left those rows.
Inside : Db → Outcome FinalizerError (Unit {0}) × World → Type 0
Inside db (ok _, w) = w.saved ≡ some db
Inside db (err _, w) = (w.db ≡ db) × (w.saved ≡ none)
Inside db (panicked, w) = w.saved ≡ some db
Inside db (looping, w) = w.saved ≡ some db

-- After a transaction that was begun with some rows: it is closed, and an error has left those
-- rows. A panic leaves it open, and so does a loop that does not end.
pub Settled : Db → Outcome FinalizerError (Unit {0}) × World → Type 0
Settled db (ok _, w) = w.saved ≡ none
Settled db (err _, w) = (w.db ≡ db) × (w.saved ≡ none)
Settled db (panicked, w) = w.saved ≡ some db
Settled db (looping, w) = w.saved ≡ some db

cancel_tx-restores :
    (db : Db) (w : World)
    → w.saved ≡ some db
    → ((cancel_tx w).db ≡ db) × ((cancel_tx w).saved ≡ none)
unfolding cancel_tx
cancel_tx-restores db w e = (rw e refl, refl)

cancelled-Inside :
    (db : Db) (o : Outcome FinalizerError (Unit {0})) (w : World)
    → w.saved ≡ some db
    → Inside db (cancelled o w)
unfolding cancelled Inside
cancelled-Inside db (ok a) w e = e
cancelled-Inside db (err x) w e = cancel_tx-restores db w e
cancelled-Inside db panicked w e = e
cancelled-Inside db looping w e = e

ignored-Inside :
    (db : Db) (o : Outcome FinalizerError (Unit {0})) (w : World)
    → w.saved ≡ some db
    → Inside db (ignored o w)
unfolding ignored Inside
ignored-Inside db (ok a) w e = e
ignored-Inside db (err x) w e = e
ignored-Inside db panicked w e = e
ignored-Inside db looping w e = e

or_cancel-Inside :
    (db : Db) (m : Act (Unit {0})) (w : World)
    → Keeps m
    → w.saved ≡ some db
    → Inside db (or_cancel m w)
unfolding or_cancel
or_cancel-Inside db m w k e = cancelled-Inside db (m w).0 (m w).1 (ap (λ p. p.0) (k w) ∙ e)

ignore_error-Inside :
    (db : Db) (m : Act (Unit {0})) (w : World)
    → Keeps m
    → w.saved ≡ some db
    → Inside db (ignore_error m w)
unfolding ignore_error
ignore_error-Inside db m w k e = ignored-Inside db (m w).0 (m w).1 (ap (λ p. p.0) (k w) ∙ e)

resume-Inside :
    (db : Db) (f : Act (Unit {0})) (r : Outcome FinalizerError (Unit {0}) × World)
    → Inside db r
    → ((w : World) → w.saved ≡ some db → Inside db (f w))
    → Inside db (resume (λ _. f) r.0 r.1)
unfolding Inside
resume-Inside db f (ok a, w) i k = k w i
resume-Inside db f (err e, w) i k = i
resume-Inside db f (panicked, w) i k = i
resume-Inside db f (looping, w) i k = i

resume-Settled :
    (db : Db) (f : Act (Unit {0})) (r : Outcome FinalizerError (Unit {0}) × World)
    → Inside db r
    → ((w : World) → w.saved ≡ some db → Settled db (f w))
    → Settled db (resume (λ _. f) r.0 r.1)
unfolding Inside Settled
resume-Settled db f (ok a, w) i k = k w i
resume-Settled db f (err e, w) i k = i
resume-Settled db f (panicked, w) i k = i
resume-Settled db f (looping, w) i k = i

module _ (env : Env) where
  begin_tx-Inside : (w : World) → w.saved ≡ none → Inside w.db (begin_tx env w)
  unfolding begin_tx Inside
  begin_tx-Inside w e = elim (Bool-cases (env.fault w.calls)) [
    | inl a ↦ rw a (refl, e)
    | inr a ↦ rw a refl
  ]

  commit_tx-Settled :
      (db : Db) (w : World) → w.saved ≡ some db → Settled db (or_cancel (commit_tx env) w)
  unfolding commit_tx or_cancel cancelled cancel_tx Settled
  commit_tx-Settled db w e = elim (Bool-cases (env.fault w.calls || w.aborted)) [
    | inl a ↦ rw (a, e) (refl, refl)
    | inr a ↦ rw a refl
  ]

  -- From rows outside any transaction, a transaction for a checkpoint comes to one of four results.
  -- It succeeds and is closed; or it fails with an error, is closed, and the rows are those before
  -- it, whichever statement failed; or it panics and stays open, with the rows before it saved; or
  -- the fuel for canonicalizeBlocks, one round for each slot down to 0, runs out, which nothing here
  -- excludes, and then too the transaction is open with the rows before it saved.
  pub run_finality_transaction-Settled :
      (checkpoint : Checkpoint) (w : World)
      → w.saved ≡ none
      → Settled w.db (run_finality_transaction env checkpoint w)
  unfolding run_finality_transaction
  run_finality_transaction-Settled checkpoint w e =
      resume-Settled w.db (or_cancel (commit_tx env)) _
        (resume-Inside w.db (ignore_error (update_attestations env checkpoint.epoch)) _
          (resume-Inside w.db (or_cancel (update_canonical_blocks env checkpoint.root)) _
            (begin_tx-Inside w e)
            λ v.
              or_cancel-Inside w.db (update_canonical_blocks env checkpoint.root) v
                (update_canonical_blocks-Keeps env checkpoint.root))
          λ v.
            ignore_error-Inside w.db (update_attestations env checkpoint.epoch) v
              (update_attestations-Keeps env checkpoint.epoch))
        (commit_tx-Settled w.db)

  -- The transactions of a stack, from its end, have all succeeded, each from what the one before it
  -- left.
  unfoldable pub Succeeded : List Checkpoint → World → World → Type 0
  Succeeded [] w v = v ≡ w
  Succeeded (c ∷ stack) w v =
      (u : World) × Succeeded stack w u × (run_finality_transaction env c u ≡ (ok tt, v))

  -- The transaction for one checkpoint of a stack gives what the run gives: those before it have all
  -- succeeded, those after it are not begun, and the rows that it found meet the condition.
  unfoldable pub Stopped :
      List Checkpoint → World → Outcome FinalizerError (Unit {0}) × World → (Db → Type 0) → Type 0
  Stopped stack w r P =
      (later : List Checkpoint) × (failed : Checkpoint) × (done : List Checkpoint) × (u : World)
      × (stack ≡ later ++ failed ∷ done)
      × Succeeded done w u
      × (run_finality_transaction env failed u ≡ r)
      × P u.db

  -- What a run over a stack leaves, as to rows and to the transaction.
  unfoldable pub Progress :
      List Checkpoint → World → Outcome FinalizerError (Unit {0}) × World → Type 0
  Progress stack w (ok _, v) = Succeeded stack w v × (v.saved ≡ none)
  Progress stack w (err e, v) = Stopped stack w (err e, v) λ db. (v.db ≡ db) × (v.saved ≡ none)
  Progress stack w (panicked, v) = Stopped stack w (panicked, v) λ db. v.saved ≡ some db
  Progress stack w (looping, v) = Stopped stack w (looping, v) λ db. v.saved ≡ some db

  extend-Stopped :
      (c : Checkpoint) (stack : List Checkpoint) (w : World)
      (r : Outcome FinalizerError (Unit {0}) × World) (P : Db → Type 0)
      → Stopped stack w r P
      → Stopped (c ∷ stack) w r P
  unfolding Stopped
  extend-Stopped c stack w r P (later, failed, done, u, es, er, q, p) =
      (c ∷ later, failed, done, u, ap (λ s. c ∷ s) es, er, q, p)

  failed-Progress :
      (c : Checkpoint) (stack : List Checkpoint) (w u : World)
      (r : Outcome FinalizerError (Unit {0}) × World)
      → Succeeded stack w u
      → run_finality_transaction env c u ≡ r
      → Settled u.db r
      → Progress (c ∷ stack) w r
  unfolding Progress Settled Stopped Succeeded
  failed-Progress c stack w u (ok _, v) e q s = ((u, e, q), s)
  failed-Progress c stack w u (err x, v) e q s = ([], c, stack, u, refl, e, q, s)
  failed-Progress c stack w u (panicked, v) e q s = ([], c, stack, u, refl, e, q, s)
  failed-Progress c stack w u (looping, v) e q s = ([], c, stack, u, refl, e, q, s)

  extend-Progress :
      (c : Checkpoint) (stack : List Checkpoint) (w : World)
      (r : Outcome FinalizerError (Unit {0}) × World)
      → Progress stack w r
      → Progress (c ∷ stack) w (resume (λ _. run_finality_transaction env c) r.0 r.1)
  unfolding Progress
  extend-Progress c stack w (ok a, u) p =
      failed-Progress c stack w u (run_finality_transaction env c u) p.0 refl
        (run_finality_transaction-Settled c u p.1)
  extend-Progress c stack w (err x, v) p = extend-Stopped c stack w _ _ p
  extend-Progress c stack w (panicked, v) p = extend-Stopped c stack w _ _ p
  extend-Progress c stack w (looping, v) p = extend-Stopped c stack w _ _ p

  -- The transactions for a stack of checkpoints are run from its end, from outside any transaction.
  -- Where the run succeeds, every one of them has succeeded, in order, each from what the one before
  -- it left, and none is left open. Otherwise the run ends as the transaction for one checkpoint
  -- does: those before it have all succeeded, and those after it are not begun. If it ends with an
  -- error, the rows are what those before it left, and none is open. If it panics, or runs out of
  -- fuel in canonicalizeBlocks, it stays open with these rows saved.
  pub run_each-Progress :
      (stack : List Checkpoint) (w : World)
      → w.saved ≡ none
      → Progress stack w (run_each env stack w)
  unfolding run_each Progress Succeeded
  run_each-Progress [] w e = (refl, e)
  run_each-Progress (c ∷ stack) w e =
      extend-Progress c stack w (run_each env stack w) (run_each-Progress stack w e)
