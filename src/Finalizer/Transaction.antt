-- ===== src/Finalizer/Transaction.antt =====
-- services/finalizer/standard/handler.go: the checkpoints to work through, the transaction for each,
-- and the handler of a finality notification.
pub mod Stack
pub mod Atomic
pub mod Handler
use chaind.Common.{
  ℕ, zero, suc, ◌+◌, ◌-◌, Bool, true, false, ◌||◌, ◌&&◌, not, Option, none, some, List, [], ◌∷◌,
  ◌++◌, if◌then◌else◌, ltb, leb, ◌==◌, Outcome, ok, err, panicked, looping, M, pure, fail, ◌>>=◌,
  ◌>>◌, add64, resume,
}
use chaind.ChainDb
use chaind.ChainTime
use chaind.Finalizer.{
  Env, World, Act, Checkpoint, FinalizerError, client, begin_tx, commit_tx, cancel_tx, get_metadata,
}
use chaind.Finalizer.Blocks.{update_canonical_blocks}
use chaind.Finalizer.Votes.{update_attestations}

-- The checkpoints that a notification has: the justified and the finalized one.
pub record Finality : Type 0 where
  pub justified : Checkpoint
  pub finalized : Checkpoint

pub cancelled :
    Outcome FinalizerError (Unit {0}) → World → Outcome FinalizerError (Unit {0}) × World
cancelled (ok a) w = (ok a, w)
cancelled (err e) w = (err e, cancel_tx w)
cancelled panicked w = (panicked, w)
cancelled looping w = (looping, w)

-- What an error of the body or of the commit does: cancel, and the error goes on.
pub or_cancel : Act (Unit {0}) → Act (Unit {0})
unfolding cancelled
or_cancel m w = let r = m w in cancelled r.0 r.1

pub ignored : Outcome FinalizerError (Unit {0}) → World → Outcome FinalizerError (Unit {0}) × World
ignored (ok a) w = (ok a, w)
ignored (err e) w = (ok tt, w)
ignored panicked w = (panicked, w)
ignored looping w = (looping, w)

-- An error that is only logged.
pub ignore_error : Act (Unit {0}) → Act (Unit {0})
unfolding ignored
ignore_error m w = let r = m w in ignored r.0 r.1

notify : ℕ → Act (Unit {0})
notify epoch w = (ok tt, record w { notified = w.notified ++ epoch ∷ [] })

module _ (env : Env) where
  push_next : Option Checkpoint → (Checkpoint → Act (List Checkpoint)) → Act (List Checkpoint)
  push_next none next = fail client
  push_next (some item) next = next item

  -- The loop of buildFinalityStack, with the item to store and the slot that it stands for; the
  -- list is given in the order of the appends. The slot falls by 1024 in each round.
  unfoldable pub stack_from : ℕ → ℕ → ℕ → Checkpoint → Act (List Checkpoint)
  unfolding push_next
  stack_from zero earliest slot item = λ w. (looping, w)
  stack_from (suc fuel) earliest slot item =
      let more = λ (next : Checkpoint).
        stack_from fuel earliest (slot - 1024) next >>= λ items. pure (item ∷ items) in
      if ltb slot 1024
      then pure (item ∷ [])
      else if ltb (slot - 1024) earliest
      then pure (item ∷ [])
      else push_next (env.finality (slot - 1024)) more

  unfoldable pub build_finality_stack : ℕ → ℕ → Act (List Checkpoint)
  unfolding stack_from
  build_finality_stack root epoch = do
    md ← get_metadata env
    let slot = ChainTime.first_slot_of_epoch env.time epoch
    if epoch == 0
        then pure []
        else stack_from (suc slot) (add64 md.latest_canonical_slot 1) slot
            (record { epoch = epoch; root = root })

  unfoldable pub run_finality_transaction : Checkpoint → Act (Unit {0})
  unfolding or_cancel ignore_error
  run_finality_transaction checkpoint =
      begin_tx env
      >> or_cancel (update_canonical_blocks env checkpoint.root)
      >> ignore_error (update_attestations env checkpoint.epoch)
      >> or_cancel (commit_tx env)

  -- The stack is worked through from its end, up to the first transaction that fails.
  unfoldable pub run_each : List Checkpoint → Act (Unit {0})
  unfolding run_finality_transaction
  run_each [] = pure tt
  run_each (checkpoint ∷ stack) = run_each stack >> run_finality_transaction checkpoint

  handle : Finality → Act (Unit {0})
  unfolding build_finality_stack run_each notify
  handle finality = do
    stack ← build_finality_stack finality.justified.root finality.justified.epoch
    run_each stack
    notify finality.finalized.epoch

  -- OnFinalityCheckpointReceived, with whether each of its attempts gets the semaphore; the
  -- handlers that are notified of the finalized epoch are one entry of `notified`.
  unfoldable pub on_finality_checkpoint_received : Finality → Bool → Bool → Act (Unit {0})
  unfolding handle ignore_error
  on_finality_checkpoint_received finality first second =
      if first || second then ignore_error (handle finality) else pure tt
