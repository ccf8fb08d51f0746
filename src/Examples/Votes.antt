-- ===== src/Examples/Votes.antt =====
-- services/finalizer/standard/handler.go on the attestations to a chain of three blocks, and on the
-- transactions of two checkpoints.
use chaind.Common.{
  ◌↔◌, add64, ◌||◌, ℕ, ◌*◌, ◌≤◌, ◌≡◌, refl, Bool, true, false, Option, none, some, List, [], ◌∷◌,
  ok, err, length, ◌⊎◌, arith, ◌==◌,
}
use chaind.ChainDb
use chaind.ChainDb.{Block, Attestation, Db, find_block}
use chaind.ChainTime
use chaind.Finalizer.{World, Checkpoint, client}
use chaind.Finalizer.Blocks.Ancestry.{tick}
use chaind.Finalizer.Votes.{
  Cache, lookup, search, update_canonical, update_attestation_head_correct,
  update_attestation_target_correct,
}
use chaind.Finalizer.Votes.Search.{Finds, search_lem}
use chaind.Finalizer.Votes.Roots.{
  Judges, update_attestation_head_correct_lem, update_attestation_target_correct_lem,
  update_canonical-same_slot,
}
use chaind.ChainDb.Members.{IsIn}
use chaind.Finalizer.Votes.{from_slot}
use chaind.Finalizer.Votes.Ranges.{epoch_for, epoch_attestations_iff}
use chaind.Finalizer.Transaction.{
  Finality, on_finality_checkpoint_received, stack_from, run_finality_transaction, run_each,
}
use chaind.Finalizer.Transaction.Stack.{Chunks, Lacks, IsChunk, stack_from_lem}
use chaind.Finalizer.Transaction.Atomic.{
  Settled, Progress, run_finality_transaction-Settled, run_each-Progress,
}
use chaind.Finalizer.Transaction.Handler.{Reports, on_finality_checkpoint_received-Reports}
use chaind.Examples.Clock.{mainnet}
use chaind.Examples.Finality.{genesis, database, world, env, quiet}

abbrev vote : Attestation
vote = record {
  inclusion_slot = 0;
  inclusion_block_root = 10;
  inclusion_index = 0;
  slot = 1;
  beacon_block_root = 10;
  target_epoch = 0;
  target_root = 11;
  canonical = none;
  target_correct = none;
  head_correct = none;
  rest = 0;
}

-- An attestation in another block of the same slot.
abbrev other_vote : Attestation
other_vote = record vote { inclusion_block_root = 99 }

abbrev checkpoint : Checkpoint
checkpoint = record { epoch = 0; root = 12 }

abbrev unknown : Checkpoint
unknown = record { epoch = 1; root = 13 }

search_example :
    (o : Option ℕ) × (w' : World) × (search env 2 world ≡ (ok o, w'))
    × Finds 2 o database
    × (w'.db ≡ database)
    × (w'.aborted ≡ false)
search_example = search_lem env quiet 2 world refl

update_attestation_head_correct_example :
    Judges
      (λ slot. slot)
      1
      world
      (λ r. record vote { head_correct = some (10 == r) })
      (update_attestation_head_correct env vote [] world)
unfolding lookup
update_attestation_head_correct_example =
    update_attestation_head_correct_lem env quiet vote [] world refl (λ k r e. cc)

update_attestation_target_correct_example :
    Judges
      (ChainTime.first_slot_of_epoch mainnet)
      0
      world
      (λ r. record vote { target_correct = some (11 == r) })
      (update_attestation_target_correct env vote [] world)
unfolding lookup
update_attestation_target_correct_example =
    update_attestation_target_correct_lem env quiet vote [] world refl (λ k r e. cc)

update_canonical-same_slot_example :
    (cache : Cache Bool) × (update_canonical env vote [] world
      ≡ (ok (record vote { canonical = some true }, cache), tick world))
    × (update_canonical env other_vote cache world
        ≡ (ok (record other_vote { canonical = some true }, cache), world))
unfolding ChainDb.block_by_root find_block
update_canonical-same_slot_example =
    update_canonical-same_slot env quiet vote other_vote genesis true world world refl refl refl
      refl refl

stack_from_example :
    ((items : List Checkpoint) × (stack_from env 3001 1 3000 checkpoint world ≡ (ok items, world))
      × Chunks env 1 3000 checkpoint items
      × (length items * 1024 ≤ 4024))
    ⊎ ((stack_from env 3001 1 3000 checkpoint world ≡ (err client, world))
        × ((t : ℕ) × Lacks env 1 3000 t × IsChunk 1 3000 t × (env.finality t ≡ none)))
stack_from_example = stack_from_lem env 3001 1 3000 checkpoint world (omega arith)

run_finality_transaction_example : Settled database (run_finality_transaction env checkpoint world)
run_finality_transaction_example = run_finality_transaction-Settled env checkpoint world refl

run_each_example :
    Progress env (unknown ∷ checkpoint ∷ []) world (run_each env (unknown ∷ checkpoint ∷ []) world)
run_each_example = run_each-Progress env (unknown ∷ checkpoint ∷ []) world refl

abbrev notification : Finality
notification = record { justified = checkpoint; finalized = checkpoint }

on_finality_checkpoint_received_example :
    ((true || false ≡ false)
      × (on_finality_checkpoint_received env notification true false world ≡ (ok tt, world)))
    ⊎ Reports env notification world
        (on_finality_checkpoint_received env notification true false world)
on_finality_checkpoint_received_example =
    on_finality_checkpoint_received-Reports env notification true false world refl

epoch_attestations_example :
    IsIn vote (
      ChainDb.attestations_in_slot_range
        (from_slot env 3)
        (add64 (ChainTime.first_slot_of_epoch mainnet 3) 1)
        (record database { attestations = vote ∷ [] }))
    ↔ (IsIn vote (vote ∷ []) × (epoch_for 32 0 ≡ 3))
epoch_attestations_example =
    epoch_attestations_iff env 3 vote (record database { attestations = vote ∷ [] }) (omega arith)
      (omega arith)
