-- ===== src/Blocks/SetBlock.antt =====
-- SetBlock of services/chaindb/postgresql/blocks.go, with setExecutionPayload (executionpayload.go),
-- setWithdrawals (withdrawals.go) and setBLSToExecutionChanges (blstoexecutionchanges.go).
pub mod Laws
use chaind.Common.{ℕ, Bool, Option, none, some, if◌then◌else◌, ◌==◌, pure, ◌>>◌}
use chaind.Store.{Act, mutate, set_each}
use chaind.Store.Inserts.{Included, same_inclusion, upsert}
use chaind.Blocks.{BlsChange, Metadata}
use chaind.Blocks.Rows.{Rows, Block, BlockRow, PayloadRow, ExecutionPayload, Withdrawal}

abbrev pub block_row : Block → BlockRow
block_row b = record {
  slot = b.slot;
  proposer_index = b.proposer_index;
  root = b.root;
  graffiti = b.graffiti;
  randao_reveal = b.randao_reveal;
  body_root = b.body_root;
  parent_root = b.parent_root;
  state_root = b.state_root;
  canonical = b.canonical;
  eth1_block_hash = b.eth1_block_hash;
  eth1_deposit_count = b.eth1_deposit_count;
  eth1_deposit_root = b.eth1_deposit_root;
  blob_kzg_commitments = b.blob_kzg_commitments;
}

abbrev pub payload_row : ℕ → ExecutionPayload → PayloadRow
payload_row root p = record {
  block_root = root;
  fields = p.fields;
  blob_gas_used = p.blob_gas_used;
  excess_blob_gas = p.excess_blob_gas;
}

-- The statements, ON CONFLICT DO UPDATE.
abbrev pub put_block : BlockRow → Rows → Rows
put_block b rows = record rows { blocks = upsert (λ x y. x.root == y.root) b rows.blocks }

abbrev pub put_payload : PayloadRow → Rows → Rows
put_payload p rows = record rows {
  execution_payloads = upsert (λ x y. x.block_root == y.block_root) p rows.execution_payloads;
}

abbrev pub put_withdrawal : Included Withdrawal → Rows → Rows
put_withdrawal x rows = record rows { withdrawals = upsert same_inclusion x rows.withdrawals }

abbrev pub put_bls_change : Included BlsChange → Rows → Rows
put_bls_change x rows = record rows {
  bls_to_execution_changes = upsert same_inclusion x rows.bls_to_execution_changes;
}

module _ (fault : ℕ → Bool) where
  -- A payload with a zero hash, of before the merge, is not stored, nor are its withdrawals.
  unfoldable pub set_execution_payload : ℕ → Option ExecutionPayload → Act Rows Metadata (Unit {0})
  set_execution_payload root none = pure tt
  set_execution_payload root (some p) =
      if p.fields.block_hash == 0
      then pure tt
      else (mutate fault (λ db. record db { rows = put_payload (payload_row root p) db.rows })
          >> set_each fault put_withdrawal p.withdrawals)

  unfoldable pub set_block : Block → Act Rows Metadata (Unit {0})
  unfolding set_execution_payload
  set_block b =
      mutate fault (λ db. record db { rows = put_block (block_row b) db.rows })
      >> set_execution_payload b.root b.execution_payload
      >> set_each fault put_bls_change b.bls_to_execution_changes
