-- ===== src/Blocks/Convert.antt =====
-- services/blocks/standard/handler.go: dbBlock, and what it makes of the blocks of each fork.
pub mod Row
use chaind.Common.{ℕ, ◌+◌, ◌*◌, Option, none, some, List, [], ◌∷◌}
use chaind.Store.Inserts.{Included, include}
use chaind.Blocks.{
  Header, Payload, ChainWithdrawal, BlsChange, CapellaParts, DenebParts, Message, SignedBlock,
  phase0, altair, bellatrix, capella, deneb, unknown_version, unhandled_version, Env,
}
use chaind.Blocks.Rows.{Withdrawal, Block}

-- The bytes in reverse order, most significant first, as a number.
unfoldable pub from_little_endian : List ℕ → ℕ
from_little_endian [] = 0
from_little_endian (b ∷ bs) = b + 256 * from_little_endian bs

abbrev with_fee : {F : Type 0} → ℕ → Payload F → Payload ℕ
with_fee fee p = record {
  parent_hash = p.parent_hash;
  fee_recipient = p.fee_recipient;
  state_root = p.state_root;
  receipts_root = p.receipts_root;
  logs_bloom = p.logs_bloom;
  prev_randao = p.prev_randao;
  block_number = p.block_number;
  gas_limit = p.gas_limit;
  gas_used = p.gas_used;
  timestamp = p.timestamp;
  extra_data = p.extra_data;
  base_fee_per_gas = fee;
  block_hash = p.block_hash;
}

-- The items of a list as rows of a block, numbered from `i` on.
unfoldable pub number_rows : {A B : Type 0} → (A → B) → ℕ → ℕ → ℕ → List A → List (Included B)
number_rows f slot root i [] = []
number_rows f slot root i (a ∷ as') =
    include slot root i (f a) ∷ number_rows f slot root (i + 1) as'

abbrev pub withdrawal : ChainWithdrawal → Withdrawal
withdrawal w = record {
  withdrawal_index = w.index;
  validator_index = w.validator_index;
  address = w.address;
  amount = w.amount;
}

abbrev pub bls_change : BlsChange → BlsChange
bls_change c = record {
  validator_index = c.validator_index;
  from_bls_pub_key = c.from_bls_pub_key;
  to_execution_address = c.to_execution_address;
}

-- The parts of a row that the forks have in common: no payload, and no mark of being canonical.
abbrev pub db_block_common : ℕ → ℕ → Message → Block
db_block_common root body_root m = record {
  slot = m.slot;
  proposer_index = m.proposer_index;
  root = root;
  graffiti = m.body.graffiti;
  randao_reveal = m.body.randao_reveal;
  body_root = body_root;
  parent_root = m.parent_root;
  state_root = m.state_root;
  canonical = none;
  eth1_block_hash = m.body.eth1_data.block_hash;
  eth1_deposit_count = m.body.eth1_data.deposit_count;
  eth1_deposit_root = m.body.eth1_data.deposit_root;
  execution_payload = none;
  bls_to_execution_changes = [];
  blob_kzg_commitments = [];
}

abbrev pub db_block_phase0 : ℕ → ℕ → Message → Block
db_block_phase0 = db_block_common

abbrev pub db_block_altair : ℕ → ℕ → Message → Block
db_block_altair = db_block_common

abbrev pub db_block_bellatrix : ℕ → ℕ → Message → Payload (List ℕ) → Block
db_block_bellatrix root body_root m p = record (db_block_common root body_root m) {
  execution_payload = some (record {
    fields = with_fee (from_little_endian p.base_fee_per_gas) p;
    withdrawals = [];
    blob_gas_used = 0;
    excess_blob_gas = 0;
  });
}

abbrev pub db_block_capella : ℕ → ℕ → Message → CapellaParts (List ℕ) → Block
db_block_capella root body_root m c = record (db_block_common root body_root m) {
  execution_payload = some (record {
    fields = with_fee (from_little_endian c.payload.base_fee_per_gas) c.payload;
    withdrawals = number_rows withdrawal m.slot root 0 c.withdrawals;
    blob_gas_used = 0;
    excess_blob_gas = 0;
  });
  bls_to_execution_changes = number_rows bls_change m.slot root 0 c.bls_to_execution_changes;
}

abbrev pub db_block_deneb : ℕ → ℕ → Message → DenebParts → Block
db_block_deneb root body_root m d = record (db_block_common root body_root m) {
  execution_payload = some (record {
    fields = with_fee d.capella.payload.base_fee_per_gas d.capella.payload;
    withdrawals = number_rows withdrawal m.slot root 0 d.capella.withdrawals;
    blob_gas_used = d.blob_gas_used;
    excess_blob_gas = d.excess_blob_gas;
  });
  bls_to_execution_changes =
      number_rows bls_change m.slot root 0 d.capella.bls_to_execution_changes;
  blob_kzg_commitments = d.blob_kzg_commitments;
}

abbrev pub header : Message → ℕ → Header
header m body_root = record {
  slot = m.slot;
  proposer_index = m.proposer_index;
  parent_root = m.parent_root;
  state_root = m.state_root;
  body_root = body_root;
}

module _ (env : Env) where
  -- The roots of a block and of its body, where both can be had.
  unfoldable pub roots : SignedBlock → Message → (ℕ → ℕ → Block) → Option Block
  roots b m row = elim (env.body_root b) [
    | none ↦ none
    | some body_root ↦ elim (env.header_root (header m body_root)) [
      | none ↦ none
      | some root ↦ some (row root body_root)
    ]
  ]

  unfoldable pub db_block : SignedBlock → Option Block
  unfolding roots
  db_block (phase0 m) = roots (phase0 m) m (λ root body_root. db_block_phase0 root body_root m)
  db_block (altair m bits) =
      roots (altair m bits) m (λ root body_root. db_block_altair root body_root m)
  db_block (bellatrix m bits p) =
      roots (bellatrix m bits p) m (λ root body_root. db_block_bellatrix root body_root m p)
  db_block (capella m bits c) =
      roots (capella m bits c) m (λ root body_root. db_block_capella root body_root m c)
  db_block (deneb m bits d) =
      roots (deneb m bits d) m (λ root body_root. db_block_deneb root body_root m d)
  db_block unknown_version = none
  db_block unhandled_version = none
