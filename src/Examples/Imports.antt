-- ===== src/Examples/Imports.antt =====
-- The blocks service, with a client that has a block with one attestation for each slot.
use chaind.Common.{
  ℕ, suc, ◌≤◌, ◌≡◌, refl, ap, subst, ◌⊎◌, inl, ◌||◌, not, Bool, true, false, none, some, List, [],
  ◌∷◌, length, some-inj, ok, err, arith, ◌==◌, add64,
}
use chaind.Store.{World, Failure}
use chaind.Store.Inserts.{include}
use chaind.Catchup.Progress.{HasCaughtUp}
use chaind.Catchup.Handler.{stored}
use chaind.Blocks.{
  ChainAttestation, Body, Message, SignedBlock, altair, BlockAnswer, obtained, not_found, failed,
  ChainBlobSidecar, Metadata, no_metadata, Env,
}
use chaind.Blocks.Rows.{Rows}
use chaind.Blocks.Convert.{db_block, db_block_common}
use chaind.Blocks.Operations.{db_blob_sidecar}
use chaind.Blocks.Votes.{attestation_row}
use chaind.Blocks.Handler.{on_block}
use chaind.Blocks.Handler.Stored.{bits_of}
use chaind.Blocks.Handler.Refetch.{on_block-refused}
use chaind.Blocks.Service.{service, on_beacon_chain_head_updated}
use chaind.Blocks.Service.Laws.{
  IsReady, Writes, service-IsLawful, on_beacon_chain_head_updated-HasImported,
}
use chaind.Examples.Clock.{mainnet}

abbrev vote : ChainAttestation
vote = record {
  aggregation_bits = true ∷ false ∷ [];
  attestation_data = record {
    slot = 1;
    index = 0;
    beacon_block_root = 7;
    source = record { epoch = 0; root = 5 };
    target = record { epoch = 0; root = 6 };
  };
}

abbrev body : Body
body = record {
  randao_reveal = 1;
  eth1_data = record { block_hash = 1; deposit_count = 1; deposit_root = 1 };
  graffiti = 0;
  proposer_slashings = [];
  attester_slashings = [];
  attestations = vote ∷ [];
  deposits = record { public_key = 1; withdrawal_credentials = 2; amount = 32 } ∷ [];
  voluntary_exits = record { epoch = 0; validator_index = 8 } ∷ [];
}

abbrev message : Message
message = record { slot = 2; proposer_index = 4; parent_root = 7; state_root = 3; body = body }

abbrev block : SignedBlock
block = altair message (true ∷ false ∷ [])

abbrev sidecar : ChainBlobSidecar
sidecar = record {
  header_slot = 2;
  index = 0;
  blob = 1 ∷ 0 ∷ [];
  kzg_commitment = 1;
  kzg_proof = 1;
  kzg_commitment_inclusion_proof = 1;
}

abbrev env : Env
env = record {
  fault = λ n. false;
  chain_time = mainnet;
  refetch = true;
  body_root = λ b. some 11;
  header_root = λ h. some 12;
  signed_beacon_block = λ slot. obtained block;
  client_committees = λ slot. none;
  client_blob_sidecars = λ root. some (sidecar ∷ []);
  beacon_committees = record { slot = 1; index = 0; committee = 8 ∷ 9 ∷ [] } ∷ [];
  sync_committees = λ period. some (3 ∷ 4 ∷ []);
  cached = λ slot. [];
}

abbrev answer_bits : BlockAnswer → List Bool
answer_bits (obtained b) = bits_of b
answer_bits not_found = []
answer_bits failed = []

env-IsReady : IsReady env
env-IsReady = record {
  slots = omega arith;
  epochs = omega arith;
  fresh = λ slot c m. absurd m;
  long = λ slot b e period vs q.
      subst (λ l. length l ≤ length vs) (ap answer_bits e)
        (subst (λ (l : List ℕ). 2 ≤ length l) (some-inj q) (omega arith));
}

abbrev empty : Rows
empty = record {
  blocks = [];
  execution_payloads = [];
  withdrawals = [];
  bls_to_execution_changes = [];
  attestations = [];
  proposer_slashings = [];
  attester_slashings = [];
  deposits = [];
  voluntary_exits = [];
  sync_aggregates = [];
  blob_sidecars = [];
}

-- Within a transaction, before the block.
abbrev before : World Rows Metadata
before = record {
  db = record { rows = empty; metadata = none };
  saved = some (record { rows = empty; metadata = none });
  aborted = false;
  calls = 0;
  held = no_metadata;
}

long_example :
    (period : ℕ) (vs : List ℕ)
    → env.sync_committees period ≡ some vs
    → length (bits_of block) ≤ length vs
long_example period vs q = subst (λ (l : List ℕ). 2 ≤ length l) (some-inj q) (omega arith)

-- The block's attestation is in the table.
abbrev again : World Rows Metadata
again = record before {
  db = record {
    rows = record empty {
      attestations =
          include 2 12 0
            (attestation_row (record { slot = 1; index = 0; committee = 8 ∷ 9 ∷ [] }) vote)
          ∷ [];
    };
    metadata = none;
  };
}

db_block_is : db_block env block ≡ some (db_block_common 12 11 message)
unfolding db_block
db_block_is = refl

on_block-refused_example :
    (e : Failure) × (v : World Rows Metadata) × (on_block env block [] again ≡ (err e, v))
on_block-refused_example =
    on_block-refused env (omega arith) (omega arith) block [] (λ c m. absurd m) long_example message
      vote [] (db_block_common 12 11 message) again refl refl db_block_is
      (_, inl refl, refl, refl, refl)

abbrev outside : World Rows Metadata
outside = record before { saved = none }

on_beacon_chain_head_updated-HasImported_example :
    (root' : ℕ) × (v : World Rows Metadata) × (on_beacon_chain_head_updated env
        (suc (suc 3))
        (λ j. 3)
        true
        7
        12
        outside
      ≡ (ok root', v))
    × ((((not true || (7 == 12)) ≡ true) × (root' ≡ 7) × (v ≡ outside))
        ⊎ (((not true || (7 == 12)) ≡ false)
            × (((root' ≡ 7) × (v.db ≡ outside.db) × (v.held ≡ outside.held) × (v.saved ≡ none))
                ⊎ ((root' ≡ 12)
                    × HasCaughtUp
                        (service env)
                        (Writes env)
                        (service-IsLawful env env-IsReady)
                        (λ j. 3)
                        (add64 (stored no_metadata outside.db).latest_slot 1)
                        (record outside { calls = 1; held = no_metadata })
                        v))))
on_beacon_chain_head_updated-HasImported_example =
    on_beacon_chain_head_updated-HasImported env env-IsReady (λ j. 3) 3 (λ j. omega arith)
      (omega arith) true 7 12 outside refl

-- The sidecar is in the table.
abbrev with_sidecar : World Rows Metadata
with_sidecar = record before {
  db = record {
    rows = record empty { blob_sidecars = db_blob_sidecar 12 sidecar ∷ [] };
    metadata = none;
  };
}
