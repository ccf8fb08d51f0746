-- ===== src/Finalizer.antt =====
-- services/finalizer/standard: marking blocks and attestations canonical once a checkpoint is
-- justified. This module has what the service works on: the world, and the calls of the database.
pub mod Keeps
pub mod Blocks
pub mod Votes
pub mod Transaction
use chaind.Common.{
  ℕ, zero, suc, ◌+◌, ◌-◌, Bool, true, false, ◌||◌, not, Option, none, some, List, [], ◌∷◌,
  if◌then◌else◌, ltb, two64, Outcome, ok, err, panicked, M, pure, fail, crash, ◌>>=◌, ◌>>◌,
}
use chaind.ChainDb
use chaind.ChainDb.{Block, Attestation, Metadata, Db}
use chaind.ChainTime

pub record Checkpoint : Type 0 where
  pub epoch : ℕ
  pub root : ℕ

-- A signed block of the consensus client: its slot, if the block has one, and its content.
pub record SignedBlock : Type 0 where
  pub slot : Option ℕ
  pub content : ℕ

pub data Fetched : Type 0 where
  found : SignedBlock → Fetched
  missing failing : Fetched

pub data FinalizerError : Type 0 where
  no_rows database client no_block indeterminate no_canonical_block no_slot storing : FinalizerError

-- What the service uses of other parts. `fault n` says whether the n-th call of the database fails;
-- the consensus client gives the justified checkpoint of a slot's state and the block of a root
-- (`missing` is its status 404); `on_block` is OnBlock of the blocks service: whether it succeeds
-- in its transaction, and the rows that it leaves.
pub record Env : Type 0 where
  pub time : ChainTime.Service
  pub fault : ℕ → Bool
  pub finality : ℕ → Option Checkpoint
  pub signed_block : ℕ → Fetched
  pub on_block : SignedBlock → Db → Bool × Db

-- `db` is what a reader in the current transaction sees; `saved` are the rows before a transaction
-- that is under way; after a failed statement such a transaction is `aborted`. `calls` counts the
-- calls of the database, `notified` are the finality handlers' calls.
pub record World : Type 0 where
  pub db : Db
  pub saved : Option Db
  pub aborted : Bool
  pub calls : ℕ
  pub notified : List ℕ

abbrev pub Act : Type 0 → Type 0
Act A = M World FinalizerError A

abbrev pub in_transaction : Option Db → Bool
in_transaction none = false
in_transaction (some _) = true

-- getMetadata: -1 in both fields where nothing is stored.
unfoldable pub no_metadata : Metadata
no_metadata = record {
  last_finalized_epoch = two64 - 1;
  latest_canonical_slot = two64 - 1;
  missed_epochs = [];
}

unfoldable pub or_default : Option Metadata → Metadata
unfolding no_metadata
or_default none = no_metadata
or_default (some md) = md

unfoldable pub row : {A : Type 0} → Option A → Act A
row none = fail no_rows
row (some a) = pure a

module _ (env : Env) where
  -- A statement: it fails by a fault, and in an aborted transaction. A failure aborts the
  -- transaction that it happens in.
  unfoldable pub statement : {A : Type 0} → (Db → A × Db) → Act A
  statement f w =
      if env.fault w.calls || w.aborted
      then (err database, record w { calls = suc w.calls; aborted = in_transaction w.saved })
      else (let (a, db) = f w.db in (ok a, record w { db = db; calls = suc w.calls }))

  unfoldable pub query : {A : Type 0} → (Db → A) → Act A
  unfolding statement
  query f = statement (λ db. (f db, db))

  unfoldable pub mutate : (Db → Db) → Act (Unit {0})
  unfolding statement
  mutate f = statement (λ db. (tt, f db))

  unfoldable pub begin_tx : Act (Unit {0})
  begin_tx w =
      if env.fault w.calls
      then (err database, record w { calls = suc w.calls })
      else (ok tt, record w { saved = some w.db; aborted = false; calls = suc w.calls })

  -- A commit that fails, as that of an aborted transaction does, leaves the rows as they were.
  unfoldable pub commit_tx : Act (Unit {0})
  commit_tx w =
      if env.fault w.calls || w.aborted
      then (
        err database,
        record w {
          db = elim w.saved [ none ↦ w.db | some db ↦ db ];
          saved = none;
          aborted = false;
          calls = suc w.calls;
        },
      )
      else (ok tt, record w { saved = none; calls = suc w.calls })

  unfoldable pub get_metadata : Act Metadata
  unfolding or_default query
  get_metadata = query (λ db. or_default db.metadata)

  unfoldable pub set_metadata : Metadata → Act (Unit {0})
  unfolding mutate
  set_metadata md = mutate (ChainDb.set_metadata md)

  -- BlockByRoot: the error ErrNoRows where there is no such block.
  unfoldable pub block_by_root : ℕ → Act Block
  unfolding query row
  block_by_root root = do found_row ← query (ChainDb.block_by_root root); row found_row

  unfoldable pub set_block : Block → Act (Unit {0})
  unfolding mutate
  set_block b = mutate (ChainDb.set_block b)

-- The cancel function of BeginTx.
unfoldable pub cancel_tx : World → World
cancel_tx w = record w {
  db = elim w.saved [ none ↦ w.db | some db ↦ db ];
  saved = none;
  aborted = false;
}
