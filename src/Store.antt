-- ===== src/Store.antt =====
-- services/chaindb/postgresql/tx.go, and the tables that the catching-up services write: the rows of a
-- service and its metadata, changed in transactions, any call of which may fail.
pub mod Transactions
pub mod Inserts
pub mod Runs
pub mod Loops
pub mod Quiet
use chaind.Common.{
  ℕ, suc, Bool, true, false, ◌||◌, not, Option, none, some, List, [], ◌∷◌, if◌then◌else◌, Outcome,
  ok, err, panicked, looping, M, pure, fail, ◌>>=◌, ◌>>◌,
}

-- What a service's tables hold.
pub record Tables (R H : Type 0) : Type 0 where
  pub rows : R
  pub metadata : Option H

-- `db` is what a reader in the current transaction sees; `saved` are the rows before a transaction
-- that is under way; after a failed statement such a transaction is `aborted`. `calls` counts the
-- calls of the database. `held` is the metadata that the service holds in memory, and changes.
pub record World (R H : Type 0) : Type 0 where
  pub db : Tables R H
  pub saved : Option (Tables R H)
  pub aborted : Bool
  pub calls : ℕ
  pub held : H

pub data Failure : Type 0 where
  database no_transaction client no_data bad_data : Failure

abbrev pub Act : Type 0 → Type 0 → Type 0 → Type 0
Act R H A = M (World R H) Failure A

abbrev pub is_open : {A : Type 0} → Option A → Bool
is_open none = false
is_open (some _) = true

module _ {R H : Type 0} where
  -- The cancel function of BeginTx; the metadata in memory are not restored.
  unfoldable pub cancel_tx : World R H → World R H
  cancel_tx w = record w {
    db = elim w.saved [ none ↦ w.db | some db ↦ db ];
    saved = none;
    aborted = false;
  }

  unfoldable pub cancelled :
      {A : Type 0} → Outcome Failure A → World R H → Outcome Failure A × World R H
  unfolding cancel_tx
  cancelled (ok a) w = (ok a, w)
  cancelled (err e) w = (err e, cancel_tx w)
  cancelled panicked w = (panicked, w)
  cancelled looping w = (looping, w)

  -- What an error of a call in a transaction does: cancel, and the error goes on.
  unfoldable pub or_cancel : {A : Type 0} → Act R H A → Act R H A
  unfolding cancelled
  or_cancel m w = let r = m w in cancelled r.0 r.1

  unfoldable pub hold : (H → H) → Act R H (Unit {0})
  hold f w = (ok tt, record w { held = f w.held })

  -- An error that is logged, and is the end of the work.
  unfoldable pub ignored :
      Outcome Failure (Unit {0}) → World R H → Outcome Failure (Unit {0}) × World R H
  ignored (ok a) w = (ok a, w)
  ignored (err e) w = (ok tt, w)
  ignored panicked w = (panicked, w)
  ignored looping w = (looping, w)

  fatal : {A : Type 0} → Outcome Failure A → World R H → Outcome Failure A × World R H
  fatal (ok a) w = (ok a, w)
  fatal (err e) w = (panicked, w)
  fatal panicked w = (panicked, w)
  fatal looping w = (looping, w)

  -- log.Fatal, which ends the program, where a call fails.
  unfoldable pub or_exit : {A : Type 0} → Act R H A → Act R H A
  unfolding fatal
  or_exit m w = let r = m w in fatal r.0 r.1

  -- `fault n` says whether the n-th call of the database fails.
  module _ (fault : ℕ → Bool) where
    -- A failure aborts the transaction that it happens in.
    unfoldable pub statement : {A : Type 0} → (Tables R H → A × Tables R H) → Act R H A
    statement f w =
        if fault w.calls || w.aborted
        then (err database, record w { calls = suc w.calls; aborted = is_open w.saved })
        else (let (a, db) = f w.db in (ok a, record w { db = db; calls = suc w.calls }))

    unfoldable pub query : {A : Type 0} → (Tables R H → A) → Act R H A
    unfolding statement
    query f = statement (λ db. (f db, db))

    -- A write needs a transaction.
    unfoldable pub mutate : (Tables R H → Tables R H) → Act R H (Unit {0})
    unfolding statement
    mutate f w = if is_open w.saved then statement (λ db. (tt, f db)) w else (err no_transaction, w)

    unfoldable pub begin_tx : Act R H (Unit {0})
    begin_tx w =
        if fault w.calls
        then (err database, record w { calls = suc w.calls })
        else (ok tt, record w { saved = some w.db; aborted = false; calls = suc w.calls })

    -- A commit that fails, as that of an aborted transaction does, leaves the rows as they were.
    unfoldable pub commit_tx : Act R H (Unit {0})
    unfolding cancel_tx
    commit_tx w =
        if not (is_open w.saved)
        then (err no_transaction, w)
        else if fault w.calls || w.aborted
        then (err database, record (cancel_tx w) { calls = suc w.calls })
        else (ok tt, record w { saved = none; calls = suc w.calls })

    -- getMetadata, with what it gives where nothing is stored.
    unfoldable pub get_metadata : H → Act R H H
    unfolding query
    get_metadata default = query (λ db. elim db.metadata [ none ↦ default | some md ↦ md ])

    -- setMetadata of the metadata that are held.
    unfoldable pub set_metadata : Act R H (Unit {0})
    unfolding mutate
    set_metadata w = mutate (λ db. record db { metadata = some w.held }) w

    -- One write for each item.
    unfoldable pub set_each : {A : Type 0} → (A → R → R) → List A → Act R H (Unit {0})
    unfolding mutate
    set_each put [] = pure tt
    set_each put (a ∷ as') = mutate (λ db. record db { rows = put a db.rows }) >> set_each put as'

    -- The writes for what the consensus client answers; `none` is an error of its.
    unfoldable pub set_answer : {A : Type 0} → (A → R → R) → Option (List A) → Act R H (Unit {0})
    set_answer put none = fail client
    set_answer put (some as') = set_each put as'
