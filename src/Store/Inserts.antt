-- ===== src/Store/Inserts.antt =====
-- Statements of services/chaindb/postgresql that write keyed rows: upserts, copies of whole lists, and a
-- copy behind a savepoint.
use chaind.Common.{
  ℕ, suc, ◌+◌, Bool, false, ◌||◌, ◌&&◌, not, Option, none, some, List, [], ◌∷◌, if◌then◌else◌, ◌==◌,
  Outcome, ok, err, panicked, looping, fail, pure, ◌>>◌,
}
use chaind.Store.{
  World, Act, Failure, database, no_transaction, bad_data, is_open, mutate, set_each,
}

-- The columns that the tables of a block's operations share, and are keyed by.
pub record Included (A : Type 0) : Type 0 where
  pub inclusion_slot : ℕ
  pub inclusion_block_root : ℕ
  pub inclusion_index : ℕ
  pub content : A

module _ {A : Type 0} where
  unfoldable pub same_inclusion : Included A → Included A → Bool
  same_inclusion a b =
      a.inclusion_slot == b.inclusion_slot
      && a.inclusion_block_root == b.inclusion_block_root
      && a.inclusion_index == b.inclusion_index

  -- INSERT … ON CONFLICT … DO UPDATE, where `same` compares the keys.
  unfoldable pub upsert : (A → A → Bool) → A → List A → List A
  upsert same x [] = x ∷ []
  upsert same x (y ∷ ys) = let others = upsert same x ys in if same y x then x ∷ ys else y ∷ others

  prepend : A → Option (List A) → Option (List A)
  prepend y none = none
  prepend y (some ys) = some (y ∷ ys)

  -- An insert that fails where the key is there.
  unfoldable pub insert_new : (A → A → Bool) → A → List A → Option (List A)
  unfolding prepend
  insert_new same x [] = some (x ∷ [])
  insert_new same x (y ∷ ys) =
      let others = insert_new same x ys in if same y x then none else prepend y others

  abbrev pub and_then : Option (List A) → (List A → Option (List A)) → Option (List A)
  and_then none insert = none
  and_then (some rows) insert = insert rows

  unfoldable pub insert_all : (A → A → Bool) → List A → List A → Option (List A)
  insert_all same [] rows = some rows
  insert_all same (x ∷ xs) rows = and_then (insert_new same x rows) (insert_all same xs)

abbrev pub include : {B : Type 0} → ℕ → ℕ → ℕ → B → Included B
include slot root i b = record {
  inclusion_slot = slot;
  inclusion_block_root = root;
  inclusion_index = i;
  content = b;
}

module _ {A B : Type 0} (convert : A → Option B) (slot root : ℕ) where
  abbrev pub before_rows : ℕ → Option B → Option (List (Included B)) → Option (List (Included B))
  before_rows i none others = none
  before_rows i (some b) none = none
  before_rows i (some b) (some bs) = some (include slot root i b ∷ bs)

  -- The rows for the items of a block from index `i` on, if all of them can be converted.
  abbrev pub included : ℕ → List A → Option (List (Included B))
  included i [] = some []
  included i (a ∷ as') = before_rows i (convert a) (included (i + 1) as')

module _ {R H : Type 0} where
  attempted : {A : Type 0} → Outcome Failure A → World R H → Outcome Failure (Option A) × World R H
  attempted (ok a) w = (ok (some a), w)
  attempted (err e) w = (ok none, w)
  attempted panicked w = (panicked, w)
  attempted looping w = (looping, w)

  -- A call of which the error is passed over.
  unfoldable pub attempt : {A : Type 0} → Act R H A → Act R H (Option A)
  unfolding attempted
  attempt m w = let r = m w in attempted r.0 r.1

  recovered :
      Outcome Failure (Unit {0})
      → World R H
      → Act R H (Unit {0})
      → Outcome Failure (Unit {0}) × World R H
  recovered (ok a) w next = (ok a, w)
  recovered (err e) w next = next w
  recovered panicked w next = (panicked, w)
  recovered looping w next = (looping, w)

  -- What to do where a call fails.
  unfoldable pub or_else : Act R H (Unit {0}) → Act R H (Unit {0}) → Act R H (Unit {0})
  unfolding recovered
  or_else m next w = let r = m w in recovered r.0 r.1 next

  module _ (fault : ℕ → Bool) where
    copied : Option R → World R H → Outcome Failure (Unit {0}) × World R H
    copied none w = (err database, record w { calls = suc w.calls; aborted = is_open w.saved })
    copied (some rows) w =
        (ok tt, record w { db = record w.db { rows = rows }; calls = suc w.calls })

    -- CopyFrom: all the rows, or an error and none of them.
    unfoldable pub copy_from : (R → Option R) → Act R H (Unit {0})
    unfolding copied
    copy_from insert w =
        if not (is_open w.saved)
        then (err no_transaction, w)
        else if fault w.calls || w.aborted
        then copied none w
        else copied (insert w.db.rows) w

    -- The Begin of a nested transaction.
    unfoldable pub savepoint : Act R H (Unit {0})
    unfolding mutate
    savepoint = mutate fault (λ db. db)

    -- The nested transaction's Rollback: the failed statement in it has changed no row.
    unfoldable pub roll_back : Act R H (Unit {0})
    roll_back w =
        if fault w.calls
        then (err database, record w { calls = suc w.calls })
        else (ok tt, record w { aborted = false; calls = suc w.calls })

    -- A copy behind a savepoint, and one write for each row where it fails.
    unfoldable pub copy_or_set_each :
        {A : Type 0} → (R → Option R) → (A → R → R) → List A → Act R H (Unit {0})
    unfolding savepoint or_else copy_from roll_back set_each
    copy_or_set_each insert put as' =
        savepoint >> or_else (copy_from insert) (roll_back >> set_each fault put as')

    unfoldable pub set_converted :
        {B : Type 0} → (Included B → R → R) → ℕ → ℕ → ℕ → Option B → Act R H (Unit {0})
    set_converted put slot root i none = fail bad_data
    set_converted put slot root i (some b) =
        mutate fault (λ db. record db { rows = put (include slot root i b) db.rows })

    -- For the items of a block, from index `i` on: each is converted and written before the next one.
    unfoldable pub set_included :
        {A B : Type 0}
        → (A → Option B)
        → (Included B → R → R)
        → ℕ
        → ℕ
        → ℕ
        → List A
        → Act R H (Unit {0})
    unfolding set_converted
    set_included convert put slot root i [] = pure tt
    set_included convert put slot root i (a ∷ as') =
        set_converted put slot root i (convert a) >> set_included convert put slot root (i + 1) as'
