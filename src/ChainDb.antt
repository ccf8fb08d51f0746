-- ===== src/ChainDb.antt =====
-- services/chaindb: the rows of the database, and the statements of services/chaindb/postgresql on
-- them. A table is a list of rows; an upsert replaces the row of its key in place.
-- 32-byte roots are numbers. The columns of a row that no modelled code reads are one value, `rest`.
pub mod Laws
pub mod Order
pub mod Members
use chaind.Common.{
  ℕ, zero, suc, Bool, true, false, ◌&&◌, Option, none, some, List, [], ◌∷◌, if◌then◌else◌, ltb, leb,
  ◌==◌, two64,
}

pub record Block : Type 0 where
  pub slot : ℕ
  pub root : ℕ
  pub parent_root : ℕ
  pub canonical : Option Bool
  pub rest : ℕ

pub record Attestation : Type 0 where
  pub inclusion_slot : ℕ
  pub inclusion_block_root : ℕ
  pub inclusion_index : ℕ
  pub slot : ℕ
  pub beacon_block_root : ℕ
  pub target_epoch : ℕ
  pub target_root : ℕ
  pub canonical : Option Bool
  pub target_correct : Option Bool
  pub head_correct : Option Bool
  pub rest : ℕ

-- The finalizer's metadata; an int64 is its bit pattern, -1 is the largest uint64.
pub record Metadata : Type 0 where
  pub last_finalized_epoch : ℕ
  pub latest_canonical_slot : ℕ
  pub missed_epochs : List ℕ

pub record Db : Type 0 where
  pub blocks : List Block
  pub attestations : List Attestation
  pub metadata : Option Metadata

abbrev pub is_canonical : Option Bool → Bool
is_canonical (some true) = true
is_canonical (some false) = false
is_canonical none = false

abbrev pub is_indeterminate : Option Bool → Bool
is_indeterminate none = true
is_indeterminate (some _) = false

-- SELECT … WHERE f_root = $1 (a unique index).
unfoldable pub find_block : ℕ → List Block → Option Block
find_block root [] = none
find_block root (b ∷ bs) = if b.root == root then some b else find_block root bs

-- INSERT … ON CONFLICT (f_root) DO UPDATE.
unfoldable pub upsert_block : Block → List Block → List Block
upsert_block b [] = b ∷ []
upsert_block b (c ∷ cs) = if c.root == b.root then b ∷ cs else c ∷ upsert_block b cs

unfoldable pub block_by_root : ℕ → Db → Option Block
unfolding find_block
block_by_root root db = find_block root db.blocks

unfoldable pub set_block : Block → Db → Db
unfolding upsert_block
set_block b db = record db { blocks = upsert_block b db.blocks }

unfoldable pub select : {A : Type 0} → (A → Bool) → List A → List A
select test [] = []
select test (x ∷ xs) = let others = select test xs in if test x then x ∷ others else others

-- ORDER BY, with `before` as the order of two rows; rows that it does not order keep their places.
pub insert_by : {A : Type 0} → (A → A → Bool) → A → List A → List A
insert_by before x [] = x ∷ []
insert_by before x (y ∷ ys) = if before y x then y ∷ insert_by before x ys else x ∷ y ∷ ys

unfoldable pub order_by : {A : Type 0} → (A → A → Bool) → List A → List A
unfolding insert_by
order_by before [] = []
order_by before (x ∷ xs) = insert_by before x (order_by before xs)

unfoldable pub blocks_by_slot : ℕ → Db → List Block
unfolding select
blocks_by_slot slot db = select (λ b. b.slot == slot) db.blocks

unfoldable pub blocks_by_parent_root : ℕ → Db → List Block
unfolding select
blocks_by_parent_root root db = select (λ b. b.parent_root == root) db.blocks

-- The rows WHERE f_slot >= $1 AND f_slot < $2 AND f_canonical IS NULL.
unfoldable pub indeterminate_rows : ℕ → ℕ → List Block → List Block
indeterminate_rows from to bs =
    select (λ b. leb from b.slot && ltb b.slot to && is_indeterminate b.canonical) bs

unfoldable pub roots : List Block → List ℕ
roots [] = []
roots (b ∷ bs) = b.root ∷ roots bs

unfoldable pub indeterminate_blocks : ℕ → ℕ → Db → List ℕ
unfolding indeterminate_rows select order_by roots
indeterminate_blocks from to db =
    roots (order_by (λ b c. ltb b.slot c.slot) (indeterminate_rows from to db.blocks))

highest_slot : List Block → ℕ
highest_slot [] = 0
highest_slot (b ∷ bs) = let h = highest_slot bs in if ltb h b.slot then b.slot else h

unfoldable pub latest_blocks : Db → List Block
unfolding select highest_slot
latest_blocks db = select (λ b. b.slot == highest_slot db.blocks) db.blocks

same_key : Attestation → Attestation → Bool
same_key a b =
    a.inclusion_slot == b.inclusion_slot
    && a.inclusion_block_root == b.inclusion_block_root
    && a.inclusion_index == b.inclusion_index

pub upsert_attestation : Attestation → List Attestation → List Attestation
unfolding same_key
upsert_attestation a [] = a ∷ []
upsert_attestation a (b ∷ bs) = if same_key b a then a ∷ bs else b ∷ upsert_attestation a bs

unfoldable pub set_attestation : Attestation → Db → Db
unfolding upsert_attestation
set_attestation a db = record db { attestations = upsert_attestation a db.attestations }

-- ORDER BY f_inclusion_slot, f_inclusion_index.
pub included_before : Attestation → Attestation → Bool
included_before a b =
    if ltb a.inclusion_slot b.inclusion_slot
    then true
    else (a.inclusion_slot == b.inclusion_slot && ltb a.inclusion_index b.inclusion_index)

unfoldable pub attestations_in_slot_range : ℕ → ℕ → Db → List Attestation
unfolding select order_by included_before
attestations_in_slot_range from to db =
    order_by included_before
      (select (λ a. leb from a.inclusion_slot && ltb a.inclusion_slot to) db.attestations)

unfoldable pub set_metadata : Metadata → Db → Db
set_metadata md db = record db { metadata = some md }
