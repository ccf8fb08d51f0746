-- ===== src/ChainDb/Laws.antt =====
-- What the statements on the block table (services/chaindb/postgresql/blocks.go) give and keep.
use chaind.Common.{
  ℕ, ◌≡◌, refl, ◌∙◌, Bool, true, false, ◌&&◌, ◌||◌, some, List, [], ◌∷◌, if◌then◌else◌, ltb, leb,
  ◌==◌, arith, ==→eq, Bool-cases, inl, inr,
}
use chaind.ChainDb.{
  Block, Db, Metadata, set_metadata, find_block, upsert_block, block_by_root, set_block, roots,
  select, order_by, insert_by, indeterminate_rows, indeterminate_blocks, is_indeterminate,
}

pub find_block-root : (r : ℕ) (bs : List Block) {b : Block} → find_block r bs ≡ some b → b.root ≡ r
unfolding find_block
find_block-root r [] h = cc
find_block-root r (c ∷ cs) {b} h = ground (arith, find_block-root r cs {b = b})

pub find_block-upsert_block :
    (r : ℕ) (b : Block) (bs : List Block)
    → find_block r (upsert_block b bs) ≡ (if b.root == r then some b else find_block r bs)
unfolding find_block upsert_block
find_block-upsert_block r b [] = refl
find_block-upsert_block r b (c ∷ cs) = ground (arith, find_block-upsert_block r b cs)

-- A block that is set is the one found under its root, and every other root has the block it had.
pub block_by_root-set_block :
    (r : ℕ) (b : Block) (db : Db)
    → block_by_root r (set_block b db) ≡ (if b.root == r then some b else block_by_root r db)
unfolding block_by_root set_block
block_by_root-set_block r b db = find_block-upsert_block r b db.blocks

pub block_by_root-root : (r : ℕ) (db : Db) {b : Block} → block_by_root r db ≡ some b → b.root ≡ r
unfolding block_by_root
block_by_root-root r db h = find_block-root r db.blocks h

abbrev pub mem : ℕ → List ℕ → Bool
mem r [] = false
mem r (x ∷ xs) = x == r || mem r xs

-- The unique index on f_root.
abbrev pub IsUnique : List Block → Type 0
IsUnique [] = Unit
IsUnique (b ∷ bs) = (mem b.root (roots bs) ≡ false) × IsUnique bs

mem-roots-upsert_block :
    (r : ℕ) (b : Block) (bs : List Block)
    → mem r (roots (upsert_block b bs)) ≡ (mem r (roots bs) || b.root == r)
unfolding roots upsert_block
mem-roots-upsert_block r b [] = ground arith
mem-roots-upsert_block r b (c ∷ cs) = ground (arith, mem-roots-upsert_block r b cs)

upsert_block-IsUnique : (b : Block) (bs : List Block) → IsUnique bs → IsUnique (upsert_block b bs)
unfolding upsert_block roots
upsert_block-IsUnique b [] u = (refl, tt)
upsert_block-IsUnique b (c ∷ cs) u =
    ground (arith, mem-roots-upsert_block c.root b cs, upsert_block-IsUnique b cs u.1)

pub set_block-IsUnique :
    (b : Block) (db : Db) → IsUnique db.blocks → IsUnique (set_block b db).blocks
unfolding set_block
set_block-IsUnique b db u = upsert_block-IsUnique b db.blocks u

pub mem-roots-insert_by :
    (r : ℕ) (before : Block → Block → Bool) (b : Block) (bs : List Block)
    → mem r (roots (insert_by before b bs)) ≡ (b.root == r || mem r (roots bs))
unfolding roots insert_by
mem-roots-insert_by r before b [] = refl
mem-roots-insert_by r before b (c ∷ cs) = ground (arith, mem-roots-insert_by r before b cs)

pub mem-roots-order_by :
    (r : ℕ) (before : Block → Block → Bool) (bs : List Block)
    → mem r (roots (order_by before bs)) ≡ mem r (roots bs)
unfolding roots order_by
mem-roots-order_by r before [] = refl
mem-roots-order_by r before (b ∷ bs) =
    ground
      (arith, mem-roots-insert_by r before b (order_by before bs), mem-roots-order_by r before bs)

pub mem-roots-select :
    (r : ℕ) (test : Block → Bool) (bs : List Block)
    → mem r (roots bs) ≡ false
    → mem r (roots (select test bs)) ≡ false
unfolding roots select
mem-roots-select r test [] h = refl
mem-roots-select r test (b ∷ bs) h = ground (arith, mem-roots-select r test bs)

find_block-select :
    (r : ℕ) (test : Block → Bool) (bs : List Block) {b : Block}
    → IsUnique bs
    → find_block r bs ≡ some b
    → mem r (roots (select test bs)) ≡ test b
unfolding roots select find_block
find_block-select r test [] u h = cc
find_block-select r test (c ∷ cs) {b} u h =
    ground
      (arith, find_block-select r test cs {b = b} u.1, mem-roots-select r test cs, ==→eq c.root r)

find_block-mem :
    (r : ℕ) (bs : List Block) → mem r (roots bs) ≡ true → (b : Block) × (find_block r bs ≡ some b)
unfolding roots find_block
find_block-mem r [] h = cc
find_block-mem r (b ∷ bs) h = elim (Bool-cases (b.root == r)) [
  | inl e ↦ (b, rw e)
  | inr e ↦ let (c, f) = find_block-mem r bs (rw e at h) in (c, rw e f)
]

-- The indeterminate roots below a slot are those of the blocks that are so.
pub mem-indeterminate_blocks :
    (r slot : ℕ) (db : Db) {b : Block}
    → IsUnique db.blocks
    → block_by_root r db ≡ some b
    → mem r (indeterminate_blocks 0 slot db)
      ≡ (leb 0 b.slot && ltb b.slot slot && is_indeterminate b.canonical)
unfolding indeterminate_blocks block_by_root
mem-indeterminate_blocks r slot db u h =
    mem-roots-order_by r (λ b c. ltb b.slot c.slot) (indeterminate_rows 0 slot db.blocks)
    ∙ find_block-select r _ db.blocks u h

pub indeterminate_blocks-stored :
    (r slot : ℕ) (db : Db)
    → mem r (indeterminate_blocks 0 slot db) ≡ true
    → (b : Block) × (block_by_root r db ≡ some b)
unfolding indeterminate_blocks block_by_root indeterminate_rows
indeterminate_blocks-stored r slot db h = elim (Bool-cases (mem r (roots db.blocks))) [
  | inl e ↦ find_block-mem r db.blocks e
  | inr e ↦ cc (
    mem-roots-order_by r (λ b c. ltb b.slot c.slot) (indeterminate_rows 0 slot db.blocks),
    mem-roots-select r (λ b. leb 0 b.slot && ltb b.slot slot && is_indeterminate b.canonical)
        db.blocks e,
  )
]

pub block_by_root-set_metadata :
    (r : ℕ) (md : Metadata) (db : Db) → block_by_root r (set_metadata md db) ≡ block_by_root r db
unfolding block_by_root set_metadata
block_by_root-set_metadata r md db = refl
