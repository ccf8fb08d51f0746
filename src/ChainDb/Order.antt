-- ===== src/ChainDb/Order.antt =====
-- Lists of rows in the order of their slots, as services/chaindb/postgresql/blocks.go gives them.
use chaind.Common.{
  ℕ, ◌≤◌, ◌≡◌, refl, ap, ◌∙◌, Bool, false, some, List, [], All, ◌∷◌, ltb, ◌==◌, arith, Bool-cases,
  inl, inr, ltb→lt, ltb→le, some-inj,
}
use chaind.ChainDb.{
  Block, Db, find_block, upsert_block, set_block, blocks_by_parent_root, block_by_root, roots,
  select, order_by, insert_by,
}
use chaind.ChainDb.Laws.{mem, IsUnique, mem-roots-select, mem-roots-insert_by, mem-roots-order_by}

pub All-mono :
    (P Q : Block → Type 0) (bs : List Block) → ((b : Block) → P b → Q b) → All P bs → All Q bs
All-mono P Q [] f a = tt
All-mono P Q (b ∷ bs) f a = (f b a.0, All-mono P Q bs f a.1)

All-select :
    (P : Block → Type 0) (test : Block → Bool) (bs : List Block) → All P bs → All P (select test bs)
unfolding select
All-select P test [] a = tt
All-select P test (b ∷ bs) a = elim (Bool-cases (test b)) [
  | inl e ↦ rw e (a.0, All-select P test bs a.1)
  | inr e ↦ rw e (All-select P test bs a.1)
]

All-insert_by :
    (P : Block → Type 0) (before : Block → Block → Bool) (b : Block) (bs : List Block)
    → P b
    → All P bs
    → All P (insert_by before b bs)
unfolding insert_by
All-insert_by P before b [] p a = (p, tt)
All-insert_by P before b (c ∷ cs) p a = elim (Bool-cases (before c b)) [
  | inl e ↦ rw e (a.0, All-insert_by P before b cs p a.1)
  | inr e ↦ rw e (p, a)
]

All-order_by :
    (P : Block → Type 0) (before : Block → Block → Bool) (bs : List Block)
    → All P bs
    → All P (order_by before bs)
unfolding order_by
All-order_by P before [] a = tt
All-order_by P before (b ∷ bs) a =
    All-insert_by P before b (order_by before bs) a.0 (All-order_by P before bs a.1)

abbrev by_slot : Block → Block → Bool
by_slot b c = ltb b.slot c.slot

abbrev pub IsSorted : List Block → Type 0
IsSorted [] = Unit
IsSorted (b ∷ bs) = All (λ c. b.slot ≤ c.slot) bs × IsSorted bs

insert_by-IsSorted : (b : Block) (bs : List Block) → IsSorted bs → IsSorted (insert_by by_slot b bs)
unfolding insert_by
insert_by-IsSorted b [] s = (tt, tt)
insert_by-IsSorted b (c ∷ cs) s = elim (Bool-cases (ltb c.slot b.slot)) [
  | inl e ↦ rw e (
    All-insert_by (λ d. c.slot ≤ d.slot) by_slot b cs (omega (arith, ltb→lt _ _ e)) s.0,
    insert_by-IsSorted b cs s.1,
  )
  | inr e ↦ rw e (
    (
      ltb→le _ _ e,
      All-mono (λ d. c.slot ≤ d.slot) (λ d. b.slot ≤ d.slot) cs (λ d h. omega (arith, ltb→le _ _ e))
          s.0,
    ),
    s,
  )
]

order_by-IsSorted : (bs : List Block) → IsSorted (order_by by_slot bs)
unfolding order_by
order_by-IsSorted [] = tt
order_by-IsSorted (b ∷ bs) = insert_by-IsSorted b (order_by by_slot bs) (order_by-IsSorted bs)

select-IsUnique : (test : Block → Bool) (bs : List Block) → IsUnique bs → IsUnique (select test bs)
unfolding select roots
select-IsUnique test [] u = tt
select-IsUnique test (b ∷ bs) u = elim (Bool-cases (test b)) [
  | inl e ↦ rw e (mem-roots-select b.root test bs u.0, select-IsUnique test bs u.1)
  | inr e ↦ rw e (select-IsUnique test bs u.1)
]

insert_by-IsUnique :
    (before : Block → Block → Bool) (b : Block) (bs : List Block)
    → mem b.root (roots bs) ≡ false
    → IsUnique bs
    → IsUnique (insert_by before b bs)
unfolding insert_by roots
insert_by-IsUnique before b [] h u = (refl, tt)
insert_by-IsUnique before b (c ∷ cs) h u =
    ground (arith, insert_by-IsUnique before b cs, mem-roots-insert_by c.root before b cs)

order_by-IsUnique :
    (before : Block → Block → Bool) (bs : List Block) → IsUnique bs → IsUnique (order_by before bs)
unfolding order_by roots
order_by-IsUnique before [] u = tt
order_by-IsUnique before (b ∷ bs) u =
    insert_by-IsUnique before b (order_by before bs) (mem-roots-order_by b.root before bs ∙ u.0)
      (order_by-IsUnique before bs u.1)

-- A block is the one that is found under its root.
abbrev pub IsFound : List Block → Block → Type 0
IsFound table b = find_block b.root table ≡ some b

IsFound-cons :
    (b : Block) (table bs : List Block)
    → mem b.root (roots bs) ≡ false
    → All (IsFound table) bs
    → All (IsFound (b ∷ table)) bs
unfolding find_block roots
IsFound-cons b table [] h a = tt
IsFound-cons b table (c ∷ cs) h a = (ground arith, IsFound-cons b table cs (ground arith) a.1)

rows-IsFound : (bs : List Block) → IsUnique bs → All (IsFound bs) bs
unfolding find_block roots
rows-IsFound [] u = tt
rows-IsFound (b ∷ bs) u = (ground arith, IsFound-cons b bs bs u.0 (rows-IsFound bs u.1))

-- What holds of the rows of a table that pass a test, in the order of their slots.
pub record IsOrdered (table bs : List Block) : Type 0 where
  pub found : All (IsFound table) bs
  pub unique : IsUnique bs
  pub sorted : IsSorted bs

pub order_by-IsOrdered :
    (test : Block → Bool) (table : List Block)
    → IsUnique table
    → IsOrdered table (order_by (λ b c. ltb b.slot c.slot) (select test table))
order_by-IsOrdered test table u = record {
  found =
      All-order_by (IsFound table) by_slot (select test table)
        (All-select (IsFound table) test table (rows-IsFound table u));
  unique = order_by-IsUnique by_slot (select test table) (select-IsUnique test table u);
  sorted = order_by-IsSorted (select test table);
}

select-upsert_block :
    (r : ℕ) (b b' : Block) (bs : List Block)
    → find_block b.root bs ≡ some b'
    → (b'.parent_root == r) ≡ false
    → (b.parent_root == r) ≡ false
    → select (λ c. c.parent_root == r) (upsert_block b bs) ≡ select (λ c. c.parent_root == r) bs
unfolding find_block select upsert_block
select-upsert_block r b b' [] h p q = cc
select-upsert_block r b b' (c ∷ cs) h p q = elim (Bool-cases (c.root == b.root)) [
  | inl e ↦
      let same : c ≡ b' = some-inj (rw e at h) in
      let p' : (c.parent_root == r) ≡ false = ap (λ d. d.parent_root == r) same ∙ p in rw (e, q, p')
  | inr e ↦ rw (e, select-upsert_block r b b' cs (rw e at h) p q)
]

-- Setting a block whose parent is another, before and after, leaves the children of a root.
pub blocks_by_parent_root-set_block :
    (r : ℕ) (b b' : Block) (db : Db)
    → block_by_root b.root db ≡ some b'
    → (b'.parent_root == r) ≡ false
    → (b.parent_root == r) ≡ false
    → blocks_by_parent_root r (set_block b db) ≡ blocks_by_parent_root r db
unfolding block_by_root set_block blocks_by_parent_root
blocks_by_parent_root-set_block r b b' db h p q = select-upsert_block r b b' db.blocks h p q
