-- ===== src/Finalizer/Blocks/Children.antt =====
-- services/finalizer/standard/handler.go: updateIndeterminateBlocks, and the children of a block.
use chaind.Common.{
  ℕ, ◌≤◌, ◌<◌, ◌≡◌, refl, ap, sym, ◌∙◌, Bool, true, false, ◌||◌, some, List, [], ◌∷◌, ok, arith,
  All, ◌==◌, ==→eq, Bool-cases, inl, inr, subst,
}
use chaind.ChainDb
use chaind.ChainDb.{Block, Db, roots}
use chaind.ChainDb.Laws.{mem, IsUnique, block_by_root-set_block}
use chaind.ChainDb.Order.{IsFound, IsSorted, order_by-IsOrdered, blocks_by_parent_root-set_block}
use chaind.Finalizer.{Env, World, set_block}
use chaind.Finalizer.Blocks.{
  has_canonical, update_indeterminate_block, update_each, update_indeterminate_blocks,
}
use chaind.Finalizer.Blocks.Ancestry.{IsQuiet, tick, query-quiet, mutate-quiet}
use chaind.Finalizer.Blocks.Settle.{settled, block_by_root-quiet, update_indeterminate_blocks_lem}

-- A block's parent has a lower slot, where it is in the table.
abbrev pub IsRising : Db → Type 0
IsRising db =
    (b p : Block)
    → ChainDb.block_by_root b.root db ≡ some b
    → ChainDb.block_by_root b.parent_root db ≡ some p
    → p.slot < b.slot

abbrev pub by_children : ℕ → Db → Bool
by_children r db = has_canonical (ChainDb.blocks_by_parent_root r db)

-- Rows in an order in which no row comes before a child of its own that is also a row.
abbrev IsParentsFirst : List Block → Type 0
IsParentsFirst [] = Unit
IsParentsFirst (b ∷ bs) =
    (mem b.root (roots bs) ≡ false) × (mem b.parent_root (roots bs) ≡ false) × IsParentsFirst bs

not_later :
    (table : Db) (b : Block) (bs : List Block)
    → IsRising table
    → IsFound table.blocks b
    → All (IsFound table.blocks) bs
    → All (λ c. b.slot ≤ c.slot) bs
    → mem b.parent_root (roots bs) ≡ false
unfolding ChainDb.block_by_root roots
not_later table b [] rise f a s = refl
not_later table b (c ∷ cs) rise f a s = elim (Bool-cases (c.root == b.parent_root)) [
  | inr e ↦ rw (e, not_later table b cs rise f a.1 s.1)
  | inl e ↦
      let found = ap (λ r. ChainDb.block_by_root r table) (sym (==→eq _ _ e)) ∙ a.0 in
      absurd (omega (arith, rise b c f found, s.0))
]

ordered-IsParentsFirst :
    (table : Db) (bs : List Block)
    → IsRising table
    → All (IsFound table.blocks) bs
    → IsUnique bs
    → IsSorted bs
    → IsParentsFirst bs
ordered-IsParentsFirst table [] rise f u s = tt
ordered-IsParentsFirst table (b ∷ bs) rise f u s =
    (u.0, not_later table b bs rise f.0 f.1 s.0, ordered-IsParentsFirst table bs rise f.1 u.1 s.1)

-- The database once a block is decided.
decide : Block → Db → Db
decide b db = ChainDb.set_block (record b { canonical = some (by_children b.root db) }) db

found_row : (b : Block) (db : Db) → IsFound db.blocks b → ChainDb.block_by_root b.root db ≡ some b
unfolding ChainDb.block_by_root
found_row b db f = f

IsFound-decide :
    (b : Block) (db : Db) (bs : List Block)
    → mem b.root (roots bs) ≡ false
    → All (IsFound db.blocks) bs
    → All (IsFound (decide b db).blocks) bs
unfolding decide roots ChainDb.block_by_root
IsFound-decide b db [] h a = tt
IsFound-decide b db (c ∷ cs) h a = (
  block_by_root-set_block c.root (record b { canonical = some (by_children b.root db) }) db
      ∙ ground arith,
  IsFound-decide b db cs (ground arith) a.1,
)

other_root : (p r : ℕ) (rs : List ℕ) → mem p rs ≡ false → mem r rs ≡ true → (p == r) ≡ false
other_root p r rs h k = elim (Bool-cases (p == r)) [
  | inr e ↦ e
  | inl e ↦ cc (ap (λ x. mem x rs) (==→eq p r e), h, k)
]

decide-same :
    (b : Block) (db : Db) (rs : List ℕ)
    → IsFound db.blocks b
    → mem b.root rs ≡ false
    → settled
        (mem b.root rs)
        (by_children b.root (decide b db))
        (ChainDb.block_by_root b.root (decide b db))
      ≡ settled
          (b.root == b.root || mem b.root rs)
          (by_children b.root db)
          (ChainDb.block_by_root b.root db)
unfolding decide ChainDb.block_by_root
decide-same b db rs f h =
    let same : (b.root == b.root) ≡ true = ground arith in
    rw (h, same, f)
      (block_by_root-set_block b.root (record b { canonical = some (by_children b.root db) }) db
        ∙ rw same)

decide-settled :
    (r : ℕ) (b : Block) (db : Db) (bs : List Block)
    → IsFound db.blocks b
    → mem b.root (roots bs) ≡ false
    → mem b.parent_root (roots bs) ≡ false
    → settled
        (mem r (roots bs))
        (by_children r (decide b db))
        (ChainDb.block_by_root r (decide b db))
      ≡ settled (b.root == r || mem r (roots bs)) (by_children r db) (ChainDb.block_by_root r db)
unfolding decide
decide-settled r b db bs f h k = elim (Bool-cases (b.root == r)) [
  | inl e ↦
      subst
        (λ x.
          settled (mem x (roots bs)) (by_children x (decide b db))
            (ChainDb.block_by_root x (decide b db))
          ≡ settled (b.root == x || mem x (roots bs)) (by_children x db)
              (ChainDb.block_by_root x db))
        (==→eq _ _ e) (decide-same b db (roots bs) f h)
  | inr e ↦
      let b' = record b { canonical = some (by_children b.root db) } in
      let row = block_by_root-set_block r b' db ∙ rw e in
      elim (Bool-cases (mem r (roots bs))) [
        | inr q ↦ rw (q, e, row)
        | inl q ↦
            let other = other_root b.parent_root r (roots bs) k q in
            rw (q, e, row)
              (ap (λ l. settled true (has_canonical l) (ChainDb.block_by_root r db))
                (blocks_by_parent_root-set_block r b' b db (found_row b db f) other other))
      ]
]

module _ (env : Env) (quiet : IsQuiet env) where
  decide_one :
      (b : Block) (w : World)
      → w.aborted ≡ false
      → IsFound w.db.blocks b
      → update_indeterminate_block env b.root w
        ≡ (ok tt, record (tick (tick (tick w))) { db = decide b w.db })
  unfolding update_indeterminate_block set_block decide ChainDb.block_by_root
  decide_one b w a h =
      rw
        (
          block_by_root-quiet env quiet b.root w a h,
          query-quiet env quiet (ChainDb.blocks_by_parent_root b.root) (tick w) a,
        )
        (mutate-quiet env quiet
          (ChainDb.set_block (record b { canonical = some (by_children b.root w.db) }))
          (tick (tick w)) a)

  decide_each :
      (bs : List Block) (w : World)
      → w.aborted ≡ false
      → All (IsFound w.db.blocks) bs
      → IsParentsFirst bs
      → (w' : World) × (update_each env (roots bs) w ≡ (ok tt, w'))
        × ((r : ℕ)
            → ChainDb.block_by_root r w'.db
              ≡ settled (mem r (roots bs)) (by_children r w.db) (ChainDb.block_by_root r w.db))
  unfolding update_each roots
  decide_each [] w a f o = (w, refl, λ r. refl)
  decide_each (b ∷ bs) w a f o =
      let w1 = record (tick (tick (tick w))) { db = decide b w.db } in
      let (w2, run, rows) = decide_each bs w1 a (IsFound-decide b w.db bs o.0 f.1) o.2 in
      (w2, rw (decide_one b w a f.0) run, λ r. rows r ∙ decide-settled r b w.db bs f.0 o.0 o.1)

  -- When no call of the database fails, no transaction is aborted, roots are unique and parents
  -- have lower slots, the update of the indeterminate blocks below a slot ends without an error.
  -- Exactly the blocks that were indeterminate and below the slot have changed: each is canonical
  -- if one of its children was so before the update, else it is non-canonical; attestations and
  -- metadata are as they were.
  pub update_indeterminate_blocks-children :
      (slot : ℕ) (w : World)
      → w.aborted ≡ false
      → IsUnique w.db.blocks
      → IsRising w.db
      → (w' : World) × (update_indeterminate_blocks env slot w ≡ (ok tt, w'))
        × ((r : ℕ)
            → ChainDb.block_by_root r w'.db
              ≡ settled
                  (mem r (ChainDb.indeterminate_blocks 0 slot w.db))
                  (by_children r w.db)
                  (ChainDb.block_by_root r w.db))
        × (w'.db.attestations ≡ w.db.attestations)
        × (w'.db.metadata ≡ w.db.metadata)
  unfolding update_indeterminate_blocks ChainDb.indeterminate_blocks ChainDb.indeterminate_rows
  update_indeterminate_blocks-children slot w a u rise =
      let o = order_by-IsOrdered _ w.db.blocks u in
      let first = ordered-IsParentsFirst w.db _ rise o.found o.unique o.sorted in
      let (w', run, rows) = decide_each _ (tick w) a o.found first in
      let (w'', run', s) = update_indeterminate_blocks_lem env quiet slot w a u in
      let run1 : update_indeterminate_blocks env slot w ≡ (ok tt, w') =
        rw (query-quiet env quiet (ChainDb.indeterminate_blocks 0 slot) w a) run in
      let same = ap (λ x. x.1) (sym run' ∙ run1) in
      (
        w',
        run1,
        rows,
        ap (λ v. v.db.attestations) (sym same) ∙ s.attestations,
        ap (λ v. v.db.metadata) (sym same) ∙ s.metadata,
      )
