-- ===== src/Finalizer/Blocks/Canonicalize.antt =====
-- services/finalizer/standard/handler.go: the loop of canonicalizeBlocks.
use chaind.Common.{
  ℕ, zero, suc, ◌≤◌, ◌<◌, ◌≡◌, refl, ◌∙◌, ◌≢◌, false, Option, some, List, [], ◌∷◌, ◌==◌, ok, arith,
  Bool-cases, inl, inr, ==→eq,
}
use chaind.ChainDb
use chaind.ChainDb.{Block, Metadata, Db, is_canonical}
use chaind.Finalizer.{Env, World}
use chaind.Finalizer.Blocks.{reached, canonicalize_round, canonicalize_blocks}
use chaind.Finalizer.Blocks.Ancestry.{
  Ancestors, at_limit, at_genesis, at_child, IsMarked, IsMarked-tick, IsMarked-trans,
  Ancestors-IsMarked, IsQuiet, tick, fetch_block-stored, mark_lem, marked,
}

-- Each block but the genesis block has its parent in the table, at a lower slot.
pub record IsChain (db : Db) : Type 0 where
  pub parent :
      (r : ℕ) (b : Block)
      → ChainDb.block_by_root r db ≡ some b
      → b.slot ≢ 0
      → (p : Block) × (ChainDb.block_by_root b.parent_root db ≡ some p) × (p.slot < b.slot)

pub Ancestors-total :
    (limit : ℕ) (db : Db) (k root : ℕ) (b : Block)
    → IsChain db
    → b.slot < k
    → ChainDb.block_by_root root db ≡ some b
    → (rs : List ℕ) × (n : ℕ) × Ancestors limit db root rs n × (n ≤ suc b.slot)
Ancestors-total limit db zero root b chain h e = elim h [ ]
Ancestors-total limit db (suc k) root b chain h e = elim (Bool-cases (reached limit b)) [
  | inl stop ↦ ([], 1, at_limit b e stop, omega arith)
  | inr on ↦ elim (Bool-cases (b.slot == 0)) [
    | inl z ↦ (root ∷ [], 1, at_genesis b e on (==→eq _ _ z), omega arith)
    | inr nz ↦
        let nonzero : b.slot ≢ 0 = λ z. ground arith in
        let (p, ep, lower) = chain.parent root b e nonzero in
        let (rs, n, r, le) = Ancestors-total limit db k b.parent_root p chain (omega arith) ep in
        (root ∷ rs, suc n, at_child b e on nonzero r, omega arith)
  ]
]

not_zero : (n : ℕ) → n ≢ 0 → (n == 0) ≡ false
not_zero n h = ground arith

unmarked : (o : Option Block) → o ≡ marked false o
unmarked o = ground arith

rounds_pos :
    {limit : ℕ} {db : Db} {root : ℕ} {rs : List ℕ} {n : ℕ} → Ancestors limit db root rs n → 0 < n
rounds_pos (at_limit b e k) = omega arith
rounds_pos (at_genesis b e k z) = omega arith
rounds_pos (at_child b e k z r) = omega arith

module _ (env : Env) (quiet : IsQuiet env) (limit : ℕ) where
  round_lem :
      (root : ℕ) (b : Block) (fuel : ℕ) (w : World)
      → w.aborted ≡ false
      → ChainDb.block_by_root root w.db ≡ some b
      → canonicalize_blocks env (suc fuel) root limit w
        ≡ canonicalize_round env limit b (canonicalize_blocks env fuel b.parent_root limit) (tick w)
  unfolding canonicalize_blocks
  round_lem root b fuel w a e = rw (fetch_block-stored env quiet root w a e)

  canonicalize_blocks-IsMarked :
      (fuel root n : ℕ) (rs : List ℕ) (w : World)
      → n ≤ fuel
      → w.aborted ≡ false
      → Ancestors limit w.db root rs n
      → (w' : World) × (canonicalize_blocks env fuel root limit w ≡ (ok tt, w')) × IsMarked rs w w'
  unfolding canonicalize_round
  canonicalize_blocks-IsMarked zero root n rs w h a r = absurd (omega (arith, rounds_pos r))
  canonicalize_blocks-IsMarked (suc fuel) root n rs w h a (at_limit b e k) = (
    tick w,
    round_lem root b fuel w a e ∙ rw k,
    IsMarked-tick (record {
      rows = λ r. unmarked (ChainDb.block_by_root r w.db);
      attestations = refl;
      metadata = refl;
      saved = refl;
      aborted = a;
      unique = λ u. u;
    }),
  )
  canonicalize_blocks-IsMarked (suc fuel) root n rs w h a (at_genesis b e k z) =
      let (w', em, m) = mark_lem env quiet root b (tick w) a e in
      (w', round_lem root b fuel w a e ∙ rw (k, em, z), IsMarked-tick m)
  canonicalize_blocks-IsMarked (suc fuel) root n rs w h a (at_child {rs = rs'} {n = n'} b e k z r) =
      let (w1, em, m) = mark_lem env quiet root b (tick w) a e in
      let (w2, ec, m2) =
        canonicalize_blocks-IsMarked fuel b.parent_root n' rs' w1 (omega arith) m.aborted
          (Ancestors-IsMarked (IsMarked-tick m) r) in
      (
        w2,
        round_lem root b fuel w a e ∙ rw (k, em) (rw (not_zero b.slot z) ec),
        IsMarked-trans (IsMarked-tick m) m2,
      )

  -- When no call of the database fails, no transaction is aborted and each block but the genesis
  -- block has its parent in the table at a lower slot: marking from a block that is in the table
  -- ends with one round for each slot at most, and without an error; the blocks from it on by
  -- their parents, down to the limit or to the genesis block, are then canonical, and all other
  -- blocks, the attestations and the metadata are as they were.
  pub canonicalize_blocks_lem :
      (root : ℕ) (b : Block) (w : World)
      → w.aborted ≡ false
      → IsChain w.db
      → ChainDb.block_by_root root w.db ≡ some b
      → (rs : List ℕ) × (n : ℕ) × (w' : World) × Ancestors limit w.db root rs n
        × (canonicalize_blocks env (suc b.slot) root limit w ≡ (ok tt, w'))
        × IsMarked rs w w'
  canonicalize_blocks_lem root b w a chain e =
      let (rs, n, r, le) = Ancestors-total limit w.db (suc b.slot) root b chain (omega arith) e in
      let (w', run, m) = canonicalize_blocks-IsMarked (suc b.slot) root n rs w le a r in
      (rs, n, w', r, run, m)
