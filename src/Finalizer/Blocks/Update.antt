-- ===== src/Finalizer/Blocks/Update.antt =====
-- updateCanonicalBlocks of services/finalizer/standard/handler.go as a whole.
use chaind.Common.{
  ℕ, ◌<◌, ◌≡◌, refl, ap, sym, ◌∙◌, ◌≢◌, Bool, true, false, ◌&&◌, Option, none, some, List, [], ltb,
  leb, ◌==◌, ok, panicked, arith, Bool-cases, inl, inr, ◌⊎◌, ==→eq, Option-cases,
}
use chaind.ChainDb
use chaind.ChainDb.{Block, Metadata, Db, is_canonical, is_indeterminate}
use chaind.ChainDb.Laws.{mem, IsUnique, mem-indeterminate_blocks, block_by_root-set_metadata}
use chaind.Finalizer.{
  Env, World, or_default, get_metadata, set_metadata, SignedBlock, found, missing,
}
use chaind.Finalizer.Blocks.{update_canonical_blocks}
use chaind.Finalizer.Blocks.Ancestry.{
  Ancestors, IsMarked, marked, IsQuiet, tick, query-quiet, mutate-quiet, fetch_block-stored,
}
use chaind.Finalizer.Blocks.Canonicalize.{IsChain, canonicalize_blocks_lem}
use chaind.Finalizer.Blocks.Settle.{IsSettled, settled, update_indeterminate_blocks_lem}

-- A block that is decided after the marking is left alone by the settling.
kept :
    (r slot : ℕ) (db : Db) {b : Block} {o : Option Block} (c : Bool)
    → IsUnique db.blocks
    → ChainDb.block_by_root r db ≡ some b
    → is_indeterminate b.canonical ≡ false
    → o ≡ settled (mem r (ChainDb.indeterminate_blocks 0 slot db)) c (ChainDb.block_by_root r db)
    → o ≡ some b
kept r slot db {b} c u e d h = h ∙ rw (mem-indeterminate_blocks r slot db u e, d, e) (ground arith)

settled-none : (d c : Bool) (b' : Block) → some b' ≡ settled d c none → ⊥
settled-none false c b' h = cc
settled-none true c b' h = cc

settled_decided :
    (d c : Bool) (slot : ℕ) (b b' : Block)
    → d ≡ (leb 0 b.slot && ltb b.slot slot && is_indeterminate b.canonical)
    → some b' ≡ settled d c (some b)
    → b'.slot < slot
    → is_indeterminate b'.canonical ≡ false
settled_decided false c slot b b' e h lower = ground arith
settled_decided true c slot b b' e h lower = ground arith

decided :
    (r slot : ℕ) (db : Db) (b' : Block) (c : Bool)
    → IsUnique db.blocks
    → some b'
      ≡ settled (mem r (ChainDb.indeterminate_blocks 0 slot db)) c (ChainDb.block_by_root r db)
    → b'.slot < slot
    → is_indeterminate b'.canonical ≡ false
decided r slot db b' c u h lower = elim (Option-cases (ChainDb.block_by_root r db)) [
  | inl e ↦ absurd (settled-none (mem r (ChainDb.indeterminate_blocks 0 slot db)) c b' (rw e at h))
  | inr (b, e) ↦
      settled_decided (mem r (ChainDb.indeterminate_blocks 0 slot db)) c slot b b'
        (mem-indeterminate_blocks r slot db u e) (rw e at h) lower
]

marked-canonical :
    (c : Bool) (o : Option Block) {b : Block}
    → c ≡ true
    → o ≡ some b
    → marked c o ≡ some (record b { canonical = some true })
marked-canonical c o e h = rw (e, h)

-- What a successful update leaves: the metadata have the slot of the block, the blocks on the way
-- down are canonical, every block below the slot is decided, and attestations are as they were.
pub record IsUpdated (slot : ℕ) (rs : List ℕ) (w w' : World) : Type 0 where
  pub metadata :
      w'.db.metadata ≡ some (record (or_default w.db.metadata) { latest_canonical_slot = slot })
  pub canonical :
      (r : ℕ)
      → mem r rs ≡ true
      → (b : Block) × (ChainDb.block_by_root r w'.db ≡ some b) × (b.canonical ≡ some true)
  pub decided_below :
      (r : ℕ) (b : Block)
      → ChainDb.block_by_root r w'.db ≡ some b
      → b.slot < slot
      → b.canonical ≢ none
  pub attestations : w'.db.attestations ≡ w.db.attestations

Ancestors-stored :
    {limit : ℕ} {db : Db} {root : ℕ} {rs : List ℕ} {n : ℕ} (r : ℕ)
    → Ancestors limit db root rs n
    → mem r rs ≡ true
    → (b : Block) × (ChainDb.block_by_root r db ≡ some b)
Ancestors-stored {db} r (Ancestors.at_limit b e k) h = cc
Ancestors-stored {db} r (Ancestors.at_genesis {root} b e k z) h = elim (Bool-cases (root == r)) [
  | inl q ↦ (b, ap (λ x. ChainDb.block_by_root x db) (sym (==→eq root r q)) ∙ e)
  | inr q ↦ cc (rw q at h)
]
Ancestors-stored {db} r (Ancestors.at_child {root} b e k z a) h = elim (Bool-cases (root == r)) [
  | inl q ↦ (b, ap (λ x. ChainDb.block_by_root x db) (sym (==→eq root r q)) ∙ e)
  | inr q ↦ Ancestors-stored r a (rw q at h)
]

module _ (env : Env) (quiet : IsQuiet env) where
  canonical_after :
      (rs : List ℕ) (n slot : ℕ) (md : Metadata) {w : World} (w1 w2 : World) {limit root : ℕ}
      → Ancestors limit w.db root rs n
      → IsMarked rs (tick (tick w)) w1
      → IsSettled (ChainDb.indeterminate_blocks 0 slot w1.db) w1 w2
      → IsUnique w.db.blocks
      → (r : ℕ) → mem r rs ≡ true
      → (b : Block) × (ChainDb.block_by_root r (ChainDb.set_metadata md w2.db) ≡ some b)
        × (b.canonical ≡ some true)
  canonical_after rs n slot md w1 w2 path m s u r h =
      let (b, e) = Ancestors-stored r path h in
      let e1 = m.rows r ∙ marked-canonical (mem r rs) _ h e in
      let (c, e2) = s.rows r in
      (
        record b { canonical = some true },
        block_by_root-set_metadata r md w2.db ∙ kept r slot w1.db c (m.unique u) e1 refl e2,
        refl,
      )

  decided_after :
      (slot : ℕ) {w : World} {rs : List ℕ} (w1 w2 : World)
      → IsMarked rs (tick (tick w)) w1
      → IsSettled (ChainDb.indeterminate_blocks 0 slot w1.db) w1 w2
      → IsUnique w.db.blocks
      → (r : ℕ) (b' : Block) → ChainDb.block_by_root r w2.db ≡ some b'
      → b'.slot < slot
      → b'.canonical ≢ none
  decided_after slot w1 w2 m s u r b' h lower =
      let (c, e) = s.rows r in
      let d = decided r slot w1.db b' c (m.unique u) (sym h ∙ e) lower in
      λ none'. cc (rw none' at d)

  -- When no call of the database fails, no transaction is aborted, each block but the genesis
  -- block has its parent in the table at a lower slot, roots are unique and the block of the root
  -- is in the table, the update ends without an error. The metadata then have the block's slot,
  -- the blocks from it down to the last canonical slot are canonical, each block below its slot is
  -- canonical or non-canonical, no more indeterminate, and attestations are as they were.
  pub update_canonical_blocks_lem :
      (root : ℕ) (b : Block) (w : World)
      → w.aborted ≡ false
      → IsChain w.db
      → IsUnique w.db.blocks
      → ChainDb.block_by_root root w.db ≡ some b
      → (rs : List ℕ) × (n : ℕ) × (w' : World) × Ancestors
          (or_default w.db.metadata).latest_canonical_slot
          w.db
          root
          rs
          n
        × (update_canonical_blocks env root w ≡ (ok tt, w'))
        × IsUpdated b.slot rs w w'
  unfolding update_canonical_blocks get_metadata set_metadata ChainDb.set_metadata
  update_canonical_blocks_lem root b w a chain u e =
      let md = or_default w.db.metadata in
      let (rs, n, w1, path, run, m) =
        canonicalize_blocks_lem env quiet md.latest_canonical_slot root b (tick (tick w)) a chain
          e in
      let (w2, run', s) =
        update_indeterminate_blocks_lem env quiet b.slot w1 m.aborted (m.unique u) in
      let f = ChainDb.set_metadata (record md { latest_canonical_slot = b.slot }) in
      (
        rs,
        n,
        record (tick w2) { db = f w2.db },
        path,
        rw
            (
              query-quiet env quiet (λ db. or_default db.metadata) w a,
              fetch_block-stored env quiet root (tick w) a e,
              run,
              run',
            )
            (mutate-quiet env quiet f w2 s.aborted),
        record {
          metadata = refl;
          canonical = λ r h.
              canonical_after rs n b.slot (record md { latest_canonical_slot = b.slot }) w1 w2 path
                m s u r h;
          decided_below = λ r b' h lower.
              decided_after b.slot w1 w2 m s u r b' (sym (block_by_root-set_metadata r _ w2.db) ∙ h)
                lower;
          attestations = s.attestations ∙ m.attestations;
        },
      )

  -- When no call of the database fails, no transaction is aborted and the block of the root is not
  -- in the table, the update panics on the nil block if the client does not know the block either,
  -- or if it knows it and the table is empty.
  pub update_canonical_blocks_panics :
      (root : ℕ) (w : World)
      → w.aborted ≡ false
      → ChainDb.block_by_root root w.db ≡ none
      → (env.signed_block root ≡ missing)
        ⊎ ((signed : SignedBlock) × (env.signed_block root ≡ found signed)
            × (ChainDb.latest_blocks w.db ≡ []))
      → (update_canonical_blocks env root w).0 ≡ panicked
  unfolding update_canonical_blocks get_metadata
  update_canonical_blocks_panics root w a e (inl h) = rw (
    query-quiet env quiet (λ db. or_default db.metadata) w a,
    query-quiet env quiet (ChainDb.block_by_root root) (tick w) a,
    e,
    h,
  )
  update_canonical_blocks_panics root w a e (inr (signed, h, empty)) = rw (
    query-quiet env quiet (λ db. or_default db.metadata) w a,
    query-quiet env quiet (ChainDb.block_by_root root) (tick w) a,
    e,
    h,
    query-quiet env quiet ChainDb.latest_blocks (tick (tick w)) a,
    empty,
  )
