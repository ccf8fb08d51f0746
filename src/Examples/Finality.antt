-- ===== src/Examples/Finality.antt =====
-- services/finalizer/standard/handler.go on a chain of three blocks.
use chaind.Common.{
  ◌∙◌, ℕ, ◌<◌, ◌≡◌, refl, true, false, none, some, List, [], ◌∷◌, ok, panicked, ◌⊎◌, inl, inr,
  arith, ◌==◌, Bool-cases, some-inj, ap, sym, subst,
}
use chaind.ChainDb
use chaind.ChainDb.{Block, Attestation, Metadata, Db, find_block, upsert_block}
use chaind.ChainDb.Laws.{IsUnique, mem}
use chaind.Finalizer.{Env, World, missing, or_default}
use chaind.Finalizer.Blocks.{
  canonicalize_blocks, update_indeterminate_blocks, update_canonical_blocks,
}
use chaind.Finalizer.Blocks.Ancestry.{Ancestors, IsMarked, IsQuiet}
use chaind.Finalizer.Blocks.Canonicalize.{IsChain, canonicalize_blocks_lem}
use chaind.Finalizer.Blocks.Settle.{settled}
use chaind.Finalizer.Blocks.Children.{IsRising, by_children, update_indeterminate_blocks-children}
use chaind.Finalizer.Blocks.Update.{
  IsUpdated, update_canonical_blocks_lem, update_canonical_blocks_panics,
}
use chaind.Examples.Clock.{mainnet}

abbrev pub genesis : Block
genesis = record { slot = 0; root = 10; parent_root = 0; canonical = some true; rest = 0 }

abbrev pub first : Block
first = record { slot = 1; root = 11; parent_root = 10; canonical = none; rest = 0 }

abbrev second_block : Block
second_block = record { slot = 2; root = 12; parent_root = 11; canonical = none; rest = 0 }

abbrev pub database : Db
database = record {
  blocks = genesis ∷ first ∷ second_block ∷ [];
  attestations = [];
  metadata = none;
}

abbrev pub world : World
world = record { db = database; saved = none; aborted = false; calls = 0; notified = [] }

abbrev pub env : Env
env = record {
  time = mainnet;
  fault = λ _. false;
  finality = λ slot. some (record { epoch = slot; root = slot });
  signed_block = λ _. missing;
  on_block = λ _ db. (true, db);
}

pub quiet : IsQuiet env
quiet n = refl

database-IsUnique : IsUnique database.blocks
unfolding ChainDb.roots
database-IsUnique = (refl, (refl, (refl, tt)))

abbrev HasParent : Block → Type 0
HasParent b =
    (p : Block) × (ChainDb.block_by_root b.parent_root database ≡ some p) × (p.slot < b.slot)

stored_blocks :
    (r : ℕ) (b : Block)
    → ChainDb.block_by_root r database ≡ some b
    → (genesis ≡ b) ⊎ ((first ≡ b) ⊎ (second_block ≡ b))
unfolding ChainDb.block_by_root find_block
stored_blocks r b h = elim (Bool-cases (10 == r)) [
  | inl e ↦ inl (some-inj (rw e at h))
  | inr e ↦ elim (Bool-cases (11 == r)) [
    | inl e' ↦ inr (inl (some-inj (rw (e, e') at h)))
    | inr e' ↦ elim (Bool-cases (12 == r)) [
      | inl f ↦ inr (inr (some-inj (rw (e, e', f) at h)))
      | inr f ↦ cc (rw (e, e', f) at h)
    ]
  ]
]

database-IsChain : IsChain database
unfolding ChainDb.block_by_root find_block
database-IsChain = record {
  parent = λ r b h nz. elim (stored_blocks r b h) [
    | inl e ↦ absurd (nz (ap (λ c. c.slot) (sym e)))
    | inr (inl e) ↦ subst HasParent e (genesis, refl, omega arith)
    | inr (inr e) ↦ subst HasParent e (first, refl, omega arith)
  ];
}

canonicalize_blocks_example :
    (rs : List ℕ) × (n : ℕ) × (w' : World) × Ancestors 0 database 12 rs n
    × (canonicalize_blocks env 3 12 0 world ≡ (ok tt, w'))
    × IsMarked rs world w'
unfolding ChainDb.block_by_root find_block
canonicalize_blocks_example =
    canonicalize_blocks_lem env quiet 0 12 second_block world refl database-IsChain refl

database-IsRising : IsRising database
unfolding ChainDb.block_by_root find_block
database-IsRising b p h k = elim (stored_blocks b.root b h) [
  | inl e ↦ cc (ap (λ c. ChainDb.block_by_root c.parent_root database) e, k)
  | inr (inl e) ↦
      let q : genesis ≡ p =
        some-inj (ap (λ c. ChainDb.block_by_root c.parent_root database) e ∙ k) in
      subst (λ c. p.slot < c.slot) e (subst (λ d. d.slot < 1) q (omega arith))
  | inr (inr e) ↦
      let q : first ≡ p = some-inj (ap (λ c. ChainDb.block_by_root c.parent_root database) e ∙ k) in
      subst (λ c. p.slot < c.slot) e (subst (λ d. d.slot < 2) q (omega arith))
]

update_indeterminate_blocks_example :
    (w' : World) × (update_indeterminate_blocks env 2 world ≡ (ok tt, w'))
    × ((r : ℕ)
        → ChainDb.block_by_root r w'.db
          ≡ settled
              (mem r (ChainDb.indeterminate_blocks 0 2 database))
              (by_children r database)
              (ChainDb.block_by_root r database))
    × (w'.db.attestations ≡ [])
    × (w'.db.metadata ≡ none)
update_indeterminate_blocks_example =
    update_indeterminate_blocks-children env quiet 2 world refl database-IsUnique database-IsRising

update_canonical_blocks_example :
    (rs : List ℕ) × (n : ℕ) × (w' : World) × Ancestors
      (or_default database.metadata).latest_canonical_slot
      database
      12
      rs
      n
    × (update_canonical_blocks env 12 world ≡ (ok tt, w'))
    × IsUpdated 2 rs world w'
unfolding ChainDb.block_by_root find_block
update_canonical_blocks_example =
    update_canonical_blocks_lem env quiet 12 second_block world refl database-IsChain
      database-IsUnique refl

update_canonical_blocks_panics_example : (update_canonical_blocks env 13 world).0 ≡ panicked
unfolding ChainDb.block_by_root find_block
update_canonical_blocks_panics_example =
    update_canonical_blocks_panics env quiet 13 world refl refl (inl refl)
