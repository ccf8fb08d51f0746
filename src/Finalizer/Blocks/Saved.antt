-- ===== src/Finalizer/Blocks/Saved.antt =====
-- services/finalizer/standard/handler.go: updateCanonicalBlocks and the transaction under way.
use chaind.Common.{
  ℕ, zero, suc, ◌≡◌, refl, Bool, true, false, Option, none, some, List, [], ◌∷◌, pure, ◌>>=◌, ltb,
  ◌==◌,
}
use chaind.ChainDb
use chaind.ChainDb.{Block, Metadata, is_canonical}
use chaind.Finalizer.{
  Env, Act, SignedBlock, Fetched, found, missing, failing, query, statement, block_by_root,
  get_metadata,
}
use chaind.Finalizer.Keeps.{
  Keeps, bind-Keeps, if-Keeps, statement-Keeps, query-Keeps, block_by_root-Keeps,
  get_metadata-Keeps, set_metadata-Keeps, set_block-Keeps,
}
use chaind.Finalizer.Blocks.{
  deref, fetch_block, fetch_missing, fetch_from_chain, store_fetched, store_and_fetch, store_block,
  stored, slot_of, mark, reached, canonicalize_round, canonicalize_blocks,
  update_indeterminate_block, update_each, update_indeterminate_blocks, update_canonical_blocks,
  some_block, allowable,
}

deref-Keeps : (o : Option Block) → Keeps (deref o)
unfolding deref
deref-Keeps none w = refl
deref-Keeps (some a) w = refl

stored-Keeps : (b : Bool) → Keeps (stored b)
unfolding stored
stored-Keeps true w = refl
stored-Keeps false w = refl

option-Keeps : (s : Option ℕ) (signed : SignedBlock) → signed.slot ≡ s → Keeps (slot_of signed)
unfolding slot_of
option-Keeps none signed e = rw e (λ w. refl)
option-Keeps (some slot) signed e = rw e (λ w. refl)

module _ (env : Env) where
  store_block-Keeps : (signed : SignedBlock) → Keeps (store_block env signed)
  unfolding store_block
  store_block-Keeps signed =
      bind-Keeps (statement env (env.on_block signed)) stored (statement-Keeps env _) stored-Keeps

  store_and_fetch-Keeps :
      (root : ℕ) (signed : SignedBlock) (latest : Block)
      → Keeps (store_and_fetch env root signed latest)
  unfolding store_and_fetch
  store_and_fetch-Keeps root signed latest =
      bind-Keeps (slot_of signed) _ (option-Keeps signed.slot signed refl) λ slot.
        if-Keeps (ltb latest.slot (allowable slot)) (pure none) _ (λ w. refl)
          (bind-Keeps (store_block env signed) _ (store_block-Keeps signed) λ _.
            bind-Keeps (block_by_root env root) some_block (block_by_root-Keeps env root)
              (λ b w. refl))

  store_fetched-Keeps :
      (root : ℕ) (signed : SignedBlock) (latest : List Block)
      → Keeps (store_fetched env root signed latest)
  unfolding store_fetched
  store_fetched-Keeps root signed [] = λ w. refl
  store_fetched-Keeps root signed (b ∷ _) = store_and_fetch-Keeps root signed b

  fetch_from_chain-Keeps : (root : ℕ) (f : Fetched) → Keeps (fetch_from_chain env root f)
  unfolding fetch_from_chain
  fetch_from_chain-Keeps root missing = λ w. refl
  fetch_from_chain-Keeps root failing = λ w. refl
  fetch_from_chain-Keeps root (found signed) =
      bind-Keeps (query env ChainDb.latest_blocks) _ (query-Keeps env _)
        (store_fetched-Keeps root signed)

  fetch_missing-Keeps : (root : ℕ) (o : Option Block) → Keeps (fetch_missing env root o)
  unfolding fetch_missing
  fetch_missing-Keeps root none = fetch_from_chain-Keeps root (env.signed_block root)
  fetch_missing-Keeps root (some b) = λ w. refl

  fetch_block-Keeps : (root : ℕ) → Keeps (fetch_block env root)
  unfolding fetch_block
  fetch_block-Keeps root =
      bind-Keeps (query env (ChainDb.block_by_root root)) _ (query-Keeps env _)
        (fetch_missing-Keeps root)

  mark-Keeps : (b : Block) → Keeps (mark env b)
  unfolding mark
  mark-Keeps b = if-Keeps (is_canonical b.canonical) (pure tt) _ (λ w. refl) (set_block-Keeps env _)

  canonicalize_round-Keeps :
      (limit : ℕ) (b : Block) (next : Act (Unit {0}))
      → Keeps next
      → Keeps (canonicalize_round env limit b next)
  unfolding canonicalize_round
  canonicalize_round-Keeps limit b next k =
      if-Keeps (reached limit b) (pure tt) _ (λ w. refl)
        (bind-Keeps (mark env b) _ (mark-Keeps b)
          λ _. if-Keeps (b.slot == 0) (pure tt) next (λ w. refl) k)

  canonicalize_blocks-Keeps :
      (fuel root limit : ℕ) → Keeps (canonicalize_blocks env fuel root limit)
  unfolding canonicalize_blocks
  canonicalize_blocks-Keeps zero root limit = λ w. refl
  canonicalize_blocks-Keeps (suc fuel) root limit =
      bind-Keeps (fetch_block env root >>= deref) _
        (bind-Keeps (fetch_block env root) deref (fetch_block-Keeps root) deref-Keeps)
        λ b. canonicalize_round-Keeps limit b _ (canonicalize_blocks-Keeps fuel b.parent_root limit)

  update_each-Keeps : (roots : List ℕ) → Keeps (update_each env roots)
  unfolding update_each
  update_each-Keeps [] = λ w. refl
  update_each-Keeps (root ∷ roots) =
      bind-Keeps (update_indeterminate_block env root) _
        (bind-Keeps (block_by_root env root) _ (block_by_root-Keeps env root) λ b.
          bind-Keeps (query env (ChainDb.blocks_by_parent_root root)) _ (query-Keeps env _)
            λ c. set_block-Keeps env _)
        λ _. update_each-Keeps roots

  update_indeterminate_blocks-Keeps : (slot : ℕ) → Keeps (update_indeterminate_blocks env slot)
  unfolding update_indeterminate_blocks
  update_indeterminate_blocks-Keeps slot =
      bind-Keeps (query env (ChainDb.indeterminate_blocks 0 slot)) _ (query-Keeps env _)
        update_each-Keeps

  pub update_canonical_blocks-Keeps : (root : ℕ) → Keeps (update_canonical_blocks env root)
  unfolding update_canonical_blocks
  update_canonical_blocks-Keeps root =
      bind-Keeps (get_metadata env) _ (get_metadata-Keeps env) λ md.
        bind-Keeps (fetch_block env root) _ (fetch_block-Keeps root) λ fetched.
          bind-Keeps (deref fetched) _ (deref-Keeps fetched) λ b.
            bind-Keeps (canonicalize_blocks env (suc b.slot) root md.latest_canonical_slot) _
              (canonicalize_blocks-Keeps (suc b.slot) root md.latest_canonical_slot)
              λ _.
                bind-Keeps (update_indeterminate_blocks env b.slot) _
                  (update_indeterminate_blocks-Keeps b.slot) λ _. set_metadata-Keeps env _
