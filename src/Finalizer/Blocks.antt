-- ===== src/Finalizer/Blocks.antt =====
-- services/finalizer/standard/handler.go: fetchBlock, and the marking of blocks as canonical.
pub mod Ancestry
pub mod Canonicalize
pub mod Settle
pub mod Children
pub mod Update
pub mod Saved
use chaind.Common.{
  ℕ, zero, suc, ◌-◌, Bool, true, false, ◌||◌, ◌&&◌, not, Option, none, some, List, [], ◌∷◌,
  if◌then◌else◌, ltb, ◌==◌, Outcome, ok, err, looping, M, pure, fail, crash, ◌>>=◌, ◌>>◌,
}
use chaind.ChainDb
use chaind.ChainDb.{Block, Metadata, is_canonical}
use chaind.Finalizer.{
  Env, World, Act, SignedBlock, Fetched, found, missing, failing, FinalizerError, client, no_slot,
  storing, query, mutate, row, block_by_root, set_block, get_metadata, set_metadata, statement,
}

-- A slot less 1024, or 0.
abbrev pub allowable : ℕ → ℕ
allowable slot = if ltb slot 1024 then 0 else slot - 1024

-- A pointer to a block is followed: nil panics.
unfoldable pub deref : Option Block → Act Block
deref none = crash
deref (some b) = pure b

abbrev some_block : Block → Act (Option Block)
some_block b = pure (some b)

slot_of : SignedBlock → Act ℕ
slot_of signed = elim signed.slot [ none ↦ fail no_slot | some slot ↦ pure slot ]

-- The result of OnBlock: an error leaves the rows that it wrote to the transaction.
stored : Bool → Act (Unit {0})
stored true = pure tt
stored false = fail storing

-- Whether the loop of canonicalizeBlocks ends at a block; the limit 0 is none.
pub reached : ℕ → Block → Bool
reached limit b = not (limit == 0) && b.slot == limit

pub has_canonical : List Block → Bool
has_canonical [] = false
has_canonical (b ∷ bs) = is_canonical b.canonical || has_canonical bs

module _ (env : Env) where
  store_block : SignedBlock → Act (Unit {0})
  unfolding stored
  store_block signed = do done ← statement env (env.on_block signed); stored done

  -- Only a block that the blocks service may have reached is stored, and read again.
  store_and_fetch : ℕ → SignedBlock → Block → Act (Option Block)
  unfolding store_block slot_of
  store_and_fetch root signed latest = do
    slot ← slot_of signed
    if ltb latest.slot (allowable slot)
        then pure none
        else (store_block signed >> (block_by_root env root >>= some_block))

  store_fetched : ℕ → SignedBlock → List Block → Act (Option Block)
  unfolding store_and_fetch
  store_fetched root signed [] = pure none
  store_fetched root signed (latest ∷ _) = store_and_fetch root signed latest

  fetch_from_chain : ℕ → Fetched → Act (Option Block)
  unfolding store_fetched
  fetch_from_chain root missing = pure none
  fetch_from_chain root failing = fail client
  fetch_from_chain root (found signed) = do
    latest ← query env ChainDb.latest_blocks
    store_fetched root signed latest

  fetch_missing : ℕ → Option Block → Act (Option Block)
  unfolding fetch_from_chain
  fetch_missing root none = fetch_from_chain root (env.signed_block root)
  fetch_missing root (some b) = pure (some b)

  -- fetchBlock: `ok none` is a nil block with no error.
  unfoldable pub fetch_block : ℕ → Act (Option Block)
  unfolding fetch_missing
  fetch_block root = do
    in_database ← query env (ChainDb.block_by_root root)
    fetch_missing root in_database

  -- Marks a block that is indeterminate or non-canonical.
  pub mark : Block → Act (Unit {0})
  mark b =
      if is_canonical b.canonical
      then pure tt
      else set_block env (record b { canonical = some true })

  -- A round of the loop: `next` is its next round, from the parent.
  pub canonicalize_round : ℕ → Block → Act (Unit {0}) → Act (Unit {0})
  unfolding mark reached
  canonicalize_round limit b next =
      if reached limit b then pure tt else (mark b >> (if b.slot == 0 then pure tt else next))

  unfoldable pub canonicalize_blocks : ℕ → ℕ → ℕ → Act (Unit {0})
  unfolding canonicalize_round deref fetch_block
  canonicalize_blocks zero root limit = λ w. (looping, w)
  canonicalize_blocks (suc fuel) root limit = fetch_block root >>= deref >>= λ b.
      canonicalize_round limit b (canonicalize_blocks fuel b.parent_root limit)

  unfoldable pub update_indeterminate_block : ℕ → Act (Unit {0})
  unfolding has_canonical
  update_indeterminate_block root = do
    b ← block_by_root env root
    children ← query env (ChainDb.blocks_by_parent_root root)
    set_block env (record b { canonical = some (has_canonical children) })

  unfoldable pub update_each : List ℕ → Act (Unit {0})
  unfolding update_indeterminate_block
  update_each [] = pure tt
  update_each (root ∷ roots) = update_indeterminate_block root >> update_each roots

  unfoldable pub update_indeterminate_blocks : ℕ → Act (Unit {0})
  unfolding update_each
  update_indeterminate_blocks slot = do
    roots ← query env (ChainDb.indeterminate_blocks 0 slot)
    update_each roots

  -- The fuel is one round for each slot down to that of the genesis block.
  unfoldable pub update_canonical_blocks : ℕ → Act (Unit {0})
  unfolding canonicalize_blocks update_indeterminate_blocks
  update_canonical_blocks root = do
    md ← get_metadata env
    fetched ← fetch_block root
    b ← deref fetched
    canonicalize_blocks (suc b.slot) root md.latest_canonical_slot
    update_indeterminate_blocks b.slot
    set_metadata env (record md { latest_canonical_slot = b.slot })
