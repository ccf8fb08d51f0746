-- ===== src/Finalizer/Votes.antt =====
-- services/finalizer/standard/handler.go: the update of attestations, whether the block that has one
-- is canonical, and whether its votes for a target and a head are correct.
pub mod Search
pub mod Roots
pub mod Ranges
pub mod Saved
use chaind.Common.{
  ℕ, zero, suc, ◌+◌, ◌-◌, Bool, true, false, ◌||◌, ◌&&◌, not, Option, none, some, List, [], ◌∷◌,
  if◌then◌else◌, ltb, leb, ◌==◌, Outcome, ok, err, M, pure, fail, ◌>>=◌, ◌>>◌, add64, sub64,
}
use chaind.ChainDb
use chaind.ChainDb.{Block, Attestation, Metadata, is_canonical}
use chaind.ChainTime
use chaind.Finalizer.{
  Env, World, Act, FinalizerError, indeterminate, no_canonical_block, query, mutate, block_by_root,
  get_metadata, set_metadata,
}
use chaind.Finalizer.Blocks.{allowable}

-- A Go map from numbers, the latest entry of a key first.
abbrev pub Cache : Type 0 → Type 0
Cache A = List (ℕ × A)

unfoldable pub lookup : {A : Type 0} → ℕ → Cache A → Option A
lookup k [] = none
lookup k ((j, v) ∷ m) = if j == k then some v else lookup k m

-- The root of the first canonical block among the rows of a slot.
unfoldable pub first_canonical : List Block → Option ℕ
first_canonical [] = none
first_canonical (b ∷ bs) = if is_canonical b.canonical then some b.root else first_canonical bs

module _ (env : Env) where
  pub known_canonical :
      Attestation → Cache Bool → Block → Option Bool → Act (Attestation × Cache Bool)
  known_canonical a cache b none = fail indeterminate
  known_canonical a cache b (some c) = pure (record a { canonical = some c }, (b.slot, c) ∷ cache)

  canonical_of : Attestation → Cache Bool → Option Bool → Act (Attestation × Cache Bool)
  unfolding known_canonical
  canonical_of a cache (some c) = pure (record a { canonical = some c }, cache)
  canonical_of a cache none = do
    b ← block_by_root env a.inclusion_block_root
    known_canonical a cache b b.canonical

  -- The map is keyed by slots.
  unfoldable pub update_canonical : Attestation → Cache Bool → Act (Attestation × Cache Bool)
  unfolding canonical_of
  update_canonical a cache = canonical_of a cache (lookup a.inclusion_slot cache)

  -- The loop that works backwards from a slot until it finds a canonical block.
  found_or : Option ℕ → Act (Option ℕ) → Act (Option ℕ)
  found_or (some r) rest = pure (some r)
  found_or none rest = rest

  unfoldable pub search : ℕ → Act (Option ℕ)
  unfolding found_or
  search zero = do bs ← query env (ChainDb.blocks_by_slot 0); pure (first_canonical bs)
  search (suc n) = do
    let rest = search n
    bs ← query env (ChainDb.blocks_by_slot (suc n))
    found_or (first_canonical bs) rest

  pub remember : ℕ → Cache ℕ → Option ℕ → Act (ℕ × Cache ℕ)
  remember key cache none = fail no_canonical_block
  remember key cache (some r) = pure (r, (key, r) ∷ cache)

  root_of : ℕ → ℕ → Cache ℕ → Option ℕ → Act (ℕ × Cache ℕ)
  unfolding remember
  root_of key start cache (some r) = pure (r, cache)
  root_of key start cache none = search start >>= remember key cache

  -- The root that the map has for a key, or else that of the search, which is put into the map.
  unfoldable pub cached_root : ℕ → ℕ → Cache ℕ → Act (ℕ × Cache ℕ)
  unfolding root_of
  cached_root key start cache = root_of key start cache (lookup key cache)

  unfoldable pub update_attestation_target_correct :
      Attestation → Cache ℕ → Act (Attestation × Cache ℕ)
  unfolding cached_root
  update_attestation_target_correct a cache = do
    (root, cache') ←
        cached_root a.target_epoch (ChainTime.first_slot_of_epoch env.time a.target_epoch) cache
    pure (record a { target_correct = some (a.target_root == root) }, cache')

  unfoldable pub update_attestation_head_correct :
      Attestation → Cache ℕ → Act (Attestation × Cache ℕ)
  unfolding cached_root
  update_attestation_head_correct a cache = do
    (root, cache') ← cached_root a.slot a.slot cache
    pure (record a { head_correct = some (a.beacon_block_root == root) }, cache')

  unfoldable pub update_each_attestation :
      List Attestation → Cache Bool → Cache ℕ → Cache ℕ → Act (Unit {0})
  unfolding update_canonical update_attestation_target_correct update_attestation_head_correct
  update_each_attestation [] canonicals targets heads = pure tt
  update_each_attestation (a ∷ as') canonicals targets heads = do
    (a1, canonicals') ← update_canonical a canonicals
    (a2, targets') ← update_attestation_target_correct a1 targets
    (a3, heads') ← update_attestation_head_correct a2 heads
    mutate env (ChainDb.set_attestation a3)
    update_each_attestation as' canonicals' targets' heads'

  -- The first slot that is taken for an epoch: that after the first slot of the epoch before.
  unfoldable pub from_slot : ℕ → ℕ
  from_slot epoch =
      if epoch == 0 then 0 else add64 (ChainTime.first_slot_of_epoch env.time (epoch - 1)) 1

  unfoldable pub update_attestations_in_epoch : ℕ → Act (Unit {0})
  unfolding update_each_attestation from_slot
  update_attestations_in_epoch epoch = do
    let to_slot = ChainTime.first_slot_of_epoch env.time epoch
    attestations ←
        query env (ChainDb.attestations_in_slot_range (from_slot epoch) (add64 to_slot 1))
    update_each_attestation attestations [] [] []

  -- `count` epochs from one on; the metadata are stored after each.
  unfoldable pub update_epochs : ℕ → ℕ → Metadata → Act (Unit {0})
  unfolding update_attestations_in_epoch
  update_epochs zero epoch md = pure tt
  update_epochs (suc count) epoch md = do
    update_attestations_in_epoch epoch
    let md' = record md { last_finalized_epoch = epoch }
    set_metadata env md'
    update_epochs count (add64 epoch 1) md'

  -- With the latest blocks at hand; the loop runs while `curEpoch <= epoch`.
  update_from : ℕ → Metadata → List Block → Act (Unit {0})
  unfolding update_epochs
  update_from epoch md [] = pure tt
  update_from epoch md (latest ∷ _) =
      let first_epoch = add64 md.last_finalized_epoch 1 in
      if ltb latest.slot (allowable (ChainTime.first_slot_of_epoch env.time epoch))
      then pure tt
      else update_epochs (suc epoch - first_epoch) first_epoch md

  unfoldable pub update_attestations : ℕ → Act (Unit {0})
  unfolding update_from
  update_attestations epoch = do
    md ← get_metadata env
    latest ← query env ChainDb.latest_blocks
    update_from epoch md latest
