-- ===== src/Finalizer/Votes/Saved.antt =====
-- services/finalizer/standard/handler.go: updateAttestations and the transaction under way.
use chaind.Common.{ℕ, zero, suc, refl, Bool, Option, none, some, List, [], ◌∷◌, pure, ltb, add64}
use chaind.ChainDb
use chaind.ChainDb.{Block, Attestation, Metadata}
use chaind.ChainTime
use chaind.Finalizer.{Env, Act, query, mutate, block_by_root, get_metadata, set_metadata}
use chaind.Finalizer.Blocks.{allowable}
use chaind.Finalizer.Keeps.{
  Keeps, bind-Keeps, if-Keeps, query-Keeps, mutate-Keeps, block_by_root-Keeps, get_metadata-Keeps,
  set_metadata-Keeps,
}
use chaind.Finalizer.Votes.{
  Cache, lookup, first_canonical, known_canonical, canonical_of, update_canonical, found_or, search,
  remember, root_of, cached_root, update_attestation_target_correct,
  update_attestation_head_correct, update_each_attestation, update_attestations_in_epoch,
  update_epochs, update_from, update_attestations,
}

module _ (env : Env) where
  known_canonical-Keeps :
      (a : Attestation) (cache : Cache Bool) (b : Block) (o : Option Bool)
      → Keeps (known_canonical env a cache b o)
  unfolding known_canonical
  known_canonical-Keeps a cache b none w = refl
  known_canonical-Keeps a cache b (some c) w = refl

  canonical_of-Keeps :
      (a : Attestation) (cache : Cache Bool) (o : Option Bool) → Keeps (canonical_of env a cache o)
  unfolding canonical_of
  canonical_of-Keeps a cache (some c) = λ w. refl
  canonical_of-Keeps a cache none =
      bind-Keeps (block_by_root env a.inclusion_block_root) _ (block_by_root-Keeps env _)
        λ b. known_canonical-Keeps a cache b b.canonical

  found_or-Keeps : (o : Option ℕ) (m : Act (Option ℕ)) → Keeps m → Keeps (found_or env o m)
  unfolding found_or
  found_or-Keeps none m k = k
  found_or-Keeps (some r) m k = λ w. refl

  search-Keeps : (slot : ℕ) → Keeps (search env slot)
  unfolding search
  search-Keeps zero =
      bind-Keeps (query env (ChainDb.blocks_by_slot 0)) _ (query-Keeps env _) (λ b w. refl)
  search-Keeps (suc slot) =
      bind-Keeps (query env (ChainDb.blocks_by_slot (suc slot))) _ (query-Keeps env _)
        λ bs. found_or-Keeps (first_canonical bs) (search env slot) (search-Keeps slot)

  remember-Keeps : (key : ℕ) (cache : Cache ℕ) (o : Option ℕ) → Keeps (remember env key cache o)
  unfolding remember
  remember-Keeps key cache none w = refl
  remember-Keeps key cache (some r) w = refl

  root_of-Keeps :
      (key start : ℕ) (cache : Cache ℕ) (o : Option ℕ) → Keeps (root_of env key start cache o)
  unfolding root_of
  root_of-Keeps key start cache (some r) = λ w. refl
  root_of-Keeps key start cache none =
      bind-Keeps (search env start) _ (search-Keeps start) (remember-Keeps key cache)

  target-Keeps :
      (a : Attestation) (cache : Cache ℕ) → Keeps (update_attestation_target_correct env a cache)
  unfolding update_attestation_target_correct
  target-Keeps a cache =
      bind-Keeps (cached_root env a.target_epoch _ cache) _
        (root_of-Keeps a.target_epoch _ cache (lookup a.target_epoch cache)) (λ r w. refl)

  head-Keeps :
      (a : Attestation) (cache : Cache ℕ) → Keeps (update_attestation_head_correct env a cache)
  unfolding update_attestation_head_correct
  head-Keeps a cache =
      bind-Keeps (cached_root env a.slot a.slot cache) _
        (root_of-Keeps a.slot a.slot cache (lookup a.slot cache)) (λ r w. refl)

  each-Keeps :
      (as' : List Attestation) (canonicals : Cache Bool) (targets heads : Cache ℕ)
      → Keeps (update_each_attestation env as' canonicals targets heads)
  unfolding update_each_attestation
  each-Keeps [] canonicals targets heads = λ w. refl
  each-Keeps (a ∷ as') canonicals targets heads =
      bind-Keeps (update_canonical env a canonicals) _
        (canonical_of-Keeps a canonicals (lookup a.inclusion_slot canonicals))
        λ r1.
          bind-Keeps (update_attestation_target_correct env r1.0 targets) _
            (target-Keeps r1.0 targets)
            λ r2.
              bind-Keeps (update_attestation_head_correct env r2.0 heads) _ (head-Keeps r2.0 heads)
                λ r3.
                  bind-Keeps (mutate env (ChainDb.set_attestation r3.0)) _ (mutate-Keeps env _)
                    λ _. each-Keeps as' r1.1 r2.1 r3.1

  epochs-Keeps : (count epoch : ℕ) (md : Metadata) → Keeps (update_epochs env count epoch md)
  unfolding update_epochs
  epochs-Keeps zero epoch md = λ w. refl
  epochs-Keeps (suc count) epoch md =
      bind-Keeps (update_attestations_in_epoch env epoch) _
        (bind-Keeps (query env _) _ (query-Keeps env _) (λ as'. each-Keeps as' [] [] []))
        λ _.
          bind-Keeps (set_metadata env _) _ (set_metadata-Keeps env _)
            λ _. epochs-Keeps count (add64 epoch 1) _

  from-Keeps : (epoch : ℕ) (md : Metadata) (bs : List Block) → Keeps (update_from env epoch md bs)
  unfolding update_from
  from-Keeps epoch md [] = λ w. refl
  from-Keeps epoch md (latest ∷ _) =
      if-Keeps (ltb latest.slot (allowable (ChainTime.first_slot_of_epoch env.time epoch)))
        (pure tt) _ (λ w. refl) (epochs-Keeps _ _ md)

  pub update_attestations-Keeps : (epoch : ℕ) → Keeps (update_attestations env epoch)
  unfolding update_attestations
  update_attestations-Keeps epoch =
      bind-Keeps (get_metadata env) _ (get_metadata-Keeps env) λ md.
        bind-Keeps (query env ChainDb.latest_blocks) _ (query-Keeps env _) (from-Keeps epoch md)
