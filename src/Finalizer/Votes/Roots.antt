-- ===== src/Finalizer/Votes/Roots.antt =====
-- What services/finalizer/standard/handler.go makes of an attestation's votes and its inclusion.
use chaind.Common.{
  ℕ, ◌≡◌, refl, sym, subst, ◌∙◌, ap, Bool, false, Option, none, some, [], ◌∷◌, Outcome, ok, err,
  Option-cases, Bool-cases, inl, inr, ◌⊎◌, some-inj, if◌then◌else◌, ◌==◌, ==→eq, eq→==,
}
use chaind.ChainDb
use chaind.ChainDb.{Db, Block, Attestation}
use chaind.ChainTime
use chaind.Finalizer.{Env, World, FinalizerError, no_canonical_block}
use chaind.Finalizer.Votes.{
  Cache, lookup, cached_root, remember, known_canonical, update_canonical,
  update_attestation_target_correct, update_attestation_head_correct,
}
use chaind.Finalizer.Blocks.Ancestry.{IsQuiet, tick}
use chaind.Finalizer.Blocks.Settle.{block_by_root-quiet}
use chaind.Finalizer.Votes.Search.{IsLatest, Nowhere, Finds, search_lem}

-- A map holds, for each key, the root that a search from the key's slot finds.
abbrev pub IsCoherent : (ℕ → ℕ) → Cache ℕ → Db → Type 0
IsCoherent start cache db = (key r : ℕ) → lookup key cache ≡ some r → IsLatest (start key) r db

-- The outcomes of looking a root up: the latest one, or the error where there is none.
abbrev pub Resolves : (ℕ → ℕ) → ℕ → World → Outcome FinalizerError (ℕ × Cache ℕ) × World → Type 0
Resolves start key w (ok (r, cache), w') =
    IsLatest (start key) r w.db
    × IsCoherent start cache w.db
    × (w'.db ≡ w.db)
    × (w'.aborted ≡ false)
Resolves start key w (err e, w') =
    Nowhere (start key) w.db × (e ≡ no_canonical_block) × (w'.db ≡ w.db)
Resolves start key w (Outcome.panicked, w') = ⊥
Resolves start key w (Outcome.looping, w') = ⊥

lookup-cons :
    (k j r : ℕ) (m : Cache ℕ) → lookup k ((j, r) ∷ m) ≡ (if j == k then some r else lookup k m)
unfolding lookup
lookup-cons k j r m = refl

IsCoherent-cons :
    (start : ℕ → ℕ) (key r : ℕ) (cache : Cache ℕ) (db : Db)
    → IsLatest (start key) r db
    → IsCoherent start cache db
    → IsCoherent start ((key, r) ∷ cache) db
IsCoherent-cons start key r cache db h c k s e = elim (Bool-cases (key == k)) [
  | inl q ↦
      let same : r ≡ s = some-inj (sym (lookup-cons k key r cache ∙ rw q) ∙ e) in
      subst (λ x. IsLatest (start x) s db) (==→eq key k q)
        (subst (λ y. IsLatest (start key) y db) same h)
  | inr q ↦ c k s (sym (lookup-cons k key r cache ∙ rw q) ∙ e)
]

module _ (env : Env) (quiet : IsQuiet env) where
  remember-Resolves :
      (start : ℕ → ℕ) (key : ℕ) (cache : Cache ℕ) (w w' : World) (o : Option ℕ)
      → IsCoherent start cache w.db
      → Finds (start key) o w.db
      → w'.db ≡ w.db
      → w'.aborted ≡ false
      → Resolves start key w (remember env key cache o w')
  unfolding remember
  remember-Resolves start key cache w w' none c f same a = (f, refl, same)
  remember-Resolves start key cache w w' (some r) c f same a =
      (f, IsCoherent-cons start key r cache w.db f c, same, a)

  cached_root-Resolves :
      (start : ℕ → ℕ) (key : ℕ) (cache : Cache ℕ) (w : World)
      → w.aborted ≡ false
      → IsCoherent start cache w.db
      → Resolves start key w (cached_root env key (start key) cache w)
  unfolding cached_root
  cached_root-Resolves start key cache w a c = elim (Option-cases (lookup key cache)) [
    | inr (r, e) ↦ rw e (c key r e, c, refl, a)
    | inl e ↦
        let (o, w', run, f, same, a') = search_lem env quiet (start key) w a in
        rw (e, run) (remember-Resolves start key cache w w' o c f same a')
  ]

Resolves-cases :
    (start : ℕ → ℕ) (key : ℕ) (w : World) (x : Outcome FinalizerError (ℕ × Cache ℕ) × World)
    → Resolves start key w x
    → ((r : ℕ) × (cache : Cache ℕ) × (w' : World) × (x ≡ (ok (r, cache), w'))
        × IsLatest (start key) r w.db
        × IsCoherent start cache w.db
        × (w'.db ≡ w.db))
      ⊎ ((w' : World) × (x ≡ (err no_canonical_block, w'))
          × Nowhere (start key) w.db
          × (w'.db ≡ w.db))
Resolves-cases start key w (ok (r, cache), w') h = inl (r, cache, w', refl, h.0, h.1, h.2)
Resolves-cases start key w (err e, w') h = inr (w', ap (λ d. (err d, w')) h.1, h.0, h.2)
Resolves-cases start key w (Outcome.panicked, w') h = absurd h
Resolves-cases start key w (Outcome.looping, w') h = absurd h

-- A vote is judged against the latest canonical root, or refused where there is none; in both cases
-- no row changes.
abbrev pub Judges :
    (ℕ → ℕ)
    → ℕ
    → World
    → (ℕ → Attestation)
    → Outcome FinalizerError (Attestation × Cache ℕ) × World
    → Type 0
Judges start key w judged x =
    ((r : ℕ) × (cache : Cache ℕ) × (w' : World) × (x ≡ (ok (judged r, cache), w'))
      × IsLatest (start key) r w.db
      × IsCoherent start cache w.db
      × (w'.db ≡ w.db))
    ⊎ ((w' : World) × (x ≡ (err no_canonical_block, w'))
        × Nowhere (start key) w.db
        × (w'.db ≡ w.db))

module _ (env : Env) (quiet : IsQuiet env) where
  -- When no call of the database fails, no transaction is aborted and the map holds latest
  -- canonical roots, a head vote is correct exactly if it is for the root of the canonical block
  -- at the highest slot up to the attestation's; where no canonical block is there, the update is
  -- refused. The map stays right.
  pub update_attestation_head_correct_lem :
      (a : Attestation) (cache : Cache ℕ) (w : World)
      → w.aborted ≡ false
      → IsCoherent (λ slot. slot) cache w.db
      → Judges
          (λ slot. slot)
          a.slot
          w
          (λ r. record a { head_correct = some (a.beacon_block_root == r) })
          (update_attestation_head_correct env a cache w)
  unfolding update_attestation_head_correct
  update_attestation_head_correct_lem a cache w ab c =
      elim (Resolves-cases (λ slot. slot) a.slot w _
        (cached_root-Resolves env quiet (λ slot. slot) a.slot cache w ab c)) [
          | inl (r, cache', w', e, l, c', same) ↦ inl (r, cache', w', rw e, l, c', same)
          | inr (w', e, n, same) ↦ inr (w', rw e, n, same)
        ]

  -- When no call of the database fails, no transaction is aborted and the map holds latest
  -- canonical roots of epochs, a target vote is correct exactly if it is for the root of the
  -- canonical block at the highest slot up to the first one of the target epoch; where no
  -- canonical block is there, the update is refused. The map stays right, and no row changes.
  pub update_attestation_target_correct_lem :
      (a : Attestation) (cache : Cache ℕ) (w : World)
      → w.aborted ≡ false
      → IsCoherent (ChainTime.first_slot_of_epoch env.time) cache w.db
      → Judges
          (ChainTime.first_slot_of_epoch env.time)
          a.target_epoch
          w
          (λ r. record a { target_correct = some (a.target_root == r) })
          (update_attestation_target_correct env a cache w)
  unfolding update_attestation_target_correct
  update_attestation_target_correct_lem a cache w ab c =
      elim (Resolves-cases (ChainTime.first_slot_of_epoch env.time) a.target_epoch w _ (
        cached_root-Resolves env quiet (ChainTime.first_slot_of_epoch env.time) a.target_epoch cache
          w ab c)) [
            | inl (r, cache', w', e, l, c', same) ↦ inl (r, cache', w', rw e, l, c', same)
            | inr (w', e, n, same) ↦ inr (w', rw e, n, same)
          ]

  -- The map of canonical states is keyed by slots. When no call of the database fails and no
  -- transaction is aborted: once an attestation has been updated from its block, which is at its
  -- inclusion slot and decided, an attestation of the same inclusion slot is given the state of
  -- that block, and the block that it is in is not read.
  pub update_canonical-same_slot :
      (a b : Attestation) (block : Block) (c : Bool) (w w' : World)
      → w.aborted ≡ false
      → ChainDb.block_by_root a.inclusion_block_root w.db ≡ some block
      → block.slot ≡ a.inclusion_slot
      → block.canonical ≡ some c
      → b.inclusion_slot ≡ a.inclusion_slot
      → (cache : Cache Bool) × (update_canonical env a [] w
          ≡ (ok (record a { canonical = some c }, cache), tick w))
        × (update_canonical env b cache w' ≡ (ok (record b { canonical = some c }, cache), w'))
  unfolding update_canonical lookup
  update_canonical-same_slot a b block c w w' ab e s k same = (
    (block.slot, c) ∷ [],
    rw (block_by_root-quiet env quiet a.inclusion_block_root w ab e)
        (ap (λ o. known_canonical env a [] block o (tick w)) k),
    rw (eq→== _ _ (s ∙ sym same)),
  )
