-- ===== src/Blocks/Votes/Laws.antt =====
-- services/blocks/standard/handler.go: what the attestations of a block come to.
use chaind.Common.{
  ℕ, ◌+◌, ◌≡◌, refl, sym, ap, subst, ◌∙◌, inl, inr, Option, none, some, List, [], ◌∷◌, pure,
}
use chaind.Store.{Tables, query}
use chaind.Store.Inserts.{Included, include, insert_all}
use chaind.Store.Runs.{Runs, Runs-then, query-Runs, Copies, or_else-Copies}
use chaind.ChainDb.Members.{IsIn}
use chaind.BeaconCommittees.{BeaconCommittee}
use chaind.Blocks.{ChainAttestation, Metadata, Env}
use chaind.Blocks.Votes.Known.{
  IsKnown, AreKnown, IsFor, Gives, found-IsFor, from_map-Runs, put_committees-IsIn, within-IsIn,
}
use chaind.Blocks.Rows.{Rows, Attestation}
use chaind.Blocks.Votes.{
  Committees, find_committee, within, put_committees, attestation_row, insert_attestations,
  put_attestation, beacon_committee, with_committee, db_attestation, db_attestations,
  set_attestations, update_attestations_for_block, earliest_slot,
}

module _ (env : Env) where
  -- The rows of a block's attestations: one for each, numbered, with a committee of its slot and index.
  abbrev pub Attested : ℕ → ℕ → ℕ → List ChainAttestation → List (Included Attestation) → Type 0
  Attested slot root i [] [] = Unit
  Attested slot root i [] (r ∷ rs) = ⊥
  Attested slot root i (a ∷ as') [] = ⊥
  Attested slot root i (a ∷ as') (r ∷ rs) =
      ((c : BeaconCommittee) × IsKnown env c
        × (c.slot ≡ a.attestation_data.slot)
        × (c.index ≡ a.attestation_data.index)
        × (r ≡ include slot root i (attestation_row c a)))
      × Attested slot root (i + 1) as' rs

  -- The row is one with a committee of the attestation's slot and index.
  abbrev HasRow :
      ChainAttestation
      → Attestation × Committees
      → Tables Rows Metadata
      → Tables Rows Metadata
      → Type 0
  HasRow a r x y =
      (y ≡ x)
      × AreKnown env r.1
      × ((c : BeaconCommittee) × IsFor env a.attestation_data.slot a.attestation_data.index c
          × (r.0 ≡ attestation_row c a))

  with_committee-Runs :
      (a : ChainAttestation) (r : Option BeaconCommittee × Committees) (x y : Tables Rows Metadata)
      → Gives env a.attestation_data.slot a.attestation_data.index r x y
      → Runs (HasRow a) (with_committee env a r)
  unfolding with_committee
  with_committee-Runs a (none, known) x y p = λ w. (refl, refl)
  with_committee-Runs a (some c, known) x y p =
      λ w. ((refl, p.1, (c, p.2 c refl, refl)), (refl, refl))

  db_attestation-Runs :
      (a : ChainAttestation) (known : Committees)
      → AreKnown env known
      → Runs (HasRow a) (db_attestation env a known)
  unfolding db_attestation beacon_committee
  db_attestation-Runs a known all =
      let slot = a.attestation_data.slot in
      let index = a.attestation_data.index in
      Runs-then (Gives env slot index) (λ _. HasRow a) (HasRow a) _ (with_committee env a)
        (from_map-Runs env slot index known (find_committee slot index known) all
          (found-IsFor env slot index known all))
        (with_committee-Runs a) (λ r s x y z p q. (q.0 ∙ p.0, q.1, q.2))

  db_attestations-Runs :
      (slot root i : ℕ) (as' : List ChainAttestation) (known : Committees)
      → AreKnown env known
      → Runs
          (λ rows x y. (y ≡ x) × Attested slot root i as' rows)
          (db_attestations env slot root i as' known)
  unfolding db_attestations
  db_attestations-Runs slot root i [] known all = λ w. ((refl, tt), (refl, refl))
  db_attestations-Runs slot root i (a ∷ as') known all =
      Runs-then (HasRow a)
        (λ r rows x y.
          (y ≡ x)
          × ((rs : _) × (rows ≡ include slot root i r.0 ∷ rs) × Attested slot root (i + 1) as' rs))
        (λ rows x y. (y ≡ x) × Attested slot root i (a ∷ as') rows) (db_attestation env a known) _
        (db_attestation-Runs a known all)
        (λ r x y p.
          Runs-then (λ rs x' y'. (y' ≡ x') × Attested slot root (i + 1) as' rs)
            (λ rs rows x' y'. (y' ≡ x') × (rows ≡ include slot root i r.0 ∷ rs))
            (λ rows x' y'.
              (y' ≡ x')
              × ((rs : _) × (rows ≡ include slot root i r.0 ∷ rs)
                  × Attested slot root (i + 1) as' rs))
            (db_attestations env slot root (i + 1) as' r.1)
            (λ rs. pure (include slot root i r.0 ∷ rs))
            (db_attestations-Runs slot root (i + 1) as' r.1 p.1)
            (λ rs x' y' q w. ((refl, refl), (refl, refl)))
            (λ rs rows x' y' z' q q'. (q'.0 ∙ q.0, (rs, q'.1, q.1))))
        (λ r rows x y z p (same, (rs, e, done)).
          let (c, is_for, row) = p.2 in
          (
            same ∙ p.0,
            subst (Attested slot root i (a ∷ as')) (sym e)
                ((c, is_for.0, is_for.1, is_for.2, ap (include slot root i) row), done),
          ))

  set_attestations-Runs :
      (rows : List (Included Attestation))
      → Runs (λ _ x y. Copies env.fault (insert_attestations rows) x y) (set_attestations env rows)
  unfolding set_attestations insert_all
  set_attestations-Runs rows =
      or_else-Copies env.fault (insert_attestations rows) put_attestation rows (λ db e. rw e refl)

  -- The rows of the attestations are all new ones.
  abbrev pub StoresAttestations :
      ℕ → ℕ → List ChainAttestation → Tables Rows Metadata → Tables Rows Metadata → Type 0
  StoresAttestations slot root as' x y =
      (rows : List (Included Attestation)) × Attested slot root 0 as' rows
      × Copies env.fault (insert_attestations rows) x y

  pub update_attestations_for_block-Runs :
      (slot root : ℕ) (as' : List ChainAttestation)
      → Runs
          (λ _ x y. StoresAttestations slot root as' x y)
          (update_attestations_for_block env slot root as')
  unfolding update_attestations_for_block
  update_attestations_for_block-Runs slot root as' =
      let table = env.beacon_committees in
      let f = λ (db : Tables Rows Metadata). within (earliest_slot slot) slot table in
      Runs-then (λ cs x y. (cs ≡ f x) × (y ≡ x)) (λ _ _ x y. StoresAttestations slot root as' x y)
        (λ _ x y. StoresAttestations slot root as' x y) (query env.fault f) _
        (query-Runs env.fault f)
        (λ cs x y p.
          Runs-then (λ rows x' y'. (y' ≡ x') × Attested slot root 0 as' rows)
            (λ rows _ x' y'. Copies env.fault (insert_attestations rows) x' y')
            (λ _ x' y'. StoresAttestations slot root as' x' y') _ (set_attestations env)
            (db_attestations-Runs slot root 0 as' (put_committees cs []) (λ c m.
              elim (put_committees-IsIn cs [] c m) [
                | inl k ↦ inl (within-IsIn (earliest_slot slot) slot table c (subst (IsIn c) p.0 k))
                | inr k ↦ absurd k
              ]))
            (λ rows x' y' q. set_attestations-Runs rows)
            (λ rows _ x' y' z' q q'.
              (rows, q.1, subst (λ d. Copies env.fault (insert_attestations rows) d z') q.0 q')))
        (λ cs _ x y z p q. subst (λ d. StoresAttestations slot root as' d z) p.1 q)
