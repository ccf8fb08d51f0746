-- ===== src/Validators/Handler/Update.antt =====
-- services/validators/standard/handler.go: what onEpochTransitionValidators comes to.
use chaind.Common.{
  ℕ, suc, ◌≡◌, refl, sym, ap, subst, ◌∙◌, ◌||◌, Option, none, some, List, Ends, weaken-Post,
  Bool-cases, inl, inr,
}
use chaind.Store.{Tables, World, query, set_each, statement}
use chaind.Store.Transactions.{put_each}
use chaind.Store.Runs.{put_each-keeps, on_rows, set_each-Runs}
use chaind.Catchup
use chaind.Catchup.{update_unit}
use chaind.Catchup.Progress.{IsLawful, IsDone, IsUndone, with_metadata, update_unit-Ends}
use chaind.ChainDb.Members.{IsIn}
use chaind.Validators.{Entry, Validator, Rows, Metadata, Env, outdated, put_validator}
use chaind.Validators.Handler.{set_outdated, with_validators, on_epoch_transition_validators}
use chaind.Validators.Agree.{IsMap, HasValidator, put_each-HasValidator}

module _ (env : Env) where
  -- The transaction of the function, as the work for a unit of a service.
  abbrev unit : List Entry → List Validator → Catchup.Service Rows Metadata
  unit es dbs = record {
    fault = env.fault;
    latest = λ md. md.latest_epoch;
    advance = λ epoch md. record md { latest_epoch = epoch };
    update = λ epoch. set_each env.fault put_validator (outdated dbs es);
  }

  abbrev Puts :
      List Entry → List Validator → ℕ → Tables Rows Metadata → Tables Rows Metadata → Type 0
  Puts es dbs epoch x y = y ≡ on_rows (put_each put_validator (outdated dbs es)) x

  unit-IsLawful : (es : List Entry) (dbs : List Validator) → IsLawful (unit es dbs) (Puts es dbs)
  unit-IsLawful es dbs = record {
    update_ends = λ epoch. set_each-Runs env.fault put_validator (outdated dbs es);
  }

  -- The table has the client's validators, and the epoch is stored.
  abbrev pub AreUpdated : ℕ → World Rows Metadata → World Rows Metadata → Type 0
  AreUpdated epoch w v =
      (es : List Entry) × (env.head ≡ some es)
      × ((v.db.metadata ≡ some (record w.held { latest_epoch = epoch }))
          × (v.held ≡ record w.held { latest_epoch = epoch })
          × (v.saved ≡ none)
          × (v.db.rows.balances ≡ w.db.rows.balances)
          × (IsMap es → (e : Entry) → IsIn e es → HasValidator v.db.rows e))

  abbrev pub AreUntouched : World Rows Metadata → World Rows Metadata → Type 0
  AreUntouched w v = (v.db ≡ w.db) × (v.saved ≡ none)

  IsDone-AreUpdated :
      (epoch : ℕ) (es : List Entry) (w v : World Rows Metadata)
      → env.head ≡ some es
      → IsDone
          (unit es w.db.rows.validators)
          (Puts es w.db.rows.validators)
          (unit-IsLawful es w.db.rows.validators)
          epoch
          w
          v
      → AreUpdated epoch w v
  IsDone-AreUpdated epoch es w v h (db, puts, stored, closed, held) =
      let dbs = w.db.rows.validators in
      let f = put_each put_validator (outdated dbs es) in
      let h' : Metadata = record w.held { latest_epoch = epoch } in
      let whole : v.db ≡ with_metadata h' (on_rows f w.db) = stored ∙ ap (with_metadata h') puts in
      (
        es,
        h,
        (
          ap (λ (d : Tables Rows Metadata). d.metadata) stored,
          held,
          closed,
          ap (λ (d : Tables Rows Metadata). d.rows.balances) whole
              ∙ put_each-keeps put_validator (λ r. r.balances) (λ a r. refl) (outdated dbs es)
                  w.db.rows,
          λ distinct e m.
              subst (λ (d : Tables Rows Metadata). HasValidator d.rows e) (sym whole)
                (put_each-HasValidator dbs es w.db.rows distinct (λ g k. refl) e m),
        ),
      )

  with_validators-Ends :
      (epoch : ℕ) (o : Option (List Entry)) (w : World Rows Metadata)
      → env.head ≡ o
      → w.saved ≡ none
      → Ends (λ _ v. AreUpdated epoch w v) (λ e v. AreUntouched w v) (with_validators env epoch o w)
  unfolding with_validators set_outdated query statement update_unit
  with_validators-Ends epoch none w h closed = (refl, closed)
  with_validators-Ends epoch (some es) w h closed =
      elim (Bool-cases (env.fault w.calls || w.aborted)) [
        | inl a ↦ rw a (refl, closed)
        | inr a ↦
            let dbs = w.db.rows.validators in
            let w' = record w { calls = suc w.calls } in
            rw a (
              weaken-Post
                (λ _ v. IsDone (unit es dbs) (Puts es dbs) (unit-IsLawful es dbs) epoch w' v)
                (λ _ v. AreUpdated epoch w v)
                (λ e v. IsUndone (unit es dbs) (Puts es dbs) (unit-IsLawful es dbs) epoch w' v)
                (λ e v. AreUntouched w v) (λ v. ⊥) (set_outdated env epoch es dbs w')
                (update_unit-Ends (unit es dbs) (Puts es dbs) (unit-IsLawful es dbs) epoch w'
                  closed)
                (λ _ v p. IsDone-AreUpdated epoch es w v h p) (λ e v p. p.0))
      ]

  -- From outside any transaction, the update of validators neither panics nor loops. Where it succeeds,
  -- the epoch is stored in the metadata, no balance has changed, and the table has each validator of the
  -- client's answer for the head with all that the client says of it, if the answer has each index once.
  -- Where it fails, the tables are as they were.
  pub on_epoch_transition_validators-AreUpdated :
      (epoch : ℕ) (w : World Rows Metadata)
      → w.saved ≡ none
      → Ends
          (λ _ v. AreUpdated epoch w v)
          (λ e v. AreUntouched w v)
          (on_epoch_transition_validators env epoch w)
  unfolding on_epoch_transition_validators
  on_epoch_transition_validators-AreUpdated epoch w closed =
      with_validators-Ends epoch env.head w refl closed
