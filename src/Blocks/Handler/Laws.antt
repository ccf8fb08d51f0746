-- ===== src/Blocks/Handler/Laws.antt =====
-- services/blocks/standard/handler.go: the rows that OnBlock writes.
use chaind.Common.{
  arith, ℕ, ◌+◌, ◌≡◌, refl, sym, ap, ◌∙◌, Option, none, some, List, [], ◌∷◌, some-inj,
}
use chaind.Store.{Tables}
use chaind.Store.Transactions.{put_each}
use chaind.Store.Inserts.{Included, included, before_rows, set_included, insert_all, same_inclusion}
use chaind.Store.Runs.{Runs, Runs-weaken, Runs-Then, Then, on_rows}
use chaind.Store.Loops.{PutsIncluded, set_included-Runs}
use chaind.Blocks.{Body, Metadata, Env}
use chaind.Blocks.Rows.{Rows, Attestation, ProposerSlashing}
use chaind.Blocks.Convert.{number_rows}
use chaind.Blocks.Operations.{
  db_proposer_slashing, db_attester_slashing, db_deposit, db_voluntary_exit,
}
use chaind.Blocks.Votes.{insert_attestations}
use chaind.Blocks.Votes.Laws.{Attested, StoresAttestations, update_attestations_for_block-Runs}
use chaind.Blocks.Handler.{
  put_proposer_slashing, put_attester_slashing, put_deposit, put_voluntary_exit, on_block_phase0,
}

included-number_rows :
    {A B : Type 0} (f : A → B) (slot root i : ℕ) (as' : List A)
    → included (λ a. some (f a)) slot root i as' ≡ some (number_rows f slot root i as')
unfolding number_rows
included-number_rows f slot root i [] = refl
included-number_rows f slot root i (a ∷ as') =
    ap (before_rows (λ a. some (f a)) slot root i (some (f a)))
      (included-number_rows f slot root (i + 1) as')

-- The rows with a block's operations: the attestations are given as a whole.
abbrev pub with_operations :
    ℕ → ℕ → Body → List (Included Attestation) → List (Included ProposerSlashing) → Rows → Rows
with_operations slot root body as' ps rows =
    put_each put_voluntary_exit (number_rows db_voluntary_exit slot root 0 body.voluntary_exits) (
      put_each put_deposit (number_rows db_deposit slot root 0 body.deposits) (
        put_each put_attester_slashing
          (number_rows db_attester_slashing slot root 0 body.attester_slashings)
          (put_each put_proposer_slashing ps (record rows { attestations = as' }))))

module _ (env : Env) where
  -- A block's operations are in the tables: its attestations, as new rows; its slashings, deposits and
  -- voluntary exits, numbered in their order.
  abbrev pub StoresOperations : ℕ → ℕ → Body → Tables Rows Metadata → Tables Rows Metadata → Type 0
  StoresOperations slot root body x y =
      (rows : List (Included Attestation)) × Attested env slot root 0 body.attestations rows
      × ((as' : List (Included Attestation)) × (insert_all same_inclusion rows x.rows.attestations
            ≡ some as')
          × ((ps : List (Included ProposerSlashing)) × (included (db_proposer_slashing env) slot
                  root 0 body.proposer_slashings
                ≡ some ps)
              × (y ≡ on_rows (with_operations slot root body as' ps) x)))

  insert_attestations-some :
      (rs : List (Included Attestation)) (rows rows' : Rows)
      → insert_attestations rs rows ≡ some rows'
      → (as' : List (Included Attestation)) × (insert_all same_inclusion rs rows.attestations
          ≡ some as')
        × (rows' ≡ record rows { attestations = as' })
  insert_attestations-some rs rows rows' e =
      of_option (insert_all same_inclusion rs rows.attestations) refl e
    where
      of_option :
          (o : Option (List (Included Attestation)))
          → insert_all same_inclusion rs rows.attestations ≡ o
          → elim o [ none ↦ none | some xs ↦ some (record rows { attestations = xs }) ] ≡ some rows'
          → (as' : List (Included Attestation)) × (insert_all same_inclusion rs rows.attestations
              ≡ some as')
            × (rows' ≡ record rows { attestations = as' })
      of_option none q e = ground arith
      of_option (some xs) q e = (xs, q, sym (some-inj e))

  numbered-Runs :
      {A B : Type 0} (f : A → B) (put : Included B → Rows → Rows) (slot root : ℕ) (as' : List A)
      → Runs
          (λ _ x y. y ≡ on_rows (put_each put (number_rows f slot root 0 as')) x)
          (set_included {H = Metadata} env.fault (λ a. some (f a)) put slot root 0 as')
  numbered-Runs f put slot root as' =
      Runs-weaken (λ _. PutsIncluded env.fault (λ a. some (f a)) put slot root 0 as')
        (λ _ x y. y ≡ on_rows (put_each put (number_rows f slot root 0 as')) x) _
        (set_included-Runs env.fault (λ a. some (f a)) put slot root 0 as')
        (λ _ x y (bs, e, q).
          q
          ∙ ap (λ rs. on_rows (put_each put rs) x)
              (some-inj (sym e ∙ included-number_rows f slot root 0 as')))

  abbrev Puts :
      {B : Type 0}
      → (B → Rows → Rows)
      → List B
      → Tables Rows Metadata
      → Tables Rows Metadata
      → Type 0
  Puts put bs x y = y ≡ on_rows (put_each put bs) x

  -- The steps of OnBlock that are common to the forks.
  abbrev InSteps : ℕ → ℕ → Body → Tables Rows Metadata → Tables Rows Metadata → Type 0
  InSteps slot root body =
      Then
        (Then
          (Then
            (Then (StoresAttestations env slot root body.attestations) (
              PutsIncluded env.fault (db_proposer_slashing env) put_proposer_slashing slot root 0
                body.proposer_slashings))
            (Puts put_attester_slashing
              (number_rows db_attester_slashing slot root 0 body.attester_slashings)))
          (Puts put_deposit (number_rows db_deposit slot root 0 body.deposits)))
        (Puts put_voluntary_exit (number_rows db_voluntary_exit slot root 0 body.voluntary_exits))

  InSteps-StoresOperations :
      (slot root : ℕ) (body : Body) (x y : Tables Rows Metadata)
      → InSteps slot root body x y
      → StoresOperations slot root body x y
  InSteps-StoresOperations slot root body x y
        (x4, (x3, (x2, (x1, (rs, attested, (rows, e, q1)), (ps, f, q2)), q3), q4), q5) =
      let (as', g, h) = insert_attestations-some rs x.rows rows e in
      let q : x1 ≡ on_rows (λ r. record r { attestations = as' }) x =
        q1 ∙ ap (λ r. record x { rows = r }) h in
      (
        rs,
        attested,
        (
          as',
          g,
          (
            ps,
            f,
            q5
                ∙ ap
                    (on_rows (
                      put_each put_voluntary_exit
                        (number_rows db_voluntary_exit slot root 0 body.voluntary_exits)))
                    (q4
                      ∙ ap
                          (on_rows (
                            put_each put_deposit
                              (number_rows db_deposit slot root 0 body.deposits)))
                          (q3
                            ∙ ap
                                (on_rows (
                                  put_each put_attester_slashing (
                                    number_rows db_attester_slashing slot root 0
                                      body.attester_slashings)))
                                (q2 ∙ ap (on_rows (put_each put_proposer_slashing ps)) q))),
          ),
        ),
      )

  pub on_block_phase0-Runs :
      (slot root : ℕ) (body : Body)
      → Runs (λ _. StoresOperations slot root body) (on_block_phase0 env slot root body)
  unfolding on_block_phase0
  on_block_phase0-Runs slot root body =
      let exits =
        numbered-Runs db_voluntary_exit put_voluntary_exit slot root body.voluntary_exits in
      let deposits = numbered-Runs db_deposit put_deposit slot root body.deposits in
      let attesters =
        numbered-Runs db_attester_slashing put_attester_slashing slot root
          body.attester_slashings in
      let proposers =
        set_included-Runs env.fault (db_proposer_slashing env) put_proposer_slashing slot root 0
          body.proposer_slashings in
      let votes = update_attestations_for_block-Runs env slot root body.attestations in
      Runs-weaken (λ _. InSteps slot root body) (λ _. StoresOperations slot root body)
        (on_block_phase0 env slot root body)
        (Runs-Then _ _ _ _
          (Runs-Then _ _ _ _ (Runs-Then _ _ _ _ (Runs-Then _ _ _ _ votes proposers) attesters)
            deposits)
          exits)
        (λ _. InSteps-StoresOperations slot root body)
