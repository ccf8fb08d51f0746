-- ===== src/ProposerDuties/Missed.antt =====
-- services/proposerduties/standard/service.go: what handleMissed makes of the missed epochs.
use chaind.Common.{
  ℕ, suc, append_assoc, ◌⊎◌, subst, ◌+◌, ◌≡◌, refl, sym, ap, ◌∙◌, false, none, some, List, [], ◌∷◌,
  ◌++◌, length, length-append, get_elem?, ok, Option-cases, inl, inr,
}
use chaind.Store.{
  Tables, World, hold, ignored, cancel_tx, begin_tx, commit_tx, set_metadata, set_each, set_answer,
}
use chaind.Store.Transactions.{put_each, mutate-eq, commit_tx-eq, or_cancel-ok}
use chaind.ProposerDuties.{
  ProposerDuty, Metadata, Rows, Env, set_proposer_duty, without, update_proposer_duties_for_epoch,
  store_missed, after_update, round_at, handle_missed_from, handle_missed,
}
use chaind.ProposerDuties.Refused.{
  refused, with_duties, get_elem?-append, get_elem?-end, without-middle, refused-none, refused-some,
  with_duties-none, with_duties-some,
}
use chaind.ProposerDuties.Duties.{duty_at, last_duty, answered, duty_at-with_duties}

module _ (env : Env) (quiet : (n : ℕ) → env.fault n ≡ false) where
  abbrev IsGood : Tables Rows Metadata → World Rows Metadata → World Rows Metadata → Type 0
  IsGood db w v = (v.db ≡ db) × (v.saved ≡ w.saved) × (v.aborted ≡ false) × (v.held ≡ w.held)

  set_each-quiet :
      (ds : List ProposerDuty) (w : World Rows Metadata) (b : Tables Rows Metadata)
      → w.saved ≡ some b
      → w.aborted ≡ false
      → (v : World Rows Metadata) × (set_each env.fault set_proposer_duty ds w ≡ (ok tt, v))
        × IsGood (record w.db { rows = put_each set_proposer_duty ds w.db.rows }) w v
  unfolding set_each
  set_each-quiet [] w b s a = (w, refl, (refl, refl, a, refl))
  set_each-quiet (d ∷ ds) w b s a =
      let f = λ (db : Tables Rows Metadata). record db { rows = set_proposer_duty d db.rows } in
      let (v, run, good) =
        set_each-quiet ds (record w { db = f w.db; calls = suc w.calls }) b s a in
      (v, rw (mutate-eq env.fault f b w (quiet w.calls) s a) run, good)

  store_missed-quiet :
      (failed i : ℕ) (w : World Rows Metadata) (b : Tables Rows Metadata)
      → w.saved ≡ some b
      → w.aborted ≡ false
      → let h = record w.held { missed_epochs = without failed i w.held.missed_epochs } in
        (v : World Rows Metadata) × (store_missed env failed i w ≡ (ok tt, v))
        × (v.db ≡ record w.db { metadata = some h })
        × (v.saved ≡ none)
        × (v.held ≡ h)
  unfolding store_missed hold set_metadata
  store_missed-quiet failed i w b s a =
      let h = record w.held { missed_epochs = without failed i w.held.missed_epochs } in
      let f = λ (db : Tables Rows Metadata). record db { metadata = some h } in
      let u = record w { held = h } in
      let x = record u { db = f w.db; calls = suc w.calls } in
      let y = record x { saved = none; calls = suc (suc w.calls) } in
      (
        y,
        rw
            (
              or_cancel-ok (set_metadata env.fault) tt u x
                  (mutate-eq env.fault f b u (quiet u.calls) s a),
              or_cancel-ok (commit_tx env.fault) tt x y
                  (commit_tx-eq env.fault b x (quiet x.calls) s a),
            )
            refl,
        refl,
        refl,
        refl,
      )

  begin_tx-quiet :
      (w : World Rows Metadata)
      → begin_tx env.fault w
        ≡ (ok tt, record w { saved = some w.db; aborted = false; calls = suc w.calls })
  unfolding begin_tx
  begin_tx-quiet w = rw (quiet w.calls) refl

  -- A round for an epoch that the client refuses: it stays in the list, behind the earlier ones.
  handle_missed_from-refused :
      (fuel : ℕ) (failed : List ℕ) (epoch : ℕ) (later : List ℕ) (w : World Rows Metadata)
      → w.held.missed_epochs ≡ failed ++ epoch ∷ later
      → env.duties epoch ≡ none
      → handle_missed_from env (suc fuel) (length failed) (length failed) w
        ≡ handle_missed_from env fuel
            (length failed + 1)
            (length failed + 1)
            (record w { saved = none; aborted = false; calls = suc w.calls })
  unfolding handle_missed_from round_at after_update update_proposer_duties_for_epoch set_answer
      cancel_tx
  handle_missed_from-refused fuel failed epoch later w e q =
      let here : get_elem? w.held.missed_epochs (length failed) ≡ some epoch =
        ap (λ l. get_elem? l (length failed)) e ∙ get_elem?-append failed epoch later in
      rw (here, begin_tx-quiet w, q) refl

  -- A round for an epoch that the client answers for: it is taken out of the list, which is stored.
  handle_missed_from-set :
      (fuel : ℕ) (failed : List ℕ) (epoch : ℕ) (later : List ℕ) (w : World Rows Metadata)
      (ds : List ProposerDuty)
      → w.held.missed_epochs ≡ failed ++ epoch ∷ later
      → env.duties epoch ≡ some ds
      → (u : World Rows Metadata) × (handle_missed_from env
            (suc fuel)
            (length failed)
            (length failed)
            w
          ≡ handle_missed_from env fuel (length failed) (length failed) u)
        × (u.db.rows ≡ put_each set_proposer_duty ds w.db.rows)
        × (u.db.metadata ≡ some u.held)
        × (u.saved ≡ none)
        × (u.held ≡ record w.held { missed_epochs = failed ++ later })
  unfolding handle_missed_from round_at after_update update_proposer_duties_for_epoch set_answer
  handle_missed_from-set fuel failed epoch later w ds e q =
      let b = record w { saved = some w.db; aborted = false; calls = suc w.calls } in
      let (v, run, (db, s, a, held)) = set_each-quiet ds b w.db refl refl in
      let (u, stored, db', closed, held') =
        store_missed-quiet (length failed) (length failed) v w.db s a in
      let here : get_elem? w.held.missed_epochs (length failed) ≡ some epoch =
        ap (λ l. get_elem? l (length failed)) e ∙ get_elem?-append failed epoch later in
      let list : without (length failed) (length failed) v.held.missed_epochs ≡ failed ++ later =
        rw (held, e) (without-middle failed epoch later) in
      let new : u.held ≡ record w.held { missed_epochs = failed ++ later } =
        held'
        ∙ ap (λ (l : List ℕ). record v.held { missed_epochs = l }) list
        ∙ ap (λ (h : Metadata). record h { missed_epochs = failed ++ later }) held in
      (
        u,
        rw (here, begin_tx-quiet w, q, run, stored) refl,
        ap (λ (d : Tables Rows Metadata). d.rows)
            (db'
              ∙ ap
                  (λ (d : Tables Rows Metadata). record d {
                    metadata = some (record v.held {
                      missed_epochs = without (length failed) (length failed) v.held.missed_epochs;
                    });
                  })
                  db),
        ap (λ (d : Tables Rows Metadata). d.metadata) db'
            ∙ ap (λ (h : Metadata). some h) (sym held'),
        closed,
        new,
      )

  abbrev pub HasHandled : List ℕ → List ℕ → World Rows Metadata → World Rows Metadata → Type 0
  HasHandled failed later w v =
      (v.held ≡ record w.held { missed_epochs = failed ++ refused env later })
      × (v.db.rows ≡ with_duties env later w.db.rows)
      × (v.saved ≡ none)
      × (((v.db.metadata ≡ w.db.metadata) × (v.held ≡ w.held)) ⊎ (v.db.metadata ≡ some v.held))

  handle_missed_from-HasHandled :
      (later failed : List ℕ) (w : World Rows Metadata)
      → w.saved ≡ none
      → w.held.missed_epochs ≡ failed ++ later
      → (v : World Rows Metadata) × (handle_missed_from env
            (suc (length later))
            (length failed)
            (length failed)
            w
          ≡ (ok tt, v))
        × HasHandled failed later w v
  unfolding handle_missed_from round_at
  handle_missed_from-HasHandled [] failed w e list =
      let here : get_elem? w.held.missed_epochs (length failed) ≡ none =
        ap (λ l. get_elem? l (length failed)) list ∙ get_elem?-end failed in
      (
        w,
        rw here refl,
        (ap (λ (l : List ℕ). record w.held { missed_epochs = l }) list, refl, e, inl (refl, refl)),
      )
  handle_missed_from-HasHandled (epoch ∷ later) failed w e list =
      elim (Option-cases (env.duties epoch)) [
        | inl q ↦
            let w' = record w { saved = none; aborted = false; calls = suc w.calls } in
            let next : (v : World Rows Metadata) × (handle_missed_from env (suc (length later))
                    (length (failed ++ epoch ∷ [])) (length (failed ++ epoch ∷ [])) w'
                  ≡ (ok tt, v))
                × HasHandled (failed ++ epoch ∷ []) later w' v =
              handle_missed_from-HasHandled later (failed ++ epoch ∷ []) w' refl
                (list ∙ sym (append_assoc failed (epoch ∷ []) later)) in
            let (v, run, (held, rows, closed, stored)) = next in
            (
              v,
              handle_missed_from-refused (suc (length later)) failed epoch later w list q
                  ∙ subst (λ n. handle_missed_from env (suc (length later)) n n w' ≡ (ok tt, v))
                      (length-append failed (epoch ∷ [])) run,
              (
                held
                    ∙ ap (λ (l : List ℕ). record w.held { missed_epochs = l })
                        (append_assoc failed (epoch ∷ []) (refused env later)
                          ∙ ap (λ l. failed ++ l) (sym (refused-none env epoch later q))),
                rows ∙ with_duties-none env epoch later w.db.rows q,
                closed,
                stored,
              ),
            )
        | inr (ds, q) ↦
            let (u, round, rows', stored', closed', held') =
              handle_missed_from-set (suc (length later)) failed epoch later w ds list q in
            let next : (v : World Rows Metadata) × (handle_missed_from env (suc (length later))
                    (length failed) (length failed) u
                  ≡ (ok tt, v))
                × HasHandled failed later u v =
              handle_missed_from-HasHandled later failed u closed'
                (ap (λ (h : Metadata). h.missed_epochs) held') in
            let (v, run, (held, rows, closed, stored)) = next in
            (
              v,
              round ∙ run,
              (
                held
                    ∙ ap
                        (λ (h : Metadata). record h { missed_epochs = failed ++ refused env later })
                        held'
                    ∙ ap (λ l. record w.held { missed_epochs = failed ++ l })
                        (sym (refused-some env epoch later ds q)),
                rows
                    ∙ ap (with_duties env later) rows'
                    ∙ with_duties-some env epoch later ds w.db.rows q,
                closed,
                inr (elim stored [
                  | inr p ↦ p
                  | inl p ↦ p.0 ∙ stored' ∙ ap (λ (h : Metadata). some h) (sym p.1)
                ]),
              ),
            )
      ]

  -- From outside any transaction, with none of the calls of the database failing, handling the missed
  -- epochs ends without an error or a panic. The missed epochs that are held are then those that the
  -- client still refuses, in their order, and the rows have the duties of all the other ones: the
  -- duty of each slot is the last one for it among theirs, and the earlier one where there is none.
  -- The metadata of the tables are those held, unless every epoch was refused and the metadata have
  -- not changed; no transaction is left open.
  pub handle_missed-HasHandled :
      (w : World Rows Metadata)
      → w.saved ≡ none
      → (v : World Rows Metadata) × (handle_missed env w ≡ (ok tt, v))
        × HasHandled [] w.held.missed_epochs w v
        × ((slot : ℕ)
            → duty_at slot v.db.rows
              ≡ last_duty slot (answered env w.held.missed_epochs) (duty_at slot w.db.rows))
  unfolding handle_missed ignored
  handle_missed-HasHandled w e =
      let (v, run, handled) = handle_missed_from-HasHandled w.held.missed_epochs [] w e refl in
      (
        v,
        rw run refl,
        handled,
        λ slot.
            ap (duty_at slot) handled.1
            ∙ duty_at-with_duties env slot w.held.missed_epochs w.db.rows,
      )
