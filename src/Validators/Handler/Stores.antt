-- ===== src/Validators/Handler/Stores.antt =====
-- services/validators/standard/handler.go: the balances of an epoch, which may be there already.
use chaind.Common.{
  ℕ, suc, ◌≡◌, ◌⊎◌, inl, inr, refl, ap, true, false, Option, none, some, List, [], ◌∷◌, All, map,
  ok,
}
use chaind.Store.{Tables, World, begin_tx, cancel_tx}
use chaind.Store.Transactions.{put_each, or_cancel-ok}
use chaind.Store.Inserts.{or_else, copy_from}
use chaind.Store.Runs.{copy_from-cases}
use chaind.Store.Quiet.{IsSound}
use chaind.Validators.{
  Entry, Validator, ValidatorBalance, Rows, Metadata, Env, is_known, put_balance, upsert_balance,
  insert_balances, balance_row,
}
use chaind.Validators.Handler.{store_balances, put_balances, cancel_call}

module _ (env : Env) (quiet : (n : ℕ) → env.fault n ≡ false) where
  -- The rows are inserted as new ones, or put in place of those that were there.
  abbrev pub Stored : List ValidatorBalance → Rows → Rows → Type 0
  Stored bs rows rows' =
      (insert_balances bs rows ≡ some rows') ⊎ (rows' ≡ put_each upsert_balance bs rows)

  -- A statement that the table takes.
  copy_from-eq :
      (insert : Rows → Option Rows) (rows : Rows) (b : Tables Rows Metadata)
      (w : World Rows Metadata)
      → w.saved ≡ some b
      → w.aborted ≡ false
      → insert w.db.rows ≡ some rows
      → copy_from env.fault insert w
        ≡ (ok tt, record w { db = record w.db { rows = rows }; calls = suc w.calls })
  unfolding copy_from
  copy_from-eq insert rows b w s a e = rw (s, quiet w.calls, a, e) refl

  put_balances-ok :
      (bs : List ValidatorBalance) (b : Tables Rows Metadata) (h : Metadata)
      (w : World Rows Metadata)
      → IsSound b h w
      → All (λ (x : ValidatorBalance). is_known x.index w.db.rows.validators ≡ true) bs
      → (v : World Rows Metadata) × (put_balances env bs w ≡ (ok tt, v))
        × IsSound b h v
        × (v.db ≡ record w.db { rows = put_each upsert_balance bs w.db.rows })
  unfolding put_balances
  put_balances-ok [] b h w sound known = (w, refl, sound, refl)
  put_balances-ok (x ∷ bs) b h w (s, a, k) known =
      let f = λ (db : Tables Rows Metadata). record db { rows = upsert_balance x db.rows } in
      let (v, run, sound, rows) =
        put_balances-ok bs b h (record w { db = f w.db; calls = suc w.calls }) (s, a, k) known.1 in
      (
        v,
        rw (copy_from-eq (put_balance x) (upsert_balance x w.db.rows) b w s a (rw known.0 refl))
            run,
        sound,
        rows,
      )

  store_balances-ok :
      (bs : List ValidatorBalance) (w : World Rows Metadata)
      → IsSound w.db w.held w
      → All (λ (x : ValidatorBalance). is_known x.index w.db.rows.validators ≡ true) bs
      → (v : World Rows Metadata) × (store_balances env bs w ≡ (ok tt, v))
        × IsSound w.db w.held v
        × Stored bs w.db.rows v.db.rows
        × (v.db.metadata ≡ w.db.metadata)
  unfolding store_balances or_else cancel_call cancel_tx begin_tx
  store_balances-ok bs w (s, a, k) known = elim (copy_from-cases env.fault (insert_balances bs) w) [
    | inl (rows, e, run) ↦ (
      record w { db = record w.db { rows = rows }; calls = suc w.calls },
      rw run refl,
      (s, a, refl),
      inl e,
      refl,
    )
    | inr (e, u, run, same, keeps, stuck) ↦
        let u' = record u { db = w.db; saved = some w.db; aborted = false; calls = suc u.calls } in
        let (v, done, sound, rows) =
          put_balances-ok bs w.db w.held u' (refl, refl, keeps.1) known in
        let whole = or_cancel-ok (put_balances env bs) tt u' v done in
        (
          v,
          rw (run, keeps.0, s, quiet u.calls) whole,
          sound,
          inr (ap (λ (d : Tables Rows Metadata). d.rows) rows),
          ap (λ (d : Tables Rows Metadata). d.metadata) rows,
        )
  ]

  -- The epoch's balances are stored, with its number.
  abbrev pub HasStored : ℕ → List Entry → World Rows Metadata → World Rows Metadata → Type 0
  HasStored epoch es w v =
      Stored (map (balance_row epoch) es) w.db.rows v.db.rows
      × (v.db.metadata ≡ some (record w.held { latest_balances_epoch = epoch }))
      × (v.held ≡ record w.held { latest_balances_epoch = epoch })
      × (v.saved ≡ none)

  -- The validators of all the entries are in the table.
  abbrev pub AreKnown : List Entry → List Validator → Type 0
  AreKnown es vs = All (λ (e : Entry). is_known e.index vs ≡ true) es
