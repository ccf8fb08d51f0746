-- ===== src/Store/Transactions.antt =====
-- How the calls of a transaction (services/chaindb/postgresql/tx.go) end.
use chaind.Common.{
  ℕ, suc, ◌≡◌, refl, ap, ◌∙◌, Bool, true, false, ◌||◌, Option, none, some, List, [], ◌∷◌, Outcome,
  ok, err, panicked, looping, Ends, then-Post, weaken-Post, Bool-cases, inl, inr,
}
use chaind.Store.{
  Tables, World, Act, Failure, is_open, cancel_tx, cancelled, or_cancel, statement, mutate,
  begin_tx, commit_tx, set_each, set_answer,
}

-- What a sequence of writes makes of rows.
abbrev pub put_each : {A R : Type 0} → (A → R → R) → List A → R → R
put_each put [] rows = rows
put_each put (a ∷ as') rows = put_each put as' (put a rows)

module _ {R H : Type 0} where
  -- Within a transaction that was begun with some rows, while some metadata are held.
  abbrev pub IsWithin : Tables R H → H → World R H → Type 0
  IsWithin before h w = (w.saved ≡ some before) × (w.held ≡ h)

  -- What a call in a transaction keeps, whether or not it fails.
  abbrev pub Keeps : World R H → World R H → Type 0
  Keeps w v = (v.saved ≡ w.saved) × (v.held ≡ w.held)

  pub Keeps-trans : (w v u : World R H) → Keeps w v → Keeps v u → Keeps w u
  Keeps-trans w v u p q = (q.0 ∙ p.0, q.1 ∙ p.1)

  -- Outside a transaction, with the rows that were there.
  abbrev pub IsRestored : Tables R H → World R H → Type 0
  IsRestored before w = (w.db ≡ before) × (w.saved ≡ none)

  cancelled-Ends :
      {A : Type 0} (good : A → World R H → Type 0) (before : Tables R H) (h : H)
      (r : Outcome Failure A × World R H)
      → Ends good (λ e v. IsWithin before h v) r
      → Ends good (λ e v. IsRestored before v × (v.held ≡ h)) (cancelled r.0 r.1)
  unfolding cancelled cancel_tx
  cancelled-Ends good before h (ok a, v) p = p
  cancelled-Ends good before h (err e, v) p = ((rw p.0 refl, refl), p.1)
  cancelled-Ends good before h (panicked, v) p = p
  cancelled-Ends good before h (looping, v) p = p

  pub or_cancel-Ends :
      {A : Type 0} (good : A → World R H → Type 0) (before : Tables R H) (h : H) (m : Act R H A)
      (w : World R H)
      → Ends good (λ e v. IsWithin before h v) (m w)
      → Ends good (λ e v. IsRestored before v × (v.held ≡ h)) (or_cancel m w)
  unfolding or_cancel
  or_cancel-Ends good before h m w p = cancelled-Ends good before h (m w) p

  pub or_cancel-ok :
      {A : Type 0} (m : Act R H A) (a : A) (w v : World R H)
      → m w ≡ (ok a, v)
      → or_cancel m w ≡ (ok a, v)
  unfolding or_cancel cancelled
  or_cancel-ok m a w v e = rw e refl

  module _ (fault : ℕ → Bool) where
    pub begin_tx-Ends :
        (w : World R H)
        → w.saved ≡ none
        → Ends
            (λ _ v. IsWithin w.db w.held v × (v.db ≡ w.db))
            (λ e v. IsRestored w.db v × (v.held ≡ w.held))
            (begin_tx fault w)
    unfolding begin_tx
    begin_tx-Ends w e = elim (Bool-cases (fault w.calls)) [
      | inl a ↦ rw a ((refl, e), refl)
      | inr a ↦ rw a ((refl, refl), refl)
    ]

    pub statement-Ends :
        {A : Type 0} (f : Tables R H → A × Tables R H) (w : World R H)
        → Ends
            (λ a v. (a ≡ (f w.db).0) × (v.db ≡ (f w.db).1) × Keeps w v)
            (λ e v. Keeps w v)
            (statement fault f w)
    unfolding statement
    statement-Ends f w = elim (Bool-cases (fault w.calls || w.aborted)) [
      | inl a ↦ rw a (refl, refl)
      | inr a ↦ rw a (refl, refl, (refl, refl))
    ]

    pub mutate-Ends :
        (f : Tables R H → Tables R H) (w : World R H)
        → Ends (λ _ v. (v.db ≡ f w.db) × Keeps w v) (λ e v. Keeps w v) (mutate fault f w)
    unfolding mutate
    mutate-Ends f w = elim (Bool-cases (is_open w.saved)) [
      | inr a ↦ rw a (refl, refl)
      | inl a ↦ elim (Bool-cases (fault w.calls || w.aborted)) [
        | inl b ↦ rw (a, b) (refl, refl)
        | inr b ↦ rw (a, b) (refl, (refl, refl))
      ]
    ]

    pub commit_tx-Ends :
        (before : Tables R H) (h : H) (w : World R H)
        → IsWithin before h w
        → Ends
            (λ _ v. (v.db ≡ w.db) × (v.saved ≡ none) × (v.held ≡ h))
            (λ e v. IsRestored before v × (v.held ≡ h))
            (or_cancel (commit_tx fault) w)
    unfolding commit_tx or_cancel cancelled cancel_tx
    commit_tx-Ends before h w (s, k) = elim (Bool-cases (fault w.calls || w.aborted)) [
      | inl a ↦ rw (s, a) ((refl, refl), k)
      | inr a ↦ rw (s, a) (refl, refl, k)
    ]

    pub set_each-Ends :
        {A : Type 0} (put : A → R → R) (as' : List A) (w : World R H)
        → Ends
            (λ _ v. (v.db ≡ record w.db { rows = put_each put as' w.db.rows }) × Keeps w v)
            (λ e v. Keeps w v)
            (set_each fault put as' w)
    unfolding set_each
    set_each-Ends put [] w = (refl, (refl, refl))
    set_each-Ends put (a ∷ as') w =
        let f = λ (db : Tables R H). record db { rows = put a db.rows } in
        then-Post (λ _ v. (v.db ≡ f w.db) × Keeps w v)
          (λ _ v. (v.db ≡ record w.db { rows = put_each put (a ∷ as') w.db.rows }) × Keeps w v)
          (λ e v. Keeps w v) (λ v. ⊥) (λ _. set_each fault put as') (mutate fault f w)
          (mutate-Ends f w)
          λ _ v p.
            weaken-Post
              (λ _ u. (u.db ≡ record v.db { rows = put_each put as' v.db.rows }) × Keeps v u)
              (λ _ u. (u.db ≡ record w.db { rows = put_each put (a ∷ as') w.db.rows }) × Keeps w u)
              (λ e u. Keeps v u) (λ e u. Keeps w u) (λ u. ⊥) (set_each fault put as' v)
              (set_each-Ends put as' v)
              (λ _ u q. (
                q.0 ∙ ap (λ (d : Tables R H). record d { rows = put_each put as' d.rows }) p.0,
                Keeps-trans w v u p.1 q.1,
              ))
              (λ e u q. Keeps-trans w v u p.1 q)

    -- What the writes for an answer of the client come to.
    abbrev pub WritesAnswer :
        {A : Type 0} → (A → R → R) → Option (List A) → Tables R H → Tables R H → Type 0
    WritesAnswer {A} put o db db' =
        (as' : List A) × (o ≡ some as') × (db' ≡ record db { rows = put_each put as' db.rows })

    pub set_answer-Ends :
        {A : Type 0} (put : A → R → R) (o : Option (List A)) (w : World R H)
        → Ends
            (λ _ v. WritesAnswer put o w.db v.db × Keeps w v)
            (λ e v. Keeps w v)
            (set_answer fault put o w)
    unfolding set_answer
    set_answer-Ends put none w = (refl, refl)
    set_answer-Ends put (some as') w =
        weaken-Post (λ _ v. (v.db ≡ record w.db { rows = put_each put as' w.db.rows }) × Keeps w v)
          (λ _ v. WritesAnswer put (some as') w.db v.db × Keeps w v) (λ e v. Keeps w v)
          (λ e v. Keeps w v) (λ v. ⊥) (set_each fault put as' w) (set_each-Ends put as' w)
          (λ _ v p. ((as', refl, p.0), p.1)) (λ e v p. p)

    -- The calls in a transaction, where the next call of the database does not fail.
    pub mutate-eq :
        (f : Tables R H → Tables R H) (b : Tables R H) (w : World R H)
        → fault w.calls ≡ false
        → w.saved ≡ some b
        → w.aborted ≡ false
        → mutate fault f w ≡ (ok tt, record w { db = f w.db; calls = suc w.calls })
    unfolding mutate statement
    mutate-eq f b w q s a =
        let opened : is_open w.saved ≡ true = rw s refl in
        let works : (fault w.calls || w.aborted) ≡ false = rw (q, a) refl in rw (opened, works) refl

    pub commit_tx-eq :
        (b : Tables R H) (w : World R H)
        → fault w.calls ≡ false
        → w.saved ≡ some b
        → w.aborted ≡ false
        → commit_tx fault w ≡ (ok tt, record w { saved = none; calls = suc w.calls })
    unfolding commit_tx
    commit_tx-eq b w q s a =
        let opened : is_open w.saved ≡ true = rw s refl in
        let works : (fault w.calls || w.aborted) ≡ false = rw (q, a) refl in rw (opened, works) refl
