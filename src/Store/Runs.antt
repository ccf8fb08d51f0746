-- ===== src/Store/Runs.antt =====
-- Calls in a transaction, by what they do to the tables where they succeed.
use chaind.Common.{
  ◌∙◌, ◌>>◌, ℕ, suc, ◌≡◌, refl, ◌⊎◌, Bool, true, false, ◌||◌, Option, none, some, List, [], ◌∷◌, ok,
  err, Ends, then-Post, weaken-Post, Bool-cases, inl, inr, ◌>>=◌, Option-cases,
}
use chaind.Store.{
  Tables, World, Act, Failure, database, no_transaction, is_open, statement, query, mutate,
  set_each,
}
use chaind.Store.Transactions.{
  Keeps, Keeps-trans, statement-Ends, mutate-Ends, set_each-Ends, put_each,
}
use chaind.Store.Inserts.{attempt, or_else, copy_from}

-- What every one of the writes keeps is kept.
pub put_each-keeps :
    {A B R : Type 0} (put : A → R → R) (read : R → B)
    → ((a : A) (rows : R) → read (put a rows) ≡ read rows)
    → (as' : List A) (rows : R) → read (put_each put as' rows) ≡ read rows
put_each-keeps put read h [] rows = refl
put_each-keeps put read h (a ∷ as') rows = put_each-keeps put read h as' (put a rows) ∙ h a rows

module _ {R H : Type 0} where
  -- The call neither panics nor loops; it keeps the transaction and the metadata that are held; and
  -- where it succeeds, its value and the tables before and after it are related.
  abbrev pub Runs : {A : Type 0} → (A → Tables R H → Tables R H → Type 0) → Act R H A → Type 0
  Runs Rel m = (w : World R H) → Ends (λ a v. Rel a w.db v.db × Keeps w v) (λ e v. Keeps w v) (m w)

  -- The rows are changed by a function.
  abbrev pub on_rows : (R → R) → Tables R H → Tables R H
  on_rows f db = record db { rows = f db.rows }

  pub Runs-then :
      {A B : Type 0} (P : A → Tables R H → Tables R H → Type 0)
      (Q : A → B → Tables R H → Tables R H → Type 0) (S : B → Tables R H → Tables R H → Type 0)
      (m : Act R H A) (f : A → Act R H B)
      → Runs P m
      → ((a : A) (x y : Tables R H) → P a x y → Runs (Q a) (f a))
      → ((a : A) (b : B) (x y z : Tables R H) → P a x y → Q a b y z → S b x z)
      → Runs S (m >>= f)
  Runs-then P Q S m f p q k w =
      then-Post (λ a v. P a w.db v.db × Keeps w v) (λ b v. S b w.db v.db × Keeps w v)
        (λ e v. Keeps w v) (λ v. ⊥) f (m w) (p w)
        λ a v r.
          weaken-Post (λ b u. Q a b v.db u.db × Keeps v u) (λ b u. S b w.db u.db × Keeps w u)
            (λ e u. Keeps v u) (λ e u. Keeps w u) (λ u. ⊥) (f a v) (q a w.db v.db r.0 v)
            (λ b u s. (k a b w.db v.db u.db r.0 s.0, Keeps-trans w v u r.1 s.1))
            (λ e u s. Keeps-trans w v u r.1 s)

  pub Runs-weaken :
      {A : Type 0} (P Q : A → Tables R H → Tables R H → Type 0) (m : Act R H A)
      → Runs P m
      → ((a : A) (x y : Tables R H) → P a x y → Q a x y)
      → Runs Q m
  Runs-weaken P Q m p k w =
      weaken-Post (λ a v. P a w.db v.db × Keeps w v) (λ a v. Q a w.db v.db × Keeps w v)
        (λ e v. Keeps w v) (λ e v. Keeps w v) (λ v. ⊥) (m w) (p w)
        (λ a v r. (k a w.db v.db r.0, r.1)) (λ e v r. r)

  -- One change after another.
  abbrev pub Then :
      (Tables R H → Tables R H → Type 0)
      → (Tables R H → Tables R H → Type 0)
      → Tables R H
      → Tables R H
      → Type 0
  Then P Q x z = (y : Tables R H) × P x y × Q y z

  pub Runs-Then :
      {B : Type 0} (P : Tables R H → Tables R H → Type 0) (Q : B → Tables R H → Tables R H → Type 0)
      (m : Act R H (Unit {0})) (k : Act R H B)
      → Runs (λ _. P) m
      → Runs Q k
      → Runs (λ b. Then P (Q b)) (m >> k)
  Runs-Then P Q m k p q =
      Runs-then (λ _. P) (λ _. Q) (λ b. Then P (Q b)) m (λ _. k) p (λ _ _ _ _. q)
        (λ _ b x y z r s. (y, r, s))

  module _ (fault : ℕ → Bool) where
    pub mutate-Runs :
        (f : R → R)
        → Runs
            (λ _ x y. y ≡ on_rows f x)
            (mutate fault (λ (db : Tables R H). record db { rows = f db.rows }))
    mutate-Runs f w = mutate-Ends fault (on_rows f) w

    pub query-Runs :
        {A : Type 0} (f : Tables R H → A) → Runs (λ a x y. (a ≡ f x) × (y ≡ x)) (query fault f)
    unfolding query
    query-Runs f w =
        weaken-Post (λ a v. (a ≡ f w.db) × (v.db ≡ w.db) × Keeps w v)
          (λ a v. ((a ≡ f w.db) × (v.db ≡ w.db)) × Keeps w v) (λ e v. Keeps w v) (λ e v. Keeps w v)
          (λ v. ⊥) (statement fault (λ (db : Tables R H). (f db, db)) w)
          (statement-Ends fault (λ (db : Tables R H). (f db, db)) w) (λ a v p. ((p.0, p.1), p.2))
          (λ e v p. p)

    -- A query of which the error is passed over.
    pub attempt-query-Runs :
        {A : Type 0} (f : Tables R H → A)
        → Runs (λ o x y. ((o ≡ none) ⊎ (o ≡ some (f x))) × (y ≡ x)) (attempt (query fault f))
    unfolding attempt query statement
    attempt-query-Runs f w = elim (Bool-cases (fault w.calls || w.aborted)) [
      | inl a ↦ rw a ((inl refl, refl), (refl, refl))
      | inr a ↦ rw a ((inr refl, refl), (refl, refl))
    ]

    pub set_each-Runs :
        {A : Type 0} (put : A → R → R) (as' : List A)
        → Runs (λ _ x y. y ≡ on_rows (put_each put as') x) (set_each fault put as')
    set_each-Runs put as' w = set_each-Ends fault put as' w

    -- No write succeeds.
    abbrev pub IsStuck : World R H → Type 0
    IsStuck w = (is_open w.saved ≡ false) ⊎ (w.aborted ≡ true)

    -- What a copy does to the rows, where it succeeds.
    abbrev pub Copies : (R → Option R) → Tables R H → Tables R H → Type 0
    Copies insert x y = (rows : R) × (insert x.rows ≡ some rows) × (y ≡ record x { rows = rows })

    abbrev HasFailed : World R H → Act R H (Unit {0}) → Type 0
    HasFailed w m =
        (e : Failure) × (v : World R H) × (m w ≡ (err e, v)) × (v.db ≡ w.db) × Keeps w v × IsStuck v

    pub copy_from-cases :
        (insert : R → Option R) (w : World R H)
        → ((rows : R) × (insert w.db.rows ≡ some rows)
            × (copy_from fault insert w
                ≡ (ok tt, record w { db = record w.db { rows = rows }; calls = suc w.calls })))
          ⊎ HasFailed w (copy_from fault insert)
    unfolding copy_from
    copy_from-cases insert w = elim (Bool-cases (is_open w.saved)) [
      | inr b ↦ inr (no_transaction, w, rw b refl, refl, (refl, refl), inl b)
      | inl b ↦
          let v = record w { calls = suc w.calls; aborted = true } in
          elim (Bool-cases (fault w.calls || w.aborted)) [
            | inl c ↦ inr (database, v, rw (b, c) refl, refl, (refl, refl), inr refl)
            | inr c ↦ elim (Option-cases (insert w.db.rows)) [
              | inl n ↦ inr (database, v, rw (b, c, n, b) refl, refl, (refl, refl), inr refl)
              | inr (rows, q) ↦ inl (rows, q, rw (b, c, q) refl)
            ]
          ]
    ]

    pub mutate-stuck :
        (f : Tables R H → Tables R H) (w : World R H)
        → IsStuck w
        → (e : Failure) × (v : World R H) × (mutate fault f w ≡ (err e, v))
          × (v.db ≡ w.db)
          × Keeps w v
    unfolding mutate statement
    mutate-stuck f w (inl b) = (no_transaction, w, rw b refl, refl, (refl, refl))
    mutate-stuck f w (inr a) = elim (Bool-cases (is_open w.saved)) [
      | inr b ↦ (no_transaction, w, rw b refl, refl, (refl, refl))
      | inl b ↦
          let c : (fault w.calls || w.aborted) ≡ true = elim (Bool-cases (fault w.calls)) [
            | inl d ↦ rw d refl
            | inr d ↦ rw (d, a) refl
          ] in
          (
            database,
            record w { calls = suc w.calls; aborted = is_open w.saved },
            rw (b, c) refl,
            refl,
            (refl, refl),
          )
    ]

    set_each-stuck :
        {A : Type 0} (insert : R → Option R) (put : A → R → R) (as' : List A)
        → ((rows : R) → as' ≡ [] → insert rows ≡ some rows)
        → (w v : World R H) → v.db ≡ w.db
        → Keeps w v
        → IsStuck v
        → Ends
            (λ _ u. Copies insert w.db u.db × Keeps w u)
            (λ e u. Keeps w u)
            (set_each fault put as' v)
    unfolding set_each
    set_each-stuck insert put [] h w v same keeps stuck =
        ((w.db.rows, h w.db.rows refl, same), keeps)
    set_each-stuck insert put (a ∷ as') h w v same keeps stuck =
        let (e, u, run, same', keeps') =
          mutate-stuck (λ (db : Tables R H). record db { rows = put a db.rows }) v stuck in
        rw run (Keeps-trans w v u keeps keeps')

    -- After a failed copy the same transaction is gone on with, and no write succeeds in it: the rows are
    -- there only where the copy has succeeded.
    pub or_else-Copies :
        {A : Type 0} (insert : R → Option R) (put : A → R → R) (as' : List A)
        → ((rows : R) → as' ≡ [] → insert rows ≡ some rows)
        → Runs
            (λ _ x y. Copies insert x y)
            (or_else (copy_from fault insert) (set_each fault put as'))
    unfolding or_else set_each
    or_else-Copies insert put as' h w = elim (copy_from-cases insert w) [
      | inl (rows, q, run) ↦ rw run ((rows, q, refl), (refl, refl))
      | inr (e, v, run, same, keeps, stuck) ↦
          rw run (set_each-stuck insert put as' h w v same keeps stuck)
    ]
