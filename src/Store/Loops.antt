-- ===== src/Store/Loops.antt =====
-- The loops of the services over the items of a block, and the copy behind a savepoint: what they do to
-- the rows.
use chaind.Common.{
  ℕ, ◌+◌, ◌≡◌, refl, sym, ap, ◌∙◌, ◌⊎◌, Bool, Option, none, some, List, [], ◌∷◌, Bool-cases, inl,
  inr, ◌>>◌, weaken-Post,
}
use chaind.Store.{Tables, set_each}
use chaind.Store.Transactions.{Keeps, Keeps-trans, put_each}
use chaind.Store.Inserts.{
  Included, or_else, copy_from, savepoint, roll_back, copy_or_set_each, set_converted, set_included,
  include, included, before_rows,
}
use chaind.Store.Runs.{
  Runs, Runs-then, Runs-weaken, on_rows, mutate-Runs, set_each-Runs, Copies, copy_from-cases,
}

module _ {R H : Type 0} (fault : ℕ → Bool) where
  pub roll_back-Runs : Runs {R = R} {H = H} (λ _ x y. y ≡ x) (roll_back fault)
  unfolding roll_back
  roll_back-Runs w = elim (Bool-cases (fault w.calls)) [
    | inl a ↦ rw a (refl, refl)
    | inr a ↦ rw a (refl, (refl, refl))
  ]

  -- All rows are inserted as new ones, or all are put.
  abbrev pub CopiesOrPuts :
      {A : Type 0} → (R → Option R) → (A → R → R) → List A → Tables R H → Tables R H → Type 0
  CopiesOrPuts insert put as' x y = Copies fault insert x y ⊎ (y ≡ on_rows (put_each put as') x)

  copy_recovered-Runs :
      {A : Type 0} (insert : R → Option R) (put : A → R → R) (as' : List A)
      → Runs
          (λ _ x y. CopiesOrPuts insert put as' x y)
          (or_else (copy_from fault insert) (roll_back fault >> set_each fault put as'))
  unfolding or_else
  copy_recovered-Runs insert put as' w = elim (copy_from-cases fault insert w) [
    | inl (rows, q, run) ↦ rw run (inl (rows, q, refl), (refl, refl))
    | inr (e, v, run, same, keeps, stuck) ↦ rw run (
        weaken-Post (λ _ u. (u.db ≡ on_rows (put_each put as') v.db) × Keeps v u)
          (λ _ u. CopiesOrPuts insert put as' w.db u.db × Keeps w u) (λ e u. Keeps v u)
          (λ e u. Keeps w u) (λ u. ⊥) ((roll_back fault >> set_each fault put as') v)
          (Runs-then (λ _ x y. y ≡ x) (λ _ _ x y. y ≡ on_rows (put_each put as') x)
            (λ _ x y. y ≡ on_rows (put_each put as') x) (roll_back fault)
            (λ _. set_each fault put as') roll_back-Runs (λ _ _ _ _. set_each-Runs fault put as')
            (λ a b x y z p q. q ∙ ap (on_rows (put_each put as')) p) v)
          (λ _ u p. (inr (p.0 ∙ ap (on_rows (put_each put as')) same), Keeps-trans w v u keeps p.1))
          (λ e u p. Keeps-trans w v u keeps p))
  ]

  pub copy_or_set_each-Runs :
      {A : Type 0} (insert : R → Option R) (put : A → R → R) (as' : List A)
      → Runs (λ _ x y. CopiesOrPuts insert put as' x y) (copy_or_set_each fault insert put as')
  unfolding copy_or_set_each savepoint
  copy_or_set_each-Runs insert put as' =
      Runs-then (λ _ x y. y ≡ x) (λ _ _ x y. CopiesOrPuts insert put as' x y)
        (λ _ x y. CopiesOrPuts insert put as' x y) (savepoint fault) _
        (mutate-Runs fault (λ rows. rows)) (λ _ _ _ _. copy_recovered-Runs insert put as')
        (λ a b x y z p q. rw (sym p) q)

  -- The rows for the items of a block are put, one after another.
  abbrev pub PutsIncluded :
      {A B : Type 0}
      → (A → Option B)
      → (Included B → R → R)
      → ℕ
      → ℕ
      → ℕ
      → List A
      → Tables R H
      → Tables R H
      → Type 0
  PutsIncluded {A} {B} convert put slot root i as' x y =
      (bs : List (Included B)) × (included convert slot root i as' ≡ some bs)
      × (y ≡ on_rows (put_each put bs) x)

  set_converted-Runs :
      {B : Type 0} (put : Included B → R → R) (slot root i : ℕ) (o : Option B)
      → Runs
          (λ _ x y. (b : B) × (o ≡ some b) × (y ≡ on_rows (put (include slot root i b)) x))
          (set_converted {H = H} fault put slot root i o)
  unfolding set_converted
  set_converted-Runs put slot root i none = λ w. (refl, refl)
  set_converted-Runs put slot root i (some b) =
      Runs-weaken (λ _ x y. y ≡ on_rows (put (include slot root i b)) x)
        (λ _ x y. (c : _) × (some b ≡ some c) × (y ≡ on_rows (put (include slot root i c)) x)) _
        (mutate-Runs fault (put (include slot root i b))) (λ _ x y p. (b, refl, p))

  pub set_included-Runs :
      {A B : Type 0} (convert : A → Option B) (put : Included B → R → R) (slot root i : ℕ)
      (as' : List A)
      → Runs
          (λ _ x y. PutsIncluded convert put slot root i as' x y)
          (set_included fault convert put slot root i as')
  unfolding set_included
  set_included-Runs convert put slot root i [] = λ w. (([], refl, refl), (refl, refl))
  set_included-Runs {A} {B} convert put slot root i (a ∷ as') =
      Runs-then
        (λ _ x y. (b : B) × (convert a ≡ some b) × (y ≡ on_rows (put (include slot root i b)) x))
        (λ _ _ x y. PutsIncluded convert put slot root (i + 1) as' x y)
        (λ _ x y. PutsIncluded convert put slot root i (a ∷ as') x y)
        (set_converted fault put slot root i (convert a))
        (λ _. set_included fault convert put slot root (i + 1) as')
        (set_converted-Runs put slot root i (convert a))
        (λ _ _ _ _. set_included-Runs convert put slot root (i + 1) as')
        (λ u v x y z (b, q, p) (bs, r, e). (
          include slot root i b ∷ bs,
          ap (λ o. before_rows convert slot root i o (included convert slot root (i + 1) as')) q
              ∙ ap (before_rows convert slot root i (some b)) r,
          e ∙ ap (on_rows (put_each put bs)) p,
        ))
