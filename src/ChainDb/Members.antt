-- ===== src/ChainDb/Members.antt =====
-- Which rows the statements of services/chaindb/postgresql give that select rows by a test and order
-- them.
use chaind.Common.{◌≡◌, sym, ◌∙◌, ap, ◌⊎◌, inl, inr, ◌↔◌, Bool, true, List, [], ◌∷◌, Bool-cases}
use chaind.ChainDb.{select, order_by, insert_by}

module _ {A : Type 0} where
  abbrev pub IsIn : A → List A → Type 0
  IsIn a [] = ⊥
  IsIn a (b ∷ bs) = (b ≡ a) ⊎ IsIn a bs

  select-IsIn :
      (test : A → Bool) (a : A) (xs : List A)
      → IsIn a (select test xs)
      → IsIn a xs × (test a ≡ true)
  unfolding select
  select-IsIn test a [] h = absurd h
  select-IsIn test a (x ∷ xs) h = elim (Bool-cases (test x)) [
    | inr e ↦ let (i, t) = select-IsIn test a xs (rw e at h) in (inr i, t)
    | inl e ↦
        let k : (x ≡ a) ⊎ IsIn a (select test xs) = rw e at h in
        elim k [
          | inl q ↦ (inl q, ap test (sym q) ∙ e)
          | inr i ↦ let (j, t) = select-IsIn test a xs i in (inr j, t)
        ]
  ]

  IsIn-select :
      (test : A → Bool) (a : A) (xs : List A) → IsIn a xs → test a ≡ true → IsIn a (select test xs)
  unfolding select
  IsIn-select test a [] h t = absurd h
  IsIn-select test a (x ∷ xs) (inl q) t = rw (ap test q ∙ t) (inl q)
  IsIn-select test a (x ∷ xs) (inr i) t = elim (Bool-cases (test x)) [
    | inl e ↦ rw e (inr (IsIn-select test a xs i t))
    | inr e ↦ rw e (IsIn-select test a xs i t)
  ]

  insert_by-IsIn :
      (before : A → A → Bool) (a x : A) (xs : List A)
      → IsIn a (insert_by before x xs) ↔ IsIn a (x ∷ xs)
  unfolding insert_by
  insert_by-IsIn before a x [] = (λ h. h, λ h. h)
  insert_by-IsIn before a x (y ∷ ys) = elim (Bool-cases (before y x)) [
    | inr e ↦ rw e (λ h. h, λ h. h)
    | inl e ↦
        let (f, g) = insert_by-IsIn before a x ys in
        rw e (
          λ h. elim h [
            | inl q ↦ inr (inl q)
            | inr i ↦ elim (f i) [ inl q ↦ inl q | inr j ↦ inr (inr j) ]
          ],
          λ h. elim h [
            | inl q ↦ inr (g (inl q))
            | inr i ↦ elim i [ inl q ↦ inl q | inr j ↦ inr (g (inr j)) ]
          ],
        )
  ]

  order_by-IsIn :
      (before : A → A → Bool) (a : A) (xs : List A) → IsIn a (order_by before xs) ↔ IsIn a xs
  unfolding order_by
  order_by-IsIn before a [] = (λ h. h, λ h. h)
  order_by-IsIn before a (x ∷ xs) =
      let (f, g) = insert_by-IsIn before a x (order_by before xs) in
      let (f', g') = order_by-IsIn before a xs in
      (
        λ h. elim (f h) [ inl q ↦ inl q | inr i ↦ inr (f' i) ],
        λ h. g (elim h [ inl q ↦ inl q | inr i ↦ inr (g' i) ]),
      )

  -- The rows of a query are those of the table that pass its test.
  pub query-IsIn :
      (before : A → A → Bool) (test : A → Bool) (a : A) (xs : List A)
      → IsIn a (order_by before (select test xs)) ↔ (IsIn a xs × (test a ≡ true))
  query-IsIn before test a xs =
      let (f, g) = order_by-IsIn before a (select test xs) in
      (λ h. select-IsIn test a xs (f h), λ h. g (IsIn-select test a xs h.0 h.1))
