-- ===== src/Validators/Agree.antt =====
-- services/validators/standard/handler.go: the table of validators agrees with the client's answer.
use chaind.Common.{
  ℕ, ◌≡◌, ◌≢◌, refl, sym, ap, subst, ◌∙◌, ◌⊎◌, inl, inr, Bool, true, false, some, List, [], ◌∷◌,
  eq→==, Bool-cases, Option-cases, some-inj, arith, ◌==◌,
}
use chaind.Store.Inserts.{upsert}
use chaind.Store.Transactions.{put_each}
use chaind.ChainDb.Members.{IsIn}
use chaind.Validators.{
  Entry, Validator, Rows, find, db_validator, eq_bool, differs, differs_from, needs_update,
  outdated, put_validator,
}

find-index :
    (index : ℕ) (vs : List Validator) (v : Validator) → find index vs ≡ some v → v.index ≡ index
unfolding find
find-index index [] v e = ground arith
find-index index (d ∷ ds) v e = elim (Bool-cases (d.index == index)) [
  | inl b ↦
      let q : d ≡ v = some-inj (rw b at e) in
      let s : d.index ≡ index = ground arith in ap (λ x. x.index) (sym q) ∙ s
  | inr b ↦ find-index index ds v (rw b at e)
]

eq_bool-eq : (a b : Bool) → eq_bool a b ≡ true → a ≡ b
eq_bool-eq true true e = refl
eq_bool-eq true false e = sym e
eq_bool-eq false true e = e
eq_bool-eq false false e = refl

-- A row in which no column differs is the entry's row.
differs-eq :
    (d : Validator) (e : Entry)
    → d.index ≡ e.index
    → differs d e.validator ≡ false
    → d ≡ db_validator e
differs-eq d e i h =
    let p1 : d.public_key ≡ e.validator.public_key = ground arith in
    let p2 : d.effective_balance ≡ e.validator.effective_balance = ground arith in
    let p3 : eq_bool d.slashed e.validator.slashed ≡ true = ground arith in
    let p3' = eq_bool-eq d.slashed e.validator.slashed p3 in
    let p4 : d.activation_eligibility_epoch ≡ e.validator.activation_eligibility_epoch =
      ground arith in
    let p5 : d.activation_epoch ≡ e.validator.activation_epoch = ground arith in
    let p6 : d.exit_epoch ≡ e.validator.exit_epoch = ground arith in
    let p7 : d.withdrawable_epoch ≡ e.validator.withdrawable_epoch = ground arith in
    let p8 : d.withdrawal_credentials ≡ e.validator.withdrawal_credentials = ground arith in cc

find-upsert :
    (v : Validator) (vs : List Validator)
    → find v.index (upsert (λ x y. x.index == y.index) v vs) ≡ some v
unfolding find upsert
find-upsert v [] = rw (eq→== v.index v.index refl) refl
find-upsert v (d ∷ ds) = elim (Bool-cases (d.index == v.index)) [
  | inl b ↦ rw (b, eq→== v.index v.index refl) refl
  | inr b ↦ rw (b, b) (find-upsert v ds)
]

find-upsert-other :
    (index : ℕ) (v : Validator) (vs : List Validator)
    → v.index ≢ index
    → find index (upsert (λ x y. x.index == y.index) v vs) ≡ find index vs
unfolding find upsert
find-upsert-other index v [] n = let no : (v.index == index) ≡ false = ground arith in rw no refl
find-upsert-other index v (d ∷ ds) n =
    let no : (v.index == index) ≡ false = ground arith in
    elim (Bool-cases (d.index == v.index)) [
      | inl b ↦ let no' : (d.index == index) ≡ false = ground arith in rw (b, no, no') refl
      | inr b ↦ elim (Bool-cases (d.index == index)) [
        | inl c ↦ rw (b, c) refl
        | inr c ↦ rw (b, c) (find-upsert-other index v ds n)
      ]
    ]

find-put_each :
    (index : ℕ) (vs : List Validator) (rows : Rows)
    → ((v : Validator) → IsIn v vs → v.index ≢ index)
    → find index (put_each put_validator vs rows).validators ≡ find index rows.validators
find-put_each index [] rows h = refl
find-put_each index (v ∷ vs) rows h =
    find-put_each index vs (put_validator v rows) (λ u m. h u (inr m))
    ∙ find-upsert-other index v rows.validators (h v (inl refl))

outdated-IsIn :
    (dbs : List Validator) (es : List Entry) (v : Validator)
    → IsIn v (outdated dbs es)
    → (e : Entry) × IsIn e es × (v.index ≡ e.index)
unfolding outdated
outdated-IsIn dbs [] v h = absurd h
outdated-IsIn dbs (e ∷ es) v h = elim (Bool-cases (needs_update dbs e)) [
  | inl b ↦
      let k : (db_validator e ≡ v) ⊎ IsIn v (outdated dbs es) = rw b at h in
      elim k [
        | inl q ↦ (e, inl refl, ap (λ x. x.index) (sym q))
        | inr m ↦ let (f, n, i) = outdated-IsIn dbs es v m in (f, inr n, i)
      ]
  | inr b ↦ let (f, n, i) = outdated-IsIn dbs es v (rw b at h) in (f, inr n, i)
]

current-eq :
    (dbs : List Validator) (e : Entry)
    → needs_update dbs e ≡ false
    → find e.index dbs ≡ some (db_validator e)
unfolding needs_update
current-eq dbs e h = elim (Option-cases (find e.index dbs)) [
  | inl n ↦ let z : true ≡ false = ap (λ o. differs_from o e.validator) (sym n) ∙ h in ground arith
  | inr (d, q) ↦
      let same = ap (λ o. differs_from o e.validator) (sym q) ∙ h in
      q ∙ ap some (differs-eq d e (find-index e.index dbs d q) same)
]

-- The entries of a map have different indices.
abbrev pub IsMap : List Entry → Type 0
IsMap [] = Unit
IsMap (e ∷ es) = ((f : Entry) → IsIn f es → f.index ≢ e.index) × IsMap es

-- The table has the entry's validator.
abbrev pub HasValidator : Rows → Entry → Type 0
HasValidator rows e = find e.index rows.validators ≡ some (db_validator e)

pub put_each-HasValidator :
    (dbs : List Validator) (es : List Entry) (rows : Rows)
    → IsMap es
    → ((e : Entry) → IsIn e es → find e.index rows.validators ≡ find e.index dbs)
    → (e : Entry) → IsIn e es
    → HasValidator (put_each put_validator (outdated dbs es) rows) e
unfolding outdated
put_each-HasValidator dbs [] rows distinct same e m = absurd m
put_each-HasValidator dbs (f ∷ fs) rows (apart, distinct) same e m =
    let others = λ (v : Validator) (k : IsIn v (outdated dbs fs)).
      (let (g, n, i) = outdated-IsIn dbs fs v k in
        λ (x : v.index ≡ f.index). apart g n (sym i ∙ x)) in
    elim (Bool-cases (needs_update dbs f)) [
      | inl b ↦ rw b (elim m [
        | inl q ↦
            subst
              (HasValidator
                (put_each put_validator (outdated dbs fs) (put_validator (db_validator f) rows)))
              q
              (find-put_each f.index (outdated dbs fs) (put_validator (db_validator f) rows) others
                ∙ find-upsert (db_validator f) rows.validators)
        | inr n ↦
            put_each-HasValidator dbs fs (put_validator (db_validator f) rows) distinct
              (λ g k.
                find-upsert-other g.index (db_validator f) rows.validators (λ i. apart g k (sym i))
                ∙ same g (inr k))
              e n
      ])
      | inr b ↦ rw b (elim m [
        | inl q ↦ subst (HasValidator (put_each put_validator (outdated dbs fs) rows)) q (
            find-put_each f.index (outdated dbs fs) rows others
            ∙ same f (inl refl)
            ∙ current-eq dbs f b)
        | inr n ↦ put_each-HasValidator dbs fs rows distinct (λ g k. same g (inr k)) e n
      ])
    ]
