-- ===== src/Finalizer/Votes/Search.antt =====
-- What the backwards search of services/finalizer/standard/handler.go finds.
use chaind.Common.{
  ℕ, zero, suc, ◌≤◌, ◌<◌, ◌≡◌, refl, ◌∙◌, ap, Bool, true, false, Option, none, some, ok, arith,
  Option-cases, inl, inr, ◌⊎◌, List, [], ◌∷◌, All, subst, ◌≢◌, Bool-cases, ◌==◌, ==→eq,
  if◌then◌else◌,
}
use chaind.ChainDb
use chaind.ChainDb.{Db, Block, select, is_canonical}
use chaind.Finalizer.{Env, World}
use chaind.Finalizer.Votes.{first_canonical, search}
use chaind.Finalizer.Blocks.Ancestry.{IsQuiet, tick, query-quiet}

abbrev root_at : ℕ → Db → Option ℕ
root_at slot db = first_canonical (ChainDb.blocks_by_slot slot db)

-- A block is not a canonical one of a slot.
abbrev pub IsOther : ℕ → Block → Type 0
IsOther slot b = b.slot ≡ slot → b.canonical ≢ some true

-- A root is that of the first block of the table that is at a slot and canonical.
pub data IsFirst (slot root : ℕ) : List Block → Type 0 where
  here :
      {b : Block} {bs : List Block}
      → b.slot ≡ slot
      → b.canonical ≡ some true
      → b.root ≡ root
      → IsFirst slot root (b ∷ bs)
  there :
      {b : Block} {bs : List Block}
      → IsOther slot b
      → IsFirst slot root bs
      → IsFirst slot root (b ∷ bs)

-- No block of the table is at a slot and canonical.
abbrev pub HasNone : ℕ → Db → Type 0
HasNone slot db = All (IsOther slot) db.blocks

-- What the rows of a slot give, against the table.
abbrev Gives : ℕ → Option ℕ → List Block → Type 0
Gives slot none bs = All (IsOther slot) bs
Gives slot (some r) bs = IsFirst slot r bs

there-Gives :
    (slot : ℕ) (o : Option ℕ) (b : Block) (bs : List Block)
    → IsOther slot b
    → Gives slot o bs
    → Gives slot o (b ∷ bs)
there-Gives slot none b bs n g = (n, g)
there-Gives slot (some r) b bs n g = there n g

first_canonical-Gives :
    (slot : ℕ) (bs : List Block) → Gives slot (first_canonical (select (λ b. b.slot == slot) bs)) bs
unfolding select first_canonical
first_canonical-Gives slot [] = tt
first_canonical-Gives slot (b ∷ bs) = elim (Bool-cases (b.slot == slot)) [
  | inr n ↦ rw n (
      there-Gives slot (first_canonical (select (λ b. b.slot == slot) bs)) b bs (λ e. ground arith)
        (first_canonical-Gives slot bs))
  | inl e ↦ rw e (decided-Gives e (first_canonical-Gives slot bs) b.canonical refl)
]
  where
    decided-Gives :
        (b.slot == slot) ≡ true
        → Gives slot (first_canonical (select (λ b. b.slot == slot) bs)) bs
        → (c : Option Bool) → b.canonical ≡ c
        → Gives slot
            (if is_canonical c
              then some b.root
              else first_canonical (select (λ b. b.slot == slot) bs))
            (b ∷ bs)
    decided-Gives e g (some true) q = here (==→eq b.slot slot e) q refl
    decided-Gives e g (some false) q =
        there-Gives slot (first_canonical (select (λ b. b.slot == slot) bs)) b bs (λ _ x. cc) g
    decided-Gives e g none q =
        there-Gives slot (first_canonical (select (λ b. b.slot == slot) bs)) b bs (λ _ x. cc) g

root_at-Gives : (slot : ℕ) (db : Db) (o : Option ℕ) → root_at slot db ≡ o → Gives slot o db.blocks
unfolding ChainDb.blocks_by_slot
root_at-Gives slot db o e =
    subst (λ x. Gives slot x db.blocks) e (first_canonical-Gives slot db.blocks)

-- The root of the first canonical block at the highest slot, up to a given one, that has any.
pub record IsLatest (slot : ℕ) (root : ℕ) (db : Db) : Type 0 where
  pub at : ℕ
  pub at_most : at ≤ slot
  pub is_root : IsFirst at root db.blocks
  pub none_after : (t : ℕ) → at < t → t ≤ slot → HasNone t db

abbrev pub Nowhere : ℕ → Db → Type 0
Nowhere slot db = (t : ℕ) → t ≤ slot → HasNone t db

abbrev pub Finds : ℕ → Option ℕ → Db → Type 0
Finds slot none db = Nowhere slot db
Finds slot (some r) db = IsLatest slot r db

here-Finds : (slot r : ℕ) (db : Db) → root_at slot db ≡ some r → IsLatest slot r db
here-Finds slot r db h = record {
  at = slot;
  at_most = omega arith;
  is_root = root_at-Gives slot db (some r) h;
  none_after = λ t lower upper. absurd (omega arith);
}

le_split : (t slot : ℕ) → t ≤ suc slot → (t ≤ slot) ⊎ (t ≡ suc slot)
le_split t slot h = grind arith

start : (o : Option ℕ) (db : Db) → root_at 0 db ≡ o → Finds 0 o db
start none db h =
    λ t le. let e : t ≡ 0 = omega arith in root_at-Gives t db none (ap (λ x. root_at x db) e ∙ h)
start (some r) db h = here-Finds 0 r db h

-- A slot that has none adds nothing.
suc-Finds :
    (slot : ℕ) (o : Option ℕ) (db : Db)
    → root_at (suc slot) db ≡ none
    → Finds slot o db
    → Finds (suc slot) o db
suc-Finds slot none db h f = λ t le. elim (le_split t slot le) [
  | inl lower ↦ f t lower
  | inr e ↦ root_at-Gives t db none (ap (λ x. root_at x db) e ∙ h)
]
suc-Finds slot (some r) db h f = record {
  at = f.at;
  at_most = omega (arith, f.at_most);
  is_root = f.is_root;
  none_after = λ t lower upper. elim (le_split t slot upper) [
    | inl below ↦ f.none_after t lower below
    | inr e ↦ root_at-Gives t db none (ap (λ x. root_at x db) e ∙ h)
  ];
}

module _ (env : Env) (quiet : IsQuiet env) where
  -- When no call of the database fails, no transaction is aborted, the search from a slot
  -- backwards ends without an error and changes no row. It finds the root of the first block of the
  -- table that is canonical and at the highest slot, up to the given one, that has a canonical
  -- block; or it finds nothing, and no block up to that slot is canonical.
  pub search_lem :
      (slot : ℕ) (w : World)
      → w.aborted ≡ false
      → (o : Option ℕ) × (w' : World) × (search env slot w ≡ (ok o, w'))
        × Finds slot o w.db
        × (w'.db ≡ w.db)
        × (w'.aborted ≡ false)
  unfolding search
  search_lem zero w a = (
    root_at 0 w.db,
    tick w,
    rw (query-quiet env quiet (ChainDb.blocks_by_slot 0) w a),
    start (root_at 0 w.db) w.db refl,
    refl,
    a,
  )
  search_lem (suc slot) w a = elim (Option-cases (root_at (suc slot) w.db)) [
    | inl e ↦
        let (o, w', run, f, same, a') = search_lem slot (tick w) a in
        (
          o,
          w',
          rw (query-quiet env quiet (ChainDb.blocks_by_slot (suc slot)) w a, e) run,
          suc-Finds slot o w.db e f,
          same,
          a',
        )
    | inr (r, e) ↦ (
      some r,
      tick w,
      rw (query-quiet env quiet (ChainDb.blocks_by_slot (suc slot)) w a, e),
      here-Finds (suc slot) r w.db e,
      refl,
      a,
    )
  ]
