-- ===== src/Finalizer/Blocks/Ancestry.antt =====
-- services/finalizer/standard/handler.go: canonicalizeBlocks, and the ancestors of a block.
use chaind.Common.{
  ℕ, suc, ◌≡◌, refl, ap, ◌∙◌, ◌≢◌, Bool, true, false, ◌||◌, Option, none, some, List, [], ◌∷◌, ◌==◌,
  ok, arith, Bool-cases, inl, inr, ==→eq,
}
use chaind.ChainDb
use chaind.ChainDb.{Block, Metadata, Db, is_canonical}
use chaind.ChainDb.Laws.{
  block_by_root-set_block, block_by_root-root, mem, IsUnique, set_block-IsUnique,
}
use chaind.Finalizer.{Env, World, query, mutate, set_block}
use chaind.Finalizer.Blocks.{fetch_block, mark, reached}

-- The blocks from a root on by their parents, down to one at the limit, which is left out, or to the
-- genesis block; and the number of rounds that the loop takes for them.
pub data Ancestors (limit : ℕ) (db : Db) : ℕ → List ℕ → ℕ → Type 0 where
  at_limit :
      {root : ℕ} (b : Block)
      → ChainDb.block_by_root root db ≡ some b
      → reached limit b ≡ true
      → Ancestors limit db root [] 1
  at_genesis :
      {root : ℕ} (b : Block)
      → ChainDb.block_by_root root db ≡ some b
      → reached limit b ≡ false
      → b.slot ≡ 0
      → Ancestors limit db root (root ∷ []) 1
  at_child :
      {root : ℕ} {rs : List ℕ} {n : ℕ} (b : Block)
      → ChainDb.block_by_root root db ≡ some b
      → reached limit b ≡ false
      → b.slot ≢ 0
      → Ancestors limit db b.parent_root rs n
      → Ancestors limit db root (root ∷ rs) (suc n)

abbrev pub marked : Bool → Option Block → Option Block
marked b none = none
marked false (some block) = some block
marked true (some block) = some (record block { canonical = some true })

-- The rows after the marking: those of the given roots are canonical, and all else is as it was.
pub record IsMarked (rs : List ℕ) (w w' : World) : Type 0 where
  pub rows :
      (r : ℕ) → ChainDb.block_by_root r w'.db ≡ marked (mem r rs) (ChainDb.block_by_root r w.db)
  pub attestations : w'.db.attestations ≡ w.db.attestations
  pub metadata : w'.db.metadata ≡ w.db.metadata
  pub saved : w'.saved ≡ w.saved
  pub aborted : w'.aborted ≡ false
  pub unique : IsUnique w.db.blocks → IsUnique w'.db.blocks

abbrev pub IsQuiet : Env → Type 0
IsQuiet env = (n : ℕ) → env.fault n ≡ false

abbrev pub tick : World → World
tick w = record w { calls = suc w.calls }

module _ (env : Env) (quiet : IsQuiet env) where
  pub query-quiet :
      {A : Type 0} (f : Db → A) (w : World)
      → w.aborted ≡ false
      → query env f w ≡ (ok (f w.db), tick w)
  unfolding query
  query-quiet f w a = rw (quiet w.calls, a)

  pub mutate-quiet :
      (f : Db → Db) (w : World)
      → w.aborted ≡ false
      → mutate env f w ≡ (ok tt, record (tick w) { db = f w.db })
  unfolding mutate
  mutate-quiet f w a = rw (quiet w.calls, a)

  pub fetch_block-stored :
      (root : ℕ) (w : World) {b : Block}
      → w.aborted ≡ false
      → ChainDb.block_by_root root w.db ≡ some b
      → fetch_block env root w ≡ (ok (some b), tick w)
  unfolding fetch_block
  fetch_block-stored root w a h = rw (query-quiet (ChainDb.block_by_root root) w a, h)

-- A block that is marked has its slot and its parent as before.
found_child :
    {limit : ℕ} {db' : Db} {root : ℕ} {rs : List ℕ} {n : ℕ} (c : Bool) (b : Block)
    → ChainDb.block_by_root root db' ≡ marked c (some b)
    → reached limit b ≡ false
    → b.slot ≢ 0
    → Ancestors limit db' b.parent_root rs n
    → Ancestors limit db' root (root ∷ rs) (suc n)
unfolding reached
found_child false b e k p r = at_child b e k p r
found_child true b e k p r = at_child (record b { canonical = some true }) e k p r

found_limit :
    {limit : ℕ} {db' : Db} {root : ℕ} (c : Bool) (b : Block)
    → ChainDb.block_by_root root db' ≡ marked c (some b)
    → reached limit b ≡ true
    → Ancestors limit db' root [] 1
unfolding reached
found_limit false b e k = at_limit b e k
found_limit true b e k = at_limit (record b { canonical = some true }) e k

found_genesis :
    {limit : ℕ} {db' : Db} {root : ℕ} (c : Bool) (b : Block)
    → ChainDb.block_by_root root db' ≡ marked c (some b)
    → reached limit b ≡ false
    → b.slot ≡ 0
    → Ancestors limit db' root (root ∷ []) 1
unfolding reached
found_genesis false b e k z = at_genesis b e k z
found_genesis true b e k z = at_genesis (record b { canonical = some true }) e k z

pub Ancestors-IsMarked :
    {xs : List ℕ} {w w' : World} {limit root : ℕ} {rs : List ℕ} {n : ℕ}
    → IsMarked xs w w'
    → Ancestors limit w.db root rs n
    → Ancestors limit w'.db root rs n
Ancestors-IsMarked {xs} {w} {w'} {root} m (at_limit b e k) =
    found_limit (mem root xs) b (m.rows root ∙ ap (marked (mem root xs)) e) k
Ancestors-IsMarked {xs} {w} {w'} {root} m (at_genesis b e k z) =
    found_genesis (mem root xs) b (m.rows root ∙ ap (marked (mem root xs)) e) k z
Ancestors-IsMarked {xs} {w} {w'} {root} m (at_child b e k z r) =
    found_child (mem root xs) b (m.rows root ∙ ap (marked (mem root xs)) e) k z
      (Ancestors-IsMarked m r)

marked_twice : (c d : Bool) (o : Option Block) → marked d (marked c o) ≡ marked (c || d) o
marked_twice true true o = ground arith
marked_twice true false o = ground arith
marked_twice false true o = ground arith
marked_twice false false o = ground arith

pub IsMarked-trans :
    {x : ℕ} {rs : List ℕ} {u v w : World}
    → IsMarked (x ∷ []) u v
    → IsMarked rs v w
    → IsMarked (x ∷ rs) u w
IsMarked-trans {x} {rs} {u} p q = record {
  rows = λ r.
      q.rows r
      ∙ ap (marked (mem r rs)) (p.rows r)
      ∙ marked_twice (mem r (x ∷ [])) (mem r rs) _
      ∙ ap (λ c. marked c (ChainDb.block_by_root r u.db)) (ground arith);
  attestations = q.attestations ∙ p.attestations;
  metadata = q.metadata ∙ p.metadata;
  saved = q.saved ∙ p.saved;
  aborted = q.aborted;
  unique = λ u. q.unique (p.unique u);
}

pub IsMarked-tick : {rs : List ℕ} {w w' : World} → IsMarked rs (tick w) w' → IsMarked rs w w'
IsMarked-tick m = record {
  rows = m.rows;
  attestations = m.attestations;
  metadata = m.metadata;
  saved = m.saved;
  aborted = m.aborted;
  unique = m.unique;
}

module _ (env : Env) (quiet : IsQuiet env) where
  mark_rows :
      (root r : ℕ) (b : Block) (db : Db)
      → ChainDb.block_by_root root db ≡ some b
      → ChainDb.block_by_root r (ChainDb.set_block (record b { canonical = some true }) db)
        ≡ marked (mem r (root ∷ [])) (ChainDb.block_by_root r db)
  mark_rows root r b db h =
      block_by_root-set_block r (record b { canonical = some true }) db
      ∙ ground (arith, block_by_root-root root db h)

  already_marked :
      (root r : ℕ) (b : Block) (db : Db)
      → ChainDb.block_by_root root db ≡ some b
      → is_canonical b.canonical ≡ true
      → ChainDb.block_by_root r db ≡ marked (mem r (root ∷ [])) (ChainDb.block_by_root r db)
  already_marked root r b db h done = elim (Bool-cases (root == r)) [
    | inl e ↦ let same : root ≡ r = ==→eq root r e in rw (e, ← same, h) (ground arith)
    | inr e ↦ rw e (ground arith)
  ]

  pub mark_lem :
      (root : ℕ) (b : Block) (w : World)
      → w.aborted ≡ false
      → ChainDb.block_by_root root w.db ≡ some b
      → (w' : World) × (mark env b w ≡ (ok tt, w')) × IsMarked (root ∷ []) w w'
  unfolding mark set_block ChainDb.set_block
  mark_lem root b w a h = elim (Bool-cases (is_canonical b.canonical)) [
    | inl done ↦ (
      w,
      rw done,
      record {
        rows = λ r. already_marked root r b w.db h done;
        attestations = refl;
        metadata = refl;
        saved = refl;
        aborted = a;
        unique = λ u. u;
      },
    )
    | inr open' ↦
        let f = ChainDb.set_block (record b { canonical = some true }) in
        (
          record (tick w) { db = f w.db },
          rw open' (mutate-quiet env quiet f w a),
          record {
            rows = λ r. mark_rows root r b w.db h;
            attestations = refl;
            metadata = refl;
            saved = refl;
            aborted = a;
            unique = λ u. set_block-IsUnique (record b { canonical = some true }) w.db u;
          },
        )
  ]
