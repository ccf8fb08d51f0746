-- ===== src/Finalizer/Blocks/Settle.antt =====
-- services/finalizer/standard/handler.go: updateIndeterminateBlocks.
use chaind.Common.{
  ℕ, ◌≡◌, refl, ap, ◌∙◌, Bool, true, false, ◌||◌, Option, none, some, List, [], ◌∷◌, ok, arith,
}
use chaind.ChainDb
use chaind.ChainDb.{Block, Metadata, Db, is_canonical, is_indeterminate}
use chaind.ChainDb.Laws.{
  block_by_root-set_block, block_by_root-root, mem, IsUnique, set_block-IsUnique,
  indeterminate_blocks-stored,
}
use chaind.Finalizer.{Env, World, block_by_root, set_block}
use chaind.Finalizer.Blocks.{
  has_canonical, update_indeterminate_block, update_each, update_indeterminate_blocks,
}
use chaind.Finalizer.Blocks.Ancestry.{IsQuiet, tick, query-quiet, mutate-quiet}

-- A row that is in the list has been given a canonical state, and no other column or row changed.
abbrev pub settled : Bool → Bool → Option Block → Option Block
settled false c o = o
settled true c none = none
settled true c (some b) = some (record b { canonical = some c })

pub record IsSettled (rs : List ℕ) (w w' : World) : Type 0 where
  pub rows :
      (r : ℕ)
      → (c : Bool) × (ChainDb.block_by_root r w'.db
          ≡ settled (mem r rs) c (ChainDb.block_by_root r w.db))
  pub attestations : w'.db.attestations ≡ w.db.attestations
  pub metadata : w'.db.metadata ≡ w.db.metadata
  pub saved : w'.saved ≡ w.saved
  pub aborted : w'.aborted ≡ false
  pub unique : IsUnique w.db.blocks → IsUnique w'.db.blocks

abbrev AllStored : List ℕ → Db → Type 0
AllStored rs db = (r : ℕ) → mem r rs ≡ true → (b : Block) × (ChainDb.block_by_root r db ≡ some b)

settled_twice :
    (d e c c' : Bool) (o : Option Block)
    → (c'' : Bool) × (settled e c' (settled d c o) ≡ settled (d || e) c'' o)
settled_twice true true c c' o = (c', ground arith)
settled_twice true false c c' o = (c, refl)
settled_twice false true c c' o = (c', ground arith)
settled_twice false false c c' o = (c, refl)

IsSettled-trans :
    {x : ℕ} {rs : List ℕ} {u v w : World}
    → IsSettled (x ∷ []) u v
    → IsSettled rs v w
    → IsSettled (x ∷ rs) u w
IsSettled-trans {x} {rs} {u} {v} {w} p q = record {
  rows = rows;
  attestations = q.attestations ∙ p.attestations;
  metadata = q.metadata ∙ p.metadata;
  saved = q.saved ∙ p.saved;
  aborted = q.aborted;
  unique = λ h. q.unique (p.unique h);
}
  where
    rows :
        (r : ℕ)
        → (c : Bool) × (ChainDb.block_by_root r w.db
            ≡ settled (mem r (x ∷ rs)) c (ChainDb.block_by_root r u.db))
    rows r =
        let (c, e) = p.rows r in
        let (c', e') = q.rows r in
        let (c'', t) =
          settled_twice (mem r (x ∷ [])) (mem r rs) c c' (ChainDb.block_by_root r u.db) in
        (
          c'',
          e'
              ∙ ap (settled (mem r rs) c') e
              ∙ t
              ∙ ap (λ d. settled d c'' (ChainDb.block_by_root r u.db)) (ground arith),
        )

settled-some : (d c : Bool) (b : Block) → (b' : Block) × (settled d c (some b) ≡ some b')
settled-some false c b = (b, refl)
settled-some true c b = (record b { canonical = some c }, refl)

-- What is stored stays stored.
IsSettled-AllStored :
    (x : ℕ) (rs : List ℕ) {w w' : World}
    → IsSettled (x ∷ []) w w'
    → AllStored (x ∷ rs) w.db
    → AllStored rs w'.db
IsSettled-AllStored x rs m all r h =
    let (b, e) = all r (ground arith) in
    let (c, e') = m.rows r in
    let (b', e'') = settled-some (mem r (x ∷ [])) c b in
    (b', e' ∙ ap (settled (mem r (x ∷ [])) c) e ∙ e'')

module _ (env : Env) (quiet : IsQuiet env) where
  pub block_by_root-quiet :
      (root : ℕ) (w : World) {b : Block}
      → w.aborted ≡ false
      → ChainDb.block_by_root root w.db ≡ some b
      → block_by_root env root w ≡ (ok b, tick w)
  unfolding block_by_root
  block_by_root-quiet root w a h = rw (query-quiet env quiet (ChainDb.block_by_root root) w a, h)

  settle_one :
      (root : ℕ) (b : Block) (w : World)
      → w.aborted ≡ false
      → ChainDb.block_by_root root w.db ≡ some b
      → (w' : World) × (update_indeterminate_block env root w ≡ (ok tt, w'))
        × IsSettled (root ∷ []) w w'
  unfolding update_indeterminate_block set_block ChainDb.set_block
  settle_one root b w a h =
      let c = has_canonical (ChainDb.blocks_by_parent_root root w.db) in
      let f = ChainDb.set_block (record b { canonical = some c }) in
      (
        record (tick (tick (tick w))) { db = f w.db },
        rw
            (
              block_by_root-quiet root w a h,
              query-quiet env quiet (ChainDb.blocks_by_parent_root root) (tick w) a,
            )
            (mutate-quiet env quiet f (tick (tick w)) a),
        record {
          rows = λ r. (
            c,
            block_by_root-set_block r (record b { canonical = some c }) w.db
                ∙ ground (arith, block_by_root-root root w.db h),
          );
          attestations = refl;
          metadata = refl;
          saved = refl;
          aborted = a;
          unique = λ u. set_block-IsUnique (record b { canonical = some c }) w.db u;
        },
      )

  settle_each :
      (rs : List ℕ) (w : World)
      → w.aborted ≡ false
      → AllStored rs w.db
      → (w' : World) × (update_each env rs w ≡ (ok tt, w')) × IsSettled rs w w'
  unfolding update_each
  settle_each [] w a all = (
    w,
    refl,
    record {
      rows = λ r. (true, refl);
      attestations = refl;
      metadata = refl;
      saved = refl;
      aborted = a;
      unique = λ u. u;
    },
  )
  settle_each (x ∷ rs) w a all =
      let (b, e) = all x (ground arith) in
      let (w1, run, m) = settle_one x b w a e in
      let (w2, run', m') = settle_each rs w1 m.aborted (IsSettled-AllStored x rs m all) in
      (w2, rw run run', IsSettled-trans m m')

  -- When no call of the database fails, no transaction is aborted and roots are unique, the update
  -- of the indeterminate blocks below a slot ends without an error, and exactly the blocks that
  -- were indeterminate and below the slot have changed: each has been given a canonical state, and
  -- kept its other columns.
  pub update_indeterminate_blocks_lem :
      (slot : ℕ) (w : World)
      → w.aborted ≡ false
      → IsUnique w.db.blocks
      → (w' : World) × (update_indeterminate_blocks env slot w ≡ (ok tt, w'))
        × IsSettled (ChainDb.indeterminate_blocks 0 slot w.db) w w'
  unfolding update_indeterminate_blocks
  update_indeterminate_blocks_lem slot w a u =
      let rs = ChainDb.indeterminate_blocks 0 slot w.db in
      let (w', run, m) =
        settle_each rs (tick w) a (λ r h. indeterminate_blocks-stored r slot w.db h) in
      (
        w',
        rw (query-quiet env quiet (ChainDb.indeterminate_blocks 0 slot) w a) run,
        record {
          rows = m.rows;
          attestations = m.attestations;
          metadata = m.metadata;
          saved = m.saved;
          aborted = m.aborted;
          unique = m.unique;
        },
      )
