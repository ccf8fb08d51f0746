-- ===== src/Blocks/Handler/Stored.antt =====
-- services/blocks/standard/handler.go: the rows that OnBlock writes, for the blocks of each fork.
use chaind.Common.{
  ℕ, ◌≤◌, ◌≡◌, ◌≢◌, refl, sym, subst, Bool, Option, none, some, List, [], ◌∷◌, map, length,
}
use chaind.Store.{Tables}
use chaind.Store.Runs.{Runs, Runs-then, Runs-weaken, Then, on_rows}
use chaind.Store.Loops.{CopiesOrPuts, copy_or_set_each-Runs}
use chaind.Blocks.{
  SignedBlock, phase0, altair, bellatrix, capella, deneb, unknown_version, unhandled_version,
  ChainBlobSidecar, Body, Metadata, Env,
}
use chaind.Blocks.Rows.{Rows, Block}
use chaind.Blocks.SetBlock.Laws.{with_block, set_block-Runs}
use chaind.Blocks.Convert.{db_block}
use chaind.Blocks.Convert.Row.{IsRowOf, db_block-IsRowOf}
use chaind.Blocks.Operations.{db_blob_sidecar}
use chaind.Blocks.Sync.{Cache}
use chaind.Blocks.Sync.Laws.{IsFresh, StoresAggregate, update_sync_aggregate_for_block-Runs}
use chaind.Blocks.Handler.{
  put_blob_sidecar, insert_blob_sidecars, set_sidecars, update_blob_sidecars_for_block,
  on_block_phase0, on_block_altair, update_if_any, on_block_deneb, by_version, set_and_go_on,
  on_block,
}
use chaind.Blocks.Handler.Laws.{StoresOperations, on_block_phase0-Runs}

abbrev pub bits_of : SignedBlock → List Bool
bits_of (phase0 m) = []
bits_of (altair m bits) = bits
bits_of (bellatrix m bits p) = bits
bits_of (capella m bits c) = bits
bits_of (deneb m bits d) = bits
bits_of unknown_version = []
bits_of unhandled_version = []

module _ (env : Env) where
  -- The sidecars that the client has for a block, where the block has commitments to blobs.
  abbrev pub StoresSidecars : List ℕ → ℕ → Tables Rows Metadata → Tables Rows Metadata → Type 0
  StoresSidecars [] root x y = y ≡ x
  StoresSidecars (c ∷ cs) root x y =
      (bs : List ChainBlobSidecar) × (env.client_blob_sidecars root ≡ some bs)
      × (let rows = map (db_blob_sidecar root) bs in
          CopiesOrPuts env.fault (insert_blob_sidecars rows) put_blob_sidecar rows x y)

  -- What follows the block's own row, for each fork.
  abbrev pub StoresBody : SignedBlock → ℕ → Tables Rows Metadata → Tables Rows Metadata → Type 0
  StoresBody (phase0 m) root = StoresOperations env m.slot root m.body
  StoresBody (altair m bits) root =
      Then (StoresOperations env m.slot root m.body) (StoresAggregate env m.slot root bits)
  StoresBody (bellatrix m bits p) root =
      Then (StoresOperations env m.slot root m.body) (StoresAggregate env m.slot root bits)
  StoresBody (capella m bits c) root =
      Then (StoresOperations env m.slot root m.body) (StoresAggregate env m.slot root bits)
  StoresBody (deneb m bits d) root =
      Then (Then (StoresOperations env m.slot root m.body) (StoresAggregate env m.slot root bits))
        (StoresSidecars d.blob_kzg_commitments root)
  StoresBody unknown_version root = λ x y. ⊥
  StoresBody unhandled_version root = λ x y. ⊥

  -- A block is in the tables, with all that belongs to it.
  abbrev pub StoresBlock : SignedBlock → Tables Rows Metadata → Tables Rows Metadata → Type 0
  StoresBlock b x y =
      (row : Block) × (db_block env b ≡ some row)
      × IsRowOf env b row
      × Then (λ x' y'. y' ≡ on_rows (with_block row) x') (StoresBody b row.root) x y

  set_sidecars-Runs :
      (c : ℕ) (cs : List ℕ) (root : ℕ) (o : Option (List ChainBlobSidecar))
      → env.client_blob_sidecars root ≡ o
      → Runs (λ _. StoresSidecars (c ∷ cs) root) (set_sidecars env root o)
  unfolding set_sidecars
  set_sidecars-Runs c cs root none e = λ w. (refl, refl)
  set_sidecars-Runs c cs root (some bs) e =
      let rows = map (db_blob_sidecar root) bs in
      let P = CopiesOrPuts env.fault (insert_blob_sidecars rows) put_blob_sidecar rows in
      Runs-weaken (λ _. P) (λ _. StoresSidecars (c ∷ cs) root) (set_sidecars env root (some bs))
        (copy_or_set_each-Runs env.fault (insert_blob_sidecars rows) put_blob_sidecar rows)
        (λ _ x y p. (bs, e, p))

  update_if_any-Runs :
      (commitments : List ℕ) (root : ℕ)
      → Runs (λ _. StoresSidecars commitments root) (update_if_any env commitments root)
  unfolding update_if_any update_blob_sidecars_for_block
  update_if_any-Runs [] root = λ w. (refl, (refl, refl))
  update_if_any-Runs (c ∷ cs) root =
      set_sidecars-Runs c cs root (env.client_blob_sidecars root) refl

  module _ (slots : env.chain_time.slots_per_epoch ≢ 0)
      (epochs : env.chain_time.epochs_per_sync_committee_period ≢ 0) where
    IsLong : List Bool → Type 0
    IsLong bits =
        (period : ℕ) (vs : List ℕ) → env.sync_committees period ≡ some vs → length bits ≤ length vs

    on_block_altair-Runs :
        (slot root : ℕ) (body : Body) (bits : List Bool) (cache : Cache)
        → IsFresh env cache
        → IsLong bits
        → Runs
            (λ cache' x y.
              IsFresh env cache'
              × Then (StoresOperations env slot root body) (StoresAggregate env slot root bits) x y)
            (on_block_altair env slot root body bits cache)
    unfolding on_block_altair IsLong
    on_block_altair-Runs slot root body bits cache fresh long =
        Runs-then (λ _. StoresOperations env slot root body)
          (λ _ cache' x y. IsFresh env cache' × StoresAggregate env slot root bits x y)
          (λ cache' x y.
            IsFresh env cache'
            × Then (StoresOperations env slot root body) (StoresAggregate env slot root bits) x y)
          _ _ (on_block_phase0-Runs env slot root body)
          (λ _ x y p.
            update_sync_aggregate_for_block-Runs env slots epochs slot root bits long cache fresh)
          (λ _ cache' x y z p q. (q.0, (y, p, q.1)))

    on_block_deneb-Runs :
        (slot root : ℕ) (body : Body) (bits : List Bool) (commitments : List ℕ) (cache : Cache)
        → IsFresh env cache
        → IsLong bits
        → Runs
            (λ cache' x y.
              IsFresh env cache'
              × Then
                  (Then (StoresOperations env slot root body) (StoresAggregate env slot root bits))
                  (StoresSidecars commitments root)
                  x
                  y)
            (on_block_deneb env slot root body bits commitments cache)
    unfolding on_block_deneb
    on_block_deneb-Runs slot root body bits commitments cache fresh long =
        let P = Then (StoresOperations env slot root body) (StoresAggregate env slot root bits) in
        Runs-then (λ cache' x y. IsFresh env cache' × P x y)
          (λ cache' cache'' x y. (cache'' ≡ cache') × StoresSidecars commitments root x y)
          (λ cache' x y. IsFresh env cache' × Then P (StoresSidecars commitments root) x y)
          (on_block_altair env slot root body bits cache) _
          (on_block_altair-Runs slot root body bits cache fresh long)
          (λ cache' x y p.
            Runs-then (λ _. StoresSidecars commitments root)
              (λ _ cache'' x' y'. (cache'' ≡ cache') × (y' ≡ x'))
              (λ cache'' x' y'. (cache'' ≡ cache') × StoresSidecars commitments root x' y')
              (update_if_any env commitments root) _ (update_if_any-Runs commitments root)
              (λ _ x' y' q w. ((refl, refl), (refl, refl)))
              (λ _ cache'' x' y' z' q r.
                (r.0, subst (StoresSidecars commitments root x') (sym r.1) q)))
          (λ cache' cache'' x y z p q. (subst (IsFresh env) (sym q.0) p.0, (y, p.1, q.1)))

    by_version-Runs :
        (b : SignedBlock) (root : ℕ) (cache : Cache)
        → IsFresh env cache
        → IsLong (bits_of b)
        → Runs
            (λ cache' x y. IsFresh env cache' × StoresBody b root x y)
            (by_version env b root cache)
    unfolding by_version
    by_version-Runs (phase0 m) root cache fresh long =
        Runs-then (λ _. StoresOperations env m.slot root m.body)
          (λ _ cache' x y. (cache' ≡ cache) × (y ≡ x))
          (λ cache' x y. IsFresh env cache' × StoresOperations env m.slot root m.body x y)
          (on_block_phase0 env m.slot root m.body) _ (on_block_phase0-Runs env m.slot root m.body)
          (λ _ x y p w. ((refl, refl), (refl, refl)))
          (λ _ cache' x y z p q. (
            subst (IsFresh env) (sym q.0) fresh,
            subst (StoresOperations env m.slot root m.body x) (sym q.1) p,
          ))
    by_version-Runs (altair m bits) root cache fresh long =
        on_block_altair-Runs m.slot root m.body bits cache fresh long
    by_version-Runs (bellatrix m bits p) root cache fresh long =
        on_block_altair-Runs m.slot root m.body bits cache fresh long
    by_version-Runs (capella m bits c) root cache fresh long =
        on_block_altair-Runs m.slot root m.body bits cache fresh long
    by_version-Runs (deneb m bits d) root cache fresh long =
        on_block_deneb-Runs m.slot root m.body bits d.blob_kzg_commitments cache fresh long
    by_version-Runs unknown_version root cache fresh long = λ w. (refl, refl)
    by_version-Runs unhandled_version root cache fresh long = λ w. (refl, refl)

    set_and_go_on-Runs :
        (b : SignedBlock) (cache : Cache) (o : Option Block)
        → db_block env b ≡ o
        → IsFresh env cache
        → IsLong (bits_of b)
        → Runs (λ cache' x y. IsFresh env cache' × StoresBlock b x y) (set_and_go_on env b cache o)
    unfolding set_and_go_on
    set_and_go_on-Runs b cache none e fresh long = λ w. (refl, refl)
    set_and_go_on-Runs b cache (some row) e fresh long =
        Runs-then (λ _ x y. y ≡ on_rows (with_block row) x)
          (λ _ cache' x y. IsFresh env cache' × StoresBody b row.root x y)
          (λ cache' x y. IsFresh env cache' × StoresBlock b x y) _ _ (set_block-Runs env.fault row)
          (λ _ x y p. by_version-Runs b row.root cache fresh long)
          (λ _ cache' x y z p q. (q.0, (row, e, db_block-IsRowOf env b row e, (y, p, q.1))))

    pub on_block-Runs :
        (b : SignedBlock) (cache : Cache)
        → IsFresh env cache
        → ((period : ℕ) (vs : List ℕ)
            → env.sync_committees period ≡ some vs
            → length (bits_of b) ≤ length vs)
        → Runs (λ cache' x y. IsFresh env cache' × StoresBlock b x y) (on_block env b cache)
    unfolding on_block IsLong
    on_block-Runs b cache fresh long = set_and_go_on-Runs b cache (db_block env b) refl fresh long
