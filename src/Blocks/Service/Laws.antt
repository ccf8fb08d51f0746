-- ===== src/Blocks/Service/Laws.antt =====
-- services/blocks/standard: what the service does for a slot, and in catching up.
use chaind.Common.{
  ℕ, suc, ◌≤◌, ◌<◌, ◌≡◌, ◌≢◌, refl, sym, subst, ◌⊎◌, inl, inr, Bool, true, false, not, ◌||◌, Option,
  none, some, List, length, Bool-cases, ok, ◌>>=◌, some-inj, arith, ◌==◌, add64, two64,
  if◌then◌else◌,
}
use chaind.Store.{Tables, World, query, hold, get_metadata, statement}
use chaind.Store.Inserts.{attempt}
use chaind.Store.Runs.{Runs, Runs-then, Runs-weaken, attempt-query-Runs}
use chaind.Catchup.Progress.{IsLawful, HasCaughtUp, catchup-HasCaughtUp}
use chaind.Catchup.Handler.{stored}
use chaind.Blocks.{
  BlockAnswer, obtained, not_found, failed, SignedBlock, Metadata, no_metadata, Env,
}
use chaind.Blocks.Rows.{Rows}
use chaind.Blocks.Sync.{Cache}
use chaind.Blocks.Sync.Laws.{IsFresh}
use chaind.Blocks.Handler.{on_block}
use chaind.Blocks.Handler.Stored.{StoresBlock, bits_of, on_block-Runs}
use chaind.Blocks.Service.{
  is_at, on_answer, unless_there, update_block_for_slot, service, on_beacon_chain_head_updated,
  kept_root, catch_up_to,
}

-- What the service relies on: the chain's parameters are positive, the map of sync committees has what
-- the table has whenever a slot is worked on, and the committees are as long as the blocks' bits.
pub record IsReady (env : Env) : Type 0 where
  pub slots : env.chain_time.slots_per_epoch ≢ 0
  pub epochs : env.chain_time.epochs_per_sync_committee_period ≢ 0
  pub fresh : (slot : ℕ) → IsFresh env (env.cached slot)
  pub long :
      (slot : ℕ) (b : SignedBlock)
      → env.signed_beacon_block slot ≡ obtained b
      → (period : ℕ) (vs : List ℕ) → env.sync_committees period ≡ some vs
      → length (bits_of b) ≤ length vs

-- What the work for a slot comes to: nothing, where a block of the slot is there and blocks are not
-- fetched again, or where the client has no block; or the client's block is stored.
pub data Writes (env : Env) (slot : ℕ) (x y : Tables Rows Metadata) : Type 0 where
  there : env.refetch ≡ false → is_at slot x.rows.blocks ≡ true → y ≡ x → Writes env slot x y
  missed : env.signed_beacon_block slot ≡ not_found → y ≡ x → Writes env slot x y
  imported :
      (b : SignedBlock)
      → env.signed_beacon_block slot ≡ obtained b
      → StoresBlock env b x y
      → Writes env slot x y

module _ (env : Env) (ready : IsReady env) where
  on_answer-Runs :
      (slot : ℕ) (cache : Cache) (o : BlockAnswer)
      → IsFresh env cache
      → env.signed_beacon_block slot ≡ o
      → Runs (λ cache' x y. IsFresh env cache' × Writes env slot x y) (on_answer env o cache)
  unfolding on_answer
  on_answer-Runs slot cache (obtained b) fresh e =
      Runs-weaken (λ cache' x y. IsFresh env cache' × StoresBlock env b x y)
        (λ cache' x y. IsFresh env cache' × Writes env slot x y) (on_block env b cache)
        (on_block-Runs env ready.slots ready.epochs b cache fresh (ready.long slot b e))
        (λ cache' x y p. (p.0, imported b e p.1))
  on_answer-Runs slot cache not_found fresh e = λ w. ((fresh, missed e refl), (refl, refl))
  on_answer-Runs slot cache failed fresh e = λ w. (refl, refl)

  -- Given that the answer of BlocksBySlot, if there is one, is what the table has.
  abbrev WritesIf : ℕ → Option Bool → Cache → Tables Rows Metadata → Tables Rows Metadata → Type 0
  WritesIf slot o cache x y =
      (o ≡ none) ⊎ (o ≡ some (is_at slot x.rows.blocks)) → IsFresh env cache × Writes env slot x y

  answered-Runs :
      (slot : ℕ) (cache : Cache) (o : Option Bool)
      → IsFresh env cache
      → Runs (WritesIf slot o) (on_answer env (env.signed_beacon_block slot) cache)
  answered-Runs slot cache o fresh =
      Runs-weaken (λ c x y. IsFresh env c × Writes env slot x y) (WritesIf slot o)
        (on_answer env (env.signed_beacon_block slot) cache)
        (on_answer-Runs slot cache (env.signed_beacon_block slot) fresh refl) (λ c x y p h. p)

  unless_there-Runs :
      (slot : ℕ) (cache : Cache) (o : Option Bool)
      → env.refetch ≡ false
      → IsFresh env cache
      → Runs (WritesIf slot o) (unless_there env slot cache o)
  unfolding unless_there
  unless_there-Runs slot cache none r fresh = answered-Runs slot cache none fresh
  unless_there-Runs slot cache (some false) r fresh = answered-Runs slot cache (some false) fresh
  unless_there-Runs slot cache (some true) r fresh = λ w. (
    (λ h. elim h [
      | inl n ↦ absurd (ground arith)
      | inr n ↦ (fresh, there r (sym (some-inj n)) refl)
    ]),
    (refl, refl),
  )

  update_block_for_slot-Runs :
      (slot : ℕ) (cache : Cache)
      → IsFresh env cache
      → Runs
          (λ cache' x y. IsFresh env cache' × Writes env slot x y)
          (update_block_for_slot env slot cache)
  unfolding update_block_for_slot
  update_block_for_slot-Runs slot cache fresh =
      let P = λ (c : Cache) (x y : Tables Rows Metadata). IsFresh env c × Writes env slot x y in
      let f = λ (db : Tables Rows Metadata). is_at slot db.rows.blocks in
      let at_once = on_answer env (env.signed_beacon_block slot) cache in
      let checked = attempt (query env.fault f) >>= unless_there env slot cache in
      elim (Bool-cases env.refetch) [
        | inl b ↦
            subst (λ t. Runs P (if t then at_once else checked)) (sym b)
              (on_answer-Runs slot cache (env.signed_beacon_block slot) fresh refl)
        | inr b ↦
            subst (λ t. Runs P (if t then at_once else checked)) (sym b)
              (Runs-then (λ o x y. ((o ≡ none) ⊎ (o ≡ some (f x))) × (y ≡ x)) (WritesIf slot) P _
                (unless_there env slot cache) (attempt-query-Runs env.fault f)
                (λ o x y p. unless_there-Runs slot cache o b fresh)
                (λ o c x y z p q.
                  let r = q (subst (λ d. (o ≡ none) ⊎ (o ≡ some (f d))) (sym p.1) p.0) in
                  (r.0, subst (λ d. Writes env slot d z) p.1 r.1)))
      ]

  pub service-IsLawful : IsLawful (service env) (Writes env)
  service-IsLawful = record {
    update_ends = λ slot.
        Runs-then (λ c x y. IsFresh env c × Writes env slot x y) (λ _ _ x y. y ≡ x)
          (λ _ x y. Writes env slot x y) (update_block_for_slot env slot (env.cached slot)) _
          (update_block_for_slot-Runs slot (env.cached slot) (ready.fresh slot))
          (λ c x y p w. (refl, (refl, refl)))
          (λ c _ x y z p q. subst (λ d. Writes env slot x d) (sym q) p.1);
  }

  module _ (now : ℕ → ℕ) (last : ℕ) (bound : (j : ℕ) → now j ≤ last)
      (small : suc last < two64) where
    -- From outside any transaction, where slots_per_epoch and epochs_per_sync_committee_period are
    -- not 0, the map of sync committees has what the table has, the committees of the table are at
    -- least as long as the bits of any block that the client gives, and the clock stays up to a
    -- bound that is below 2^64 - 1, with fuel for each slot up to it: the handler ends without an
    -- error or a panic. Where another handler is at work, or the root is the one that was handled
    -- last, nothing has changed. Otherwise either the metadata could not be read: the root is not
    -- taken as handled, and the rows are as they were. Or it is taken as handled, the clock is read
    -- once before each slot, and the blocks of the slots from the one after the stored one on are
    -- in the tables, in order and without a gap, each slot not ahead of its own reading of the
    -- clock, its block with all its operations and in a transaction of its own, up to the first
    -- slot that is ahead of its reading, or that is not and fails. A slot without a block, or whose
    -- block is there and is not fetched again, counts as done with nothing written.
    pub on_beacon_chain_head_updated-HasImported :
        (acquired : Bool) (handled root : ℕ) (w : World Rows Metadata)
        → w.saved ≡ none
        → (root' : ℕ) × (v : World Rows Metadata) × (on_beacon_chain_head_updated env
              (suc (suc last))
              now
              acquired
              handled
              root
              w
            ≡ (ok root', v))
          × ((((not acquired || (handled == root)) ≡ true) × (root' ≡ handled) × (v ≡ w))
              ⊎ (((not acquired || (handled == root)) ≡ false)
                  × (((root' ≡ handled) × (v.db ≡ w.db) × (v.held ≡ w.held) × (v.saved ≡ none))
                      ⊎ ((root' ≡ root)
                          × HasCaughtUp
                              (service env)
                              (Writes env)
                              service-IsLawful
                              now
                              (add64 (stored no_metadata w.db).latest_slot 1)
                              (record w { calls = suc w.calls; held = stored no_metadata w.db })
                              v))))
    unfolding on_beacon_chain_head_updated kept_root catch_up_to hold get_metadata query statement
    on_beacon_chain_head_updated-HasImported acquired handled root w e =
        elim (Bool-cases (not acquired)) [
          | inl a ↦ (handled, w, rw a refl, inl (rw a refl, refl, refl))
          | inr a ↦ elim (Bool-cases (handled == root)) [
            | inl b ↦ (handled, w, rw (a, b) refl, inl (rw (a, b) refl, refl, refl))
            | inr b ↦ elim (Bool-cases (env.fault w.calls || w.aborted)) [
              | inl c ↦ (
                handled,
                record w { calls = suc w.calls; aborted = false },
                rw (a, b, c, e) refl,
                inr (rw (a, b) refl, inl (refl, refl, refl, e)),
              )
              | inr c ↦
                  let u = record w { calls = suc w.calls; held = stored no_metadata w.db } in
                  let (v, run, done) =
                    catchup-HasCaughtUp (service env) (Writes env) service-IsLawful now last bound
                      small u e in
                  (root, v, rw (a, b, c, run) refl, inr (rw (a, b) refl, inr (refl, done)))
            ]
          ]
        ]
