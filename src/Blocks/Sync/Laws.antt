-- ===== src/Blocks/Sync/Laws.antt =====
-- services/blocks/standard/handler.go: what the sync aggregate of a block comes to.
use chaind.Common.{
  ℕ, ◌-◌, ◌*◌, ◌/◌, ◌≤◌, ◌≡◌, ◌≢◌, refl, sym, ap, subst, ◌∙◌, ◌⊎◌, inl, inr, Bool, true, false,
  Option, none, some, List, [], ◌∷◌, Bool-cases, some-inj, arith, ◌==◌, ltb, length,
}
use chaind.Store.{Tables, Act, query}
use chaind.Store.Runs.{Runs, Runs-then, on_rows, query-Runs, mutate-Runs}
use chaind.ChainTime.{slot_to_sync_committee_period}
use chaind.ChainTime.Periods.{slot_to_sync_committee_period-eq}
use chaind.ChainDb.Members.{IsIn}
use chaind.SyncCommittees.{SyncCommittee}
use chaind.Blocks.{Metadata, Env}
use chaind.Blocks.Rows.{Rows, SyncAggregate}
use chaind.Blocks.Votes.{members, or_panic}
use chaind.Blocks.Sync.{
  Cache, lookup, delete, remember, put_sync_aggregate, aggregate_row, fetched, or_fetch,
  sync_committee, db_sync_aggregate, update_sync_aggregate_for_block,
}

pub members-some :
    (bits : List Bool) (vs : List ℕ)
    → length bits ≤ length vs
    → (indices : List ℕ) × (members bits vs ≡ some indices)
unfolding members
members-some [] vs h = ([], refl)
members-some (b ∷ bs) [] h = absurd (omega arith)
members-some (true ∷ bs) (v ∷ vs) h =
    let (is, e) = members-some bs vs (omega arith) in (v ∷ is, rw e refl)
members-some (false ∷ bs) (v ∷ vs) h = members-some bs vs (omega arith)

lookup-IsIn :
    (period : ℕ) (cache : Cache) (vs : List ℕ)
    → lookup period cache ≡ some vs
    → (c : SyncCommittee) × IsIn c cache × (c.period ≡ period) × (c.committee ≡ vs)
unfolding lookup
lookup-IsIn period [] vs e = ground arith
lookup-IsIn period (c ∷ cs) vs e = elim (Bool-cases (c.period == period)) [
  | inl b ↦ (c, inl refl, ground arith, some-inj (rw b at e))
  | inr b ↦ let (d, m, p, q) = lookup-IsIn period cs vs (rw b at e) in (d, inr m, p, q)
]

delete-IsIn :
    (period : ℕ) (cache : Cache) (c : SyncCommittee) → IsIn c (delete period cache) → IsIn c cache
unfolding delete
delete-IsIn period [] c h = h
delete-IsIn period (d ∷ ds) c h = elim (Bool-cases (d.period == period)) [
  | inl b ↦ inr (delete-IsIn period ds c (rw b at h))
  | inr b ↦
      let k : (d ≡ c) ⊎ IsIn c (delete period ds) = rw b at h in
      elim k [ inl q ↦ inl q | inr m ↦ inr (delete-IsIn period ds c m) ]
]

remember-IsIn :
    (period : ℕ) (vs : List ℕ) (cache : Cache) (c : SyncCommittee)
    → IsIn c (remember period vs cache)
    → IsIn c (record { period = period; committee = vs } ∷ cache)
unfolding remember
remember-IsIn period vs cache c h = elim (Bool-cases (ltb 1 period)) [
  | inl b ↦
      delete-IsIn (period - 2) (record { period = period; committee = vs } ∷ cache) c (rw b at h)
  | inr b ↦ rw b at h
]

module _ (env : Env) where
  -- The committees of the map are those of the table.
  abbrev pub IsFresh : Cache → Type 0
  IsFresh cache =
      (c : SyncCommittee) → IsIn c cache → env.sync_committees c.period ≡ some c.committee

  -- The committee is that of the table, and the map stays as fresh.
  abbrev FromTable : ℕ → List ℕ × Cache → Tables Rows Metadata → Tables Rows Metadata → Type 0
  FromTable period r x y = (y ≡ x) × (env.sync_committees period ≡ some r.0) × IsFresh r.1

  fetched-Runs :
      (period : ℕ) (cache : Cache) (o : Option (List ℕ))
      → IsFresh cache
      → env.sync_committees period ≡ o
      → Runs (FromTable period) (fetched env period cache o)
  unfolding fetched
  fetched-Runs period cache none fresh e = λ w. (refl, refl)
  fetched-Runs period cache (some vs) fresh e = λ w. (
    (
      refl,
      e,
      λ c m. elim (remember-IsIn period vs cache c m) [
        | inl q ↦ subst (λ x. env.sync_committees x.period ≡ some x.committee) q e
        | inr k ↦ fresh c k
      ],
    ),
    (refl, refl),
  )

  or_fetch-Runs :
      (period : ℕ) (cache : Cache) (o : Option (List ℕ))
      → IsFresh cache
      → lookup period cache ≡ o
      → Runs (FromTable period) (or_fetch env period cache o)
  unfolding or_fetch
  or_fetch-Runs period cache (some vs) fresh e =
      let (c, m, p, q) = lookup-IsIn period cache vs e in
      let k : env.sync_committees period ≡ some vs =
        ap env.sync_committees (sym p) ∙ fresh c m ∙ ap some q in
      λ w. ((refl, k, fresh), (refl, refl))
  or_fetch-Runs period cache none fresh e =
      let f = λ (db : Tables Rows Metadata). env.sync_committees period in
      Runs-then (λ o x y. (o ≡ f x) × (y ≡ x)) (λ _. FromTable period) (FromTable period)
        (query env.fault f) (fetched env period cache) (query-Runs env.fault f)
        (λ o x y p. fetched-Runs period cache o fresh (sym p.0))
        (λ o r x y z p q. (q.0 ∙ p.1, q.1, q.2))

  -- The aggregate's row has the members, at the bits that are set, of the committee of its period.
  abbrev pub StoresAggregate :
      ℕ → ℕ → List Bool → Tables Rows Metadata → Tables Rows Metadata → Type 0
  StoresAggregate slot root bits x y =
      (period : ℕ) × (slot_to_sync_committee_period env.chain_time slot ≡ some period)
      × ((vs : List ℕ) × (env.sync_committees period ≡ some vs)
          × ((indices : List ℕ) × (members bits vs ≡ some indices)
              × (y ≡ on_rows (put_sync_aggregate (aggregate_row slot root bits indices)) x)))

  or_panic-Runs :
      {A B : Type 0} (P : B → Tables Rows Metadata → Tables Rows Metadata → Type 0) (o : Option A)
      (f : A → Act Rows Metadata B) (a : A)
      → o ≡ some a
      → Runs P (f a)
      → Runs P (or_panic o f)
  or_panic-Runs P o f a e p = subst (λ x. Runs P (or_panic x f)) (sym e) p

  -- The row that a period and a committee of the table give.
  abbrev IsRow : ℕ → ℕ → List Bool → ℕ → SyncAggregate → Type 0
  IsRow slot root bits period row =
      (vs : List ℕ) × (env.sync_committees period ≡ some vs)
      × ((indices : List ℕ) × (members bits vs ≡ some indices)
          × (row ≡ aggregate_row slot root bits indices))

  abbrev IsFor :
      ℕ
      → ℕ
      → List Bool
      → SyncAggregate × Cache
      → Tables Rows Metadata
      → Tables Rows Metadata
      → Type 0
  IsFor slot root bits r x y =
      (y ≡ x)
      × IsFresh r.1
      × ((period : ℕ) × (slot_to_sync_committee_period env.chain_time slot ≡ some period)
          × IsRow slot root bits period r.0)

  module _ (slots : env.chain_time.slots_per_epoch ≢ 0)
      (epochs : env.chain_time.epochs_per_sync_committee_period ≢ 0) (slot root : ℕ)
      (bits : List Bool)
      (long : (period : ℕ) (vs : List ℕ)
        → env.sync_committees period ≡ some vs
        → length bits ≤ length vs) where
    db_sync_aggregate-Runs :
        (cache : Cache)
        → IsFresh cache
        → Runs (IsFor slot root bits) (db_sync_aggregate env slot root bits cache)
    unfolding db_sync_aggregate sync_committee
    db_sync_aggregate-Runs cache fresh =
        let period =
          slot
          / (env.chain_time.epochs_per_sync_committee_period * env.chain_time.slots_per_epoch) in
        let e = slot_to_sync_committee_period-eq env.chain_time slot slots epochs in
        or_panic-Runs (IsFor slot root bits) (slot_to_sync_committee_period env.chain_time slot) _
          period e
          (Runs-then (FromTable period) (λ _. IsFor slot root bits) (IsFor slot root bits)
            (sync_committee env period cache) _
            (or_fetch-Runs period cache (lookup period cache) fresh refl)
            (λ r x y p.
              let (indices, q) = members-some bits r.0 (long period r.0 p.1) in
              or_panic-Runs (IsFor slot root bits) (members bits r.0) _ indices q
                (λ w. ((refl, p.2, (period, e, (r.0, p.1, (indices, q, refl)))), (refl, refl))))
            (λ r s x y z p q. (q.0 ∙ p.0, q.1, q.2)))

    pub update_sync_aggregate_for_block-Runs :
        (cache : Cache)
        → IsFresh cache
        → Runs
            (λ cache' x y. IsFresh cache' × StoresAggregate slot root bits x y)
            (update_sync_aggregate_for_block env slot root bits cache)
    unfolding update_sync_aggregate_for_block
    update_sync_aggregate_for_block-Runs cache fresh =
        Runs-then (IsFor slot root bits)
          (λ r cache' x y. (cache' ≡ r.1) × (y ≡ on_rows (put_sync_aggregate r.0) x))
          (λ cache' x y. IsFresh cache' × StoresAggregate slot root bits x y)
          (db_sync_aggregate env slot root bits cache) _ (db_sync_aggregate-Runs cache fresh)
          (λ r x y p.
            Runs-then (λ _ x' y'. y' ≡ on_rows (put_sync_aggregate r.0) x')
              (λ _ cache' x' y'. (cache' ≡ r.1) × (y' ≡ x'))
              (λ cache' x' y'. (cache' ≡ r.1) × (y' ≡ on_rows (put_sync_aggregate r.0) x')) _ _
              (mutate-Runs env.fault (put_sync_aggregate r.0))
              (λ _ x' y' _ w. ((refl, refl), (refl, refl)))
              (λ _ cache' x' y' z' q q'. (q'.0, q'.1 ∙ q)))
          (λ r cache' x y z (same, fresh', (period, e, (vs, t, (indices, m, row)))) q. (
            subst IsFresh (sym q.0) fresh',
            (
              period,
              e,
              (
                vs,
                t,
                (
                  indices,
                  m,
                  q.1
                      ∙ ap (on_rows (put_sync_aggregate r.0)) same
                      ∙ ap (λ a. on_rows (put_sync_aggregate a) x) row,
                ),
              ),
            ),
          ))
