-- ===== src/Blocks/Sync.antt =====
-- services/blocks/standard/handler.go: the sync aggregate of a block, with the service's map of sync
-- committees (s.syncCommittees), which is handed on from one block to the next.
pub mod Laws
use chaind.Common.{
  ℕ, ◌-◌, Bool, ◌&&◌, Option, none, some, List, [], ◌∷◌, if◌then◌else◌, ◌==◌, ltb, pure, fail,
  ◌>>=◌, ◌>>◌,
}
use chaind.Store.{Act, no_data, query, mutate}
use chaind.Store.Inserts.{upsert}
use chaind.ChainTime.{slot_to_sync_committee_period}
use chaind.SyncCommittees.{SyncCommittee}
use chaind.Blocks.{Metadata, Env}
use chaind.Blocks.Rows.{Rows, SyncAggregate}
use chaind.Blocks.Votes.{members, or_panic}

-- Periods, at most once each, with their committees.
abbrev pub Cache : Type 0
Cache = List SyncCommittee

unfoldable pub lookup : ℕ → Cache → Option (List ℕ)
lookup period [] = none
lookup period (c ∷ cs) =
    let other = lookup period cs in if c.period == period then some c.committee else other

unfoldable pub delete : ℕ → Cache → Cache
delete period [] = []
delete period (c ∷ cs) =
    let others = delete period cs in if c.period == period then others else c ∷ others

-- The map with a committee that has just been fetched, and without an old one.
unfoldable pub remember : ℕ → List ℕ → Cache → Cache
unfolding delete
remember period validators cache =
    let c : SyncCommittee = record { period = period; committee = validators } in
    if ltb 1 period then delete (period - 2) (c ∷ cache) else c ∷ cache

abbrev pub same_block : SyncAggregate → SyncAggregate → Bool
same_block a b =
    a.inclusion_slot == b.inclusion_slot && a.inclusion_block_root == b.inclusion_block_root

abbrev pub put_sync_aggregate : SyncAggregate → Rows → Rows
put_sync_aggregate a rows = record rows {
  sync_aggregates = upsert same_block a rows.sync_aggregates;
}

abbrev pub aggregate_row : ℕ → ℕ → List Bool → List ℕ → SyncAggregate
aggregate_row slot root bits indices = record {
  inclusion_slot = slot;
  inclusion_block_root = root;
  bits = bits;
  indices = indices;
}

module _ (env : Env) where
  fetched : ℕ → Cache → Option (List ℕ) → Act Rows Metadata (List ℕ × Cache)
  fetched period cache none = fail no_data
  fetched period cache (some validators) = pure (validators, remember period validators cache)

  or_fetch : ℕ → Cache → Option (List ℕ) → Act Rows Metadata (List ℕ × Cache)
  unfolding fetched
  or_fetch period cache (some validators) = pure (validators, cache)
  or_fetch period cache none =
      query env.fault (λ db. env.sync_committees period) >>= fetched period cache

  unfoldable pub sync_committee : ℕ → Cache → Act Rows Metadata (List ℕ × Cache)
  unfolding or_fetch
  sync_committee period cache = or_fetch period cache (lookup period cache)

  unfoldable pub db_sync_aggregate :
      ℕ → ℕ → List Bool → Cache → Act Rows Metadata (SyncAggregate × Cache)
  unfolding sync_committee
  db_sync_aggregate slot root bits cache =
      or_panic (slot_to_sync_committee_period env.chain_time slot) λ period.
        sync_committee period cache >>= λ r.
        or_panic (members bits r.0) λ indices. pure (aggregate_row slot root bits indices, r.1)

  unfoldable pub update_sync_aggregate_for_block :
      ℕ → ℕ → List Bool → Cache → Act Rows Metadata Cache
  unfolding db_sync_aggregate
  update_sync_aggregate_for_block slot root bits cache =
      db_sync_aggregate slot root bits cache >>= λ r.
      mutate env.fault (λ db. record db { rows = put_sync_aggregate r.0 db.rows }) >> pure r.1
