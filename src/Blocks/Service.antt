-- ===== src/Blocks/Service.antt =====
-- services/blocks/standard: UpdateSlot and OnBeaconChainHeadUpdated of handler.go, and updateAfterRestart of
-- service.go.
pub mod Laws
use chaind.Common.{
  ℕ, Bool, true, false, not, Option, none, some, List, [], ◌∷◌, if◌then◌else◌, ◌==◌, Outcome, ok,
  err, panicked, looping, pure, fail, ◌>>=◌, ◌>>◌, sub64,
}
use chaind.Store.{World, Act, Failure, client, query, hold, or_exit, get_metadata}
use chaind.Store.Inserts.{attempt}
use chaind.Catchup
use chaind.Catchup.{catchup}
use chaind.Blocks.{BlockAnswer, obtained, not_found, failed, Metadata, no_metadata, Env}
use chaind.Blocks.Rows.{Rows, BlockRow}
use chaind.Blocks.Sync.{Cache}
use chaind.Blocks.Handler.{on_block}

unfoldable pub is_at : ℕ → List BlockRow → Bool
is_at slot [] = false
is_at slot (b ∷ bs) = let other = is_at slot bs in if b.slot == slot then true else other

module _ (env : Env) where
  on_answer : BlockAnswer → Cache → Act Rows Metadata Cache
  on_answer (obtained b) cache = on_block env b cache
  on_answer not_found cache = pure cache
  on_answer failed cache = fail client

  -- An error of BlocksBySlot is passed over.
  unless_there : ℕ → Cache → Option Bool → Act Rows Metadata Cache
  unfolding on_answer
  unless_there slot cache none = on_answer (env.signed_beacon_block slot) cache
  unless_there slot cache (some true) = pure cache
  unless_there slot cache (some false) = on_answer (env.signed_beacon_block slot) cache

  unfoldable pub update_block_for_slot : ℕ → Cache → Act Rows Metadata Cache
  unfolding unless_there
  update_block_for_slot slot cache =
      if env.refetch
      then on_answer (env.signed_beacon_block slot) cache
      else (attempt (query env.fault (λ db. is_at slot db.rows.blocks)) >>= unless_there slot cache)

  abbrev pub service : Catchup.Service Rows Metadata
  service = record {
    fault = env.fault;
    latest = λ md. md.latest_slot;
    advance = λ slot md. record { latest_slot = slot };
    update = λ slot. update_block_for_slot slot (env.cached slot) >>= λ _. pure tt;
  }

  start_from : Option ℕ → Metadata → Metadata
  start_from none md = md
  start_from (some slot) md = record { latest_slot = sub64 slot 1 }

  -- The catching up after a restart, up to the event handler that it sets up: `start` is the slot to
  -- start from, if it is not negative, and `acquired` is whether it gets the semaphore.
  unfoldable pub update_after_restart : ℕ → (ℕ → ℕ) → Bool → Option ℕ → Act Rows Metadata (Unit {0})
  unfolding start_from
  update_after_restart fuel now acquired start = if not acquired then pure tt else do
    md ← or_exit (get_metadata env.fault no_metadata)
    hold (λ _. start_from start md)
    catchup service fuel now

  -- The root that is kept where the metadata cannot be read.
  kept_root : ℕ → Outcome Failure ℕ → World Rows Metadata → Outcome Failure ℕ × World Rows Metadata
  kept_root handled (ok root) w = (ok root, w)
  kept_root handled (err e) w = (ok handled, w)
  kept_root handled panicked w = (panicked, w)
  kept_root handled looping w = (looping, w)

  catch_up_to : ℕ → (ℕ → ℕ) → ℕ → Act Rows Metadata ℕ
  catch_up_to fuel now root = do
    md ← get_metadata env.fault no_metadata
    hold (λ _. md)
    catchup service fuel now
    pure root

  -- `handled` is lastHandledBlockRoot, and the value that is returned is the new one.
  unfoldable pub on_beacon_chain_head_updated : ℕ → (ℕ → ℕ) → Bool → ℕ → ℕ → Act Rows Metadata ℕ
  unfolding kept_root catch_up_to
  on_beacon_chain_head_updated fuel now acquired handled root w =
      if not acquired
      then (ok handled, w)
      else if handled == root
      then (ok handled, w)
      else (let r = catch_up_to fuel now root w in kept_root handled r.0 r.1)
