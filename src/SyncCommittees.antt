-- ===== src/SyncCommittees.antt =====
-- services/synccommittees/standard (handler.go, service.go, metadata.go), and SetSyncCommittee of
-- services/chaindb/postgresql/synccommittees.go.
pub mod Laws
pub mod Start
use chaind.Common.{
  ℕ, ◌-◌, Bool, not, Option, none, some, List, [], ◌∷◌, if◌then◌else◌, ◌==◌, ltb, ltb_ℤ, to_int64,
  pure, fail, crash, ◌>>=◌, ◌>>◌, sub64, two64,
}
use chaind.Store.{Act, client, hold, ignored, or_exit, get_metadata, mutate}
use chaind.ChainTime
use chaind.ChainTime.{
  first_slot_of_epoch, first_epoch_of_sync_period, altair_initial_sync_committee_period,
  slot_to_epoch, epoch_to_sync_committee_period,
}
use chaind.Catchup
use chaind.Catchup.{catchup}

pub record SyncCommittee : Type 0 where
  pub period : ℕ
  pub committee : List ℕ

pub record Metadata : Type 0 where
  pub latest_period : ℕ

abbrev pub Rows : Type 0
Rows = List SyncCommittee

-- INSERT … ON CONFLICT (f_period) DO UPDATE.
unfoldable pub set_sync_committee : SyncCommittee → Rows → Rows
set_sync_committee c [] = c ∷ []
set_sync_committee c (e ∷ es) = if e.period == c.period then c ∷ es else e ∷ set_sync_committee c es

abbrev pub no_metadata : Metadata
no_metadata = record { latest_period = two64 - 1 }

-- What the service uses: the calls of the database that fail, the chain's parameters, and the answers
-- of the consensus client for the state at a slot.
pub record Env : Type 0 where
  pub fault : ℕ → Bool
  pub chain_time : ChainTime.Service
  pub sync_committees : ℕ → Option (List ℕ)

-- A number that the chain's clock gives, or the panic of its division by 0.
abbrev pub clock : {A : Type 0} → Option ℕ → (ℕ → Act Rows Metadata A) → Act Rows Metadata A
clock none f = crash
clock (some n) f = f n

-- The latest period, where it is before Altair's first one as an unsigned number.
unfoldable pub lift_to_altair : ℕ → Metadata → Metadata
lift_to_altair altair md =
    if ltb md.latest_period altair then record { latest_period = sub64 altair 1 } else md

module _ (env : Env) where
  set_committee : ℕ → Option (List ℕ) → Act Rows Metadata (Unit {0})
  set_committee period none = fail client
  set_committee period (some validators) = mutate env.fault (λ db. record db {
    rows = set_sync_committee (record { period = period; committee = validators }) db.rows;
  })

  -- A period before Altair is reported to the log, and gone on with.
  unfoldable pub update_sync_committee_for_period : ℕ → Act Rows Metadata (Unit {0})
  unfolding set_committee
  update_sync_committee_for_period period =
      clock (altair_initial_sync_committee_period env.chain_time) λ _. set_committee period (
        env.sync_committees
          (first_slot_of_epoch env.chain_time (first_epoch_of_sync_period env.chain_time period)))

  abbrev pub service : Catchup.Service Rows Metadata
  service = record {
    fault = env.fault;
    latest = λ md. md.latest_period;
    advance = λ period md. record { latest_period = period };
    update = update_sync_committee_for_period;
  }

  start_from : Option ℕ → Metadata → Metadata
  start_from none md = md
  start_from (some period) md = record { latest_period = sub64 period 1 }

  -- The catching up after a restart, up to the event handler that it sets up: `start` is the period to
  -- start from, if it is not negative.
  unfoldable pub update_after_restart : ℕ → (ℕ → ℕ) → Option ℕ → Act Rows Metadata (Unit {0})
  unfolding start_from
  update_after_restart fuel now start = do
    md ← or_exit (get_metadata env.fault no_metadata)
    hold (λ _. start_from start md)
    clock (altair_initial_sync_committee_period env.chain_time)
        λ altair. hold (lift_to_altair altair) >> catchup service fuel now

  -- The handler, once the epoch and the period of the slot are known.
  handle_period : ℕ → (ℕ → ℕ) → ℕ → ℕ → Act Rows Metadata (Unit {0})
  handle_period fuel now epoch period =
      if ltb epoch env.chain_time.altair_fork_epoch then pure tt else do
        md ← get_metadata env.fault no_metadata
        hold (λ _. md)
        if not (ltb_ℤ (to_int64 md.latest_period) (to_int64 period))
            then pure tt
            else catchup service fuel now

  unfoldable pub on_beacon_chain_head_updated :
      ℕ → (ℕ → ℕ) → Bool → ℕ → Act Rows Metadata (Unit {0})
  unfolding handle_period
  on_beacon_chain_head_updated fuel now acquired slot =
      if not acquired
      then pure tt
      else clock (slot_to_epoch env.chain_time slot) λ epoch.
        clock (epoch_to_sync_committee_period env.chain_time epoch)
          λ period w. let r = handle_period fuel now epoch period w in ignored r.0 r.1
