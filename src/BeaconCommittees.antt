-- ===== src/BeaconCommittees.antt =====
-- services/beaconcommittees/standard (handler.go, service.go, metadata.go), and SetBeaconCommittee of
-- services/chaindb/postgresql/beaconcommittees.go.
pub mod Laws
use chaind.Common.{
  ℕ, ◌-◌, Bool, ◌&&◌, Option, none, some, List, [], ◌∷◌, if◌then◌else◌, ◌==◌, pure, ◌>>=◌, ◌>>◌,
  sub64, two64,
}
use chaind.Store.{Act, hold, or_exit, get_metadata, set_answer}
use chaind.ChainTime
use chaind.ChainTime.{first_slot_of_epoch}
use chaind.Catchup
use chaind.Catchup.{catchup, catch_up_from_metadata}

pub record BeaconCommittee : Type 0 where
  pub slot : ℕ
  pub index : ℕ
  pub committee : List ℕ

pub record Metadata : Type 0 where
  pub latest_epoch : ℕ

abbrev pub Rows : Type 0
Rows = List BeaconCommittee

-- INSERT … ON CONFLICT (f_slot,f_index) DO UPDATE.
unfoldable pub set_beacon_committee : BeaconCommittee → Rows → Rows
set_beacon_committee c [] = c ∷ []
set_beacon_committee c (e ∷ es) =
    if e.slot == c.slot && e.index == c.index then c ∷ es else e ∷ set_beacon_committee c es

abbrev pub no_metadata : Metadata
no_metadata = record { latest_epoch = two64 - 1 }

-- What the service uses: the calls of the database that fail, the chain's parameters, and the answers
-- of the consensus client for the state at a slot.
pub record Env : Type 0 where
  pub fault : ℕ → Bool
  pub chain_time : ChainTime.Service
  pub beacon_committees : ℕ → Option (List BeaconCommittee)

module _ (env : Env) where
  unfoldable pub update_beacon_committees_for_epoch : ℕ → Act Rows Metadata (Unit {0})
  update_beacon_committees_for_epoch epoch =
      set_answer env.fault set_beacon_committee
        (env.beacon_committees (first_slot_of_epoch env.chain_time epoch))

  abbrev pub service : Catchup.Service Rows Metadata
  service = record {
    fault = env.fault;
    latest = λ md. md.latest_epoch;
    advance = λ epoch md. record { latest_epoch = epoch };
    update = update_beacon_committees_for_epoch;
  }

  start_from : Option ℕ → Metadata → Metadata
  start_from none md = md
  start_from (some epoch) md = record { latest_epoch = sub64 epoch 1 }

  -- The catching up after a restart, up to the event handler that it sets up: `start` is the epoch to
  -- start from, if it is not negative, and `acquired` is whether it gets the semaphore.
  unfoldable pub update_after_restart : ℕ → (ℕ → ℕ) → Bool → Option ℕ → Act Rows Metadata (Unit {0})
  unfolding start_from
  update_after_restart fuel now acquired start = do
    md ← or_exit (get_metadata env.fault no_metadata)
    hold (λ _. start_from start md)
    if acquired then catchup service fuel now else pure tt

  unfoldable pub on_beacon_chain_head_updated :
      ℕ → (ℕ → ℕ) → Bool → Bool → Act Rows Metadata (Unit {0})
  on_beacon_chain_head_updated fuel now epoch_transition acquired =
      if epoch_transition && acquired
      then catch_up_from_metadata service no_metadata fuel now
      else pure tt
