-- ===== src/ProposerDuties.antt =====
-- services/proposerduties/standard (handler.go, service.go, metadata.go), and SetProposerDuty of
-- services/chaindb/postgresql/proposerduties.go.
pub mod Duties
pub mod Missed
pub mod Refused
pub mod Laws
use chaind.Common.{
  ℕ, zero, suc, ◌+◌, ◌-◌, Bool, true, false, not, ◌&&◌, Option, none, some, List, [], ◌∷◌, ◌++◌,
  if◌then◌else◌, leb, ◌==◌, length, get_elem?, take, drop, replicate, Outcome, ok, err, panicked,
  looping, pure, fail, crash, ◌>>=◌, ◌>>◌, sub64, two64,
}
use chaind.Store.{
  World, Act, Failure, client, hold, or_cancel, cancel_tx, begin_tx, commit_tx, get_metadata,
  set_metadata, set_answer, ignored, or_exit,
}
use chaind.Catchup
use chaind.Catchup.{catchup, catch_up_from_metadata}

pub record ProposerDuty : Type 0 where
  pub slot : ℕ
  pub validator_index : ℕ

pub record Metadata : Type 0 where
  pub latest_epoch : ℕ
  pub missed_epochs : List ℕ

abbrev pub Rows : Type 0
Rows = List ProposerDuty

-- INSERT … ON CONFLICT (f_slot) DO UPDATE.
unfoldable pub set_proposer_duty : ProposerDuty → Rows → Rows
set_proposer_duty d [] = d ∷ []
set_proposer_duty d (e ∷ es) = if e.slot == d.slot then d ∷ es else e ∷ set_proposer_duty d es

abbrev pub no_metadata : Metadata
no_metadata = record { latest_epoch = two64 - 1; missed_epochs = [] }

-- What the service uses: the calls of the database that fail, and the answers of the consensus client.
pub record Env : Type 0 where
  pub fault : ℕ → Bool
  pub duties : ℕ → Option (List ProposerDuty)

-- The list that handleMissed makes of the missed epochs: of its length less one, with the first
-- `failed` ones and those behind `i` copied in, as far as they go; what is left is 0.
unfoldable pub without : ℕ → ℕ → List ℕ → List ℕ
without failed i missed =
    let rest = length missed - 1 - failed in
    take failed missed ++ take rest (drop (i + 1) missed ++ replicate rest 0)

module _ (env : Env) where
  unfoldable pub update_proposer_duties_for_epoch : ℕ → Act Rows Metadata (Unit {0})
  update_proposer_duties_for_epoch epoch = set_answer env.fault set_proposer_duty (env.duties epoch)

  abbrev pub service : Catchup.Service Rows Metadata
  service = record {
    fault = env.fault;
    latest = λ md. md.latest_epoch;
    advance = λ epoch md. record md { latest_epoch = epoch };
    update = update_proposer_duties_for_epoch;
  }

  -- The end of a round of handleMissed, once the epoch's duties are set: an error ends the loop.
  store_missed : ℕ → ℕ → Act Rows Metadata (Unit {0})
  unfolding without
  store_missed failed i =
      hold (λ md. record md { missed_epochs = without failed i md.missed_epochs })
      >> or_cancel (set_metadata env.fault)
      >> or_cancel (commit_tx env.fault)

  -- With how the update of an epoch ended: `rest` has the rounds after a failure, and `next` those
  -- after a success, which takes the epoch out of the list.
  after_update :
      Outcome Failure (Unit {0}) × World Rows Metadata
      → Act Rows Metadata (Unit {0})
      → Act Rows Metadata (Unit {0})
      → Outcome Failure (Unit {0}) × World Rows Metadata
  unfolding cancel_tx
  after_update (ok _, w) next rest = next w
  after_update (err e, w) next rest = rest (cancel_tx w)
  after_update (panicked, w) next rest = (panicked, w)
  after_update (looping, w) next rest = (looping, w)

  -- The epoch at a place of the list, and the round for it.
  round_at : Option ℕ → (ℕ → Act Rows Metadata (Unit {0})) → Act Rows Metadata (Unit {0})
  round_at none round = pure tt
  round_at (some epoch) round = round epoch

  handle_missed_from : ℕ → ℕ → ℕ → Act Rows Metadata (Unit {0})
  unfolding update_proposer_duties_for_epoch store_missed after_update round_at
  handle_missed_from zero failed i = λ w. (looping, w)
  handle_missed_from (suc fuel) failed i =
      let success = store_missed failed i >> handle_missed_from fuel failed i in
      let failure = handle_missed_from fuel (failed + 1) (i + 1) in
      λ w.
        round_at (get_elem? w.held.missed_epochs i)
          (λ epoch. begin_tx env.fault >> λ v.
            after_update (update_proposer_duties_for_epoch epoch v) success failure)
          w

  -- handleMissed: its errors are logged. The fuel is one round for each missed epoch, and one more.
  unfoldable pub handle_missed : Act Rows Metadata (Unit {0})
  unfolding handle_missed_from
  handle_missed w =
      let r = handle_missed_from (suc (length w.held.missed_epochs)) 0 0 w in ignored r.0 r.1

  -- The epoch to start from, if it is not negative.
  start_from : Option ℕ → Metadata → Metadata
  start_from none md = md
  start_from (some epoch) md = record md { latest_epoch = sub64 epoch 1 }

  again_if_missed : ℕ → (ℕ → ℕ) → Act Rows Metadata (Unit {0})
  unfolding handle_missed
  again_if_missed fuel now w =
      if length w.held.missed_epochs == 0
      then (ok tt, w)
      else (handle_missed >> catchup service fuel now) w

  -- The catching up after a restart, up to the event handler that it sets up. The program ends where
  -- the metadata cannot be read. `now` and `now'` are the readings of the clock for the two runs.
  unfoldable pub update_after_restart :
      ℕ → (ℕ → ℕ) → (ℕ → ℕ) → Option ℕ → Act Rows Metadata (Unit {0})
  unfolding start_from again_if_missed
  update_after_restart fuel now now' start = do
    md ← or_exit (get_metadata env.fault no_metadata)
    hold (λ _. start_from start md)
    catchup service fuel now
    again_if_missed fuel now'

  -- OnBeaconChainHeadUpdated, with whether it gets the semaphore.
  unfoldable pub on_beacon_chain_head_updated :
      ℕ → (ℕ → ℕ) → Bool → Bool → Act Rows Metadata (Unit {0})
  on_beacon_chain_head_updated fuel now epoch_transition acquired =
      if epoch_transition && acquired
      then catch_up_from_metadata service no_metadata fuel now
      else pure tt
