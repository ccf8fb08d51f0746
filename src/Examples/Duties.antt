-- ===== src/Examples/Duties.antt =====
-- The services for proposer duties, beacon committees and sync committees, from empty tables and with a
-- client that does not know the duties of epoch 1.
use chaind.Common.{
  if◌then◌else◌, ℕ, suc, ◌≡◌, refl, ◌⊎◌, ◌&&◌, Bool, true, false, Option, none, some, List, [], ◌∷◌,
  ok, err, ◌>>◌, ◌==◌, ◌*◌, ◌-◌, add64, two64, arith,
}
use chaind.Store.{
  World, database, set_answer, set_each, mutate, statement, begin_tx, commit_tx, set_metadata,
  or_cancel, cancelled, cancel_tx, hold,
}
use chaind.ChainTime.{altair_initial_sync_committee_period}
use chaind.Catchup.{update_unit, catchup}
use chaind.Catchup.Progress.{HasCaughtUp, catchup-HasCaughtUp}
use chaind.Catchup.Handler.{HasHandledHead}
use chaind.Catchup.Lost.{catchup-skips}
use chaind.ProposerDuties
use chaind.ProposerDuties.{ProposerDuty, handle_missed, update_proposer_duties_for_epoch}
use chaind.ProposerDuties.Duties.{duty_at, last_duty, answered}
use chaind.ProposerDuties.Laws.{Writes, service-IsLawful}
use chaind.ProposerDuties.Missed.{HasHandled, handle_missed-HasHandled}
use chaind.BeaconCommittees
use chaind.BeaconCommittees.Laws.{on_beacon_chain_head_updated-HasHandledHead}
use chaind.SyncCommittees
use chaind.SyncCommittees.{lift_to_altair}
use chaind.SyncCommittees.Start.{update_after_restart-HasCaughtUp}
use chaind.Examples.Clock.{mainnet}

abbrev some_duties : ℕ → Option (List ProposerDuty)
some_duties epoch =
    if epoch == 1 then none else some (record { slot = 32 * epoch; validator_index = 5 } ∷ [])

abbrev never : ℕ → Bool
never n = false

abbrev quiet_env : ProposerDuties.Env
quiet_env = record { fault = never; duties = some_duties }

-- A database of which the fourth call fails: the commit of the first epoch.
abbrev env : ProposerDuties.Env
env = record { fault = λ n. n == 3; duties = some_duties }

abbrev clock : ℕ → ℕ
clock j = 2

abbrev start : World ProposerDuties.Rows ProposerDuties.Metadata
start = record {
  db = record { rows = []; metadata = none };
  saved = none;
  aborted = false;
  calls = 0;
  held = record { latest_epoch = two64 - 1; missed_epochs = 1 ∷ 0 ∷ [] };
}

catchup_example :
    (v : World ProposerDuties.Rows ProposerDuties.Metadata) × (catchup
        (ProposerDuties.service env)
        (suc (suc 2))
        clock
        start
      ≡ (ok tt, v))
    × HasCaughtUp
        (ProposerDuties.service env)
        (Writes env)
        (service-IsLawful env)
        clock
        (add64 start.held.latest_epoch 1)
        start
        v
catchup_example =
    catchup-HasCaughtUp (ProposerDuties.service env) (Writes env) (service-IsLawful env) clock 2
      (λ j. omega arith) (omega arith) start refl

handle_missed_example :
    (v : World ProposerDuties.Rows ProposerDuties.Metadata) × (handle_missed quiet_env start
      ≡ (ok tt, v))
    × HasHandled quiet_env (λ n. refl) [] (1 ∷ 0 ∷ []) start v
    × ((slot : ℕ) → duty_at slot v.db.rows ≡ last_duty slot (answered quiet_env (1 ∷ 0 ∷ [])) none)
handle_missed_example = handle_missed-HasHandled quiet_env (λ n. refl) start refl

-- After the writes of epoch 0, and after its commit has failed.
abbrev written : World ProposerDuties.Rows ProposerDuties.Metadata
written = record start {
  db = record { rows = record { slot = 0; validator_index = 5 } ∷ []; metadata = none };
  saved = some start.db;
  calls = 2;
}

abbrev failed : World ProposerDuties.Rows ProposerDuties.Metadata
failed = record start { calls = 4; held = record { latest_epoch = 0; missed_epochs = 1 ∷ 0 ∷ [] } }

first_writes :
    (begin_tx env.fault >> or_cancel (update_proposer_duties_for_epoch env 0)) start
    ≡ (ok tt, written)
unfolding update_proposer_duties_for_epoch set_answer set_each mutate statement begin_tx or_cancel
    cancelled cancel_tx ProposerDuties.set_proposer_duty
first_writes = refl

first_fails : update_unit (ProposerDuties.service env) 0 start ≡ (err database, failed)
unfolding update_unit update_proposer_duties_for_epoch set_answer set_each mutate statement begin_tx
    commit_tx set_metadata or_cancel cancelled cancel_tx hold
first_fails = refl

catchup-skips_example :
    (failed.db ≡ start.db)
    × (failed.held.latest_epoch ≡ 0)
    × ((u : World ProposerDuties.Rows ProposerDuties.Metadata) × (catchup
            (ProposerDuties.service env)
            (suc (suc 2))
            clock
            failed
          ≡ (ok tt, u))
        × HasCaughtUp
            (ProposerDuties.service env)
            (Writes env)
            (service-IsLawful env)
            clock
            (add64 0 1)
            failed
            u)
catchup-skips_example =
    catchup-skips (ProposerDuties.service env) (Writes env) (service-IsLawful env) clock 2
      (λ j. omega arith) (omega arith) 0 start written failed database refl (λ h. refl) first_writes
      first_fails

abbrev committees : BeaconCommittees.Env
committees = record {
  fault = never;
  chain_time = mainnet;
  beacon_committees = λ slot. some (record { slot = slot; index = 0; committee = 3 ∷ 4 ∷ [] } ∷ []);
}

abbrev no_committees : World BeaconCommittees.Rows BeaconCommittees.Metadata
no_committees = record {
  db = record { rows = []; metadata = some (record { latest_epoch = 0 }) };
  saved = none;
  aborted = false;
  calls = 0;
  held = BeaconCommittees.no_metadata;
}

on_beacon_chain_head_updated_example :
    (v : World BeaconCommittees.Rows BeaconCommittees.Metadata)
    × (BeaconCommittees.on_beacon_chain_head_updated committees
          (suc (suc 2))
          clock
          true
          true
          no_committees
        ≡ (ok tt, v))
    × ((((true && true) ≡ false) × (v ≡ no_committees))
        ⊎ (((true && true) ≡ true)
            × HasHandledHead
                (BeaconCommittees.service committees)
                (BeaconCommittees.Laws.Writes committees)
                (BeaconCommittees.Laws.service-IsLawful committees)
                BeaconCommittees.no_metadata
                clock
                no_committees
                v))
on_beacon_chain_head_updated_example =
    on_beacon_chain_head_updated-HasHandledHead committees clock 2 (λ j. omega arith) (omega arith)
      true true no_committees refl

abbrev sync : SyncCommittees.Env
sync = record { fault = never; chain_time = mainnet; sync_committees = λ slot. some (3 ∷ 4 ∷ []) }

abbrev no_sync : World SyncCommittees.Rows SyncCommittees.Metadata
no_sync = record {
  db = record { rows = []; metadata = none };
  saved = none;
  aborted = false;
  calls = 0;
  held = SyncCommittees.no_metadata;
}

altair_is : altair_initial_sync_committee_period sync.chain_time ≡ some 290
unfolding altair_initial_sync_committee_period
altair_is = refl

-- With no metadata in the tables, the first period is 0, not Altair's first one, 290.
update_after_restart_example :
    (v : World SyncCommittees.Rows SyncCommittees.Metadata) × (SyncCommittees.update_after_restart
        sync
        (suc (suc 2))
        clock
        none
        no_sync
      ≡ (ok tt, v))
    × HasCaughtUp
        (SyncCommittees.service sync)
        (SyncCommittees.Laws.Writes sync)
        (SyncCommittees.Laws.service-IsLawful sync (omega arith))
        clock
        0
        (record no_sync { calls = 1; held = lift_to_altair 290 SyncCommittees.no_metadata })
        v
update_after_restart_example =
    update_after_restart-HasCaughtUp sync clock 2 (λ j. omega arith) (omega arith) (omega arith) 290
      no_sync refl refl altair_is (omega arith) (omega arith)
