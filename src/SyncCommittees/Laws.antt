-- ===== src/SyncCommittees/Laws.antt =====
-- services/synccommittees/standard: what it does for a period.
use chaind.Common.{
  ℕ, ◌/◌, ◌<◌, ◌≡◌, refl, false, Option, none, some, List, Ends, weaken-Post, arith, ◌==◌,
}
use chaind.Store.{Tables, World, mutate}
use chaind.Store.Transactions.{Keeps, mutate-Ends}
use chaind.ChainTime.{
  first_slot_of_epoch, first_epoch_of_sync_period, altair_initial_sync_committee_period,
}
use chaind.Catchup.Progress.{IsLawful}
use chaind.SyncCommittees.{
  SyncCommittee, Metadata, Rows, Env, set_sync_committee, set_committee,
  update_sync_committee_for_period, service,
}

-- The client's answer for a period.
abbrev pub answer : Env → ℕ → Option (List ℕ)
answer env period =
    env.sync_committees
      (first_slot_of_epoch env.chain_time (first_epoch_of_sync_period env.chain_time period))

abbrev pub committee_row : ℕ → List ℕ → SyncCommittee
committee_row period validators = record { period = period; committee = validators }

-- The committee of a period is set in the rows.
abbrev pub Writes : Env → ℕ → Tables Rows Metadata → Tables Rows Metadata → Type 0
Writes env period db db' =
    (validators : List ℕ) × (answer env period ≡ some validators)
    × (db' ≡ record db { rows = set_sync_committee (committee_row period validators) db.rows })

module _ (env : Env) where
  set_committee-Ends :
      (period : ℕ) (o : Option (List ℕ)) (w : World Rows Metadata)
      → answer env period ≡ o
      → Ends
          (λ _ v. Writes env period w.db v.db × Keeps w v)
          (λ e v. Keeps w v)
          (set_committee env period o w)
  unfolding set_committee
  set_committee-Ends period none w q = (refl, refl)
  set_committee-Ends period (some validators) w q =
      let f = λ (db : Tables Rows Metadata). record db {
        rows = set_sync_committee (committee_row period validators) db.rows;
      } in
      weaken-Post (λ _ v. (v.db ≡ f w.db) × Keeps w v)
        (λ _ v. Writes env period w.db v.db × Keeps w v) (λ e v. Keeps w v) (λ e v. Keeps w v)
        (λ v. ⊥) (mutate env.fault f w) (mutate-Ends env.fault f w)
        (λ _ v p. ((validators, q, p.0), p.1)) (λ e v p. p)

  pub altair_initial_sync_committee_period-some :
      0 < env.chain_time.epochs_per_sync_committee_period
      → (altair : ℕ) × (altair_initial_sync_committee_period env.chain_time ≡ some altair)
  unfolding altair_initial_sync_committee_period
  altair_initial_sync_committee_period-some p =
      let no : (env.chain_time.epochs_per_sync_committee_period == 0) ≡ false = ground arith in
      (
        env.chain_time.altair_fork_epoch / env.chain_time.epochs_per_sync_committee_period,
        rw no refl,
      )

  pub service-IsLawful :
      0 < env.chain_time.epochs_per_sync_committee_period → IsLawful (service env) (Writes env)
  unfolding update_sync_committee_for_period
  service-IsLawful p =
      let (altair, q) = altair_initial_sync_committee_period-some p in
      record {
        update_ends = λ period w. rw q (set_committee-Ends period (answer env period) w refl);
      }
