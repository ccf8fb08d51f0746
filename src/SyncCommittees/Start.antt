-- ===== src/SyncCommittees/Start.antt =====
-- services/synccommittees/standard/service.go: the period that a restart starts from.
use chaind.Common.{
  ℕ, suc, ◌≤◌, ◌<◌, ◌≡◌, refl, subst, false, ◌||◌, none, some, ok, add64, two64, arith,
  if◌then◌else◌, ◌==◌, leb,
}
use chaind.Store.{World, hold, or_exit, get_metadata, query, statement}
use chaind.ChainTime.{altair_initial_sync_committee_period}
use chaind.Catchup.Progress.{HasCaughtUp, catchup-HasCaughtUp}
use chaind.Catchup.Handler.{stored}
use chaind.SyncCommittees.{
  Metadata, Rows, Env, no_metadata, lift_to_altair, service, start_from, update_after_restart,
}
use chaind.SyncCommittees.Laws.{Writes, service-IsLawful}

-- The first period to catch up with: the one after the latest, or Altair's first one if that is later;
-- but 0 where there is no latest one.
abbrev pub first_period : ℕ → ℕ → ℕ
first_period altair latest =
    if suc latest == two64 then 0 else if leb altair (suc latest) then suc latest else altair

pub lift_to_altair_lem :
    (altair : ℕ) (md : Metadata)
    → altair < two64
    → md.latest_period < two64
    → add64 (lift_to_altair altair md).latest_period 1 ≡ first_period altair md.latest_period
unfolding lift_to_altair
lift_to_altair_lem altair md a b = ground arith

module _ (env : Env) (now : ℕ → ℕ) (last : ℕ) (bound : (j : ℕ) → now j ≤ last)
    (small : suc last < two64)
    (positive : 0 < env.chain_time.epochs_per_sync_committee_period) where
  -- From outside any transaction, where epochs_per_sync_committee_period is not 0, the stored
  -- latest period and Altair's first one are 64-bit numbers, the metadata can be read, the clock
  -- stays up to a bound that is below 2^64 - 1, with fuel for each period up to it, and no period
  -- to start from is given, a restart ends without an error or a panic. The clock is read once
  -- before each period. The committees have then been set from a first period on, in order and
  -- without a gap, each period not ahead of its own reading of the clock, up to the first one that
  -- is ahead of its reading, or that is not and fails. The first period is the later one of
  -- Altair's first one and the one after the stored one; but it is 0, whatever Altair's is, where
  -- the stored number is -1, as it is where no metadata are stored.
  pub update_after_restart-HasCaughtUp :
      (altair : ℕ) (w : World Rows Metadata)
      → w.saved ≡ none
      → (env.fault w.calls || w.aborted) ≡ false
      → altair_initial_sync_committee_period env.chain_time ≡ some altair
      → altair < two64
      → (stored no_metadata w.db).latest_period < two64
      → let held = lift_to_altair altair (stored no_metadata w.db) in
        (v : World Rows Metadata) × (update_after_restart env (suc (suc last)) now none w
          ≡ (ok tt, v))
        × HasCaughtUp
            (service env)
            (Writes env)
            (service-IsLawful env positive)
            now
            (first_period altair (stored no_metadata w.db).latest_period)
            (record w { calls = suc w.calls; held = held })
            v
  unfolding update_after_restart hold or_exit start_from get_metadata query statement
  update_after_restart-HasCaughtUp altair w e reads q a b =
      let held = lift_to_altair altair (stored no_metadata w.db) in
      let u = record w { calls = suc w.calls; held = held } in
      let (v, run, done) =
        catchup-HasCaughtUp (service env) (Writes env) (service-IsLawful env positive) now last
          bound small u e in
      (
        v,
        rw (reads, q, run) refl,
        subst
            (λ k. HasCaughtUp (service env) (Writes env) (service-IsLawful env positive) now k u v)
            (lift_to_altair_lem altair (stored no_metadata w.db) a b) done,
      )
