-- ===== src/BeaconCommittees/Laws.antt =====
-- services/beaconcommittees/standard: what it does for an epoch, and for a new head.
use chaind.Common.{
  ℕ, suc, ◌≤◌, ◌<◌, ◌≡◌, refl, ◌⊎◌, inl, inr, Bool, true, false, ◌&&◌, none, ok, Bool-cases, two64,
}
use chaind.Store.{Tables, World}
use chaind.Store.Transactions.{WritesAnswer, set_answer-Ends}
use chaind.ChainTime.{first_slot_of_epoch}
use chaind.Catchup.Progress.{IsLawful}
use chaind.Catchup.Handler.{HasHandledHead, catch_up_from_metadata-HasHandledHead}
use chaind.BeaconCommittees.{
  Metadata, Rows, Env, no_metadata, set_beacon_committee, update_beacon_committees_for_epoch,
  service, on_beacon_chain_head_updated,
}

-- The committees of an epoch, as the client gives them for the state at its first slot, are set in the
-- rows.
abbrev pub Writes : Env → ℕ → Tables Rows Metadata → Tables Rows Metadata → Type 0
Writes env epoch =
    WritesAnswer env.fault set_beacon_committee
      (env.beacon_committees (first_slot_of_epoch env.chain_time epoch))

pub service-IsLawful : (env : Env) → IsLawful (service env) (Writes env)
unfolding update_beacon_committees_for_epoch
service-IsLawful env = record {
  update_ends = λ epoch w.
      set_answer-Ends env.fault set_beacon_committee
        (env.beacon_committees (first_slot_of_epoch env.chain_time epoch)) w;
}

module _ (env : Env) (now : ℕ → ℕ) (last : ℕ) (bound : (j : ℕ) → now j ≤ last)
    (small : suc last < two64) where
  -- From outside any transaction, where the clock stays up to a bound that is below 2^64 - 1, with
  -- fuel for each epoch up to it, the handler ends without an error or a panic. Where the event is
  -- no epoch transition or another handler is at work, nothing has changed. Otherwise either the
  -- metadata could not be read, and the rows are as they were; or the clock is read once before
  -- each epoch, and the committees of the epochs from the one after the stored one on have been
  -- set, in order and without a gap, each epoch not ahead of its own reading of the clock, with its
  -- number and in a transaction of its own, up to the first one that is ahead of its reading, or
  -- that is not and fails.
  pub on_beacon_chain_head_updated-HasHandledHead :
      (epoch_transition acquired : Bool) (w : World Rows Metadata)
      → w.saved ≡ none
      → (v : World Rows Metadata) × (on_beacon_chain_head_updated env
            (suc (suc last))
            now
            epoch_transition
            acquired
            w
          ≡ (ok tt, v))
        × ((((epoch_transition && acquired) ≡ false) × (v ≡ w))
            ⊎ (((epoch_transition && acquired) ≡ true)
                × HasHandledHead
                    (service env)
                    (Writes env)
                    (service-IsLawful env)
                    no_metadata
                    now
                    w
                    v))
  unfolding on_beacon_chain_head_updated
  on_beacon_chain_head_updated-HasHandledHead epoch_transition acquired w e =
      elim (Bool-cases (epoch_transition && acquired)) [
        | inr a ↦ (w, rw a refl, inl (a, refl))
        | inl a ↦
            let (v, run, done) =
              catch_up_from_metadata-HasHandledHead (service env) (Writes env)
                (service-IsLawful env) now last bound small no_metadata w e in
            (v, rw a run, inr (a, done))
      ]
