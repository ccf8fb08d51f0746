-- ===== src/Examples/Clock.antt =====
-- services/chaintime/standard/service.go on the parameters of the main network.
use chaind.Common.{
  ℕ, ◌-◌, ◌*◌, ◌/◌, ◌≤◌, ◌≡◌, refl, ◌↔◌, some, none, arith, two64, ℤ, pos, ◌+ℤ◌, ◌-ℤ◌, ◌≤ℤ◌, [],
  ◌∷◌, ok,
}
use chaind.ChainTime.{
  Service, slot_to_epoch, first_slot_of_epoch, last_slot_of_epoch, start_of_slot, timestamp_to_slot,
  epoch_to_sync_committee_period, altair_initial_sync_committee_period,
}
use chaind.ChainTime.Epochs.{slot_to_epoch_iff}
use chaind.ChainTime.Times.{second, IsSeconds, timestamp_to_slot_iff}
use chaind.ChainTime.Setup.{Spec, duration, number, Answers, new, lookup}
use chaind.ChainTime.Setup.Laws.{new-without_period}

abbrev pub mainnet : Service
mainnet = record {
  genesis_time = pos 1_606_824_023_000_000_000;
  slot_duration = 12_000_000_000;
  slots_per_epoch = 32;
  epochs_per_sync_committee_period = 256;
  altair_fork_epoch = 74240;
  bellatrix_fork_epoch = 144896;
  capella_fork_epoch = 194048;
  deneb_fork_epoch = 269568;
}

-- Whole seconds, rounded down: one function that meets what is assumed of the conversion.
abbrev whole_seconds : ℕ → ℕ
whole_seconds d = d / 1_000_000_000

whole_seconds-IsSeconds : IsSeconds whole_seconds
whole_seconds-IsSeconds = record { whole = λ k h. omega arith; mono = λ a b h k. omega arith }

slot_to_epoch_example :
    (slot_to_epoch mainnet 100 ≡ some 3)
    ↔ ((first_slot_of_epoch mainnet 3 ≤ 100) × (100 ≤ last_slot_of_epoch mainnet 3))
slot_to_epoch_example = slot_to_epoch_iff mainnet 100 3 (omega arith) (omega arith) (omega arith)

-- 1207 seconds after genesis.
abbrev timestamp : ℤ
timestamp = mainnet.genesis_time +ℤ pos (1207 * second)

timestamp_to_slot_example :
    (timestamp_to_slot whole_seconds mainnet timestamp ≡ some 100)
    ↔ ((start_of_slot mainnet 100 ≤ℤ timestamp) × ¬ (start_of_slot mainnet 101 ≤ℤ timestamp))
timestamp_to_slot_example =
    timestamp_to_slot_iff whole_seconds whole_seconds-IsSeconds mainnet 1207 12 100 (omega arith)
      refl (omega arith) (omega arith) (omega arith)

slot_of_timestamp : timestamp_to_slot whole_seconds mainnet timestamp ≡ some 100
unfolding timestamp_to_slot ◌+ℤ◌ ◌-ℤ◌
slot_of_timestamp = refl

altair_period : altair_initial_sync_committee_period mainnet ≡ some 290
unfolding altair_initial_sync_committee_period
altair_period = refl

abbrev phase0_spec : Spec
phase0_spec = ("SECONDS_PER_SLOT", duration 12_000_000_000) ∷ ("SLOTS_PER_EPOCH", number 32) ∷ []

-- The first request is answered, and that for the Altair fork fails.
abbrev answers : Answers
answers = record {
  genesis = some (pos 1_606_824_023_000_000_000);
  spec = some phase0_spec;
  spec_altair = none;
  spec_bellatrix = some phase0_spec;
  spec_capella = some phase0_spec;
  spec_deneb = some phase0_spec;
}

abbrev phase0_service : Service
phase0_service = record mainnet {
  epochs_per_sync_committee_period = 0;
  altair_fork_epoch = two64 - 1;
  bellatrix_fork_epoch = two64 - 1;
  capella_fork_epoch = two64 - 1;
  deneb_fork_epoch = two64 - 1;
}

new_phase0 : new answers ≡ ok phase0_service
unfolding new lookup
new_phase0 = refl

new-without_period_example :
    ((epoch : ℕ) → epoch_to_sync_committee_period phase0_service epoch ≡ none)
    × (altair_initial_sync_committee_period phase0_service ≡ none)
unfolding lookup
new-without_period_example = new-without_period answers new_phase0 refl refl
