-- ===== src/ChainTime.antt =====
-- services/chaintime/standard/service.go: slots, epochs and sync committee periods as times.
-- An instant is a number of nanoseconds since the Unix epoch, a duration is the bit pattern of an
-- int64 of nanoseconds, slots, epochs and periods are uint64 values.
pub mod Setup
pub mod Epochs
pub mod Times
pub mod Periods
use chaind.Common.{
  ℕ, ◌-◌, ◌/◌, Bool, Option, none, some, ℤ, pos_part, ltb_ℤ, ltb, if◌then◌else◌, two63, add64,
  sub64, mul64, div64, to_int64, ◌+ℤ◌, ◌-ℤ◌, min,
}

pub record Service : Type 0 where
  pub genesis_time : ℤ
  pub slot_duration : ℕ
  pub slots_per_epoch : ℕ
  pub epochs_per_sync_committee_period : ℕ
  pub altair_fork_epoch : ℕ
  pub bellatrix_fork_epoch : ℕ
  pub capella_fork_epoch : ℕ
  pub deneb_fork_epoch : ℕ

infixl 5 ◌>>=◌
abbrev ◌>>=◌ : {A B : Type 0} → Option A → (A → Option B) → Option B
none >>= f = none
some a >>= f = f a

-- `genesisTime.Add(d)`: the duration is read as a signed number.
abbrev pub add_duration : ℤ → ℕ → ℤ
add_duration t d = t +ℤ to_int64 d

-- `t.Sub(u)` for a `t` that is not before `u`: saturates at the largest duration.
abbrev pub elapsed : ℤ → ℤ → ℕ
elapsed t u = min (pos_part (t -ℤ u)) (two63 - 1)

unfoldable pub start_of_slot : Service → ℕ → ℤ
start_of_slot s slot = add_duration s.genesis_time (mul64 slot s.slot_duration)

unfoldable pub start_of_epoch : Service → ℕ → ℤ
start_of_epoch s epoch =
    add_duration s.genesis_time (mul64 (mul64 epoch s.slots_per_epoch) s.slot_duration)

unfoldable pub slot_to_epoch : Service → ℕ → Option ℕ
slot_to_epoch s slot = div64 slot s.slots_per_epoch

unfoldable pub epoch_to_sync_committee_period : Service → ℕ → Option ℕ
epoch_to_sync_committee_period s epoch = div64 epoch s.epochs_per_sync_committee_period

unfoldable pub slot_to_sync_committee_period : Service → ℕ → Option ℕ
unfolding slot_to_epoch
slot_to_sync_committee_period s slot = do
  epoch ← slot_to_epoch s slot
  div64 epoch s.epochs_per_sync_committee_period

unfoldable pub first_slot_of_epoch : Service → ℕ → ℕ
first_slot_of_epoch s epoch = mul64 epoch s.slots_per_epoch

unfoldable pub last_slot_of_epoch : Service → ℕ → ℕ
last_slot_of_epoch s epoch = sub64 (mul64 (add64 epoch 1) s.slots_per_epoch) 1

-- `uint64(d.Seconds())` goes through float64, which is not modelled: the function that it is, and
-- what holds of it, are parameters.
module _ (seconds : ℕ → ℕ) where
  unfoldable pub timestamp_to_slot : Service → ℤ → Option ℕ
  timestamp_to_slot s timestamp =
      if ltb_ℤ timestamp s.genesis_time
      then some 0
      else div64 (seconds (elapsed timestamp s.genesis_time)) (seconds s.slot_duration)

  unfoldable pub timestamp_to_epoch : Service → ℤ → Option ℕ
  timestamp_to_epoch s timestamp =
      if ltb_ℤ timestamp s.genesis_time
      then some 0
      else (div64 (seconds (elapsed timestamp s.genesis_time)) (seconds s.slot_duration) >>= λ slot.
          div64 slot s.slots_per_epoch)

  -- `now` and `now'` are the two readings of the clock, in their order.
  unfoldable pub current_slot : Service → ℤ → ℤ → Option ℕ
  current_slot s now now' =
      if ltb_ℤ now s.genesis_time
      then some 0
      else div64 (seconds (elapsed now' s.genesis_time)) (seconds s.slot_duration)

  unfoldable pub current_epoch : Service → ℤ → ℤ → Option ℕ
  unfolding current_slot
  current_epoch s now now' = do slot ← current_slot s now now'; div64 slot s.slots_per_epoch

  unfoldable pub current_sync_committee_period : Service → ℤ → ℤ → Option ℕ
  unfolding current_epoch
  current_sync_committee_period s now now' = do
    epoch ← current_epoch s now now'
    div64 epoch s.epochs_per_sync_committee_period

unfoldable pub first_epoch_of_sync_period : Service → ℕ → ℕ
first_epoch_of_sync_period s period =
    let epoch = mul64 period s.epochs_per_sync_committee_period in
    if ltb epoch s.altair_fork_epoch then s.altair_fork_epoch else epoch

unfoldable pub altair_initial_sync_committee_period : Service → Option ℕ
altair_initial_sync_committee_period s =
    div64 s.altair_fork_epoch s.epochs_per_sync_committee_period
