-- ===== src/ChainTime/Setup.antt =====
-- New of services/chaintime/standard/service.go: what is read from the chain's specification.
pub mod Laws
use chaind.Common.{
  ℕ, ◌-◌, ◌≡◌, refl, Option, none, some, ℤ, List, [], ◌∷◌, if◌then◌else◌, two64, Outcome, ok, err,
  arith, ◌⊎◌,
}
use text.Mathlib.Text.{◌==◌}
use Prim.Native.String.{String}
use chaind.ChainTime.{Service}

-- A value of the specification: an untyped map holds values of several types.
pub data SpecValue : Type 0 where
  duration : ℕ → SpecValue
  number : ℕ → SpecValue
  other : SpecValue

abbrev pub Spec : Type 0
Spec = List (String × SpecValue)

pub data SetupError : Type 0 where
  no_genesis no_spec : SetupError
  not_found unexpected_type : String → SetupError

unfoldable pub lookup : String → Spec → Option SpecValue
lookup k [] = none
lookup k ((j, v) ∷ m) = if j == k then some v else lookup k m

as_duration : String → Option SpecValue → Outcome SetupError ℕ
as_duration k none = err (not_found k)
as_duration k (some (duration d)) = ok d
as_duration k (some (number n)) = err (unexpected_type k)
as_duration k (some other) = err (unexpected_type k)

as_number : String → Option SpecValue → Outcome SetupError ℕ
as_number k none = err (not_found k)
as_number k (some (number n)) = ok n
as_number k (some (duration d)) = err (unexpected_type k)
as_number k (some other) = err (unexpected_type k)

-- The period may be missing, and is 0 then; a value of another type is an error.
as_optional_number : String → Option SpecValue → Outcome SetupError ℕ
as_optional_number k none = ok 0
as_optional_number k (some (number n)) = ok n
as_optional_number k (some (duration d)) = err (unexpected_type k)
as_optional_number k (some other) = err (unexpected_type k)

infixl 5 ◌>>=◌
abbrev ◌>>=◌ : {E A B : Type 0} → Outcome E A → (A → Outcome E B) → Outcome E B
ok a >>= f = f a
err e >>= f = err e
Outcome.panicked >>= f = Outcome.panicked
Outcome.looping >>= f = Outcome.looping

-- The four functions that fetch a fork's epoch: each asks for the specification once more.
unfoldable pub fetch_fork_epoch : String → Option Spec → Outcome SetupError ℕ
unfolding as_number
fetch_fork_epoch key none = err no_spec
fetch_fork_epoch key (some spec) = as_number key (lookup key spec)

far_future_epoch : ℕ
far_future_epoch = two64 - 1

or_far_future : Outcome SetupError ℕ → ℕ
unfolding far_future_epoch
or_far_future (ok epoch) = epoch
or_far_future _ = far_future_epoch

-- The answers of the consensus client: the genesis time, and the specification for each of the
-- five requests, in their order.
pub record Answers : Type 0 where
  pub genesis : Option ℤ
  pub spec : Option Spec
  pub spec_altair : Option Spec
  pub spec_bellatrix : Option Spec
  pub spec_capella : Option Spec
  pub spec_deneb : Option Spec

abbrev provided : {A : Type 0} → SetupError → Option A → Outcome SetupError A
provided e none = err e
provided e (some a) = ok a

unfoldable pub new : Answers → Outcome SetupError Service
unfolding as_duration as_number as_optional_number or_far_future fetch_fork_epoch
new a = do
  genesis_time ← provided no_genesis a.genesis
  spec ← provided no_spec a.spec
  slot_duration ← as_duration "SECONDS_PER_SLOT" (lookup "SECONDS_PER_SLOT" spec)
  slots_per_epoch ← as_number "SLOTS_PER_EPOCH" (lookup "SLOTS_PER_EPOCH" spec)
  epochs_per_sync_committee_period ←
      as_optional_number "EPOCHS_PER_SYNC_COMMITTEE_PERIOD"
        (lookup "EPOCHS_PER_SYNC_COMMITTEE_PERIOD" spec)
  ok (record {
    genesis_time = genesis_time;
    slot_duration = slot_duration;
    slots_per_epoch = slots_per_epoch;
    epochs_per_sync_committee_period = epochs_per_sync_committee_period;
    altair_fork_epoch = or_far_future (fetch_fork_epoch "ALTAIR_FORK_EPOCH" a.spec_altair);
    bellatrix_fork_epoch = or_far_future (fetch_fork_epoch "BELLATRIX_FORK_EPOCH" a.spec_bellatrix);
    capella_fork_epoch = or_far_future (fetch_fork_epoch "CAPELLA_FORK_EPOCH" a.spec_capella);
    deneb_fork_epoch = or_far_future (fetch_fork_epoch "DENEB_FORK_EPOCH" a.spec_deneb);
  })
