-- ===== src/ChainTime/Setup/Laws.antt =====
-- What New of services/chaintime/standard/service.go makes of the chain's specification.
use chaind.Common.{
  ℕ, ◌-◌, ◌≡◌, refl, Option, none, some, ◌⊎◌, inl, inr, arith, Outcome, ok, err, two64, panicked,
  looping, sym, ◌∙◌, some-inj, ok-inj, subst,
}
use Prim.Native.String.{String}
use chaind.ChainTime.{Service, epoch_to_sync_committee_period, altair_initial_sync_committee_period}
use chaind.ChainTime.Setup.{
  Spec, SpecValue, duration, number, SetupError, lookup, Answers, new, fetch_fork_epoch,
  as_duration, as_number, as_optional_number, or_far_future, ◌>>=◌, provided, no_genesis, no_spec,
}

as_duration-eq_ok :
    (k : String) (v : Option SpecValue) {d : ℕ} → as_duration k v ≡ ok d → v ≡ some (duration d)
unfolding as_duration
as_duration-eq_ok k v h = ground arith

as_number-eq_ok :
    (k : String) (v : Option SpecValue) {n : ℕ} → as_number k v ≡ ok n → v ≡ some (number n)
unfolding as_number
as_number-eq_ok k v h = ground arith

as_optional_number-eq_ok :
    (k : String) (v : Option SpecValue) {n : ℕ}
    → as_optional_number k v ≡ ok n
    → (v ≡ some (number n)) ⊎ ((v ≡ none) × (n ≡ 0))
unfolding as_optional_number
as_optional_number-eq_ok k v h = ground arith

-- What a service holds of the specification's main request.
abbrev pub Holds : Service → Spec → Type 0
Holds s spec =
    (lookup "SECONDS_PER_SLOT" spec ≡ some (duration s.slot_duration))
    × (lookup "SLOTS_PER_EPOCH" spec ≡ some (number s.slots_per_epoch))
    × ((lookup "EPOCHS_PER_SYNC_COMMITTEE_PERIOD" spec
          ≡ some (number s.epochs_per_sync_committee_period))
        ⊎ ((lookup "EPOCHS_PER_SYNC_COMMITTEE_PERIOD" spec ≡ none)
            × (s.epochs_per_sync_committee_period ≡ 0)))

-- A fork's epoch is the number in the specification, or the far future where there is none.
abbrev pub IsForkEpoch : String → Option Spec → ℕ → Type 0
IsForkEpoch key answer epoch =
    (fetch_fork_epoch key answer ≡ ok epoch)
    ⊎ (((n : ℕ) → fetch_fork_epoch key answer ≡ ok n → ⊥) × (epoch ≡ two64 - 1))

or_far_future-IsForkEpoch :
    (key : String) (answer : Option Spec)
    → IsForkEpoch key answer (or_far_future (fetch_fork_epoch key answer))
unfolding or_far_future
or_far_future-IsForkEpoch key answer = split (fetch_fork_epoch key answer)
  where
    split :
        (r : Outcome SetupError ℕ)
        → (r ≡ ok (or_far_future r)) ⊎ (((n : ℕ) → r ≡ ok n → ⊥) × (or_far_future r ≡ two64 - 1))
    split (ok n) = inl refl
    split (err e) = inr ((λ n h. cc), refl)
    split panicked = inr ((λ n h. cc), refl)
    split looping = inr ((λ n h. cc), refl)

bind-eq_ok :
    {E A B : Type 0} (m : Outcome E A) (f : A → Outcome E B) {b : B}
    → (m >>= f) ≡ ok b
    → (x : A) × (m ≡ ok x) × (f x ≡ ok b)
bind-eq_ok (ok x) f h = (x, refl, h)
bind-eq_ok (err e) f h = cc
bind-eq_ok panicked f h = cc
bind-eq_ok looping f h = cc

provided-eq_ok :
    {A : Type 0} (e : SetupError) (o : Option A) {x : A} → provided e o ≡ ok x → o ≡ some x
provided-eq_ok e o h = ground arith

abbrev Built : Answers → Service → Type 0
Built a s =
    ((spec : Spec) × (a.spec ≡ some spec) × Holds s spec)
    × (a.genesis ≡ some s.genesis_time)
    × IsForkEpoch "ALTAIR_FORK_EPOCH" a.spec_altair s.altair_fork_epoch
    × IsForkEpoch "BELLATRIX_FORK_EPOCH" a.spec_bellatrix s.bellatrix_fork_epoch
    × IsForkEpoch "CAPELLA_FORK_EPOCH" a.spec_capella s.capella_fork_epoch
    × IsForkEpoch "DENEB_FORK_EPOCH" a.spec_deneb s.deneb_fork_epoch

-- A service that is made has the genesis time, the slot duration and the epoch length that were
-- answered, each of its type; a sync committee period that is answered, or 0 where it is missing; and for each
-- fork the epoch answered to its own request, or the far future where that request has none.
new-eq_ok :
    (a : Answers) {s : Service}
    → new a ≡ ok s
    → ((spec : Spec) × (a.spec ≡ some spec) × Holds s spec)
      × (a.genesis ≡ some s.genesis_time)
      × IsForkEpoch "ALTAIR_FORK_EPOCH" a.spec_altair s.altair_fork_epoch
      × IsForkEpoch "BELLATRIX_FORK_EPOCH" a.spec_bellatrix s.bellatrix_fork_epoch
      × IsForkEpoch "CAPELLA_FORK_EPOCH" a.spec_capella s.capella_fork_epoch
      × IsForkEpoch "DENEB_FORK_EPOCH" a.spec_deneb s.deneb_fork_epoch
unfolding new
new-eq_ok a {s} h =
    let (g, eg, h1) = bind-eq_ok (provided no_genesis a.genesis) _ h in
    let (spec, es, h2) = bind-eq_ok (provided no_spec a.spec) _ h1 in
    let (d, ed, h3) = bind-eq_ok (as_duration _ (lookup "SECONDS_PER_SLOT" spec)) _ h2 in
    let (n, en, h4) = bind-eq_ok (as_number _ (lookup "SLOTS_PER_EPOCH" spec)) _ h3 in
    let (p, ep, h5) =
      bind-eq_ok (as_optional_number _ (lookup "EPOCHS_PER_SYNC_COMMITTEE_PERIOD" spec)) _ h4 in
    subst (Built a) (ok-inj h5) (
      (
        spec,
        provided-eq_ok _ _ es,
        (as_duration-eq_ok _ _ ed, as_number-eq_ok _ _ en, as_optional_number-eq_ok _ _ ep),
      ),
      provided-eq_ok _ _ eg,
      or_far_future-IsForkEpoch "ALTAIR_FORK_EPOCH" a.spec_altair,
      or_far_future-IsForkEpoch "BELLATRIX_FORK_EPOCH" a.spec_bellatrix,
      or_far_future-IsForkEpoch "CAPELLA_FORK_EPOCH" a.spec_capella,
      or_far_future-IsForkEpoch "DENEB_FORK_EPOCH" a.spec_deneb,
    )

no_period :
    (a : Answers) (s : Service) (spec : Spec)
    → a.spec ≡ some spec
    → lookup "EPOCHS_PER_SYNC_COMMITTEE_PERIOD" spec ≡ none
    → ((spec' : Spec) × (a.spec ≡ some spec') × Holds s spec')
    → s.epochs_per_sync_committee_period ≡ 0
no_period a s spec p q (spec', e, held) =
    let same : spec' ≡ spec = some-inj (sym e ∙ p) in
    let missing : lookup "EPOCHS_PER_SYNC_COMMITTEE_PERIOD" spec' ≡ none = rw same q in ground arith

-- Where New succeeds on a specification without a sync committee period, every conversion of an
-- epoch to a period panics with the service that it gives, as does the period of the Altair fork.
pub new-without_period :
    (a : Answers) {s : Service} {spec : Spec}
    → new a ≡ ok s
    → a.spec ≡ some spec
    → lookup "EPOCHS_PER_SYNC_COMMITTEE_PERIOD" spec ≡ none
    → ((epoch : ℕ) → epoch_to_sync_committee_period s epoch ≡ none)
      × (altair_initial_sync_committee_period s ≡ none)
unfolding epoch_to_sync_committee_period altair_initial_sync_committee_period
new-without_period a {s} {spec} h p q =
    let zero : s.epochs_per_sync_committee_period ≡ 0 = no_period a s spec p q (new-eq_ok a h).0 in
    ((λ epoch. rw zero), rw zero)
