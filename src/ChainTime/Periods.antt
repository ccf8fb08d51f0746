-- ===== src/ChainTime/Periods.antt =====
-- Sync committee periods of services/chaintime/standard/service.go.
use chaind.Common.{
  ℕ, suc, ◌-◌, ◌+◌, ◌*◌, ◌/◌, ◌≤◌, ◌<◌, ◌≡◌, ap, subst, ◌∙◌, sym, ◌≢◌, some, arith, two64, mul64,
  div64,
}
use chaind.ChainTime.{
  Service, epoch_to_sync_committee_period, slot_to_sync_committee_period,
  first_epoch_of_sync_period, altair_initial_sync_committee_period,
}
use chaind.ChainTime.Epochs.{div-eq, div-le, lt-div, div64-eq, div64-eq_some}

div_mono : (a b k : ℕ) → k ≢ 0 → a ≤ b → a / k ≤ b / k
div_mono a b k n h = grind (arith, div-le a k n, lt-div b k n)

first_epoch-max :
    (s : Service) (p : ℕ)
    → p * s.epochs_per_sync_committee_period < two64
    → (s.altair_fork_epoch ≤ first_epoch_of_sync_period s p)
      × (p * s.epochs_per_sync_committee_period ≤ first_epoch_of_sync_period s p)
      × ((e : ℕ)
          → s.altair_fork_epoch ≤ e
          → p * s.epochs_per_sync_committee_period ≤ e
          → first_epoch_of_sync_period s p ≤ e)
unfolding first_epoch_of_sync_period
first_epoch-max s p h =
    let e : mul64 p s.epochs_per_sync_committee_period ≡ p * s.epochs_per_sync_committee_period =
      omega arith in
    rw e (ground arith, ground arith, λ e a b. ground arith)

fork_bound : (a k p : ℕ) → k ≢ 0 → a / k ≤ p → a < p * k + k
fork_bound a k p nz h = grind (arith, lt-div a k nz)

in_period : (e k p : ℕ) → div64 e k ≡ some p → p * k ≤ e
in_period e k p h = let (nz, q) = div64-eq_some e k h in subst (λ x. x * k ≤ e) q (div-le e k nz)

div-div : (n a b : ℕ) → a ≢ 0 → b ≢ 0 → n / a / b ≡ n / (b * a)
div-div n a b ha hb = sym (
    div-eq n (b * a) (n / a / b) (low (n / a) (n / a / b) (div-le n a ha) (div-le (n / a) b hb))
      (high (n / a) (n / a / b) (lt-div n a ha) (lt-div (n / a) b hb)))
  where
    mul_mono : (x y : ℕ) → x ≤ y → x * a ≤ y * a
    mul_mono x y h = grind arith

    low : (m q : ℕ) → m * a ≤ n → q * b ≤ m → q * (b * a) ≤ n
    low m q h k = omega (arith, mul_mono (q * b) m k)

    high : (m q : ℕ) → n < m * a + a → m < q * b + b → n < q * (b * a) + b * a
    high m q h k = omega (arith, mul_mono (suc m) (q * b + b) k)

-- Where the Altair fork has a period: for a period from that of the fork on, whose first epoch
-- fits 64 bits, the first epoch lies in the period and not before the fork, and no epoch with
-- these two properties is earlier.
first_epoch_of_sync_period-least :
    (s : Service) (p q : ℕ)
    → altair_initial_sync_committee_period s ≡ some q
    → q ≤ p
    → p * s.epochs_per_sync_committee_period < two64
    → (epoch_to_sync_committee_period s (first_epoch_of_sync_period s p) ≡ some p)
      × (s.altair_fork_epoch ≤ first_epoch_of_sync_period s p)
      × ((e : ℕ)
          → s.altair_fork_epoch ≤ e
          → epoch_to_sync_committee_period s e ≡ some p
          → first_epoch_of_sync_period s p ≤ e)
unfolding epoch_to_sync_committee_period altair_initial_sync_committee_period
first_epoch_of_sync_period-least s p q a le h =
    let k = s.epochs_per_sync_committee_period in
    let (nz, aq) = div64-eq_some s.altair_fork_epoch k a in
    let (after, low, least) = first_epoch-max s p h in
    let fork : s.altair_fork_epoch < p * k + k =
      fork_bound s.altair_fork_epoch k p nz (omega arith) in
    let high : first_epoch_of_sync_period s p ≤ p * k + k - 1 =
      least (p * k + k - 1) (omega arith) (omega arith) in
    (
      (div64-eq (first_epoch_of_sync_period s p) k nz
          ∙ ap some (div-eq (first_epoch_of_sync_period s p) k p low (omega arith))),
      after,
      λ e later same. least e later (omega (arith, in_period e k p same)),
    )

-- Where epochs have slots and periods have epochs, the period of a slot is its quotient by the
-- slots of a whole period.
pub slot_to_sync_committee_period-eq :
    (s : Service) (slot : ℕ)
    → s.slots_per_epoch ≢ 0
    → s.epochs_per_sync_committee_period ≢ 0
    → slot_to_sync_committee_period s slot
      ≡ some (slot / (s.epochs_per_sync_committee_period * s.slots_per_epoch))
unfolding slot_to_sync_committee_period
slot_to_sync_committee_period-eq s slot n m =
    ground (arith, div-div slot s.slots_per_epoch s.epochs_per_sync_committee_period n m)
