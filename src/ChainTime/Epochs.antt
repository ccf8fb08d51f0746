-- ===== src/ChainTime/Epochs.antt =====
-- Slots and epochs of services/chaintime/standard/service.go.
use chaind.Common.{
  ℕ, suc, ◌+◌, ◌-◌, ◌*◌, ◌/◌, ◌%◌, ◌≤◌, ◌<◌, ◌≡◌, ap, ◌≢◌, ◌↔◌, Option, some, arith, two64, add64,
  sub64, div64,
}
use chaind.ChainTime.{Service, slot_to_epoch, first_slot_of_epoch, last_slot_of_epoch}

pub div-eq : (n m e : ℕ) → e * m ≤ n → n < e * m + m → n / m ≡ e
div-eq n m e h k = grind arith

pub div-le : (n m : ℕ) → m ≢ 0 → (n / m) * m ≤ n
div-le n m h = grind arith

pub lt-div : (n m : ℕ) → m ≢ 0 → n < (n / m) * m + m
lt-div n m h = grind arith

pub div64-eq : (a b : ℕ) → b ≢ 0 → div64 a b ≡ some (a / b)
div64-eq a b h = ground arith

pub div64-eq_some : (a b : ℕ) {c : ℕ} → div64 a b ≡ some c → (b ≢ 0) × (a / b ≡ c)
div64-eq_some a b h = ground arith

-- Where the epoch's slots fit the word, neither end wraps.
pub first_slot-eq :
    (s : Service) (e : ℕ)
    → e * s.slots_per_epoch < two64
    → first_slot_of_epoch s e ≡ e * s.slots_per_epoch
unfolding first_slot_of_epoch
first_slot-eq s e h = omega arith

wrap_pred : (p : ℕ) → p ≢ 0 → p ≤ two64 → sub64 (p % two64) 1 ≡ p - 1
wrap_pred p n h = omega arith

last_slot-eq :
    (s : Service) (e : ℕ)
    → s.slots_per_epoch ≢ 0
    → suc e < two64
    → e * s.slots_per_epoch + s.slots_per_epoch ≤ two64
    → last_slot_of_epoch s e ≡ e * s.slots_per_epoch + s.slots_per_epoch - 1
unfolding last_slot_of_epoch
last_slot-eq s e n f h =
    let small : add64 e 1 ≡ suc e = omega arith in
    let product : suc e * s.slots_per_epoch ≡ e * s.slots_per_epoch + s.slots_per_epoch =
      omega arith in
    rw (small, product) (wrap_pred _ (omega arith) h)

pub quotient_bounds :
    (slot m e : ℕ)
    → m ≢ 0
    → ◌≡◌ {A = Option ℕ} (some (slot / m)) (some e)
    → (e * m ≤ slot) × (slot ≤ e * m + m - 1)
quotient_bounds slot m e n p = ground (arith, div-le slot m n, lt-div slot m n)

-- Where epochs have slots, the epoch of a slot is the one between whose first and last slot it
-- lies, and no other, for every epoch that has a next one and ends within the 64 bits of a slot.
pub slot_to_epoch_iff :
    (s : Service) (slot e : ℕ)
    → s.slots_per_epoch ≢ 0
    → suc e < two64
    → e * s.slots_per_epoch + s.slots_per_epoch ≤ two64
    → (slot_to_epoch s slot ≡ some e)
      ↔ ((first_slot_of_epoch s e ≤ slot) × (slot ≤ last_slot_of_epoch s e))
unfolding slot_to_epoch
slot_to_epoch_iff s slot e n f h =
    rw (first_slot-eq s e (omega arith), last_slot-eq s e n f h, div64-eq slot s.slots_per_epoch n)
      (
        λ p. quotient_bounds slot s.slots_per_epoch e n p,
        λ p. ap some (div-eq slot s.slots_per_epoch e p.0 (omega arith)),
      )

-- The slot after the last of an epoch is the first of the next, also where the arithmetic wraps.
last_slot_of_epoch-next :
    (s : Service) (e : ℕ) → add64 (last_slot_of_epoch s e) 1 ≡ first_slot_of_epoch s (add64 e 1)
unfolding last_slot_of_epoch first_slot_of_epoch
last_slot_of_epoch-next s e = omega arith
