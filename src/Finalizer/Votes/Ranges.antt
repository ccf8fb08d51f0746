-- ===== src/Finalizer/Votes/Ranges.antt =====
-- Which attestations updateAttestationsInEpoch of services/finalizer/standard/handler.go takes up.
use chaind.Common.{
  ℕ, zero, suc, ◌+◌, ◌-◌, ◌*◌, ◌/◌, ◌≤◌, ◌<◌, ◌≡◌, ◌≢◌, sym, ◌↔◌, Bool, true, false, ◌&&◌, ltb, leb,
  add64, two64, arith, ◌==◌,
}
use chaind.ChainDb
use chaind.ChainDb.{Db, Attestation}
use chaind.ChainDb.Members.{IsIn, query-IsIn}
use chaind.ChainTime
use chaind.ChainTime.Epochs.{first_slot-eq, div-eq, div-le, lt-div}
use chaind.Finalizer.{Env}
use chaind.Finalizer.Votes.{from_slot}

-- The epoch that takes up a slot: the slot's number by the slots of an epoch, rounded up.
abbrev pub epoch_for : ℕ → ℕ → ℕ
epoch_for m slot = (slot + m - 1) / m

in_range : (s m e : ℕ) → m ≢ 0 → s ≤ e * m → e * m ≤ s + m - 1 → epoch_for m s ≡ e
in_range s m e n h k = div-eq (s + m - 1) m e k (omega arith)

epoch_for_bounds : (s m e : ℕ) → m ≢ 0 → epoch_for m s ≡ e → (s ≤ e * m) × (e * m ≤ s + m - 1)
epoch_for_bounds s m e n h =
    let below : e * m ≤ s + m - 1 = rw (sym h) (div-le (s + m - 1) m n) in
    let above : s + m - 1 < e * m + m = rw (sym h) (lt-div (s + m - 1) m n) in (omega arith, below)

from_slot-eq :
    (env : Env) (e : ℕ)
    → env.time.slots_per_epoch ≢ 0
    → e * env.time.slots_per_epoch + 1 < two64
    → from_slot env e ≡ e * env.time.slots_per_epoch + 1 - env.time.slots_per_epoch
unfolding from_slot
from_slot-eq env zero n f = omega arith
from_slot-eq env (suc e) n f =
    let positive : (suc e == 0) ≡ false = ground arith in
    let before : suc e - 1 ≡ e = omega arith in
    rw (positive, before, first_slot-eq env.time e (omega arith)) (omega arith)

-- The rows that the query of an epoch is for.
abbrev pub epoch_test : Env → ℕ → Attestation → Bool
epoch_test env e a =
    leb (from_slot env e) a.inclusion_slot
    && ltb a.inclusion_slot (add64 (ChainTime.first_slot_of_epoch env.time e) 1)

range_test : (from to s : ℕ) → (leb from s && ltb s to ≡ true) ↔ ((from ≤ s) × (s < to))
range_test from to s = (λ h. ground arith, λ h. ground arith)

epoch_test_iff :
    (env : Env) (e : ℕ) (a : Attestation)
    → env.time.slots_per_epoch ≢ 0
    → e * env.time.slots_per_epoch + 1 < two64
    → (epoch_test env e a ≡ true) ↔ (epoch_for env.time.slots_per_epoch a.inclusion_slot ≡ e)
epoch_test_iff env e a n f =
    let m = env.time.slots_per_epoch in
    let s = a.inclusion_slot in
    let to : add64 (ChainTime.first_slot_of_epoch env.time e) 1 ≡ e * m + 1 =
      rw (first_slot-eq env.time e (omega arith)) (omega arith) in
    let (k, l) = range_test (e * m + 1 - m) (e * m + 1) s in
    rw (from_slot-eq env e n f, to)
      (
        λ h. in_range s m e n (omega (arith, (k h).1)) (omega (arith, (k h).0)),
        λ h. let (above, below) = epoch_for_bounds s m e n h in l (omega arith, omega arith),
      )

-- Where epochs have slots, an epoch takes up exactly the attestations of the table whose inclusion
-- slot, divided by the slots of an epoch and rounded up, is the epoch, for every epoch whose first
-- slot and the one after it fit the word.
pub epoch_attestations_iff :
    (env : Env) (e : ℕ) (a : Attestation) (db : Db)
    → env.time.slots_per_epoch ≢ 0
    → e * env.time.slots_per_epoch + 1 < two64
    → IsIn a (
        ChainDb.attestations_in_slot_range
          (from_slot env e)
          (add64 (ChainTime.first_slot_of_epoch env.time e) 1)
          db)
      ↔ (IsIn a db.attestations × (epoch_for env.time.slots_per_epoch a.inclusion_slot ≡ e))
unfolding ChainDb.attestations_in_slot_range
epoch_attestations_iff env e a db n f =
    let (k, l) = query-IsIn ChainDb.included_before (epoch_test env e) a db.attestations in
    let (k', l') = epoch_test_iff env e a n f in (λ h. ((k h).0, k' (k h).1), λ h. l (h.0, l' h.1))
