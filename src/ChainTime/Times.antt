-- ===== src/ChainTime/Times.antt =====
-- Instants and slots of services/chaintime/standard/service.go.
use chaind.Common.{
  ℕ, suc, ◌+◌, ◌*◌, ◌/◌, ◌≤◌, ◌<◌, ◌≡◌, refl, ap, subst, ◌≢◌, ◌↔◌, false, some, arith, two63, mul64,
  div64, ℤ, pos, negsuc, pos_part, neg_part, ◌+ℤ◌, ◌-ℤ◌, ◌≤ℤ◌, ltb_ℤ, +ℤ_parts, -ℤ_parts,
  eq_of_parts, le→ltb, some-inj, inl, inr, ◌⊎◌,
}
use chaind.ChainTime.{
  Service, start_of_slot, timestamp_to_slot, timestamp_to_epoch, slot_to_epoch, elapsed,
}
use chaind.ChainTime.Epochs.{div-eq, div-le, lt-div, div64-eq, div64-eq_some}

abbrev pub second : ℕ
second = 1_000_000_000

-- What is relied on of the conversion of a duration to seconds through float64.
pub record IsSeconds (seconds : ℕ → ℕ) : Type 0 where
  pub whole : (k : ℕ) → k * second < two63 → seconds (k * second) ≡ k
  pub mono : (a b : ℕ) → a ≤ b → b < two63 → seconds a ≤ seconds b

-- The instant n nanoseconds after genesis.
abbrev pub after : Service → ℕ → ℤ
after s n = s.genesis_time +ℤ pos n

start_of_slot-eq :
    (s : Service) (n : ℕ)
    → n * s.slot_duration < two63
    → start_of_slot s n ≡ after s (n * s.slot_duration)
unfolding start_of_slot
start_of_slot-eq s n h =
    let e : mul64 n s.slot_duration ≡ n * s.slot_duration = omega arith in ground (arith, e)

elapsed-after : (s : Service) (n : ℕ) → n < two63 → elapsed (after s n) s.genesis_time ≡ n
elapsed-after s n h =
    let e : after s n -ℤ s.genesis_time ≡ pos n =
      eq_of_parts _ _
        (omega (arith, +ℤ_parts s.genesis_time (pos n), -ℤ_parts (after s n) s.genesis_time)) in
    rw e (omega arith)

pos_part-cases : (z : ℤ) → (pos_part z ≡ 0) ⊎ (neg_part z ≡ 0)
pos_part-cases (pos n) = inr refl
pos_part-cases (negsuc n) = inl refl

elapsed_mono : (t u g : ℤ) → t ≤ℤ u → elapsed t g ≤ elapsed u g
elapsed_mono t u g h = omega (
  arith,
  -ℤ_parts t g,
  -ℤ_parts u g,
  pos_part-cases (t -ℤ g),
  pos_part-cases (u -ℤ g),
  pos_part-cases t,
  pos_part-cases u,
  pos_part-cases g,
)

elapsed-lt : (t g : ℤ) → elapsed t g < two63
elapsed-lt t g = omega arith

div_mono : (a b k : ℕ) → k ≢ 0 → a ≤ b → a / k ≤ b / k
div_mono a b k n h = grind (arith, div-le a k n, lt-div b k n)

div64_mono : (a b k : ℕ) {m n : ℕ} → a ≤ b → div64 a k ≡ some m → div64 b k ≡ some n → m ≤ n
div64_mono a b k h p q = omega (
  arith,
  (div64-eq_some a k p).1,
  (div64-eq_some b k q).1,
  div_mono a b k (div64-eq_some a k p).0 h,
)

after-ltb : (s : Service) (n : ℕ) → ltb_ℤ (after s n) s.genesis_time ≡ false
after-ltb s n = le→ltb _ _ (omega (arith, +ℤ_parts s.genesis_time (pos n)))

after-le_iff : (s : Service) (m n : ℕ) → (after s m ≤ℤ after s n) ↔ (m ≤ n)
after-le_iff s m n = (
  (λ h. omega (arith, +ℤ_parts s.genesis_time (pos m), +ℤ_parts s.genesis_time (pos n))),
  (λ h. omega (arith, +ℤ_parts s.genesis_time (pos m), +ℤ_parts s.genesis_time (pos n))),
)

between :
    (j k n : ℕ)
    → k ≢ 0
    → (j / k ≡ n) ↔ ((n * (k * second) ≤ j * second) × ¬ (suc n * (k * second) ≤ j * second))
between j k n nz = (
  (λ p. between_bounds (j / k) n p (div-le j k nz) (lt-div j k nz)),
  (λ p. div-eq j k n (omega arith) (omega arith)),
)
  where
    between_bounds :
        (q n : ℕ)
        → q ≡ n
        → q * k ≤ j
        → j < q * k + k
        → (n * (k * second) ≤ j * second) × ¬ (suc n * (k * second) ≤ j * second)
    between_bounds q n p lo hi =
        subst (λ x. (x * (k * second) ≤ j * second) × ¬ (suc x * (k * second) ≤ j * second)) p
          (omega arith, omega arith)

module _ (seconds : ℕ → ℕ) (law : IsSeconds seconds) where
  timestamp_to_slot-after :
      (s : Service) (j k : ℕ)
      → k ≢ 0
      → s.slot_duration ≡ k * second
      → s.slot_duration < two63
      → j * second < two63
      → timestamp_to_slot seconds s (after s (j * second)) ≡ some (j / k)
  unfolding timestamp_to_slot
  timestamp_to_slot-after s j k n d f h =
      rw
        (
          after-ltb s (j * second),
          elapsed-after s (j * second) h,
          law.whole j h,
          d,
          law.whole k (omega arith),
        )
        (div64-eq j k n)

  -- With a conversion to seconds that is exact on whole seconds and monotone: a timestamp that is
  -- a whole number of seconds past genesis has the slot between whose start and the start of the
  -- next slot it lies, and no other, where slots are a positive number of whole seconds long and
  -- the durations from genesis to the timestamp and to the start of the next slot are in the range
  -- of a duration.
  pub timestamp_to_slot_iff :
      (s : Service) (j k n : ℕ)
      → k ≢ 0
      → s.slot_duration ≡ k * second
      → s.slot_duration < two63
      → j * second < two63
      → suc n * s.slot_duration < two63
      → (timestamp_to_slot seconds s (after s (j * second)) ≡ some n) ↔ (
          (start_of_slot s n ≤ℤ after s (j * second))
          × ¬ (start_of_slot s (suc n) ≤ℤ after s (j * second)))
  timestamp_to_slot_iff s j k n nz d f h g =
      let low = after-le_iff s (n * s.slot_duration) (j * second) in
      let high = after-le_iff s (suc n * s.slot_duration) (j * second) in
      let mid = rw (← d) at (between j k n nz) in
      rw
        (
          timestamp_to_slot-after s j k nz d f h,
          start_of_slot-eq s n (omega arith),
          start_of_slot-eq s (suc n) g,
        )
        (
          (λ p. let q = mid.0 (some-inj p) in (low.1 q.0, λ r. q.1 (high.0 r))),
          (λ p. ap some (mid.1 (low.0 p.0, λ r. p.1 (high.1 r)))),
        )

  -- Where epochs have slots and a timestamp has a slot, without a panic, its epoch is the epoch of
  -- that slot.
  timestamp_to_epoch-eq :
      (s : Service) (t : ℤ) {slot : ℕ}
      → s.slots_per_epoch ≢ 0
      → timestamp_to_slot seconds s t ≡ some slot
      → timestamp_to_epoch seconds s t ≡ slot_to_epoch s slot
  unfolding timestamp_to_slot timestamp_to_epoch slot_to_epoch
  timestamp_to_epoch-eq s t n h = ground arith

  -- With a conversion to seconds that is exact on whole seconds and monotone: of two timestamps
  -- that both have slots, the later one has a later slot or the same.
  timestamp_to_slot_mono :
      (s : Service) (t u : ℤ) {m n : ℕ}
      → t ≤ℤ u
      → timestamp_to_slot seconds s t ≡ some m
      → timestamp_to_slot seconds s u ≡ some n
      → m ≤ n
  unfolding timestamp_to_slot
  timestamp_to_slot_mono s t u {m} {n} h p q = ground (
    arith,
    div64_mono (seconds (elapsed t s.genesis_time)) (seconds (elapsed u s.genesis_time))
        (seconds s.slot_duration) {m = m} {n = n}
        (law.mono _ _ (elapsed_mono t u s.genesis_time h) (elapsed-lt u s.genesis_time)),
  )
