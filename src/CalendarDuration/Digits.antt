-- ===== src/CalendarDuration/Digits.antt =====
-- The digits of a number, for util/calendarduration.go.
use chaind.Common.{
  ℕ, zero, suc, ◌+◌, ◌-◌, ◌*◌, ◌/◌, ◌%◌, ◌≤◌, ◌<◌, ◌≡◌, refl, true, false, Bool-cases, inl, inr, [],
  subst, ◌∷◌, some, leb, ◌==◌, arith,
}
use chaind.CalendarDuration.{
  Bytes, digits_from, print, scan, is_part_byte, parse_duration_part, in_range, ltb,
}

digits_from-cons :
    (fuel n d : ℕ) (out : Bytes)
    → (d' : ℕ) × (ds : Bytes) × (digits_from fuel n (d ∷ out) ≡ d' ∷ ds)
unfolding digits_from
digits_from-cons zero n d out = (d, out, refl)
digits_from-cons (suc fuel) n d out = elim (Bool-cases (n == 0)) [
  | inl a ↦ (d, out, rw a refl)
  | inr a ↦
      let (d', ds, e) = digits_from-cons fuel (n / 10) (b'0' + n % 10) (d ∷ out) in (d', ds, rw a e)
]

pub print-cons : (n : ℕ) → 0 < n → (d : ℕ) × (ds : Bytes) × (print n ≡ d ∷ ds)
unfolding print digits_from
print-cons zero h = absurd (omega arith)
print-cons (suc n) h =
    let no : (suc n == 0) ≡ false = ground arith in
    rw no (digits_from-cons n (suc n / 10) (b'0' + suc n % 10) [])

scan-digits_from :
    (fuel n : ℕ) (out : Bytes) → n ≤ fuel → scan (digits_from fuel n out) 0 ≡ scan out n
unfolding digits_from scan
scan-digits_from zero n out h = let z : n ≡ 0 = omega arith in rw z refl
scan-digits_from (suc fuel) n out h = elim (Bool-cases (n == 0)) [
  | inl a ↦ let z : n ≡ 0 = ground arith in rw (a, z) refl
  | inr a ↦
      let small : n / 10 ≤ fuel = ground arith in
      let low : leb b'0' (b'0' + n % 10) ≡ true = ground arith in
      let high : leb (b'0' + n % 10) b'9' ≡ true = ground arith in
      let again : n / 10 * 10 + (b'0' + n % 10 - b'0') ≡ n = omega arith in
      rw (a, scan-digits_from fuel (n / 10) ((b'0' + n % 10) ∷ out) small, low, high, again) refl
]

scan-print : (n : ℕ) → scan (print n) 0 ≡ some n
unfolding print scan
scan-print n = scan-digits_from n n [] (omega arith)

-- Every byte is one of those that a part may have.
abbrev pub AllPart : Bytes → Type 0
AllPart [] = Unit
AllPart (c ∷ s) = (is_part_byte c ≡ true) × AllPart s

digits_from-AllPart : (fuel n : ℕ) (out : Bytes) → AllPart out → AllPart (digits_from fuel n out)
unfolding digits_from is_part_byte
digits_from-AllPart zero n out p = p
digits_from-AllPart (suc fuel) n out p = elim (Bool-cases (n == 0)) [
  | inl a ↦ rw a p
  | inr a ↦
      let digit : is_part_byte (b'0' + n % 10) ≡ true = ground arith in
      rw a (digits_from-AllPart fuel (n / 10) ((b'0' + n % 10) ∷ out) (digit, p))
]

pub print-AllPart : (n : ℕ) → AllPart (print n)
unfolding print
print-AllPart n = digits_from-AllPart n n [] tt

pub parse_duration_part-print :
    (n : ℕ) → 0 < n → n < 2_147_483_648 → parse_duration_part (print n) ≡ n
unfolding parse_duration_part in_range
parse_duration_part-print n p h =
    let (d, ds, e) = print-cons n p in
    let value : scan (d ∷ ds) 0 ≡ some n = subst (λ s. scan s 0 ≡ some n) e (scan-print n) in
    let fits : ltb n 2_147_483_648 ≡ true = ground arith in rw (e, value, fits) refl
