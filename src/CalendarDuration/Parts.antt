-- ===== src/CalendarDuration/Parts.antt =====
-- The groups of the regular expression of util/calendarduration.go.
use chaind.Common.{
  ℕ, ◌<◌, ◌≡◌, refl, ◌∙◌, true, false, Bool-cases, inl, inr, [], ◌∷◌, if◌then◌else◌, ◌==◌, arith,
}
use chaind.CalendarDuration.{
  Bytes, positive, print, append, field, is_part_byte, run_of, close_part, part, is_empty,
  parse_duration_part,
}
use chaind.CalendarDuration.Digits.{AllPart, print-cons, print-AllPart, parse_duration_part-print}

run_of-append :
    (ds : Bytes) (c : ℕ) (after : Bytes)
    → AllPart ds
    → is_part_byte c ≡ false
    → run_of (append ds (c ∷ after)) ≡ (ds, c ∷ after)
unfolding run_of append
run_of-append [] c after p q = rw q refl
run_of-append (d ∷ ds) c after (p, ps) q = rw (p, run_of-append ds c after ps q) refl

-- What a group matches of a number and a letter: all of it where the letter is its own, nothing else.
part-print :
    (letter n c : ℕ) (after : Bytes)
    → 0 < n
    → is_part_byte c ≡ false
    → part letter (append (print n) (c ∷ after))
      ≡ (if c == letter then (print n, after) else ([], append (print n) (c ∷ after)))
unfolding part close_part
part-print letter n c after h q =
    let (d, ds, e) = print-cons n h in
    rw (run_of-append (print n) c after (print-AllPart n) q, e) refl

-- A group of the letter matches nothing.
abbrev pub Skips : ℕ → Bytes → Type 0
Skips letter s = part letter s ≡ ([], s)

-- What a group of the letter has of a field.
abbrev pub group : ℕ → Bytes
group n = if positive n then print n else []

pub part-field :
    (n letter : ℕ) (after : Bytes)
    → is_part_byte letter ≡ false
    → Skips letter after
    → part letter (field n letter after) ≡ (group n, after)
unfolding field
part-field n letter after q skips = elim (Bool-cases (positive n)) [
  | inr a ↦ rw a skips
  | inl a ↦
      let same : (letter == letter) ≡ true = ground arith in
      rw a (part-print letter n letter after (ground arith) q ∙ rw same refl)
]

pub Skips-field :
    (letter n c : ℕ) (after : Bytes)
    → is_part_byte c ≡ false
    → (c == letter) ≡ false
    → Skips letter after
    → Skips letter (field n c after)
unfolding field
Skips-field letter n c after q other skips = elim (Bool-cases (positive n)) [
  | inr a ↦ rw a skips
  | inl a ↦ rw a (part-print letter n c after (ground arith) q ∙ rw other refl)
]

pub Skips-nil : (letter : ℕ) → Skips letter []
unfolding part run_of close_part
Skips-nil letter = refl

pub Skips-t : (letter : ℕ) (s : Bytes) → Skips letter (b'T' ∷ s)
unfolding part run_of close_part is_part_byte
Skips-t letter s = refl

pub is_empty-group : (n : ℕ) → n < 2_147_483_648 → is_empty (group n) ≡ (n == 0)
unfolding is_empty
is_empty-group n h = elim (Bool-cases (positive n)) [
  | inr a ↦ let z : (n == 0) ≡ true = ground arith in rw (a, z) refl
  | inl a ↦
      let z : (n == 0) ≡ false = ground arith in
      let (d, ds, e) = print-cons n (ground arith) in rw (a, z, e) refl
]

pub parse_duration_part-group : (n : ℕ) → n < 2_147_483_648 → parse_duration_part (group n) ≡ n
unfolding parse_duration_part
parse_duration_part-group n h = elim (Bool-cases (positive n)) [
  | inr a ↦ let z : n ≡ 0 = ground arith in rw (a, z) refl
  | inl a ↦ rw a (parse_duration_part-print n (ground arith) h)
]
