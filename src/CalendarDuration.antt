-- ===== src/CalendarDuration.antt =====
-- util/calendarduration.go: the text of calendar durations, and their arithmetic.
pub mod Digits
pub mod Parts
pub mod RoundTrip
use chaind.Common.{
  ℕ, zero, suc, ◌+◌, ◌-◌, ◌*◌, ◌/◌, ◌%◌, Bool, true, false, ◌&&◌, ◌||◌, Option, none, some, List,
  [], ◌∷◌, ◌⊎◌, inl, inr, if◌then◌else◌, ltb, leb, ◌==◌, add64, mul64, two63,
}

abbrev pub Bytes : Type 0
Bytes = List ℕ

-- The fields are ints: bit patterns of 64 bits.
pub record CalendarDuration : Type 0 where
  pub seconds : ℕ
  pub minutes : ℕ
  pub hours : ℕ
  pub days : ℕ
  pub months : ℕ
  pub years : ℕ

pub data CalendarError : Type 0 where
  no_duration malformed invalid : CalendarError

-- n > 0, of an int.
abbrev pub positive : ℕ → Bool
positive n = ltb 0 n && ltb n two63

-- `%d` of a positive number; the fuel is the number itself.
digits_from : ℕ → ℕ → Bytes → Bytes
digits_from zero n out = out
digits_from (suc fuel) n out =
    let rest = digits_from fuel (n / 10) ((b'0' + n % 10) ∷ out) in if n == 0 then out else rest

unfoldable pub print : ℕ → Bytes
unfolding digits_from
print n = digits_from n n []

pub append : Bytes → Bytes → Bytes
append [] ys = ys
append (x ∷ xs) ys = x ∷ append xs ys

-- The text of one field, in front of what follows it.
pub field : ℕ → ℕ → Bytes → Bytes
unfolding append
field n letter rest = if positive n then append (print n) (letter ∷ rest) else rest

unfoldable pub string : CalendarDuration → Bytes
unfolding field
string d =
    let time = field d.hours b'H' (field d.minutes b'M' (field d.seconds b'S' [])) in
    b'P'
    ∷ field d.years b'Y' (
        field d.months b'M' (
          field d.days b'D' (
            if positive d.hours || positive d.minutes || positive d.seconds
            then b'T' ∷ time
            else time)))

-- [\d\.]
pub is_part_byte : ℕ → Bool
is_part_byte c = (leb b'0' c && leb c b'9') || c == b'.'

-- The longest run of such bytes, and what follows it.
run_of : Bytes → Bytes × Bytes
unfolding is_part_byte
run_of [] = ([], [])
run_of (c ∷ s) = let rest = run_of s in if is_part_byte c then (c ∷ rest.0, rest.1) else ([], c ∷ s)

close_part : ℕ → Bytes → Bytes → Bytes → Bytes × Bytes
close_part letter [] after s = ([], s)
close_part letter (d ∷ ds) [] s = ([], s)
close_part letter (d ∷ ds) (c ∷ after) s = if c == letter then (d ∷ ds, after) else ([], s)

-- One optional group of the regular expression, without its letter, which the run cannot have; empty
-- where there is no match. What follows is optional too, so that the search never goes back.
pub part : ℕ → Bytes → Bytes × Bytes
unfolding run_of close_part
part letter s = let r = run_of s in close_part letter r.0 r.1 s

pub skip_t : Bytes → Bytes
skip_t [] = []
skip_t (c ∷ s) = if c == b'T' then s else c ∷ s

-- strconv.ParseInt, in base 10 and without a sign; `none` is an error.
scan : Bytes → ℕ → Option ℕ
scan [] n = some n
scan (c ∷ s) n =
    let rest = scan s (n * 10 + (c - b'0')) in if leb b'0' c && leb c b'9' then rest else none

-- A number out of the range of 32 bits is an error, and an error is 0.
in_range : Option ℕ → ℕ
in_range none = 0
in_range (some n) = if ltb n 2_147_483_648 then n else 0

unfoldable pub parse_duration_part : Bytes → ℕ
unfolding scan in_range
parse_duration_part [] = 0
parse_duration_part (c ∷ s) = in_range (scan (c ∷ s) 0)

pub is_empty : Bytes → Bool
is_empty [] = true
is_empty (c ∷ s) = false

-- The groups that were found, from the years to the seconds.
pub of_matches : Bytes → Bytes → Bytes → Bytes → Bytes → Bytes → CalendarError ⊎ CalendarDuration
unfolding is_empty
of_matches y mo d h mi s =
    if is_empty y && is_empty mo && is_empty d && is_empty h && is_empty mi && is_empty s
    then inl invalid
    else inr (record {
      seconds = parse_duration_part s;
      minutes = parse_duration_part mi;
      hours = parse_duration_part h;
      days = parse_duration_part d;
      months = parse_duration_part mo;
      years = parse_duration_part y;
    })

-- From the first P on; the parts behind it are all optional.
parse_from : Bytes → CalendarError ⊎ CalendarDuration
unfolding part skip_t of_matches
parse_from [] = inl malformed
parse_from (c ∷ s) =
    let rest = parse_from s in
    let years = part b'Y' s in
    let months = part b'M' years.1 in
    let days = part b'D' months.1 in
    let hours = part b'H' (skip_t days.1) in
    let minutes = part b'M' hours.1 in
    let seconds = part b'S' minutes.1 in
    if c == b'P' then of_matches years.0 months.0 days.0 hours.0 minutes.0 seconds.0 else rest

unfoldable pub parse_calendar_duration : Bytes → CalendarError ⊎ CalendarDuration
unfolding parse_from
parse_calendar_duration [] = inl no_duration
parse_calendar_duration (c ∷ s) = parse_from (c ∷ s)

-- time.Hour, in nanoseconds.
abbrev hour : ℕ
hour = 3_600_000_000_000

unfoldable pub to_duration : CalendarDuration → ℕ
to_duration d =
    add64
      (add64
        (add64
          (add64 (add64 (mul64 d.years (365 * 24 * hour)) (mul64 d.months (30 * 24 * hour)))
            (mul64 d.days (24 * hour)))
          (mul64 d.hours hour))
        (mul64 d.minutes 60_000_000_000))
      (mul64 d.seconds 1_000_000_000)

unfoldable pub mul : CalendarDuration → ℕ → CalendarDuration
mul d times = record {
  seconds = mul64 d.seconds times;
  minutes = mul64 d.minutes times;
  hours = mul64 d.hours times;
  days = mul64 d.days times;
  months = mul64 d.months times;
  years = mul64 d.years times;
}
