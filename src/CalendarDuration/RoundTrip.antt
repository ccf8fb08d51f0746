-- ===== src/CalendarDuration/RoundTrip.antt =====
-- util/calendarduration.go: parsing what is printed.
use chaind.Common.{
  ℕ, ◌<◌, ◌≡◌, refl, ◌∙◌, Bool, false, ◌&&◌, ◌||◌, Bool-cases, inl, inr, [], ◌∷◌, if◌then◌else◌,
  ◌==◌, arith,
}
use chaind.CalendarDuration.{
  Bytes, CalendarDuration, invalid, positive, string, field, skip_t, of_matches, parse_from,
  parse_calendar_duration, is_part_byte,
}
use chaind.CalendarDuration.Parts.{
  group, Skips, part-field, Skips-field, Skips-nil, Skips-t, is_empty-group,
  parse_duration_part-group,
}

-- Each field is in the range of the parser, 32-bit numbers that are not negative.
abbrev pub IsSmall : CalendarDuration → Type 0
IsSmall d =
    (d.years < 2_147_483_648)
    × (d.months < 2_147_483_648)
    × (d.days < 2_147_483_648)
    × (d.hours < 2_147_483_648)
    × (d.minutes < 2_147_483_648)
    × (d.seconds < 2_147_483_648)

abbrev pub is_zero : CalendarDuration → Bool
is_zero d =
    d.years == 0 && d.months == 0 && d.days == 0 && d.hours == 0 && d.minutes == 0 && d.seconds == 0

module _ (d : CalendarDuration) where
  abbrev seconds_text : Bytes
  seconds_text = field d.seconds b'S' []

  abbrev minutes_text : Bytes
  minutes_text = field d.minutes b'M' seconds_text

  abbrev time_text : Bytes
  time_text = field d.hours b'H' minutes_text

  abbrev has_time : Bool
  has_time = positive d.hours || positive d.minutes || positive d.seconds

  abbrev marked_text : Bytes
  marked_text = if has_time then b'T' ∷ time_text else time_text

  time_text-nil : has_time ≡ false → time_text ≡ []
  unfolding field
  time_text-nil a =
      let h : positive d.hours ≡ false = ground arith in
      let m : positive d.minutes ≡ false = ground arith in
      let s : positive d.seconds ≡ false = ground arith in rw (h, m, s) refl

  skip_t-marked : skip_t marked_text ≡ time_text
  unfolding skip_t
  skip_t-marked = elim (Bool-cases has_time) [
    | inl a ↦ rw a refl
    | inr a ↦ rw (a, time_text-nil a) refl
  ]

  Skips-marked : (letter : ℕ) → Skips letter marked_text
  Skips-marked letter = elim (Bool-cases has_time) [
    | inl a ↦ rw a (Skips-t letter time_text)
    | inr a ↦ rw (a, time_text-nil a) (Skips-nil letter)
  ]

  abbrev days_text : Bytes
  days_text = field d.days b'D' marked_text

  abbrev months_text : Bytes
  months_text = field d.months b'M' days_text

  parse-string-groups :
      parse_calendar_duration (string d)
      ≡ of_matches
          (group d.years)
          (group d.months)
          (group d.days)
          (group d.hours)
          (group d.minutes)
          (group d.seconds)
  unfolding parse_calendar_duration parse_from string is_part_byte
  parse-string-groups =
      rw
        (
          part-field d.years b'Y' months_text refl (
              Skips-field b'Y' d.months b'M' days_text refl refl
                (Skips-field b'Y' d.days b'D' marked_text refl refl (Skips-marked b'Y'))),
          part-field d.months b'M' days_text refl
              (Skips-field b'M' d.days b'D' marked_text refl refl (Skips-marked b'M')),
          part-field d.days b'D' marked_text refl (Skips-marked b'D'),
          skip_t-marked,
          part-field d.hours b'H' minutes_text refl (
              Skips-field b'H' d.minutes b'M' seconds_text refl refl
                (Skips-field b'H' d.seconds b'S' [] refl refl (Skips-nil b'H'))),
          part-field d.minutes b'M' seconds_text refl
              (Skips-field b'M' d.seconds b'S' [] refl refl (Skips-nil b'M')),
          part-field d.seconds b'S' [] refl (Skips-nil b'S'),
        )
        refl

  -- Where no field of a duration is negative or has more than 31 bits, parsing its text gives the
  -- duration back; but the duration of nothing, which is printed as P, is refused as invalid.
  pub parse_calendar_duration-string :
      IsSmall d → parse_calendar_duration (string d) ≡ (if is_zero d then inl invalid else inr d)
  unfolding of_matches
  parse_calendar_duration-string (y, mo, da, h, mi, s) =
      parse-string-groups
      ∙ rw
          (
            is_empty-group d.years y,
            is_empty-group d.months mo,
            is_empty-group d.days da,
            is_empty-group d.hours h,
            is_empty-group d.minutes mi,
            is_empty-group d.seconds s,
            parse_duration_part-group d.years y,
            parse_duration_part-group d.months mo,
            parse_duration_part-group d.days da,
            parse_duration_part-group d.hours h,
            parse_duration_part-group d.minutes mi,
            parse_duration_part-group d.seconds s,
          )
          refl
