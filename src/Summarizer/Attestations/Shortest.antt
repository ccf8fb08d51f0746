-- ===== src/Summarizer/Attestations/Shortest.antt =====
-- services/summarizer/standard/validatorepoch.go: the inclusion delay of a validator.
use chaind.Common.{
  ℕ, ◌≡◌, refl, ap, ◌∙◌, Bool, true, false, ◌&&◌, Bool-cases, inl, inr, Option, none, some, List,
  [], ◌∷◌, if◌then◌else◌, ltb, ◌==◌, arith,
}
use chaind.ChainDb.{is_canonical}
use chaind.Summarizer.Intersection.Common.{contains}
use chaind.Summarizer.Attestations.{
  Attestation, Delays, Entry, Entries, delay_of, mark, modify, vote_with, vote_indices, and_then,
  attestations_for_epoch,
}

abbrev pub entry_of : ℕ → List (ℕ × Entry) → Option Entry
entry_of c [] = none
entry_of c (p ∷ ps) = let rest = entry_of c ps in if p.0 == c then some p.1 else rest

abbrev pub delay_in : Option Entry → Option ℕ
delay_in none = none
delay_in (some e) = some e.inclusion_delay

-- The smaller one, where there is one already.
abbrev pub shorter : ℕ → Option ℕ → Option ℕ
shorter n none = some n
shorter n (some k) = if ltb n k then some n else some k

-- The shortest delay of the canonical attestations that name a validator, and of the one before.
abbrev pub shortest : ℕ → List Attestation → Option ℕ → Option ℕ
shortest c [] found = found
shortest c (a ∷ as') found = shortest c as' (
    if is_canonical a.canonical && contains c a.aggregation_indices
    then shorter (delay_of a) found
    else found)

entry_of-modify :
    (c i : ℕ) (f : Option Entry → Entry) (es : Entries)
    → entry_of c (modify i f es) ≡ (if i == c then some (f (entry_of c es)) else entry_of c es)
unfolding modify
entry_of-modify c i f [] = refl
entry_of-modify c i f (p ∷ ps) = elim (Bool-cases (p.0 == i)) [
  | inl a ↦
      let same : p.0 ≡ i = ground arith in
      elim (Bool-cases (i == c)) [
        | inl b ↦ let this : (p.0 == c) ≡ true = ap (λ n. n == c) same ∙ b in rw (a, this, b) refl
        | inr b ↦ let this : (p.0 == c) ≡ false = ap (λ n. n == c) same ∙ b in rw (a, this, b) refl
      ]
  | inr a ↦ elim (Bool-cases (p.0 == c)) [
    | inl b ↦ let other : (i == c) ≡ false = ground arith in rw (a, b, other) refl
    | inr b ↦ rw (a, b) (entry_of-modify c i f ps)
  ]
]

delay_in-mark :
    (delays : Delays) (a : Attestation) (target head : Bool) (o : Option Entry)
    → some (mark delays a target head o).inclusion_delay ≡ shorter (delay_of a) (delay_in o)
unfolding mark
delay_in-mark delays a target head none = refl
delay_in-mark delays a target head (some e) =
    elim (Bool-cases (ltb (delay_of a) e.inclusion_delay)) [ inl b ↦ rw b refl | inr b ↦ rw b refl ]

shorter-twice : (n : ℕ) (o : Option ℕ) → shorter n (shorter n o) ≡ shorter n o
shorter-twice n none = let no : ltb n n ≡ false = ground arith in rw no refl
shorter-twice n (some k) = elim (Bool-cases (ltb n k)) [
  | inl a ↦ let no : ltb n n ≡ false = ground arith in rw (a, no) refl
  | inr a ↦ rw (a, a) refl
]

again :
    (b : Bool) (n : ℕ) (o : Option ℕ)
    → (if b then shorter n (shorter n o) else shorter n o) ≡ shorter n o
again true n o = shorter-twice n o
again false n o = refl

vote_with-some :
    (o o' : Option Bool) (f : Bool → Bool → Option Entries) (target head : Bool)
    → o ≡ some target
    → o' ≡ some head
    → vote_with o o' f ≡ f target head
unfolding vote_with
vote_with-some o o' f target head p q = rw (p, q) refl

-- What one attestation makes of the entries: with the validators that it names.
delay_in-vote_indices :
    (delays : Delays) (a : Attestation) (target head : Bool) (c : ℕ) (indices : List ℕ)
    (es : Entries)
    → a.target_correct ≡ some target
    → a.head_correct ≡ some head
    → (es' : Entries) × (vote_indices delays a indices es ≡ some es')
      × (delay_in (entry_of c es') ≡ (
          if contains c indices
          then shorter (delay_of a) (delay_in (entry_of c es))
          else delay_in (entry_of c es)))
unfolding vote_indices
delay_in-vote_indices delays a target head c [] es p q = (es, refl, refl)
delay_in-vote_indices delays a target head c (i ∷ is) es p q =
    let f = mark delays a target head in
    let (es', run, delay) = delay_in-vote_indices delays a target head c is (modify i f es) p q in
    (
      es',
      vote_with-some a.target_correct a.head_correct
            (λ t h. vote_indices delays a is (modify i (mark delays a t h) es)) target head p q
          ∙ run,
      elim (Bool-cases (i == c)) [
        | inr b ↦
            let same : entry_of c (modify i f es) ≡ entry_of c es =
              entry_of-modify c i f es ∙ rw b refl in
            rw b (
              delay
              ∙ ap (λ o. if contains c is then shorter (delay_of a) (delay_in o) else delay_in o)
                  same)
        | inl b ↦
            let new : delay_in (entry_of c (modify i f es))
                ≡ shorter (delay_of a) (delay_in (entry_of c es)) =
              ap delay_in (
                entry_of-modify c i f es
                ∙ ap (λ t. if t then some (f (entry_of c es)) else entry_of c es) b)
              ∙ delay_in-mark delays a target head (entry_of c es) in
            rw b (
              delay
              ∙ ap (λ o. if contains c is then shorter (delay_of a) o else o) new
              ∙ again (contains c is) (delay_of a) (delay_in (entry_of c es)))
      ],
    )

-- Each canonical attestation has been judged.
abbrev pub AllJudged : List Attestation → Type 0
AllJudged [] = Unit
AllJudged (a ∷ as') =
    (is_canonical a.canonical ≡ true
      → (target : Bool) × (head : Bool) × (a.target_correct ≡ some target)
        × (a.head_correct ≡ some head))
    × AllJudged as'

module _ (delays : Delays) (c : ℕ) where
  attestations-shortest :
      (as' : List Attestation) (es : Entries)
      → AllJudged as'
      → (es' : Entries) × (attestations_for_epoch delays as' es ≡ some es')
        × (delay_in (entry_of c es') ≡ shortest c as' (delay_in (entry_of c es)))
  unfolding attestations_for_epoch and_then
  attestations-shortest [] es p = (es, refl, refl)
  attestations-shortest (a ∷ as') es (p, ps) = elim (Bool-cases (is_canonical a.canonical)) [
    | inr b ↦ let (es', run, delay) = attestations-shortest as' es ps in (es', rw b run, rw b delay)
    | inl b ↦
        let (target, head, t, h) = p b in
        let (x, voted, step) =
          delay_in-vote_indices delays a target head c a.aggregation_indices es t h in
        let (es', run, delay) = attestations-shortest as' x ps in
        (es', rw (b, voted) run, rw b (delay ∙ ap (shortest c as') step))
  ]

  -- Where the target and the head of every canonical attestation have been judged, the loop over the
  -- attestations ends without a panic. A validator then has an entry exactly where a canonical
  -- attestation names it, and its inclusion delay is the shortest delay of those.
  pub attestations_for_epoch-shortest :
      (as' : List Attestation)
      → AllJudged as'
      → (entries : Entries) × (attestations_for_epoch delays as' [] ≡ some entries)
        × (delay_in (entry_of c entries) ≡ shortest c as' none)
  attestations_for_epoch-shortest as' p = attestations-shortest as' [] p
