-- ===== src/Summarizer/Votes/Counted.antt =====
-- services/summarizer/standard/epoch.go: which validators the attestations of an epoch count.
use chaind.Common.{
  ℕ, zero, suc, ◌<◌, ◌≡◌, refl, sym, ap, ◌∙◌, Bool, true, false, ◌&&◌, ◌||◌, Bool-cases, inl, inr,
  some, List, [], ◌∷◌, if◌then◌else◌, ◌==◌, get_elem?, length, ok, arith,
}
use chaind.ChainDb.{is_canonical}
use chaind.Summarizer.{ValidatorBalance, Attestation, EpochSummary}
use chaind.Summarizer.Intersection.Common.{contains}
use chaind.Summarizer.Votes.{Voters, no_voters, put, vote, balance_at, vote_each, count_votes}

abbrev pub has_key : ℕ → List (ℕ × ℕ) → Bool
has_key c [] = false
has_key c (p ∷ ps) = p.0 == c || has_key c ps

-- No key stands twice, so that the length of the map is the number of its keys.
abbrev pub IsDistinct : List (ℕ × ℕ) → Type 0
IsDistinct [] = Unit
IsDistinct (p ∷ ps) = (has_key p.0 ps ≡ false) × IsDistinct ps

or_move : (a b c : Bool) → (a || (b || c)) ≡ ((a || b) || c)
or_move true b c = refl
or_move false b c = refl

or_false : (a : Bool) → (a || false) ≡ a
or_false true = refl
or_false false = refl

absorb : (a b : Bool) → (a || b) ≡ ((a || b) || a)
absorb true b = refl
absorb false true = refl
absorb false false = refl

has_key-put : (c i b : ℕ) (m : List (ℕ × ℕ)) → has_key c (put i b m) ≡ (has_key c m || i == c)
unfolding put
has_key-put c i b [] = or_false (i == c)
has_key-put c i b (p ∷ ps) = elim (Bool-cases (p.0 == i)) [
  | inl a ↦
      let same : (p.0 == c) ≡ (i == c) = ap (λ n. n == c) (ground arith) in
      rw (a, same) (absorb (i == c) (has_key c ps))
  | inr a ↦ rw (a, has_key-put c i b ps) (or_move (p.0 == c) (has_key c ps) (i == c))
]

put-IsDistinct : (i b : ℕ) (m : List (ℕ × ℕ)) → IsDistinct m → IsDistinct (put i b m)
unfolding put
put-IsDistinct i b [] d = (refl, tt)
put-IsDistinct i b (p ∷ ps) (fresh, d) = elim (Bool-cases (p.0 == i)) [
  | inl a ↦ let same : p.0 ≡ i = ground arith in rw a (ap (λ n. has_key n ps) (sym same) ∙ fresh, d)
  | inr a ↦
      let other : (i == p.0) ≡ false = ground arith in
      rw a (has_key-put p.0 i b ps ∙ rw (fresh, other) refl, put-IsDistinct i b ps d)
]

-- What a map says after some validators: those that it had, and those of the list where the flag is
-- set.
abbrev pub Says : Bool → List ℕ → List (ℕ × ℕ) → List (ℕ × ℕ) → Type 0
Says flag indices m m' =
    ((c : ℕ) → has_key c m' ≡ (has_key c m || (flag && contains c indices)))
    × (IsDistinct m → IsDistinct m')

Says-nil : (flag : Bool) (m : List (ℕ × ℕ)) → Says flag [] m m
Says-nil true m = (λ c. sym (or_false (has_key c m)), λ d. d)
Says-nil false m = (λ c. sym (or_false (has_key c m)), λ d. d)

Says-cons :
    (flag : Bool) (i b : ℕ) (indices : List ℕ) (m m' : List (ℕ × ℕ))
    → Says flag indices (if flag then put i b m else m) m'
    → Says flag (i ∷ indices) m m'
Says-cons true i b indices m m' (says, distinct) = (
  λ c.
      says c
      ∙ ap (λ x. x || contains c indices) (has_key-put c i b m)
      ∙ sym (or_move (has_key c m) (i == c) (contains c indices)),
  λ d. distinct (put-IsDistinct i b m d),
)
Says-cons false i b indices m m' says = says

-- Every validator has a balance.
abbrev pub AllBelow : ℕ → List ℕ → Type 0
AllBelow n [] = Unit
AllBelow n (i ∷ indices) = (i < n) × AllBelow n indices

get_elem?-below :
    (bs : List ValidatorBalance) (i : ℕ)
    → i < length bs
    → (b : ValidatorBalance) × (get_elem? bs i ≡ some b)
get_elem?-below [] i h = absurd (omega arith)
get_elem?-below (b ∷ bs) zero h = (b, refl)
get_elem?-below (b ∷ bs) (suc i) h = get_elem?-below bs i (omega arith)

-- Whether a validator is in one of the attestations that the test chooses.
abbrev pub votes : (Attestation → Bool) → ℕ → List Attestation → Bool
votes f c [] = false
votes f c (a ∷ as') = (f a && contains c a.aggregation_indices) || votes f c as'

module _ (balances : List ValidatorBalance) (s : EpochSummary) where
  vote_each-Says :
      (a : Attestation) (indices : List ℕ) (v : Voters)
      → AllBelow (length balances) indices
      → (v' : Voters) × (vote_each balances a indices v s ≡ (ok v', s))
        × Says true indices v.attesting v'.attesting
        × Says (is_canonical a.target_correct) indices v.target_correct v'.target_correct
        × Says (is_canonical a.head_correct) indices v.head_correct v'.head_correct
  unfolding vote_each balance_at vote
  vote_each-Says a [] v p = (
    v,
    refl,
    Says-nil true v.attesting,
    Says-nil (is_canonical a.target_correct) v.target_correct,
    Says-nil (is_canonical a.head_correct) v.head_correct,
  )
  vote_each-Says a (i ∷ indices) v (p, ps) =
      let (x, found) = get_elem?-below balances i p in
      let b = x.effective_balance in
      let (v', run, attesting, target, head) = vote_each-Says a indices (vote a i b v) ps in
      (
        v',
        rw found run,
        Says-cons true i b indices v.attesting v'.attesting attesting,
        Says-cons (is_canonical a.target_correct) i b indices v.target_correct v'.target_correct
            target,
        Says-cons (is_canonical a.head_correct) i b indices v.head_correct v'.head_correct head,
      )

  abbrev pub AllIn : List Attestation → Type 0
  AllIn [] = Unit
  AllIn (a ∷ as') = AllBelow (length balances) a.aggregation_indices × AllIn as'

  -- What a map says after some attestations.
  abbrev pub Counts : (Attestation → Bool) → List Attestation → List (ℕ × ℕ) → List (ℕ × ℕ) → Type 0
  Counts f as' m m' =
      ((c : ℕ) → has_key c m' ≡ (has_key c m || votes f c as')) × (IsDistinct m → IsDistinct m')

  Counts-cons :
      (f : Attestation → Bool) (a : Attestation) (as' : List Attestation) (m x m' : List (ℕ × ℕ))
      → Says (f a) a.aggregation_indices m x
      → Counts f as' x m'
      → Counts f (a ∷ as') m m'
  Counts-cons f a as' m x m' (says, distinct) (counts, distinct') = (
    λ c.
        counts c
        ∙ ap (λ b. b || votes f c as') (says c)
        ∙ sym (or_move (has_key c m) (f a && contains c a.aggregation_indices) (votes f c as')),
    λ d. distinct' (distinct d),
  )

  count_votes-Counts :
      (as' : List Attestation) (v : Voters)
      → AllIn as'
      → (v' : Voters) × (count_votes balances as' v s ≡ (ok v', s))
        × Counts (λ _. true) as' v.attesting v'.attesting
        × Counts (λ a. is_canonical a.target_correct) as' v.target_correct v'.target_correct
        × Counts (λ a. is_canonical a.head_correct) as' v.head_correct v'.head_correct
  unfolding count_votes
  count_votes-Counts [] v p =
      let same = λ (m : List (ℕ × ℕ)) (c : ℕ). sym (or_false (has_key c m)) in
      (
        v,
        refl,
        (same v.attesting, λ d. d),
        (same v.target_correct, λ d. d),
        (same v.head_correct, λ d. d),
      )
  count_votes-Counts (a ∷ as') v (p, ps) =
      let (x, run, attesting, target, head) = vote_each-Says a a.aggregation_indices v p in
      let (v', run', attesting', target', head') = count_votes-Counts as' x ps in
      (
        v',
        rw run run',
        Counts-cons (λ _. true) a as' v.attesting x.attesting v'.attesting attesting attesting',
        Counts-cons (λ a. is_canonical a.target_correct) a as' v.target_correct x.target_correct
            v'.target_correct target target',
        Counts-cons (λ a. is_canonical a.head_correct) a as' v.head_correct x.head_correct
            v'.head_correct head head',
      )

  -- Where every validator that an attestation names has a balance, counting the votes ends without a
  -- panic. A validator is then counted as attesting exactly where one of the attestations names it, and as
  -- having a correct target, or head, exactly where one of those with a correct target, or head, does; and
  -- none is counted twice.
  pub count_votes-counted :
      (as' : List Attestation)
      → AllIn as'
      → (v : Voters) × (count_votes balances as' no_voters s ≡ (ok v, s))
        × ((c : ℕ) → has_key c v.attesting ≡ votes (λ _. true) c as')
        × ((c : ℕ) → has_key c v.target_correct ≡ votes (λ a. is_canonical a.target_correct) c as')
        × ((c : ℕ) → has_key c v.head_correct ≡ votes (λ a. is_canonical a.head_correct) c as')
        × IsDistinct v.attesting
        × IsDistinct v.target_correct
        × IsDistinct v.head_correct
  unfolding no_voters
  count_votes-counted as' p =
      let (v, run, (attesting, a), (target, t), (head, h)) = count_votes-Counts as' no_voters p in
      (v, run, attesting, target, head, a tt, t tt, h tt)
