-- ===== src/Summarizer/Day/Balance.antt =====
-- services/summarizer/standard/validatorday.go: what the changes of a day add up to.
use chaind.Common.{
  ℕ, ◌<◌, ◌≡◌, refl, ap, subst, ◌∙◌, false, Bool-cases, inl, inr, Option, none, some, some-inj,
  List, [], ◌∷◌, if◌then◌else◌, ◌==◌, add64, sub64, two64, arith,
}
use chaind.Summarizer.Day.{
  ValidatorBalance, ValidatorDaySummary, Days, update, lookup, less, plus, or_zero, settle,
  settle_each,
}

abbrev pub find : ℕ → List (ℕ × ValidatorDaySummary) → Option ValidatorDaySummary
find c [] = none
find c (p ∷ ps) = let rest = find c ps in if p.0 == c then some p.1 else rest

-- The balance that a validator ends with: the last one of the list.
abbrev pub last_balance : ℕ → List ValidatorBalance → Option ℕ → Option ℕ
last_balance c [] found = found
last_balance c (b ∷ bs) found = last_balance c bs (if b.index == c then some b.balance else found)

-- Totals and balances are uint64 values.
abbrev pub AllSmall : List (ℕ × ℕ) → Type 0
AllSmall [] = Unit
AllSmall (p ∷ ps) = (p.1 < two64) × AllSmall ps

abbrev pub AllSmallBalances : List ValidatorBalance → Type 0
AllSmallBalances [] = Unit
AllSmallBalances (b ∷ bs) = (b.balance < two64) × AllSmallBalances bs

-- What the validator started with, the rewards and the change of its capital come to a balance.
abbrev pub Settles : ℕ → ValidatorDaySummary → Type 0
Settles balance d = add64 (add64 d.start_balance d.reward_change) d.capital_change ≡ balance

or_zero-lookup : (c : ℕ) (m : List (ℕ × ℕ)) → AllSmall m → or_zero (lookup c m) < two64
unfolding or_zero lookup
or_zero-lookup c [] p = omega arith
or_zero-lookup c (q ∷ qs) (p, ps) = elim (Bool-cases (q.0 == c)) [
  | inl a ↦ rw a p
  | inr a ↦ rw a (or_zero-lookup c qs ps)
]

less-or_zero : (n : ℕ) (o : Option ℕ) → n < two64 → less n o ≡ sub64 n (or_zero o)
unfolding less or_zero
less-or_zero n none h = omega arith
less-or_zero n (some k) h = refl

plus-or_zero : (n : ℕ) (o : Option ℕ) → n < two64 → plus n o ≡ add64 n (or_zero o)
unfolding plus or_zero
plus-or_zero n none h = omega arith
plus-or_zero n (some k) h = refl

sums_up :
    (s e dep wd : ℕ)
    → s < two64
    → e < two64
    → dep < two64
    → wd < two64
    → add64 (add64 s (add64 (sub64 (sub64 e s) dep) wd)) (sub64 dep wd) ≡ e
sums_up s e dep wd hs he hd hw = omega arith

settle-Settles :
    (dep wd : Option ℕ) (b : ValidatorBalance) (d : ValidatorDaySummary)
    → or_zero dep < two64
    → or_zero wd < two64
    → b.balance < two64
    → d.start_balance < two64
    → Settles b.balance (settle dep wd b d)
unfolding settle
settle-Settles dep wd b d hd hw hb hs =
    rw
      (
        less-or_zero (sub64 b.balance d.start_balance) dep (omega arith),
        plus-or_zero (sub64 (sub64 b.balance d.start_balance) (or_zero dep)) wd (omega arith),
      )
      (sums_up d.start_balance b.balance (or_zero dep) (or_zero wd) hs hb hd hw)

find-update-same :
    (c : ℕ) (f : ValidatorDaySummary → ValidatorDaySummary) (days : Days) (d : ValidatorDaySummary)
    → find c days ≡ some d
    → find c (update c f days) ≡ some (f d)
unfolding update
find-update-same c f [] d h = ground arith
find-update-same c f (p ∷ ps) d h = elim (Bool-cases (p.0 == c)) [
  | inl a ↦
      rw (a, a)
        (ap (λ (x : Option ValidatorDaySummary). elim x [ none ↦ none | some y ↦ some (f y) ])
          (rw a at h))
  | inr a ↦ rw (a, a) (find-update-same c f ps d (rw a at h))
]

find-update-other :
    (c i : ℕ) (f : ValidatorDaySummary → ValidatorDaySummary) (days : Days)
    → (i == c) ≡ false
    → find c (update i f days) ≡ find c days
unfolding update
find-update-other c i f [] h = refl
find-update-other c i f (p ∷ ps) h = elim (Bool-cases (p.0 == i)) [
  | inl a ↦ let other : (p.0 == c) ≡ false = ground arith in rw (a, other) refl
  | inr a ↦ rw (a, find-update-other c i f ps h) refl
]

module _ (deposits withdrawals : List (ℕ × ℕ)) (small : AllSmall deposits)
    (small' : AllSmall withdrawals) (c : ℕ) where
  settle_each-found :
      (ends : List ValidatorBalance) (days : Days) (d : ValidatorDaySummary) (found : Option ℕ)
      (e : ℕ)
      → AllSmallBalances ends
      → find c days ≡ some d
      → d.start_balance < two64
      → ((e' : ℕ) → found ≡ some e' → Settles e' d)
      → last_balance c ends found ≡ some e
      → (d' : ValidatorDaySummary) × (find c (settle_each deposits withdrawals ends days) ≡ some d')
        × Settles e d'
        × (d'.start_balance ≡ d.start_balance)
  unfolding settle_each settle
  settle_each-found [] days d found e p here h inv q = (d, here, inv e q, refl)
  settle_each-found (b ∷ bs) days d found e (p, ps) here h inv q =
      elim (Bool-cases (b.index == c)) [
        | inr a ↦
            settle_each-found bs
              (update b.index (settle (lookup b.index deposits) (lookup b.index withdrawals) b)
                days)
              d found e ps
              (find-update-other c b.index
                  (settle (lookup b.index deposits) (lookup b.index withdrawals) b) days a
                ∙ here)
              h inv (rw a at q)
        | inl a ↦
            let same : b.index ≡ c = ground arith in
            let f = settle (lookup b.index deposits) (lookup b.index withdrawals) b in
            let there : find c (update b.index f days) ≡ some (f d) =
              ap (λ i. find c (update i f days)) same ∙ find-update-same c f days d here in
            settle_each-found bs (update b.index f days) (f d) (some b.balance) e ps there h
              (λ e' q'.
                subst (λ x. Settles x (f d)) (some-inj q')
                  (settle-Settles (lookup b.index deposits) (lookup b.index withdrawals) b d
                    (or_zero-lookup b.index deposits small)
                    (or_zero-lookup b.index withdrawals small') p h))
              (rw a at q)
      ]

  -- Where balances and totals are uint64 values, a validator that has a summary, and a balance at the
  -- end of the day, keeps its summary, with the start balance that it had; and the start balance, the
  -- rewards and the change of its capital come to the balance at the end, in 64-bit arithmetic,
  -- whatever was deposited and withdrawn.
  pub settle_each-Settles :
      (ends : List ValidatorBalance) (days : Days) (d : ValidatorDaySummary) (e : ℕ)
      → AllSmallBalances ends
      → find c days ≡ some d
      → d.start_balance < two64
      → last_balance c ends none ≡ some e
      → (d' : ValidatorDaySummary) × (find c (settle_each deposits withdrawals ends days) ≡ some d')
        × Settles e d'
        × (d'.start_balance ≡ d.start_balance)
  settle_each-Settles ends days d e p here h q =
      settle_each-found ends days d none e p here h (λ e' no. ground arith) q
