-- ===== src/Summarizer/Day.antt =====
-- services/summarizer/standard/validatorday.go: the balances of a validator over a day.
-- Balances are uint64 values; a change is an int64, by its bit pattern.
pub mod Balance
use chaind.Common.{
  ℕ, ◌+◌, Bool, true, false, Option, none, some, List, [], ◌∷◌, if◌then◌else◌, ◌==◌, add64, sub64,
  M, pure, fail, crash, ok, ◌>>=◌, ◌>>◌,
}
use chaind.Store.{Failure, database}
use chaind.ChainTime
use chaind.ChainTime.{timestamp_to_epoch, timestamp_to_slot}
use chaind.Common.{ℤ}

pub record ValidatorBalance : Type 0 where
  pub index : ℕ
  pub balance : ℕ
  pub effective_balance : ℕ

pub record Deposit : Type 0 where
  pub validator_pub_key : ℕ
  pub amount : ℕ

pub record Withdrawal : Type 0 where
  pub validator_index : ℕ
  pub amount : ℕ

-- The columns that this part does not change are one value.
pub record ValidatorDaySummary : Type 0 where
  pub start_balance : ℕ
  pub start_effective_balance : ℕ
  pub capital_change : ℕ
  pub reward_change : ℕ
  pub withdrawals : ℕ
  pub effective_balance_change : ℕ
  pub rest : ℕ

-- A map from validators, by its pairs.
abbrev pub Days : Type 0
Days = List (ℕ × ValidatorDaySummary)

-- The summary of a validator, where it has one.
pub update : ℕ → (ValidatorDaySummary → ValidatorDaySummary) → Days → Days
update index f [] = []
update index f (p ∷ ps) =
    let rest = update index f ps in if p.0 == index then (p.0, f p.1) ∷ ps else p ∷ rest

pub start : ValidatorBalance → ValidatorDaySummary → ValidatorDaySummary
start b d = record d { start_balance = b.balance; start_effective_balance = b.effective_balance }

start_each : List ValidatorBalance → Days → Days
unfolding update start
start_each [] days = days
start_each (b ∷ bs) days = start_each bs (update b.index (start b) days)

-- `totals[index] += amount`
pub add_total : ℕ → ℕ → List (ℕ × ℕ) → List (ℕ × ℕ)
add_total index amount [] = (index, add64 0 amount) ∷ []
add_total index amount (p ∷ ps) =
    let rest = add_total index amount ps in
    if p.0 == index then (p.0, add64 p.1 amount) ∷ ps else p ∷ rest

pub lookup : ℕ → List (ℕ × ℕ) → Option ℕ
lookup index [] = none
lookup index (p ∷ ps) = let rest = lookup index ps in if p.0 == index then some p.1 else rest

-- Rewards, less the deposits and with the withdrawals, where there are any.
less : ℕ → Option ℕ → ℕ
less rewards none = rewards
less rewards (some deposits) = sub64 rewards deposits

plus : ℕ → Option ℕ → ℕ
plus rewards none = rewards
plus rewards (some withdrawals) = add64 rewards withdrawals

or_zero : Option ℕ → ℕ
or_zero none = 0
or_zero (some n) = n

pub settle : Option ℕ → Option ℕ → ValidatorBalance → ValidatorDaySummary → ValidatorDaySummary
unfolding less plus or_zero
settle deposits withdrawals b d = record d {
  withdrawals = or_zero withdrawals;
  capital_change = sub64 (or_zero deposits) (or_zero withdrawals);
  reward_change = plus (less (sub64 b.balance d.start_balance) deposits) withdrawals;
  effective_balance_change = sub64 b.effective_balance d.start_effective_balance;
}

pub settle_each : List (ℕ × ℕ) → List (ℕ × ℕ) → List ValidatorBalance → Days → Days
unfolding update settle lookup
settle_each deposits withdrawals [] days = days
settle_each deposits withdrawals (b ∷ bs) days =
    settle_each deposits withdrawals bs
      (update b.index (settle (lookup b.index deposits) (lookup b.index withdrawals) b) days)

total_withdrawals : List Withdrawal → List (ℕ × ℕ) → List (ℕ × ℕ)
unfolding add_total
total_withdrawals [] totals = totals
total_withdrawals (w ∷ ws) totals =
    total_withdrawals ws (add_total w.validator_index w.amount totals)

-- The answers to the queries, where `none` is an error; the range of the withdrawals, of canonical
-- blocks, has both of its ends. A public key may have no validator.
pub record Env : Type 0 where
  pub chain_time : ChainTime.Service
  pub validator_balances_by_epoch : ℕ → Option (List ValidatorBalance)
  pub deposits_for_slot_range : ℕ → ℕ → Option (List Deposit)
  pub validator_by_public_key : ℕ → Option (Option ℕ)
  pub withdrawals : ℕ → ℕ → Option (List Withdrawal)

abbrev pub Balances : Type 0 → Type 0
Balances A = M Days Failure A

abbrev pub get : {A : Type 0} → Option A → Balances A
get none = fail database
get (some a) = pure a

-- A conversion of an instant, or the panic of its division by 0.
abbrev pub at : {A : Type 0} → Option ℕ → (ℕ → Balances A) → Balances A
at none f = crash
at (some n) f = f n

add_deposit : ℕ → Option ℕ → List (ℕ × ℕ) → List (ℕ × ℕ)
unfolding add_total
add_deposit amount none totals = totals
add_deposit amount (some index) totals = add_total index amount totals

abbrev is_nil : {A : Type 0} → List A → Bool
is_nil [] = true
is_nil (a ∷ as') = false

module _ (seconds : ℕ → ℕ) (env : Env) where
  total_deposits : List Deposit → List (ℕ × ℕ) → Balances (List (ℕ × ℕ))
  unfolding add_deposit
  total_deposits [] totals = pure totals
  total_deposits (d ∷ ds) totals =
      get (env.validator_by_public_key d.validator_pub_key) >>= λ index.
      total_deposits ds (add_deposit d.amount index totals)

  -- The part for the end of the day, with the totals of the day.
  settle_day : ℕ → List (ℕ × ℕ) → List (ℕ × ℕ) → Balances Bool
  unfolding settle_each
  settle_day epoch deposits withdrawals = do
    ends ← get (env.validator_balances_by_epoch epoch)
    if is_nil ends then pure false else λ days.
        (ok true, settle_each deposits withdrawals ends days)

  -- Whether the balances were there.
  unfoldable pub add_validator_balance_summaries : ℤ → ℤ → Balances Bool
  unfolding start_each total_deposits total_withdrawals settle_day
  add_validator_balance_summaries start_time end_time =
      at (timestamp_to_epoch seconds env.chain_time start_time) λ start_epoch.
        at (timestamp_to_epoch seconds env.chain_time end_time) λ next_epoch.
          get (env.validator_balances_by_epoch start_epoch) >>= λ starts.
          if is_nil starts
          then pure false
          else ((λ days. (ok tt, start_each starts days))
              >> (at (timestamp_to_slot seconds env.chain_time start_time) λ start_slot.
                  at (timestamp_to_slot seconds env.chain_time end_time) λ next_slot. do
                    let end_slot = sub64 next_slot 1
                    deposits ← get (env.deposits_for_slot_range start_slot (add64 end_slot 1))
                    deposits' ← total_deposits deposits []
                    withdrawals ← get (env.withdrawals start_slot end_slot)
                    settle_day (add64 (sub64 next_epoch 1) 1) deposits'
                        (total_withdrawals withdrawals [])))
