-- ===== src/Validators.antt =====
-- services/validators/standard (handler.go, service.go, metadata.go), and the writes of
-- services/chaindb/postgresql/validators.go. Keys and withdrawal credentials are numbers.
pub mod Handler
pub mod Agree
use chaind.Common.{
  ℕ, zero, suc, ◌+◌, ◌-◌, Bool, true, false, ◌&&◌, ◌||◌, not, Option, none, some, List, [], ◌∷◌,
  map, if◌then◌else◌, ◌==◌, ltb, ok, pure, fail, crash, ◌>>=◌, ◌>>◌, add64,
}
use chaind.Store.{
  World, Act, client, cancel_tx, or_cancel, hold, ignored, or_exit, query, begin_tx, commit_tx,
  get_metadata, set_metadata, set_each,
}
use chaind.Store.Inserts.{upsert, insert_all, or_else, copy_from}
use chaind.ChainTime
use chaind.ChainTime.{slot_to_epoch, first_slot_of_epoch}

-- A validator of the consensus client.
pub record ChainValidator : Type 0 where
  pub public_key : ℕ
  pub withdrawal_credentials : ℕ
  pub effective_balance : ℕ
  pub slashed : Bool
  pub activation_eligibility_epoch : ℕ
  pub activation_epoch : ℕ
  pub exit_epoch : ℕ
  pub withdrawable_epoch : ℕ

-- The client answers with a map from indices; here are its entries, in the order of the loop over it.
pub record Entry : Type 0 where
  pub index : ℕ
  pub balance : ℕ
  pub validator : ChainValidator

pub record Validator : Type 0 where
  pub public_key : ℕ
  pub index : ℕ
  pub effective_balance : ℕ
  pub slashed : Bool
  pub activation_eligibility_epoch : ℕ
  pub activation_epoch : ℕ
  pub exit_epoch : ℕ
  pub withdrawable_epoch : ℕ
  pub withdrawal_credentials : ℕ

pub record ValidatorBalance : Type 0 where
  pub index : ℕ
  pub epoch : ℕ
  pub balance : ℕ
  pub effective_balance : ℕ

pub record Rows : Type 0 where
  pub validators : List Validator
  pub balances : List ValidatorBalance

pub record Metadata : Type 0 where
  pub latest_epoch : ℕ
  pub latest_balances_epoch : ℕ
  pub missed_epochs : List ℕ

abbrev pub no_metadata : Metadata
no_metadata = record { latest_epoch = 0; latest_balances_epoch = 0; missed_epochs = [] }

-- What the service uses: the calls of the database that fail, the chain's parameters, whether it
-- keeps balances, and the client's answers for the head and for the state at a slot.
pub record Env : Type 0 where
  pub fault : ℕ → Bool
  pub chain_time : ChainTime.Service
  pub balances : Bool
  pub head : Option (List Entry)
  pub validators_at : ℕ → Option (List Entry)

unfoldable pub find : ℕ → List Validator → Option Validator
find index [] = none
find index (v ∷ vs) = let other = find index vs in if v.index == index then some v else other

abbrev pub db_validator : Entry → Validator
db_validator e = record {
  public_key = e.validator.public_key;
  index = e.index;
  effective_balance = e.validator.effective_balance;
  slashed = e.validator.slashed;
  activation_eligibility_epoch = e.validator.activation_eligibility_epoch;
  activation_epoch = e.validator.activation_epoch;
  exit_epoch = e.validator.exit_epoch;
  withdrawable_epoch = e.validator.withdrawable_epoch;
  withdrawal_credentials = e.validator.withdrawal_credentials;
}

abbrev pub eq_bool : Bool → Bool → Bool
eq_bool true b = b
eq_bool false b = not b

abbrev pub differs : Validator → ChainValidator → Bool
differs d v =
    not (d.public_key == v.public_key)
    || not (d.effective_balance == v.effective_balance)
    || not (eq_bool d.slashed v.slashed)
    || not (d.activation_eligibility_epoch == v.activation_eligibility_epoch)
    || not (d.activation_epoch == v.activation_epoch)
    || not (d.exit_epoch == v.exit_epoch)
    || not (d.withdrawable_epoch == v.withdrawable_epoch)
    || not (d.withdrawal_credentials == v.withdrawal_credentials)

abbrev pub differs_from : Option Validator → ChainValidator → Bool
differs_from none v = true
differs_from (some d) v = differs d v

unfoldable pub needs_update : List Validator → Entry → Bool
needs_update dbs e = differs_from (find e.index dbs) e.validator

-- The rows for the entries that need an update, against the rows that were read.
unfoldable pub outdated : List Validator → List Entry → List Validator
outdated dbs [] = []
outdated dbs (e ∷ es) =
    let others = outdated dbs es in if needs_update dbs e then db_validator e ∷ others else others

abbrev pub put_validator : Validator → Rows → Rows
put_validator v rows = record rows {
  validators = upsert (λ x y. x.index == y.index) v rows.validators;
}

abbrev pub same_balance : ValidatorBalance → ValidatorBalance → Bool
same_balance x y = x.index == y.index && x.epoch == y.epoch

-- Whether a validator is in the table: f_validator_index REFERENCES t_validators(f_index).
unfoldable pub is_known : ℕ → List Validator → Bool
is_known index [] = false
is_known index (v ∷ vs) = v.index == index || is_known index vs

abbrev pub all_known : List ValidatorBalance → List Validator → Bool
all_known [] vs = true
all_known (b ∷ bs) vs = is_known b.index vs && all_known bs vs

abbrev pub upsert_balance : ValidatorBalance → Rows → Rows
upsert_balance b rows = record rows { balances = upsert same_balance b rows.balances }

-- INSERT … ON CONFLICT … DO UPDATE, which fails for a validator that is not in its table.
abbrev pub put_balance : ValidatorBalance → Rows → Option Rows
put_balance b rows = if is_known b.index rows.validators then some (upsert_balance b rows) else none

-- The copy fails for such a validator, and where a key is there.
abbrev pub insert_balances : List ValidatorBalance → Rows → Option Rows
insert_balances bs rows =
    if all_known bs rows.validators
    then (elim (insert_all same_balance bs rows.balances) [
      | none ↦ none
      | some xs ↦ some (record rows { balances = xs })
    ])
    else none

abbrev pub balance_row : ℕ → Entry → ValidatorBalance
balance_row epoch e = record {
  index = e.index;
  epoch = epoch;
  balance = e.balance;
  effective_balance = e.validator.effective_balance;
}
