-- ===== src/Examples/Registers.antt =====
-- The validators service, with a table in which one of two validators is out of date.
use chaind.Common.{refl, true, false, none, some, List, [], ◌∷◌, map, Post}
use chaind.Store.{World}
use chaind.Validators.{ChainValidator, Entry, Rows, Metadata, no_metadata, Env, db_validator}
use chaind.Validators.Handler.{on_epoch_transition_validators}
use chaind.Validators.Handler.Update.{
  AreUpdated, AreUntouched, on_epoch_transition_validators-AreUpdated,
}
use chaind.Examples.Clock.{mainnet}

abbrev active : ChainValidator
active = record {
  public_key = 1;
  withdrawal_credentials = 2;
  effective_balance = 32;
  slashed = false;
  activation_eligibility_epoch = 0;
  activation_epoch = 0;
  exit_epoch = 100;
  withdrawable_epoch = 200;
}

abbrev entries : List Entry
entries =
    record { index = 0; balance = 33; validator = active }
    ∷ record { index = 1; balance = 31; validator = record active { slashed = true } }
    ∷ []

abbrev env : Env
env = record {
  fault = λ n. false;
  chain_time = mainnet;
  balances = true;
  head = some entries;
  validators_at = λ slot. some entries;
}

abbrev before : World Rows Metadata
before = record {
  db = record {
    rows = record {
      validators =
          db_validator (record { index = 1; balance = 31; validator = active })
          ∷ db_validator (record { index = 0; balance = 33; validator = active })
          ∷ [];
      balances = [];
    };
    metadata = none;
  };
  saved = none;
  aborted = false;
  calls = 0;
  held = no_metadata;
}

on_epoch_transition_validators_example :
    Post
      (λ _ v. AreUpdated env 7 before v)
      (λ e v. AreUntouched env before v)
      (λ v. ⊥)
      (on_epoch_transition_validators env 7 before)
on_epoch_transition_validators_example = on_epoch_transition_validators-AreUpdated env 7 before refl

-- A balance of the epoch is in the table.
abbrev with_balance : World Rows Metadata
with_balance = record before {
  db = record {
    rows = record {
      validators = map db_validator entries;
      balances = record { index = 1; epoch = 0; balance = 5; effective_balance = 6 } ∷ [];
    };
    metadata = none;
  };
}
