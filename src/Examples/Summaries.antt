-- ===== src/Examples/Summaries.antt =====
-- Calendar durations, and the summaries of a chain with two validators.
use chaind.Common.{
  ℕ, List, ◌≡◌, refl, inl, inr, ◌&&◌, true, false, none, some, [], ◌∷◌, ok, if◌then◌else◌, two64,
  arith,
}
use chaind.Store.{World}
use chaind.ChainDb.{is_canonical}
use chaind.CalendarDuration.{CalendarDuration, string, parse_calendar_duration, invalid}
use chaind.CalendarDuration.RoundTrip.{is_zero, parse_calendar_duration-string}
use chaind.Summarizer.{Metadata, Rows, Env, no_metadata, Attestation, ValidatorBalance}
use chaind.Summarizer.Intersection.{intersection}
use chaind.Summarizer.Intersection.Common.{contains, contains-intersection}
use chaind.Summarizer.Run.{empty_summary}
use chaind.Summarizer.Votes.{count_votes, no_voters, Voters}
use chaind.Summarizer.Votes.Counted.{has_key, votes, IsDistinct, count_votes-counted}
use chaind.Summarizer.Day
use chaind.Summarizer.Day.{Days, ValidatorDaySummary, settle_each}
use chaind.Summarizer.Day.Balance.{find, Settles, settle_each-Settles}
use chaind.Summarizer.Attestations
use chaind.Summarizer.Attestations.{Delays, Entries, attestations_for_epoch}
use chaind.Summarizer.Attestations.Shortest.{
  delay_in, entry_of, shortest, attestations_for_epoch-shortest,
}
use chaind.Examples.Clock.{mainnet}

abbrev duration : CalendarDuration
duration = record { seconds = 12; minutes = 5; hours = 0; days = 30; months = 0; years = 1 }

parse_calendar_duration_example :
    parse_calendar_duration (string duration)
    ≡ (if is_zero duration then inl invalid else inr duration)
parse_calendar_duration_example =
    parse_calendar_duration-string duration
      (omega arith, omega arith, omega arith, omega arith, omega arith, omega arith)

contains-intersection_example :
    contains 3 (intersection (5 ∷ 3 ∷ []) (7 ∷ 3 ∷ 1 ∷ []))
    ≡ (contains 3 (5 ∷ 3 ∷ []) && contains 3 (7 ∷ 3 ∷ 1 ∷ []))
contains-intersection_example = contains-intersection 3 (5 ∷ 3 ∷ []) (7 ∷ 3 ∷ 1 ∷ [])

abbrev attestation : Attestation
attestation = record {
  slot = 33;
  aggregation_indices = 0 ∷ 1 ∷ [];
  canonical = some true;
  target_correct = some true;
  head_correct = some false;
  content = 7;
}

abbrev summaries : Env
summaries = record {
  fault = λ n. false;
  chain_time = mainnet;
  far_future_epoch = two64;
  epoch_summaries = true;
  validator_epoch_retention = true;
  max_epochs_per_run = 225;
  hash_tree_root = λ a. some a.content;
  validators = some (
      record { activation_eligibility_epoch = 0; activation_epoch = 0; exit_epoch = two64 }
      ∷ record { activation_eligibility_epoch = 0; activation_epoch = 1; exit_epoch = two64 }
      ∷ []);
  validator_balances_by_epoch = λ epoch. some (
      record { balance = 33; effective_balance = 32 }
      ∷ record { balance = 31; effective_balance = 31 }
      ∷ []);
  blocks_for_slot_range = λ from to. some [];
  attestations_for_slot_range = λ from to. some (attestation ∷ attestation ∷ []);
  attestations_in_slot_range = λ from to. some (attestation ∷ []);
  proposer_duties_for_slot_range = λ from to. some (1 ∷ []);
  proposer_slashings_for_slot_range = λ from to. some [];
  proposer_slashings_for_validator = λ index. some [];
  attester_slashings_for_slot_range = λ from to. some [];
  attester_slashings_for_validator = λ index. some [];
  deposits_for_slot_range = λ from to. some [];
  withdrawals = λ from to. some (5 ∷ 6 ∷ []);
}

abbrev unsummarized : World Rows Metadata
unsummarized = record {
  db = record { rows = []; metadata = none };
  saved = none;
  aborted = false;
  calls = 0;
  held = no_metadata;
}

abbrev balances : List ValidatorBalance
balances =
    record { balance = 33; effective_balance = 32 }
    ∷ record { balance = 31; effective_balance = 31 }
    ∷ []

-- The same attestation, of another committee, with a wrong target.
abbrev wrong : Attestation
wrong = record attestation { aggregation_indices = 1 ∷ []; target_correct = some false }

count_votes_example :
    (v : Voters) × (count_votes balances (wrong ∷ attestation ∷ []) no_voters (empty_summary 1)
      ≡ (ok v, empty_summary 1))
    × ((c : ℕ) → has_key c v.attesting ≡ votes (λ _. true) c (wrong ∷ attestation ∷ []))
    × ((c : ℕ)
        → has_key c v.target_correct
          ≡ votes (λ a. is_canonical a.target_correct) c (wrong ∷ attestation ∷ []))
    × ((c : ℕ)
        → has_key c v.head_correct
          ≡ votes (λ a. is_canonical a.head_correct) c (wrong ∷ attestation ∷ []))
    × IsDistinct v.attesting
    × IsDistinct v.target_correct
    × IsDistinct v.head_correct
count_votes_example =
    count_votes-counted balances (empty_summary 1) (wrong ∷ attestation ∷ [])
      ((omega arith, tt), ((omega arith, (omega arith, tt)), tt))

-- A validator with a deposit of 32 and a withdrawal of 5, and one that lost 1.
abbrev day : Days
day =
    (
      4,
      record {
        start_balance = 40;
        start_effective_balance = 32;
        capital_change = 0;
        reward_change = 0;
        withdrawals = 0;
        effective_balance_change = 0;
        rest = 1;
      },
    )
    ∷ (
      7,
      record {
        start_balance = 33;
        start_effective_balance = 32;
        capital_change = 0;
        reward_change = 0;
        withdrawals = 0;
        effective_balance_change = 0;
        rest = 2;
      },
    )
    ∷ []

abbrev end_balances : List Day.ValidatorBalance
end_balances =
    record { index = 7; balance = 32; effective_balance = 32 }
    ∷ record { index = 4; balance = 70; effective_balance = 64 }
    ∷ []

settle_each_example :
    (d : ValidatorDaySummary) × (find 4 (settle_each ((4, 32) ∷ []) ((4, 5) ∷ []) end_balances day)
      ≡ some d)
    × Settles 70 d
    × (d.start_balance ≡ 40)
settle_each_example =
    settle_each-Settles ((4, 32) ∷ []) ((4, 5) ∷ []) (omega arith, tt) (omega arith, tt) 4
      end_balances day
      (record {
        start_balance = 40;
        start_effective_balance = 32;
        capital_change = 0;
        reward_change = 0;
        withdrawals = 0;
        effective_balance_change = 0;
        rest = 1;
      })
      70 (omega arith, (omega arith, tt)) refl (omega arith) refl

abbrev delays : Delays
delays = record { max_source = 5; max_target = 32; max_head = 1 }

abbrev late : Attestations.Attestation
late = record {
  slot = 33;
  inclusion_slot = 37;
  aggregation_indices = 3 ∷ 8 ∷ [];
  canonical = some true;
  target_correct = some true;
  head_correct = some false;
}

abbrev early : Attestations.Attestation
early = record late { inclusion_slot = 34; aggregation_indices = 8 ∷ [] }

attestations_for_epoch_example :
    (entries : Entries) × (attestations_for_epoch delays (late ∷ early ∷ []) [] ≡ some entries)
    × (delay_in (entry_of 8 entries) ≡ shortest 8 (late ∷ early ∷ []) none)
attestations_for_epoch_example =
    attestations_for_epoch-shortest delays 8 (late ∷ early ∷ [])
      ((λ _. (true, false, refl, refl)), ((λ _. (true, false, refl, refl)), tt))
