-- ===== src/Summarizer/Votes.antt =====
-- services/summarizer/standard/epoch.go: the numbers of an epoch's summary that attestations give.
pub mod Halts
pub mod Counted
use chaind.Common.{
  ℕ, suc, ◌+◌, Bool, true, false, not, ◌&&◌, ◌||◌, Option, none, some, List, [], ◌∷◌, if◌then◌else◌,
  leb, ltb, ◌==◌, length, get_elem?, add64, M, pure, fail, crash, ok, ◌>>=◌, ◌>>◌,
}
use chaind.Store.{Failure, database, no_data, bad_data}
use chaind.ChainDb.{Block, is_canonical}
use chaind.ChainTime.{first_slot_of_epoch, last_slot_of_epoch}
use chaind.Summarizer.{
  Validator, ValidatorBalance, Attestation, ProposerSlashing, AttesterSlashing, EpochSummary, Env,
  Stats, get, change,
}
use chaind.Summarizer.Intersection.{intersection}

in_slots : ℕ → ℕ → ℕ → Bool
in_slots min_slot max_slot slot = leb min_slot slot && leb slot max_slot

member : ℕ → List ℕ → Bool
member a [] = false
member a (b ∷ bs) = b == a || member a bs

-- A map from validators to balances, by its pairs.
put : ℕ → ℕ → List (ℕ × ℕ) → List (ℕ × ℕ)
put index balance [] = (index, balance) ∷ []
put index balance (p ∷ ps) =
    let rest = put index balance ps in if p.0 == index then (index, balance) ∷ ps else p ∷ rest

-- The three maps: those that attest, and those whose target and head are correct.
pub record Voters : Type 0 where
  pub attesting : List (ℕ × ℕ)
  pub target_correct : List (ℕ × ℕ)
  pub head_correct : List (ℕ × ℕ)

vote : Attestation → ℕ → ℕ → Voters → Voters
unfolding put
vote a index balance voters = record {
  attesting = put index balance voters.attesting;
  target_correct =
      if is_canonical a.target_correct
      then put index balance voters.target_correct
      else voters.target_correct;
  head_correct =
      if is_canonical a.head_correct
      then put index balance voters.head_correct
      else voters.head_correct;
}

-- Go's index into the balances panics where it is out of range.
balance_at : Option ValidatorBalance → (ℕ → Stats Voters) → Stats Voters
balance_at none f = crash
balance_at (some b) f = f b.effective_balance

vote_each : List ValidatorBalance → Attestation → List ℕ → Voters → Stats Voters
unfolding vote balance_at
vote_each balances a [] voters = pure voters
vote_each balances a (index ∷ indices) voters =
    let next = λ (balance : ℕ). vote_each balances a indices (vote a index balance voters) in
    balance_at (get_elem? balances index) next

pub count_votes : List ValidatorBalance → List Attestation → Voters → Stats Voters
unfolding vote_each
count_votes balances [] voters = pure voters
count_votes balances (a ∷ as') voters =
    vote_each balances a a.aggregation_indices voters >>= λ v. count_votes balances as' v

total_balance : ℕ → List (ℕ × ℕ) → ℕ
total_balance total [] = total
total_balance total (p ∷ ps) = total_balance (add64 total p.1) ps

pub no_voters : Voters
no_voters = record { attesting = []; target_correct = []; head_correct = [] }

module _ (env : Env) where
  -- The canonical attestations, less those that are like an earlier one; `seen` are the roots of
  -- those.
  distinct_attestations : ℕ → ℕ → List ℕ → List Attestation → Stats (List Attestation)
  unfolding in_slots member
  distinct_attestations min_slot max_slot seen [] = pure []
  distinct_attestations min_slot max_slot seen (a ∷ as') =
      let skip = distinct_attestations min_slot max_slot seen as' in
      let keep = λ (root : ℕ). distinct_attestations min_slot max_slot (root ∷ seen) as' in
      if not (is_canonical a.canonical)
      then skip
      else (get (env.hash_tree_root a) >>= λ root.
          if member root seen
          then (change (λ summary.
                if in_slots min_slot max_slot a.slot
                then record summary {
                  duplicate_attestations_for_epoch = summary.duplicate_attestations_for_epoch + 1;
                }
                else summary)
              >> skip)
          else if in_slots min_slot max_slot a.slot
          then (change (λ summary. record summary {
            attestations_for_epoch = summary.attestations_for_epoch + 1;
          })
              >> keep root
              >>= λ rest. pure (a ∷ rest))
          else keep root)

  unfoldable pub attestation_stats_for_epoch : ℕ → ℕ → List ValidatorBalance → Stats (Unit {0})
  unfolding distinct_attestations count_votes total_balance no_voters
  attestation_stats_for_epoch min_slot max_slot balances = do
    attestations ← get (env.attestations_for_slot_range min_slot (add64 max_slot 1))
    epoch_attestations ← distinct_attestations min_slot max_slot [] attestations
    in_epoch ← get (env.attestations_in_slot_range min_slot (add64 max_slot 1))
    change λ summary. record summary { attestations_in_epoch = length in_epoch }
    voters ← count_votes balances epoch_attestations no_voters
    change λ summary. record summary {
      attesting_validators = summary.attesting_validators + length voters.attesting;
      attesting_balance = total_balance summary.attesting_balance voters.attesting;
      target_correct_validators = summary.target_correct_validators + length voters.target_correct;
      target_correct_balance = total_balance summary.target_correct_balance voters.target_correct;
      head_correct_validators = summary.head_correct_validators + length voters.head_correct;
      head_correct_balance = total_balance summary.head_correct_balance voters.head_correct;
    }
