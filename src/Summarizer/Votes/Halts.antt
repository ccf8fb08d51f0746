-- ===== src/Summarizer/Votes/Halts.antt =====
-- services/summarizer/standard/epoch.go: the numbers that attestations give come to an end.
use chaind.Common.{
  ℕ, Bool, true, false, not, Option, none, some, List, [], ◌∷◌, if◌then◌else◌, get_elem?, add64,
}
use chaind.ChainDb.{is_canonical}
use chaind.Summarizer.{ValidatorBalance, Attestation, Env, Stats}
use chaind.Summarizer.Halts.{Halts, resume-Ended, get-Ended}
use chaind.Summarizer.Votes.{
  Voters, no_voters, balance_at, vote, vote_each, count_votes, member, in_slots,
  distinct_attestations, attestation_stats_for_epoch,
}

balance_at-Halts :
    (o : Option ValidatorBalance) (f : ℕ → Stats Voters)
    → ((b : ℕ) → Halts (f b))
    → Halts (balance_at o f)
unfolding balance_at
balance_at-Halts none f k s = tt
balance_at-Halts (some b) f k s = k b.effective_balance s

vote_each-Halts :
    (balances : List ValidatorBalance) (a : Attestation) (indices : List ℕ) (voters : Voters)
    → Halts (vote_each balances a indices voters)
unfolding vote_each
vote_each-Halts balances a [] voters s = tt
vote_each-Halts balances a (i ∷ indices) voters s =
    balance_at-Halts (get_elem? balances i) (λ b. vote_each balances a indices (vote a i b voters))
      (λ b. vote_each-Halts balances a indices (vote a i b voters)) s

count_votes-Halts :
    (balances : List ValidatorBalance) (as' : List Attestation) (voters : Voters)
    → Halts (count_votes balances as' voters)
unfolding count_votes
count_votes-Halts balances [] voters s = tt
count_votes-Halts balances (a ∷ as') voters s =
    resume-Ended (count_votes balances as') (vote_each balances a a.aggregation_indices voters s)
      (vote_each-Halts balances a a.aggregation_indices voters s) (count_votes-Halts balances as')

if-Halts : {A : Type 0} (b : Bool) (m n : Stats A) → Halts m → Halts n → Halts (if b then m else n)
if-Halts true m n p q = p
if-Halts false m n p q = q

module _ (env : Env) where
  distinct_attestations-Halts :
      (min_slot max_slot : ℕ) (seen : List ℕ) (as' : List Attestation)
      → Halts (distinct_attestations env min_slot max_slot seen as')
  unfolding distinct_attestations
  distinct_attestations-Halts min_slot max_slot seen [] s = tt
  distinct_attestations-Halts min_slot max_slot seen (a ∷ as') s =
      let skip = distinct_attestations-Halts min_slot max_slot seen as' in
      let keep = λ (root : ℕ). distinct_attestations-Halts min_slot max_slot (root ∷ seen) as' in
      if-Halts (not (is_canonical a.canonical)) _ _ skip
        (λ s. get-Ended (env.hash_tree_root a) _ s λ root.
          if-Halts (member root seen) _ _ (λ s. skip _)
            (if-Halts (in_slots min_slot max_slot a.slot) _ _
              (λ s.
                resume-Ended _ (distinct_attestations env min_slot max_slot (root ∷ seen) as' _)
                  (keep root _) (λ rest s. tt))
              (keep root)))
        s

  pub attestation_stats_for_epoch-Halts :
      (min_slot max_slot : ℕ) (balances : List ValidatorBalance)
      → Halts (attestation_stats_for_epoch env min_slot max_slot balances)
  unfolding attestation_stats_for_epoch
  attestation_stats_for_epoch-Halts min_slot max_slot balances s =
      get-Ended (env.attestations_for_slot_range min_slot (add64 max_slot 1)) _ s λ attestations s.
        resume-Ended _ (distinct_attestations env min_slot max_slot [] attestations s)
          (distinct_attestations-Halts min_slot max_slot [] attestations s)
          λ distinct s.
            get-Ended (env.attestations_in_slot_range min_slot (add64 max_slot 1)) _ s λ in_epoch s.
              resume-Ended _ (count_votes balances distinct no_voters _)
                (count_votes-Halts balances distinct no_voters _) λ voters s. tt
