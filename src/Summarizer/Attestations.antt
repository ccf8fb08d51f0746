-- ===== src/Summarizer/Attestations.antt =====
-- services/summarizer/standard/validatorepoch.go: what attestationsForEpoch finds for each validator.
-- Its maps are one map of entries here: a validator that is in none of the attestations has none.
pub mod Shortest
use chaind.Common.{
  ℕ, Bool, true, false, not, ◌&&◌, ◌||◌, Option, none, some, List, [], ◌∷◌, if◌then◌else◌, ltb, leb,
  ◌==◌, sub64,
}
use chaind.ChainDb.{is_canonical}

pub record Attestation : Type 0 where
  pub slot : ℕ
  pub inclusion_slot : ℕ
  pub aggregation_indices : List ℕ
  pub canonical : Option Bool
  pub target_correct : Option Bool
  pub head_correct : Option Bool

-- The delays up to which a vote is timely.
pub record Delays : Type 0 where
  pub max_source : ℕ
  pub max_target : ℕ
  pub max_head : ℕ

pub record Entry : Type 0 where
  pub target_correct : Bool
  pub head_correct : Bool
  pub inclusion_delay : ℕ
  pub source_timely : Bool
  pub target_timely : Bool
  pub head_timely : Bool

abbrev pub Entries : Type 0
Entries = List (ℕ × Entry)

unfoldable pub delay_of : Attestation → ℕ
delay_of a = sub64 a.inclusion_slot a.slot

-- The entry of a validator after one more attestation, whose votes are for the right target and head
-- as the two tests say.
pub mark : Delays → Attestation → Bool → Bool → Option Entry → Entry
mark delays a target head none = record {
  target_correct = target;
  head_correct = head;
  inclusion_delay = delay_of a;
  source_timely = leb (delay_of a) delays.max_source;
  target_timely = target && leb (delay_of a) delays.max_target;
  head_timely = head && leb (delay_of a) delays.max_head;
}
mark delays a target head (some e) =
    let marked = record e {
      target_correct = target || e.target_correct;
      head_correct = head || e.head_correct;
    } in
    if ltb (delay_of a) e.inclusion_delay
    then record marked {
      inclusion_delay = delay_of a;
      source_timely = leb (delay_of a) delays.max_source;
      target_timely = target && leb (delay_of a) delays.max_target;
      head_timely = head && leb (delay_of a) delays.max_head;
    }
    else marked

pub modify : ℕ → (Option Entry → Entry) → Entries → Entries
modify index f [] = (index, f none) ∷ []
modify index f (p ∷ ps) =
    let rest = modify index f ps in if p.0 == index then (p.0, f (some p.1)) ∷ ps else p ∷ rest

-- `none` is the panic at a pointer that is nil.
vote_with : Option Bool → Option Bool → (Bool → Bool → Option Entries) → Option Entries
vote_with none head f = none
vote_with (some target) none f = none
vote_with (some target) (some head) f = f target head

pub vote_indices : Delays → Attestation → List ℕ → Entries → Option Entries
unfolding mark modify vote_with
vote_indices delays a [] entries = some entries
vote_indices delays a (index ∷ indices) entries =
    vote_with a.target_correct a.head_correct λ target head.
      vote_indices delays a indices (modify index (mark delays a target head) entries)

-- The rest of the loop.
and_then : Option Entries → (Entries → Option Entries) → Option Entries
and_then none f = none
and_then (some entries) f = f entries

pub attestations_for_epoch : Delays → List Attestation → Entries → Option Entries
unfolding vote_indices and_then
attestations_for_epoch delays [] entries = some entries
attestations_for_epoch delays (a ∷ as') entries =
    let skip = attestations_for_epoch delays as' entries in
    if not (is_canonical a.canonical)
    then skip
    else and_then (vote_indices delays a a.aggregation_indices entries)
        (attestations_for_epoch delays as')
