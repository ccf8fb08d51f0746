-- ===== src/Summarizer/Halts.antt =====
-- services/summarizer/standard/epoch.go: methods that come to an end.
use chaind.Common.{Option, none, some, Outcome, ok, err, panicked, looping, resume}
use chaind.Store.{Failure}
use chaind.Summarizer.{EpochSummary, Stats, get}

abbrev pub Ended : {A : Type 0} → Outcome Failure A × EpochSummary → Type 0
Ended (ok a, s) = Unit
Ended (err e, s) = Unit
Ended (panicked, s) = Unit
Ended (looping, s) = ⊥

-- From any summary, the method ends.
abbrev pub Halts : {A : Type 0} → Stats A → Type 0
Halts m = (s : EpochSummary) → Ended (m s)

pub resume-Ended :
    {A B : Type 0} (f : A → Stats B) (r : Outcome Failure A × EpochSummary)
    → Ended r
    → ((a : A) → Halts (f a))
    → Ended (resume f r.0 r.1)
resume-Ended f (ok a, s) p k = k a s
resume-Ended f (err e, s) p k = tt
resume-Ended f (panicked, s) p k = tt
resume-Ended f (looping, s) p k = absurd p

-- A query, and what follows it.
pub get-Ended :
    {A B : Type 0} (o : Option A) (f : A → Stats B) (s : EpochSummary)
    → ((a : A) → Halts (f a))
    → Ended (resume f (get o s).0 (get o s).1)
get-Ended none f s k = tt
get-Ended (some a) f s k = k a s
