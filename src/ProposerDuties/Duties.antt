-- ===== src/ProposerDuties/Duties.antt =====
-- services/proposerduties/standard/service.go: which duty a slot has after handleMissed, apart from how
-- the rows are stored.
use chaind.Common.{
  ℕ, ◌≡◌, refl, sym, ap, ◌∙◌, Option, none, some, List, [], ◌∷◌, ◌++◌, if◌then◌else◌, ◌==◌, arith,
  Option-cases, inl, inr,
}
use chaind.Store.Transactions.{put_each}
use chaind.ProposerDuties.{ProposerDuty, Rows, Env, set_proposer_duty}
use chaind.ProposerDuties.Refused.{with_duties, with_duties-none, with_duties-some}

-- The duty of a slot.
abbrev pub duty_at : ℕ → Rows → Option ProposerDuty
duty_at slot [] = none
duty_at slot (d ∷ ds) = if d.slot == slot then some d else duty_at slot ds

-- The last duty of a list for a slot, or else a given one.
abbrev pub last_duty : ℕ → List ProposerDuty → Option ProposerDuty → Option ProposerDuty
last_duty slot [] o = o
last_duty slot (d ∷ ds) o = last_duty slot ds (if d.slot == slot then some d else o)

-- The duties of the epochs that the client answers for, in their order.
abbrev pub answered : Env → List ℕ → List ProposerDuty
answered env [] = []
answered env (epoch ∷ epochs) =
    let rest = answered env epochs in
    elim (env.duties epoch) [ none ↦ rest | some duties ↦ duties ++ rest ]

duty_at-set_proposer_duty :
    (slot : ℕ) (d : ProposerDuty) (rows : Rows)
    → duty_at slot (set_proposer_duty d rows)
      ≡ (if d.slot == slot then some d else duty_at slot rows)
unfolding set_proposer_duty
duty_at-set_proposer_duty slot d [] = refl
duty_at-set_proposer_duty slot d (e ∷ es) = ground (arith, duty_at-set_proposer_duty slot d es)

duty_at-put_each :
    (slot : ℕ) (ds : List ProposerDuty) (rows : Rows)
    → duty_at slot (put_each set_proposer_duty ds rows) ≡ last_duty slot ds (duty_at slot rows)
duty_at-put_each slot [] rows = refl
duty_at-put_each slot (d ∷ ds) rows =
    duty_at-put_each slot ds (set_proposer_duty d rows)
    ∙ ap (last_duty slot ds) (duty_at-set_proposer_duty slot d rows)

last_duty-append :
    (slot : ℕ) (xs ys : List ProposerDuty) (o : Option ProposerDuty)
    → last_duty slot (xs ++ ys) o ≡ last_duty slot ys (last_duty slot xs o)
last_duty-append slot [] ys o = refl
last_duty-append slot (x ∷ xs) ys o =
    last_duty-append slot xs ys (if x.slot == slot then some x else o)

answered-none :
    (env : Env) (epoch : ℕ) (epochs : List ℕ)
    → env.duties epoch ≡ none
    → answered env (epoch ∷ epochs) ≡ answered env epochs
answered-none env epoch epochs q = rw (answered, q) refl

answered-some :
    (env : Env) (epoch : ℕ) (epochs : List ℕ) (ds : List ProposerDuty)
    → env.duties epoch ≡ some ds
    → answered env (epoch ∷ epochs) ≡ ds ++ answered env epochs
answered-some env epoch epochs ds q = rw (answered, q) refl

pub duty_at-with_duties :
    (env : Env) (slot : ℕ) (epochs : List ℕ) (rows : Rows)
    → duty_at slot (with_duties env epochs rows)
      ≡ last_duty slot (answered env epochs) (duty_at slot rows)
duty_at-with_duties env slot [] rows = refl
duty_at-with_duties env slot (epoch ∷ epochs) rows = elim (Option-cases (env.duties epoch)) [
  | inl q ↦
      ap (duty_at slot) (sym (with_duties-none env epoch epochs rows q))
      ∙ duty_at-with_duties env slot epochs rows
      ∙ ap (λ l. last_duty slot l (duty_at slot rows)) (sym (answered-none env epoch epochs q))
  | inr (ds, q) ↦
      ap (duty_at slot) (sym (with_duties-some env epoch epochs ds rows q))
      ∙ duty_at-with_duties env slot epochs (put_each set_proposer_duty ds rows)
      ∙ ap (last_duty slot (answered env epochs)) (duty_at-put_each slot ds rows)
      ∙ sym (last_duty-append slot ds (answered env epochs) (duty_at slot rows))
      ∙ ap (λ l. last_duty slot l (duty_at slot rows)) (sym (answered-some env epoch epochs ds q))
]
