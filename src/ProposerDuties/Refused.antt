-- ===== src/ProposerDuties/Refused.antt =====
-- services/proposerduties/standard/service.go: the list of missed epochs.
use chaind.Common.{
  ℕ, suc, ◌+◌, ◌-◌, ◌≡◌, refl, ap, none, some, List, [], ◌∷◌, ◌++◌, length, length-append,
  get_elem?, take, drop, replicate, arith,
}
use chaind.Store.Transactions.{put_each}
use chaind.ProposerDuties.{ProposerDuty, Rows, Env, set_proposer_duty, without}

pub take-append : (xs ys : List ℕ) → take (length xs) (xs ++ ys) ≡ xs
take-append [] ys = refl
take-append (x ∷ xs) ys = ap (λ l. x ∷ l) (take-append xs ys)

pub drop-append : (xs : List ℕ) (y : ℕ) (ys : List ℕ) → drop (suc (length xs)) (xs ++ y ∷ ys) ≡ ys
drop-append [] y ys = refl
drop-append (x ∷ xs) y ys = drop-append xs y ys

pub get_elem?-append :
    (xs : List ℕ) (y : ℕ) (ys : List ℕ) → get_elem? (xs ++ y ∷ ys) (length xs) ≡ some y
get_elem?-append [] y ys = refl
get_elem?-append (x ∷ xs) y ys = get_elem?-append xs y ys

pub get_elem?-end : (xs : List ℕ) → get_elem? (xs ++ []) (length xs) ≡ none
get_elem?-end [] = refl
get_elem?-end (x ∷ xs) = get_elem?-end xs

-- Taking the epoch at a place out of the list, with as many failed ones before it.
pub without-middle :
    (failed : List ℕ) (epoch : ℕ) (later : List ℕ)
    → without (length failed) (length failed) (failed ++ epoch ∷ later) ≡ failed ++ later
unfolding without
without-middle failed epoch later =
    let behind : length failed + 1 ≡ suc (length failed) = omega arith in
    let rest : length (failed ++ epoch ∷ later) - 1 - length failed ≡ length later =
      omega (arith, length-append failed (epoch ∷ later)) in
    rw (
      behind,
      rest,
      take-append failed (epoch ∷ later),
      drop-append failed epoch later,
      take-append later (replicate (length later) 0),
    )

abbrev pub refused : Env → List ℕ → List ℕ
refused env [] = []
refused env (epoch ∷ epochs) =
    let rest = refused env epochs in elim (env.duties epoch) [ none ↦ epoch ∷ rest | some _ ↦ rest ]

-- The rows once the duties of all the epochs that the client answers for are set, in their order.
abbrev pub with_duties : Env → List ℕ → Rows → Rows
with_duties env [] rows = rows
with_duties env (epoch ∷ epochs) rows =
    with_duties env epochs (elim (env.duties epoch) [
      | none ↦ rows
      | some duties ↦ put_each set_proposer_duty duties rows
    ])

module _ (env : Env) (epoch : ℕ) (epochs : List ℕ) where
  pub refused-none :
      env.duties epoch ≡ none → refused env (epoch ∷ epochs) ≡ epoch ∷ refused env epochs
  refused-none q = rw (refused, q) refl

  pub refused-some :
      (ds : List ProposerDuty)
      → env.duties epoch ≡ some ds
      → refused env (epoch ∷ epochs) ≡ refused env epochs
  refused-some ds q = rw (refused, q) refl

  pub with_duties-none :
      (rows : Rows)
      → env.duties epoch ≡ none
      → with_duties env epochs rows ≡ with_duties env (epoch ∷ epochs) rows
  with_duties-none rows q = rw q refl

  pub with_duties-some :
      (ds : List ProposerDuty) (rows : Rows)
      → env.duties epoch ≡ some ds
      → with_duties env epochs (put_each set_proposer_duty ds rows)
        ≡ with_duties env (epoch ∷ epochs) rows
  with_duties-some ds rows q = rw q refl
