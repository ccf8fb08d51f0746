-- ===== src/Blocks/Operations/Blobs.antt =====
-- Blobs without the zeros at their end, as services/chaindb/postgresql/setblobsidecar.go stores them.
use chaind.Common.{
  ℕ, suc, ◌≡◌, refl, ap, ◌++◌, List, [], ◌∷◌, replicate, inl, inr, Option, none, some, some-inj,
  Bool-cases, arith, if◌then◌else◌, ◌==◌,
}
use chaind.Blocks.Operations.{ends_at_zero, trim_right}

trimmed-pad :
    (b : ℕ) (bs trimmed : List ℕ) (k : ℕ)
    → trimmed ++ replicate k 0 ≡ bs
    → (n : ℕ) × ((if ends_at_zero b trimmed then [] else b ∷ trimmed) ++ replicate n 0 ≡ b ∷ bs)
unfolding ends_at_zero
trimmed-pad b bs [] k e = elim (Bool-cases (b == 0)) [
  | inl z ↦ let zero_b : b ≡ 0 = ground arith in (suc k, rw (z, zero_b) (ap (λ l. 0 ∷ l) e))
  | inr z ↦ (k, rw z (ap (λ l. b ∷ l) e))
]
trimmed-pad b bs (c ∷ cs) k e = (k, ap (λ l. b ∷ l) e)

abbrev pub last : List ℕ → Option ℕ
last [] = none
last (b ∷ []) = some b
last (b ∷ c ∷ cs) = last (c ∷ cs)

trim_right-pad : (blob : List ℕ) → (n : ℕ) × (trim_right blob ++ replicate n 0 ≡ blob)
unfolding trim_right
trim_right-pad [] = (0, refl)
trim_right-pad (b ∷ bs) = let (k, e) = trim_right-pad bs in trimmed-pad b bs (trim_right bs) k e

last-trimmed :
    (b : ℕ) (trimmed : List ℕ)
    → ¬ (last trimmed ≡ some 0)
    → ¬ (last (if ends_at_zero b trimmed then [] else b ∷ trimmed) ≡ some 0)
unfolding ends_at_zero
last-trimmed b [] h e = elim (Bool-cases (b == 0)) [
  | inl z ↦ let k : none ≡ some 0 = rw z at e in ground arith
  | inr z ↦ let k : some b ≡ some 0 = rw z at e in let q : b ≡ 0 = some-inj k in ground arith
]
last-trimmed b (c ∷ cs) h e = h e

last-trim_right : (blob : List ℕ) → ¬ (last (trim_right blob) ≡ some 0)
unfolding trim_right
last-trim_right [] e = ground arith
last-trim_right (b ∷ bs) e = last-trimmed b (trim_right bs) (last-trim_right bs) e

-- A blob is what is stored of it followed by zeros, and what is stored does not end in a zero.
pub trim_right-shortest :
    (blob : List ℕ)
    → ((n : ℕ) × (trim_right blob ++ replicate n 0 ≡ blob)) × ¬ (last (trim_right blob) ≡ some 0)
trim_right-shortest blob = (trim_right-pad blob, last-trim_right blob)
