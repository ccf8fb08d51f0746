-- ===== src/Summarizer/Intersection/Common.antt =====
-- services/summarizer/standard/epoch.go: which validators intersection gives.
use chaind.Common.{
  ℕ, ◌≤◌, ◌<◌, ◌≡◌, refl, ◌∙◌, Bool, true, false, ◌&&◌, ◌||◌, Bool-cases, inl, inr, List, [], ◌∷◌,
  ltb, leb, ◌==◌, arith,
}
use chaind.Summarizer.Intersection.{insert, sort, merge, intersection}

abbrev pub contains : ℕ → List ℕ → Bool
contains a [] = false
contains a (b ∷ bs) = b == a || contains a bs

-- No item is below the number.
abbrev pub Above : ℕ → List ℕ → Type 0
Above a [] = Unit
Above a (b ∷ bs) = (a ≤ b) × Above a bs

abbrev pub IsSorted : List ℕ → Type 0
IsSorted [] = Unit
IsSorted (a ∷ as') = Above a as' × IsSorted as'

or_left_comm : (a b c : Bool) → (a || (b || c)) ≡ (b || (a || c))
or_left_comm true true c = refl
or_left_comm true false c = refl
or_left_comm false b c = refl

and_false : (a : Bool) → false ≡ (a && false)
and_false true = refl
and_false false = refl

-- What the head of one list adds, where the other list does not have it.
and-skip_left : (e a b : Bool) → (e ≡ true → b ≡ false) → (a && b) ≡ ((e || a) && b)
and-skip_left true true b h = rw (h refl) refl
and-skip_left true false b h = rw (h refl) refl
and-skip_left false a b h = refl

and-skip_right : (e a b : Bool) → (e ≡ true → a ≡ false) → (a && b) ≡ (a && (e || b))
and-skip_right true a b h = rw (h refl) refl
and-skip_right false a b h = refl

or_and : (e a b : Bool) → (e || (a && b)) ≡ ((e || a) && (e || b))
or_and true a b = refl
or_and false a b = refl

Above-weaken : (a b : ℕ) (s : List ℕ) → a ≤ b → Above b s → Above a s
Above-weaken a b [] h p = tt
Above-weaken a b (c ∷ s) h (p, ps) = (omega arith, Above-weaken a b s h ps)

contains-Above : (a b : ℕ) (s : List ℕ) → a < b → Above b s → contains a s ≡ false
contains-Above a b [] h p = refl
contains-Above a b (c ∷ s) h (p, ps) =
    let other : (c == a) ≡ false = ground arith in rw (other, contains-Above a b s h ps) refl

Above-insert : (c a : ℕ) (s : List ℕ) → c ≤ a → Above c s → Above c (insert a s)
unfolding insert
Above-insert c a [] h p = (h, tt)
Above-insert c a (b ∷ bs) h (p, ps) = elim (Bool-cases (leb a b)) [
  | inl q ↦ rw q (h, (p, ps))
  | inr q ↦ rw q (p, Above-insert c a bs h ps)
]

insert-IsSorted : (a : ℕ) (s : List ℕ) → IsSorted s → IsSorted (insert a s)
unfolding insert
insert-IsSorted a [] p = (tt, tt)
insert-IsSorted a (b ∷ bs) (p, ps) = elim (Bool-cases (leb a b)) [
  | inl q ↦ rw q ((ground arith, Above-weaken a b bs (ground arith) p), (p, ps))
  | inr q ↦ rw q (Above-insert b a bs (ground arith) p, insert-IsSorted a bs ps)
]

sort-IsSorted : (s : List ℕ) → IsSorted (sort s)
unfolding sort
sort-IsSorted [] = tt
sort-IsSorted (a ∷ s) = insert-IsSorted a (sort s) (sort-IsSorted s)

contains-insert : (c a : ℕ) (s : List ℕ) → contains c (insert a s) ≡ (a == c || contains c s)
unfolding insert
contains-insert c a [] = refl
contains-insert c a (b ∷ bs) = elim (Bool-cases (leb a b)) [
  | inl q ↦ rw q refl
  | inr q ↦ rw (q, contains-insert c a bs) (or_left_comm (b == c) (a == c) (contains c bs))
]

contains-sort : (c : ℕ) (s : List ℕ) → contains c (sort s) ≡ contains c s
unfolding sort
contains-sort c [] = refl
contains-sort c (a ∷ s) = contains-insert c a (sort s) ∙ rw (contains-sort c s) refl

contains-merge :
    (c : ℕ) (xs ys : List ℕ)
    → IsSorted xs
    → IsSorted ys
    → contains c (merge xs ys) ≡ (contains c xs && contains c ys)
unfolding merge
contains-merge c [] ys p q = refl
contains-merge c (x ∷ xs) [] p q = and_false (contains c (x ∷ xs))
contains-merge c (x ∷ xs) (y ∷ ys) (p, ps) (q, qs) = elim (Bool-cases (ltb x y)) [
  | inl a ↦ rw a (
      contains-merge c xs (y ∷ ys) ps (q, qs)
      ∙ and-skip_left (x == c) (contains c xs) (contains c (y ∷ ys))
          (λ e. contains-Above c y (y ∷ ys) (ground arith) (omega arith, q)))
  | inr a ↦ elim (Bool-cases (ltb y x)) [
    | inl b ↦
        rw (a, b)
          (contains-merge c (x ∷ xs) ys (p, ps) qs
            ∙ and-skip_right (y == c) (contains c (x ∷ xs)) (contains c ys)
                (λ e. contains-Above c x (x ∷ xs) (ground arith) (omega arith, p)))
    | inr b ↦
        let same : y ≡ x = ground arith in
        rw (a, b, contains-merge c xs ys ps qs, same)
          (or_and (x == c) (contains c xs) (contains c ys))
  ]
]

-- The validators that intersection gives are those that are in both lists, whatever their order.
pub contains-intersection :
    (c : ℕ) (set1 set2 : List ℕ)
    → contains c (intersection set1 set2) ≡ (contains c set1 && contains c set2)
unfolding intersection
contains-intersection c set1 set2 =
    contains-merge c (sort set1) (sort set2) (sort-IsSorted set1) (sort-IsSorted set2)
    ∙ rw (contains-sort c set1, contains-sort c set2) refl
