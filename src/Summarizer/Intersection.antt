-- ===== src/Summarizer/Intersection.antt =====
-- services/summarizer/standard/epoch.go: the validators that two attestations have in common.
pub mod Common
use chaind.Common.{ℕ, Bool, false, ◌||◌, List, [], ◌∷◌, if◌then◌else◌, ltb, leb, ◌==◌}

insert : ℕ → List ℕ → List ℕ
insert a [] = a ∷ []
insert a (b ∷ bs) = let rest = insert a bs in if leb a b then a ∷ b ∷ bs else b ∷ rest

-- sort.Slice by the numbers themselves.
unfoldable pub sort : List ℕ → List ℕ
unfolding insert
sort [] = []
sort (a ∷ as') = insert a (sort as')

-- The loop; the lists are what is left behind the two positions.
merge : List ℕ → List ℕ → List ℕ
merge [] ys = []
merge (x ∷ xs) [] = []
merge (x ∷ xs) (y ∷ ys) =
    let first = merge xs (y ∷ ys) in
    let second = merge (x ∷ xs) ys in
    let both = merge xs ys in if ltb x y then first else if ltb y x then second else x ∷ both

unfoldable pub intersection : List ℕ → List ℕ → List ℕ
unfolding merge
intersection set1 set2 = merge (sort set1) (sort set2)
