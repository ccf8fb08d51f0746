-- ===== src/Blocks/Votes/Known.antt =====
-- services/blocks/standard/handler.go: the map of beacon committees.
use chaind.Common.{
  refl, subst, ℕ, ◌≡◌, sym, ap, ◌∙◌, ◌⊎◌, inl, inr, ◌&&◌, Option, none, some, List, [], ◌∷◌,
  Bool-cases, some-inj, arith, ◌==◌, leb,
}
use chaind.ChainDb.Members.{IsIn}
use chaind.BeaconCommittees.{BeaconCommittee}
use chaind.Store.{Tables, query}
use chaind.Store.Inserts.{attempt}
use chaind.Store.Runs.{Runs, Runs-then, attempt-query-Runs}
use chaind.Blocks.{Metadata, Env}
use chaind.Blocks.Rows.{Rows}
use chaind.Blocks.Votes.{
  Committees, find_committee, within, put_committees, from_client, from_table, from_map,
}

pub find_committee-IsIn :
    (slot index : ℕ) (cs : Committees) (c : BeaconCommittee)
    → find_committee slot index cs ≡ some c
    → IsIn c cs × (c.slot ≡ slot) × (c.index ≡ index)
unfolding find_committee
find_committee-IsIn slot index [] c e = ground arith
find_committee-IsIn slot index (d ∷ ds) c e =
    elim (Bool-cases (d.slot == slot && d.index == index)) [
      | inl b ↦
          let q : d ≡ c = some-inj (rw b at e) in
          let s : d.slot ≡ slot = ground arith in
          let i : d.index ≡ index = ground arith in
          (inl q, ap (λ x. x.slot) (sym q) ∙ s, ap (λ x. x.index) (sym q) ∙ i)
      | inr b ↦ let (m, s, i) = find_committee-IsIn slot index ds c (rw b at e) in (inr m, s, i)
    ]

pub put_committees-IsIn :
    (cs : List BeaconCommittee) (known : Committees) (c : BeaconCommittee)
    → IsIn c (put_committees cs known)
    → IsIn c cs ⊎ IsIn c known
unfolding put_committees
put_committees-IsIn [] known c h = inr h
put_committees-IsIn (d ∷ ds) known c h = elim (put_committees-IsIn ds (d ∷ known) c h) [
  | inl m ↦ inl (inr m)
  | inr (inl q) ↦ inl (inl q)
  | inr (inr m) ↦ inr m
]

pub within-IsIn :
    (from to : ℕ) (cs : Committees) (c : BeaconCommittee) → IsIn c (within from to cs) → IsIn c cs
unfolding within
within-IsIn from to [] c h = h
within-IsIn from to (d ∷ ds) c h = elim (Bool-cases (leb from d.slot && leb d.slot to)) [
  | inl b ↦
      let k : (d ≡ c) ⊎ IsIn c (within from to ds) = rw b at h in
      elim k [ inl q ↦ inl q | inr m ↦ inr (within-IsIn from to ds c m) ]
  | inr b ↦ inr (within-IsIn from to ds c (rw b at h))
]

module _ (env : Env) where
  -- A committee of the table, or of an answer of the client.
  abbrev pub IsKnown : BeaconCommittee → Type 0
  IsKnown c =
      IsIn c env.beacon_committees
      ⊎ ((slot : ℕ) × (cs : List BeaconCommittee) × (env.client_committees slot ≡ some cs)
          × IsIn c cs)

  abbrev pub AreKnown : Committees → Type 0
  AreKnown known = (c : BeaconCommittee) → IsIn c known → IsKnown c

  abbrev pub IsFor : ℕ → ℕ → BeaconCommittee → Type 0
  IsFor slot index c = IsKnown c × (c.slot ≡ slot) × (c.index ≡ index)

  -- The committee that a call gives is one for the slot and index, and those of the map stay known.
  abbrev pub Gives :
      ℕ
      → ℕ
      → Option BeaconCommittee × Committees
      → Tables Rows Metadata
      → Tables Rows Metadata
      → Type 0
  Gives slot index r x y =
      (y ≡ x) × AreKnown r.1 × ((c : BeaconCommittee) → r.0 ≡ some c → IsFor slot index c)

  pub found-IsFor :
      (slot index : ℕ) (known : Committees)
      → AreKnown known
      → (c : BeaconCommittee) → find_committee slot index known ≡ some c
      → IsFor slot index c
  found-IsFor slot index known all c e =
      let (m, s, i) = find_committee-IsIn slot index known c e in (all c m, s, i)

  from_client-Runs :
      (slot index : ℕ) (known : Committees) (o : Option (List BeaconCommittee))
      → AreKnown known
      → env.client_committees slot ≡ o
      → Runs (Gives slot index) (from_client env slot index known o)
  unfolding from_client
  from_client-Runs slot index known none all e = λ w. (refl, refl)
  from_client-Runs slot index known (some cs) all e =
      let all' : AreKnown (put_committees cs known) = λ c m.
        elim (put_committees-IsIn cs known c m) [
          | inl k ↦ inr (slot, cs, e, k)
          | inr k ↦ all c k
        ] in
      λ w. ((refl, all', found-IsFor slot index (put_committees cs known) all'), (refl, refl))

  from_table-Runs :
      (slot index : ℕ) (known : Committees) (o : Option (Option BeaconCommittee))
      → AreKnown known
      → ((c : BeaconCommittee) → o ≡ some (some c) → IsFor slot index c)
      → Runs (Gives slot index) (from_table env slot index known o)
  unfolding from_table
  from_table-Runs slot index known (some (some c)) all h =
      let all' : AreKnown (c ∷ known) =
        λ d m. elim m [ inl q ↦ subst (IsKnown) q (h c refl).0 | inr k ↦ all d k ] in
      λ w. ((refl, all', λ d e. subst (IsFor slot index) (some-inj e) (h c refl)), (refl, refl))
  from_table-Runs slot index known (some none) all h =
      from_client-Runs slot index known (env.client_committees slot) all refl
  from_table-Runs slot index known none all h =
      from_client-Runs slot index known (env.client_committees slot) all refl

  pub from_map-Runs :
      (slot index : ℕ) (known : Committees) (o : Option BeaconCommittee)
      → AreKnown known
      → ((c : BeaconCommittee) → o ≡ some c → IsFor slot index c)
      → Runs (Gives slot index) (from_map env slot index known o)
  unfolding from_map
  from_map-Runs slot index known (some c) all h = λ w. ((refl, all, h), (refl, refl))
  from_map-Runs slot index known none all h =
      let f = λ (db : Tables Rows Metadata). find_committee slot index env.beacon_committees in
      let in_table : (c : BeaconCommittee)
          → find_committee slot index env.beacon_committees ≡ some c
          → IsFor slot index c =
        λ c q.
          (let (m, s, i) = find_committee-IsIn slot index env.beacon_committees c q in
            (inl m, s, i)) in
      Runs-then (λ o x y. ((o ≡ none) ⊎ (o ≡ some (f x))) × (y ≡ x))
        (λ _ r x y. Gives slot index r x y) (Gives slot index) (attempt (query env.fault f))
        (from_table env slot index known) (attempt-query-Runs env.fault f)
        (λ o x y p. from_table-Runs slot index known o all (λ c q. elim p.0 [
          | inl n ↦ let z : none ≡ some (some c) = sym n ∙ q in ground arith
          | inr n ↦ in_table c (some-inj (sym n ∙ q))
        ]))
        (λ o r x y z p q. (q.0 ∙ p.1, q.1, q.2))
