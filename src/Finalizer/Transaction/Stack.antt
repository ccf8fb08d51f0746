-- ===== src/Finalizer/Transaction/Stack.antt =====
-- The checkpoints that buildFinalityStack of services/finalizer/standard/handler.go collects.
use chaind.Common.{
  ℕ, zero, suc, ◌+◌, ◌-◌, ◌*◌, ◌≤◌, ◌<◌, ◌≡◌, none, some, List, [], ◌∷◌, ok, err, length, arith,
  Option-cases, Bool-cases, inl, inr, ◌⊎◌, ltb, ltb→lt, ltb→le,
}
use chaind.Finalizer.{Env, World, Checkpoint, client}
use chaind.Finalizer.Transaction.{stack_from, push_next}

-- The checkpoints of the slots from one on in steps of 1024 backwards, as long as there are 1024
-- slots left and the step does not pass the earliest slot that is not yet canonical.
pub data Chunks (env : Env) (earliest : ℕ) : ℕ → Checkpoint → List Checkpoint → Type 0 where
  last :
      {slot : ℕ} {item : Checkpoint}
      → (slot < 1024) ⊎ (slot - 1024 < earliest)
      → Chunks env earliest slot item (item ∷ [])
  next :
      {slot : ℕ} {item c : Checkpoint} {items : List Checkpoint}
      → 1024 ≤ slot
      → earliest ≤ slot - 1024
      → env.finality (slot - 1024) ≡ some c
      → Chunks env earliest (slot - 1024) c items
      → Chunks env earliest slot item (item ∷ items)

-- The same walk, up to the slot of a chunk that the client has no checkpoint for.
pub data Lacks (env : Env) (earliest : ℕ) : ℕ → ℕ → Type 0 where
  lacks_here :
      {slot : ℕ}
      → 1024 ≤ slot
      → earliest ≤ slot - 1024
      → env.finality (slot - 1024) ≡ none
      → Lacks env earliest slot (slot - 1024)
  lacks_later :
      {slot t : ℕ} {c : Checkpoint}
      → 1024 ≤ slot
      → earliest ≤ slot - 1024
      → env.finality (slot - 1024) ≡ some c
      → Lacks env earliest (slot - 1024) t
      → Lacks env earliest slot t

-- A chunk's slot is a multiple of 1024 slots behind.
abbrev pub IsChunk : ℕ → ℕ → ℕ → Type 0
IsChunk earliest slot t = (k : ℕ) × (slot ≡ t + 1024 * suc k) × (earliest ≤ t)

later-IsChunk :
    (earliest slot t : ℕ) → 1024 ≤ slot → IsChunk earliest (slot - 1024) t → IsChunk earliest slot t
later-IsChunk earliest slot t h (k, e, above) = (suc k, omega arith, above)

-- With fuel for each slot, the loop of the stack ends, and changes nothing. It gives the
-- checkpoints of all the chunks, which are no more than fit the slots. Or else it fails because the
-- client has no checkpoint for the slot of a chunk, though it has one for each chunk before: that
-- slot is a multiple of 1024 slots, at least one, behind the given one, and not before the earliest.
pub stack_from_lem :
    (env : Env) (fuel earliest slot : ℕ) (item : Checkpoint) (w : World)
    → slot < fuel
    → ((items : List Checkpoint) × (stack_from env fuel earliest slot item w ≡ (ok items, w))
        × Chunks env earliest slot item items
        × (length items * 1024 ≤ slot + 1024))
      ⊎ ((stack_from env fuel earliest slot item w ≡ (err client, w))
          × ((t : ℕ) × Lacks env earliest slot t
              × IsChunk earliest slot t
              × (env.finality t ≡ none)))
unfolding stack_from push_next
stack_from_lem env zero earliest slot item w h = elim h [ ]
stack_from_lem env (suc fuel) earliest slot item w h = elim (Bool-cases (ltb slot 1024)) [
  | inl a ↦ inl (item ∷ [], rw a, last (inl (ltb→lt _ _ a)), omega arith)
  | inr a ↦ elim (Bool-cases (ltb (slot - 1024) earliest)) [
    | inl b ↦ inl (item ∷ [], rw (a, b), last (inr (ltb→lt _ _ b)), omega arith)
    | inr b ↦
        let room : 1024 ≤ slot = ltb→le _ _ a in
        let above : earliest ≤ slot - 1024 = ltb→le _ _ b in
        elim (Option-cases (env.finality (slot - 1024))) [
          | inl e ↦
              inr (rw (a, b, e), (slot - 1024, lacks_here room above e, (0, omega arith, above), e))
          | inr (c, e) ↦ elim (stack_from_lem env fuel earliest (slot - 1024) c w (omega arith)) [
            | inl (items, run, chunks, le) ↦
                inl (item ∷ items, rw (a, b, e, run), next room above e chunks, omega arith)
            | inr (run, (t, lacks, chunk, none')) ↦ inr (
              rw (a, b, e, run),
              (t, lacks_later room above e lacks, later-IsChunk earliest slot t room chunk, none'),
            )
          ]
        ]
  ]
]
