-- ===== src/Blocks/Handler/Refetch.antt =====
-- services/blocks/standard/handler.go: what becomes of a block that is fetched again.
use chaind.Common.{
  ℕ, ◌≤◌, ◌≡◌, ◌≢◌, refl, sym, ap, subst, ◌∙◌, inl, inr, Bool, true, Option, none, some, List, [],
  ◌∷◌, length, some-inj, Bool-cases, Outcome, ok, err, panicked, looping, Ends, arith, ◌==◌,
}
use chaind.Store.{Tables, World, Failure}
use chaind.Store.Transactions.{Keeps}
use chaind.Store.Runs.{put_each-keeps}
use chaind.Store.Inserts.{Included, same_inclusion, insert_new, and_then, insert_all}
use chaind.ChainDb.Members.{IsIn}
use chaind.Blocks.{
  ChainAttestation, Message, SignedBlock, phase0, altair, bellatrix, capella, deneb,
  unknown_version, unhandled_version, Metadata, Env,
}
use chaind.Blocks.Rows.{Rows, Attestation, Block, ExecutionPayload}
use chaind.Blocks.SetBlock.{put_withdrawal, put_bls_change}
use chaind.Blocks.SetBlock.Laws.{with_block, with_payload}
use chaind.Blocks.Convert.{db_block}
use chaind.Blocks.Votes.Laws.{Attested}
use chaind.Blocks.Sync.{Cache}
use chaind.Blocks.Sync.Laws.{IsFresh}
use chaind.Blocks.Handler.{on_block}
use chaind.Blocks.Handler.Laws.{StoresOperations}
use chaind.Blocks.Handler.Stored.{StoresBlock, StoresBody, bits_of, on_block-Runs}

abbrev pub message_of : SignedBlock → Option Message
message_of (phase0 m) = some m
message_of (altair m bits) = some m
message_of (bellatrix m bits p) = some m
message_of (capella m bits c) = some m
message_of (deneb m bits d) = some m
message_of unknown_version = none
message_of unhandled_version = none

with_payload-attestations :
    (root : ℕ) (o : Option ExecutionPayload) (rows : Rows)
    → (with_payload root o rows).attestations ≡ rows.attestations
with_payload-attestations root none rows = refl
with_payload-attestations root (some p) rows = elim (Bool-cases (p.fields.block_hash == 0)) [
  | inl b ↦ rw b refl
  | inr b ↦ rw b (put_each-keeps put_withdrawal (λ r. r.attestations) (λ a r. refl) p.withdrawals _)
]

with_block-attestations :
    (b : Block) (rows : Rows) → (with_block b rows).attestations ≡ rows.attestations
with_block-attestations b rows =
    put_each-keeps put_bls_change (λ r. r.attestations) (λ a r. refl) b.bls_to_execution_changes _
    ∙ with_payload-attestations b.root b.execution_payload _

-- A key that is there cannot be inserted.
insert_new-none :
    {A : Type 0} (same : A → A → Bool) (x d : A) (rows : List A)
    → IsIn d rows
    → same d x ≡ true
    → insert_new same x rows ≡ none
unfolding insert_new
insert_new-none same x d [] m e = absurd m
insert_new-none same x d (y ∷ ys) (inl q) e = rw (ap (λ z. same z x) q ∙ e) refl
insert_new-none same x d (y ∷ ys) (inr m) e = elim (Bool-cases (same y x)) [
  | inl b ↦ rw b refl
  | inr b ↦ rw (b, insert_new-none same x d ys m e) refl
]

module _ (env : Env) where
  StoresBody-operations :
      (b : SignedBlock) (m : Message) (root : ℕ) (x y : Tables Rows Metadata)
      → message_of b ≡ some m
      → StoresBody env b root x y
      → (z : Tables Rows Metadata) × StoresOperations env m.slot root m.body x z
  StoresBody-operations (phase0 n) m root x y e p =
      (y, subst (λ k. StoresOperations env k.slot root k.body x y) (some-inj e) p)
  StoresBody-operations (altair n bits) m root x y e (z, p, q) =
      (z, subst (λ k. StoresOperations env k.slot root k.body x z) (some-inj e) p)
  StoresBody-operations (bellatrix n bits c) m root x y e (z, p, q) =
      (z, subst (λ k. StoresOperations env k.slot root k.body x z) (some-inj e) p)
  StoresBody-operations (capella n bits c) m root x y e (z, p, q) =
      (z, subst (λ k. StoresOperations env k.slot root k.body x z) (some-inj e) p)
  StoresBody-operations (deneb n bits c) m root x y e (z', (z, p, q), r) =
      (z, subst (λ k. StoresOperations env k.slot root k.body x z) (some-inj e) p)
  StoresBody-operations unknown_version m root x y e p = absurd p
  StoresBody-operations unhandled_version m root x y e p = absurd p

  -- The first one of a block's attestations has been stored.
  abbrev pub IsStored : ℕ → ℕ → Rows → Type 0
  IsStored slot root rows =
      (d : Included Attestation) × IsIn d rows.attestations
      × (d.inclusion_slot ≡ slot)
      × (d.inclusion_block_root ≡ root)
      × (d.inclusion_index ≡ 0)

  insert_all-refused :
      (slot root : ℕ) (a : ChainAttestation) (as' : List ChainAttestation)
      (rows : List (Included Attestation)) (x : Rows) (xs : List (Included Attestation))
      → Attested env slot root 0 (a ∷ as') rows
      → IsStored slot root x
      → insert_all same_inclusion rows x.attestations ≡ some xs
      → ⊥
  unfolding insert_all same_inclusion
  insert_all-refused slot root a as' [] x xs attested there q = absurd attested
  insert_all-refused slot root a as' (r ∷ rs) x xs ((c, k, k', k'', e), others) (d, m, s, t, i) q =
      let same : same_inclusion d r ≡ true = ground (
        arith,
        s,
        t,
        i,
        ap (λ z. z.inclusion_slot) e,
        ap (λ z. z.inclusion_block_root) e,
        ap (λ z. z.inclusion_index) e,
      ) in
      let n = insert_new-none same_inclusion r d x.attestations m same in
      let z : none ≡ some xs = sym (ap (λ o. and_then o (insert_all same_inclusion rs)) n) ∙ q in
      ground arith

  StoresBlock-refused :
      (b : SignedBlock) (m : Message) (a : ChainAttestation) (as' : List ChainAttestation)
      (row : Block) (x y : Tables Rows Metadata)
      → message_of b ≡ some m
      → m.body.attestations ≡ a ∷ as'
      → db_block env b ≡ some row
      → IsStored m.slot row.root x.rows
      → StoresBlock env b x y
      → ⊥
  StoresBlock-refused b m a as' row x y e f g there (row', h, is_row, (x', p, body)) =
      let same : row' ≡ row = some-inj (sym h ∙ g) in
      let (z, (rows, attested, (xs, q, rest))) = StoresBody-operations b m row'.root x' y e body in
      let kept : x'.rows.attestations ≡ x.rows.attestations =
        ap (λ (t : Tables Rows Metadata). t.rows.attestations) p
        ∙ with_block-attestations row' x.rows in
      insert_all-refused m.slot row.root a as' rows x.rows xs
        (subst (λ l. Attested env m.slot row.root 0 l rows) f
          (subst (λ k. Attested env m.slot k.root 0 m.body.attestations rows) same attested))
        there (ap (insert_all same_inclusion rows) (sym kept) ∙ q)

  -- Where slots_per_epoch and epochs_per_sync_committee_period are not 0, the map of sync committees
  -- has what the table has, and the committees of the table are at least as long as the bits of the
  -- block's aggregate: whatever calls of the database fail, a block that has a row and attestations,
  -- of which the first one is in the table, cannot be stored again. OnBlock fails, since the writes
  -- that follow on the failed copy of the attestations are in the same transaction.
  pub on_block-refused :
      env.chain_time.slots_per_epoch ≢ 0
      → env.chain_time.epochs_per_sync_committee_period ≢ 0
      → (b : SignedBlock) (cache : Cache) → IsFresh env cache
      → ((period : ℕ) (vs : List ℕ)
          → env.sync_committees period ≡ some vs
          → length (bits_of b) ≤ length vs)
      → (m : Message) (a : ChainAttestation) (as' : List ChainAttestation) (row : Block)
        (w : World Rows Metadata)
      → message_of b ≡ some m
      → m.body.attestations ≡ a ∷ as'
      → db_block env b ≡ some row
      → IsStored m.slot row.root w.db.rows
      → (e : Failure) × (v : World Rows Metadata) × (on_block env b cache w ≡ (err e, v))
  on_block-refused slots epochs b cache fresh long m a as' row w e f g there =
      of_outcome (on_block env b cache w) refl (on_block-Runs env slots epochs b cache fresh long w)
    where
      of_outcome :
          (r : Outcome Failure Cache × World Rows Metadata)
          → on_block env b cache w ≡ r
          → Ends
              (λ c v. (IsFresh env c × StoresBlock env b w.db v.db) × Keeps w v)
              (λ e v. Keeps w v)
              r
          → (e : Failure) × (v : World Rows Metadata) × (on_block env b cache w ≡ (err e, v))
      of_outcome (ok c, v) q p =
          absurd (StoresBlock-refused b m a as' row w.db v.db e f g there p.0.1)
      of_outcome (err x, v) q p = (x, v, q)
      of_outcome (panicked, v) q p = absurd p
      of_outcome (looping, v) q p = absurd p
