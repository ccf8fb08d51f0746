-- ===== src/Blocks/Convert/Row.antt =====
-- services/blocks/standard/handler.go: what is in the row of a block, column by column, apart from how
-- dbBlock makes it.
use chaind.Common.{
  ℕ, ◌+◌, ◌≡◌, refl, subst, some-inj, none, some, List, [], ◌∷◌, Option-cases, inl, inr,
}
use chaind.Store.Inserts.{Included}
use chaind.Blocks.{
  Payload, ChainWithdrawal, BlsChange, CapellaParts, Message, SignedBlock, phase0, altair,
  bellatrix, capella, deneb, unknown_version, unhandled_version, Env,
}
use chaind.Blocks.Rows.{Withdrawal, ExecutionPayload, Block}
use chaind.Blocks.Convert.{
  with_fee, from_little_endian, number_rows, withdrawal, bls_change, db_block_common,
  db_block_bellatrix, db_block_capella, db_block_deneb, header, roots, db_block,
}

-- The columns that come from the message, and no mark of being canonical.
abbrev HasMessage : Message → Block → Type 0
HasMessage m row =
    (row.slot ≡ m.slot)
    × (row.proposer_index ≡ m.proposer_index)
    × (row.parent_root ≡ m.parent_root)
    × (row.state_root ≡ m.state_root)
    × (row.graffiti ≡ m.body.graffiti)
    × (row.randao_reveal ≡ m.body.randao_reveal)
    × (row.eth1_block_hash ≡ m.body.eth1_data.block_hash)
    × (row.eth1_deposit_count ≡ m.body.eth1_data.deposit_count)
    × (row.eth1_deposit_root ≡ m.body.eth1_data.deposit_root)
    × (row.canonical ≡ none)

-- The columns of a payload that the forks have in common.
abbrev HasFields : {F : Type 0} → ℕ → Payload F → Payload ℕ → Type 0
HasFields fee p f =
    (f.base_fee_per_gas ≡ fee)
    × (f.parent_hash ≡ p.parent_hash)
    × (f.fee_recipient ≡ p.fee_recipient)
    × (f.state_root ≡ p.state_root)
    × (f.receipts_root ≡ p.receipts_root)
    × (f.logs_bloom ≡ p.logs_bloom)
    × (f.prev_randao ≡ p.prev_randao)
    × (f.block_number ≡ p.block_number)
    × (f.gas_limit ≡ p.gas_limit)
    × (f.gas_used ≡ p.gas_used)
    × (f.timestamp ≡ p.timestamp)
    × (f.extra_data ≡ p.extra_data)
    × (f.block_hash ≡ p.block_hash)

-- The rows for the items of a list: one for each, with the block's slot and root, numbered in order.
abbrev AreNumbered :
    {A B : Type 0} → (A → B → Type 0) → ℕ → ℕ → ℕ → List A → List (Included B) → Type 0
AreNumbered Of slot root i [] [] = Unit
AreNumbered Of slot root i [] (r ∷ rs) = ⊥
AreNumbered Of slot root i (a ∷ as') [] = ⊥
AreNumbered Of slot root i (a ∷ as') (r ∷ rs) =
    (r.inclusion_slot ≡ slot)
    × (r.inclusion_block_root ≡ root)
    × (r.inclusion_index ≡ i)
    × Of a r.content
    × AreNumbered Of slot root (i + 1) as' rs

abbrev IsWithdrawal : ChainWithdrawal → Withdrawal → Type 0
IsWithdrawal w r =
    (r.withdrawal_index ≡ w.index)
    × (r.validator_index ≡ w.validator_index)
    × (r.address ≡ w.address)
    × (r.amount ≡ w.amount)

abbrev IsChange : BlsChange → BlsChange → Type 0
IsChange c r =
    (r.validator_index ≡ c.validator_index)
    × (r.from_bls_pub_key ≡ c.from_bls_pub_key)
    × (r.to_execution_address ≡ c.to_execution_address)

-- The columns that Capella adds: a payload of the fee, with the withdrawals, and the changes.
abbrev HasCapella : {F : Type 0} → Message → ℕ → CapellaParts F → ℕ → ℕ → Block → Type 0
HasCapella m fee c used excess row =
    ((p : ExecutionPayload) × (row.execution_payload ≡ some p)
      × HasFields fee c.payload p.fields
      × AreNumbered IsWithdrawal m.slot row.root 0 c.withdrawals p.withdrawals
      × (p.blob_gas_used ≡ used)
      × (p.excess_blob_gas ≡ excess))
    × AreNumbered IsChange m.slot row.root 0 c.bls_to_execution_changes row.bls_to_execution_changes

-- No changes and no commitments.
abbrev HasNoExtras : Block → Type 0
HasNoExtras row = (row.bls_to_execution_changes ≡ []) × (row.blob_kzg_commitments ≡ [])

-- The columns that a fork adds; until Deneb the fee of a payload is the number with its bytes.
abbrev HasParts : SignedBlock → Block → Type 0
HasParts (phase0 m) row = HasMessage m row × (row.execution_payload ≡ none) × HasNoExtras row
HasParts (altair m bits) row = HasMessage m row × (row.execution_payload ≡ none) × HasNoExtras row
HasParts (bellatrix m bits c) row =
    HasMessage m row
    × ((p : ExecutionPayload) × (row.execution_payload ≡ some p)
        × HasFields (from_little_endian c.base_fee_per_gas) c p.fields
        × (p.withdrawals ≡ [])
        × (p.blob_gas_used ≡ 0)
        × (p.excess_blob_gas ≡ 0))
    × HasNoExtras row
HasParts (capella m bits c) row =
    HasMessage m row
    × HasCapella m (from_little_endian c.payload.base_fee_per_gas) c 0 0 row
    × (row.blob_kzg_commitments ≡ [])
HasParts (deneb m bits d) row =
    HasMessage m row
    × HasCapella m d.capella.payload.base_fee_per_gas d.capella d.blob_gas_used d.excess_blob_gas
        row
    × (row.blob_kzg_commitments ≡ d.blob_kzg_commitments)
HasParts unknown_version row = ⊥
HasParts unhandled_version row = ⊥

number_rows-AreNumbered :
    {A B : Type 0} (f : A → B) (Of : A → B → Type 0) (of : (a : A) → Of a (f a)) (slot root i : ℕ)
    (as' : List A)
    → AreNumbered Of slot root i as' (number_rows f slot root i as')
unfolding number_rows
number_rows-AreNumbered f Of of slot root i [] = tt
number_rows-AreNumbered f Of of slot root i (a ∷ as') =
    (refl, refl, refl, of a, number_rows-AreNumbered f Of of slot root (i + 1) as')

message-HasMessage :
    (root body_root : ℕ) (m : Message) → HasMessage m (db_block_common root body_root m)
message-HasMessage root body_root m = (refl, refl, refl, refl, refl, refl, refl, refl, refl, refl)

fields-HasFields : {F : Type 0} (fee : ℕ) (p : Payload F) → HasFields fee p (with_fee fee p)
fields-HasFields fee p =
    (refl, refl, refl, refl, refl, refl, refl, refl, refl, refl, refl, refl, refl)

withdrawals :
    (root : ℕ) (m : Message) (ws : List ChainWithdrawal)
    → AreNumbered IsWithdrawal m.slot root 0 ws (number_rows withdrawal m.slot root 0 ws)
withdrawals root m ws =
    number_rows-AreNumbered withdrawal IsWithdrawal (λ w. (refl, refl, refl, refl)) m.slot root 0 ws

changes :
    (root : ℕ) (m : Message) (cs : List BlsChange)
    → AreNumbered IsChange m.slot root 0 cs (number_rows bls_change m.slot root 0 cs)
changes root m cs =
    number_rows-AreNumbered bls_change IsChange (λ c. (refl, refl, refl)) m.slot root 0 cs

module _ (env : Env) where
  -- The row has the root of the block's body, and that of its header.
  abbrev HasRoots : SignedBlock → Message → Block → Type 0
  HasRoots b m row =
      (env.body_root b ≡ some row.body_root)
      × (env.header_root (header m row.body_root) ≡ some row.root)

  abbrev pub IsRowOf : SignedBlock → Block → Type 0
  IsRowOf (phase0 m) row = HasRoots (phase0 m) m row × HasParts (phase0 m) row
  IsRowOf (altair m bits) row = HasRoots (altair m bits) m row × HasParts (altair m bits) row
  IsRowOf (bellatrix m bits p) row =
      HasRoots (bellatrix m bits p) m row × HasParts (bellatrix m bits p) row
  IsRowOf (capella m bits c) row =
      HasRoots (capella m bits c) m row × HasParts (capella m bits c) row
  IsRowOf (deneb m bits d) row = HasRoots (deneb m bits d) m row × HasParts (deneb m bits d) row
  IsRowOf unknown_version row = ⊥
  IsRowOf unhandled_version row = ⊥

  -- A row that is made from its roots has what every row of those roots has.
  roots-some :
      (b : SignedBlock) (m : Message) (f : ℕ → ℕ → Block) (row : Block) (P : Block → Type 0)
      → roots env b m f ≡ some row
      → ((root body_root : ℕ)
          → env.body_root b ≡ some body_root
          → env.header_root (header m body_root) ≡ some root
          → P (f root body_root))
      → P row
  unfolding roots
  roots-some b m f row P e k = elim (Option-cases (env.body_root b)) [
    | inl n ↦ cc (rw (roots, n) at e)
    | inr (body_root, q) ↦ elim (Option-cases (env.header_root (header m body_root))) [
      | inl n ↦ cc (rw (roots, q, n) at e)
      | inr (root, h) ↦ subst P (some-inj (rw (roots, q, h) at e)) (k root body_root q h)
    ]
  ]

  pub db_block-IsRowOf : (b : SignedBlock) (row : Block) → db_block env b ≡ some row → IsRowOf b row
  unfolding db_block
  db_block-IsRowOf (phase0 m) row e =
      roots-some (phase0 m) m (λ root body_root. db_block_common root body_root m) row
        (IsRowOf (phase0 m)) e
        (λ root body_root q h. ((q, h), (message-HasMessage root body_root m, refl, (refl, refl))))
  db_block-IsRowOf (altair m bits) row e =
      roots-some (altair m bits) m (λ root body_root. db_block_common root body_root m) row
        (IsRowOf (altair m bits)) e
        (λ root body_root q h. ((q, h), (message-HasMessage root body_root m, refl, (refl, refl))))
  db_block-IsRowOf (bellatrix m bits p) row e =
      roots-some (bellatrix m bits p) m (λ root body_root. db_block_bellatrix root body_root m p)
        row (IsRowOf (bellatrix m bits p)) e
        (λ root body_root q h. (
          (q, h),
          (
            message-HasMessage root body_root m,
            (_, refl, fields-HasFields (from_little_endian p.base_fee_per_gas) p, refl, refl, refl),
            (refl, refl),
          ),
        ))
  db_block-IsRowOf (capella m bits c) row e =
      roots-some (capella m bits c) m (λ root body_root. db_block_capella root body_root m c) row
        (IsRowOf (capella m bits c)) e
        (λ root body_root q h. (
          (q, h),
          (
            message-HasMessage root body_root m,
            (
              (
                _,
                refl,
                fields-HasFields (from_little_endian c.payload.base_fee_per_gas) c.payload,
                withdrawals root m c.withdrawals,
                refl,
                refl,
              ),
              changes root m c.bls_to_execution_changes,
            ),
            refl,
          ),
        ))
  db_block-IsRowOf (deneb m bits d) row e =
      roots-some (deneb m bits d) m (λ root body_root. db_block_deneb root body_root m d) row
        (IsRowOf (deneb m bits d)) e
        (λ root body_root q h. (
          (q, h),
          (
            message-HasMessage root body_root m,
            (
              (
                _,
                refl,
                fields-HasFields d.capella.payload.base_fee_per_gas d.capella.payload,
                withdrawals root m d.capella.withdrawals,
                refl,
                refl,
              ),
              changes root m d.capella.bls_to_execution_changes,
            ),
            refl,
          ),
        ))
  db_block-IsRowOf unknown_version row e = cc
  db_block-IsRowOf unhandled_version row e = cc
