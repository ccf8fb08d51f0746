-- ===== src/Blocks/SetBlock/Laws.antt =====
-- SetBlock of services/chaindb/postgresql/blocks.go: the rows that it writes.
use chaind.Common.{
  ℕ, ◌≡◌, refl, ap, ◌∙◌, Bool, Option, none, some, Bool-cases, if◌then◌else◌, ◌==◌, inl, inr,
}
use chaind.Store.Transactions.{put_each}
use chaind.Store.Runs.{Runs, Runs-then, on_rows, mutate-Runs, set_each-Runs}
use chaind.Blocks.Rows.{Rows, Block, ExecutionPayload}
use chaind.Blocks.SetBlock.{
  block_row, payload_row, put_block, put_payload, put_withdrawal, put_bls_change,
  set_execution_payload, set_block,
}

-- What a payload changes: nothing where there is none, or where it is from before the merge.
abbrev pub with_payload : ℕ → Option ExecutionPayload → Rows → Rows
with_payload root none rows = rows
with_payload root (some p) rows =
    if p.fields.block_hash == 0
    then rows
    else put_each put_withdrawal p.withdrawals (put_payload (payload_row root p) rows)

abbrev pub with_block : Block → Rows → Rows
with_block b rows =
    put_each put_bls_change b.bls_to_execution_changes
      (with_payload b.root b.execution_payload (put_block (block_row b) rows))

module _ (fault : ℕ → Bool) where
  set_execution_payload-Runs :
      (root : ℕ) (o : Option ExecutionPayload)
      → Runs (λ _ x y. y ≡ on_rows (with_payload root o) x) (set_execution_payload fault root o)
  unfolding set_execution_payload
  set_execution_payload-Runs root none = λ w. (refl, (refl, refl))
  set_execution_payload-Runs root (some p) = elim (Bool-cases (p.fields.block_hash == 0)) [
    | inl b ↦ rw b (λ w. (refl, (refl, refl)))
    | inr b ↦ rw b (
        Runs-then (λ _ x y. y ≡ on_rows (put_payload (payload_row root p)) x)
          (λ _ _ x y. y ≡ on_rows (put_each put_withdrawal p.withdrawals) x)
          (λ _ x y.
            y
            ≡ on_rows
                (λ rows.
                  put_each put_withdrawal p.withdrawals (put_payload (payload_row root p) rows))
                x)
          _ _ (mutate-Runs fault (put_payload (payload_row root p)))
          (λ _ _ _ _. set_each-Runs fault put_withdrawal p.withdrawals)
          (λ _ _ x y z q r. r ∙ ap (on_rows (put_each put_withdrawal p.withdrawals)) q))
  ]

  pub set_block-Runs :
      (b : Block) → Runs (λ _ x y. y ≡ on_rows (with_block b) x) (set_block fault b)
  unfolding set_block
  set_block-Runs b =
      let payload = with_payload b.root b.execution_payload in
      let changes = put_each put_bls_change b.bls_to_execution_changes in
      Runs-then (λ _ x y. y ≡ on_rows (λ rows. payload (put_block (block_row b) rows)) x)
        (λ _ _ x y. y ≡ on_rows changes x) (λ _ x y. y ≡ on_rows (with_block b) x) _ _
        (Runs-then (λ _ x y. y ≡ on_rows (put_block (block_row b)) x)
          (λ _ _ x y. y ≡ on_rows payload x)
          (λ _ x y. y ≡ on_rows (λ rows. payload (put_block (block_row b) rows)) x) _ _
          (mutate-Runs fault (put_block (block_row b)))
          (λ _ _ _ _. set_execution_payload-Runs b.root b.execution_payload)
          (λ _ _ x y z q r. r ∙ ap (on_rows payload) q))
        (λ _ _ _ _. set_each-Runs fault put_bls_change b.bls_to_execution_changes)
        (λ _ _ x y z q r. r ∙ ap (on_rows changes) q)
