-- ===== src/Validators/Handler.antt =====
-- services/validators/standard/handler.go: the handler, and updateAfterRestart of service.go.
pub mod Update
pub mod Stores
use chaind.Common.{
  ℕ, zero, suc, ◌+◌, ◌-◌, Bool, true, false, ◌&&◌, ◌||◌, not, Option, none, some, List, [], ◌∷◌,
  map, if◌then◌else◌, ◌==◌, ltb, ok, pure, fail, crash, ◌>>=◌, ◌>>◌, add64,
}
use chaind.Store.{
  World, Act, client, cancel_tx, or_cancel, hold, ignored, or_exit, query, begin_tx, commit_tx,
  get_metadata, set_metadata, set_each,
}
use chaind.Store.Inserts.{upsert, insert_all, or_else, copy_from}
use chaind.ChainTime
use chaind.ChainTime.{slot_to_epoch, first_slot_of_epoch}
use chaind.Validators.{
  Entry, Validator, ValidatorBalance, Rows, Metadata, no_metadata, Env, outdated, put_validator,
  put_balance, insert_balances, balance_row,
}

module _ (env : Env) where
  unfoldable pub set_outdated : ℕ → List Entry → List Validator → Act Rows Metadata (Unit {0})
  set_outdated epoch es dbs =
      begin_tx env.fault
      >> or_cancel (set_each env.fault put_validator (outdated dbs es))
      >> hold (λ md. record md { latest_epoch = epoch })
      >> or_cancel (set_metadata env.fault)
      >> or_cancel (commit_tx env.fault)

  with_validators : ℕ → Option (List Entry) → Act Rows Metadata (Unit {0})
  unfolding set_outdated
  with_validators epoch none = fail client
  with_validators epoch (some es) =
      query env.fault (λ db. db.rows.validators) >>= set_outdated epoch es

  unfoldable pub on_epoch_transition_validators : ℕ → Act Rows Metadata (Unit {0})
  unfolding with_validators
  on_epoch_transition_validators epoch = with_validators epoch env.head

  cancel_call : Act Rows Metadata (Unit {0})
  cancel_call w = (ok tt, cancel_tx w)

  -- A statement for each row, which the table may refuse.
  put_balances : List ValidatorBalance → Act Rows Metadata (Unit {0})
  put_balances [] = pure tt
  put_balances (b ∷ bs) = copy_from env.fault (put_balance b) >> put_balances bs

  -- The copy of all rows; where it fails, the transaction is cancelled, and the rows are put one by one
  -- in a new one.
  unfoldable pub store_balances : List ValidatorBalance → Act Rows Metadata (Unit {0})
  unfolding cancel_call put_balances
  store_balances bs =
      or_else (copy_from env.fault (insert_balances bs))
        (cancel_call >> begin_tx env.fault >> or_cancel (put_balances bs))

  -- The balances and the epoch in the metadata, where balances are kept.
  balances_if_kept : ℕ → List Entry → Act Rows Metadata (Unit {0})
  unfolding store_balances
  balances_if_kept epoch es =
      if env.balances
      then (store_balances (map (balance_row epoch) es)
          >> hold (λ md. record md { latest_balances_epoch = epoch }))
      else pure tt

  with_balances : ℕ → Option (List Entry) → Act Rows Metadata (Unit {0})
  unfolding balances_if_kept
  with_balances epoch none = fail client
  with_balances epoch (some es) =
      begin_tx env.fault
      >> balances_if_kept epoch es
      >> or_cancel (set_metadata env.fault)
      >> or_cancel (commit_tx env.fault)

  unfoldable pub on_epoch_transition_validator_balances_for_epoch : ℕ → Act Rows Metadata (Unit {0})
  unfolding with_balances
  on_epoch_transition_validator_balances_for_epoch epoch =
      with_balances epoch (env.validators_at (first_slot_of_epoch env.chain_time epoch))

  -- `n` epochs from `epoch` on.
  balances_from : ℕ → ℕ → Act Rows Metadata (Unit {0})
  balances_from zero epoch = pure tt
  balances_from (suc n) epoch =
      on_epoch_transition_validator_balances_for_epoch epoch >> balances_from n (add64 epoch 1)

  unfoldable pub on_epoch_transition_validator_balances : ℕ → Act Rows Metadata (Unit {0})
  unfolding balances_from
  on_epoch_transition_validator_balances epoch w =
      let latest = w.held.latest_balances_epoch in
      let first = if ltb 0 latest then add64 latest 1 else latest in
      if env.balances then balances_from (suc epoch - first) first w else (ok tt, w)

  -- An error is logged, and the next call is made.
  logged : Act Rows Metadata (Unit {0}) → Act Rows Metadata (Unit {0})
  logged m w = let r = m w in ignored r.0 r.1

  on_transition : ℕ → Act Rows Metadata (Unit {0})
  unfolding logged
  on_transition epoch =
      logged (on_epoch_transition_validators epoch)
      >> logged (on_epoch_transition_validator_balances epoch)

  at_epoch : Bool → Bool → Option ℕ → Act Rows Metadata (Unit {0})
  unfolding on_transition
  at_epoch epoch_transition acquired none = crash
  at_epoch epoch_transition acquired (some epoch) =
      if epoch_transition && acquired
      then logged
          (get_metadata env.fault no_metadata >>= λ md. hold (λ _. md) >> on_transition epoch)
      else pure tt

  unfoldable pub on_beacon_chain_head_updated : Bool → Bool → ℕ → Act Rows Metadata (Unit {0})
  unfolding at_epoch
  on_beacon_chain_head_updated epoch_transition acquired slot =
      at_epoch epoch_transition acquired (slot_to_epoch env.chain_time slot)

  store_start : Bool → Act Rows Metadata (Unit {0})
  store_start false = pure tt
  store_start true =
      or_exit (begin_tx env.fault)
      >> or_exit (or_cancel (set_metadata env.fault))
      >> or_exit (or_cancel (commit_tx env.fault))

  -- `explicit` is whether an epoch to start from is given; the epoch itself is not used. `epoch` is the
  -- current one.
  unfoldable pub update_after_restart : Bool → Bool → ℕ → Act Rows Metadata (Unit {0})
  unfolding store_start on_transition
  update_after_restart acquired explicit epoch = if not acquired then pure tt else do
    md ← or_exit (get_metadata env.fault no_metadata)
    hold (λ _. md)
    store_start explicit
    on_transition epoch
