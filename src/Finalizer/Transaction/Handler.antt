-- ===== src/Finalizer/Transaction/Handler.antt =====
-- OnFinalityCheckpointReceived of services/finalizer/standard/handler.go: whom it notifies, and how
-- it ends.
use chaind.Common.{
  ℕ, zero, suc, ◌-◌, ◌≡◌, refl, ◌∙◌, ap, ◌⊎◌, inl, inr, Bool, false, ◌||◌, Option, none, some, List,
  [], ◌∷◌, ◌++◌, Outcome, ok, err, panicked, looping, resume, pure, ◌>>◌, ltb, ◌==◌, add64,
  Bool-cases,
}
use chaind.ChainTime
use chaind.Finalizer.{
  Env, World, Act, Checkpoint, FinalizerError, begin_tx, commit_tx, cancel_tx, get_metadata,
}
use chaind.Finalizer.Keeps.{Keeps, kept, bind-Keeps, if-Keeps, get_metadata-Keeps}
use chaind.Finalizer.Blocks.{update_canonical_blocks}
use chaind.Finalizer.Blocks.Saved.{update_canonical_blocks-Keeps}
use chaind.Finalizer.Votes.{update_attestations}
use chaind.Finalizer.Votes.Saved.{update_attestations-Keeps}
use chaind.Finalizer.Transaction.{
  Finality, or_cancel, cancelled, ignore_error, ignored, push_next, stack_from,
  build_finality_stack, run_finality_transaction, run_each, handle, notify,
  on_finality_checkpoint_received,
}
use chaind.Finalizer.Transaction.Atomic.{Progress, Stopped, run_each-Progress}

-- No handler is notified, whatever fails.
abbrev IsSilent : {A : Type 0} → Act A → Type 0
IsSilent m = (w : World) → (m w).1.notified ≡ w.notified

Keeps-IsSilent : {A : Type 0} (m : Act A) → Keeps m → IsSilent m
Keeps-IsSilent m k w = ap (λ p. p.1) (k w)

resume-IsSilent :
    (f : Act (Unit {0})) (o : Outcome FinalizerError (Unit {0})) (w : World)
    → IsSilent f
    → (resume (λ _. f) o w).1.notified ≡ w.notified
resume-IsSilent f (ok a) w k = k w
resume-IsSilent f (err e) w k = refl
resume-IsSilent f panicked w k = refl
resume-IsSilent f looping w k = refl

then-IsSilent : (m f : Act (Unit {0})) → IsSilent m → IsSilent f → IsSilent (m >> f)
then-IsSilent m f k l w = resume-IsSilent f (m w).0 (m w).1 l ∙ k w

cancelled_notified :
    (o : Outcome FinalizerError (Unit {0})) (w : World) → (cancelled o w).1.notified ≡ w.notified
unfolding cancelled cancel_tx
cancelled_notified (ok a) w = refl
cancelled_notified (err e) w = refl
cancelled_notified panicked w = refl
cancelled_notified looping w = refl

ignored_notified :
    (o : Outcome FinalizerError (Unit {0})) (w : World) → (ignored o w).1.notified ≡ w.notified
unfolding ignored
ignored_notified (ok a) w = refl
ignored_notified (err e) w = refl
ignored_notified panicked w = refl
ignored_notified looping w = refl

or_cancel-IsSilent : (m : Act (Unit {0})) → IsSilent m → IsSilent (or_cancel m)
unfolding or_cancel
or_cancel-IsSilent m k w = cancelled_notified (m w).0 (m w).1 ∙ k w

ignore_error-IsSilent : (m : Act (Unit {0})) → IsSilent m → IsSilent (ignore_error m)
unfolding ignore_error
ignore_error-IsSilent m k w = ignored_notified (m w).0 (m w).1 ∙ k w

module _ (env : Env) where
  begin_tx-IsSilent : IsSilent (begin_tx env)
  unfolding begin_tx
  begin_tx-IsSilent w = elim (Bool-cases (env.fault w.calls)) [ inl a ↦ rw a | inr a ↦ rw a ]

  commit_tx-IsSilent : IsSilent (commit_tx env)
  unfolding commit_tx
  commit_tx-IsSilent w = elim (Bool-cases (env.fault w.calls || w.aborted)) [
    | inl a ↦ rw a
    | inr a ↦ rw a
  ]

  transaction-IsSilent : (c : Checkpoint) → IsSilent (run_finality_transaction env c)
  unfolding run_finality_transaction
  transaction-IsSilent c =
      let blocks = or_cancel (update_canonical_blocks env c.root) in
      let votes = ignore_error (update_attestations env c.epoch) in
      then-IsSilent (begin_tx env >> blocks >> votes) (or_cancel (commit_tx env))
        (then-IsSilent (begin_tx env >> blocks) votes
          (then-IsSilent (begin_tx env) blocks begin_tx-IsSilent (
            or_cancel-IsSilent (update_canonical_blocks env c.root) (
              Keeps-IsSilent (update_canonical_blocks env c.root)
                (update_canonical_blocks-Keeps env c.root))))
          (ignore_error-IsSilent (update_attestations env c.epoch) (
            Keeps-IsSilent (update_attestations env c.epoch)
              (update_attestations-Keeps env c.epoch))))
        (or_cancel-IsSilent (commit_tx env) commit_tx-IsSilent)

  run_each-IsSilent : (stack : List Checkpoint) → IsSilent (run_each env stack)
  unfolding run_each
  run_each-IsSilent [] = λ w. refl
  run_each-IsSilent (c ∷ stack) =
      then-IsSilent (run_each env stack) (run_finality_transaction env c) (run_each-IsSilent stack)
        (transaction-IsSilent c)

  push_next-Keeps :
      (o : Option Checkpoint) (f : Checkpoint → Act (List Checkpoint))
      → ((c : Checkpoint) → Keeps (f c))
      → Keeps (push_next env o f)
  unfolding push_next
  push_next-Keeps none f k = λ w. refl
  push_next-Keeps (some c) f k = k c

  stack_from-Keeps :
      (fuel earliest slot : ℕ) (item : Checkpoint) → Keeps (stack_from env fuel earliest slot item)
  unfolding stack_from
  stack_from-Keeps zero earliest slot item = λ w. refl
  stack_from-Keeps (suc fuel) earliest slot item =
      if-Keeps (ltb slot 1024) _ _ (λ w. refl)
        (if-Keeps (ltb (slot - 1024) earliest) _ _ (λ w. refl)
          (push_next-Keeps (env.finality (slot - 1024)) _ λ c.
            bind-Keeps (stack_from env fuel earliest (slot - 1024) c) _
              (stack_from-Keeps fuel earliest (slot - 1024) c) (λ items w. refl)))

  build_finality_stack-Keeps : (root epoch : ℕ) → Keeps (build_finality_stack env root epoch)
  unfolding build_finality_stack
  build_finality_stack-Keeps root epoch =
      bind-Keeps (get_metadata env) _ (get_metadata-Keeps env) λ md.
        let slot = ChainTime.first_slot_of_epoch env.time epoch in
        let rest =
          stack_from env (suc slot) (add64 md.latest_canonical_slot 1) slot
            (record { epoch = epoch; root = root }) in
        if-Keeps (epoch == 0) (pure []) rest (λ w. refl)
          (stack_from-Keeps (suc slot) (add64 md.latest_canonical_slot 1) slot
            (record { epoch = epoch; root = root }))

  pub IsOk : {A : Type 0} → Outcome FinalizerError A → Type 0
  IsOk (ok a) = Unit
  IsOk (err e) = ⊥
  IsOk panicked = ⊥
  IsOk looping = ⊥

  -- No error comes out, and no transaction is open at the end of a call that does not panic.
  pub HasEnded : Outcome FinalizerError (Unit {0}) × World → Type 0
  HasEnded (ok _, v) = v.saved ≡ none
  HasEnded (err _, v) = ⊥
  HasEnded (panicked, v) = Unit
  HasEnded (looping, v) = Unit

  abbrev pub stack_of : Finality → Act (List Checkpoint)
  stack_of finality = build_finality_stack env finality.justified.root finality.justified.epoch

  -- The two ways of a notification that is worked on.
  pub Reports : Finality → World → Outcome FinalizerError (Unit {0}) × World → Type 0
  Reports finality w r =
      ((stack : List Checkpoint) × (u : World) × (v : World) × (stack_of finality w ≡ (ok stack, u))
        × (run_each env stack u ≡ (ok tt, v))
        × (r ≡ (ok tt, record v { notified = w.notified ++ finality.finalized.epoch ∷ [] }))
        × HasEnded r)
      ⊎ (((¬ (IsOk (stack_of finality w).0))
            ⊎ ((stack : List Checkpoint) × (u : World) × (stack_of finality w ≡ (ok stack, u))
                × (¬ (IsOk (run_each env stack u).0))))
          × (r.1.notified ≡ w.notified)
          × HasEnded r)

  after_runs :
      (finality : Finality) (w u : World) (stack : List Checkpoint)
      (r : Outcome FinalizerError (Unit {0}) × World)
      → stack_of finality w ≡ (ok stack, u)
      → run_each env stack u ≡ r
      → Progress env stack u r
      → r.1.notified ≡ w.notified
      → Reports finality w
          (ignore_error (λ v. resume (λ _. notify finality.finalized.epoch) r.0 r.1) u)
  unfolding Reports Progress Stopped ignore_error ignored notify HasEnded IsOk
  after_runs finality w u stack (ok a, v) b e p n = inl (stack, u, v, b, e, rw n, p.1)
  after_runs finality w u stack (err x, v) b e (later, failed, done, u', es, er, q, (same, closed))
        n =
      inr (inr (stack, u, b, rw e (λ i. i)), n, closed)
  after_runs finality w u stack (panicked, v) b e p n =
      inr (inr (stack, u, b, rw e (λ i. i)), n, tt)
  after_runs finality w u stack (looping, v) b e p n = inr (inr (stack, u, b, rw e (λ i. i)), n, tt)

  after_build :
      (finality : Finality) (w : World) (x : Outcome FinalizerError (List Checkpoint) × World)
      → w.saved ≡ none
      → stack_of finality w ≡ x
      → kept x.1 ≡ kept w
      → Reports finality w (
          ignore_error
            (λ v. resume (λ stack. run_each env stack >> notify finality.finalized.epoch) x.0 x.1)
            w)
  unfolding Reports ignore_error ignored HasEnded IsOk
  after_build finality w (ok stack, u) a b k =
      after_runs finality w u stack (run_each env stack u) b refl
        (run_each-Progress env stack u (ap (λ p. p.0) k ∙ a))
        (run_each-IsSilent stack u ∙ ap (λ p. p.1) k)
  after_build finality w (err e, u) a b k =
      inr (inl (rw b (λ i. i)), ap (λ p. p.1) k, ap (λ p. p.0) k ∙ a)
  after_build finality w (panicked, u) a b k = inr (inl (rw b (λ i. i)), ap (λ p. p.1) k, tt)
  after_build finality w (looping, u) a b k = inr (inl (rw b (λ i. i)), ap (λ p. p.1) k, tt)

  -- A notification for which neither attempt gets the semaphore changes nothing. One that is worked
  -- on, from outside any transaction, never gives an error, and leaves no transaction open unless it
  -- panics. The handlers are notified, once and of the finalized epoch, exactly where the stack was
  -- built and every transaction succeeded.
  pub on_finality_checkpoint_received-Reports :
      (finality : Finality) (first second : Bool) (w : World)
      → w.saved ≡ none
      → ((first || second ≡ false)
          × (on_finality_checkpoint_received env finality first second w ≡ (ok tt, w)))
        ⊎ Reports finality w (on_finality_checkpoint_received env finality first second w)
  unfolding on_finality_checkpoint_received handle
  on_finality_checkpoint_received-Reports finality first second w a =
      elim (Bool-cases (first || second)) [
        | inr e ↦ inl (e, rw e)
        | inl e ↦ inr (
            rw e (
              after_build finality w (stack_of finality w) a refl
                (build_finality_stack-Keeps finality.justified.root finality.justified.epoch w)))
      ]
