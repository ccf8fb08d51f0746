-- ===== src/Common/Endings.antt =====
-- What holds after a call of a service: one condition for each way in which it ends.
use chaind.Common.Monad.{Outcome, ok, err, panicked, looping, M, resume}

module _ {S E : Type 0} where
  -- `stuck` is the condition after a panic, or where the fuel ran out.
  abbrev pub Post :
      {A : Type 0} → (A → S → Type 0) → (E → S → Type 0) → (S → Type 0) → Outcome E A × S → Type 0
  Post good bad stuck (ok a, s) = good a s
  Post good bad stuck (err e, s) = bad e s
  Post good bad stuck (panicked, s) = stuck s
  Post good bad stuck (looping, s) = stuck s

  -- A call that ends in one of two ways, and neither panics nor loops.
  abbrev pub Ends : {A : Type 0} → (A → S → Type 0) → (E → S → Type 0) → Outcome E A × S → Type 0
  Ends good bad = Post good bad (λ s. ⊥)

  -- The rule for a sequence of two calls, the conditions other than the first call's first.
  pub then-Post :
      {A B : Type 0} (good : A → S → Type 0) (good' : B → S → Type 0) (bad : E → S → Type 0)
      (stuck : S → Type 0) (f : A → M S E B) (r : Outcome E A × S)
      → Post good bad stuck r
      → ((a : A) (s : S) → good a s → Post good' bad stuck (f a s))
      → Post good' bad stuck (resume f r.0 r.1)
  then-Post good good' bad stuck f (ok a, s) p k = k a s p
  then-Post good good' bad stuck f (err e, s) p k = p
  then-Post good good' bad stuck f (panicked, s) p k = p
  then-Post good good' bad stuck f (looping, s) p k = p

  pub weaken-Post :
      {A : Type 0} (good good' : A → S → Type 0) (bad bad' : E → S → Type 0) (stuck : S → Type 0)
      (r : Outcome E A × S)
      → Post good bad stuck r
      → ((a : A) (s : S) → good a s → good' a s)
      → ((e : E) (s : S) → bad e s → bad' e s)
      → Post good' bad' stuck r
  weaken-Post good good' bad bad' stuck (ok a, s) p k l = k a s p
  weaken-Post good good' bad bad' stuck (err e, s) p k l = l e s p
  weaken-Post good good' bad bad' stuck (panicked, s) p k l = p
  weaken-Post good good' bad bad' stuck (looping, s) p k l = p
