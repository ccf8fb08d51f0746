-- ===== src/Common/Monad.antt =====
-- How a Go call ends, and the state monad of the services' methods.
use mathlib.Core.Path.{◌≡◌}

-- `panicked` is a run-time panic (a nil pointer, an index out of range); `looping` says that the
-- fuel of an unbounded loop ran out.
pub data Outcome (E A : Type 0) : Type 0 where
  ok : A → Outcome E A
  err : E → Outcome E A
  panicked : Outcome E A
  looping : Outcome E A

pub ok-inj : {E A : Type 0} {a b : A} → ◌≡◌ {A = Outcome E A} (ok a) (ok b) → a ≡ b
ok-inj h = cc

-- A method of a service over the state S: the state that a failing call leaves is kept.
abbrev pub M : Type 0 → Type 0 → Type 0 → Type 0
M S E A = S → Outcome E A × S

module _ {S E A B : Type 0} where
  abbrev pub resume : (A → M S E B) → Outcome E A → S → Outcome E B × S
  resume f (ok a) s = f a s
  resume f (err e) s = (err e, s)
  resume f panicked s = (panicked, s)
  resume f looping s = (looping, s)

  infixl 5 ◌>>=◌
  abbrev pub ◌>>=◌ : M S E A → (A → M S E B) → M S E B
  ◌>>=◌ m f s = let r = m s in resume f r.0 r.1

module _ {S E B : Type 0} where
  infixl 5 ◌>>◌
  abbrev pub ◌>>◌ : M S E (Unit {0}) → M S E B → M S E B
  m >> k = m >>= λ _. k

module _ {S E A : Type 0} where
  abbrev pub pure : A → M S E A
  pure a s = (ok a, s)

  abbrev pub fail : E → M S E A
  fail e s = (err e, s)

  abbrev pub crash : M S E A
  crash s = (panicked, s)
