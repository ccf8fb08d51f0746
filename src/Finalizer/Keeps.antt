-- ===== src/Finalizer/Keeps.antt =====
-- Actions of services/finalizer/standard/handler.go that neither begin nor end a transaction, and
-- notify nobody.
use chaind.Common.{
  List, ℕ, ◌≡◌, refl, ◌∙◌, Bool, true, false, Option, none, some, Outcome, ok, err, panicked,
  looping, resume, ◌>>=◌, arith, if◌then◌else◌,
}
use chaind.ChainDb
use chaind.ChainDb.{Db, Block, Attestation, Metadata}
use chaind.Finalizer.{
  Env, World, Act, FinalizerError, statement, query, mutate, row, block_by_root, get_metadata,
  set_metadata, set_block,
}

abbrev pub kept : World → Option Db × List ℕ
kept w = (w.saved, w.notified)

abbrev pub Keeps : {A : Type 0} → Act A → Type 0
Keeps m = (w : World) → kept (m w).1 ≡ kept w

resume-Keeps :
    {A B : Type 0} (f : A → Act B) (o : Outcome FinalizerError A) (w : World)
    → ((a : A) → Keeps (f a))
    → kept (resume f o w).1 ≡ kept w
resume-Keeps f (ok a) w k = k a w
resume-Keeps f (err e) w k = refl
resume-Keeps f panicked w k = refl
resume-Keeps f looping w k = refl

pub bind-Keeps :
    {A B : Type 0} (m : Act A) (f : A → Act B) → Keeps m → ((a : A) → Keeps (f a)) → Keeps (m >>= f)
bind-Keeps m f k l w = resume-Keeps f (m w).0 (m w).1 l ∙ k w

pub if-Keeps :
    {A : Type 0} (b : Bool) (m n : Act A) → Keeps m → Keeps n → Keeps (if b then m else n)
if-Keeps true m n k l = k
if-Keeps false m n k l = l

module _ (env : Env) where
  pub statement-Keeps : {A : Type 0} (f : Db → A × Db) → Keeps (statement env f)
  unfolding statement
  statement-Keeps f w = ground arith

  pub query-Keeps : {A : Type 0} (f : Db → A) → Keeps (query env f)
  unfolding query
  query-Keeps f w = ground arith

  pub mutate-Keeps : (f : Db → Db) → Keeps (mutate env f)
  unfolding mutate
  mutate-Keeps f w = ground arith

  row-Keeps : {A : Type 0} (o : Option A) → Keeps (row o)
  unfolding row
  row-Keeps none w = refl
  row-Keeps (some a) w = refl

  pub block_by_root-Keeps : (root : ℕ) → Keeps (block_by_root env root)
  unfolding block_by_root
  block_by_root-Keeps root =
      bind-Keeps (query env (ChainDb.block_by_root root)) row (query-Keeps _) row-Keeps

  pub get_metadata-Keeps : Keeps (get_metadata env)
  unfolding get_metadata
  get_metadata-Keeps = query-Keeps _

  pub set_metadata-Keeps : (md : Metadata) → Keeps (set_metadata env md)
  unfolding set_metadata
  set_metadata-Keeps md = mutate-Keeps _

  pub set_block-Keeps : (b : Block) → Keeps (set_block env b)
  unfolding set_block
  set_block-Keeps b = mutate-Keeps _
