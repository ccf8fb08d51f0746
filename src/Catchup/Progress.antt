-- ===== src/Catchup/Progress.antt =====
-- Catching up, against its abstract view: units that are done one after another, whole or not at all.
use chaind.Common.{
  ℕ, zero, suc, ◌+◌, ◌≤◌, ◌<◌, ◌≡◌, refl, sym, ap, subst, ◌∙◌, ◌⊎◌, inl, inr, none, some, Outcome,
  ok, err, panicked, looping, Ends, Post, then-Post, weaken-Post, Bool-cases, leb, add64, two64,
  arith, ◌>>◌,
}
use chaind.Store.{
  Tables, World, Act, Failure, hold, or_cancel, begin_tx, commit_tx, set_metadata, mutate,
}
use chaind.Store.Transactions.{
  IsWithin, IsRestored, Keeps, or_cancel-Ends, begin_tx-Ends, mutate-Ends, commit_tx-Ends,
}
use chaind.Catchup.{Service, update_unit, go_on, after_unit, catchup_from, catchup}

module _ {R H : Type 0} where
  -- The work of a service for a unit neither panics nor loops, leaves the transaction and the metadata
  -- alone, and where it succeeds writes what it should.
  pub record IsLawful (s : Service R H) (Writes : ℕ → Tables R H → Tables R H → Type 0)
      : Type 0 where
    pub update_ends :
        (n : ℕ) (w : World R H)
        → Ends (λ _ v. Writes n w.db v.db × Keeps w v) (λ e v. Keeps w v) (s.update n w)

  -- The tables once a unit is done, and its number is stored.
  abbrev pub with_metadata : H → Tables R H → Tables R H
  with_metadata h db = record db { metadata = some h }

  -- The abstract view: from a round and a unit up to another round and unit, each unit was not ahead
  -- of the clock as that round reads it, and its writes and its number are in the tables, in order
  -- and without a gap.
  pub data Done (s : Service R H) (Writes : ℕ → Tables R H → Tables R H → Type 0) (now : ℕ → ℕ)
      : ℕ → ℕ → ℕ → ℕ → H → Tables R H → Tables R H → Type 0 where
    none_done : {i n : ℕ} {h : H} {db : Tables R H} → Done s Writes now i n i n h db db
    one_done :
        {i n j k : ℕ} {h : H} {db db' db'' : Tables R H}
        → n ≤ now i
        → Writes n db db'
        → Done s Writes now
            (i + 1)
            (add64 n 1)
            j
            k
            (s.advance n h)
            (with_metadata (s.advance n h) db')
            db''
        → Done s Writes now i n j k h db db''

  module _ (s : Service R H) (Writes : ℕ → Tables R H → Tables R H → Type 0)
      (laws : IsLawful s Writes) where
    -- A unit is done, with its number, and the transaction is closed.
    abbrev pub IsDone : ℕ → World R H → World R H → Type 0
    IsDone n w v =
        (db : Tables R H) × Writes n w.db db
        × (v.db ≡ with_metadata (s.advance n w.held) db)
        × (v.saved ≡ none)
        × (v.held ≡ s.advance n w.held)

    -- A unit has left no trace in the tables; its number may be held in memory.
    abbrev pub IsUndone : ℕ → World R H → World R H → Type 0
    IsUndone n w v = IsRestored w.db v × ((v.held ≡ w.held) ⊎ (v.held ≡ s.advance n w.held))

    -- A unit has left no trace in the tables, but its number is held in memory.
    abbrev pub IsSkipped : ℕ → World R H → World R H → Type 0
    IsSkipped n w v = IsRestored w.db v × (v.held ≡ s.advance n w.held)

    -- The conditions between the calls for a unit.
    abbrev HasBegun : World R H → World R H → Type 0
    HasBegun w v = IsWithin w.db w.held v × (v.db ≡ w.db)

    abbrev HasWritten : ℕ → H → World R H → World R H → Type 0
    HasWritten n h w v = Writes n w.db v.db × IsWithin w.db h v

    abbrev HasStored : ℕ → H → World R H → World R H → Type 0
    HasStored n h w v =
        (db : Tables R H) × Writes n w.db db × (v.db ≡ with_metadata h db) × IsWithin w.db h v

    update-HasWritten :
        (n : ℕ) (w v : World R H)
        → HasBegun w v
        → Ends (λ _ u. HasWritten n w.held w u) (λ e u. IsUndone n w u) (or_cancel (s.update n) v)
    update-HasWritten n w v (within, same) =
        weaken-Post (λ _ u. HasWritten n w.held w u) (λ _ u. HasWritten n w.held w u)
          (λ e u. IsRestored w.db u × (u.held ≡ w.held)) (λ e u. IsUndone n w u) (λ u. ⊥)
          (or_cancel (s.update n) v)
          (or_cancel-Ends (λ _ u. HasWritten n w.held w u) w.db w.held (s.update n) v
            (weaken-Post (λ _ u. Writes n v.db u.db × Keeps v u) (λ _ u. HasWritten n w.held w u)
              (λ e u. Keeps v u) (λ e u. IsWithin w.db w.held u) (λ u. ⊥) (s.update n v)
              (laws.update_ends n v)
              (λ _ u p.
                (subst (λ d. Writes n d u.db) same p.0, (p.1.0 ∙ within.0, p.1.1 ∙ within.1)))
              (λ e u p. (p.0 ∙ within.0, p.1 ∙ within.1))))
          (λ _ u p. p) (λ e u p. (p.0, inl p.1))

    set_metadata-HasStored :
        (n : ℕ) (h : H) (w v : World R H)
        → h ≡ s.advance n w.held
        → HasWritten n h w v
        → Ends
            (λ _ u. HasStored n h w u)
            (λ e u. IsSkipped n w u)
            (or_cancel (set_metadata s.fault) v)
    unfolding set_metadata
    set_metadata-HasStored n h w v new (written, within) =
        let f = λ (db : Tables R H). record db { metadata = some v.held } in
        weaken-Post (λ _ u. HasStored n h w u) (λ _ u. HasStored n h w u)
          (λ e u. IsRestored w.db u × (u.held ≡ h)) (λ e u. IsSkipped n w u) (λ u. ⊥)
          (or_cancel (set_metadata s.fault) v)
          (or_cancel-Ends (λ _ u. HasStored n h w u) w.db h (set_metadata s.fault) v
            (weaken-Post (λ _ u. (u.db ≡ f v.db) × Keeps v u) (λ _ u. HasStored n h w u)
              (λ e u. Keeps v u) (λ e u. IsWithin w.db h u) (λ u. ⊥) (mutate s.fault f v)
              (mutate-Ends s.fault f v)
              (λ _ u p. (
                v.db,
                written,
                p.0 ∙ ap (λ x. with_metadata x v.db) within.1,
                (p.1.0 ∙ within.0, p.1.1 ∙ within.1),
              ))
              (λ e u p. (p.0 ∙ within.0, p.1 ∙ within.1))))
          (λ _ u p. p) (λ e u p. (p.0, p.1 ∙ new))

    commit_tx-IsDone :
        (n : ℕ) (w v : World R H)
        → HasStored n (s.advance n w.held) w v
        → Ends (λ _ u. IsDone n w u) (λ e u. IsSkipped n w u) (or_cancel (commit_tx s.fault) v)
    commit_tx-IsDone n w v (db, written, stored, within) =
        weaken-Post (λ _ u. (u.db ≡ v.db) × (u.saved ≡ none) × (u.held ≡ s.advance n w.held))
          (λ _ u. IsDone n w u) (λ e u. IsRestored w.db u × (u.held ≡ s.advance n w.held))
          (λ e u. IsSkipped n w u) (λ u. ⊥) (or_cancel (commit_tx s.fault) v)
          (commit_tx-Ends s.fault w.db (s.advance n w.held) v within)
          (λ _ u p. (db, written, p.0 ∙ stored, p.1, p.2)) (λ e u p. p)

    -- The work for a unit, from what its own writes come to.
    finish-Ends :
        (n : ℕ) (w : World R H) (bad : Failure → World R H → Type 0)
        → ((e : Failure) (v : World R H) → IsSkipped n w v → bad e v)
        → Ends (λ _ v. HasWritten n w.held w v) bad ((begin_tx s.fault >> or_cancel (s.update n)) w)
        → Ends (λ _ v. IsDone n w v) bad (update_unit s n w)
    unfolding update_unit hold
    finish-Ends n w bad skipped begun =
        let h = s.advance n w.held in
        then-Post (λ _ v. HasStored n h w v) (λ _ v. IsDone n w v) bad (λ v. ⊥) _ _
          (then-Post (λ _ v. HasWritten n h w v) (λ _ v. HasStored n h w v) bad (λ v. ⊥) _ _
            (then-Post (λ _ v. HasWritten n w.held w v) (λ _ v. HasWritten n h w v) bad (λ v. ⊥)
              (λ _. hold (s.advance n)) _ begun λ _ v p. (p.0, (p.1.0, ap (s.advance n) p.1.1)))
            λ _ v p.
              weaken-Post (λ _ u. HasStored n h w u) (λ _ u. HasStored n h w u)
                (λ e u. IsSkipped n w u) bad (λ u. ⊥) (or_cancel (set_metadata s.fault) v)
                (set_metadata-HasStored n h w v refl p) (λ _ u q. q) skipped)
          λ _ v p.
            weaken-Post (λ _ u. IsDone n w u) (λ _ u. IsDone n w u) (λ e u. IsSkipped n w u) bad
              (λ u. ⊥) (or_cancel (commit_tx s.fault) v) (commit_tx-IsDone n w v p) (λ _ u q. q)
              skipped

    begun-Ends :
        (n : ℕ) (w : World R H)
        → w.saved ≡ none
        → Ends
            (λ _ v. HasWritten n w.held w v)
            (λ e v. IsUndone n w v)
            ((begin_tx s.fault >> or_cancel (s.update n)) w)
    begun-Ends n w e =
        let bad = λ (e : Failure) (v : World R H). IsUndone n w v in
        then-Post (λ _ v. HasBegun w v) (λ _ v. HasWritten n w.held w v) bad (λ v. ⊥) _ _
          (weaken-Post (λ _ v. HasBegun w v) (λ _ v. HasBegun w v)
            (λ e v. IsRestored w.db v × (v.held ≡ w.held)) bad (λ v. ⊥) (begin_tx s.fault w)
            (begin_tx-Ends s.fault w e) (λ _ v p. p) (λ e v p. (p.0, inl p.1)))
          λ _ v p. update-HasWritten n w v p

    -- From outside any transaction, the work for a unit neither panics nor loops. It succeeds, and the
    -- unit's writes and its number are in the tables; or it fails, and the tables are as they were.
    pub update_unit-Ends :
        (n : ℕ) (w : World R H)
        → w.saved ≡ none
        → Ends (λ _ v. IsDone n w v) (λ e v. IsUndone n w v) (update_unit s n w)
    update_unit-Ends n w e =
        finish-Ends n w (λ e v. IsUndone n w v) (λ e v p. (p.0, inr p.1)) (begun-Ends n w e)

    -- Where the unit's own writes have succeeded, a failure leaves its number in memory.
    pub update_unit-IsSkipped :
        (n : ℕ) (w u : World R H)
        → w.saved ≡ none
        → (begin_tx s.fault >> or_cancel (s.update n)) w ≡ (ok tt, u)
        → Ends (λ _ v. IsDone n w v) (λ e v. IsSkipped n w v) (update_unit s n w)
    update_unit-IsSkipped n w u e run =
        let Written = λ (_ : Unit {0}) (v : World R H). HasWritten n w.held w v in
        let written : HasWritten n w.held w u = subst (Post Written _ _) run (begun-Ends n w e) in
        finish-Ends n w (λ e v. IsSkipped n w v) (λ e v p. p)
          (subst (Post Written _ _) (sym run) written)

    -- Where catching up ends: at a unit that is ahead of the clock as the round reads it, or at one
    -- that is not, and that has failed.
    pub data IsEnd (now : ℕ → ℕ) (j k : ℕ) (v : World R H) : Type 0 where
      behind : now j < k → IsEnd now j k v
      failed :
          (u : World R H) (e : Failure)
          → k ≤ now j
          → update_unit s k u ≡ (err e, v)
          → IsEnd now j k v

    abbrev HasCaughtUpFrom : (ℕ → ℕ) → ℕ → ℕ → World R H → World R H → Type 0
    HasCaughtUpFrom now i n w v =
        (j : ℕ) × (k : ℕ) × Done s Writes now i n j k w.held w.db v.db
        × (v.saved ≡ none)
        × IsEnd now j k v

    -- From the first reading of the clock on.
    abbrev pub HasCaughtUp : (ℕ → ℕ) → ℕ → World R H → World R H → Type 0
    HasCaughtUp now n w v = HasCaughtUpFrom now 0 n w v

    -- The rest of the loop, after the work for a unit that is not ahead of the clock.
    after_unit-HasCaughtUp :
        (now : ℕ → ℕ) (rest : Act R H (Unit {0})) (i n : ℕ) (w : World R H)
        (r : Outcome Failure (Unit {0}) × World R H)
        → n ≤ now i
        → ((u : World R H)
            → u.saved ≡ none
            → (v : World R H) × (rest u ≡ (ok tt, v)) × HasCaughtUpFrom now (i + 1) (add64 n 1) u v)
        → update_unit s n w ≡ r
        → Ends (λ _ v. IsDone n w v) (λ e v. IsUndone n w v) r
        → (v : World R H) × (after_unit s r rest ≡ (ok tt, v)) × HasCaughtUpFrom now i n w v
    unfolding after_unit go_on
    after_unit-HasCaughtUp now rest i n w (ok _, u) le next q (db, written, stored, closed, held) =
        let (v, run, (j, k, done, closed', end)) = next u closed in
        let done' : Done s Writes now (i + 1) (add64 n 1) j k (s.advance n w.held)
            (with_metadata (s.advance n w.held) db) v.db =
          subst (λ d. Done s Writes now (i + 1) (add64 n 1) j k (s.advance n w.held) d v.db) stored
            (subst (λ h. Done s Writes now (i + 1) (add64 n 1) j k h u.db v.db) held done) in
        (v, run, (j, k, one_done le written done', closed', end))
    after_unit-HasCaughtUp now rest i n w (err x, u) le next q (restored, held) = (
      u,
      refl,
      (
        i,
        n,
        subst (λ d. Done s Writes now i n i n w.held w.db d) (sym restored.0) none_done,
        restored.1,
        failed w x le q,
      ),
    )
    after_unit-HasCaughtUp now rest i n w (panicked, u) le next q p = absurd p
    after_unit-HasCaughtUp now rest i n w (looping, u) le next q p = absurd p

    module _ (now : ℕ → ℕ) (last : ℕ) (bound : (j : ℕ) → now j ≤ last)
        (small : suc last < two64) where
      catchup_from-HasCaughtUp :
          (fuel i n : ℕ) (w : World R H)
          → w.saved ≡ none
          → 0 < fuel
          → suc last < n + fuel
          → (v : World R H) × (catchup_from s fuel now i n w ≡ (ok tt, v))
            × HasCaughtUpFrom now i n w v
      unfolding catchup_from
      catchup_from-HasCaughtUp zero i n w e pos h = absurd (omega arith)
      catchup_from-HasCaughtUp (suc fuel) i n w e pos h = elim (Bool-cases (leb n (now i))) [
        | inr a ↦ (w, rw a, (i, n, none_done, e, behind (ground arith)))
        | inl a ↦
            let le : n ≤ now i = ground arith in
            let next : add64 n 1 ≡ suc n = omega (arith, bound i) in
            rw a (
              after_unit-HasCaughtUp now (catchup_from s fuel now (i + 1) (add64 n 1)) i n w
                (update_unit s n w) le
                (λ u e'.
                  catchup_from-HasCaughtUp fuel (i + 1) (add64 n 1) u e' (omega (arith, bound i))
                    (omega (arith, bound i)))
                refl (update_unit-Ends n w e))
      ]

      -- Where the clock stays up to a bound that is below 2^64 - 1, with fuel for each unit up to
      -- it, from outside any transaction, and where the work of the service for a unit neither
      -- panics nor loops, leaves the transaction and the metadata in memory alone, and writes what
      -- it should where it succeeds: catching up ends without a panic. The clock is read once
      -- before each unit. The units from the one after the number in the metadata on have then been
      -- done, in order and without a gap, none of them ahead of its own reading of the clock, each
      -- with all its writes and its number. The next unit is the first one that is ahead of its
      -- reading, or it is not ahead and fails; no transaction is left open.
      pub catchup-HasCaughtUp :
          (w : World R H)
          → w.saved ≡ none
          → (v : World R H) × (catchup s (suc (suc last)) now w ≡ (ok tt, v))
            × HasCaughtUp now (add64 (s.latest w.held) 1) w v
      unfolding catchup
      catchup-HasCaughtUp w e =
          catchup_from-HasCaughtUp (suc (suc last)) 0 (add64 (s.latest w.held) 1) w e (omega arith)
            (omega arith)
