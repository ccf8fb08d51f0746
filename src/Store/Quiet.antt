-- ===== src/Store/Quiet.antt =====
-- Writes in a transaction where no call of the database fails by itself.
use chaind.Common.{ℕ, suc, ◌≡◌, refl, ◌∙◌, inl, inr, Bool, false, Option, some, List, [], ◌∷◌, ok}
use chaind.Store.{Tables, World, set_each}
use chaind.Store.Transactions.{put_each, mutate-eq}
use chaind.Store.Inserts.{or_else, savepoint, roll_back, copy_or_set_each}
use chaind.Store.Runs.{copy_from-cases}

module _ {R H : Type 0} where
  -- In a transaction that was begun with some rows and has not failed, while some metadata are held.
  abbrev pub IsSound : Tables R H → H → World R H → Type 0
  IsSound b h w = (w.saved ≡ some b) × (w.aborted ≡ false) × (w.held ≡ h)

module _ {R H : Type 0} (fault : ℕ → Bool) (quiet : (n : ℕ) → fault n ≡ false) where
  pub set_each-ok :
      {A : Type 0} (put : A → R → R) (as' : List A) (b : Tables R H) (h : H) (w : World R H)
      → IsSound b h w
      → (v : World R H) × (set_each fault put as' w ≡ (ok tt, v))
        × IsSound b h v
        × (v.db ≡ record w.db { rows = put_each put as' w.db.rows })
  unfolding set_each
  set_each-ok put [] b h w (s, a, k) = (w, refl, (s, a, k), refl)
  set_each-ok put (x ∷ xs) b h w (s, a, k) =
      let f = λ (db : Tables R H). record db { rows = put x db.rows } in
      let (v, run, sound, rows) =
        set_each-ok put xs b h (record w { db = f w.db; calls = suc w.calls }) (s, a, k) in
      (v, rw (mutate-eq fault f b w (quiet w.calls) s a) run, sound, rows)

  -- A copy behind a savepoint and the writes after it go well, whatever rows are there.
  pub copy_or_set_each-ok :
      {A : Type 0} (insert : R → Option R) (put : A → R → R) (as' : List A) (b : Tables R H)
      (w : World R H)
      → w.saved ≡ some b
      → w.aborted ≡ false
      → (v : World R H) × (copy_or_set_each fault insert put as' w ≡ (ok tt, v))
  unfolding copy_or_set_each savepoint or_else roll_back
  copy_or_set_each-ok insert put as' b w s a =
      let w' = record w { calls = suc w.calls } in
      let begun = mutate-eq fault (λ (db : Tables R H). db) b w (quiet w.calls) s a in
      elim (copy_from-cases fault insert w') [
        | inl (rows, e, run) ↦ (
          record w' { db = record w.db { rows = rows }; calls = suc w'.calls },
          rw (begun, run) refl,
        )
        | inr (e, u, run, same, keeps, stuck) ↦
            let (v, done, sound, rows) =
              set_each-ok put as' b u.held (record u { aborted = false; calls = suc u.calls })
                (keeps.0 ∙ s, refl, refl) in
            (v, rw (begun, run, quiet u.calls) done)
      ]
