-- ===== src/Catchup/Lost.antt =====
-- What the number held in memory does to a catching up that follows one that has failed, in
-- services/proposerduties/standard/service.go.
use chaind.Common.{ℕ, suc, ◌≤◌, ◌<◌, ◌≡◌, ◌∙◌, ap, subst, none, ok, err, Post, ◌>>◌, add64, two64}
use chaind.Store.{Tables, World, Failure, begin_tx, or_cancel}
use chaind.Catchup.{Service, update_unit, catchup}
use chaind.Catchup.Progress.{
  IsLawful, HasCaughtUp, IsSkipped, update_unit-IsSkipped, catchup-HasCaughtUp,
}

module _ {R H : Type 0} (s : Service R H) (Writes : ℕ → Tables R H → Tables R H → Type 0)
    (laws : IsLawful s Writes) (now : ℕ → ℕ) (last : ℕ) (bound : (j : ℕ) → now j ≤ last)
    (small : suc last < two64) where
  -- From outside any transaction, where the clock stays up to a bound that is below 2^64 - 1, the
  -- work of the service is lawful (it neither panics nor loops, and leaves the transaction and the
  -- metadata in memory alone, and writes what it should where it succeeds), and the latest number
  -- of metadata advanced to a unit is that unit's: if a unit's own writes succeed but the work for
  -- it then fails, in storing its number or in the commit, then its writes are undone, and its
  -- number is nevertheless the latest one held in memory. Catching up again from what is held goes
  -- on with the unit after it, so that the failed one is left out.
  pub catchup-skips :
      (n : ℕ) (w u v : World R H) (e : Failure)
      → w.saved ≡ none
      → ((h : H) → s.latest (s.advance n h) ≡ n)
      → (begin_tx s.fault >> or_cancel (s.update n)) w ≡ (ok tt, u)
      → update_unit s n w ≡ (err e, v)
      → (v.db ≡ w.db)
        × (s.latest v.held ≡ n)
        × ((x : World R H) × (catchup s (suc (suc last)) now v ≡ (ok tt, x))
            × HasCaughtUp s Writes laws now (add64 n 1) v x)
  catchup-skips n w u v e closed named begun run =
      let (restored, held) : IsSkipped s Writes laws n w v =
        subst (Post _ _ (λ _. ⊥)) run (update_unit-IsSkipped s Writes laws n w u closed begun) in
      let number : s.latest v.held ≡ n = ap s.latest held ∙ named w.held in
      (
        restored.0,
        number,
        subst
            (λ k.
              (x : World R H) × (catchup s (suc (suc last)) now v ≡ (ok tt, x))
              × HasCaughtUp s Writes laws now (add64 k 1) v x)
            number (catchup-HasCaughtUp s Writes laws now last bound small v restored.1),
      )
