-- ===== src/Catchup/Handler.antt =====
-- The handlers of services/proposerduties, services/beaconcommittees and services/synccommittees: from
-- the metadata that are stored into catching up.
use chaind.Common.{
  ℕ, suc, ◌≤◌, ◌<◌, ◌≡◌, refl, ◌⊎◌, inl, inr, true, false, ◌||◌, none, some, ok, Bool-cases, add64,
  two64,
}
use chaind.Store.{Tables, World, ignored, hold, get_metadata, query, statement}
use chaind.Catchup.{Service, catch_up_from_metadata}
use chaind.Catchup.Progress.{IsLawful, HasCaughtUp, catchup-HasCaughtUp}

module _ {R H : Type 0} where
  -- The metadata in the tables, or those to take where there are none.
  abbrev pub stored : H → Tables R H → H
  stored default db = elim db.metadata [ none ↦ default | some md ↦ md ]

  module _ (s : Service R H) (Writes : ℕ → Tables R H → Tables R H → Type 0)
      (laws : IsLawful s Writes) where
    -- What a handler comes to: it has not read the metadata, and nothing has changed; or the units
    -- from the one after the stored number on have been caught up with.
    abbrev pub HasHandledHead : H → (ℕ → ℕ) → World R H → World R H → Type 0
    HasHandledHead default now w v =
        (((s.fault w.calls || w.aborted) ≡ true)
          × (v.db ≡ w.db)
          × (v.held ≡ w.held)
          × (v.saved ≡ none))
        ⊎ HasCaughtUp s Writes laws now (add64 (s.latest (stored default w.db)) 1)
            (record w { calls = suc w.calls; held = stored default w.db }) v

    module _ (now : ℕ → ℕ) (last : ℕ) (bound : (j : ℕ) → now j ≤ last)
        (small : suc last < two64) where
      pub catch_up_from_metadata-HasHandledHead :
          (default : H) (w : World R H)
          → w.saved ≡ none
          → (v : World R H) × (catch_up_from_metadata s default (suc (suc last)) now w ≡ (ok tt, v))
            × HasHandledHead default now w v
      unfolding catch_up_from_metadata ignored hold get_metadata query statement
      catch_up_from_metadata-HasHandledHead default w e =
          elim (Bool-cases (s.fault w.calls || w.aborted)) [
            | inl a ↦ (
              record w { calls = suc w.calls; aborted = false },
              rw (a, e) refl,
              inl (a, refl, refl, e),
            )
            | inr a ↦
                let u = record w { calls = suc w.calls; held = stored default w.db } in
                let (v, run, done) = catchup-HasCaughtUp s Writes laws now last bound small u e in
                (v, rw (a, run) refl, inr done)
          ]
