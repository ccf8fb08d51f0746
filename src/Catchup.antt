-- ===== src/Catchup.antt =====
-- The catching up that services/proposerduties, services/beaconcommittees, services/synccommittees and
-- services/blocks share: the units (epochs, periods or slots) from the last one in the metadata on,
-- each in a transaction of its own.
pub mod Handler
pub mod Lost
pub mod Progress
use chaind.Common.{
  ℕ, zero, suc, ◌+◌, Bool, Option, none, some, Outcome, ok, err, panicked, looping, M, pure, ◌>>=◌,
  ◌>>◌, if◌then◌else◌, leb, add64,
}
use chaind.Store.{
  Tables, World, Act, Failure, hold, or_cancel, ignored, begin_tx, commit_tx, get_metadata,
  set_metadata,
}

-- What the code of one service is to the shared code: the number that its metadata have, as the bit
-- pattern of an int64, and how it is changed; the work for one unit, in a transaction.
pub record Service (R H : Type 0) : Type 0 where
  pub fault : ℕ → Bool
  pub latest : H → ℕ
  pub advance : ℕ → H → H
  pub update : ℕ → Act R H (Unit {0})

module _ {R H : Type 0} (s : Service R H) where
  -- UpdateEpoch, UpdateSlot, or the body of the loop over periods.
  unfoldable pub update_unit : ℕ → Act R H (Unit {0})
  update_unit n =
      begin_tx s.fault
      >> or_cancel (s.update n)
      >> hold (s.advance n)
      >> or_cancel (set_metadata s.fault)
      >> or_cancel (commit_tx s.fault)

  -- An error is logged, and ends the loop.
  go_on :
      Outcome Failure (Unit {0})
      → World R H
      → Act R H (Unit {0})
      → Outcome Failure (Unit {0}) × World R H
  go_on (ok _) w next = next w
  go_on (err e) w next = (ok tt, w)
  go_on panicked w next = (panicked, w)
  go_on looping w next = (looping, w)

  after_unit :
      Outcome Failure (Unit {0}) × World R H
      → Act R H (Unit {0})
      → Outcome Failure (Unit {0}) × World R H
  unfolding go_on
  after_unit r next = go_on r.0 r.1 next

  -- `now i` is the reading of the clock in the i-th round.
  catchup_from : ℕ → (ℕ → ℕ) → ℕ → ℕ → Act R H (Unit {0})
  unfolding after_unit
  catchup_from zero now i n = λ w. (looping, w)
  catchup_from (suc fuel) now i n =
      let rest = catchup_from fuel now (i + 1) (add64 n 1) in
      λ w. if leb n (now i) then after_unit (update_unit n w) rest else (ok tt, w)

  unfoldable pub catchup : ℕ → (ℕ → ℕ) → Act R H (Unit {0})
  unfolding catchup_from
  catchup fuel now w = catchup_from fuel now 0 (add64 (s.latest w.held) 1) w

  -- The handlers' way into catching up, from the metadata that are stored, or the given ones.
  unfoldable pub catch_up_from_metadata : H → ℕ → (ℕ → ℕ) → Act R H (Unit {0})
  catch_up_from_metadata default fuel now w =
      let r = (get_metadata s.fault default >>= λ md. hold (λ _. md) >> catchup fuel now) w in
      ignored r.0 r.1
