-- ===== src/ProposerDuties/Laws.antt =====
-- services/proposerduties/standard: what it does for an epoch.
use chaind.Common.{ℕ}
use chaind.Store.{Tables}
use chaind.Store.Transactions.{WritesAnswer, set_answer-Ends}
use chaind.Catchup.Progress.{IsLawful}
use chaind.ProposerDuties.{
  Metadata, Rows, Env, set_proposer_duty, update_proposer_duties_for_epoch, service,
}

-- The duties of an epoch, as the client gives them, are set in the rows.
abbrev pub Writes : Env → ℕ → Tables Rows Metadata → Tables Rows Metadata → Type 0
Writes env epoch = WritesAnswer env.fault set_proposer_duty (env.duties epoch)

pub service-IsLawful : (env : Env) → IsLawful (service env) (Writes env)
unfolding update_proposer_duties_for_epoch
service-IsLawful env = record {
  update_ends = λ epoch w. set_answer-Ends env.fault set_proposer_duty (env.duties epoch) w;
}
