-- ===== src/Scheduler/Job.antt =====
-- One job of services/scheduler/standard/service.go: its flags and channels, its goroutine, and the
-- critical sections of RunJob and CancelJob. A step is what happens between two points at which
-- another goroutine can be seen: a choice of select, a lock, an atomic access.
pub mod Invariant
pub mod Safety
use chaind.Common.{ℕ, zero, suc, ◌+◌, ◌-◌, Bool, true, false, List, [], ◌∷◌, ◌==◌, if◌then◌else◌}

-- Where the goroutine of a job stands.
pub data Phase : Type 0 where
  -- before runtimeFunc (periodic jobs), and at the select
  computing selecting : Phase
  -- about to delete the name, and about to call finaliseJob
  removing finalising : Phase
  -- the function runs on a signal; then finaliseJob, then `active` is cleared (one-off jobs)
  running_signal closing_signal clearing_signal : Phase
  -- the timer fired and `active` was read as false; then the name is deleted (one-off jobs)
  checked starting : Phase
  -- the function runs on the timer; then finaliseJob (one-off jobs)
  running_timer closing_timer : Phase
  exited : Phase

-- `cancel_ch` and `run_ch` count what the two channels of capacity 1 hold; they are closed together.
-- `sending` says that a RunJob holds the state lock and has not yet put its signal into the channel.
-- `runs` counts the starts of the job's function.
pub record Job : Type 0 where
  pub periodic : Bool
  pub active : Bool
  pub finalised : Bool
  pub closed : Bool
  pub cancel_ch : ℕ
  pub run_ch : ℕ
  pub sending : Bool
  pub phase : Phase
  pub runs : ℕ

unfoldable pub new_job : Bool → Job
new_job periodic = record {
  periodic = periodic;
  active = false;
  finalised = false;
  closed = false;
  cancel_ch = 0;
  run_ch = 0;
  sending = false;
  phase = if periodic then computing else selecting;
  runs = 0;
}

-- A step moves the job, waits (for a lock, a channel, or because it is not the goroutine's turn), or panics.
pub data Progress : Type 0 where
  moves : Job → Progress
  waits : Progress
  panics : Progress

-- finaliseJob: takes the state lock, marks the job and closes both channels; closing a closed
-- channel panics. `j'` is where the goroutine goes on.
finalise_job : Job → Phase → Progress
finalise_job j phase =
    if j.sending
    then waits
    else if j.closed
    then panics
    else moves (record j { finalised = true; closed = true; phase = phase })

start : Job → Job
start j = record j { active = true; phase = running_timer; runs = suc j.runs }

-- What the goroutine does when it is not at a select or in runtimeFunc.
proceed_from : Phase → Job → Progress
unfolding finalise_job start
proceed_from computing j = waits
proceed_from selecting j = waits
proceed_from removing j = moves (record j { phase = finalising })
proceed_from finalising j = finalise_job j exited
proceed_from running_signal j =
    if j.periodic
    then moves (record j { active = false; phase = computing })
    else moves (record j { phase = closing_signal })
proceed_from closing_signal j = finalise_job j clearing_signal
proceed_from clearing_signal j = moves (record j { active = false; phase = exited })
proceed_from checked j =
    if j.periodic then moves (start j) else moves (record j { phase = starting })
proceed_from starting j = moves (start j)
proceed_from running_timer j =
    if j.periodic
    then moves (record j { active = false; phase = computing })
    else moves (record j { active = false; phase = closing_timer })
proceed_from closing_timer j = finalise_job j exited
proceed_from exited j = waits

-- The answers of runtimeFunc: a time, or an error of either kind.
runtime_from : Phase → Bool → Job → Progress
runtime_from computing true j = moves (record j { phase = selecting })
runtime_from computing false j = moves (record j { phase = removing })
runtime_from _ _ j = waits

pub data Choice : Type 0 where
  context_done cancelled signalled timed : Choice

-- The select, with the choice that it makes among the ready cases.
select_from : Phase → Choice → Job → Progress
select_from selecting context_done j = moves (record j { phase = removing })
select_from selecting cancelled j =
    if j.cancel_ch == 0
    then waits
    else moves (record j { cancel_ch = j.cancel_ch - 1; phase = finalising })
select_from selecting signalled j =
    if j.run_ch == 0
    then waits
    else moves (record j { run_ch = j.run_ch - 1; phase = running_signal; runs = suc j.runs })
select_from selecting timed j =
    if j.active
    then moves (record j { phase = if j.periodic then computing else exited })
    else moves (record j { phase = checked })
select_from _ _ j = waits

pub data SchedulerError : Type 0 where
  no_job_name no_job_func no_runtime_func job_already_exists no_such_job : SchedulerError
  job_running job_finalised : SchedulerError

-- How the locked part of runJob ends: with an error, or on its way to the send.
pub data Refusal : Type 0 where
  granted : Refusal
  refused : SchedulerError → Refusal

unfoldable pub run_check : Job → Refusal
run_check j =
    if j.active then refused job_running else if j.finalised then refused job_finalised else granted

-- runJob up to the send; with the lock taken by another caller it waits.
begin_run : Job → Progress
unfolding run_check
begin_run j = if j.sending then waits else elim (run_check j) [
  | granted ↦ moves (record j { active = true; sending = true })
  | refused e ↦ moves j
]

-- `job.runCh <- struct{}{}`, and the unlock.
send_run : Job → Progress
send_run j =
    if j.sending
    then (if j.closed
        then panics
        else if j.run_ch == 0
        then moves (record j { run_ch = 1; sending = false })
        else waits)
    else waits

-- The locked part of CancelJob. The send is to a channel of capacity 1.
cancel : Job → Progress
cancel j =
    if j.sending
    then waits
    else if j.finalised
    then moves j
    else if j.closed
    then panics
    else if j.cancel_ch == 0
    then moves (record j { finalised = true; cancel_ch = 1 })
    else waits

pub data Action : Type 0 where
  proceed : Action
  runtime : Bool → Action
  select : Choice → Action
  call_run call_send call_cancel : Action

unfoldable pub step : Action → Job → Progress
unfolding proceed_from runtime_from select_from begin_run send_run cancel
step proceed j = proceed_from j.phase j
step (runtime b) j = runtime_from j.phase b j
step (select c) j = select_from j.phase c j
step call_run j = begin_run j
step call_send j = send_run j
step call_cancel j = cancel j

-- A step that waits leaves the job as it is; so does, here, one that panics.
abbrev pub after : Job → Progress → Job
after j (moves j') = j'
after j waits = j
after j panics = j

-- Any interleaving of the goroutine's steps and the callers'.
unfoldable pub run : Job → List Action → Job
run j [] = j
run j (a ∷ as') = run (after j (step a j)) as'
