-- ===== src/Scheduler/Job/Invariant.antt =====
-- What holds of a job of services/scheduler/standard/service.go between two steps.
use chaind.Common.{◌≤◌, ◌≡◌, refl, Bool, true, false, List, [], ◌∷◌, arith}
use chaind.Scheduler.Job.{
  Phase, computing, selecting, finalising, running_signal, closing_signal, clearing_signal,
  running_timer, closing_timer, exited, Job, new_job, proceed_from, runtime_from, select_from,
  Choice, begin_run, send_run, cancel, Action, proceed, runtime, select, call_run, call_send,
  call_cancel, step, after, run,
}

-- The phases after finaliseJob, and those after the function of a one-off job was started.
abbrev pub is_closed : Phase → Bool
is_closed clearing_signal = true
is_closed exited = true
is_closed _ = false

abbrev pub is_begun : Phase → Bool
is_begun running_signal = true
is_begun closing_signal = true
is_begun clearing_signal = true
is_begun running_timer = true
is_begun closing_timer = true
is_begun exited = true
is_begun finalising = true
is_begun _ = false

pub record IsValid (j : Job) : Type 0 where
  pub closed_finalised : j.closed ≡ true → j.finalised ≡ true
  pub closed_phase : j.closed ≡ true → is_closed j.phase ≡ true
  pub one_cancel : j.cancel_ch ≤ 1
  pub no_cancel : j.finalised ≡ false → j.cancel_ch ≡ 0
  pub one_run : j.run_ch ≤ 1
  pub sending_open : j.sending ≡ true → j.closed ≡ false
  pub sending_active : j.sending ≡ true → j.finalised ≡ false
  pub begun : j.periodic ≡ false → is_begun j.phase ≡ false → j.runs ≡ 0
  pub once : j.periodic ≡ false → j.runs ≤ 1

pub new_job-IsValid : (b : Bool) → IsValid (new_job b)
unfolding new_job
new_job-IsValid b = ground arith

proceed-IsValid :
    (p : Phase) (j : Job) → j.phase ≡ p → IsValid j → IsValid (after j (proceed_from p j))
unfolding proceed_from
proceed-IsValid computing j e v = v
proceed-IsValid _ j e v = ground arith

select-IsValid :
    (p : Phase) (c : Choice) (j : Job)
    → j.phase ≡ p
    → IsValid j
    → IsValid (after j (select_from p c j))
unfolding select_from
select-IsValid selecting c j e v = ground arith
select-IsValid _ c j e v = v

runtime-IsValid :
    (p : Phase) (b : Bool) (j : Job)
    → j.phase ≡ p
    → IsValid j
    → IsValid (after j (runtime_from p b j))
unfolding runtime_from
runtime-IsValid computing true j e v = ground arith
runtime-IsValid computing false j e v = ground arith
runtime-IsValid _ b j e v = v

begin_run-IsValid : (j : Job) → IsValid j → IsValid (after j (begin_run j))
unfolding begin_run
begin_run-IsValid j v = ground arith

send_run-IsValid : (j : Job) → IsValid j → IsValid (after j (send_run j))
unfolding send_run
send_run-IsValid j v = ground arith

cancel-IsValid : (j : Job) → IsValid j → IsValid (after j (cancel j))
unfolding cancel
cancel-IsValid j v = ground arith

-- Every step keeps what is valid of a job, whoever makes it.
pub step-IsValid : (a : Action) (j : Job) → IsValid j → IsValid (after j (step a j))
unfolding step
step-IsValid proceed j v = proceed-IsValid j.phase j refl v
step-IsValid (runtime b) j v = runtime-IsValid j.phase b j refl v
step-IsValid (select c) j v = select-IsValid j.phase c j refl v
step-IsValid call_run j v = begin_run-IsValid j v
step-IsValid call_send j v = send_run-IsValid j v
step-IsValid call_cancel j v = cancel-IsValid j v

pub run-IsValid : (j : Job) (as' : List Action) → IsValid j → IsValid (run j as')
unfolding run
run-IsValid j [] v = v
run-IsValid j (a ∷ as') v = run-IsValid (after j (step a j)) as' (step-IsValid a j v)
