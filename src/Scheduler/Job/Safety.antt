-- ===== src/Scheduler/Job/Safety.antt =====
-- What the goroutine and the callers of services/scheduler/standard/service.go do to one another.
use chaind.Common.{◌≤◌, ◌≡◌, refl, subst, ◌∙◌, Bool, true, false, List, [], ◌∷◌, arith, ◌≢◌}
use chaind.Scheduler.Job.{
  Progress, moves, Phase, computing, selecting, finalising, exited, Job, new_job, waits, panics,
  proceed_from, runtime_from, select_from, Choice, timed, cancel, Action, proceed, runtime, select,
  call_run, call_send, call_cancel, step, after, run,
}
use chaind.Scheduler.Job.Invariant.{IsValid, new_job-IsValid, step-IsValid, run-IsValid}

proceed_from-ne : (p : Phase) (j : Job) → j.phase ≡ p → IsValid j → proceed_from p j ≢ panics
unfolding proceed_from
proceed_from-ne computing j e v = λ h. cc
proceed_from-ne _ j e v = λ h. ground arith

runtime_from-ne : (p : Phase) (b : Bool) (j : Job) → runtime_from p b j ≢ panics
unfolding runtime_from
runtime_from-ne computing true j = λ h. cc
runtime_from-ne computing false j = λ h. cc
runtime_from-ne _ b j = λ h. cc

select_from-ne : (p : Phase) (c : Choice) (j : Job) → select_from p c j ≢ panics
unfolding select_from
select_from-ne selecting c j = λ h. ground arith
select_from-ne _ c j = λ h. cc

step-ne-panics : (a : Action) (j : Job) → IsValid j → step a j ≢ panics
unfolding step
step-ne-panics proceed j v = proceed_from-ne j.phase j refl v
step-ne-panics (runtime b) j v = runtime_from-ne j.phase b j
step-ne-panics (select c) j v = select_from-ne j.phase c j
step-ne-panics call_run j v = λ h. ground arith
step-ne-panics call_send j v = λ h. ground arith
step-ne-panics call_cancel j v = λ h. ground arith

-- Whatever the goroutine and the callers of RunJob and CancelJob did to a job since it was made, no
-- next step of any of them panics: nothing is sent to a closed channel and none is closed twice.
pub run-no_panic :
    (periodic : Bool) (before : List Action) (a : Action)
    → step a (run (new_job periodic) before) ≢ panics
run-no_panic periodic before a =
    step-ne-panics a _ (run-IsValid _ before (new_job-IsValid periodic))

proceed_from-periodic : (p : Phase) (j : Job) → (after j (proceed_from p j)).periodic ≡ j.periodic
unfolding proceed_from
proceed_from-periodic computing j = refl
proceed_from-periodic _ j = ground arith

runtime_from-periodic :
    (p : Phase) (b : Bool) (j : Job) → (after j (runtime_from p b j)).periodic ≡ j.periodic
unfolding runtime_from
runtime_from-periodic computing true j = refl
runtime_from-periodic computing false j = refl
runtime_from-periodic _ b j = refl

select_from-periodic :
    (p : Phase) (c : Choice) (j : Job) → (after j (select_from p c j)).periodic ≡ j.periodic
unfolding select_from
select_from-periodic selecting c j = ground arith
select_from-periodic _ c j = refl

step-periodic : (a : Action) (j : Job) → (after j (step a j)).periodic ≡ j.periodic
unfolding step
step-periodic proceed j = proceed_from-periodic j.phase j
step-periodic (runtime b) j = runtime_from-periodic j.phase b j
step-periodic (select c) j = select_from-periodic j.phase c j
step-periodic call_run j = ground arith
step-periodic call_send j = ground arith
step-periodic call_cancel j = ground arith

run-periodic : (j : Job) (as' : List Action) → (run j as').periodic ≡ j.periodic
unfolding run
run-periodic j [] = refl
run-periodic j (a ∷ as') = run-periodic (after j (step a j)) as' ∙ step-periodic a j

-- In every interleaving the function of a one-off job is started at most once.
pub run-at_most_once : (before : List Action) → (run (new_job false) before).runs ≤ 1
unfolding new_job
run-at_most_once before =
    (run-IsValid _ before (new_job-IsValid false)).once (run-periodic _ before)

cancel-sending : (j j' : Job) → j.sending ≡ false → cancel j ≡ moves j' → j'.sending ≡ false
unfolding cancel
cancel-sending j j' free e = ground arith

cancel_room : (j : Job) → IsValid j → j.sending ≡ false → cancel j ≢ waits
unfolding cancel
cancel_room j v free = λ h. ground arith

-- A valid job that no RunJob holds is cancelled at once, and is still held by none.
pub cancel_free :
    (j : Job)
    → IsValid j
    → j.sending ≡ false
    → (j' : Job) × (step call_cancel j ≡ moves j') × IsValid j' × (j'.sending ≡ false)
unfolding step
cancel_free j v free = moved (cancel j) refl
  where
    moved :
        (p : Progress)
        → cancel j ≡ p
        → (j' : Job) × (cancel j ≡ moves j') × IsValid j' × (j'.sending ≡ false)
    moved (moves j') e = (
      j',
      e,
      subst (λ p. IsValid (after j p)) e (step-IsValid call_cancel j v),
      cancel-sending j j' free e,
    )
    moved waits e = absurd (cancel_room j v free e)
    moved panics e = absurd (step-ne-panics call_cancel j v e)

-- Whatever was done to a job since it was made, CancelJob does not wait for room in the channel:
-- where no RunJob holds the lock, it does not wait.
pub cancel-ne-waits :
    (periodic : Bool) (before : List Action)
    → (run (new_job periodic) before).sending ≡ false
    → step call_cancel (run (new_job periodic) before) ≢ waits
unfolding step
cancel-ne-waits periodic before free =
    cancel_room _ (run-IsValid _ before (new_job-IsValid periodic)) free

step_exited :
    (a : Action) (j : Job)
    → j.phase ≡ exited
    → ((after j (step a j)).phase ≡ exited) × ((after j (step a j)).runs ≡ j.runs)
unfolding step
step_exited proceed j e = rw (e, proceed_from) (refl, refl)
step_exited (runtime b) j e = rw (e, runtime_from) (refl, refl)
step_exited (select c) j e = rw (e, select_from) (refl, refl)
step_exited call_run j e = ground arith
step_exited call_send j e = ground arith
step_exited call_cancel j e = ground arith

run_exited : (j : Job) (later : List Action) → j.phase ≡ exited → (run j later).runs ≡ j.runs
unfolding run
run_exited j [] e = refl
run_exited j (a ∷ later) e =
    let (e', same) = step_exited a j e in run_exited (after j (step a j)) later e' ∙ same

timed_break :
    (j : Job)
    → j.periodic ≡ false
    → j.phase ≡ selecting
    → j.active ≡ true
    → ((after j (step (select timed) j)).phase ≡ exited)
      × ((after j (step (select timed) j)).runs ≡ j.runs)
unfolding step
timed_break j one_off here active = rw (here, select_from) (ground arith)

-- A one-off job that is active at its select, as after an accepted RunJob, is lost if its timer is
-- chosen: the goroutine exits, and no later step of anyone starts the function.
pub select-timed_lost :
    (j : Job) (later : List Action)
    → j.periodic ≡ false
    → j.phase ≡ selecting
    → j.active ≡ true
    → ((after j (step (select timed) j)).phase ≡ exited)
      × ((run (after j (step (select timed) j)) later).runs ≡ j.runs)
select-timed_lost j later one_off here active =
    let (e, same) = timed_break j one_off here active in
    (e, run_exited (after j (step (select timed) j)) later e ∙ same)

step_deadlocked :
    (a : Action) (j : Job)
    → j.phase ≡ finalising
    → j.sending ≡ true
    → j.run_ch ≡ 1
    → after j (step a j) ≡ j
unfolding step
step_deadlocked proceed j e s r = rw (e, proceed_from) (ground arith)
step_deadlocked (runtime b) j e s r = rw (e, runtime_from)
step_deadlocked (select c) j e s r = rw (e, select_from)
step_deadlocked call_run j e s r = ground arith
step_deadlocked call_send j e s r = ground arith
step_deadlocked call_cancel j e s r = ground arith

-- A goroutine that is about to finalise its job, while a RunJob holds the lock and the channel still
-- has a signal, is deadlocked with that caller: no later steps of anyone change anything.
pub run_deadlocked :
    (j : Job) (later : List Action)
    → j.phase ≡ finalising
    → j.sending ≡ true
    → j.run_ch ≡ 1
    → run j later ≡ j
unfolding run
run_deadlocked j [] e s r = refl
run_deadlocked j (a ∷ later) e s r = rw (step_deadlocked a j e s r) (run_deadlocked j later e s r)
