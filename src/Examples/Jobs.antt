-- ===== src/Examples/Jobs.antt =====
-- services/scheduler/standard/service.go: interleavings of one job, and calls on named jobs.
use text.Mathlib.Text.{◌==◌ as str_eq, starts_with}
use chaind.Common.{
  ◌⊎◌, ◌≤◌, ◌≡◌, refl, ◌↔◌, ◌≢◌, Bool, true, false, not, ◌&&◌, ◌||◌, List, [], ◌∷◌, some, arith,
  get_elem?, if◌then◌else◌,
}
use Prim.Native.String.{String}
use chaind.Scheduler.Job.{
  Job, selecting, exited, new_job, proceed, runtime, select, timed, call_run, call_send,
  call_cancel, Action, step, after, run, panics, waits, no_such_job,
}
use chaind.Scheduler.Job.Safety.{
  run-no_panic, run-at_most_once, cancel-ne-waits, select-timed_lost, run_deadlocked,
}
use chaind.Scheduler.Registry.{
  Service, empty, done, error, schedule_job, run_job, job_exists, cancel_job, cancel_job_if_exists,
  cancel_jobs, forget, lookup, matching,
}
use chaind.Scheduler.Registry.Laws.{schedule_job_lem}
use chaind.Scheduler.Registry.Cancel.{IsFree, Stops, cancel_jobs-exists}
use chaind.Scheduler.Registry.Names.{run_job_lem, forget-rescheduled}

-- The timer fires and the job runs; a cancel comes in between.
abbrev timer_then_cancel : List Action
timer_then_cancel = select timed ∷ proceed ∷ call_cancel ∷ proceed ∷ proceed ∷ []

run-no_panic_example : step proceed (run (new_job false) timer_then_cancel) ≢ panics
run-no_panic_example = run-no_panic false timer_then_cancel proceed

run-at_most_once_example : (run (new_job false) timer_then_cancel).runs ≤ 1
run-at_most_once_example = run-at_most_once timer_then_cancel

cancel-ne-waits_example : step call_cancel (run (new_job false) (select timed ∷ [])) ≢ waits
cancel-ne-waits_example =
    cancel-ne-waits false (select timed ∷ []) (unfold run step new_job in refl)

-- RunJob was accepted, and its signal is in the channel when the timer fires.
abbrev accepted : Job
accepted = record {
  periodic = false;
  active = true;
  finalised = false;
  closed = false;
  cancel_ch = 0;
  run_ch = 1;
  sending = false;
  phase = selecting;
  runs = 0;
}

accepted_reached : run (new_job false) (call_run ∷ call_send ∷ []) ≡ accepted
unfolding run step new_job
accepted_reached = refl

select-timed_lost_example :
    ((after accepted (step (select timed) accepted)).phase ≡ exited)
    × ((run (after accepted (step (select timed) accepted)) (proceed ∷ call_run ∷ [])).runs ≡ 0)
select-timed_lost_example = select-timed_lost accepted (proceed ∷ call_run ∷ []) refl refl refl

-- A RunJob between the timer's test and its store, one more after the run, and no more instances.
abbrev two_runs : List Action
two_runs =
    runtime true
    ∷ select timed
    ∷ call_run
    ∷ call_send
    ∷ proceed
    ∷ proceed
    ∷ call_run
    ∷ runtime false
    ∷ proceed
    ∷ []

run_deadlocked_example :
    run (run (new_job true) two_runs) (proceed ∷ call_send ∷ []) ≡ run (new_job true) two_runs
unfolding run step new_job
run_deadlocked_example =
    run_deadlocked (run (new_job true) two_runs) (proceed ∷ call_send ∷ []) refl refl refl

abbrev one_job : Service
one_job = record { jobs = ("check", 0) ∷ []; store = new_job false ∷ [] }

one_job_made : (schedule_job "check" true empty).1 ≡ one_job
unfolding schedule_job empty lookup new_job
one_job_made = refl

schedule_job_example :
    (((schedule_job "other" true one_job).0 ≡ done) ↔ (
      (◌≢◌ {A = String} "other" "")
      × (◌≡◌ {A = Bool} true true)
      × (job_exists "other" one_job ≡ false)))
    × ((schedule_job "other" true one_job).0 ≡ done
        → (j : String)
        → job_exists j (schedule_job "other" true one_job).1
          ≡ (str_eq "other" j || job_exists j one_job))
    × ((schedule_job "other" true one_job).0 ≢ done
        → (schedule_job "other" true one_job).1 ≡ one_job)
schedule_job_example = schedule_job_lem "other" true one_job

cancel_jobs-exists_example :
    (IsFree one_job → (cancel_jobs "ch" one_job).0 ≡ done)
    × ((((cancel_jobs "ch" one_job).0 ≡ done)
          × ((j : String)
              → job_exists j (cancel_jobs "ch" one_job).1
                ≡ (job_exists j one_job && not (starts_with j "ch"))))
        ⊎ Stops (matching "ch" one_job.jobs) one_job (cancel_jobs "ch" one_job))
cancel_jobs-exists_example = cancel_jobs-exists "ch" one_job (omega arith, tt)

run_job_example :
    ((k : String)
      → job_exists k (run_job "check" one_job).1
        ≡ (if str_eq "check" k then false else job_exists k one_job))
    × (◌≡◌ {A = Bool} false false
        → (run_job "check" (run_job "check" one_job).1).0 ≡ error no_such_job)
unfolding lookup new_job
run_job_example = run_job_lem "check" one_job 0 (new_job false) refl refl

forget-rescheduled_example :
    let s' = (schedule_job "check" true (cancel_job_if_exists "check" one_job).1).1 in
    (job_exists "check" s' ≡ true)
    × (get_elem? (forget "check" s').store 1 ≡ some (new_job false))
    × ((run_job "check" (forget "check" s')).0 ≡ error no_such_job)
    × ((cancel_job "check" (forget "check" s')).0 ≡ error no_such_job)
forget-rescheduled_example = forget-rescheduled "check" one_job (λ h. cc) (omega arith, tt)
