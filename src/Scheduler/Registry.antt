-- ===== src/Scheduler/Registry.antt =====
-- The service of services/scheduler/standard/service.go: the map from names to jobs, and the calls
-- that a client makes, each from its first lock to its return. Jobs are numbered as they are made,
-- and stay in the store when their name is deleted.
pub mod Cancel
pub mod Laws
pub mod Names
use text.Mathlib.Text.{◌==◌ as str_eq, starts_with}
use Prim.Native.String.{String}
use chaind.Common.{
  ℕ, zero, suc, Bool, true, false, not, ◌&&◌, Option, none, some, List, [], ◌∷◌, ◌++◌, map, length,
  if◌then◌else◌, get_elem?, set,
}
use chaind.Scheduler.Job.{
  Job, new_job, Progress, moves, waits, panics, step, call_run, call_send, call_cancel, after,
  run_check, Refusal, granted, refused, SchedulerError, no_job_name, no_job_func, no_runtime_func,
  job_already_exists, no_such_job,
}

pub record Service : Type 0 where
  pub jobs : List (String × ℕ)
  pub store : List Job

-- How a call ends; a `blocked` call waits for a lock or for room in a channel, a `crashed` one panics.
pub data Reply : Type 0 where
  done : Reply
  error : SchedulerError → Reply
  blocked crashed : Reply

unfoldable pub lookup : String → List (String × ℕ) → Option ℕ
lookup k [] = none
lookup k ((j, v) ∷ m) = if str_eq j k then some v else lookup k m

-- `delete(s.jobs, name)`.
unfoldable pub remove : String → List (String × ℕ) → List (String × ℕ)
remove k [] = []
remove k ((j, v) ∷ m) = let rest = remove k m in if str_eq j k then rest else (j, v) ∷ rest

unfoldable pub is_some {ℓ} : {A : Type ℓ} → Option A → Bool
is_some none = false
is_some (some a) = true

unfoldable pub empty : Service
empty = record { jobs = []; store = [] }

add_job : Bool → String → Service → Reply × Service
add_job periodic name s = if is_some (lookup name s.jobs) then (error job_already_exists, s) else (
  done,
  record { jobs = (name, length s.store) ∷ s.jobs; store = s.store ++ new_job periodic ∷ [] },
)

-- Functions are passed as whether they are given.
unfoldable pub schedule_job : String → Bool → Service → Reply × Service
unfolding add_job is_some
schedule_job name job_func s =
    if str_eq name ""
    then (error no_job_name, s)
    else if not job_func
    then (error no_job_func, s)
    else add_job false name s

unfoldable pub schedule_periodic_job : String → Bool → Bool → Service → Reply × Service
unfolding add_job is_some
schedule_periodic_job name runtime_func job_func s =
    if str_eq name ""
    then (error no_job_name, s)
    else if not runtime_func
    then (error no_runtime_func, s)
    else if not job_func
    then (error no_job_func, s)
    else add_job true name s

reply_of : Job → Progress → Reply × Job
reply_of j (moves j') = (done, j')
reply_of j waits = (blocked, j)
reply_of j panics = (crashed, j)

-- The function runJob, with no step of another goroutine between its lock and its unlock.
run_locked : Job → Reply × Job
unfolding reply_of
run_locked j = if j.sending then (blocked, j) else elim (run_check j) [
  | refused e ↦ (error e, j)
  | granted ↦ let j' = after j (step call_run j) in reply_of j' (step call_send j')
]

update_job : Service → ℕ → Job → Service
update_job s id j = record s { store = set s.store id j }

unfoldable pub run_found : String → ℕ → Service → Job → Reply × Service
unfolding run_locked update_job
run_found name id s j =
    let s' = if j.periodic then s else record s { jobs = remove name s.jobs } in
    let (reply, j') = run_locked j in (reply, update_job s' id j')

-- A number that is not in the store belongs to no job of the program: nothing is done for it.
unfoldable pub with_job :
    (ℕ → Service → Job → Reply × Service) → Option ℕ → Service → Reply × Service
with_job f none s = (error no_such_job, s)
with_job f (some id) s = elim (get_elem? s.store id) [ none ↦ (blocked, s) | some j ↦ f id s j ]

unfoldable pub run_job : String → Service → Reply × Service
unfolding with_job run_found
run_job name s = with_job (run_found name) (lookup name s.jobs) s

unfoldable pub run_job_if_exists : String → Service → Service
unfolding run_job
run_job_if_exists name s = (run_job name s).1

unfoldable pub job_exists : String → Service → Bool
unfolding is_some
job_exists name s = is_some (lookup name s.jobs)

unfoldable pub list_jobs : Service → List String
list_jobs s = map (λ e. e.0) s.jobs

unfoldable pub cancel_found : String → ℕ → Service → Job → Reply × Service
unfolding update_job reply_of
cancel_found name id s j =
    let (reply, j') = reply_of j (step call_cancel j) in
    (reply, update_job (record s { jobs = remove name s.jobs }) id j')

unfoldable pub cancel_job : String → Service → Reply × Service
unfolding with_job cancel_found
cancel_job name s = with_job (cancel_found name) (lookup name s.jobs) s

-- An error is dropped; a call that waits or panics does not return.
drop_error : Reply → Reply
drop_error done = done
drop_error (error e) = done
drop_error blocked = blocked
drop_error crashed = crashed

unfoldable pub cancel_job_if_exists : String → Service → Reply × Service
unfolding cancel_job drop_error
cancel_job_if_exists name s = let r = cancel_job name s in (drop_error r.0, r.1)

-- The loop over the map, whose order is not fixed: that of the list here.
unfoldable pub matching : String → List (String × ℕ) → List String
matching prefix [] = []
matching prefix ((name, id) ∷ m) =
    let rest = matching prefix m in if starts_with name prefix then name ∷ rest else rest

-- The next name is cancelled once the call for the one before has returned.
after_cancel : (Service → Reply × Service) → Reply → Service → Reply × Service
after_cancel rest done s = rest s
after_cancel rest (error e) s = (error e, s)
after_cancel rest blocked s = (blocked, s)
after_cancel rest crashed s = (crashed, s)

unfoldable pub cancel_all : List String → Service → Reply × Service
unfolding cancel_job_if_exists after_cancel
cancel_all [] s = (done, s)
cancel_all (name ∷ names) s =
    let r = cancel_job_if_exists name s in after_cancel (cancel_all names) r.0 r.1

unfoldable pub cancel_jobs : String → Service → Reply × Service
unfolding cancel_all matching
cancel_jobs prefix s = cancel_all (matching prefix s.jobs) s

-- What the goroutine of a job does to the map when its context ends or its timer fires.
unfoldable pub forget : String → Service → Service
forget name s = record s { jobs = remove name s.jobs }
