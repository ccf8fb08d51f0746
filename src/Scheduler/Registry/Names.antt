-- ===== src/Scheduler/Registry/Names.antt =====
-- What becomes of a name in services/scheduler/standard/service.go when its job is run, or is
-- cancelled and scheduled once more while the goroutine of the first job lives on.
use text.Mathlib.Text.{◌==◌ as str_eq}
use text.Mathlib.TextEquality.{eq_iff}
use text.Mathlib.TextPositions.{eq_refl}
use Prim.Native.String.{String}
use chaind.Common.{
  ℕ, ◌≡◌, refl, ◌∙◌, ap, ◌≢◌, true, false, some, [], ◌∷◌, ◌++◌, length, if◌then◌else◌, get_elem?,
  get_elem?-last, arith, Option-cases, inl, inr,
}
use chaind.Scheduler.Job.{Job, new_job, no_such_job}
use chaind.Scheduler.Registry.{
  Service, Reply, done, error, lookup, is_some, schedule_job, run_found, with_job, run_job,
  job_exists, cancel_found, cancel_job, cancel_job_if_exists, forget,
}
use chaind.Scheduler.Registry.Laws.{IsWellFormed, is_some-lookup-remove, schedule_job_lem}
use chaind.Scheduler.Registry.Cancel.{cancel_job_if_exists-exists, cancel_job_if_exists-length}

run_found-exists :
    (name k : String) (id : ℕ) (s : Service) (j : Job)
    → is_some (lookup name s.jobs) ≡ true
    → is_some (lookup k (run_found name id s j).1.jobs)
      ≡ (if str_eq name k then j.periodic else is_some (lookup k s.jobs))
unfolding run_found
run_found-exists name k id s j h =
    ground (arith, is_some-lookup-remove name k s.jobs, eq_iff name k)

-- A call on a name that does not exist changes nothing and says so.
no_job :
    (f : ℕ → Service → Job → Reply × Service) (name : String) (s : Service)
    → job_exists name s ≡ false
    → with_job f (lookup name s.jobs) s ≡ (error no_such_job, s)
unfolding with_job job_exists
no_job f name s h = elim (Option-cases (lookup name s.jobs)) [
  | inl e ↦ rw e
  | inr (id, e) ↦ cc (rw e at h)
]

-- RunJob on an existing job leaves its name if the job is periodic and takes it away if it is
-- one-off, so that a second RunJob finds no job; the other names stay as they were.
pub run_job_lem :
    (name : String) (s : Service) (id : ℕ) (j : Job)
    → lookup name s.jobs ≡ some id
    → get_elem? s.store id ≡ some j
    → ((k : String)
        → job_exists k (run_job name s).1 ≡ (if str_eq name k then j.periodic else job_exists k s))
      × (j.periodic ≡ false → (run_job name (run_job name s).1).0 ≡ error no_such_job)
unfolding run_job job_exists
run_job_lem name s id j e g =
    let found : run_job name s ≡ run_found name id s j = rw (e, with_job, g) in
    let here : is_some (lookup name s.jobs) ≡ true = rw e in
    let names = λ (k : String). run_found-exists name k id s j here in
    (
      (λ k. rw found (names k)),
      λ one_off. rw found (
          ap (λ r. r.0)
            (no_job (run_found name) name (run_found name id s j).1
              (names name ∙ rw (eq_refl name) one_off))),
    )

free_name :
    (name : String) (s : Service)
    → name ≢ ""
    → job_exists name s ≡ false
    → schedule_job name true s ≡ (
      done,
      record { jobs = (name, length s.store) ∷ s.jobs; store = s.store ++ new_job false ∷ [] },
    )
unfolding schedule_job job_exists
free_name name s nonempty free = ground (arith, eq_iff name "")

here :
    (name : String) (s : Service)
    → name ≢ ""
    → job_exists name s ≡ false
    → job_exists name (schedule_job name true s).1 ≡ true
here name s nonempty free =
    let laws = schedule_job_lem name true s in
    laws.1 (laws.0.1 (nonempty, refl, free)) name ∙ rw (eq_refl name)

forget-exists : (name : String) (s : Service) → job_exists name (forget name s) ≡ false
unfolding forget job_exists
forget-exists name s = is_some-lookup-remove name name s.jobs ∙ rw (eq_refl name)

-- In a well-formed service, a job that is scheduled, with a name, after any job of that name was
-- cancelled is in the store and has the name; once the goroutine of the cancelled job has deleted
-- the name, RunJob and CancelJob find no job, though the new one is still in the store as it was
-- scheduled.
pub forget-rescheduled :
    (name : String) (s : Service)
    → name ≢ ""
    → IsWellFormed s
    → let s' = (schedule_job name true (cancel_job_if_exists name s).1).1 in
      (job_exists name s' ≡ true)
      × (get_elem? (forget name s').store (length s.store) ≡ some (new_job false))
      × ((run_job name (forget name s')).0 ≡ error no_such_job)
      × ((cancel_job name (forget name s')).0 ≡ error no_such_job)
unfolding forget run_job cancel_job
forget-rescheduled name s nonempty w =
    let cancelled = (cancel_job_if_exists name s).1 in
    let free : job_exists name cancelled ≡ false =
      cancel_job_if_exists-exists name name s w ∙ rw (eq_refl name) in
    let scheduled = free_name name cancelled nonempty free in
    let s' = (schedule_job name true cancelled).1 in
    let gone = forget-exists name s' in
    (
      here name cancelled nonempty free,
      rw (scheduled, ← cancel_job_if_exists-length name s w) (get_elem?-last cancelled.store _),
      ap (λ r. r.0) (no_job (run_found name) name (forget name s') gone),
      ap (λ r. r.0) (no_job (cancel_found name) name (forget name s') gone),
    )
