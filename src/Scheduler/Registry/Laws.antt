-- ===== src/Scheduler/Registry/Laws.antt =====
-- What the calls of services/scheduler/standard/service.go do to the map of jobs.
use text.Mathlib.Text.{◌==◌ as str_eq}
use text.Mathlib.TextEquality.{eq_iff}
use Prim.Native.String.{String}
use chaind.Common.{
  ℕ, suc, ◌<◌, ◌≡◌, ◌↔◌, ◌≢◌, Bool, true, false, ◌||◌, none, some, List, [], ◌∷◌, length,
  if◌then◌else◌, get_elem?, get_elem?-lt, All, arith, Option-cases, inl, inr, ◌⊎◌,
}
use chaind.Scheduler.Job.{Job, no_such_job}
use chaind.Scheduler.Registry.{
  Service, Reply, done, error, lookup, remove, is_some, schedule_job, with_job, job_exists,
}

pub lookup-remove :
    (k j : String) (m : List (String × ℕ))
    → lookup j (remove k m) ≡ (if str_eq k j then none else lookup j m)
unfolding lookup remove
lookup-remove k j [] = ground arith
lookup-remove k j ((i, v) ∷ m) =
    ground (arith, eq_iff k j, eq_iff i k, eq_iff i j, lookup-remove k j m)

-- The numbers in the map are those of jobs in the store.
abbrev pub IsWellFormed : Service → Type 0
IsWellFormed s = All (λ (e : String × ℕ). e.1 < length s.store) s.jobs

pub All-remove :
    (n : ℕ) (k : String) (m : List (String × ℕ))
    → All (λ (e : String × ℕ). e.1 < n) m
    → All (λ (e : String × ℕ). e.1 < n) (remove k m)
unfolding remove
All-remove n k [] h = h
All-remove n k ((i, v) ∷ m) h = ground (arith, All-remove n k m h.1)

lookup-lt :
    (n : ℕ) (k : String) (m : List (String × ℕ)) {id : ℕ}
    → All (λ (e : String × ℕ). e.1 < n) m
    → lookup k m ≡ some id
    → id < n
unfolding lookup
lookup-lt n k [] h e = cc
lookup-lt n k ((i, v) ∷ m) {id} h e = ground (arith, lookup-lt n k m {id = id} h.1)

All-weaken :
    (n : ℕ) (m : List (String × ℕ))
    → All (λ (e : String × ℕ). e.1 < n) m
    → All (λ (e : String × ℕ). e.1 < suc n) m
All-weaken n [] h = h
All-weaken n (e ∷ m) h = (omega (arith, h.0), All-weaken n m h.1)

-- A scheduled one-off job is taken exactly if it has a name and a function and the name is free;
-- then that name exists beside the earlier ones, and otherwise the service is as it was.
pub schedule_job_lem :
    (name : String) (job_func : Bool) (s : Service)
    → (((schedule_job name job_func s).0 ≡ done)
        ↔ ((name ≢ "") × (job_func ≡ true) × (job_exists name s ≡ false)))
      × ((schedule_job name job_func s).0 ≡ done
          → (j : String)
          → job_exists j (schedule_job name job_func s).1 ≡ (str_eq name j || job_exists j s))
      × ((schedule_job name job_func s).0 ≢ done → (schedule_job name job_func s).1 ≡ s)
unfolding schedule_job job_exists lookup
schedule_job_lem name job_func s = (
  (ground (arith, eq_iff name ""), ground (arith, eq_iff name "")),
  λ h j. ground (arith, eq_iff name j),
  λ h. ground arith,
)

pub is_some-lookup-remove :
    (k j : String) (m : List (String × ℕ))
    → is_some (lookup j (remove k m)) ≡ (if str_eq k j then false else is_some (lookup j m))
unfolding is_some
is_some-lookup-remove k j m = rw (lookup-remove k j m) (ground arith)

-- The two ways of a call that looks a job up: no such job, or one in the store.
pub with_job-cases :
    (f : ℕ → Service → Job → Reply × Service) (name : String) (s : Service)
    → IsWellFormed s
    → ((lookup name s.jobs ≡ none) × (with_job f (lookup name s.jobs) s ≡ (error no_such_job, s)))
      ⊎ ((id : ℕ) × (j : Job) × (lookup name s.jobs ≡ some id)
          × (get_elem? s.store id ≡ some j)
          × (with_job f (lookup name s.jobs) s ≡ f id s j))
unfolding with_job
with_job-cases f name s w = elim (Option-cases (lookup name s.jobs)) [
  | inl e ↦ inl (e, rw e)
  | inr (id, e) ↦
      let (j, g) = get_elem?-lt s.store id (lookup-lt (length s.store) name s.jobs w e) in
      inr (id, j, e, g, rw (e, with_job, g))
]
