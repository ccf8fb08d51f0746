-- ===== src/Scheduler/Registry/Cancel.antt =====
-- What CancelJob, CancelJobIfExists and CancelJobs of services/scheduler/standard/service.go do to the
-- map of jobs, and when they return.
use text.Mathlib.Text.{◌==◌ as str_eq, starts_with}
use text.Mathlib.TextEquality.{eq_iff}
use text.Mathlib.TextPositions.{eq_refl}
use Prim.Native.String.{String}
use chaind.Common.{
  ℕ, zero, suc, ◌≡◌, refl, sym, subst, ◌∙◌, ap, Bool, false, not, ◌&&◌, ◌||◌, none, some, List, [],
  ◌∷◌, ◌++◌, length, if◌then◌else◌, get_elem?, set, length-set, All, some-inj, arith, Bool-cases,
  inl, inr, ◌⊎◌,
}
use chaind.Scheduler.Job.{Job}
use chaind.Scheduler.Job.Invariant.{IsValid}
use chaind.Scheduler.Job.Safety.{cancel_free}
use chaind.Scheduler.Registry.{
  Service, Reply, done, error, blocked, crashed, after_cancel, lookup, remove, is_some, job_exists,
  cancel_found, cancel_job, cancel_job_if_exists, matching, cancel_all, cancel_jobs,
}
use chaind.Scheduler.Registry.Laws.{IsWellFormed, All-remove, is_some-lookup-remove, with_job-cases}

cancel_found-jobs :
    (name : String) (id : ℕ) (s : Service) (j : Job)
    → (cancel_found name id s j).1.jobs ≡ remove name s.jobs
unfolding cancel_found
cancel_found-jobs name id s j = ground arith

cancel_found-length :
    (name : String) (id : ℕ) (s : Service) (j : Job)
    → length (cancel_found name id s j).1.store ≡ length s.store
unfolding cancel_found
cancel_found-length name id s j = length-set s.store id _

pub cancel_job_if_exists-exists :
    (name j : String) (s : Service)
    → IsWellFormed s
    → job_exists j (cancel_job_if_exists name s).1
      ≡ (if str_eq name j then false else job_exists j s)
unfolding cancel_job_if_exists job_exists cancel_job
cancel_job_if_exists-exists name j s w = elim (with_job-cases (cancel_found name) name s w) [
  | inl (e, r) ↦ rw r (missing e)
  | inr (id, job, e, g, r) ↦
      rw (r, cancel_found-jobs name id s job) (is_some-lookup-remove name j s.jobs)
]
  where
    missing :
        lookup name s.jobs ≡ none
        → is_some (lookup j s.jobs) ≡ (if str_eq name j then false else is_some (lookup j s.jobs))
    missing e = ground (arith, eq_iff name j)

pub cancel_job_if_exists-IsWellFormed :
    (name : String) (s : Service) → IsWellFormed s → IsWellFormed (cancel_job_if_exists name s).1
unfolding cancel_job_if_exists cancel_job
cancel_job_if_exists-IsWellFormed name s w = elim (with_job-cases (cancel_found name) name s w) [
  | inl (e, r) ↦ rw r w
  | inr (id, job, e, g, r) ↦
      rw (r, cancel_found-jobs name id s job, cancel_found-length name id s job)
        (All-remove (length s.store) name s.jobs w)
]

pub cancel_job_if_exists-length :
    (name : String) (s : Service)
    → IsWellFormed s
    → length (cancel_job_if_exists name s).1.store ≡ length s.store
unfolding cancel_job_if_exists cancel_job
cancel_job_if_exists-length name s w = elim (with_job-cases (cancel_found name) name s w) [
  | inl (e, r) ↦ rw r
  | inr (id, job, e, g, r) ↦ rw r (cancel_found-length name id s job)
]

-- A call that does not return.
abbrev pub IsStuck : Reply → Type 0
IsStuck reply = (reply ≡ blocked) ⊎ (reply ≡ crashed)

-- CancelJobIfExists returns, or else it is stuck as CancelJob is.
cancel_job_if_exists-cases :
    (name : String) (s : Service)
    → ((cancel_job_if_exists name s).0 ≡ done)
      ⊎ (IsStuck (cancel_job_if_exists name s).0
          × (cancel_job name s ≡ cancel_job_if_exists name s))
unfolding cancel_job_if_exists
cancel_job_if_exists-cases name s = reply_of (cancel_job name s) refl
  where
    reply_of :
        (r : Reply × Service)
        → cancel_job name s ≡ r
        → ((cancel_job_if_exists name s).0 ≡ done)
          ⊎ (IsStuck (cancel_job_if_exists name s).0
              × (cancel_job name s ≡ cancel_job_if_exists name s))
    reply_of (done, u) e = inl (rw e refl)
    reply_of (error x, u) e = inl (rw e refl)
    reply_of (blocked, u) e = inr (rw e (inl refl, refl))
    reply_of (crashed, u) e = inr (rw e (inr refl, refl))

abbrev pub mem : String → List String → Bool
mem k [] = false
mem k (x ∷ xs) = str_eq x k || mem k xs

-- The calls for a list of names end at one that does not return: those before it have returned,
-- those after it are not made, and the names that are gone are the ones up to it.
abbrev pub Stops : List String → Service → Reply × Service → Type 0
Stops names s r =
    (before : List String) × (stuck : String) × (later : List String) × (u : Service) × (names
      ≡ before ++ stuck ∷ later)
    × (cancel_all before s ≡ (done, u))
    × (cancel_job stuck u ≡ r)
    × IsStuck r.0
    × ((j : String)
        → job_exists j r.1 ≡ (if mem j before || str_eq stuck j then false else job_exists j s))

-- The calls for a list of names all return, and the names are gone.
abbrev Returns : List String → Service → Reply × Service → Type 0
Returns names s r =
    (r.0 ≡ done)
    × ((j : String) → job_exists j r.1 ≡ (if mem j names then false else job_exists j s))

cancel_all-cons :
    (name : String) (names : List String) (s u : Service)
    → cancel_job_if_exists name s ≡ (done, u)
    → cancel_all (name ∷ names) s ≡ cancel_all names u
unfolding cancel_all after_cancel
cancel_all-cons name names s u e = ap (λ r. after_cancel (cancel_all names) r.0 r.1) e

cancel_all-stuck :
    (name : String) (names : List String) (s : Service)
    → IsStuck (cancel_job_if_exists name s).0
    → cancel_all (name ∷ names) s ≡ cancel_job_if_exists name s
unfolding cancel_all after_cancel
cancel_all-stuck name names s (inl e) =
    let u = (cancel_job_if_exists name s).1 in
    ap (λ x. after_cancel (cancel_all names) x u) e ∙ ap (λ x. (x, u)) (sym e)
cancel_all-stuck name names s (inr e) =
    let u = (cancel_job_if_exists name s).1 in
    ap (λ x. after_cancel (cancel_all names) x u) e ∙ ap (λ x. (x, u)) (sym e)

cancel_all-cases :
    (names : List String) (s : Service)
    → IsWellFormed s
    → Returns names s (cancel_all names s) ⊎ Stops names s (cancel_all names s)
unfolding cancel_all
cancel_all-cases [] s w = inl (refl, λ j. refl)
cancel_all-cases (name ∷ names) s w =
    let u = (cancel_job_if_exists name s).1 in
    let gone = λ (j : String). cancel_job_if_exists-exists name j s w in
    elim (cancel_job_if_exists-cases name s) [
      | inr (stuck, same) ↦ inr (
        [],
        name,
        names,
        s,
        refl,
        refl,
        same ∙ sym (cancel_all-stuck name names s stuck),
        subst (λ r. IsStuck r.0) (sym (cancel_all-stuck name names s stuck)) stuck,
        λ j. ap (λ r. job_exists j r.1) (cancel_all-stuck name names s stuck) ∙ gone j,
      )
      | inl e ↦
          let first : cancel_job_if_exists name s ≡ (done, u) = ap (λ x. (x, u)) e in
          let rest = cancel_all-cons name names s u first in
          elim (cancel_all-cases names u (cancel_job_if_exists-IsWellFormed name s w)) [
            | inl (ended, names') ↦ inl (
              ap (λ r. r.0) rest ∙ ended,
              λ j. ap (λ r. job_exists j r.1) rest ∙ names' j ∙ rw (gone j) (ground arith),
            )
            | inr (before, stuck, later, x, es, run, same, at, names') ↦ inr (
              name ∷ before,
              stuck,
              later,
              x,
              ap (λ l. name ∷ l) es,
              cancel_all-cons name before s u first ∙ run,
              same ∙ sym rest,
              subst (λ r. IsStuck r.0) (sym rest) at,
              λ j. ap (λ r. job_exists j r.1) rest ∙ names' j ∙ rw (gone j) (ground arith),
            )
          ]
    ]

-- Every job in the store is in a state that its steps can reach, and no RunJob holds it.
abbrev pub IsFree : Service → Type 0
IsFree s = All (λ (j : Job). IsValid j × (j.sending ≡ false)) s.store

All-get_elem? :
    (P : Job → Type 0) (js : List Job) (i : ℕ) (j : Job) → All P js → get_elem? js i ≡ some j → P j
All-get_elem? P [] i j h e = cc
All-get_elem? P (x ∷ js) zero j h e = subst P (some-inj e) h.0
All-get_elem? P (x ∷ js) (suc i) j h e = All-get_elem? P js i j h.1 e

All-set : (P : Job → Type 0) (js : List Job) (i : ℕ) (j : Job) → All P js → P j → All P (set js i j)
All-set P [] i j h p = h
All-set P (x ∷ js) zero j h p = (p, h.1)
All-set P (x ∷ js) (suc i) j h p = (h.0, All-set P js i j h.1 p)

cancel_job_if_exists-IsFree :
    (name : String) (s : Service)
    → IsWellFormed s
    → IsFree s
    → ((cancel_job_if_exists name s).0 ≡ done) × IsFree (cancel_job_if_exists name s).1
unfolding cancel_job_if_exists cancel_job cancel_found
cancel_job_if_exists-IsFree name s w free = elim (with_job-cases (cancel_found name) name s w) [
  | inl (e, r) ↦ rw r (refl, free)
  | inr (id, job, e, g, r) ↦
      let P = λ (j : Job). IsValid j × (j.sending ≡ false) in
      let (valid, open') = All-get_elem? P s.store id job free g in
      let (j', moved, valid', open'') = cancel_free job valid open' in
      rw (r, cancel_found, moved) (refl, All-set P s.store id j' free (valid', open''))
]

cancel_all-IsFree :
    (names : List String) (s : Service) → IsWellFormed s → IsFree s → (cancel_all names s).0 ≡ done
unfolding cancel_all
cancel_all-IsFree [] s w free = refl
cancel_all-IsFree (name ∷ names) s w free =
    let (ended, free') = cancel_job_if_exists-IsFree name s w free in
    let u = (cancel_job_if_exists name s).1 in
    ap (λ r. r.0) (cancel_all-cons name names s u (ap (λ x. (x, u)) ended))
    ∙ cancel_all-IsFree names u (cancel_job_if_exists-IsWellFormed name s w) free'

mem-matching :
    (prefix j : String) (m : List (String × ℕ))
    → mem j (matching prefix m) ≡ (is_some (lookup j m) && starts_with j prefix)
unfolding matching lookup is_some
mem-matching prefix j [] = refl
mem-matching prefix j ((i, v) ∷ m) = elim (Bool-cases (str_eq i j)) [
  | inl e ↦
      let same = (eq_iff i j).0 e in
      rw (same, eq_refl j) (ground (arith, eq_refl j, mem-matching prefix j m))
  | inr e ↦ rw e (ground (arith, mem-matching prefix j m))
]

-- In a well-formed service, CancelJobs returns if no RunJob holds a job of the store and their
-- states are valid. In any case, either it returns, and has removed exactly the jobs whose names
-- have the prefix; or it is stuck in the CancelJob of one of these names, which waits or panics:
-- the calls for the names before it have returned, the names up to it are gone, the later ones are
-- not tried, and all other names are as they were.
pub cancel_jobs-exists :
    (prefix : String) (s : Service)
    → IsWellFormed s
    → (IsFree s → (cancel_jobs prefix s).0 ≡ done)
      × ((((cancel_jobs prefix s).0 ≡ done)
            × ((j : String)
                → job_exists j (cancel_jobs prefix s).1
                  ≡ (job_exists j s && not (starts_with j prefix))))
          ⊎ Stops (matching prefix s.jobs) s (cancel_jobs prefix s))
unfolding cancel_jobs job_exists
cancel_jobs-exists prefix s w = (
  cancel_all-IsFree (matching prefix s.jobs) s w,
  elim (cancel_all-cases (matching prefix s.jobs) s w) [
    | inl (ended, names) ↦
        inl (ended, λ j. names j ∙ rw (mem-matching prefix j s.jobs) (ground arith))
    | inr stops ↦ inr stops
  ],
)
