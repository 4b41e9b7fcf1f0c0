-- ===== src/Jobs/Registry/Limit.antt =====
-- How many jobs of a session run at once, and what stops one.
use sica_rust.Prelude.{
  ℕ, ◌≤◌, ◌≡◌, refl, sym, ap, ◌∙◌, Bool, true, false, not, Option, none, some, List, [], ◌∷◌, ◌==◌,
  ==_iff, arith, if◌then◌else◌, option_or, map, filter, length-append, filter-append, leb,
}
use sica_rust.Prelude.Int.{ℤ}
use sica_rust.Prelude.Str.{Str, str_eq}
use sica_rust.Jobs.{is_running, Job, summary}
use sica_rust.Jobs.Registry.{
  JobRegistry, jobs_of, running_count, too_many, register, find_job, replace_job, put_job,
  cancel_job, KillRefusal, already, killed_at, kill, list,
}

-- A job that starts with no other start of its session between the check and the registration leaves
-- the session with at most ten running jobs.
pub register-limit :
    (session : ℕ) (kind command : Str) (now : ℤ) (r : JobRegistry)
    → too_many session r ≡ none
    → running_count (jobs_of (register session kind command now r).0 session) ≤ 10
unfolding too_many register
register-limit session kind command now r free =
    let own : (session == session) ≡ true = (==_iff session session).1 refl in
    rw own (
      rw (filter-append (λ j. is_running j.status) (jobs_of r session) _) (
        omega (
          arith,
          length-append (filter (λ j. is_running j.status) (jobs_of r session)) _,
          few (running_count (jobs_of r session)) free,
        )))
  where
    few : (n : ℕ) → (if leb 10 n then some n else none) ≡ none → n ≤ 9
    few n h = ground arith

replace_job-same :
    (id : Str) (j next : Job) (jobs : List Job)
    → find_job id jobs ≡ some j
    → summary next ≡ summary j
    → map summary (replace_job id next jobs) ≡ map summary jobs
unfolding find_job replace_job
replace_job-same id j next [] found same = refl
replace_job-same id j next (x ∷ jobs) found same =
    replaced (str_eq x.id id) (λ h. replace_job-same id j next jobs h same) found
  where
    replaced :
        (hit : Bool)
        → (find_job id jobs ≡ some j → map summary (replace_job id next jobs) ≡ map summary jobs)
        → (if hit then some x else find_job id jobs) ≡ some j
        → map summary (if hit then next ∷ jobs else x ∷ replace_job id next jobs)
          ≡ map summary (x ∷ jobs)
    replaced true later h =
        ap (λ s. s ∷ map summary jobs) (same ∙ sym (ap summary (ap (λ o. option_or o j) h)))
    replaced false later h = ap (◌∷◌ (summary x)) (later h)

-- A kill only asks: whatever it answers, what the session's list shows, each job's status included,
-- stays until the job's watcher settles it.
pub kill-list :
    (session : ℕ) (id : Str) (r : JobRegistry) → list session (kill session id r).0 ≡ list session r
unfolding kill list summary
kill-list session id r = killed (find_job id (jobs_of r session)) refl
  where
    killed :
        (o : Option Job)
        → find_job id (jobs_of r session) ≡ o
        → map summary (jobs_of (killed_at session id r o).0 session)
          ≡ map summary (jobs_of r session)
    killed none found = refl
    killed (some j) found = killed_if (is_running j.status)
      where
        killed_if :
            (alive : Bool)
            → (let k : JobRegistry × Option KillRefusal =
                  if not alive
                  then (r, some (already j.status))
                  else (put_job session id (cancel_job j) r, none) in
                map summary (jobs_of k.0 session) ≡ map summary (jobs_of r session))
        killed_if false = refl
        killed_if true =
            rw ((==_iff session session).1 refl)
              (replace_job-same id j (cancel_job j) (jobs_of r session) found refl)
