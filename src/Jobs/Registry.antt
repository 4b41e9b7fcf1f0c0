-- ===== src/Jobs/Registry.antt =====
-- The registry of every session's jobs.
pub mod Isolation
pub mod Limit
use sica_rust.Prelude.{
  ℕ, ◌+◌, ◌%◌, ◌≡◌, refl, Bool, true, false, not, Option, none, some, List, [], ◌∷◌, ◌++◌, map,
  filter, length, find, leb, ◌==◌, if◌then◌else◌, option_or, ◌>>=◌,
}
use sica_rust.Prelude.Int.{ℤ}
use sica_rust.Prelude.Str.{Str, str, str_eq}
use sica_rust.Prelude.Decimal.{decimal}
use sica_rust.Jobs.{
  JobStatus, running, is_running, Job, JobSummary, DiskAnswer, Disk, append, take_unread, summary,
}

abbrev pub max_jobs_per_session : ℕ
max_jobs_per_session = 10

pub record JobRegistry : Type 0 where
  pub by_session : ℕ → Option (List Job)
  pub next : ℕ

abbrev pub jobs_of : JobRegistry → ℕ → List Job
jobs_of r session = option_or (r.by_session session) []

abbrev pub set_jobs : ℕ → Option (List Job) → JobRegistry → JobRegistry
set_jobs session jobs r = record r {
  by_session = λ s. if s == session then jobs else r.by_session s;
}

-- The first critical section of `start_shell`: the number of running jobs if it is too large.
abbrev pub running_count : List Job → ℕ
running_count jobs = length (filter (λ j. is_running j.status) jobs)

unfoldable pub too_many : ℕ → JobRegistry → Option ℕ
too_many session r =
    let count = running_count (jobs_of r session) in
    if leb max_jobs_per_session count then some count else none

-- Its second one, after the child has been spawned. The id is `kind-n`, from the shared counter.
unfoldable pub register : ℕ → Str → Str → ℤ → JobRegistry → JobRegistry × Str
register session kind command now r =
    let n = (r.next + 1) % 18446744073709551616 in
    let id = kind ++ (45 ∷ decimal n) in
    let job : Job = record {
      id = id;
      session_id = session;
      kind = kind;
      command = command;
      status = running;
      buf = [];
      produced = 0;
      read_mark = 0;
      cancelled = false;
      started_at = now;
      spill = none;
    } in
    (set_jobs session (some (jobs_of r session ++ job ∷ [])) (record r { next = n }), id)

-- `find`, and the jobs with the one that it finds replaced.
unfoldable pub find_job : Str → List Job → Option Job
find_job id = find (λ j. str_eq j.id id)

unfoldable pub replace_job : Str → Job → List Job → List Job
replace_job id next [] = []
replace_job id next (j ∷ jobs) =
    let rest = replace_job id next jobs in if str_eq j.id id then next ∷ jobs else j ∷ rest

abbrev pub put_job : ℕ → Str → Job → JobRegistry → JobRegistry
put_job session id next r = set_jobs session (some (replace_job id next (jobs_of r session))) r

abbrev fed_job :
    (ℕ → Str → Str)
    → ℕ
    → Str
    → DiskAnswer
    → List ℕ
    → JobRegistry
    → Disk
    → Option Job
    → JobRegistry × Disk
fed_job path session id answer chunk r disk none = (r, disk)
fed_job path session id answer chunk r disk (some j) =
    (put_job session id (append path answer chunk j disk).0 r, (append path answer chunk j disk).1)

unfoldable pub append_to :
    (ℕ → Str → Str) → ℕ → Str → DiskAnswer → List ℕ → JobRegistry → Disk → JobRegistry × Disk
append_to path session id answer chunk r disk =
    fed_job path session id answer chunk r disk (find_job id (jobs_of r session))

abbrev settled : ℕ → Str → JobStatus → JobRegistry → Option Job → JobRegistry × Option JobSummary
settled session id status r none = (r, none)
settled session id status r (some j) =
    let next : Job = record j { status = status } in
    (put_job session id next r, some (summary next))

-- The summary is the notice that goes to the session's inbox.
unfoldable pub settle : ℕ → Str → JobStatus → JobRegistry → JobRegistry × Option JobSummary
settle session id status r = settled session id status r (find_job id (jobs_of r session))

unfoldable pub list : ℕ → JobRegistry → List JobSummary
list session r = map summary (jobs_of r session)

pub record ReadOut : Type 0 where
  pub text : Str
  pub lost : ℕ
  pub status : JobStatus
  pub spill : Option Str

-- The outer `none` of a result is a panic.
abbrev read_found :
    ℕ
    → Str
    → JobRegistry
    → Job
    → Option (Str × ℕ × Option Str × Job)
    → Option (Option ReadOut × JobRegistry)
read_found session id r j none = none
read_found session id r j (some (text, lost, spill, next)) = some (
  some (record { text = text; lost = lost; status = j.status; spill = spill }),
  put_job session id next r,
)

abbrev read_at :
    (List ℕ → Str) → ℕ → Str → JobRegistry → Option Job → Option (Option ReadOut × JobRegistry)
read_at lossy session id r none = some (none, r)
read_at lossy session id r (some j) = read_found session id r j (take_unread lossy j)

unfoldable pub read : (List ℕ → Str) → ℕ → Str → JobRegistry → Option (Option ReadOut × JobRegistry)
read lossy session id r = read_at lossy session id r (find_job id (jobs_of r session))

pub data KillRefusal : Type 0 where
  no_job : KillRefusal
  already : JobStatus → KillRefusal

abbrev cancel_job : Job → Job
cancel_job j = record j { cancelled = true }

abbrev killed_at : ℕ → Str → JobRegistry → Option Job → JobRegistry × Option KillRefusal
killed_at session id r none = (r, some no_job)
killed_at session id r (some j) =
    if not (is_running j.status)
    then (r, some (already j.status))
    else (put_job session id (cancel_job j) r, none)

-- A kill asks the job's watcher to stop it: the status stays until the watcher settles it.
unfoldable pub kill : ℕ → Str → JobRegistry → JobRegistry × Option KillRefusal
kill session id r = killed_at session id r (find_job id (jobs_of r session))

-- The jobs are forgotten; what is returned is what was cancelled.
unfoldable pub clear : ℕ → JobRegistry → JobRegistry × List Job
clear session r = (set_jobs session none r, map cancel_job (jobs_of r session))
