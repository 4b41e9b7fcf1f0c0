-- ===== src/Jobs/Registry/Isolation.antt =====
-- Jobs belong to their session.
use sica_rust.Prelude.{
  ℕ, ◌≡◌, refl, Bool, true, false, not, Option, none, some, List, ◌==◌, if◌then◌else◌,
}
use sica_rust.Prelude.Int.{ℤ}
use sica_rust.Prelude.Str.{Str}
use sica_rust.Jobs.{JobStatus, is_running, Job, DiskAnswer, Disk, take_unread}
use sica_rust.Jobs.Registry.{
  JobRegistry, jobs_of, set_jobs, put_job, register, find_job, fed_job, append_to, settled, settle,
  ReadOut, read_found, read_at, read, KillRefusal, killed_at, kill, clear,
}

abbrev pub registry_after : JobRegistry → Option (Option ReadOut × JobRegistry) → JobRegistry
registry_after r none = r
registry_after r (some (_, next)) = next

module _ (session other : ℕ) (apart : (other == session) ≡ false) (r : JobRegistry) where
  -- The other session's jobs are the same, as it can see them and in full.
  abbrev IsUntouched : JobRegistry → Type 0
  IsUntouched next = jobs_of next other ≡ jobs_of r other

  set_jobs-IsUntouched : (jobs : Option (List Job)) → IsUntouched (set_jobs session jobs r)
  set_jobs-IsUntouched jobs = rw apart refl

  fed_job-IsUntouched :
      (path : ℕ → Str → Str) (id : Str) (answer : DiskAnswer) (chunk : List ℕ) (disk : Disk)
      (o : Option Job)
      → IsUntouched (fed_job path session id answer chunk r disk o).0
  fed_job-IsUntouched path id answer chunk disk none = refl
  fed_job-IsUntouched path id answer chunk disk (some j) = set_jobs-IsUntouched _

  settled-IsUntouched :
      (id : Str) (status : JobStatus) (o : Option Job)
      → IsUntouched (settled session id status r o).0
  settled-IsUntouched id status none = refl
  settled-IsUntouched id status (some j) = set_jobs-IsUntouched _

  read_found-IsUntouched :
      (id : Str) (j : Job) (o : Option (Str × ℕ × Option Str × Job))
      → IsUntouched (registry_after r (read_found session id r j o))
  read_found-IsUntouched id j none = refl
  read_found-IsUntouched id j (some (text, lost, spill, next)) = set_jobs-IsUntouched _

  read_at-IsUntouched :
      (lossy : List ℕ → Str) (id : Str) (o : Option Job)
      → IsUntouched (registry_after r (read_at lossy session id r o))
  read_at-IsUntouched lossy id none = refl
  read_at-IsUntouched lossy id (some j) = read_found-IsUntouched id j (take_unread lossy j)

  killed_at-IsUntouched : (id : Str) (o : Option Job) → IsUntouched (killed_at session id r o).0
  killed_at-IsUntouched id none = refl
  killed_at-IsUntouched id (some j) = killed_if (is_running j.status)
    where
      killed_if :
          (alive : Bool)
          → IsUntouched (
              let k : JobRegistry × Option KillRefusal =
                if not alive
                then (r, some (KillRefusal.already j.status))
                else (put_job session id (record j { cancelled = true }) r, none) in
              k.0)
      killed_if true = set_jobs-IsUntouched _
      killed_if false = refl

  -- Whatever one session does to its jobs, another session's jobs stay as they are.
  pub operations-IsUntouched :
      (path : ℕ → Str → Str) (lossy : List ℕ → Str) (id kind command : Str) (now : ℤ)
      (answer : DiskAnswer) (chunk : List ℕ) (disk : Disk) (status : JobStatus)
      → (jobs_of (register session kind command now r).0 other ≡ jobs_of r other)
        × (jobs_of (append_to path session id answer chunk r disk).0 other ≡ jobs_of r other)
        × (jobs_of (settle session id status r).0 other ≡ jobs_of r other)
        × (jobs_of (registry_after r (read lossy session id r)) other ≡ jobs_of r other)
        × (jobs_of (kill session id r).0 other ≡ jobs_of r other)
        × (jobs_of (clear session r).0 other ≡ jobs_of r other)
  unfolding register append_to settle read kill clear
  operations-IsUntouched path lossy id kind command now answer chunk disk status = (
    rw apart refl,
    fed_job-IsUntouched path id answer chunk disk (find_job id (jobs_of r session)),
    settled-IsUntouched id status (find_job id (jobs_of r session)),
    read_at-IsUntouched lossy id (find_job id (jobs_of r session)),
    killed_at-IsUntouched id (find_job id (jobs_of r session)),
    set_jobs-IsUntouched none,
  )
