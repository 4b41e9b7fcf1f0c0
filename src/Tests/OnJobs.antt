-- ===== src/Tests/OnJobs.antt =====
-- A job that prints and is read, in a registry with two sessions.
use sica_rust.Prelude.{
  ℕ, ◌+◌, ◌-◌, ◌≡◌, refl, false, none, some, List, [], ◌∷◌, ◌++◌, arith, length, drop, ltb,
  if◌then◌else◌,
}
use sica_rust.Prelude.Str.{Str, str}
use sica_rust.Prelude.Int.{pos}
use sica_rust.Jobs.{running, Job, wrote_all, no_dir, Disk, take_unread, lost_bytes}
use sica_rust.Jobs.Window.{IsWindow}
use sica_rust.Jobs.Reads.{take_unread_lem}
use sica_rust.Jobs.Runs.{Event, prints, reads, printed_by, run, run-IsWindow, run-IsSaved}
use sica_rust.Jobs.Registry.{JobRegistry}

abbrev same_text : List ℕ → Str
same_text bytes = bytes

abbrev one_path : ℕ → Str → Str
one_path _ id = id

abbrev new_job : Job
new_job = record {
  id = str "cli-1";
  session_id = 4;
  kind = str "cli";
  command = str "make";
  status = running;
  buf = [];
  produced = 0;
  read_mark = 0;
  cancelled = false;
  started_at = pos 0;
  spill = none;
}

abbrev printed_job : Job
printed_job = record new_job { buf = str "done"; produced = 4; read_mark = 1 }

new_job-IsWindow : IsWindow [] new_job
new_job-IsWindow = record {
  front = [];
  split = refl;
  counted = refl;
  capped = omega arith;
  marked = omega arith;
}

printed_job-IsWindow : IsWindow (str "done") printed_job
printed_job-IsWindow = record {
  front = [];
  split = refl;
  counted = refl;
  capped = omega arith;
  marked = omega arith;
}

take_unread_lem_example :
    (shown : List ℕ) × (take_unread same_text printed_job
      ≡ some (
        shown,
        lost_bytes printed_job,
        if ltb 0 (lost_bytes printed_job) then none else none,
        record printed_job { read_mark = 4 },
      ))
    × (shown ≡ drop (1 + lost_bytes printed_job) (str "done"))
    × (lost_bytes printed_job + length shown ≡ 4 - 1)
    × (take_unread same_text (record printed_job { read_mark = 4 })
        ≡ some ([], 0, none, record printed_job { read_mark = 4 }))
take_unread_lem_example = take_unread_lem same_text (str "done") printed_job printed_job-IsWindow

abbrev empty_disk : Disk
empty_disk _ = []

abbrev events : List Event
events = prints wrote_all (str "a") ∷ reads ∷ prints wrote_all (str "bc") ∷ []

run-IsWindow_example :
    IsWindow
      ([] ++ printed_by (prints no_dir (str "a") ∷ reads ∷ []))
      (run one_path same_text (prints no_dir (str "a") ∷ reads ∷ []) new_job empty_disk).0
run-IsWindow_example =
    run-IsWindow one_path same_text (prints no_dir (str "a") ∷ reads ∷ []) [] new_job empty_disk
      new_job-IsWindow

run-IsSaved_example :
    (run one_path same_text events new_job empty_disk).1 (str "cli-1")
      ++ (run one_path same_text events new_job empty_disk).0.buf
    ≡ [] ++ ([] ++ printed_by events)
run-IsSaved_example =
    run-IsSaved one_path same_text events (str "cli-1") [] [] new_job empty_disk refl
      (refl, (refl, tt)) new_job-IsWindow (record { one_path = refl; saved = refl })

abbrev two_sessions : JobRegistry
two_sessions = record { by_session = λ s. some (printed_job ∷ []); next = 2 }
