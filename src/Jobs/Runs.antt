-- ===== src/Jobs/Runs.antt =====
-- Whole runs of chunks and reads.
use mathlib.Core.Path.{subst}
use mathlib.Core.List.{append-nil, append_assoc}
use sica_rust.Prelude.{
  ℕ, ◌+◌, ◌-◌, ◌≡◌, refl, sym, ap, ◌∙◌, Bool, true, false, Option, none, some, List, [], ◌∷◌, ◌++◌,
  length, take, drop, ltb, if◌then◌else◌,
}
use sica_rust.Prelude.Str.{Str}
use sica_rust.Jobs.{output_cap, Job, DiskAnswer, wrote_all, Disk, spill_bytes, append, take_unread}
use sica_rust.Jobs.Window.{IsWindow, IsSaved, append-IsWindow, append-IsSaved}
use sica_rust.Jobs.Reads.{read_job, read_job-IsWindow, take_unread_lem}

-- A chunk that a job's streams bring, with the disk's answer, or a read.
pub data Event : Type 0 where
  prints : (answer : DiskAnswer) (chunk : List ℕ) → Event
  reads : Event

abbrev pub printed_by : List Event → List ℕ
printed_by [] = []
printed_by (prints _ chunk ∷ events) = chunk ++ printed_by events
printed_by (reads ∷ events) = printed_by events

abbrev WritesAll : List Event → Type 0
WritesAll [] = Unit
WritesAll (prints answer _ ∷ events) = (answer ≡ wrote_all) × WritesAll events
WritesAll (reads ∷ events) = WritesAll events

abbrev job_after : Job → Option (Str × ℕ × Option Str × Job) → Job
job_after j none = j
job_after j (some (_, _, _, next)) = next

module _ (spill_path : ℕ → Str → Str) (lossy : List ℕ → Str) where
  unfoldable pub run : List Event → Job → Disk → Job × Disk
  run [] j disk = (j, disk)
  run (prints answer chunk ∷ events) j disk =
      run events (append spill_path answer chunk j disk).0 (append spill_path answer chunk j disk).1
  run (reads ∷ events) j disk = run events (job_after j (take_unread lossy j)) disk

  read-IsWindow :
      (printed : List ℕ) (j : Job)
      → IsWindow printed j
      → IsWindow printed (job_after j (take_unread lossy j))
  read-IsWindow printed j h =
      let (shown, taken, _, _, _) = take_unread_lem lossy printed j h in
      subst (λ r. IsWindow printed (job_after j r)) (sym taken) (read_job-IsWindow printed j h)

  -- In any run of chunks and reads, whatever the disk answers, the window is the end of all that was
  -- printed, at most 256 KiB of it, and the counters are right, so that no read panics.
  pub run-IsWindow :
      (events : List Event) (printed : List ℕ) (j : Job) (disk : Disk)
      → IsWindow printed j
      → IsWindow (printed ++ printed_by events) (run events j disk).0
  unfolding run
  run-IsWindow [] printed j disk h = subst (λ p. IsWindow p j) (sym (append-nil printed)) h
  run-IsWindow (prints answer chunk ∷ events) printed j disk h =
      subst (λ p. IsWindow p (run (prints answer chunk ∷ events) j disk).0)
        (append_assoc printed chunk (printed_by events))
        (run-IsWindow events (printed ++ chunk) (append spill_path answer chunk j disk).0
          (append spill_path answer chunk j disk).1
          (append-IsWindow spill_path answer chunk printed j disk h))
  run-IsWindow (reads ∷ events) printed j disk h =
      run-IsWindow events printed (job_after j (take_unread lossy j)) disk
        (read-IsWindow printed j h)

  -- A chunk leaves the job's names as they are.
  append-names :
      (chunk : List ℕ) (j : Job) (disk : Disk)
      → ((append spill_path wrote_all chunk j disk).0.session_id ≡ j.session_id)
        × ((append spill_path wrote_all chunk j disk).0.id ≡ j.id)
  unfolding append spill_bytes
  append-names chunk j disk = names (ltb output_cap (length (j.buf ++ chunk)))
    where
      excess : ℕ
      excess = length (j.buf ++ chunk) - output_cap

      fed : Job
      fed = record j { produced = j.produced + length chunk; buf = drop excess (j.buf ++ chunk) }

      names :
          (over : Bool)
          → (let r : Job × Disk =
                if over
                then spill_bytes spill_path wrote_all (take excess (j.buf ++ chunk)) fed disk
                else (
                  record j { produced = j.produced + length chunk; buf = j.buf ++ chunk },
                  disk,
                ) in
              (r.0.session_id ≡ j.session_id) × (r.0.id ≡ j.id))
      names false = (refl, refl)
      names true = (refl, refl)

  -- A chunk leaves the path of the job's spill file as it is, and the file as `append-IsSaved` says.
  append-keeps_path :
      (path : Str) (chunk first printed : List ℕ) (j : Job) (disk : Disk)
      → path ≡ spill_path j.session_id j.id
      → IsSaved path first printed j disk
      → (path
          ≡ spill_path
              (append spill_path wrote_all chunk j disk).0.session_id
              (append spill_path wrote_all chunk j disk).0.id)
        × IsSaved path first
            (printed ++ chunk)
            (append spill_path wrote_all chunk j disk).0
            (append spill_path wrote_all chunk j disk).1
  append-keeps_path path chunk first printed j disk named h =
      let names = append-names chunk j disk in
      (
        named
            ∙ ap (λ s. spill_path s j.id) (sym names.0)
            ∙ ap (spill_path (append spill_path wrote_all chunk j disk).0.session_id) (sym names.1),
        subst
            (λ p.
              IsSaved p first (printed ++ chunk) (append spill_path wrote_all chunk j disk).0
                (append spill_path wrote_all chunk j disk).1)
            (sym named)
            (append-IsSaved spill_path chunk first printed j disk
              (subst (λ p. IsSaved p first printed j disk) named h)),
      )

  -- In any run of chunks and reads in which the disk takes every write, nothing that the job printed is
  -- lost: its spill file holds what it held at first and then all that has left the window, in order.
  pub run-IsSaved :
      (events : List Event) (path : Str) (first printed : List ℕ) (j : Job) (disk : Disk)
      → path ≡ spill_path j.session_id j.id
      → WritesAll events
      → IsWindow printed j
      → IsSaved path first printed j disk
      → (run events j disk).1 path ++ (run events j disk).0.buf
        ≡ first ++ (printed ++ printed_by events)
  unfolding run
  run-IsSaved [] path first printed j disk named all w h =
      h.saved ∙ ap (λ p. first ++ p) (sym (append-nil printed))
  run-IsSaved (prints answer chunk ∷ events) path first printed j disk named (whole, all) w h =
      let (named', kept) = append-keeps_path path chunk first printed j disk named h in
      subst
        (λ a.
          (run (prints a chunk ∷ events) j disk).1 path
            ++ (run (prints a chunk ∷ events) j disk).0.buf
          ≡ first ++ (printed ++ (chunk ++ printed_by events)))
        (sym whole)
        (run-IsSaved events path first (printed ++ chunk)
            (append spill_path wrote_all chunk j disk).0
            (append spill_path wrote_all chunk j disk).1 named' all
            (append-IsWindow spill_path wrote_all chunk printed j disk w) kept
          ∙ ap (λ p. first ++ p) (append_assoc printed chunk (printed_by events)))
  run-IsSaved (reads ∷ events) path first printed j disk named all w h =
      subst
        (λ r.
          (run events (job_after j r) disk).1 path ++ (run events (job_after j r) disk).0.buf
          ≡ first ++ (printed ++ printed_by events))
        (sym (take_unread_lem lossy printed j w).1)
        (run-IsSaved events path first printed (read_job j) disk named all
          (read_job-IsWindow printed j w) (record { one_path = h.one_path; saved = h.saved }))
