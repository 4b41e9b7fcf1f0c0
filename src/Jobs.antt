-- ===== src/Jobs.antt =====
-- crates/agents/src/jobs.rs: background jobs, each with a window on what it has printed, and the
-- registry that keeps them for each session. Every function holds the registry's one lock.
pub mod Window
pub mod Reads
pub mod Runs
pub mod Registry
use sica_rust.Prelude.{
  ℕ, ◌+◌, ◌-◌, ◌*◌, ◌≤◌, Bool, true, false, not, Option, none, some, List, [], ◌∷◌, ◌++◌, max,
  length, take, drop, ltb, leb, if◌then◌else◌, option_or, map, ◌>>=◌,
}
use sica_rust.Prelude.Int.{ℤ}
use sica_rust.Prelude.Str.{Str, str, str_eq}

abbrev pub output_cap : ℕ
output_cap = 262144

pub data JobStatus : Type 0 where
  running : JobStatus
  exited : (code : ℤ) → JobStatus
  killed : JobStatus
  failed : (error : Str) → JobStatus

abbrev pub is_running : JobStatus → Bool
is_running running = true
is_running _ = false

abbrev pub exit_code : JobStatus → Option ℤ
exit_code (exited code) = some code
exit_code _ = none

-- `cancelled` is the state of the job's cancellation token.
pub record Job : Type 0 where
  pub id : Str
  pub session_id : ℕ
  pub kind : Str
  pub command : Str
  pub status : JobStatus
  pub buf : List ℕ
  pub produced : ℕ
  pub read_mark : ℕ
  pub cancelled : Bool
  pub started_at : ℤ
  pub spill : Option Str

pub record JobSummary : Type 0 where
  pub id : Str
  pub kind : Str
  pub command : Str
  pub status : JobStatus
  pub unread : ℕ
  pub started_at : ℤ

-- What the file system answers to one write of a spill file: no directory, no file, a write that
-- stopped after `n` bytes, or a whole one.
pub data DiskAnswer : Type 0 where
  no_dir no_file : DiskAnswer
  wrote_part : (n : ℕ) → DiskAnswer
  wrote_all : DiskAnswer

-- The contents of each file.
abbrev pub Disk : Type 0
Disk = Str → List ℕ

abbrev pub append_file : Str → List ℕ → Disk → Disk
append_file path bytes disk p = if str_eq p path then disk p ++ bytes else disk p

-- The path of a spill file, from the session and the job's id, and the lossy decoding of bytes are the
-- library's: parameters.
module _ (spill_path : ℕ → Str → Str) where
  unfoldable pub spill_bytes : DiskAnswer → List ℕ → Job → Disk → Job × Disk
  spill_bytes no_dir bytes j disk = (j, disk)
  spill_bytes no_file bytes j disk =
      (record j { spill = some (option_or j.spill (spill_path j.session_id j.id)) }, disk)
  spill_bytes (wrote_part n) bytes j disk =
      let path = option_or j.spill (spill_path j.session_id j.id) in
      (record j { spill = some path }, append_file path (take n bytes) disk)
  spill_bytes wrote_all bytes j disk =
      let path = option_or j.spill (spill_path j.session_id j.id) in
      (record j { spill = some path }, append_file path bytes disk)

  unfoldable pub append : DiskAnswer → List ℕ → Job → Disk → Job × Disk
  unfolding spill_bytes
  append answer chunk j disk =
      let buf = j.buf ++ chunk in
      let produced = j.produced + length chunk in
      let excess = length buf - output_cap in
      if ltb output_cap (length buf)
      then spill_bytes answer (take excess buf)
          (record j { produced = produced; buf = drop excess buf }) disk
      else (record j { produced = produced; buf = buf }, disk)

-- A slice `bytes[from..]`; `none` is the panic of an index past the end.
abbrev pub slice_bytes : ℕ → List ℕ → Option (List ℕ)
slice_bytes from bytes = if leb from (length bytes) then some (drop from bytes) else none

abbrev pub unread_from : Job → ℕ
unread_from j = max j.read_mark (j.produced - length j.buf)

abbrev pub lost_bytes : Job → ℕ
lost_bytes j = j.produced - length j.buf - j.read_mark

-- `lossy` is `String::from_utf8_lossy`.
module _ (lossy : List ℕ → Str) where
  -- The text not yet handed back, how many bytes left the window before, and the spill file if any did.
  unfoldable pub take_unread : Job → Option (Str × ℕ × Option Str × Job)
  take_unread j = do
    bytes ← slice_bytes (unread_from j - (j.produced - length j.buf)) j.buf
    some (
      lossy bytes,
      lost_bytes j,
      if ltb 0 (lost_bytes j) then j.spill else none,
      record j { read_mark = j.produced },
    )

unfoldable pub summary : Job → JobSummary
summary j = record {
  id = j.id;
  kind = j.kind;
  command = j.command;
  status = j.status;
  unread = j.produced - j.read_mark;
  started_at = j.started_at;
}
