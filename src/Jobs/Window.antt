-- ===== src/Jobs/Window.antt =====
-- What a job's window holds of all that the job has printed, and what its spill file holds.
use mathlib.Core.List.{append_assoc}
use sica_rust.Prelude.{
  ℕ, ◌+◌, ◌-◌, ◌≤◌, ◌≡◌, refl, sym, ap, ◌∙◌, Bool, true, false, some, List, ◌++◌, arith, length,
  take, drop, length-append, length-drop, take-append-drop, ltb, if◌then◌else◌, option_or,
}
use sica_rust.Prelude.Str.{Str, str_eq_iff}
use sica_rust.Jobs.{
  output_cap, Job, DiskAnswer, no_dir, no_file, wrote_part, wrote_all, Disk, append_file,
  spill_bytes, append,
}

-- The window is the end of what was printed.
pub record IsWindow (printed : List ℕ) (j : Job) : Type 0 where
  pub front : List ℕ
  pub split : printed ≡ front ++ j.buf
  pub counted : j.produced ≡ length printed
  pub capped : length j.buf ≤ output_cap
  pub marked : j.read_mark ≤ j.produced

-- What the file and the window hold is what the file held at first, and all that was printed.
pub record IsSaved (path : Str) (first printed : List ℕ) (j : Job) (disk : Disk) : Type 0 where
  pub one_path : option_or j.spill path ≡ path
  pub saved : disk path ++ j.buf ≡ first ++ printed

module _ (spill_path : ℕ → Str → Str) where
  -- A spill changes the job's `spill` field only.
  spill_bytes-IsWindow :
      (answer : DiskAnswer) (bytes printed : List ℕ) (j : Job) (disk : Disk)
      → IsWindow printed j
      → IsWindow printed (spill_bytes spill_path answer bytes j disk).0
  unfolding spill_bytes
  spill_bytes-IsWindow no_dir bytes printed j disk h = h
  spill_bytes-IsWindow no_file bytes printed j disk h = record {
    front = h.front;
    split = h.split;
    counted = h.counted;
    capped = h.capped;
    marked = h.marked;
  }
  spill_bytes-IsWindow (wrote_part n) bytes printed j disk h = record {
    front = h.front;
    split = h.split;
    counted = h.counted;
    capped = h.capped;
    marked = h.marked;
  }
  spill_bytes-IsWindow wrote_all bytes printed j disk h = record {
    front = h.front;
    split = h.split;
    counted = h.counted;
    capped = h.capped;
    marked = h.marked;
  }

  module _ (answer : DiskAnswer) (chunk printed : List ℕ) (j : Job) (disk : Disk) where
    excess : ℕ
    excess = length (j.buf ++ chunk) - output_cap

    fed : Job
    fed = record j { produced = j.produced + length chunk; buf = drop excess (j.buf ++ chunk) }

    -- Whatever the disk answers, after a chunk the window is still the end of what was printed, within
    -- its cap, and every printed byte is counted.
    pub append-IsWindow :
        IsWindow printed j → IsWindow (printed ++ chunk) (append spill_path answer chunk j disk).0
    unfolding append excess fed
    append-IsWindow h = appended (ltb output_cap (length (j.buf ++ chunk))) refl
      where
        whole : printed ++ chunk ≡ h.front ++ (j.buf ++ chunk)
        whole = ap (λ r. r ++ chunk) h.split ∙ append_assoc h.front j.buf chunk

        counts : j.produced + length chunk ≡ length (printed ++ chunk)
        counts = omega (arith, h.counted, length-append printed chunk)

        cut : IsWindow (printed ++ chunk) fed
        cut = record {
          front = h.front ++ take excess (j.buf ++ chunk);
          split =
              whole
              ∙ ap (λ r. h.front ++ r) (sym (take-append-drop excess (j.buf ++ chunk)))
              ∙ sym (append_assoc h.front (take excess (j.buf ++ chunk)) _);
          counted = counts;
          capped = omega (arith, length-drop excess (j.buf ++ chunk));
          marked = omega (arith, h.marked);
        }

        appended :
            (over : Bool)
            → ltb output_cap (length (j.buf ++ chunk)) ≡ over
            → IsWindow (printed ++ chunk) (
                let r : Job × Disk =
                  if over
                  then spill_bytes spill_path answer (take excess (j.buf ++ chunk)) fed disk
                  else (
                    record j { produced = j.produced + length chunk; buf = j.buf ++ chunk },
                    disk,
                  ) in
                r.0)
        appended false e = record {
          front = h.front;
          split = whole;
          counted = counts;
          capped = ground arith;
          marked = omega (arith, h.marked);
        }
        appended true e =
            spill_bytes-IsWindow answer (take excess (j.buf ++ chunk)) (printed ++ chunk) fed disk
              cut

  -- With a disk that takes every write, a chunk loses nothing: what left the window is in the file.
  pub append-IsSaved :
      (chunk first printed : List ℕ) (j : Job) (disk : Disk)
      → IsSaved (spill_path j.session_id j.id) first printed j disk
      → IsSaved
          (spill_path j.session_id j.id)
          first
          (printed ++ chunk)
          (append spill_path wrote_all chunk j disk).0
          (append spill_path wrote_all chunk j disk).1
  unfolding append spill_bytes excess
  append-IsSaved chunk first printed j disk h = appended (ltb output_cap (length (j.buf ++ chunk)))
    where
      path : Str
      path = spill_path j.session_id j.id

      over_by : ℕ
      over_by = length (j.buf ++ chunk) - output_cap

      all_kept : disk path ++ (j.buf ++ chunk) ≡ first ++ (printed ++ chunk)
      all_kept =
          sym (append_assoc (disk path) j.buf chunk)
          ∙ ap (λ r. r ++ chunk) h.saved
          ∙ append_assoc first printed chunk

      spilled : Str → Disk
      spilled p = append_file p (take over_by (j.buf ++ chunk)) disk

      written : spilled path path ≡ disk path ++ take over_by (j.buf ++ chunk)
      written =
          ap (λ b. if b then disk path ++ take over_by (j.buf ++ chunk) else disk path)
            ((str_eq_iff path path).1 refl)

      appended :
          (over : Bool)
          → (let r : Job × Disk =
                if over
                then (
                  record j {
                    produced = j.produced + length chunk;
                    buf = drop over_by (j.buf ++ chunk);
                    spill = some (option_or j.spill path);
                  },
                  spilled (option_or j.spill path),
                )
                else (
                  record j { produced = j.produced + length chunk; buf = j.buf ++ chunk },
                  disk,
                ) in
              IsSaved path first (printed ++ chunk) r.0 r.1)
      appended false = record { one_path = h.one_path; saved = all_kept }
      appended true = record {
        one_path = h.one_path;
        saved =
            ap (λ p. spilled p path ++ drop over_by (j.buf ++ chunk)) h.one_path
            ∙ ap (λ r. r ++ drop over_by (j.buf ++ chunk)) written
            ∙ append_assoc (disk path) (take over_by (j.buf ++ chunk)) _
            ∙ ap (λ r. disk path ++ r) (take-append-drop over_by (j.buf ++ chunk))
            ∙ all_kept;
      }
