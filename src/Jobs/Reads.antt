-- ===== src/Jobs/Reads.antt =====
-- What a read hands back of what a job has printed.
use sica_rust.Prelude.{
  ℕ, zero, suc, ◌+◌, ◌-◌, ◌≤◌, ◌≡◌, refl, sym, ap, ◌∙◌, true, none, some, List, [], ◌∷◌, ◌++◌,
  arith, max, length, drop, length-append, length-drop, ltb, leb, if◌then◌else◌, ◌>>=◌,
}
use sica_rust.Prelude.Str.{Str}
use sica_rust.Jobs.{Job, unread_from, lost_bytes, take_unread}
use sica_rust.Jobs.Window.{IsWindow}

drop-append :
    {A : Type 0} (k n : ℕ) (xs ys : List A) → k ≡ length xs + n → drop k (xs ++ ys) ≡ drop n ys
drop-append k n [] ys e = let same : k ≡ n = omega (arith, e) in ap (λ i. drop i ys) same
drop-append zero n (x ∷ xs) ys e = ground (arith, e)
drop-append (suc k) n (x ∷ xs) ys e = drop-append k n xs ys (omega (arith, e))

drop_past_end : {A : Type 0} (n : ℕ) (xs : List A) → length xs ≤ n → drop n xs ≡ []
drop_past_end zero [] h = refl
drop_past_end (suc n) [] h = refl
drop_past_end zero (x ∷ xs) h = ground arith
drop_past_end (suc n) (x ∷ xs) h = drop_past_end n xs (omega arith)

abbrev pub read_job : Job → Job
read_job j = record j { read_mark = j.produced }

pub read_job-IsWindow :
    (printed : List ℕ) (j : Job) → IsWindow printed j → IsWindow printed (read_job j)
read_job-IsWindow printed j h = record {
  front = h.front;
  split = h.split;
  counted = h.counted;
  capped = h.capped;
  marked = omega arith;
}

module _ (lossy : List ℕ → Str) where
  -- A read never panics. The bytes that it shows and the number that it reports as lost make up all
  -- that was printed since the last read: the lost ones are the oldest of them, and it shows the rest.
  -- A second read finds nothing, and reports no loss.
  pub take_unread_lem :
      (printed : List ℕ) (j : Job)
      → IsWindow printed j
      → (shown : List ℕ) × (take_unread lossy j
          ≡ some (
            lossy shown,
            lost_bytes j,
            if ltb 0 (lost_bytes j) then j.spill else none,
            record j { read_mark = j.produced },
          ))
        × (shown ≡ drop (j.read_mark + lost_bytes j) printed)
        × (lost_bytes j + length shown ≡ length printed - j.read_mark)
        × (take_unread lossy (record j { read_mark = j.produced })
            ≡ some (lossy [], 0, none, record j { read_mark = j.produced }))
  unfolding take_unread
  take_unread_lem printed j h = (drop skip j.buf, taken, same, adds_up, second)
    where
      start : ℕ
      start = j.produced - length j.buf

      skip : ℕ
      skip = unread_from j - start

      front_len : length h.front + length j.buf ≡ j.produced
      front_len = omega (arith, h.counted, length-append h.front j.buf, ap length h.split)

      fits : leb skip (length j.buf) ≡ true
      fits = ground (arith, front_len, h.marked)

      taken :
          take_unread lossy j
          ≡ some (
            lossy (drop skip j.buf),
            lost_bytes j,
            if ltb 0 (lost_bytes j) then j.spill else none,
            record j { read_mark = j.produced },
          )
      taken = rw (fits, ◌>>=◌) refl

      same : drop skip j.buf ≡ drop (j.read_mark + lost_bytes j) printed
      same = sym (
          ap (drop (j.read_mark + lost_bytes j)) h.split
          ∙ drop-append (j.read_mark + lost_bytes j) skip h.front j.buf (omega (arith, front_len)))

      adds_up : lost_bytes j + length (drop skip j.buf) ≡ length printed - j.read_mark
      adds_up = omega (arith, length-drop skip j.buf, front_len, h.counted, h.marked)

      at_end : max j.produced start - start ≡ length j.buf
      at_end = omega (arith, front_len)

      fits_end : leb (max j.produced start - start) (length j.buf) ≡ true
      fits_end = ground (arith, at_end)

      nothing : drop (max j.produced start - start) j.buf ≡ []
      nothing = drop_past_end (max j.produced start - start) j.buf (omega (arith, at_end))

      no_loss : start - j.produced ≡ 0
      no_loss = omega arith

      second :
          take_unread lossy (record j { read_mark = j.produced })
          ≡ some (lossy [], 0, none, record j { read_mark = j.produced })
      second = rw (fits_end, ◌>>=◌, nothing, no_loss) refl
