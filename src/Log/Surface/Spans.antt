-- ===== src/Log/Surface/Spans.antt =====
-- Shadowing a span of the derived history: what leaves it, and where the replacement lands.
use sica_rust.Prelude.{
  ℕ, ◌≤◌, ◌<◌, ◌≡◌, ◌⊎◌, inl, inr, refl, true, false, ◌||◌, List, [], ◌∷◌, ◌++◌, arith, ltb, leb,
  filter-append, All, All-imp, filter_every, filter_none, filter-All, position_splits, position_at,
}
use sica_rust.Log.{replace}
use sica_rust.Log.Surface.{SurfaceEntry, retain_outside, land}

-- Where an entry's seq lies with respect to a span.
abbrev pub IsOutside : ℕ → ℕ → SurfaceEntry → Type 0
IsOutside start_seq end_seq e = (e.seq < start_seq) ⊎ (end_seq < e.seq)

abbrev pub IsWithin : ℕ → ℕ → SurfaceEntry → Type 0
IsWithin start_seq end_seq e = (start_seq ≤ e.seq) × (e.seq ≤ end_seq)

module _ (start_seq end_seq : ℕ) where
  pub retain_outside-All :
      (out : List SurfaceEntry)
      → All (IsOutside start_seq end_seq) (retain_outside start_seq end_seq out)
  retain_outside-All out =
      All-imp _ (λ x h. outside x.seq h) (retain_outside start_seq end_seq out) (filter-All _ out)
    where
      outside :
          (n : ℕ) → (ltb n start_seq || ltb end_seq n) ≡ true → (n < start_seq) ⊎ (end_seq < n)
      outside n h = ground arith

  keep_outside :
      (out : List SurfaceEntry)
      → All (IsOutside start_seq end_seq) out
      → retain_outside start_seq end_seq out ≡ out
  keep_outside out h = filter_every _ out (All-imp _ (λ x k. passes x.seq k) out h)
    where
      passes : (n : ℕ) → (n < start_seq) ⊎ (end_seq < n) → (ltb n start_seq || ltb end_seq n) ≡ true
      passes n h = ground arith

  drop_within :
      (out : List SurfaceEntry)
      → All (IsWithin start_seq end_seq) out
      → retain_outside start_seq end_seq out ≡ []
  drop_within out h = filter_none _ out (All-imp _ (λ x k. stops x.seq k) out h)
    where
      stops : (n : ℕ) → (start_seq ≤ n) × (n ≤ end_seq) → (ltb n start_seq || ltb end_seq n) ≡ false
      stops n (h, k) = ground arith

  -- A contiguous span is cut out whole, and nothing else moves.
  pub retain_outside_span :
      (before span after : List SurfaceEntry)
      → All (IsOutside start_seq end_seq) before
      → All (IsWithin start_seq end_seq) span
      → All (IsOutside start_seq end_seq) after
      → retain_outside start_seq end_seq (before ++ (span ++ after)) ≡ before ++ after
  retain_outside_span before span after hb hs ha =
      rw
        (
          filter-append _ before (span ++ after),
          filter-append _ span after,
          keep_outside before hb,
          drop_within span hs,
          keep_outside after ha,
        )
        refl

  -- A replacement lands in front of the first surviving entry whose seq is not below its span.
  pub land_replace_splits :
      (entry : SurfaceEntry) (out : List SurfaceEntry)
      → (before after : List SurfaceEntry) × (retain_outside start_seq end_seq out
          ≡ before ++ after)
        × (land (replace start_seq end_seq) entry out ≡ before ++ entry ∷ after)
        × All (λ e. e.seq < start_seq) before
  unfolding land
  land_replace_splits entry out =
      let (before, after, same, placed, early) =
        position_splits (λ e. leb start_seq e.seq) entry (retain_outside start_seq end_seq out) in
      (before, after, same, placed, All-imp _ (λ x h. ground arith) before early)

  -- A replacement of a contiguous span stands where the span stood.
  pub land_replace_span :
      (entry : SurfaceEntry) (before span after : List SurfaceEntry)
      → start_seq ≤ end_seq
      → All (λ e. e.seq < start_seq) before
      → All (IsWithin start_seq end_seq) span
      → All (λ e. end_seq < e.seq) after
      → land (replace start_seq end_seq) entry (before ++ (span ++ after)) ≡ before ++ entry ∷ after
  unfolding land
  land_replace_span entry before span after ordered hb hs ha =
      rw
        (retain_outside_span before span after (All-imp _ (λ x h. inl h) before hb) hs
          (All-imp _ (λ x h. inr h) after ha))
        (position_at _ entry before after (All-imp _ (λ x h. ground arith) before hb)
          (All-imp _ (λ x h. ground arith) after ha))
