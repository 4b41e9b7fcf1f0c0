-- ===== src/Log/Migrate.antt =====
-- crates/sica-core/src/event.rs, `mod migrate`: upgrades of the on-disk format, row by row.
use sica_rust.Prelude.{
  ℕ, ◌%◌, ◌<◌, ◌≡◌, refl, ap, Bool, true, false, Option, none, some, List, [], ◌∷◌, arith, ltb,
  ◌==◌, if◌then◌else◌, Bool-cases, inl, inr, find, option_or, drop, length, is_some, ◌>>=◌, ◌∙◌,
}
use sica_rust.Prelude.Str.{Str, str, str_eq}

-- What the steps ask of a `serde_json` row: its `type` as a text, its `format` as a number, and the
-- insertion of a `format` where the row is an object. A row with a `type` is an object.
pub record JsonRows : Type 1 where
  pub Row : Type 0
  pub type_of : Row → Option Str
  pub format : Row → Option ℕ
  pub insert_format : ℕ → Row → Row
  pub format-insert_format :
      (n : ℕ) (r : Row) → is_some (type_of r) ≡ true → format (insert_format n r) ≡ some n
  pub type_of-insert_format : (n : ℕ) (r : Row) → type_of (insert_format n r) ≡ type_of r

abbrev pub session_format : ℕ
session_format = 1

pub data Plan : Type 0 where
  current : Plan
  migrate : (from : ℕ) → Plan
  future : (format : ℕ) → Plan

abbrev is_type : Option Str → Bool
is_type none = false
is_type (some t) = str_eq t (str "session_created")

module _ (json : JsonRows) where
  open json use {Row, type_of, format, insert_format, format-insert_format, type_of-insert_format}

  abbrev pub is_header : Row → Bool
  is_header r = is_type (type_of r)

  -- The header's generation, as a `u16`.
  unfoldable pub format_of : List Row → ℕ
  format_of rows = option_or (find is_header rows >>= format) 0 % 65536

  unfoldable pub plan : List Row → Plan
  unfolding format_of
  plan rows =
      let f = format_of rows in
      if f == session_format then current else if ltb session_format f then future f else migrate f

  -- Stamps the first header, and stops there.
  unfoldable pub v0_to_v1 : List Row → List Row
  v0_to_v1 [] = []
  v0_to_v1 (r ∷ rows) = if is_header r then insert_format 1 r ∷ rows else r ∷ v0_to_v1 rows

  -- The upgrades, indexed by the generation that they start from.
  abbrev pub chain : List (List Row → List Row)
  chain = v0_to_v1 ∷ []

  abbrev run_steps : List (List Row → List Row) → List Row → List Row
  run_steps [] rows = rows
  run_steps (step ∷ steps) rows = run_steps steps (step rows)

  apply_plan : Plan → List Row → List Row × Option ℕ
  apply_plan (migrate from) rows = (run_steps (drop from chain) rows, some from)
  apply_plan _ rows = (rows, none)

  -- The new rows, and the generation that they come from if there was something to do.
  unfoldable pub apply : List Row → List Row × Option ℕ
  unfolding apply_plan
  apply rows = apply_plan (plan rows) rows

  length-v0_to_v1 : (rows : List Row) → length (v0_to_v1 rows) ≡ length rows
  unfolding v0_to_v1
  length-v0_to_v1 [] = refl
  length-v0_to_v1 (r ∷ rows) = ground (arith, length-v0_to_v1 rows)

  is_type-some : (o : Option Str) → is_type o ≡ true → is_some o ≡ true
  is_type-some none h = cc
  is_type-some (some t) h = refl

  format_of-v0_to_v1 :
      (rows : List Row) (h : Row) → find is_header rows ≡ some h → format_of (v0_to_v1 rows) ≡ 1
  unfolding v0_to_v1 format_of
  format_of-v0_to_v1 [] h e = cc
  format_of-v0_to_v1 (r ∷ rows) h e = elim (Bool-cases (is_header r)) [
    | inl header ↦
        let still : is_header (insert_format 1 r) ≡ true =
          ap is_type (type_of-insert_format 1 r) ∙ header in
        let stamped = format-insert_format 1 r (is_type-some (type_of r) header) in
        rw header (rw still (rw stamped refl))
    | inr other ↦ rw other (rw other (format_of-v0_to_v1 rows h (rw other at e)))
  ]

  format_of_header :
      (rows : List Row) (h : Row) (n : ℕ)
      → find is_header rows ≡ some h
      → format h ≡ some n
      → n < 65536
      → format_of rows ≡ n
  unfolding format_of
  format_of_header rows h n header claimed fits = rw (header, claimed) (omega arith)

  run_steps-header :
      (rows : List Row) (h : Row)
      → find is_header rows ≡ some h
      → plan (run_steps (drop 0 chain) rows) ≡ current
  unfolding plan
  run_steps-header rows h e = rw (format_of-v0_to_v1 rows h e) refl

  migrate-zero : (rows : List Row) (from : ℕ) → plan rows ≡ migrate from → from ≡ 0
  unfolding plan
  migrate-zero rows from e = ground arith

  -- A log with a header that the plan says to migrate comes out at this build's generation, with as
  -- many rows, and a second pass has nothing to do.
  pub apply_upgrades :
      (rows : List Row) (h : Row) (from : ℕ)
      → find is_header rows ≡ some h
      → plan rows ≡ migrate from
      → ((apply rows).1 ≡ some from)
        × (plan (apply rows).0 ≡ current)
        × (length (apply rows).0 ≡ length rows)
        × (apply (apply rows).0 ≡ ((apply rows).0, none))
  unfolding apply
  apply_upgrades rows h from header planned =
      let zero_from = migrate-zero rows from planned in
      let now : plan (v0_to_v1 rows) ≡ current = run_steps-header rows h header in
      rw planned (rw zero_from (refl, now, length-v0_to_v1 rows, rw now refl))

  plan_of_header :
      (rows : List Row) (h : Row) (n : ℕ)
      → find is_header rows ≡ some h
      → format h ≡ some n
      → session_format < n
      → n < 65536
      → plan rows ≡ future n
  unfolding plan
  plan_of_header rows h n header claimed newer fits =
      let read : format_of rows ≡ n = format_of_header rows h n header claimed fits in
      rw read (ground arith)

  -- A log that claims a newer generation, as far as a `u16` holds it, is refused untouched.
  pub apply_refuses_future :
      (rows : List Row) (h : Row) (n : ℕ)
      → find is_header rows ≡ some h
      → format h ≡ some n
      → session_format < n
      → n < 65536
      → (plan rows ≡ future n) × (apply rows ≡ (rows, none))
  unfolding plan apply
  apply_refuses_future rows h n header claimed newer fits =
      let planned = plan_of_header rows h n header claimed newer fits in (planned, rw planned refl)
