-- ===== src/Project/Reminders/Recurrence.antt =====
-- crates/sica-core/src/project.rs: when a repeating reminder recurs.
use sica_rust.Prelude.{
  ℕ, Bool, true, false, Option, none, some, ◌>>=◌, ◌+◌, ◌*◌, ◌/◌, ◌%◌, ◌<◌, ◌≤◌, ◌==◌, ltb, ltb→lt,
  leb, option_or, if◌then◌else◌, ◌≡◌, refl, ap, sym, ◌∙◌, arith, Bool-cases, inl, inr,
}
use mathlib.Core.Path.{subst}
use native.Mathlib.Nat.{div-add-mod, mod-lt, mul-le-mul_right, mul_comm, suc-mul}
use sica_rust.Prelude.Int.{
  ℤ, pos, pos_part, neg_part, ◌+ℤ◌, ◌-ℤ◌, ◌≤ℤ◌, ◌<ℤ◌, ltb_ℤ, int_laws, eq_of_parts,
}
use sica_rust.Project.Reminders.{
  ScheduleRecord, i64_bound, in_i64, checked_i64, elapsed_i64, steps_after, times, after_anchor,
  recurs, next_after,
}

-- The first multiple of an interval past a time.
div_next :
    (d every : ℕ)
    → 0 < every
    → (d < (d / every + 1) * every)
      × ((j : ℕ) → d < j * every → (d / every + 1) * every ≤ j * every)
div_next d every h =
    let q = d / every in
    let parts : every * q + d % every ≡ d = div-add-mod d every in
    let below : d % every < every = mod-lt d h in
    let next : (q + 1) * every ≡ q * every + every =
      ap (λ x. x * every) (omega arith) ∙ suc-mul q every in
    (
      omega (arith, parts, below, next, mul_comm q every),
      λ j later. elim (Bool-cases (ltb q j)) [
        | inl e ↦ let more : q < j = ltb→lt q j e in mul-le-mul_right every (omega (arith, more))
        | inr e ↦
            let fewer : j ≤ q = ground (arith, e) in
            let less : j * every ≤ q * every = mul-le-mul_right every fewer in
            omega (arith, less, later, parts, mul_comm q every)
      ],
    )

-- An occurrence after a time, and no later than any other: an anchor and a whole number of intervals.
abbrev pub Occurs : (anchor now : ℤ) → ℕ → ℤ → Type 0
Occurs anchor now every next =
    (now <ℤ next)
    × ((k : ℕ) × (next ≡ anchor +ℤ pos (k * every)))
    × ((j : ℕ) → now <ℤ anchor +ℤ pos (j * every) → next ≤ℤ anchor +ℤ pos (j * every))

checked_i64-same : (a b : ℤ) → checked_i64 a ≡ some b → a ≡ b
checked_i64-same a b h = at (in_i64 a) h
  where
    at : (c : Bool) → (if c then some a else none) ≡ some b → a ≡ b
    at true k = ap (λ o. option_or o a) k
    at false k = ground (arith, k)

-- The time since the anchor.
elapsed_parts :
    (anchor now : ℤ)
    → ltb_ℤ now anchor ≡ false
    → pos_part (now -ℤ anchor) + pos_part anchor + neg_part now ≡ pos_part now + neg_part anchor
unfolding ◌-ℤ◌
elapsed_parts anchor now late = ground (arith, late)

checked_bind : (a : ℤ) (f : ℤ → Option ℤ) (b : ℤ) → (checked_i64 a >>= f) ≡ some b → f a ≡ some b
checked_bind a f b h = at (in_i64 a) h
  where
    at : (c : Bool) → ((if c then some a else none) >>= f) ≡ some b → f a ≡ some b
    at true k = k
    at false k = ground (arith, k)

elapsed_i64-fits : (d : ℕ) → d < i64_bound → elapsed_i64 d ≡ pos d
elapsed_i64-fits d h = ground (arith, h)

later-Occurs :
    (anchor now : ℤ) (every : ℕ) (next : ℤ)
    → 0 < every
    → ltb_ℤ now anchor ≡ false
    → pos_part (now -ℤ anchor) < i64_bound
    → after_anchor anchor now every ≡ some next
    → Occurs anchor now every next
later-Occurs anchor now every next h late fits e =
    let d = pos_part (now -ℤ anchor) in
    let offset = (d / every + 1) * every in
    let plain : (checked_i64 (pos offset) >>= (λ o. checked_i64 (anchor +ℤ o))) ≡ some next =
      ap (λ x. checked_i64 (times (steps_after x every) every) >>= (λ o. checked_i64 (anchor +ℤ o)))
        (sym (elapsed_i64-fits d fits))
      ∙ e in
    let same : anchor +ℤ pos offset ≡ next =
      checked_i64-same (anchor +ℤ pos offset) next
        (checked_bind (pos offset) (λ o. checked_i64 (anchor +ℤ o)) next plain) in
    let bounds = div_next d every h in
    let since = elapsed_parts anchor now late in
    subst (Occurs anchor now every) same (
      omega (int_laws, bounds.0, since),
      (d / every + 1, refl),
      λ j later.
          let past : d < j * every = omega (int_laws, since, later) in
          omega (int_laws, bounds.1 j past),
    )

first-Occurs : (anchor now : ℤ) (every : ℕ) → now <ℤ anchor → Occurs anchor now every anchor
first-Occurs anchor now every early = (
  early,
  (0, eq_of_parts anchor (anchor +ℤ pos (0 * every)) (omega (int_laws))),
  λ j later. omega (int_laws),
)

recurs-Occurs :
    (anchor now : ℤ) (every : ℕ) (next : ℤ)
    → pos_part (now -ℤ anchor) < i64_bound
    → recurs anchor now every ≡ some next
    → Occurs anchor now every next
recurs-Occurs anchor now every next fits =
    at (every == 0) (leb i64_bound every) (ltb_ℤ now anchor) refl refl
  where
    at :
        (zero_every huge early : Bool)
        → (every == 0) ≡ zero_every
        → ltb_ℤ now anchor ≡ early
        → (if zero_every
            then none
            else if huge
            then none
            else if early
            then some anchor
            else after_anchor anchor now every)
          ≡ some next
        → Occurs anchor now every next
    at true huge early z l e = ground (arith, e)
    at false true early z l e = ground (arith, e)
    at false false true z l e =
        let same : anchor ≡ next = ap (λ o. option_or o anchor) e in
        subst (Occurs anchor now every) same (first-Occurs anchor now every (ground (arith, l)))
    at false false false z l e = later-Occurs anchor now every next (ground (arith, z)) l fits e

-- What `next_after` gives for a reminder that repeats is an occurrence after the time that it is asked
-- for, a whole number of intervals past the anchor, and no occurrence after that time comes before it:
-- a record that missed any number of them goes to the next one. The time since the anchor is one that an
-- `i64` holds.
pub next_after-Occurs :
    (r : ScheduleRecord) (now : ℤ) (every : ℕ) (next : ℤ)
    → r.every_seconds ≡ some every
    → pos_part (now -ℤ r.anchor) < i64_bound
    → next_after r now ≡ some next
    → Occurs r.anchor now every next
unfolding next_after
next_after-Occurs r now every next repeats fits e =
    recurs-Occurs r.anchor now every next fits
      (sym (ap (λ o. o >>= recurs r.anchor now) repeats) ∙ e)
