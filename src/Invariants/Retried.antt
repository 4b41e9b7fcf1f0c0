-- ===== src/Invariants/Retried.antt =====
-- crates/backend/src/invariants.rs: the history of a retry that passes its check.
use sica_rust.Prelude.{
  ℕ, Bool, true, false, List, [], ◌∷◌, ◌++◌, ◌<◌, ltb, lt→ltb, filter, filter-append, if◌then◌else◌,
  All, ◌≡◌, refl, ap, sym, ◌∙◌, arith,
}
use sica_rust.Prelude.Str.{Str}
use sica_rust.Log.{
  EventKind, user_message, assistant_message, tool_result, compaction_summary, context_injected,
  legacy_message, rewind, SessionEvent, surface_of,
}
use sica_rust.Log.Surface.{Derived, derive_kind, derive_from, derive_surface}
use sica_rust.Log.Surface.Shadow.{derive_from-append}
use sica_rust.Invariants.{is_surface, offenders, retry_violation, check_retry_appended_nothing}

abbrev pub is_rewind : EventKind → Bool
is_rewind (rewind _ _) = true
is_rewind _ = false

-- A row that is no surface row and no rewind leaves the history as it is.
derive_kind-quiet :
    (to_json : Str → Bool → Str → Str) (seq : ℕ) (k : EventKind) (d : Derived)
    → is_surface k ≡ false
    → is_rewind k ≡ false
    → (derive_kind to_json seq k d).out ≡ d.out
unfolding derive_kind surface_of
derive_kind-quiet to_json seq (user_message _ _ _) d h r = ground (arith, h)
derive_kind-quiet to_json seq (assistant_message _ _ _ _) d h r = ground (arith, h)
derive_kind-quiet to_json seq (tool_result _ _ _ _ _ _ _ _) d h r = ground (arith, h)
derive_kind-quiet to_json seq (compaction_summary _ _ _ _ _ _) d h r = ground (arith, h)
derive_kind-quiet to_json seq (context_injected _ _ _) d h r = ground (arith, h)
derive_kind-quiet to_json seq (legacy_message _ _) d h r = ground (arith, h)
derive_kind-quiet to_json seq (rewind _ _) d h r = ground (arith, r)
derive_kind-quiet to_json seq _ d h r = refl

offenders-late :
    (before : ℕ) (e : SessionEvent) (events : List SessionEvent)
    → before < e.seq
    → offenders before (e ∷ events)
      ≡ (if is_surface e.kind then e ∷ offenders before events else offenders before events)
offenders-late before e events h = rw (lt→ltb before e.seq h) refl

abbrev pub AllAfter : ℕ → List SessionEvent → Type 0
AllAfter before = All (λ e. before < e.seq)

abbrev pub NoRewinds : List SessionEvent → Type 0
NoRewinds = All (λ e. is_rewind e.kind ≡ false)

derive_from-quiet :
    (to_json : Str → Bool → Str → Str) (before : ℕ) (added : List SessionEvent) (d : Derived)
    → AllAfter before added
    → NoRewinds added
    → offenders before added ≡ []
    → (derive_from to_json d added).out ≡ d.out
unfolding derive_from
derive_from-quiet to_json before [] d late forward none_found = refl
derive_from-quiet to_json before (e ∷ added) d (late, lates) (forward, forwards) none_found =
    by_kind (is_surface e.kind) refl (sym (offenders-late before e added late) ∙ none_found)
      (derive_from-quiet to_json before added (derive_kind to_json e.seq e.kind d) lates forwards)
  where
    by_kind :
        (b : Bool)
        → is_surface e.kind ≡ b
        → (if b then e ∷ offenders before added else offenders before added) ≡ []
        → (offenders before added ≡ []
            → (derive_from to_json (derive_kind to_json e.seq e.kind d) added).out
              ≡ (derive_kind to_json e.seq e.kind d).out)
        → (derive_from to_json (derive_kind to_json e.seq e.kind d) added).out ≡ d.out
    by_kind true k h later = ground (arith, h)
    by_kind false k h later = later h ∙ derive_kind-quiet to_json e.seq e.kind d k forward

nothing_found : (events : List SessionEvent) → retry_violation events ≡ [] → events ≡ []
nothing_found [] h = refl
nothing_found (_ ∷ _) h = ground (arith, h)

offenders-append :
    (before : ℕ) (seen added : List SessionEvent)
    → offenders before (seen ++ added) ≡ offenders before seen ++ offenders before added
offenders-append before seen added =
    ap (filter (λ e. is_surface e.kind)) (filter-append (λ e. ltb before e.seq) seen added)
    ∙ filter-append (λ e. is_surface e.kind) (filter (λ e. ltb before e.seq) seen)
        (filter (λ e. ltb before e.seq) added)

append-[] : {A : Type 0} (xs ys : List A) → xs ++ ys ≡ [] → ys ≡ []
append-[] [] ys h = h
append-[] (_ ∷ _) ys h = ground (arith, h)

-- When a retry passes its check, the history that the model is sent again is the one of the failed attempt:
-- the rows that the attempt added derive nothing. The rows stand at the end of the log, with later seqs,
-- and none of them is a rewind, which the check does not look for.
pub check_retry_appended_nothing-derive_surface :
    (to_json : Str → Bool → Str → Str) (before : ℕ) (seen added : List SessionEvent)
    → AllAfter before added
    → NoRewinds added
    → check_retry_appended_nothing (seen ++ added) before ≡ []
    → derive_surface to_json (seen ++ added) ≡ derive_surface to_json seen
unfolding check_retry_appended_nothing derive_surface
check_retry_appended_nothing-derive_surface to_json before seen added late forward h =
    let start : Derived = record { calls = []; out = [] } in
    ap (λ d. d.out) (derive_from-append to_json start seen added)
    ∙ derive_from-quiet to_json before added (derive_from to_json start seen) late forward (
        append-[] (offenders before seen) (offenders before added) (
          sym (offenders-append before seen added)
          ∙ nothing_found (offenders before (seen ++ added)) h))
