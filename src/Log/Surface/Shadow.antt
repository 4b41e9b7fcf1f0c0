-- ===== src/Log/Surface/Shadow.antt =====
-- What a compaction or a rewind has shadowed stays out of the history, whatever is logged later, and
-- no two entries of a history share a seq.
use mathlib.Core.Path.{subst}
use sica_rust.Prelude.{
  ℕ, ◌≤◌, ◌<◌, ◌≡◌, ◌≢◌, inl, inr, refl, sym, Bool, true, false, some, List, [], ◌∷◌, ◌++◌, arith,
  All, All-append, All-imp, All-filter, All-insert_at, filter, zero, suc, insert_at, if◌then◌else◌,
}
use sica_rust.Prelude.Str.{Str}
use sica_rust.Log.{SurfaceOp, append, replace, EventKind, SessionEvent, surface_of}
use sica_rust.Log.Surface.{
  SurfaceEntry, Derived, retain_outside, land, derive_kind, derive_from, derive_surface,
}
use sica_rust.Log.Surface.Spans.{IsOutside, retain_outside-All}
use sica_rust.Log.Surface.Provenance.{
  Rises, Rises-Memᴰ, Effect, skips, drops, lands, derive_kind-Effect, derive_from-All, Effect-All,
  Shadows,
}

-- `derive_kind` and `derive_from` run the log in pieces.
pub derive_from-append :
    (to_json : Str → Bool → Str → Str) (d : Derived) (front back : List SessionEvent)
    → derive_from to_json d (front ++ back) ≡ derive_from to_json (derive_from to_json d front) back
unfolding derive_from
derive_from-append to_json d [] back = refl
derive_from-append to_json d (ev ∷ front) back =
    derive_from-append to_json (derive_kind to_json ev.seq ev.kind d) front back

pub derive_from-cons :
    (to_json : Str → Bool → Str → Str) (d : Derived) (ev : SessionEvent) (back : List SessionEvent)
    → derive_from to_json d (ev ∷ back)
      ≡ derive_from to_json (derive_kind to_json ev.seq ev.kind d) back
unfolding derive_from
derive_from-cons to_json d ev back = refl

pub Rises-after :
    (n : ℕ) (front : List SessionEvent) (ev : SessionEvent) (back : List SessionEvent)
    → Rises n (front ++ ev ∷ back)
    → Rises ev.seq back
Rises-after n [] ev back (h, k) = k
Rises-after n (x ∷ front) ev back (h, k) = Rises-after x.seq front ev back k

land_replace-All :
    (s e : ℕ) (entry : SurfaceEntry) (out : List SurfaceEntry)
    → IsOutside s e entry
    → All (IsOutside s e) (land (replace s e) entry out)
unfolding land
land_replace-All s e entry out h =
    All-insert_at (IsOutside s e) _ entry (retain_outside s e out) h (retain_outside-All s e out)

Effect-shadow :
    {seq s e : ℕ} {kind : EventKind} {before after : List SurfaceEntry}
    → Effect seq kind before after
    → surface_of kind ≡ some (replace s e)
    → e < seq
    → All (IsOutside s e) after
Effect-shadow (skips nothing _) op h = cc
Effect-shadow (drops _ _ _ nothing _) op h = cc
Effect-shadow {s} {e} {before} (lands op' entry op'' from_seq same) op h =
    let same_op : op' ≡ replace s e = cc in
    rw (same, same_op) (land_replace-All s e entry before (inr (omega arith)))

derive_kind-shadow :
    (to_json : Str → Bool → Str → Str) (seq s e : ℕ) (kind : EventKind) (d : Derived)
    → Shadows s e kind
    → e < seq
    → All (IsOutside s e) (derive_kind to_json seq kind d).out
unfolding derive_kind
derive_kind-shadow to_json seq s e kind d (inl rewinds) h =
    rw rewinds (retain_outside-All s e d.out)
derive_kind-shadow to_json seq s e kind d (inr replaces) h =
    Effect-shadow (derive_kind-Effect to_json seq kind d) replaces h

-- Once an event has shadowed a span of earlier seqs, no entry of the derived history lies in it,
-- whatever was logged before and is logged after, as long as the log's seqs rise.
pub shadowed_stays_hidden :
    (to_json : Str → Bool → Str → Str) (front back : List SessionEvent) (ev : SessionEvent)
    (s e : ℕ)
    → Rises 0 (front ++ ev ∷ back)
    → Shadows s e ev.kind
    → e < ev.seq
    → All (IsOutside s e) (derive_surface to_json (front ++ ev ∷ back))
unfolding derive_surface
shadowed_stays_hidden to_json front back ev s e rises shadows h =
    let d : Derived = derive_from to_json (record { calls = []; out = [] }) front in
    subst (λ r. All (IsOutside s e) r.out)
      (sym (derive_from-append to_json (record { calls = []; out = [] }) front (ev ∷ back)))
      (derive_from-All (IsOutside s e) to_json back (derive_kind to_json ev.seq ev.kind d)
        (λ later op entry m _ from_seq.
          inr (omega (arith, Rises-Memᴰ back (Rises-after 0 front ev back rises) m)))
        (derive_kind-shadow to_json ev.seq s e ev.kind d shadows h))

-- The entries of a history have seqs of their own.
abbrev pub AllDistinct : List SurfaceEntry → Type 0
AllDistinct [] = Unit
AllDistinct (x ∷ out) = All (λ y. x.seq ≢ y.seq) out × AllDistinct out

filter-AllDistinct :
    (p : SurfaceEntry → Bool) (out : List SurfaceEntry)
    → AllDistinct out
    → AllDistinct (filter p out)
filter-AllDistinct p [] h = tt
filter-AllDistinct p (x ∷ out) (hx, h) =
    keep (p x) (All-filter _ p out hx) (filter-AllDistinct p out h)
  where
    keep :
        (b : Bool)
        → All (λ y. x.seq ≢ y.seq) (filter p out)
        → AllDistinct (filter p out)
        → AllDistinct (if b then x ∷ filter p out else filter p out)
    keep true k l = (k, l)
    keep false k l = l

insert_at-AllDistinct :
    (n : ℕ) (entry : SurfaceEntry) (out : List SurfaceEntry)
    → All (λ y. y.seq < entry.seq) out
    → AllDistinct out
    → AllDistinct (insert_at n entry out)
insert_at-AllDistinct zero entry out h d = (All-imp _ (λ x k. omega arith) out h, d)
insert_at-AllDistinct (suc n) entry [] h d = (tt, tt)
insert_at-AllDistinct (suc n) entry (x ∷ out) (hx, h) (dx, d) =
    (All-insert_at _ n entry out (omega arith) dx, insert_at-AllDistinct n entry out h d)

append_one-AllDistinct :
    (out : List SurfaceEntry) (entry : SurfaceEntry)
    → All (λ y. y.seq < entry.seq) out
    → AllDistinct out
    → AllDistinct (out ++ entry ∷ [])
append_one-AllDistinct [] entry h d = (tt, tt)
append_one-AllDistinct (x ∷ out) entry (hx, h) (dx, d) =
    (All-append _ out (entry ∷ []) dx (omega arith, tt), append_one-AllDistinct out entry h d)

land-AllDistinct :
    (op : SurfaceOp) (entry : SurfaceEntry) (out : List SurfaceEntry)
    → All (λ y. y.seq < entry.seq) out
    → AllDistinct out
    → AllDistinct (land op entry out)
unfolding land
land-AllDistinct append entry out h d = append_one-AllDistinct out entry h d
land-AllDistinct (replace s e) entry out h d =
    insert_at-AllDistinct _ entry (retain_outside s e out) (All-filter _ _ out h)
      (filter-AllDistinct _ out d)

Effect-AllDistinct :
    {seq : ℕ} {kind : EventKind} {before after : List SurfaceEntry}
    → Effect seq kind before after
    → All (λ y. y.seq < seq) before
    → AllDistinct before
    → AllDistinct after
Effect-AllDistinct (skips _ same) h d = rw same d
Effect-AllDistinct (drops s e _ _ same) h d = rw same (filter-AllDistinct _ _ d)
Effect-AllDistinct {before} (lands op entry _ from_seq same) h d =
    rw same (land-AllDistinct op entry before (All-imp _ (λ x k. omega arith) before h) d)

derive_from-AllDistinct :
    (to_json : Str → Bool → Str → Str) (n : ℕ) (events : List SessionEvent) (d : Derived)
    → Rises n events
    → All (λ y. y.seq ≤ n) d.out
    → AllDistinct d.out
    → AllDistinct (derive_from to_json d events).out
unfolding derive_from
derive_from-AllDistinct to_json n [] d rises h k = k
derive_from-AllDistinct to_json n (ev ∷ events) d (first, rises) h k =
    let effect = derive_kind-Effect to_json ev.seq ev.kind d in
    derive_from-AllDistinct to_json ev.seq events (derive_kind to_json ev.seq ev.kind d) rises
      (Effect-All _ effect (λ op entry _ from_seq. omega arith)
        (All-imp _ (λ x l. omega arith) d.out h))
      (Effect-AllDistinct effect (All-imp _ (λ x l. omega arith) d.out h) k)

-- In a log whose seqs rise, no two entries of the derived history stand under one seq.
pub derive_surface-AllDistinct :
    (to_json : Str → Bool → Str → Str) (events : List SessionEvent)
    → Rises 0 events
    → AllDistinct (derive_surface to_json events)
unfolding derive_surface
derive_surface-AllDistinct to_json events rises =
    derive_from-AllDistinct to_json 0 events (record { calls = []; out = [] }) rises tt tt
