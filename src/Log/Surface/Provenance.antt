-- ===== src/Log/Surface/Provenance.antt =====
-- Where the entries of a derived history come from: each from one logged event, and none from a span
-- that an event of the log has shadowed.
use mathlib.Core.List.{Memᴰ}
use sica_rust.Prelude.{
  ℕ, ◌<◌, ◌≡◌, ◌⊎◌, refl, sym, Bool, none, some, List, [], ◌∷◌, arith, All, All-append, All-filter,
  All-insert_at,
}
use sica_rust.Prelude.Str.{Str}
use sica_rust.Log.{
  SurfaceOp, append, replace, EventKind, SessionEvent, surface_of, user_message, assistant_message,
  tool_result, context_injected, compaction_summary, rewind, legacy_message,
}
use sica_rust.Log.Surface.{
  SurfaceEntry, Derived, retain_outside, land, derive_kind, derive_from, derive_surface,
}

-- The seqs of a log rise, from above `n`.
abbrev pub Rises : ℕ → List SessionEvent → Type 0
Rises n [] = Unit
Rises n (ev ∷ events) = (n < ev.seq) × Rises ev.seq events

-- What one event does to the history: nothing, a removal, or one entry under its own seq.
pub data Effect (seq : ℕ) (kind : EventKind) (before after : List SurfaceEntry) : Type 0 where
  skips : surface_of kind ≡ none → after ≡ before → Effect seq kind before after
  drops :
      (start_seq end_seq : ℕ)
      → kind ≡ rewind start_seq end_seq
      → surface_of kind ≡ none
      → after ≡ retain_outside start_seq end_seq before
      → Effect seq kind before after
  lands :
      (op : SurfaceOp) (entry : SurfaceEntry)
      → surface_of kind ≡ some op
      → entry.seq ≡ seq
      → after ≡ land op entry before
      → Effect seq kind before after

module _ (to_json : Str → Bool → Str → Str) where
  pub derive_kind-Effect :
      (seq : ℕ) (kind : EventKind) (d : Derived)
      → Effect seq kind d.out (derive_kind to_json seq kind d).out
  unfolding derive_kind surface_of
  derive_kind-Effect seq (rewind s e) d = drops s e refl refl refl
  derive_kind-Effect seq (user_message op _ _) d = lands op _ refl refl refl
  derive_kind-Effect seq (assistant_message op _ _ _) d = lands op _ refl refl refl
  derive_kind-Effect seq (tool_result op _ _ _ _ _ _ _) d = lands op _ refl refl refl
  derive_kind-Effect seq (compaction_summary op _ _ _ _ _) d = lands op _ refl refl refl
  derive_kind-Effect seq (context_injected op _ _) d = lands op _ refl refl refl
  derive_kind-Effect seq (legacy_message op _) d = lands op _ refl refl refl
  derive_kind-Effect seq _ d = skips refl refl

module _ {ℓ} (P : SurfaceEntry → Type ℓ) where
  pub retain_outside-keeps :
      (s e : ℕ) (out : List SurfaceEntry) → All P out → All P (retain_outside s e out)
  retain_outside-keeps s e out h = All-filter P _ out h

  pub land-All :
      (op : SurfaceOp) (entry : SurfaceEntry) (out : List SurfaceEntry)
      → P entry
      → All P out
      → All P (land op entry out)
  unfolding land
  land-All append entry out h k = All-append P out (entry ∷ []) k (h, tt)
  land-All (replace s e) entry out h k =
      All-insert_at P _ entry (retain_outside s e out) h (All-filter P _ out k)

  pub Effect-All :
      {seq : ℕ} {kind : EventKind} {before after : List SurfaceEntry}
      → Effect seq kind before after
      → ((op : SurfaceOp) (entry : SurfaceEntry)
          → surface_of kind ≡ some op
          → entry.seq ≡ seq
          → P entry)
      → All P before
      → All P after
  Effect-All (skips _ same) new h = rw same h
  Effect-All (drops s e _ _ same) new h = rw same (All-filter P _ _ h)
  Effect-All (lands op entry surfaced from_seq same) new h =
      rw same (land-All op entry _ (new op entry surfaced from_seq) h)

  pub derive_from-All :
      (to_json : Str → Bool → Str → Str) (events : List SessionEvent) (d : Derived)
      → ((ev : SessionEvent) (op : SurfaceOp) (entry : SurfaceEntry)
          → Memᴰ ev events
          → surface_of ev.kind ≡ some op
          → entry.seq ≡ ev.seq
          → P entry)
      → All P d.out
      → All P (derive_from to_json d events).out
  unfolding derive_from
  derive_from-All to_json [] d new h = h
  derive_from-All to_json (ev ∷ events) d new h =
      derive_from-All to_json events (derive_kind to_json ev.seq ev.kind d)
        (λ later op entry m. new later op entry (Memᴰ.tail m))
        (Effect-All (derive_kind-Effect to_json ev.seq ev.kind d)
          (λ op entry. new ev op entry (Memᴰ.head refl)) h)

-- The event of a log that an entry comes from.
abbrev pub Logged : List SessionEvent → SurfaceEntry → Type 0
Logged events e =
    (ev : SessionEvent) × (op : SurfaceOp) × Memᴰ ev events
    × (ev.seq ≡ e.seq)
    × (surface_of ev.kind ≡ some op)

-- Every entry of a derived history stands under the seq of an event of the log whose kind has a
-- surface op.
pub derive_surface-Logged :
    (to_json : Str → Bool → Str → Str) (events : List SessionEvent)
    → All (Logged events) (derive_surface to_json events)
unfolding derive_surface
derive_surface-Logged to_json events =
    derive_from-All (Logged events) to_json events (record { calls = []; out = [] })
      (λ ev op entry m surfaced from_seq. (ev, op, m, sym from_seq, surfaced)) tt

pub Rises-Memᴰ :
    {n : ℕ} {ev : SessionEvent} (events : List SessionEvent)
    → Rises n events
    → Memᴰ ev events
    → n < ev.seq
Rises-Memᴰ [] h m = elim m [ ]
Rises-Memᴰ (x ∷ events) (h, k) (Memᴰ.head same) = rw same h
Rises-Memᴰ (x ∷ events) (h, k) (Memᴰ.tail m) = omega (arith, Rises-Memᴰ events k m)

-- An event that shadows a span.
abbrev pub Shadows : ℕ → ℕ → EventKind → Type 0
Shadows s e kind = (kind ≡ rewind s e) ⊎ (surface_of kind ≡ some (replace s e))
