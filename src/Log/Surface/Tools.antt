-- ===== src/Log/Surface/Tools.antt =====
-- Tool results in the derived history: joined with the call that they answer, and framed when they
-- carry fetched data.
use mathlib.Core.List.{append_assoc}
use sica_rust.Prelude.{
  ℕ, ◌≤◌, ◌≡◌, ◌≢◌, ◌⊎◌, inl, inr, refl, ap, sym, ◌∙◌, Bool, true, false, Option, none, some, List,
  [], ◌∷◌, ◌++◌, arith, All, option_or,
}
use sica_rust.Prelude.Str.{Str}
use sica_rust.Log.{
  append, EventKind, SessionEvent, user_message, assistant_message, tool_call, tool_result,
  context_injected, compaction_summary, rewind, legacy_message,
}
use sica_rust.Log.Surface.{
  CallInfo, call_at, result_entry, untrusted_notice, tool_result_message, SurfaceEntry, Derived,
  land, derive_kind, derive_from, derive_surface,
}
use sica_rust.Log.Surface.Provenance.{Rises, land-All, retain_outside-keeps}
use sica_rust.Log.Surface.Shadow.{derive_from-append, derive_from-cons, Rises-after}

derive_kind-call_at :
    (to_json : Str → Bool → Str → Str) (c seq : ℕ) (kind : EventKind) (d : Derived)
    → c ≢ seq
    → call_at c (derive_kind to_json seq kind d).calls ≡ call_at c d.calls
unfolding derive_kind
derive_kind-call_at to_json c seq (tool_call _ _ _ _ _) d h = ground arith
derive_kind-call_at to_json c seq _ d h = refl

-- Later rows leave a recorded call alone.
derive_from-call_at :
    (to_json : Str → Bool → Str → Str) (c n : ℕ) (events : List SessionEvent) (d : Derived)
    → Rises n events
    → c ≤ n
    → call_at c (derive_from to_json d events).calls ≡ call_at c d.calls
unfolding derive_from
derive_from-call_at to_json c n [] d rises h = refl
derive_from-call_at to_json c n (ev ∷ events) d (first, rises) h =
    derive_from-call_at to_json c ev.seq events (derive_kind to_json ev.seq ev.kind d) rises
      (omega arith)
    ∙ derive_kind-call_at to_json c ev.seq ev.kind d (omega arith)

Rises-front : (n : ℕ) (front back : List SessionEvent) → Rises n (front ++ back) → Rises n front
Rises-front n [] back h = tt
Rises-front n (x ∷ front) back (h, k) = (h, Rises-front x.seq front back k)

-- The content of an untrusted result begins with the notice.
abbrev pub IsFramed : SurfaceEntry → Type 0
IsFramed e = elim e.tool [
  | none ↦ Unit {0}
  | some meta ↦
      (meta.trusted ≡ true)
      ⊎ ((block : Str) × (e.message.content ≡ untrusted_notice ++ (10 ∷ block)))
]

module _ (to_json : Str → Bool → Str → Str) where
  tool_result_message-framed :
      (skill : Str) (ok : Bool) (summary : Str) (trusted : Bool)
      → (trusted ≡ true)
        ⊎ ((block : Str) × (tool_result_message to_json skill ok summary trusted
              ≡ untrusted_notice ++ (10 ∷ block)))
  unfolding tool_result_message
  tool_result_message-framed skill ok summary true = inl refl
  tool_result_message-framed skill ok summary false = inr (_, refl)

  derive_kind-IsFramed :
      (seq : ℕ) (kind : EventKind) (d : Derived)
      → All IsFramed d.out
      → All IsFramed (derive_kind to_json seq kind d).out
  unfolding derive_kind
  derive_kind-IsFramed seq (rewind s e) d h = retain_outside-keeps IsFramed s e d.out h
  derive_kind-IsFramed seq (user_message op _ _) d h = land-All IsFramed op _ d.out tt h
  derive_kind-IsFramed seq (assistant_message op _ _ _) d h = land-All IsFramed op _ d.out tt h
  derive_kind-IsFramed seq (tool_result op _ skill _ ok summary trusted _) d h =
      land-All IsFramed op _ d.out (tool_result_message-framed skill ok summary trusted) h
  derive_kind-IsFramed seq (compaction_summary op _ _ _ _ _) d h = land-All IsFramed op _ d.out tt h
  derive_kind-IsFramed seq (context_injected op _ _) d h = land-All IsFramed op _ d.out tt h
  derive_kind-IsFramed seq (legacy_message op _) d h = land-All IsFramed op _ d.out tt h
  derive_kind-IsFramed seq _ d h = h

  derive_from-IsFramed :
      (events : List SessionEvent) (d : Derived)
      → All IsFramed d.out
      → All IsFramed (derive_from to_json d events).out
  unfolding derive_from
  derive_from-IsFramed [] d h = h
  derive_from-IsFramed (ev ∷ events) d h =
      derive_from-IsFramed events (derive_kind to_json ev.seq ev.kind d)
        (derive_kind-IsFramed ev.seq ev.kind d h)

  -- Whatever the log holds, each tool result in the derived history that is not trusted is a message
  -- that begins with the notice that its content is data, not instructions.
  pub derive_surface-IsFramed :
      (events : List SessionEvent) → All IsFramed (derive_surface to_json events)
  unfolding derive_surface
  derive_surface-IsFramed events = derive_from-IsFramed events (record { calls = []; out = [] }) tt

  result-lands :
      (seq call_seq : ℕ) (info : CallInfo) (skill : Str) (tool_call_id : Option Str) (ok : Bool)
      (summary : Str) (trusted pruned : Bool) (d : Derived)
      → call_at call_seq d.calls ≡ some info
      → (derive_kind to_json seq
          (tool_result append call_seq skill tool_call_id ok summary trusted pruned)
          d).out
        ≡ d.out
          ++ result_entry to_json seq call_seq info skill tool_call_id ok summary trusted pruned
            ∷ []
  unfolding derive_kind land
  result-lands seq call_seq info skill tool_call_id ok summary trusted pruned d known =
      ap
        (λ o.
          d.out
          ++ result_entry to_json seq call_seq
              (option_or o
                (record { name = skill; args_preview = skill; expectation = []; args_json = none }))
              skill tool_call_id ok summary trusted pruned
            ∷ [])
        known

  call-recorded :
      (seq : ℕ) (name args_preview expectation : Str) (call_id args_json : Option Str) (d : Derived)
      → call_at seq
          (derive_kind to_json seq
            (tool_call name args_preview expectation call_id args_json)
            d).calls
        ≡ some (record {
          name = name;
          args_preview = args_preview;
          expectation = expectation;
          args_json = args_json;
        })
  unfolding derive_kind
  call-recorded seq name args_preview expectation call_id args_json d = ground arith

  call-known :
      (front mid : List SessionEvent) (call result : SessionEvent) (info : CallInfo)
      → Rises 0 (front ++ call ∷ (mid ++ result ∷ []))
      → call_at call.seq
          (derive_kind to_json call.seq call.kind
            (derive_from to_json (record { calls = []; out = [] }) front)).calls
        ≡ some info
      → call_at call.seq
          (derive_from to_json (record { calls = []; out = [] }) (front ++ call ∷ mid)).calls
        ≡ some info
  call-known front mid call result info rises recorded =
      let start : Derived = record { calls = []; out = [] } in
      let later = Rises-after 0 front call (mid ++ result ∷ []) rises in
      ap (λ r. call_at call.seq r.calls)
        (derive_from-append to_json start front (call ∷ mid)
          ∙ derive_from-cons to_json (derive_from to_json start front) call mid)
      ∙ derive_from-call_at to_json call.seq call.seq mid
          (derive_kind to_json call.seq call.kind (derive_from to_json start front))
          (Rises-front call.seq mid (result ∷ []) later) (omega arith)
      ∙ recorded

  -- A result logged after its call, with an append, becomes the newest entry of the history. The
  -- entry carries the call's name, preview, expectation and arguments, and the result's own outcome.
  pub tool_result-joins-tool_call :
      (front mid : List SessionEvent) (call result : SessionEvent)
      (name args_preview expectation : Str) (call_id args_json : Option Str) (skill : Str)
      (tool_call_id : Option Str) (ok : Bool) (summary : Str) (trusted pruned : Bool)
      → Rises 0 (front ++ call ∷ (mid ++ result ∷ []))
      → call.kind ≡ tool_call name args_preview expectation call_id args_json
      → result.kind ≡ tool_result append call.seq skill tool_call_id ok summary trusted pruned
      → (entry : SurfaceEntry) × (derive_surface to_json (front ++ call ∷ (mid ++ result ∷ []))
          ≡ derive_surface to_json (front ++ call ∷ mid) ++ entry ∷ [])
        × (entry.seq ≡ result.seq)
        × (entry.message.content ≡ tool_result_message to_json skill ok summary trusted)
        × (entry.tool
            ≡ some (record {
              name = name;
              args_preview = args_preview;
              expectation = expectation;
              ok = ok;
              call_seq = call.seq;
              summary = summary;
              trusted = trusted;
              pruned = pruned;
              args_json = args_json;
            }))
  unfolding derive_surface derive_from
  tool_result-joins-tool_call front mid call result name args_preview expectation call_id args_json
        skill tool_call_id ok summary trusted pruned rises is_call is_result =
      let start : Derived = record { calls = []; out = [] } in
      let info : CallInfo = record {
        name = name;
        args_preview = args_preview;
        expectation = expectation;
        args_json = args_json;
      } in
      let d : Derived = derive_from to_json start front in
      let known =
        call-known front mid call result info rises
          (rw is_call (call-recorded call.seq name args_preview expectation call_id args_json d)) in
      (
        result_entry to_json result.seq call.seq info skill tool_call_id ok summary trusted pruned,
        ap (λ r. r.out)
              (ap (derive_from to_json start) (sym (append_assoc front (call ∷ mid) (result ∷ [])))
                ∙ derive_from-append to_json start (front ++ call ∷ mid) (result ∷ []))
            ∙ rw is_result (
                result-lands result.seq call.seq info skill tool_call_id ok summary trusted pruned
                  (derive_from to_json start (front ++ call ∷ mid)) known),
        refl,
        refl,
        refl,
      )
