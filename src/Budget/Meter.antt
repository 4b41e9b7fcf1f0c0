-- ===== src/Budget/Meter.antt =====
-- crates/agents/src/meter.rs: the usage-anchored estimate of a prompt's tokens.
use sica_rust.Prelude.{
  ℕ, ◌+◌, ◌≤◌, ◌<◌, ◌≡◌, ◌≢◌, refl, not, Option, none, some, List, [], ◌∷◌, ◌++◌, arith, ltb, leb,
  ◌==◌, if◌then◌else◌, filter, All, ◌>>=◌,
}
use sica_rust.Budget.Tokens.{u32, saturating_add, approx_tokens, sum_u32, sum, sum_u32-eq-sum}
use sica_rust.Log.Surface.{SurfaceEntry}

pub record Anchor : Type 0 where
  pub envelope_hash : ℕ
  pub seq : ℕ
  pub usage_prompt : ℕ

pub record TokenMeter : Type 0 where
  pub anchor : Option Anchor

-- The heuristic price of one surface entry.
unfoldable pub entry_tokens : SurfaceEntry → ℕ
entry_tokens e = u32 (approx_tokens e.message.content + 4)

unfoldable pub record_usage : ℕ → ℕ → ℕ → TokenMeter → TokenMeter
record_usage envelope_hash seq usage_prompt m = if usage_prompt == 0 then m else record {
  anchor = some (record { envelope_hash = envelope_hash; seq = seq; usage_prompt = usage_prompt });
}

unfoldable pub invalidate : TokenMeter → TokenMeter
invalidate m = record { anchor = none }

abbrev anchored_price : ℕ → List SurfaceEntry → ℕ
anchored_price seq entries = sum_u32 entry_tokens (filter (λ e. leb e.seq seq) entries)

abbrev added_price : ℕ → List SurfaceEntry → ℕ
added_price seq entries = sum_u32 entry_tokens (filter (λ e. ltb seq e.seq) entries)

unfoldable pub estimate : TokenMeter → ℕ → List SurfaceEntry → Option ℕ
estimate m envelope_hash entries = do
  a ← m.anchor
  if not (a.envelope_hash == envelope_hash)
      then none
      else if ltb a.usage_prompt (anchored_price a.seq entries)
      then none
      else some (saturating_add a.usage_prompt (added_price a.seq entries))

module _ (seq : ℕ) where
  -- Each entry is priced once: in the anchor's part or in what was added since.
  sum-split :
      (entries : List SurfaceEntry)
      → sum entry_tokens entries
        ≡ sum entry_tokens (filter (λ e. leb e.seq seq) entries)
          + sum entry_tokens (filter (λ e. ltb seq e.seq) entries)
  sum-split [] = omega arith
  sum-split (x ∷ entries) = ground (arith, sum-split entries)

  anchored_lem :
      (sent new : List SurfaceEntry)
      → All (λ e. e.seq ≤ seq) sent
      → All (λ e. seq < e.seq) new
      → filter (λ e. leb e.seq seq) (sent ++ new) ≡ sent
  anchored_lem [] [] h k = refl
  anchored_lem [] (x ∷ new) h (kx, k) = ground (arith, anchored_lem [] new tt k)
  anchored_lem (x ∷ sent) new (hx, h) k = ground (arith, anchored_lem sent new h k)

  added_lem :
      (sent new : List SurfaceEntry)
      → All (λ e. e.seq ≤ seq) sent
      → All (λ e. seq < e.seq) new
      → filter (λ e. ltb seq e.seq) (sent ++ new) ≡ new
  added_lem [] [] h k = refl
  added_lem [] (x ∷ new) h (kx, k) = ground (arith, added_lem [] new tt k)
  added_lem (x ∷ sent) new (hx, h) k = ground (arith, added_lem sent new h k)

-- An estimate is never below the pure heuristic price of the same entries, if that fits a `u32`.
pub estimate-ge-heuristic :
    (m : TokenMeter) (envelope_hash : ℕ) (entries : List SurfaceEntry) (n : ℕ)
    → estimate m envelope_hash entries ≡ some n
    → sum entry_tokens entries < 4294967296
    → sum entry_tokens entries ≤ n
unfolding estimate
estimate-ge-heuristic m envelope_hash entries n e fits = go m.anchor refl e
  where
    go :
        (anchor : Option Anchor)
        → m.anchor ≡ anchor
        → (anchor >>= λ a.
            if not (a.envelope_hash == envelope_hash)
            then none
            else if ltb a.usage_prompt (anchored_price a.seq entries)
            then none
            else some (saturating_add a.usage_prompt (added_price a.seq entries)))
          ≡ some n
        → sum entry_tokens entries ≤ n
    go none same e = cc
    go (some a) same e = ground (
      arith,
      sum-split a.seq entries,
      sum_u32-eq-sum entry_tokens (filter (λ x. leb x.seq a.seq) entries),
      sum_u32-eq-sum entry_tokens (filter (λ x. ltb a.seq x.seq) entries),
    )

-- After a request whose usage was recorded, the next estimate in the same envelope is the provider's
-- own count plus the heuristic price of the entries logged since, at most the largest `u32`. The
-- count has to be no less than the heuristic price of the entries that were sent.
pub estimate-record_usage :
    (m : TokenMeter) (envelope_hash seq usage_prompt : ℕ) (sent new : List SurfaceEntry)
    → usage_prompt ≢ 0
    → All (λ e. e.seq ≤ seq) sent
    → All (λ e. seq < e.seq) new
    → sum_u32 entry_tokens sent ≤ usage_prompt
    → estimate (record_usage envelope_hash seq usage_prompt m) envelope_hash (sent ++ new)
      ≡ some (saturating_add usage_prompt (sum_u32 entry_tokens new))
unfolding estimate record_usage
estimate-record_usage m envelope_hash seq usage_prompt sent new nonzero h k floor =
    ground (arith, anchored_lem seq sent new h k, added_lem seq sent new h k)

-- In another envelope, and after `invalidate`, there is no estimate.
pub estimate-other_envelope :
    (m : TokenMeter) (envelope_hash other seq usage_prompt : ℕ) (entries : List SurfaceEntry)
    → usage_prompt ≢ 0
    → envelope_hash ≢ other
    → (estimate (record_usage envelope_hash seq usage_prompt m) other entries ≡ none)
      × (estimate (invalidate m) other entries ≡ none)
unfolding estimate record_usage invalidate
estimate-other_envelope m envelope_hash other seq usage_prompt entries nonzero differs =
    (ground arith, refl)
