-- ===== src/Inbox/Fifo.antt =====
-- The order in which a session's input leaves its queue.
use sica_rust.Prelude.{
  ℕ, ◌≡◌, refl, sym, ap, ◌∙◌, Bool, true, false, Option, none, some, List, [], ◌∷◌, ◌++◌, arith,
  position, suc_option, if◌then◌else◌,
}
use sica_rust.Prelude.Str.{Str}
use sica_rust.Protocol.{UserImage}
use sica_rust.Inbox.{
  Inbound, followup, steer, inject, is_followup, Queued, Queue, sort_entry, drain, claimed,
  claim_at, claim,
}

abbrev pub Sent : Type 0
Sent = Str × List UserImage

abbrev pub add_some {ℓ} : {A : Type ℓ} → Option A → List A → List A
add_some none xs = xs
add_some (some x) xs = x ∷ xs

-- The user messages that wait in a queue, oldest first.
abbrev pub waiting : Queue → List Sent
waiting [] = []
waiting (e ∷ q) = add_some (claimed e.item) (waiting q)

abbrev pub mid_turn : Inbound → Option Inbound
mid_turn (followup _ _) = none
mid_turn item = some item

-- The steers and injections that wait in a queue, oldest first.
abbrev pub pending : Queue → List Inbound
pending [] = []
pending (e ∷ q) = add_some (mid_turn e.item) (pending q)

pub add_some-append {ℓ} :
    {A : Type ℓ} (o : Option A) (xs ys : List A) → add_some o xs ++ ys ≡ add_some o (xs ++ ys)
add_some-append none xs ys = refl
add_some-append (some x) xs ys = refl

pub waiting-append : (p q : Queue) → waiting (p ++ q) ≡ waiting p ++ waiting q
waiting-append [] q = refl
waiting-append (e ∷ p) q =
    ap (add_some (claimed e.item)) (waiting-append p q)
    ∙ sym (add_some-append (claimed e.item) (waiting p) (waiting q))

pub pending-append : (p q : Queue) → pending (p ++ q) ≡ pending p ++ pending q
pending-append [] q = refl
pending-append (e ∷ p) q =
    ap (add_some (mid_turn e.item)) (pending-append p q)
    ∙ sym (add_some-append (mid_turn e.item) (pending p) (pending q))

-- What a pass over a queue takes and keeps.
pub record Drained (q : Queue) (r : List Inbound × Queue) : Type 0 where
  pub takes : r.0 ≡ pending q
  pub keeps : waiting r.1 ≡ waiting q
  pub leaves_none : pending r.1 ≡ []

sort_entry-Drained :
    (e : Queued) (item : Inbound) (q : Queue) (r : List Inbound × Queue)
    → e.item ≡ item
    → Drained q r
    → Drained (e ∷ q) (sort_entry e item r)
sort_entry-Drained e (followup body images) q (taken, kept) same h = record {
  takes = h.takes ∙ sym (ap (λ i. add_some (mid_turn i) (pending q)) same);
  keeps = ap (add_some (claimed e.item)) h.keeps;
  leaves_none = ap (λ i. add_some (mid_turn i) (pending kept)) same ∙ h.leaves_none;
}
sort_entry-Drained e (steer body) q (taken, kept) same h = record {
  takes = ap (◌∷◌ (steer body)) h.takes ∙ sym (ap (λ i. add_some (mid_turn i) (pending q)) same);
  keeps = h.keeps ∙ sym (ap (λ i. add_some (claimed i) (waiting q)) same);
  leaves_none = h.leaves_none;
}
sort_entry-Drained e (inject content source) q (taken, kept) same h = record {
  takes =
      ap (◌∷◌ (inject content source)) h.takes
      ∙ sym (ap (λ i. add_some (mid_turn i) (pending q)) same);
  keeps = h.keeps ∙ sym (ap (λ i. add_some (claimed i) (waiting q)) same);
  leaves_none = h.leaves_none;
}

pub drain-Drained : (q : Queue) → Drained q (drain q)
unfolding drain
drain-Drained [] = record { takes = refl; keeps = refl; leaves_none = refl }
drain-Drained (e ∷ q) = sort_entry-Drained e e.item q (drain q) refl (drain-Drained q)

-- What a claim takes: the oldest user message, if there is one, and nothing else.
pub record Claimed (q : Queue) (r : Option Sent × Queue) : Type 0 where
  pub oldest : waiting q ≡ add_some r.0 (waiting r.1)
  pub others : pending r.1 ≡ pending q
  pub none_left : r.0 ≡ none → waiting q ≡ []

claim_later :
    (e : Queued) (q : Queue) (o : Option ℕ)
    → claimed e.item ≡ none
    → Claimed q (claim_at o q)
    → Claimed (e ∷ q) (claim_at (suc_option o) (e ∷ q))
claim_later e q none other h = record {
  oldest = refl;
  others = refl;
  none_left = λ _. ap (λ c. add_some c (waiting q)) other ∙ h.none_left refl;
}
claim_later e q (some pos) other h = record {
  oldest = skip q ∙ h.oldest ∙ ap (add_some _) (sym (skip (claim_at (some pos) q).1));
  others = ap (add_some (mid_turn e.item)) h.others;
  none_left = λ nothing. skip q ∙ h.none_left nothing;
}
  where
    skip : (k : Queue) → waiting (e ∷ k) ≡ waiting k
    skip k = ap (λ c. add_some c (waiting k)) other

claim_found :
    (e : Queued) (item : Inbound) (q : Queue)
    → e.item ≡ item
    → is_followup item ≡ true
    → Claimed (e ∷ q) (claim_at (some 0) (e ∷ q))
claim_found e (followup body images) q same h =
    let found = ap claimed same in
    record {
      oldest = refl;
      others = sym (ap (λ i. add_some (mid_turn i) (pending q)) same);
      none_left = λ empty. ground (arith, found, empty);
    }
claim_found e (steer body) q same h = ground arith
claim_found e (inject content source) q same h = ground arith

pub claim-Claimed : (q : Queue) → Claimed q (claim q)
unfolding claim
claim-Claimed [] = record { oldest = refl; others = refl; none_left = λ _. refl }
claim-Claimed (e ∷ q) = claim_first (claim-Claimed q) (is_followup e.item) refl
  where
    unclaimed : (item : Inbound) → is_followup item ≡ false → claimed item ≡ none
    unclaimed (followup body images) h = ground arith
    unclaimed (steer body) h = refl
    unclaimed (inject content source) h = refl

    claim_first :
        Claimed q (claim q)
        → (b : Bool) → is_followup e.item ≡ b
        → Claimed (e ∷ q) (
            claim_at
              (if b then some 0 else suc_option (position (λ x. is_followup x.item) q))
              (e ∷ q))
    claim_first later true h = claim_found e e.item q refl h
    claim_first later false h =
        claim_later e q (position (λ x. is_followup x.item) q) (unclaimed e.item h) later
