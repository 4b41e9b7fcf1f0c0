-- ===== src/Invariants/Wire.antt =====
-- crates/backend/src/invariants.rs: the request that passes its check.
use sica_rust.Prelude.{
  ℕ, zero, suc, Bool, true, false, List, [], ◌∷◌, ◌++◌, ◌+◌, ◌-◌, ◌≤◌, ltb, length, drop, take,
  take-append-drop, length-drop, map, if◌then◌else◌, ◌≡◌, ◌↔◌, refl, ap, sym, ◌∙◌, arith,
  length-append,
}
use sica_rust.Prelude.Str.{Str, str_eq, str_eq_iff}
use sica_rust.Budget.Chat.{ChatMessage, text_of}
use sica_rust.Invariants.{
  same_message, pairs_violations, wire_messages, too_many_sent, check_request_matches_log,
  of_request,
}

-- What the check compares of a message.
abbrev pub wire : ChatMessage → Str × Str
wire m = (m.role, text_of m.content)

same_message-wire : (a b : ChatMessage) → (same_message a b ≡ true) ↔ (wire a ≡ wire b)
unfolding str_eq
same_message-wire a b =
    ground (arith, str_eq_iff a.role b.role, str_eq_iff (text_of a.content) (text_of b.content))

pairs_violations-wire :
    (debug : Str → Str) (i : ℕ) (sent tail : List ChatMessage)
    → length sent ≡ length tail
    → (pairs_violations debug i sent tail ≡ []) ↔ (map wire tail ≡ map wire sent)
pairs_violations-wire debug i [] [] h = ((λ _. refl), (λ _. refl))
pairs_violations-wire debug i [] (_ ∷ _) h = ground (arith, h)
pairs_violations-wire debug i (_ ∷ _) [] h = ground (arith, h)
pairs_violations-wire debug i (a ∷ sent) (b ∷ tail) h =
    ground (
      arith,
      same_message-wire a b,
      pairs_violations-wire debug (i + 1) sent tail (omega (arith, h)),
    )

length-map : {A B : Type 0} (f : A → B) (xs : List A) → length (map f xs) ≡ length xs
length-map f [] = refl
length-map f (x ∷ xs) = ap (λ n. suc n) (length-map f xs)

map-append : {A B : Type 0} (f : A → B) (xs ys : List A) → map f (xs ++ ys) ≡ map f xs ++ map f ys
map-append f [] ys = refl
map-append f (x ∷ xs) ys = ap (λ r. f x ∷ r) (map-append f xs ys)

drop-map : {A B : Type 0} (f : A → B) (n : ℕ) (xs : List A) → map f (drop n xs) ≡ drop n (map f xs)
drop-map f zero xs = refl
drop-map f (suc n) [] = refl
drop-map f (suc n) (x ∷ xs) = drop-map f n xs

drop-front :
    {A : Type 0} (front back : List A) (n : ℕ) → length front ≡ n → drop n (front ++ back) ≡ back
drop-front [] back zero h = refl
drop-front [] back (suc n) h = ground (arith, h)
drop-front (x ∷ front) back zero h = ground (arith, h)
drop-front (x ∷ front) back (suc n) h = drop-front front back n (omega (arith, h))

-- `ys` ends `xs`.
abbrev pub EndsWith : List (Str × Str) → List (Str × Str) → Type 0
EndsWith xs ys = (front : List (Str × Str)) × (xs ≡ front ++ ys)

EndsWith-length : (xs ys : List (Str × Str)) → EndsWith xs ys → length ys ≤ length xs
EndsWith-length xs ys (front, e) = omega (arith, ap (λ l. length l) e, length-append front ys)

-- A list ends another one if and only if it is no longer and is what is left behind the difference.
EndsWith-drop :
    (xs ys : List (Str × Str))
    → length ys ≤ length xs
    → (drop (length xs - length ys) xs ≡ ys) ↔ EndsWith xs ys
EndsWith-drop xs ys h = (
  λ e. (
    take (length xs - length ys) xs,
    sym (take-append-drop (length xs - length ys) xs)
        ∙ ap (λ r. take (length xs - length ys) xs ++ r) e,
  ),
  λ found.
      ap (λ l. drop (length xs - length ys) l) (found.1)
      ∙ drop-front found.0 ys (length xs - length ys)
          (omega (arith, ap (λ l. length l) (found.1), length-append found.0 ys)),
)

tail_iff :
    (debug : Str → Str) (sent from_log : List ChatMessage)
    → length sent ≤ length from_log
    → (pairs_violations debug 0 sent (drop (length from_log - length sent) from_log) ≡ [])
      ↔ EndsWith (map wire from_log) (map wire sent)
tail_iff debug sent from_log h =
    let excess = length from_log - length sent in
    let same =
      pairs_violations-wire debug 0 sent (drop excess from_log)
        (omega (arith, h, length-drop excess from_log)) in
    let shift : map wire (drop excess from_log)
        ≡ drop (length (map wire from_log) - length (map wire sent)) (map wire from_log) =
      drop-map wire excess from_log
      ∙ ap (λ n. drop n (map wire from_log))
          (omega (arith, length-map wire from_log, length-map wire sent)) in
    let ends =
      EndsWith-drop (map wire from_log) (map wire sent)
        (omega (arith, h, length-map wire from_log, length-map wire sent)) in
    (λ e. ends.0 (sym shift ∙ same.0 e), λ e. same.1 (shift ∙ ends.1 e))

-- A request passes the check if and only if its messages, the system prompt and the notice of the trimmer
-- left out, are in role and text the end of the messages that the log derives.
pub check_request_matches_log-EndsWith :
    (debug : Str → Str) (request from_log : List ChatMessage)
    → (check_request_matches_log debug request from_log ≡ [])
      ↔ EndsWith (map wire from_log) (map wire (wire_messages request))
unfolding check_request_matches_log
check_request_matches_log-EndsWith debug request from_log =
    by_length (ltb (length from_log) (length (wire_messages request))) refl
  where
    sent : List ChatMessage
    sent = wire_messages request

    by_length :
        (b : Bool)
        → ltb (length from_log) (length sent) ≡ b
        → ((if b
              then of_request (too_many_sent (length sent) (length from_log)) ∷ []
              else pairs_violations debug 0 sent (drop (length from_log - length sent) from_log))
            ≡ [])
          ↔ EndsWith (map wire from_log) (map wire sent)
    by_length true h = (
      λ e. ground (arith, e),
      λ e. ground (
        arith,
        h,
        EndsWith-length (map wire from_log) (map wire sent) e,
        length-map wire from_log,
        length-map wire sent,
      ),
    )
    by_length false h = tail_iff debug sent from_log (ground (arith, h))
