-- ===== src/Prelude/Lists.antt =====
-- Lists measured by native numbers, Boolean filters, and predicates by recursion.
use Prim.Native.Nat.{ℕ, zero, suc, ◌+◌, ◌-◌, min}
use mathlib.Core.Path.{◌≡◌, refl, ap, ◌∙◌}
use mathlib.Core.Bool.{Bool, true, false, ◌&&◌, ◌||◌}
use mathlib.Core.List.{List, [], ◌∷◌, ◌++◌}
use mathlib.Core.Option.{Option, none, some}
use native.Mathlib.Omega.{arith}
use sica_rust.Prelude.Tests.{if◌then◌else◌}

module _ {ℓ} {A : Type ℓ} where
  abbrev pub length : List A → ℕ
  length [] = 0
  length (x ∷ xs) = suc (length xs)

  abbrev pub take : ℕ → List A → List A
  take zero xs = []
  take (suc n) [] = []
  take (suc n) (x ∷ xs) = x ∷ take n xs

  abbrev pub drop : ℕ → List A → List A
  drop zero xs = xs
  drop (suc n) [] = []
  drop (suc n) (x ∷ xs) = drop n xs

  abbrev pub get_elem? : List A → ℕ → Option A
  get_elem? [] i = none
  get_elem? (x ∷ xs) zero = some x
  get_elem? (x ∷ xs) (suc i) = get_elem? xs i

  -- `Iterator::filter` with a Boolean test, which is also `Vec::retain`.
  abbrev pub filter : (A → Bool) → List A → List A
  filter p [] = []
  filter p (x ∷ xs) = if p x then x ∷ filter p xs else filter p xs

  abbrev pub find : (A → Bool) → List A → Option A
  find p [] = none
  find p (x ∷ xs) = if p x then some x else find p xs

  abbrev pub any : (A → Bool) → List A → Bool
  any p [] = false
  any p (x ∷ xs) = p x || any p xs

  abbrev pub all : (A → Bool) → List A → Bool
  all p [] = true
  all p (x ∷ xs) = p x && all p xs

  pub length-append : (xs ys : List A) → length (xs ++ ys) ≡ length xs + length ys
  length-append [] ys = omega arith
  length-append (x ∷ xs) ys = omega (arith, length-append xs ys)

  pub length-take : (n : ℕ) (xs : List A) → length (take n xs) ≡ min n (length xs)
  length-take zero xs = omega arith
  length-take (suc n) [] = omega arith
  length-take (suc n) (x ∷ xs) = omega (arith, length-take n xs)

  pub length-drop : (n : ℕ) (xs : List A) → length (drop n xs) ≡ length xs - n
  length-drop zero xs = omega arith
  length-drop (suc n) [] = omega arith
  length-drop (suc n) (x ∷ xs) = omega (arith, length-drop n xs)

  pub take-append-drop : (n : ℕ) (xs : List A) → take n xs ++ drop n xs ≡ xs
  take-append-drop zero xs = refl
  take-append-drop (suc n) [] = refl
  take-append-drop (suc n) (x ∷ xs) = ap (◌∷◌ x) (take-append-drop n xs)

  pub filter-append :
      (p : A → Bool) (xs ys : List A) → filter p (xs ++ ys) ≡ filter p xs ++ filter p ys
  filter-append p [] ys = refl
  filter-append p (x ∷ xs) ys = ground (arith, filter-append p xs ys)

module _ {ℓ κ} {A : Type ℓ} where
  abbrev pub All : (A → Type κ) → List A → Type κ
  All P [] = Unit
  All P (x ∷ xs) = P x × All P xs

  pub All-append : (P : A → Type κ) (xs ys : List A) → All P xs → All P ys → All P (xs ++ ys)
  All-append P [] ys hx hy = hy
  All-append P (x ∷ xs) ys hx hy = (hx.0, All-append P xs ys hx.1 hy)

abbrev pub suc_option : Option ℕ → Option ℕ
suc_option none = none
suc_option (some n) = some (suc n)

module _ {ℓ} {A : Type ℓ} where
  -- `Iterator::position`.
  abbrev pub position : (A → Bool) → List A → Option ℕ
  position p [] = none
  position p (x ∷ xs) = let rest = position p xs in if p x then some 0 else suc_option rest

  -- `Vec::insert`. Past the end it would panic; its caller passes an index that is in range.
  abbrev pub insert_at : ℕ → A → List A → List A
  insert_at zero a xs = a ∷ xs
  insert_at (suc n) a [] = a ∷ []
  insert_at (suc n) a (x ∷ xs) = x ∷ insert_at n a xs

  -- `Vec::remove`, without the value.
  abbrev pub remove_at : ℕ → List A → List A
  remove_at i [] = []
  remove_at zero (x ∷ xs) = xs
  remove_at (suc i) (x ∷ xs) = x ∷ remove_at i xs

  abbrev pub last? : List A → Option A
  last? [] = none
  last? (x ∷ []) = some x
  last? (x ∷ y ∷ xs) = last? (y ∷ xs)

  abbrev pub option_or : Option A → A → A
  option_or none d = d
  option_or (some a) d = a

module _ {ℓ κ} {A : Type ℓ} (P : A → Type κ) where
  pub All-filter : (p : A → Bool) (xs : List A) → All P xs → All P (filter p xs)
  All-filter p [] h = tt
  All-filter p (x ∷ xs) (hx, h) = filter_one (p x) (All-filter p xs h)
    where
      filter_one :
          (b : Bool) → All P (filter p xs) → All P (if b then x ∷ filter p xs else filter p xs)
      filter_one true k = (hx, k)
      filter_one false k = k

  pub All-insert_at : (n : ℕ) (a : A) (xs : List A) → P a → All P xs → All P (insert_at n a xs)
  All-insert_at zero a xs ha h = (ha, h)
  All-insert_at (suc n) a [] ha h = (ha, tt)
  All-insert_at (suc n) a (x ∷ xs) ha (hx, h) = (hx, All-insert_at n a xs ha h)

  pub All-imp {μ} : {Q : A → Type μ} → ((x : A) → P x → Q x) → (xs : List A) → All P xs → All Q xs
  All-imp f [] h = tt
  All-imp f (x ∷ xs) (hx, h) = (f x hx, All-imp f xs h)

insert_at-suc_option {ℓ} :
    {A : Type ℓ} (o : Option ℕ) (n : ℕ) (a x : A) (xs : List A)
    → insert_at (option_or (suc_option o) (suc n)) a (x ∷ xs) ≡ x ∷ insert_at (option_or o n) a xs
insert_at-suc_option none n a x xs = refl
insert_at-suc_option (some k) n a x xs = refl

module _ {ℓ} {A : Type ℓ} (p : A → Bool) where
  pub filter_every : (xs : List A) → All (λ x. p x ≡ true) xs → filter p xs ≡ xs
  filter_every [] h = refl
  filter_every (x ∷ xs) (hx, h) = rw hx (ap (◌∷◌ x) (filter_every xs h))

  pub filter_none : (xs : List A) → All (λ x. p x ≡ false) xs → filter p xs ≡ []
  filter_none [] h = refl
  filter_none (x ∷ xs) (hx, h) = rw hx (filter_none xs h)

  -- What passes a filter passes its test.
  pub filter-All : (xs : List A) → All (λ x. p x ≡ true) (filter p xs)
  filter-All [] = tt
  filter-All (x ∷ xs) = filter_one (p x) refl (filter-All xs)
    where
      filter_one :
          (b : Bool)
          → p x ≡ b
          → All (λ y. p y ≡ true) (filter p xs)
          → All (λ y. p y ≡ true) (if b then x ∷ filter p xs else filter p xs)
      filter_one true e k = (e, k)
      filter_one false e k = k

  -- `position` splits a list at the first element that passes the test.
  pub position_splits :
      (a : A) (xs : List A)
      → (before after : List A) × (xs ≡ before ++ after)
        × (insert_at (option_or (position p xs) (length xs)) a xs ≡ before ++ a ∷ after)
        × All (λ x. p x ≡ false) before
  position_splits a [] = ([], [], refl, refl, tt)
  position_splits a (x ∷ xs) = place (p x) refl (position_splits a xs)
    where
      place :
          (b : Bool)
          → p x ≡ b
          → (before after : List A) × (xs ≡ before ++ after)
            × (insert_at (option_or (position p xs) (length xs)) a xs ≡ before ++ a ∷ after)
            × All (λ x. p x ≡ false) before
          → (before after : List A) × (x ∷ xs ≡ before ++ after)
            × (insert_at
                  (option_or (if b then some 0 else suc_option (position p xs)) (suc (length xs)))
                  a
                  (x ∷ xs)
                ≡ before ++ a ∷ after)
            × All (λ x. p x ≡ false) before
      place true e k = ([], x ∷ xs, refl, refl, tt)
      place false e (before, after, same, placed, none_yet) = (
        x ∷ before,
        after,
        ap (◌∷◌ x) same,
        insert_at-suc_option (position p xs) (length xs) a x xs ∙ ap (◌∷◌ x) placed,
        (e, none_yet),
      )

  pub position_at :
      (a : A) (before after : List A)
      → All (λ x. p x ≡ false) before
      → All (λ x. p x ≡ true) after
      → insert_at
          (option_or (position p (before ++ after)) (length (before ++ after)))
          a
          (before ++ after)
        ≡ before ++ a ∷ after
  position_at a [] [] h k = refl
  position_at a [] (y ∷ after) h (hy, k) = rw hy refl
  position_at a (x ∷ before) after (hx, h) k = rw hx (
      insert_at-suc_option (position p (before ++ after)) (length (before ++ after)) a x
        (before ++ after)
      ∙ ap (◌∷◌ x) (position_at a before after h k))
