-- ===== src/Prelude/Lists.antt =====
-- Lists measured and searched by Boolean tests and native numbers.
use Prim.Native.Nat.{ℕ, zero, suc, ◌+◌, ◌-◌, ◌≤◌}
use mathlib.Core.Path.{◌≡◌, refl, sym, subst, ap, ◌∙◌}
use mathlib.Core.Logic.{◌⊎◌, inl, inr}
use mathlib.Core.Bool.{Bool, true, false, ◌||◌}
use mathlib.Core.Option.{Option, none, some}
use mathlib.Core.List.{List, [], ◌∷◌, ◌++◌}
use native.Mathlib.Omega.{arith}
use agents_admin.Prelude.Tests.{if◌then◌else◌}

module _ {ℓ} {A : Type ℓ} where
  abbrev pub length : List A → ℕ
  length [] = 0
  length (x ∷ xs) = suc (length xs)

  abbrev pub get_elem? : List A → ℕ → Option A
  get_elem? [] i = none
  get_elem? (x ∷ xs) zero = some x
  get_elem? (x ∷ xs) (suc i) = get_elem? xs i

  abbrev pub take : ℕ → List A → List A
  take zero xs = []
  take (suc n) [] = []
  take (suc n) (x ∷ xs) = x ∷ take n xs

  abbrev pub drop : ℕ → List A → List A
  drop zero xs = xs
  drop (suc n) [] = []
  drop (suc n) (x ∷ xs) = drop n xs

  -- The elements that pass a test, in order.
  abbrev pub filter : (A → Bool) → List A → List A
  filter p [] = []
  filter p (x ∷ xs) = let rest = filter p xs in if p x then x ∷ rest else rest

  -- The first element that passes a test.
  abbrev pub find? : (A → Bool) → List A → Option A
  find? p [] = none
  find? p (x ∷ xs) = if p x then some x else find? p xs

  abbrev pub any : (A → Bool) → List A → Bool
  any p [] = false
  any p (x ∷ xs) = p x || any p xs

  abbrev pub count : (A → Bool) → List A → ℕ
  count p [] = 0
  count p (x ∷ xs) = let rest = count p xs in if p x then suc rest else rest

  -- `UPDATE … SET f WHERE p`
  abbrev pub update : (A → Bool) → (A → A) → List A → List A
  update p f [] = []
  update p f (x ∷ xs) = (if p x then f x else x) ∷ update p f xs

  -- The value under an option, changed.
  abbrev pub map? : (A → A) → Option A → Option A
  map? f none = none
  map? f (some a) = some (f a)

  abbrev pub change : (A → Bool) → (A → A) → A → A
  change p f x = if p x then f x else x

  pub find?-update :
      (q p : A → Bool) (f : A → A) (xs : List A)
      → ((x : A) → q (f x) ≡ q x)
      → find? q (update p f xs) ≡ map? (change p f) (find? q xs)
  find?-update q p f [] h = refl
  find?-update q p f (x ∷ xs) h = ground (arith, h x, find?-update q p f xs h)

module _ {A : Type 0} where
  -- Membership as a type that computes, with the position kept.
  abbrev pub Has : A → List A → Type 0
  Has a [] = ⊥
  Has a (x ∷ xs) = (a ≡ x) ⊎ Has a xs

  -- Every element satisfies a predicate.
  abbrev pub All : (A → Type 0) → List A → Type 0
  All P [] = Unit
  All P (x ∷ xs) = P x × All P xs

  pub Has-filter :
      (p : A → Bool) (a : A) (xs : List A) → Has a (filter p xs) → Has a xs × (p a ≡ true)
  Has-filter p a [] h = elim h [ ]
  Has-filter p a (x ∷ xs) h = ground (arith, Has-filter p a xs)

  pub filter-Has :
      (p : A → Bool) (a : A) (xs : List A) → Has a xs → p a ≡ true → Has a (filter p xs)
  filter-Has p a [] h t = elim h [ ]
  filter-Has p a (x ∷ xs) h t = ground (arith, filter-Has p a xs)

  pub find?-Has :
      (p : A → Bool) (a : A) (xs : List A) → find? p xs ≡ some a → Has a xs × (p a ≡ true)
  find?-Has p a [] h = cc
  find?-Has p a (x ∷ xs) h = ground (arith, find?-Has p a xs)

  pub All-Has : (P : A → Type 0) (a : A) (xs : List A) → All P xs → Has a xs → P a
  All-Has P a [] h m = elim m [ ]
  All-Has P a (x ∷ xs) h (inl e) = subst P (sym e) h.0
  All-Has P a (x ∷ xs) h (inr m) = All-Has P a xs h.1 m

module _ {ℓ} {A : Type ℓ} where
  pub length-filter : (p : A → Bool) (xs : List A) → length (filter p xs) ≡ count p xs
  length-filter p [] = refl
  length-filter p (x ∷ xs) = ground (arith, length-filter p xs)

module _ {A : Type 0} where
  pub take-drop : (n : ℕ) (xs : List A) → take n xs ++ drop (length (take n xs)) xs ≡ xs
  take-drop zero xs = refl
  take-drop (suc n) [] = refl
  take-drop (suc n) (x ∷ xs) = ap (λ l. x ∷ l) (take-drop n xs)

  drop_nil : (m : ℕ) → drop {A = A} m [] ≡ []
  drop_nil zero = refl
  drop_nil (suc m) = refl

  drop-suc : (n m k : ℕ) (x : A) (xs : List A) → k ≡ suc n + m → drop k (x ∷ xs) ≡ drop (n + m) xs
  drop-suc n m k x xs e = rw (e, succ) refl
    where
      succ : suc n + m ≡ suc (n + m)
      succ = omega arith

  pub drop-drop : (n m : ℕ) (xs : List A) → drop m (drop n xs) ≡ drop (n + m) xs
  drop-drop zero m xs = rw zero_plus refl
    where
      zero_plus : 0 + m ≡ m
      zero_plus = omega arith
  drop-drop (suc n) m (x ∷ xs) = drop-drop n m xs ∙ sym (drop-suc n m (suc n + m) x xs refl)
  drop-drop (suc n) m [] = drop_nil m ∙ sym (drop_nil (suc n + m))

  pub length-drop : (n : ℕ) (xs : List A) → length (drop n xs) ≡ length xs - n
  length-drop zero xs = omega arith
  length-drop (suc n) [] = omega arith
  length-drop (suc n) (x ∷ xs) = ground (arith, length-drop n xs)

  pub length-take_bound : (n : ℕ) (xs : List A) → length (take n xs) ≤ n
  length-take_bound zero xs = omega arith
  length-take_bound (suc n) [] = omega arith
  length-take_bound (suc n) (x ∷ xs) = ground (arith, length-take_bound n xs)

  pub length-take_some : (n : ℕ) (xs : List A) → 1 ≤ n → 1 ≤ length xs → 1 ≤ length (take n xs)
  length-take_some (suc n) (x ∷ xs) p q = omega arith
  length-take_some zero xs p q = omega arith
  length-take_some (suc n) [] p q = omega arith

  pub take-all : (n : ℕ) (xs : List A) → length xs ≤ length (take n xs) → take n xs ≡ xs
  take-all zero [] h = refl
  take-all zero (x ∷ xs) h = elim (absurd h) [ ]
    where
      absurd : suc (length xs) ≤ 0 → ⊥
      absurd h = omega arith
  take-all (suc n) [] h = refl
  take-all (suc n) (x ∷ xs) h = ap (λ l. x ∷ l) (take-all n xs (omega arith))

  pub length-take_all : (n : ℕ) (xs : List A) → length (take n xs) ≤ length xs
  length-take_all zero xs = omega arith
  length-take_all (suc n) [] = omega arith
  length-take_all (suc n) (x ∷ xs) = ground (arith, length-take_all n xs)
