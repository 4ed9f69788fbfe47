-- ===== src/Storage/Order.antt =====
-- `ORDER BY`: a stable sort by a Boolean order on rows. Rows that the order does not tell apart
-- keep the order in which they are read, which SQL leaves open.
use agents_admin.Prelude.{
  ℕ, zero, suc, ◌≡◌, refl, ◌∙◌, ap, ◌⊎◌, inl, inr, Bool, List, [], ◌∷◌, arith, if◌then◌else◌,
  length, take, Has,
}

module _ {A : Type 0} (le : A → A → Bool) where
  unfoldable pub insert_by : A → List A → List A
  insert_by a [] = a ∷ []
  insert_by a (x ∷ xs) = let rest = insert_by a xs in if le a x then a ∷ x ∷ xs else x ∷ rest

  unfoldable pub sort_by : List A → List A
  unfolding insert_by
  sort_by [] = []
  sort_by (x ∷ xs) = insert_by x (sort_by xs)

  Has-insert_by : (a b : A) (xs : List A) → Has b (insert_by a xs) → (b ≡ a) ⊎ Has b xs
  unfolding insert_by
  Has-insert_by a b [] h = h
  Has-insert_by a b (x ∷ xs) h = ground (arith, Has-insert_by a b xs)

  insert_by-Has : (a b : A) (xs : List A) → (b ≡ a) ⊎ Has b xs → Has b (insert_by a xs)
  unfolding insert_by
  insert_by-Has a b [] h = h
  insert_by-Has a b (x ∷ xs) h = ground (arith, insert_by-Has a b xs)

  length-insert_by : (a : A) (xs : List A) → length (insert_by a xs) ≡ suc (length xs)
  unfolding insert_by
  length-insert_by a [] = refl
  length-insert_by a (x ∷ xs) = ground (arith, length-insert_by a xs)

module _ {A : Type 0} (le : A → A → Bool) where
  -- Sorting neither invents a row nor loses one.
  pub Has-sort_by : (b : A) (xs : List A) → Has b (sort_by le xs) → Has b xs
  unfolding sort_by
  Has-sort_by b [] h = h
  Has-sort_by b (x ∷ xs) h = elim (Has-insert_by le x b (sort_by le xs) h) [
    | inl e ↦ inl e
    | inr m ↦ inr (Has-sort_by b xs m)
  ]

  pub sort_by-Has : (b : A) (xs : List A) → Has b xs → Has b (sort_by le xs)
  unfolding sort_by
  sort_by-Has b [] h = h
  sort_by-Has b (x ∷ xs) (inl e) = insert_by-Has le x b (sort_by le xs) (inl e)
  sort_by-Has b (x ∷ xs) (inr m) = insert_by-Has le x b (sort_by le xs) (inr (sort_by-Has b xs m))

  pub length-sort_by : (xs : List A) → length (sort_by le xs) ≡ length xs
  unfolding sort_by
  length-sort_by [] = refl
  length-sort_by (x ∷ xs) = length-insert_by le x (sort_by le xs) ∙ ap suc (length-sort_by xs)

pub Has-take : {A : Type 0} (n : ℕ) (b : A) (xs : List A) → Has b (take n xs) → Has b xs
Has-take zero b xs h = elim h [ ]
Has-take (suc n) b [] h = h
Has-take (suc n) b (x ∷ xs) (inl e) = inl e
Has-take (suc n) b (x ∷ xs) (inr m) = inr (Has-take n b xs m)
