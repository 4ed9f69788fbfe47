-- ===== src/Storage/Ties.antt =====
-- `ORDER BY created_at DESC` of tasks, and the order in which they are read.
use mathlib.Core.List.{Permᴰ}
use agents_admin.Prelude.{
  ℕ, leb, not, Bool, true, false, inl, inr, List, [], ◌∷◌, ◌≡◌, refl, sym, ap, ◌∙◌, arith, Has,
  Bool-cases,
}
use agents_admin.Model.Task.{Task}
use agents_admin.Storage.Order.{insert_by, sort_by}
use agents_admin.Storage.Listing.{newest}

-- Tasks of which no two were created at one time.
abbrev pub Untied : List Task → Type 0
Untied xs = (t u : Task) → Has t xs → Has u xs → t.created_at ≡ u.created_at → t ≡ u

abbrev newer : Task → Task → Bool
newer a b = leb b.created_at a.created_at

leb_both : (m n : ℕ) → leb m n ≡ true → leb n m ≡ true → m ≡ n
leb_both m n h k = ground arith

-- Two tasks are one, or one is newer.
insert_by_cases :
    (x y : Task) (xs : List Task)
    → (x.created_at ≡ y.created_at → x ≡ y)
    → (leb x.created_at y.created_at ≡ not (leb y.created_at x.created_at)
        → insert_by newer x (insert_by newer y xs) ≡ insert_by newer y (insert_by newer x xs))
    → insert_by newer x (insert_by newer y xs) ≡ insert_by newer y (insert_by newer x xs)
insert_by_cases x y xs h k = elim (Bool-cases (leb x.created_at y.created_at)) [
  | inl e ↦ elim (Bool-cases (leb y.created_at x.created_at)) [
    | inl f ↦ rw (h (leb_both x.created_at y.created_at e f)) refl
    | inr f ↦ k (rw (e, f) refl)
  ]
  | inr e ↦ k (other x.created_at y.created_at e)
]
  where
    other : (m n : ℕ) → leb m n ≡ false → leb m n ≡ not (leb n m)
    other m n g = ground arith

insert_comm :
    (x y : Task) (xs : List Task)
    → (x.created_at ≡ y.created_at → x ≡ y)
    → insert_by newer x (insert_by newer y xs) ≡ insert_by newer y (insert_by newer x xs)
unfolding insert_by
insert_comm x y [] h = insert_by_cases x y [] h (λ o. ground arith)
insert_comm x y (z ∷ zs) h =
    insert_by_cases x y (z ∷ zs) h (λ o. ground (arith, insert_comm x y zs h))

Permᴰ-Has : {xs ys : List Task} (t : Task) → Permᴰ xs ys → Has t ys → Has t xs
Permᴰ-Has t Permᴰ.nil h = h
Permᴰ-Has t (Permᴰ.cons e p) (inl g) = inl (g ∙ sym e)
Permᴰ-Has t (Permᴰ.cons e p) (inr m) = inr (Permᴰ-Has t p m)
Permᴰ-Has t (Permᴰ.swap e g) (inl k) = inr (inl (k ∙ sym g))
Permᴰ-Has t (Permᴰ.swap e g) (inr (inl k)) = inl (k ∙ sym e)
Permᴰ-Has t (Permᴰ.swap e g) (inr (inr m)) = inr (inr m)
Permᴰ-Has t (Permᴰ.trans p q) h = Permᴰ-Has t p (Permᴰ-Has t q h)

-- Whatever the order in which such tasks are read, they come out the same.
pub newest-Permᴰ : {xs ys : List Task} → Permᴰ xs ys → Untied xs → newest xs ≡ newest ys
unfolding sort_by
newest-Permᴰ Permᴰ.nil h = refl
newest-Permᴰ {xs = x ∷ xs} (Permᴰ.cons e p) h =
    ap (λ z. insert_by newer z (newest xs)) e
    ∙ ap (insert_by newer _) (newest-Permᴰ p (λ t u m n. h t u (inr m) (inr n)))
newest-Permᴰ {xs = x ∷ y ∷ xs} {ys = a ∷ b ∷ ys} (Permᴰ.swap e g) h =
    insert_comm x y (newest xs) (h x y (inl refl) (inr (inl refl)))
    ∙ ap (λ z. insert_by newer z (insert_by newer x (newest xs))) g
    ∙ ap (λ z. insert_by newer a (insert_by newer z (newest xs))) e
newest-Permᴰ (Permᴰ.trans p q) h =
    newest-Permᴰ p h ∙ newest-Permᴰ q (λ t u m n. h t u (Permᴰ-Has t p m) (Permᴰ-Has u p n))
