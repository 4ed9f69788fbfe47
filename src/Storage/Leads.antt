-- ===== src/Storage/Leads.antt =====
-- From tables with one property to tables with another, whichever statements fail: one rule for each
-- way to build an action.
use agents_admin.Prelude.{
  ℕ, ◌+◌, Bool, true, false, Option, none, some, List, [], ◌∷◌, ◌≡◌, refl, inl, inr, if◌then◌else◌,
  Bool-cases,
}
use agents_admin.Storage.World.{Db, World, M, pure, ◌>>=◌, call, query, exec, for_each}

pub record Leads (P Q : Db → Type 0) {A : Type 0} (m : M A) : Type 0 where
  pub at : (w : World) → P w.db → Q (m w).1.db

module _ {P Q : Db → Type 0} {A : Type 0} where
  pub Leads-pure : (a : A) → ((db : Db) → P db → Q db) → Leads P Q (pure a)
  Leads-pure a h = record { at = λ w p. h w.db p }

  pub Leads-if :
      (b : Bool) (m n : M A)
      → (b ≡ true → Leads P Q m)
      → (b ≡ false → Leads P Q n)
      → Leads P Q (if b then m else n)
  Leads-if true m n km kn = km refl
  Leads-if false m n km kn = kn refl

  pub Leads-option :
      {X : Type 0} (o : Option X) (n : M A) (s : X → M A)
      → Leads P Q n
      → ((x : X) → o ≡ some x → Leads P Q (s x))
      → Leads P Q (elim o [ none ↦ n | some x ↦ s x ])
  Leads-option none n s kn ks = kn
  Leads-option (some x) n s kn ks = ks x refl

  pub Leads-weaken :
      {R : Db → Type 0} (m : M A) → ((db : Db) → R db → Q db) → Leads P R m → Leads P Q m
  Leads-weaken m h k = record { at = λ w p. h (m w).1.db (k.at w p) }

  pub Leads-strengthen :
      {R : Db → Type 0} (m : M A) → ((db : Db) → P db → R db) → Leads R Q m → Leads P Q m
  Leads-strengthen m h k = record { at = λ w p. k.at w (h w.db p) }

module _ {P : Db → Type 0} where
  pub Leads-query : {A : Type 0} (f : ℕ → Db → A) → Leads P P (query f)
  unfolding query
  Leads-query f = record {
    at = λ w p. elim (Bool-cases (w.fails w.calls)) [ inl e ↦ rw e p | inr e ↦ rw e p ];
  }

  pub Leads-exec :
      (f : ℕ → Db → Db) → ((now : ℕ) (db : Db) → P db → P (f now db)) → Leads P P (exec f)
  unfolding exec
  Leads-exec f keep = record {
    at = λ w p. elim (Bool-cases (w.fails w.calls)) [
      | inl e ↦ rw e p
      | inr e ↦ rw e (keep w.now w.db p)
    ];
  }

  pub Leads-call :
      {A : Type 0} (f : ℕ → Db → Option A × Db)
      → ((now : ℕ) (db : Db) → P db → P (f now db).1)
      → Leads P P (call f)
  unfolding call
  Leads-call f keep = record {
    at = λ w p. elim (Bool-cases (w.fails w.calls)) [
      | inl e ↦ rw e p
      | inr e ↦ rw e (keep w.now w.db p)
    ];
  }

  pub Leads-for_each :
      {A : Type 0} (f : A → M (Unit {0})) (xs : List A)
      → ((a : A) → Leads P P (f a))
      → Leads P P (for_each f xs)
  unfolding for_each
  Leads-for_each f [] kf = record { at = λ w p. p }
  Leads-for_each f (x ∷ xs) kf = record {
    at = λ w p. (Leads-for_each f xs kf).at (f x w).1 ((kf x).at w p);
  }

module _ {P Q : Db → Type 0} {A B : Type 0} where
  pub Leads-bind :
      {R : Db → Type 0} (m : M A) (f : A → M B)
      → Leads P R m
      → ((a : A) → Leads R Q (f a))
      → Leads P Q (m >>= f)
  Leads-bind m f km kf = record { at = λ w p. (kf (m w).0).at (m w).1 (km.at w p) }

  -- A SELECT that did not fail: its result comes from the tables as they are.
  pub Leads-read :
      (R : A → Db → Type 0) (f : ℕ → Db → A) (g : Option A → M B)
      → Leads P Q (g none)
      → ((now : ℕ) (db : Db) → P db → R (f now db) db)
      → ((a : A) → Leads (R a) Q (g (some a)))
      → Leads P Q (query f >>= g)
  unfolding query
  Leads-read R f g failed known kg = record {
    at = λ w p. elim (Bool-cases (w.fails w.calls)) [
      | inl e ↦ rw (e, ◌>>=◌) (failed.at (record w { calls = w.calls + 1 }) p)
      | inr e ↦
          rw (e, ◌>>=◌)
            ((kg (f w.now w.db)).at (record w { calls = w.calls + 1 }) (known w.now w.db p))
    ];
  }

module _ {P Q : Db → Type 0} {B : Type 0} where
  -- A statement that writes, with what holds if it was made and if it failed.
  pub Leads-write :
      {R : Db → Type 0} (f : ℕ → Db → Db) (g : Option (Unit {0}) → M B)
      → Leads P Q (g none)
      → ((now : ℕ) (db : Db) → P db → R (f now db))
      → Leads R Q (g (some tt))
      → Leads P Q (exec f >>= g)
  unfolding exec
  Leads-write f g failed made kg = record {
    at = λ w p. elim (Bool-cases (w.fails w.calls)) [
      | inl e ↦ rw (e, ◌>>=◌) (failed.at (record w { calls = w.calls + 1 }) p)
      | inr e ↦
          rw (e, ◌>>=◌)
            (kg.at (record w { db = f w.now w.db; calls = w.calls + 1 }) (made w.now w.db p))
    ];
  }
