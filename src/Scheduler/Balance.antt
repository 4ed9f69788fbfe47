-- ===== src/Scheduler/Balance.antt =====
-- The loop that looks for the node with the most room: what it returns is one of the nodes, and no
-- node that takes part has more room.
use agents_admin.Prelude.{
  ℤ, ◌≤ℤ◌, ◌<ℤ◌, ltb_ℤ, Bool, true, ◌&&◌, Option, none, some, List, [], ◌∷◌, ◌≡◌, ◌≢◌, refl, ◌⊎◌,
  inl, inr, arith, Has, Bool-cases,
}
use agents_admin.Model.Node.{Node}
use agents_admin.Nodes.Manager.{Counts}
use agents_admin.Scheduler.Strategy.{available, best_loop}

module _ (ok : Node → Bool) (counts : Counts) where
  pub best_loop-Has :
      (ns : List Node) (best : Option Node) (most : ℤ) (n : Node)
      → best_loop ok counts ns best most ≡ some n
      → (best ≡ some n) ⊎ (Has n ns × (ok n ≡ true))
  unfolding best_loop
  best_loop-Has [] best most n h = inl h
  best_loop-Has (x ∷ ns) best most n h =
      elim (Bool-cases (ok x && ltb_ℤ most (available counts x))) [
        | inl t ↦ ground (arith, best_loop-Has ns (some x) (available counts x) n)
        | inr f ↦ ground (arith, best_loop-Has ns best most n)
      ]

  -- The record holder has the room that is recorded.
  abbrev Tracks : Option Node → ℤ → Type 0
  Tracks none most = Unit
  Tracks (some b) most = most ≡ available counts b

  pub best_loop-le :
      (ns : List Node) (best : Option Node) (most : ℤ) (n : Node)
      → Tracks best most
      → best_loop ok counts ns best most ≡ some n
      → most ≤ℤ available counts n
  unfolding best_loop
  best_loop-le [] none most n t h = cc
  best_loop-le [] (some b) most n t h = ground arith
  best_loop-le (x ∷ ns) best most n t h =
      elim (Bool-cases (ok x && ltb_ℤ most (available counts x))) [
        | inl y ↦ ground (arith, best_loop-le ns (some x) (available counts x) n refl)
        | inr f ↦ ground (arith, best_loop-le ns best most n t)
      ]

  pub best_loop-max :
      (ns : List Node) (best : Option Node) (most : ℤ) (n m : Node)
      → Tracks best most
      → best_loop ok counts ns best most ≡ some n
      → Has m ns
      → ok m ≡ true
      → available counts m ≤ℤ available counts n
  unfolding best_loop
  best_loop-max [] best most n m t h k o = elim k [ ]
  best_loop-max (x ∷ ns) best most n m t h k o =
      elim (Bool-cases (ok x && ltb_ℤ most (available counts x))) [
        | inl y ↦ ground (
          arith,
          best_loop-le ns (some x) (available counts x) n refl,
          best_loop-max ns (some x) (available counts x) n m refl,
        )
        | inr f ↦ ground (arith, best_loop-le ns best most n t, best_loop-max ns best most n m t)
      ]

  -- Once a node holds the record, the loop ends with one.
  best_loop_keeps :
      (ns : List Node) (b : Node) (most : ℤ) → best_loop ok counts ns (some b) most ≢ none
  unfolding best_loop
  best_loop_keeps [] b most h = cc
  best_loop_keeps (x ∷ ns) b most h = elim (Bool-cases (ok x && ltb_ℤ most (available counts x))) [
    | inl y ↦ ground (arith, best_loop_keeps ns x (available counts x))
    | inr f ↦ ground (arith, best_loop_keeps ns b most)
  ]

  pub best_loop-some :
      (ns : List Node) (best : Option Node) (most : ℤ) (m : Node)
      → Has m ns
      → ok m ≡ true
      → most <ℤ available counts m
      → best_loop ok counts ns best most ≢ none
  unfolding best_loop
  best_loop-some [] best most m k o lt h = elim k [ ]
  best_loop-some (x ∷ ns) best most m k o lt h =
      elim (Bool-cases (ok x && ltb_ℤ most (available counts x))) [
        | inl y ↦ ground (arith, best_loop_keeps ns x (available counts x))
        | inr f ↦ ground (arith, best_loop-some ns best most m)
      ]
