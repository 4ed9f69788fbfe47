-- ===== src/Scheduler/RoundRobin.antt =====
-- The round robin strategy: what it chooses, and how its index moves.
use agents_admin.Prelude.{
  ℕ, zero, suc, ◌+◌, ◌<◌, ◌≤◌, ◌%◌, true, false, Option, none, some, List, [], ◌∷◌, ◌≡◌, refl, inl,
  inr, arith, Has, Bool-cases, Option-cases, get_elem?, length,
}
use agents_admin.Model.Node.{Node}
use agents_admin.Scheduler.Strategy.{ScheduleRequest, has_capacity, round_robin_loop}

pub get_elem?-Has : {A : Type 0} (xs : List A) (i : ℕ) (a : A) → get_elem? xs i ≡ some a → Has a xs
get_elem?-Has [] i a h = cc
get_elem?-Has (x ∷ xs) zero a h = ground arith
get_elem?-Has (x ∷ xs) (suc i) a h = inr (get_elem?-Has xs i a h)

pub get_elem?-some :
    {A : Type 0} (xs : List A) (i : ℕ) → i < length xs → (a : A) × (get_elem? xs i ≡ some a)
get_elem?-some [] i h = elim h [ ]
get_elem?-some (x ∷ xs) zero h = (x, refl)
get_elem?-some (x ∷ xs) (suc i) h = get_elem?-some xs i (omega arith)

-- The candidate at an offset from the index, round the end of the list.
abbrev pub candidate_at : ScheduleRequest → ℕ → ℕ → ℕ → Option Node
candidate_at req index n k = get_elem? req.candidate_nodes ((index + k) % n)

-- The offset `k` is the first one from `i` on that holds a node with capacity.
pub record FirstFree (req : ScheduleRequest) (index n i k : ℕ) (node : Node) : Type 0 where
  pub from : i ≤ k
  pub here : candidate_at req index n k ≡ some node
  pub free : has_capacity req.node_running node ≡ true
  pub earlier_full :
      (j : ℕ) (m : Node)
      → i ≤ j
      → j < k
      → candidate_at req index n j ≡ some m
      → has_capacity req.node_running m ≡ false

module _ (req : ScheduleRequest) (index n : ℕ) where
  -- One offset further down: what is first from `i + 1` on is first from `i` on, if `i` is full.
  FirstFree-step :
      (i k : ℕ) (node : Node)
      → ((m : Node) → candidate_at req index n i ≡ some m → has_capacity req.node_running m ≡ false)
      → FirstFree req index n (i + 1) k node
      → FirstFree req index n i k node
  FirstFree-step i k node full f = record {
    from = omega (arith, f.from);
    here = f.here;
    free = f.free;
    earlier_full = λ j m le lt e. grind (arith, full m, f.earlier_full j m);
  }

  pub round_robin_loop-some :
      (left i at : ℕ) (node : Node)
      → round_robin_loop req index n i left ≡ some (at, node)
      → (k : ℕ) × (k < i + left) × (at ≡ (index + k) % n) × FirstFree req index n i k node
  unfolding round_robin_loop
  round_robin_loop-some zero i at node h = cc
  round_robin_loop-some (suc left) i at node h = elim (Option-cases (candidate_at req index n i)) [
    | inl e ↦
        let (k, lt, q, f) = round_robin_loop-some left (i + 1) at node (ground arith) in
        (k, omega arith, q, FirstFree-step i k node (λ m em. cc) f)
    | inr (m, e) ↦ elim (Bool-cases (has_capacity req.node_running m)) [
      | inl c ↦ (
        i,
        omega arith,
        ground arith,
        record {
          from = omega arith;
          here = ground arith;
          free = ground arith;
          earlier_full = λ j x le lt q. absurd (omega arith);
        },
      )
      | inr c ↦
          let (k, lt, q, f) = round_robin_loop-some left (i + 1) at node (ground arith) in
          (k, omega arith, q, FirstFree-step i k node (λ x ex. ground arith) f)
    ]
  ]

  pub round_robin_loop-none :
      (left i : ℕ)
      → round_robin_loop req index n i left ≡ none
      → (j : ℕ) (m : Node) → i ≤ j
      → j < i + left
      → candidate_at req index n j ≡ some m
      → has_capacity req.node_running m ≡ false
  unfolding round_robin_loop
  round_robin_loop-none zero i h j m le lt e = absurd (omega arith)
  round_robin_loop-none (suc left) i h j m le lt e =
      ground (arith, round_robin_loop-none left (i + 1) (ground arith) j m)
