-- ===== src/Scheduler/Serving.antt =====
-- A chain with a general strategy turns no run away while a suitable node has room.
use native.Mathlib.Nat.{mod-add-mod, add-mod-mod, mod-eq_of_lt, add-mod_right}
use agents_admin.Prelude.{
  ℕ, suc, ◌+◌, ◌-◌, ◌%◌, ◌<◌, ◌<ℤ◌, negsuc, Bool, true, false, ◌&&◌, none, some, List, [], ◌∷◌, ◌≡◌,
  ◌≢◌, refl, sym, ◌∙◌, inl, inr, arith, Has, filter-Has, filter, ap, get_elem?, length,
}
use agents_admin.Model.Node.{Node}
use agents_admin.Scheduler.Strategy.{
  ScheduleRequest, available, has_capacity, select_label_match, select_load_balance, select_random,
  select_round_robin, at_random, among_matched, matched_nodes, match_labels, task_labels,
  select_by_load_balance,
}
use agents_admin.Scheduler.Balance.{best_loop-some}
use agents_admin.Scheduler.RoundRobin.{get_elem?-some, round_robin_loop-none}
use agents_admin.Scheduler.Chain.{
  Strategy, direct, affinity, load_balance, random, label_match, round_robin, Chain, select_one,
  select_node,
}
use agents_admin.Scheduler.Selection.{IsEligible, select_node-none}

-- The nodes with room that a strategy is bound to consider.
abbrev pub Serves : Strategy → ScheduleRequest → Node → Type 0
Serves load_balance req n = Unit
Serves random req n = Unit
Serves (round_robin i) req n = Unit
Serves (label_match lb) req n = match_labels n (task_labels req) ≡ true
Serves direct req n = ⊥
Serves affinity req n = ⊥

Has-position :
    {A : Type 0} (a : A) (xs : List A)
    → Has a xs
    → (i : ℕ) × (i < length xs) × (get_elem? xs i ≡ some a)
Has-position a [] h = elim h [ ]
Has-position a (x ∷ xs) (inl e) = (0, omega arith, cc)
Has-position a (x ∷ xs) (inr m) = let (i, lt, e) = Has-position a xs m in (suc i, omega arith, e)

-- Every position lies at some offset from the index.
offset_of : (index n p : ℕ) → p < n → (j : ℕ) × (j < n) × ((index + j) % n ≡ p)
offset_of index n p lt =
    let r = index % n in
    let d = n - r + p in
    let inside : r < n = omega arith in
    let total : r + d ≡ p + n = omega arith in
    (
      d % n,
      omega arith,
      add-mod-mod index d n
          ∙ sym (mod-add-mod index n d)
          ∙ ap (λ k. k % n) total
          ∙ add-mod_right p n
          ∙ mod-eq_of_lt lt,
    )

room_above :
    (req : ScheduleRequest) (n : Node)
    → has_capacity req.node_running n ≡ true
    → negsuc 0 <ℤ available req.node_running n
unfolding has_capacity
room_above req n h = ground arith

module _ (req : ScheduleRequest) (n : Node) (eligible : IsEligible req n) where
  load_balance_serves : (select_load_balance req).0 ≢ none
  unfolding select_load_balance
  load_balance_serves h = ground (
    arith,
    best_loop-some (has_capacity req.node_running) req.node_running req.candidate_nodes none
        (negsuc 0) n eligible.candidate eligible.room (room_above req n eligible.room),
  )

  at_random_some :
      (intn : ℕ → ℕ) (ns : List Node)
      → ((k : ℕ) → 0 < k → intn k < k)
      → Has n ns
      → (at_random intn ns).0 ≢ none
  unfolding at_random
  at_random_some intn [] bound m h = elim m [ ]
  at_random_some intn (x ∷ ns) bound m h =
      let (a, e) =
        get_elem?-some (x ∷ ns) (intn (length (x ∷ ns))) (bound (length (x ∷ ns)) (omega arith)) in
      cc (h, e)

  random_serves :
      (intn : ℕ → ℕ) → ((k : ℕ) → 0 < k → intn k < k) → (select_random intn req).0 ≢ none
  unfolding select_random
  random_serves intn bound =
      at_random_some intn (filter (has_capacity req.node_running) req.candidate_nodes) bound (
        filter-Has (has_capacity req.node_running) n req.candidate_nodes eligible.candidate
          eligible.room)

  round_robin_serves : (index : ℕ) → (select_round_robin index req).0.0 ≢ none
  unfolding select_round_robin
  round_robin_serves index h =
      let len = length req.candidate_nodes in
      let (p, lt, e) = Has-position n req.candidate_nodes eligible.candidate in
      let (j, jlt, q) = offset_of index len p lt in
      let full =
        round_robin_loop-none req index len len 0 (ground arith) j n (omega arith) (omega arith)
          (ap (get_elem? req.candidate_nodes) q ∙ e) in
      cc (full, eligible.room)

  among_matched_some :
      (lb : Bool) (ns : List Node) → Has n ns → (among_matched lb req.node_running ns).0 ≢ none
  unfolding among_matched select_by_load_balance
  among_matched_some lb [] m h = elim m [ ]
  among_matched_some lb (a ∷ []) m h = ground arith
  among_matched_some true (a ∷ b ∷ ns) m h =
      best_loop-some (λ k. true) req.node_running (a ∷ b ∷ ns) none (negsuc 0) n m refl
        (room_above req n eligible.room) h
  among_matched_some false (a ∷ b ∷ ns) m h = ground arith

  label_match_serves :
      (lb : Bool) → match_labels n (task_labels req) ≡ true → (select_label_match lb req).0 ≢ none
  unfolding select_label_match
  label_match_serves lb t = among_matched_some lb (matched_nodes req) (
      unfold matched_nodes in
      filter-Has (λ m. match_labels m (task_labels req) && has_capacity req.node_running m) n
        req.candidate_nodes eligible.candidate (ground (arith, eligible.room)))

  select_one-Serves :
      (intn : ℕ → ℕ) (s : Strategy)
      → ((k : ℕ) → 0 < k → intn k < k)
      → Serves s req n
      → (select_one intn s req).0.0 ≢ none
  unfolding select_one
  select_one-Serves intn direct bound v = elim v [ ]
  select_one-Serves intn affinity bound v = elim v [ ]
  select_one-Serves intn load_balance bound v = load_balance_serves
  select_one-Serves intn random bound v = random_serves intn bound
  select_one-Serves intn (label_match lb) bound v = label_match_serves lb v
  select_one-Serves intn (round_robin i) bound v = round_robin_serves i

  -- If a candidate has room and the random source stays in range, a chain chooses a node if it holds
  -- a load-balancing, a random or a round robin strategy, or a label strategy whose wanted labels
  -- that candidate has.
  pub select_node-Serves :
      (intn : ℕ → ℕ) (chain : Chain) (s : Strategy)
      → ((k : ℕ) → 0 < k → intn k < k)
      → Has s chain
      → Serves s req n
      → (select_node intn chain req).0.0 ≢ none
  select_node-Serves intn chain s bound m v h =
      select_one-Serves intn s bound v (select_node-none intn req chain s h m)
