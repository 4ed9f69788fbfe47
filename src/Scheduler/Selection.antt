-- ===== src/Scheduler/Selection.antt =====
-- What the strategies choose: only candidates with capacity, and always one where they should.
use native.Mathlib.Nat.{mod-add-mod}
use agents_admin.Prelude.{
  ℕ, zero, suc, ◌+◌, ◌%◌, ◌<◌, negsuc, Bool, true, false, ◌&&◌, Option, none, some, List, [], ◌∷◌,
  ◌≡◌, refl, subst, inl, inr, arith, Has, Has-filter, find?-Has, filter, find?, Option-cases,
  get_elem?, length, String, str_eq, eq_iff,
}
use agents_admin.Model.Node.{Node}
use agents_admin.Scheduler.Strategy.{
  ScheduleRequest, has_capacity, select_affinity, select_direct, select_label_match,
  select_load_balance, select_random, select_round_robin, at_random, round_robin_loop,
  round_robin_result, among_matched, matched_nodes, match_labels, task_labels,
  select_by_load_balance, pick_named, direct_by_id, extract_specified_node_id,
}
use agents_admin.Scheduler.Balance.{best_loop-Has}
use agents_admin.Scheduler.RoundRobin.{get_elem?-Has, FirstFree, round_robin_loop-some}
use agents_admin.Scheduler.Chain.{
  Strategy, direct, affinity, load_balance, random, label_match, round_robin, Chain, select_one,
  select_node,
}

-- A candidate with room for one more run.
pub record IsEligible (req : ScheduleRequest) (n : Node) : Type 0 where
  pub candidate : Has n req.candidate_nodes
  pub room : has_capacity req.node_running n ≡ true

module _ (req : ScheduleRequest) (n : Node) where
  pick_named-IsEligible :
      (reason full missing id : String)
      → (pick_named req.node_running reason full missing
          (find? (λ m. str_eq m.id id) req.candidate_nodes)).0
        ≡ some n
      → IsEligible req n × (n.id ≡ id)
  pick_named-IsEligible reason full missing id h =
      elim (Option-cases (find? (λ m. str_eq m.id id) req.candidate_nodes)) [
        | inl e ↦ ground arith
        | inr (m, e) ↦
            let (has, same) = find?-Has (λ k. str_eq k.id id) m req.candidate_nodes e in
            ground (arith, has, same, eq_iff m.id id)
      ]

  pub select_affinity-IsEligible :
      (select_affinity req).0 ≡ some n → IsEligible req n × (n.id ≡ req.preferred_node)
  unfolding select_affinity
  select_affinity-IsEligible h =
      ground (arith, pick_named-IsEligible "affinity" "affinity_no_capacity" "" req.preferred_node)

  direct_by_id-IsEligible :
      (id : String) → (direct_by_id req id).0 ≡ some n → IsEligible req n × (n.id ≡ id)
  direct_by_id-IsEligible id h =
      ground
        (arith, pick_named-IsEligible "direct" "direct_no_capacity" "direct_node_unavailable" id)

  pub select_direct-IsEligible : (select_direct req).0 ≡ some n → IsEligible req n
  unfolding select_direct
  select_direct-IsEligible h = elim (Option-cases req.run) [
    | inl e ↦ cc
    | inr (run, e) ↦
        (direct_by_id-IsEligible (extract_specified_node_id run.snapshot) (ground arith)).0
  ]

  pub select_load_balance-IsEligible : (select_load_balance req).0 ≡ some n → IsEligible req n
  unfolding select_load_balance
  select_load_balance-IsEligible h = ground (
    arith,
    best_loop-Has (has_capacity req.node_running) req.node_running req.candidate_nodes none
        (negsuc 0) n,
  )

  pub matched_nodes-Has :
      Has n (matched_nodes req) → IsEligible req n × (match_labels n (task_labels req) ≡ true)
  unfolding matched_nodes
  matched_nodes-Has h = ground (
    arith,
    Has-filter (λ m. match_labels m (task_labels req) && has_capacity req.node_running m) n
        req.candidate_nodes,
  )

  pub among_matched-Has :
      (lb : Bool) (ns : List Node) → (among_matched lb req.node_running ns).0 ≡ some n → Has n ns
  unfolding among_matched select_by_load_balance
  among_matched-Has lb [] h = cc
  among_matched-Has lb (a ∷ []) h = ground arith
  among_matched-Has true (a ∷ b ∷ ns) h =
      ground (arith, best_loop-Has (λ m. true) req.node_running (a ∷ b ∷ ns) none (negsuc 0) n h)
  among_matched-Has false (a ∷ b ∷ ns) h = ground arith

  pub select_label_match-IsEligible :
      (lb : Bool)
      → (select_label_match lb req).0 ≡ some n
      → IsEligible req n × (match_labels n (task_labels req) ≡ true)
  unfolding select_label_match
  select_label_match-IsEligible lb h =
      matched_nodes-Has (among_matched-Has lb (matched_nodes req) h)

  at_random-Has : (intn : ℕ → ℕ) (ns : List Node) → (at_random intn ns).0 ≡ some n → Has n ns
  unfolding at_random
  at_random-Has intn [] h = cc
  at_random-Has intn (m ∷ ns) h = get_elem?-Has (m ∷ ns) (intn (length (m ∷ ns))) n h

  pub select_random-IsEligible :
      (intn : ℕ → ℕ) → (select_random intn req).0 ≡ some n → IsEligible req n
  unfolding select_random
  select_random-IsEligible intn h =
      let (c, r) =
        Has-filter (has_capacity req.node_running) n req.candidate_nodes
          (at_random-Has intn (filter (has_capacity req.node_running) req.candidate_nodes) h) in
      record { candidate = c; room = r }

-- What the round robin strategy chooses is the first candidate with capacity at or after its index,
-- going round; its index then stands behind that candidate, inside the list.
pub record RoundRobinPick (index : ℕ) (req : ScheduleRequest) (node : Node) (next : ℕ)
    : Type 0 where
  pub offset : ℕ
  pub first : FirstFree req index (length req.candidate_nodes) 0 offset node
  pub moved : next ≡ (index + offset + 1) % length req.candidate_nodes
  pub inside : next < length req.candidate_nodes

get_elem?-length :
    {A : Type 0} (xs : List A) (i : ℕ) (a : A) → get_elem? xs i ≡ some a → i < length xs
get_elem?-length [] i a h = cc
get_elem?-length (x ∷ xs) zero a h = omega arith
get_elem?-length (x ∷ xs) (suc i) a h = omega (arith, get_elem?-length xs i a h)

module _ (index : ℕ) (req : ScheduleRequest) where
  rr_some :
      (at : ℕ) (node : Node)
      → round_robin_loop req index (length req.candidate_nodes) 0 (length req.candidate_nodes)
        ≡ some (at, node)
      → RoundRobinPick index req node ((at + 1) % length req.candidate_nodes)
  rr_some at node h =
      let (k, lt, q, f) =
        round_robin_loop-some req index (length req.candidate_nodes) (length req.candidate_nodes) 0
          at node h in
      let short =
        get_elem?-length req.candidate_nodes ((index + k) % length req.candidate_nodes) node
          f.here in
      record {
        offset = k;
        first = f;
        moved = rw q (mod-add-mod (index + k) (length req.candidate_nodes) 1);
        inside = omega arith;
      }

  rr_result-some :
      (o : Option (ℕ × Node)) (node : Node)
      → round_robin_loop req index (length req.candidate_nodes) 0 (length req.candidate_nodes) ≡ o
      → (round_robin_result index (length req.candidate_nodes) o).0.0 ≡ some node
      → RoundRobinPick index req node (round_robin_result index (length req.candidate_nodes) o).1
  rr_result-some none node e h = cc
  rr_result-some (some (at, m)) node e h =
      subst (λ k. RoundRobinPick index req k ((at + 1) % length req.candidate_nodes)) (ground arith)
        (rr_some at m e)

  -- What the round robin strategy chooses is the first candidate with capacity at or after its
  -- index, going round; the index that it keeps then stands right behind that candidate, inside the
  -- list.
  pub select_round_robin-some :
      (node : Node)
      → (select_round_robin index req).0.0 ≡ some node
      → RoundRobinPick index req node (select_round_robin index req).1
  unfolding select_round_robin
  select_round_robin-some node h = rr_result-some _ node refl h

  pub select_round_robin-IsEligible :
      (node : Node) → (select_round_robin index req).0.0 ≡ some node → IsEligible req node
  select_round_robin-IsEligible node h =
      let pick = select_round_robin-some node h in
      record {
        candidate =
            get_elem?-Has req.candidate_nodes ((index + pick.offset) % length req.candidate_nodes)
              node pick.first.here;
        room = pick.first.free;
      }

module _ (intn : ℕ → ℕ) (req : ScheduleRequest) where
  -- Whatever the strategy, the node that it chooses is a candidate with room for one more run.
  pub select_one-IsEligible :
      (s : Strategy) (n : Node) → (select_one intn s req).0.0 ≡ some n → IsEligible req n
  unfolding select_one
  select_one-IsEligible direct n h = select_direct-IsEligible req n h
  select_one-IsEligible affinity n h = (select_affinity-IsEligible req n h).0
  select_one-IsEligible load_balance n h = select_load_balance-IsEligible req n h
  select_one-IsEligible random n h = select_random-IsEligible req n intn h
  select_one-IsEligible (label_match lb) n h = (select_label_match-IsEligible req n lb h).0
  select_one-IsEligible (round_robin i) n h = select_round_robin-IsEligible i req n h

  -- Every node that a chain chooses is a candidate with room for one more run.
  pub select_node-IsEligible :
      (chain : Chain) (n : Node) → (select_node intn chain req).0.0 ≡ some n → IsEligible req n
  unfolding select_node
  select_node-IsEligible [] n h = cc
  select_node-IsEligible (s ∷ rest) n h = elim (Option-cases (select_one intn s req).0.0) [
    | inl e ↦ select_node-IsEligible rest n (ground arith)
    | inr (m, e) ↦ select_one-IsEligible s n (ground arith)
  ]

  -- The chain chooses nothing exactly when none of its strategies does.
  pub select_node-none :
      (chain : Chain) (s : Strategy)
      → (select_node intn chain req).0.0 ≡ none
      → Has s chain
      → (select_one intn s req).0.0 ≡ none
  unfolding select_node
  select_node-none [] s h m = elim m [ ]
  select_node-none (x ∷ rest) s h m = elim (Option-cases (select_one intn x req).0.0) [
    | inl e ↦ ground (arith, select_node-none rest s)
    | inr (k, e) ↦ ground arith
  ]
