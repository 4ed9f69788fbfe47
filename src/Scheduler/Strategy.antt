-- ===== src/Scheduler/Strategy.antt =====
-- internal/apiserver/scheduler/strategy_*.go: each strategy chooses a node of the request, and says
-- why. `rand.Intn` is a parameter of the random strategy.
use agents_admin.Prelude.{
  ℕ, suc, ◌+◌, ◌%◌, ℤ, pos, ◌-ℤ◌, ltb_ℤ, negsuc, Bool, true, false, ◌&&◌, String, str_eq, Option,
  none, some, List, [], ◌∷◌, if◌then◌else◌, filter, find?, length, get_elem?,
}
use agents_admin.Json.{
  RawMessage, is_empty, unmarshal_map, unmarshal_string_map, field_value, as_string, map_get,
}
use agents_admin.Model.Run.{Run}
use agents_admin.Model.Task.{Task}
use agents_admin.Model.Node.{Node}
use agents_admin.Nodes.Status.{get_node_max_concurrent}
use agents_admin.Nodes.Manager.{Counts, running_of}

-- `ScheduleRequest`
pub record ScheduleRequest : Type 0 where
  pub run : Option Run
  pub task : Option Task
  pub candidate_nodes : List Node
  pub node_running : Counts
  pub preferred_node : String

-- A node, or none, and the reason.
abbrev pub Choice : Type 0
Choice = Option Node × String

-- `maxConcurrent - currentRunning`
unfoldable pub available : Counts → Node → ℤ
available counts node = get_node_max_concurrent node -ℤ pos (running_of counts node.id)

-- `maxConcurrent-currentRunning > 0`
unfoldable pub has_capacity : Counts → Node → Bool
has_capacity counts node = ltb_ℤ (pos 0) (available counts node)

-- The loop that looks for one node by its id, and tests its capacity.
abbrev pub pick_named : Counts → String → String → String → Option Node → Choice
pick_named counts reason full missing none = (none, missing)
pick_named counts reason full missing (some n) =
    if has_capacity counts n then (some n, reason) else (none, full)

-- `AffinityStrategy.SelectNode`
unfoldable pub select_affinity : ScheduleRequest → Choice
select_affinity req =
    if str_eq req.preferred_node ""
    then (none, "")
    else pick_named req.node_running "affinity" "affinity_no_capacity" ""
        (find? (λ n. str_eq n.id req.preferred_node) req.candidate_nodes)

-- `extractSpecifiedNodeID`
unfoldable pub extract_specified_node_id : RawMessage → String
extract_specified_node_id snapshot = elim (unmarshal_map snapshot) [
  | none ↦ ""
  | some spec ↦
      let node_id = as_string (field_value "node_id" spec) in
      if str_eq node_id "" then as_string (field_value "target_node" spec) else node_id
]

abbrev pub direct_by_id : ScheduleRequest → String → Choice
direct_by_id req id =
    if str_eq id ""
    then (none, "")
    else pick_named req.node_running "direct" "direct_no_capacity" "direct_node_unavailable"
        (find? (λ n. str_eq n.id id) req.candidate_nodes)

-- `DirectStrategy.SelectNode`
unfoldable pub select_direct : ScheduleRequest → Choice
select_direct req = elim req.run [
  | none ↦ (none, "")
  | some run ↦ direct_by_id req (extract_specified_node_id run.snapshot)
]

-- The labels of the task of a request.
abbrev pub task_labels : ScheduleRequest → List (String × String)
task_labels req = elim req.task [ none ↦ [] | some t ↦ elim t.labels [ none ↦ [] | some l ↦ l ] ]

-- Every wanted label is there, with its value.
unfoldable pub labels_cover : List (String × String) → List (String × String) → Bool
labels_cover have [] = true
labels_cover have ((k, v) ∷ wanted) =
    elim (map_get k have) [ none ↦ false | some x ↦ str_eq x v ] && labels_cover have wanted

-- The labels of a node; `none` if they do not parse.
unfoldable pub node_labels : Node → Option (List (String × String))
node_labels node = if is_empty node.labels then some [] else unmarshal_string_map node.labels

-- `matchLabels`
unfoldable pub match_labels : Node → List (String × String) → Bool
match_labels node [] = true
match_labels node (l ∷ wanted) = elim (node_labels node) [
  | none ↦ false
  | some have ↦ labels_cover have (l ∷ wanted)
]

-- The loop of `selectByLoadBalance` and of the load-balancing strategy: the node with the most room
-- so far, and that room. Only nodes that pass `ok` are compared.
unfoldable pub best_loop : (Node → Bool) → Counts → List Node → Option Node → ℤ → Option Node
best_loop ok counts [] best most = best
best_loop ok counts (n ∷ ns) best most =
    let room = available counts n in
    let better = ok n && ltb_ℤ most room in
    best_loop ok counts ns (if better then some n else best) (if better then room else most)

-- `selectByLoadBalance`
unfoldable pub select_by_load_balance : Counts → List Node → Option Node
unfolding best_loop
select_by_load_balance counts nodes = best_loop (λ n. true) counts nodes none (negsuc 0)

-- The choice among the nodes whose labels match.
unfoldable pub among_matched : Bool → Counts → List Node → Choice
among_matched load_balance counts [] = (none, "")
among_matched load_balance counts (n ∷ []) = (some n, "label_match")
among_matched load_balance counts (n ∷ m ∷ ns) =
    if load_balance
    then (select_by_load_balance counts (n ∷ m ∷ ns), "label_match_lb")
    else (some n, "label_match")

-- The nodes with the labels of the task and with capacity.
unfoldable pub matched_nodes : ScheduleRequest → List Node
matched_nodes req =
    filter (λ n. match_labels n (task_labels req) && has_capacity req.node_running n)
      req.candidate_nodes

-- `LabelMatchStrategy.SelectNode`
unfoldable pub select_label_match : Bool → ScheduleRequest → Choice
unfolding among_matched matched_nodes
select_label_match load_balance req =
    among_matched load_balance req.node_running (matched_nodes req)

-- `LoadBalanceStrategy.SelectNode`
unfoldable pub select_load_balance : ScheduleRequest → Choice
unfolding best_loop
select_load_balance req =
    elim (best_loop (has_capacity req.node_running) req.node_running req.candidate_nodes none
      (negsuc 0)) [ none ↦ (none, "") | some n ↦ (some n, "load_balance") ]

-- `intn n` is what `rand.Intn(n)` returns.
unfoldable pub at_random : (ℕ → ℕ) → List Node → Choice
at_random intn [] = (none, "")
at_random intn (n ∷ ns) = (get_elem? (n ∷ ns) (intn (length (n ∷ ns))), "random")

-- `RandomStrategy.SelectNode`
unfoldable pub select_random : (ℕ → ℕ) → ScheduleRequest → Choice
unfolding at_random
select_random intn req = at_random intn (filter (has_capacity req.node_running) req.candidate_nodes)

-- The loop of the round robin over the offsets left: the position and the node of the first one
-- with capacity. `n` is the number of candidates.
unfoldable pub round_robin_loop : ScheduleRequest → ℕ → ℕ → ℕ → ℕ → Option (ℕ × Node)
round_robin_loop req index n i ℕ.zero = none
round_robin_loop req index n i (suc left) =
    let rest = round_robin_loop req index n (i + 1) left in
    let at = (index + i) % n in
    elim (get_elem? req.candidate_nodes at) [
      | none ↦ rest
      | some node ↦ if has_capacity req.node_running node then some (at, node) else rest
    ]

abbrev pub round_robin_result : ℕ → ℕ → Option (ℕ × Node) → Choice × ℕ
round_robin_result index n none = ((none, ""), index)
round_robin_result index n (some (at, node)) = ((some node, "round_robin"), (at + 1) % n)

-- `RoundRobinStrategy.SelectNode`, with the index that it keeps.
unfoldable pub select_round_robin : ℕ → ScheduleRequest → Choice × ℕ
select_round_robin index req =
    let n = length req.candidate_nodes in
    round_robin_result index n (round_robin_loop req index n 0 n)
