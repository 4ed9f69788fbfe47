-- ===== src/Tests/Choices.antt =====
-- The theorems of the scheduler, at one request with two nodes, the first of them full.
use agents_admin.Prelude.{◌≤ℤ◌, true, none, [], ◌∷◌, ◌≡◌, ◌≢◌, ◌⊎◌, refl, inl, inr}
use agents_admin.Scheduler.Strategy.{
  available, has_capacity, select_load_balance, select_label_match, select_direct,
  select_round_robin, match_labels, node_labels,
}
use agents_admin.Scheduler.Chain.{direct, load_balance, label_match, select_node}
use agents_admin.Scheduler.Loop.{choose}
use agents_admin.Api.Runs.{new_run}
use agents_admin.Json.{unmarshal_map, unmarshal_string_map, string_fields, field_value, map_get}
use agents_admin.Prelude.{◌-ℤ◌}
use agents_admin.Nodes.Manager.{running_of}
use agents_admin.Nodes.Status.{get_node_max_concurrent}
use agents_admin.Scheduler.Strategy.{
  labels_cover, task_labels, best_loop, among_matched, matched_nodes, select_by_load_balance,
  round_robin_loop,
}
use agents_admin.Scheduler.Chain.{select_one}
use agents_admin.Scheduler.Assigning.{Given, Untouched, choose-Given}
use agents_admin.Scheduler.Selection.{
  IsEligible, select_node-IsEligible, RoundRobinPick, select_round_robin-some,
}
use agents_admin.Scheduler.Serving.{select_node-Serves}
use agents_admin.Scheduler.Optimal.{select_load_balance-max, select_label_match-max}
use agents_admin.Scheduler.Setup.{select_direct-created}
use agents_admin.Tests.{task_a, large_node, db_of, world_of, scheduler, intn_zero, request}

choose-Given_example :
    Untouched scheduler (world_of (db_of (new_run "r1" task_a 5 ∷ []))) (
      choose intn_zero scheduler
        (new_run "r1" task_a 5)
        request
        (world_of (db_of (new_run "r1" task_a 5 ∷ []))))
    ⊎ Given scheduler
        (new_run "r1" task_a 5)
        request
        (world_of (db_of (new_run "r1" task_a 5 ∷ [])))
        (choose intn_zero scheduler
          (new_run "r1" task_a 5)
          request
          (world_of (db_of (new_run "r1" task_a 5 ∷ []))))
choose-Given_example =
    choose-Given intn_zero scheduler (new_run "r1" task_a 5) request
      (world_of (db_of (new_run "r1" task_a 5 ∷ [])))

large_node-IsEligible : IsEligible request large_node
unfolding has_capacity available running_of get_node_max_concurrent unmarshal_map field_value ◌-ℤ◌
large_node-IsEligible = record { candidate = inr (inl refl); room = refl }

large_node-matches : match_labels large_node (task_labels request) ≡ true
unfolding match_labels labels_cover node_labels unmarshal_string_map string_fields map_get
large_node-matches = refl

select_node-Serves_example :
    (select_node intn_zero (direct ∷ label_match true ∷ []) request).0.0 ≢ none
select_node-Serves_example =
    select_node-Serves request large_node large_node-IsEligible intn_zero
      (direct ∷ label_match true ∷ []) (label_match true) (λ k h. h) (inr (inl refl))
      large_node-matches

select_node-IsEligible_example : IsEligible request large_node
unfolding select_node select_one select_load_balance has_capacity available running_of
    get_node_max_concurrent unmarshal_map field_value ◌-ℤ◌ best_loop
select_node-IsEligible_example =
    select_node-IsEligible intn_zero request (load_balance ∷ []) large_node refl

select_round_robin-some_example :
    RoundRobinPick 0 request large_node (select_round_robin 0 request).1
unfolding select_round_robin round_robin_loop has_capacity available running_of
    get_node_max_concurrent unmarshal_map field_value ◌-ℤ◌
select_round_robin-some_example = select_round_robin-some 0 request large_node refl

select_load_balance-max_example :
    available request.node_running large_node ≤ℤ available request.node_running large_node
unfolding select_load_balance has_capacity available running_of get_node_max_concurrent
    unmarshal_map field_value ◌-ℤ◌ best_loop
select_load_balance-max_example =
    select_load_balance-max request large_node large_node refl large_node-IsEligible

select_label_match-max_example :
    available request.node_running large_node ≤ℤ available request.node_running large_node
unfolding select_label_match among_matched matched_nodes match_labels labels_cover node_labels
    unmarshal_string_map string_fields map_get select_by_load_balance has_capacity available
    running_of get_node_max_concurrent unmarshal_map field_value ◌-ℤ◌ best_loop
select_label_match-max_example =
    select_label_match-max request large_node large_node refl large_node-IsEligible
      large_node-matches

select_direct-created_example : select_direct request ≡ (none, "")
select_direct-created_example = select_direct-created request "r1" task_a 5 refl
