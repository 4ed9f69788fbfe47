-- ===== src/Scheduler/Setup.antt =====
-- How the configuration builds the chain, and when the strategy for a named node is silent.
use agents_admin.Prelude.{
  ℕ, true, String, Option, none, some, List, [], ◌∷◌, ◌++◌, ◌≡◌, refl, sym, ◌∙◌, arith, inl, inr,
  Option-cases,
}
use mathlib.Core.List.{append-nil, append_assoc}
use agents_admin.Json.{obj, doc, field_value, unmarshal_map}
use agents_admin.Model.Task.{Task}
use agents_admin.Scheduler.Strategy.{ScheduleRequest, extract_specified_node_id, select_direct}
use agents_admin.Scheduler.Chain.{
  Config, Chain, Strategy, label_match, add, add_named, strategy_named, build_strategy_chain,
  validate, or_text, or_number, or_list, or_default,
}
use agents_admin.Api.Runs.{exec_snapshot, new_run}

or_text-idempotent : (s d : String) → or_text (or_text s d) d ≡ or_text s d
or_text-idempotent s d = ground arith

or_number-idempotent : (n d : ℕ) → or_number (or_number n d) d ≡ or_number n d
or_number-idempotent n d = ground arith

or_list-idempotent : (l d : List String) → or_list (or_list l d) d ≡ or_list l d
or_list-idempotent [] [] = refl
or_list-idempotent [] (s ∷ d) = refl
or_list-idempotent (s ∷ l) d = refl

-- To validate a configuration twice is to validate it once.
pub validate-idempotent : (c : Config) → validate (validate c) ≡ validate c
unfolding validate
validate-idempotent c i = record {
  node_id = or_text-idempotent c.node_id "scheduler-default" i;
  default_strategy = or_text-idempotent c.default_strategy "label_match" i;
  chain = or_list-idempotent c.chain ("direct" ∷ "affinity" ∷ "label_match" ∷ []) i;
  label_load_balance = c.label_load_balance;
  read_timeout = or_number-idempotent c.read_timeout 5 i;
  read_count = or_number-idempotent c.read_count 10 i;
  fallback_interval = or_number-idempotent c.fallback_interval 300 i;
  stale_threshold = or_number-idempotent c.stale_threshold 300 i;
  offline_threshold = or_number-idempotent c.offline_threshold 30 i;
}

-- The strategies of the known names, in order.
abbrev pub known : Config → List String → Chain
known c [] = []
known c (name ∷ names) =
    let rest = known c names in elim (strategy_named c name) [ none ↦ rest | some s ↦ s ∷ rest ]

added-known :
    (c : Config) (chain rest : Chain) (o : Option Strategy)
    → elim o [ none ↦ chain | some s ↦ add chain s ] ++ rest
      ≡ chain ++ elim o [ none ↦ rest | some s ↦ s ∷ rest ]
added-known c chain rest none = refl
added-known c chain rest (some s) = append_assoc chain (s ∷ []) rest

add_named-known :
    (c : Config) (names : List String) (chain : Chain)
    → add_named c names chain ≡ chain ++ known c names
unfolding add_named
add_named-known c [] chain = sym (append-nil chain)
add_named-known c (name ∷ names) chain =
    add_named-known c names (elim (strategy_named c name) [ none ↦ chain | some s ↦ add chain s ])
    ∙ added-known c chain (known c names) (strategy_named c name)

-- The chain that is built holds the strategies of the known names in their order, names that are not
-- known left out; if there is none, it is the one that matches labels and balances the load.
pub build_strategy_chain-known :
    (c : Config)
    → build_strategy_chain c
      ≡ elim (known c c.chain) [ [] ↦ label_match true ∷ [] | s ∷ ss ↦ s ∷ ss ]
unfolding build_strategy_chain
build_strategy_chain-known c = rw (add_named-known c c.chain []) (shape (known c c.chain))
  where
    shape : (l : Chain) → or_default l ≡ elim l [ [] ↦ label_match true ∷ [] | s ∷ ss ↦ s ∷ ss ]
    shape [] = refl
    shape (s ∷ ss) = refl

module _ (task : Task) where
  -- The snapshot of a run that the handler creates names no node.
  exec_snapshot-no_node : extract_specified_node_id (doc (obj (exec_snapshot task))) ≡ ""
  unfolding extract_specified_node_id unmarshal_map exec_snapshot field_value
  exec_snapshot-no_node = elim (Option-cases task.workspace) [
    | inl w ↦ elim (Option-cases task.labels) [
      | inl l ↦ rw (w, l) refl
      | inr (x, l) ↦ rw (w, l) refl
    ]
    | inr (y, w) ↦ elim (Option-cases task.labels) [
      | inl l ↦ rw (w, l) refl
      | inr (x, l) ↦ rw (w, l) refl
    ]
  ]

-- For a request whose run is as the handler creates it, the strategy for a named node chooses
-- nothing and gives no reason.
pub select_direct-created :
    (req : ScheduleRequest) (id : String) (task : Task) (now : ℕ)
    → req.run ≡ some (new_run id task now)
    → select_direct req ≡ (none, "")
unfolding select_direct
select_direct-created req id task now h = rw (h, exec_snapshot-no_node task) refl
