-- ===== src/Scheduler/Chain.antt =====
-- internal/apiserver/scheduler/strategy.go and config.go: the chain of strategies, and how the
-- configuration builds it. A round robin strategy carries its index. Durations are in seconds.
use agents_admin.Prelude.{
  ℕ, ◌==◌, Bool, true, String, str_eq, Option, none, some, List, [], ◌∷◌, ◌++◌, if◌then◌else◌,
}
use agents_admin.Scheduler.Strategy.{
  ScheduleRequest, Choice, select_affinity, select_direct, select_label_match, select_load_balance,
  select_random, select_round_robin,
}

pub data Strategy : Type 0 where
  direct affinity load_balance random : Strategy
  label_match : Bool → Strategy
  round_robin : ℕ → Strategy

-- `Strategy.SelectNode`, with the strategy as the call leaves it.
unfoldable pub select_one : (ℕ → ℕ) → Strategy → ScheduleRequest → Choice × Strategy
select_one intn direct req = (select_direct req, direct)
select_one intn affinity req = (select_affinity req, affinity)
select_one intn load_balance req = (select_load_balance req, load_balance)
select_one intn random req = (select_random intn req, random)
select_one intn (label_match lb) req = (select_label_match lb req, label_match lb)
select_one intn (round_robin i) req =
    let (choice, j) = select_round_robin i req in (choice, round_robin j)

abbrev pub Chain : Type 0
Chain = List Strategy

-- `StrategyChain.SelectNode`
unfoldable pub select_node : (ℕ → ℕ) → Chain → ScheduleRequest → Choice × Chain
select_node intn [] req = ((none, "no_strategy_matched"), [])
select_node intn (s ∷ rest) req =
    let (choice, s') = select_one intn s req in
    let (later, rest') = select_node intn rest req in
    elim choice.0 [ some node ↦ ((some node, choice.1), s' ∷ rest) | none ↦ (later, s' ∷ rest') ]

-- `StrategyChain.Add` and `Prepend`
abbrev pub add : Chain → Strategy → Chain
add chain s = chain ++ s ∷ []

abbrev pub prepend : Chain → Strategy → Chain
prepend chain s = s ∷ chain

-- `Config`, with the fields of its parts.
pub record Config : Type 0 where
  pub node_id : String
  pub default_strategy : String
  pub chain : List String
  pub label_load_balance : Bool
  pub read_timeout : ℕ
  pub read_count : ℕ
  pub fallback_interval : ℕ
  pub stale_threshold : ℕ
  pub offline_threshold : ℕ

-- `DefaultConfig`
abbrev pub default_config : Config
default_config = record {
  node_id = "scheduler-default";
  default_strategy = "label_match";
  chain = "affinity" ∷ "label_match" ∷ [];
  label_load_balance = true;
  read_timeout = 5;
  read_count = 10;
  fallback_interval = 300;
  stale_threshold = 300;
  offline_threshold = 30;
}

abbrev pub or_text : String → String → String
or_text s d = if str_eq s "" then d else s

abbrev pub or_number : ℕ → ℕ → ℕ
or_number n d = if n == 0 then d else n

abbrev pub or_list : List String → List String → List String
or_list [] d = d
or_list (s ∷ ss) d = s ∷ ss

-- `Config.Validate`
unfoldable pub validate : Config → Config
validate c = record {
  node_id = or_text c.node_id "scheduler-default";
  default_strategy = or_text c.default_strategy "label_match";
  chain = or_list c.chain ("direct" ∷ "affinity" ∷ "label_match" ∷ []);
  label_load_balance = c.label_load_balance;
  read_timeout = or_number c.read_timeout 5;
  read_count = or_number c.read_count 10;
  fallback_interval = or_number c.fallback_interval 300;
  stale_threshold = or_number c.stale_threshold 300;
  offline_threshold = or_number c.offline_threshold 30;
}

-- The `switch` of `BuildStrategyChain`; an unknown name adds nothing.
unfoldable pub strategy_named : Config → String → Option Strategy
strategy_named c name =
    if str_eq name "direct"
    then some direct
    else if str_eq name "affinity"
    then some affinity
    else if str_eq name "label_match"
    then some (label_match c.label_load_balance)
    else if str_eq name "load_balance"
    then some load_balance
    else if str_eq name "round_robin"
    then some (round_robin 0)
    else if str_eq name "random"
    then some random
    else none

unfoldable pub add_named : Config → List String → Chain → Chain
unfolding strategy_named
add_named c [] chain = chain
add_named c (name ∷ names) chain =
    add_named c names (elim (strategy_named c name) [ none ↦ chain | some s ↦ add chain s ])

abbrev pub or_default : Chain → Chain
or_default [] = label_match true ∷ []
or_default (s ∷ ss) = s ∷ ss

-- `Config.BuildStrategyChain`
unfoldable pub build_strategy_chain : Config → Chain
unfolding add_named
build_strategy_chain c = or_default (add_named c c.chain [])
