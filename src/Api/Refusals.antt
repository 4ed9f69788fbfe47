-- ===== src/Api/Refusals.antt =====
-- The requests for operations that are refused.
use agents_admin.Prelude.{
  ℕ, ◌==◌, Bool, true, false, String, Option, none, some, ◌≡◌, refl, inl, inr, Bool-cases,
  Option-cases,
}
use agents_admin.Json.{RawMessage}
use agents_admin.Model.Account.{Account, find_agent_type, supports_method}
use agents_admin.Model.Operation
use agents_admin.Model.Operation.{Operation, Action, OperationType, oauth, device_code, api_key}
use agents_admin.Storage.World.{Db, M, pure, World, ◌>>=◌, call, query}
use agents_admin.Storage.Nodes.{find_node}
use agents_admin.Storage.Accounts.{create_account, create_operation, create_action}
use agents_admin.Api.Reply.{Reply, error, ok}
use agents_admin.Api.Accounts.{
  unmarshal_login, oauth_keys, api_key_keys, LoginConfig, volume_name_of,
}
use agents_admin.Api.Operations.{
  Ids, Created, new_operation, auth_action, api_key_action, api_key_account, auth_lacks,
  api_key_lacks, store_auth, OperationRequest, checked, insert_both, create_auth, checked_node,
  method_of, store_account, store_api_key, create_api_key, create,
}

-- The answer blames the request.
abbrev pub is_refusal : {A : Type 0} → Reply A → Bool
is_refusal (error n s) = n == 400
is_refusal (ok n a) = false

-- A refusal leaves the tables as they are.
abbrev Clean : M (Reply Created) → Type 0
Clean m = (w : World) → is_refusal (m w).0 ≡ true → (m w).1.db ≡ w.db

-- No refusal.
abbrev Obliging : M (Reply Created) → Type 0
Obliging m = (w : World) → is_refusal (m w).0 ≡ false

Obliging-Clean : (m : M (Reply Created)) → Obliging m → Clean m
Obliging-Clean m h w r = cc (h w, r)

store_account-Obliging : (ids : Ids) (account : Account) → Obliging (store_account ids account)
unfolding store_account
store_account-Obliging ids account w = elim (Option-cases (call (create_account account) w).0) [
  | inl e ↦ rw (store_account, ◌>>=◌, e) refl
  | inr (u, e) ↦ rw (store_account, ◌>>=◌, e) refl
]

insert_both-Obliging :
    (op : Operation) (action : Action) (go : M (Reply Created))
    → Obliging go
    → Obliging (insert_both op action go)
unfolding insert_both
insert_both-Obliging op action go h w =
    let w1 = (call (create_operation op) w).1 in
    elim (Option-cases (call (create_operation op) w).0) [
      | inl e ↦ rw (insert_both, ◌>>=◌, e) refl
      | inr (u, e) ↦ elim (Option-cases (call (create_action action) w1).0) [
        | inl d ↦ rw (insert_both, ◌>>=◌, e, d) refl
        | inr (v, d) ↦ rw (insert_both, ◌>>=◌, e, d) (h (call (create_action action) w1).1)
      ]
    ]

query-same : {A : Type 0} → (g : ℕ → Db → A) (w : World) → (query g w).1.db ≡ w.db
unfolding query call
query-same g w = elim (Bool-cases (w.fails w.calls)) [
  | inl e ↦ rw (query, call, e) refl
  | inr e ↦ rw (query, call, e) refl
]

checked_node-Clean :
    (node_id : String) (go : M (Reply Created))
    → Obliging go
    → Clean (query (λ _ db. find_node node_id db) >>= checked_node go)
checked_node-Clean node_id go h w =
    let found = query (λ _ db. find_node node_id db) w in
    elim (Option-cases found.0) [
      | inl e ↦ rw (◌>>=◌, e) (λ r. cc)
      | inr (none, e) ↦ rw (◌>>=◌, e) (λ r. query-same (λ _ db. find_node node_id db) w)
      | inr (some n, e) ↦ rw (◌>>=◌, e) (λ r. cc (h found.1, r))
    ]

checked-Clean :
    (agent_type method node_id : String) (go : M (Reply Created))
    → Obliging go
    → Clean (checked agent_type method node_id go)
unfolding checked
checked-Clean agent_type method node_id go h w = elim (Option-cases (find_agent_type agent_type)) [
  | inl e ↦ rw (checked, e) (λ r. refl)
  | inr (at, e) ↦ elim (Bool-cases (supports_method at method)) [
    | inl s ↦ rw (checked, e, s) (checked_node-Clean node_id go h w)
    | inr s ↦ rw (checked, e, s) (λ r. refl)
  ]
]

store_auth-Obliging :
    (ids : Ids) (type : OperationType) (config : RawMessage) (node_id : String)
    → Obliging (store_auth ids type config node_id)
unfolding store_auth
store_auth-Obliging ids type config node_id w =
    insert_both-Obliging
      (new_operation ids type config node_id Operation.OperationStatus.pending none w.now)
      (auth_action ids w.now)
      (pure (ok 201 (record { ids = ids; type = type; status = "assigned"; account_id = "" })))
      (λ _. refl) w

store_api_key-Obliging :
    (ids : Ids) (config : RawMessage) (node_id : String) (f : LoginConfig)
    → Obliging (store_api_key ids config node_id f)
unfolding store_api_key
store_api_key-Obliging ids config node_id f w =
    insert_both-Obliging
      (new_operation ids api_key config node_id Operation.OperationStatus.completed (some w.now)
        w.now)
      (api_key_action ids (volume_name_of f.agent_type f.name) w.now)
      (store_account ids (api_key_account f w.now))
      (store_account-Obliging ids (api_key_account f w.now)) w

create_auth-Clean :
    (ids : Ids) (type : OperationType) (config : RawMessage) (node_id : String)
    → Clean (create_auth ids type config node_id)
unfolding create_auth
create_auth-Clean ids type config node_id w =
    elim (Option-cases (unmarshal_login oauth_keys config)) [
      | inl e ↦ rw (create_auth, e) (λ r. refl)
      | inr (f, e) ↦ elim (Bool-cases (auth_lacks f node_id)) [
        | inl l ↦ rw (create_auth, e, l) (λ r. refl)
        | inr l ↦
            rw (create_auth, e, l)
              (checked-Clean f.agent_type (method_of type) node_id
                (store_auth ids type config node_id) (store_auth-Obliging ids type config node_id)
                w)
      ]
    ]

create_api_key-Clean :
    (ids : Ids) (config : RawMessage) (node_id : String) → Clean (create_api_key ids config node_id)
unfolding create_api_key
create_api_key-Clean ids config node_id w =
    elim (Option-cases (unmarshal_login api_key_keys config)) [
      | inl e ↦ rw (create_api_key, e) (λ r. refl)
      | inr (f, e) ↦ elim (Bool-cases (api_key_lacks f node_id)) [
        | inl l ↦ rw (create_api_key, e, l) (λ r. refl)
        | inr l ↦
            rw (create_api_key, e, l)
              (checked-Clean f.agent_type "api_key" node_id (store_api_key ids config node_id f)
                (store_api_key-Obliging ids config node_id f) w)
      ]
    ]

create_of-Clean :
    (ids : Ids) (type : OperationType) (config : RawMessage) (node_id : String)
    → Clean (create ids (some (record { type = type; config = config; node_id = node_id })))
unfolding create
create_of-Clean ids oauth c n = create_auth-Clean ids oauth c n
create_of-Clean ids device_code c n = create_auth-Clean ids device_code c n
create_of-Clean ids api_key c n = create_api_key-Clean ids c n
create_of-Clean ids _ c n = λ w r. refl

-- A request for an operation that is refused as a bad request leaves the tables as they are,
-- whichever statements fail.
pub create-refuses :
    (ids : Ids) (body : Option OperationRequest) (w : World)
    → is_refusal (create ids body w).0 ≡ true
    → (create ids body w).1.db ≡ w.db
unfolding create
create-refuses ids none w r = refl
create-refuses ids (some req) w r = create_of-Clean ids req.type req.config req.node_id w r
