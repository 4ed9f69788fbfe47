-- ===== src/Tests/Accounts.antt =====
-- The theorems on accounts and operations, at one node and one agent.
use agents_admin.Prelude.{none, some, [], ◌∷◌, ◌≡◌, refl, is_some, if◌then◌else◌}
use agents_admin.Json.{Fields, end, field, str, obj, doc, RawMessage, null}
use agents_admin.Model.Account.{AccountStatus}
use agents_admin.Model.Operation.{OperationStatus, Operation, oauth, api_key}
use agents_admin.Storage.World.{World}
use agents_admin.Storage.Actions.{find_operation, find_action}
use agents_admin.Storage.Accounts.{account_row}
use agents_admin.Api.Accounts.{
  sanitize_name, unmarshal_login, LoginConfig, volume_name_of, account_id, result_volume,
  authenticated_account, handle_auth_success,
}
use agents_admin.Api.Operations.{
  Ids, OperationRequest, new_operation, api_key_account, store_api_key, create,
}
use agents_admin.Api.Accounting.{
  left_behind, is_error, stored_operation, stored_action, handle_auth_success-authenticates,
  store_api_key-writes,
}
use agents_admin.Api.Refusals.{create-refuses}
use agents_admin.Tests.{db_of, world_of}

-- A key may differ in case, and null leaves what was read.
abbrev login_fields : Fields
login_fields =
    field "Name" (str "a@b.c") (field "agent_type" (str "qwen-code") (field "name" null end))

abbrev login : LoginConfig
login = record { name = "a@b.c"; agent_type = "qwen-code"; api_key = "" }

abbrev ids : Ids
ids = record { op_id = "op-1"; act_id = "act-1" }

abbrev the_operation : Operation
the_operation =
    new_operation ids oauth (doc (obj login_fields)) "n1" OperationStatus.in_progress none 90

abbrev the_result : RawMessage
the_result = doc (obj (field "volume_name" (str "vol") end))

abbrev empty_world : World
empty_world = world_of (db_of [])

-- The account that is there already.
abbrev known_world : World
known_world = world_of (record (db_of []) {
  accounts = record (api_key_account login 7) { status = AccountStatus.expired } ∷ [];
})

id_of_login : account_id login.agent_type login.name ≡ "qwen-code_a_b_c"
unfolding sanitize_name
id_of_login = refl

handle_auth_success-authenticates_example :
    account_row
      (account_id login.agent_type login.name)
      (handle_auth_success the_operation the_result known_world).1.db
    ≡ some (
        left_behind
          (authenticated_account login the_result 100)
          (result_volume the_result)
          known_world.db
          (account_row (account_id login.agent_type login.name) known_world.db))
unfolding unmarshal_login
handle_auth_success-authenticates_example =
    handle_auth_success-authenticates the_operation the_result login known_world (λ n. refl) refl

store_api_key-writes_example :
    ((store_api_key ids (doc (obj login_fields)) "n1" login known_world).1.db.operations
      ≡ stored_operation ids (doc (obj login_fields)) "n1" 100 ∷ [])
    × ((store_api_key ids (doc (obj login_fields)) "n1" login known_world).1.db.actions
        ≡ stored_action ids (volume_name_of login.agent_type login.name) 100 ∷ [])
    × ((store_api_key ids (doc (obj login_fields)) "n1" login known_world).1.db.accounts ≡ (
        if is_some (account_row (api_key_account login 100).id known_world.db)
        then known_world.db.accounts
        else api_key_account login 100 ∷ known_world.db.accounts))
    × (is_error (store_api_key ids (doc (obj login_fields)) "n1" login known_world).0
        ≡ is_some (account_row (api_key_account login 100).id known_world.db))
unfolding find_operation find_action
store_api_key-writes_example =
    store_api_key-writes ids (doc (obj login_fields)) "n1" login known_world (λ n. refl) refl refl

abbrev bad_request : OperationRequest
bad_request = record { type = api_key; config = doc (obj login_fields); node_id = "n1" }

create-refuses_example : (create ids (some bad_request) empty_world).1.db ≡ empty_world.db
unfolding create
create-refuses_example = create-refuses ids (some bad_request) empty_world refl
