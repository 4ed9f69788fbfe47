-- ===== src/Api/Accounts.antt =====
-- internal/apiserver/operation/auth: the accounts, and the account that an action which succeeded
-- leaves (result.go, account.go, helpers.go).
use Prim.Native.Char.{code}
use agents_admin.Prelude.{
  ℕ, ◌+◌, ◌==◌, leb, not, any, Bool, true, false, ◌&&◌, ◌||◌, String, str_eq, concat, Option, none,
  some, List, [], ◌∷◌, if◌then◌else◌, filter,
}
use agents_admin.Json.{RawMessage, doc, Json, null, str, obj, Fields, end, field}
use agents_admin.Model.Account.{AccountStatus, Account}
use agents_admin.Model.Operation.{oauth, device_code, Operation}
use agents_admin.Storage.World.{M, pure, clock, ◌>>=◌, ◌>>◌, call, query, exec}
use agents_admin.Storage.Accounts.{
  find_account, create_account, list_accounts, update_account_status, update_account_volume,
  delete_account,
}
use agents_admin.Api.Reply.{Reply, error, ok}

-- `sanitizeName`
unfoldable pub sanitize_name : String → String
sanitize_name String.[] = ""
sanitize_name (String.◌∷◌ c s) =
    let rest = sanitize_name s in
    if code c == 64 || code c == 46 || code c == 32 || code c == 45
    then concat "_" rest
    else String.◌∷◌ c rest

-- How `encoding/json` folds a character of a key: case, the long s and the sign of Kelvin.
abbrev pub fold_code : ℕ → ℕ
fold_code c =
    if leb 65 c && leb c 90 then c + 32 else if c == 383 then 115 else if c == 8490 then 107 else c

-- Keys that are equal but for folding.
unfoldable pub same_key : String → String → Bool
same_key String.[] String.[] = true
same_key String.[] (String.◌∷◌ d t) = false
same_key (String.◌∷◌ c s) String.[] = false
same_key (String.◌∷◌ c s) (String.◌∷◌ d t) =
    let rest = same_key s t in fold_code (code c) == fold_code (code d) && rest

-- What a string of a struct is after the fields are decoded in order: a text sets it, null leaves it,
-- and so does a value of another type, which is an error once all fields are decoded.
unfoldable pub text_field : String → String → Fields → String
unfolding same_key
text_field key so_far end = so_far
text_field key so_far (field k (str s) rest) =
    let set = text_field key s rest in
    let left = text_field key so_far rest in if same_key k key then set else left
text_field key so_far (field k _ rest) = text_field key so_far rest

-- Whether a value decodes into a string.
abbrev pub is_text : Json → Bool
is_text null = true
is_text (str s) = true
is_text _ = false

-- No field of these keys has a value of another type.
unfoldable pub well_typed : List String → Fields → Bool
unfolding same_key
well_typed keys end = true
well_typed keys (field k v rest) =
    let later = well_typed keys rest in (not (any (same_key k) keys) || is_text v) && later

-- `OAuthConfig` and `APIKeyConfig`: the former has no key.
pub record LoginConfig : Type 0 where
  pub name : String
  pub agent_type : String
  pub api_key : String

abbrev pub login_config : Fields → LoginConfig
login_config f = record {
  name = text_field "name" "" f;
  agent_type = text_field "agent_type" "" f;
  api_key = text_field "api_key" "" f;
}

-- `json.Unmarshal` into a struct of strings with these keys.
unfoldable pub unmarshal_login : List String → RawMessage → Option LoginConfig
unfolding text_field well_typed
unmarshal_login keys (doc (obj f)) = if well_typed keys f then some (login_config f) else none
unmarshal_login keys (doc null) = some (login_config end)
unmarshal_login keys _ = none

abbrev pub oauth_keys : List String
oauth_keys = "name" ∷ "agent_type" ∷ "proxy_id" ∷ []

abbrev pub api_key_keys : List String
api_key_keys = "name" ∷ "agent_type" ∷ "api_key" ∷ "proxy_id" ∷ []

abbrev pub account_id : String → String → String
account_id agent_type name = concat agent_type (concat "_" (sanitize_name name))

abbrev pub volume_name_of : String → String → String
volume_name_of agent_type name = concat (account_id agent_type name) "_vol"

abbrev pub new_account : String → String → Option String → AccountStatus → ℕ → Account
new_account agent_type name volume status now = record {
  id = account_id agent_type name;
  name = name;
  agent_type_id = agent_type;
  volume_name = volume;
  volume_archive_key = none;
  status = status;
  created_at = now;
  updated_at = now;
  last_used_at = none;
}

-- The volume that a result names; the error of one that does not decode is dropped.
unfoldable pub result_volume : RawMessage → String
unfolding text_field
result_volume (doc (obj f)) = text_field "volume_name" "" f
result_volume _ = ""

abbrev pub optional_text : String → Option String
optional_text s = if str_eq s "" then none else some s

-- The writes for an account that is there, and for one that is not; their errors are dropped.
abbrev pub leave_account : Account → String → Option (Option Account) → M (Unit {0})
leave_account account volume none = pure tt
leave_account account volume (some none) = call (create_account account) >> pure tt
leave_account account volume (some (some existing)) =
    exec (update_account_status account.id AccountStatus.authenticated)
    >> (if str_eq volume ""
        then pure tt
        else exec (update_account_volume account.id volume) >> pure tt)

abbrev pub authenticated_account : LoginConfig → RawMessage → ℕ → Account
authenticated_account f result now =
    new_account f.agent_type f.name (optional_text (result_volume result))
      AccountStatus.authenticated now

-- `HandleAuthSuccess`, once the configuration is decoded
unfoldable pub authenticate : LoginConfig → RawMessage → M (Unit {0})
unfolding sanitize_name result_volume
authenticate f result = clock >>= λ now.
    query (λ _ db. find_account (account_id f.agent_type f.name) db)
    >>= leave_account (authenticated_account f result now) (result_volume result)

-- `HandleAuthSuccess`
unfoldable pub handle_auth_success : Operation → RawMessage → M (Unit {0})
unfolding authenticate
handle_auth_success op result = elim (unmarshal_login oauth_keys op.config) [
  | none ↦ pure tt
  | some f ↦ authenticate f result
]

-- `handleActionSuccess`
unfoldable pub handle_action_success : Operation → RawMessage → M (Unit {0})
unfolding handle_auth_success
handle_action_success op result = elim op.type [
  | oauth ↦ handle_auth_success op result
  | device_code ↦ handle_auth_success op result
  | _ ↦ pure tt
]

-- The body of `CreateAccount`.
pub record AccountRequest : Type 0 where
  pub name : String
  pub agent_type : String

-- `Handler.CreateAccount`
unfoldable pub create : Option AccountRequest → M (Reply Account)
unfolding sanitize_name
create none = pure (error 400 "invalid request body")
create (some req) =
    if str_eq req.name "" || str_eq req.agent_type ""
    then pure (error 400 "name and agent_type are required")
    else (do
      now ← clock
      let account =
          new_account req.agent_type req.name (some (volume_name_of req.agent_type req.name))
            AccountStatus.pending now
      stored ← call (create_account account)
      pure (elim stored [ none ↦ error 500 "failed to create account" | some _ ↦ ok 201 account ]))

-- `Handler.ListAccounts`
unfoldable pub list : String → M (Reply (List Account))
list agent_type = do
  found ← query (λ now db. list_accounts db)
  pure (elim found [
    | none ↦ error 500 "failed to list accounts"
    | some accounts ↦ ok 200 (
        if str_eq agent_type ""
        then accounts
        else filter (λ a. str_eq a.agent_type_id agent_type) accounts)
  ])

-- `Handler.GetAccount`
unfoldable pub get : String → M (Reply Account)
get id = do
  found ← query (λ now db. find_account id db)
  pure (elim found [
    | none ↦ error 500 "failed to get account"
    | some a ↦ elim a [ none ↦ error 404 "account not found" | some account ↦ ok 200 account ]
  ])

abbrev pub delete_found : String → Option (Option Account) → M (Reply (Unit {0}))
delete_found id none = pure (error 500 "failed to get account")
delete_found id (some none) = pure (error 404 "account not found")
delete_found id (some (some account)) = exec (delete_account id) >>= λ gone.
    pure (elim gone [ none ↦ error 500 "failed to delete account" | some _ ↦ ok 204 tt ])

-- `Handler.DeleteAccount`
unfoldable pub delete : String → M (Reply (Unit {0}))
delete id = query (λ now db. find_account id db) >>= delete_found id
