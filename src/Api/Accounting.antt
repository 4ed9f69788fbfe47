-- ===== src/Api/Accounting.antt =====
-- What the operations that log an agent in leave in the tables.
use agents_admin.Prelude.{
  ℕ, pos, ◌+◌, Bool, true, false, String, str_eq, eq_refl, Option, none, some, ◌∷◌, is_some,
  if◌then◌else◌, ◌≡◌, refl, inl, inr, Bool-cases, Option-cases, find?-update, find?-Has, map?,
  change,
}
use agents_admin.Json.{RawMessage, doc, obj, field, str, end}
use agents_admin.Model.Account.{AccountStatus, Account}
use agents_admin.Model.Operation.{Operation, Action, api_key, OperationStatus, ActionStatus}
use agents_admin.Storage.World.{M, Db, stamp, World, ◌>>=◌, call, query, exec}
use agents_admin.Storage.Actions.{find_operation, find_action}
use agents_admin.Storage.Accounts.{
  shown, account_row, find_account, create_account, update_account_status, update_account_volume,
  create_operation, create_action,
}
use agents_admin.Api.Reply.{Reply, error, ok}
use agents_admin.Api.Accounts.{
  unmarshal_login, oauth_keys, LoginConfig, account_id, result_volume, authenticated_account,
  authenticate, handle_auth_success, volume_name_of,
}
use agents_admin.Api.Operations.{
  Ids, Created, new_operation, api_key_action, api_key_account, insert_both, store_account,
  store_api_key,
}

abbrev pub is_error : {A : Type 0} → Reply A → Bool
is_error (error n s) = true
is_error (ok n a) = false

-- The row that a login leaves, from the row that was there.
abbrev pub left_behind : Account → String → Db → Option Account → Account
left_behind new volume db none = new
left_behind new volume db (some a) = record a {
  status = AccountStatus.authenticated;
  updated_at = stamp db new.updated_at a.updated_at;
  volume_name = if str_eq volume "" then a.volume_name else some volume;
}

account_row-update_account_status :
    (id : String) (s : AccountStatus) (now : ℕ) (db : Db)
    → account_row id (update_account_status id s now db)
      ≡ map?
          (change
            (λ a. str_eq a.id id)
            (λ a. record a { status = s; updated_at = stamp db now a.updated_at }))
          (account_row id db)
unfolding account_row update_account_status
account_row-update_account_status id s now db =
    find?-update (λ a. str_eq a.id id) (λ a. str_eq a.id id)
      (λ a. record a { status = s; updated_at = stamp db now a.updated_at }) db.accounts (λ x. refl)

account_row-update_account_volume :
    (id volume : String) (now : ℕ) (db : Db)
    → account_row id (update_account_volume id volume now db)
      ≡ map?
          (change
            (λ a. str_eq a.id id)
            (λ a. record a { volume_name = some volume; updated_at = stamp db now a.updated_at }))
          (account_row id db)
unfolding account_row update_account_volume
account_row-update_account_volume id volume now db =
    find?-update (λ a. str_eq a.id id) (λ a. str_eq a.id id)
      (λ a. record a { volume_name = some volume; updated_at = stamp db now a.updated_at })
      db.accounts (λ x. refl)

account_row_id :
    (id : String) (db : Db) (a : Account) → account_row id db ≡ some a → str_eq a.id id ≡ true
unfolding account_row
account_row_id id db a h = (find?-Has (λ x. str_eq x.id id) a db.accounts h).1

find_account-none : (id : String) (db : Db) → account_row id db ≡ none → find_account id db ≡ none
unfolding find_account
find_account-none id db h = rw (find_account, h) refl

find_account-some :
    (id : String) (db : Db) (a : Account)
    → account_row id db ≡ some a
    → find_account id db ≡ some (shown a)
unfolding find_account
find_account-some id db a h = rw (find_account, h) refl

create_account_new :
    (a : Account) (now : ℕ) (db : Db)
    → account_row a.id db ≡ none
    → create_account a now db ≡ (some tt, record db { accounts = a ∷ db.accounts })
unfolding create_account
create_account_new a now db h = rw (h) refl

account_row_new :
    (a : Account) (db : Db) → account_row a.id (record db { accounts = a ∷ db.accounts }) ≡ some a
unfolding account_row
account_row_new a db = rw (eq_refl a.id) refl

-- The name of an account and what is known of a login to it.
module _ (result : RawMessage) (f : LoginConfig) (w : World)
    (sound : (n : ℕ) → w.fails n ≡ false) where
  abbrev login_row : Db → Option Account
  login_row db = account_row (account_id f.agent_type f.name) db

  authenticate_new :
      login_row w.db ≡ none
      → login_row (authenticate f result w).1.db ≡ some (authenticated_account f result w.now)
  unfolding authenticate query exec call
  authenticate_new e =
      rw
        (
          authenticate,
          ◌>>=◌,
          sound w.calls,
          find_account-none (account_id f.agent_type f.name) w.db e,
          sound (w.calls + 1),
          create_account_new (authenticated_account f result w.now) w.now w.db e,
        )
        (account_row_new (authenticated_account f result w.now) w.db)

  authenticate_known :
      (a : Account)
      → login_row w.db ≡ some a
      → login_row (authenticate f result w).1.db
        ≡ some (
            left_behind (authenticated_account f result w.now) (result_volume result) w.db (some a))
  unfolding authenticate query exec call update_account_status
  authenticate_known a e =
      let id = account_id f.agent_type f.name in
      elim (Bool-cases (str_eq (result_volume result) "")) [
        | inl n ↦
            rw
              (
                authenticate,
                ◌>>=◌,
                sound w.calls,
                find_account-some id w.db a e,
                sound (w.calls + 1),
                n,
                account_row-update_account_status id AccountStatus.authenticated w.now w.db,
                e,
                account_row_id id w.db a e,
              )
              refl
        | inr n ↦
            rw
              (
                authenticate,
                ◌>>=◌,
                sound w.calls,
                find_account-some id w.db a e,
                sound (w.calls + 1),
                n,
                sound (w.calls + 1 + 1),
                account_row-update_account_volume id (result_volume result) w.now
                    (update_account_status id AccountStatus.authenticated w.now w.db),
                account_row-update_account_status id AccountStatus.authenticated w.now w.db,
                e,
                account_row_id id w.db a e,
              )
              (rw (account_row_id id w.db a e)
                (elim (Bool-cases w.db.stamps) [ inl z ↦ rw (z) refl | inr z ↦ rw (z) refl ]))
      ]

-- A login that succeeded, when no statement fails and the configuration decodes: the account of
-- that name and type of agent is authenticated with the volume that the result names; one that was
-- there keeps everything else but, where the schema has the trigger, the time of its last update, and its volume if the result names none.
pub handle_auth_success-authenticates :
    (op : Operation) (result : RawMessage) (f : LoginConfig) (w : World)
    → ((n : ℕ) → w.fails n ≡ false)
    → unmarshal_login oauth_keys op.config ≡ some f
    → account_row (account_id f.agent_type f.name) (handle_auth_success op result w).1.db
      ≡ some (
          left_behind
            (authenticated_account f result w.now)
            (result_volume result)
            w.db
            (account_row (account_id f.agent_type f.name) w.db))
unfolding handle_auth_success
handle_auth_success-authenticates op result f w sound h =
    elim (Option-cases (account_row (account_id f.agent_type f.name) w.db)) [
      | inl e ↦ rw (handle_auth_success, h, e) (authenticate_new result f w sound e)
      | inr (a, e) ↦ rw (handle_auth_success, h, e) (authenticate_known result f w sound a e)
    ]

-- The operation that an API key leaves: no column takes the time of its end.
abbrev pub stored_operation : Ids → RawMessage → String → ℕ → Operation
stored_operation ids config node_id now =
    new_operation ids api_key config node_id OperationStatus.completed none now

-- The action that it leaves: it succeeded with the volume, and no column takes its times.
abbrev pub stored_action : Ids → String → ℕ → Action
stored_action ids volume now = record {
  id = ids.act_id;
  operation_id = ids.op_id;
  status = ActionStatus.success;
  phase = "";
  message = "";
  progress = pos 100;
  result = doc (obj (field "volume_name" (str volume) end));
  error = "";
  created_at = now;
  started_at = none;
  finished_at = none;
}

-- The world after the two inserts.
abbrev both_stored : Operation → Action → World → World
both_stored op action w = record w {
  db = record w.db {
    operations = record op { finished_at = none } ∷ w.db.operations;
    actions = record action { started_at = none; finished_at = none } ∷ w.db.actions;
  };
  calls = w.calls + 1 + 1;
}

insert_both_stored :
    (op : Operation) (action : Action) (go : M (Reply Created)) (w : World)
    → ((n : ℕ) → w.fails n ≡ false)
    → find_operation op.id w.db ≡ none
    → find_action action.id w.db ≡ none
    → insert_both op action go w ≡ go (both_stored op action w)
unfolding insert_both call create_operation create_action find_action
insert_both_stored op action go w sound no_op no_act =
    rw (insert_both, ◌>>=◌, sound w.calls, no_op, no_act, sound (w.calls + 1)) refl

-- What an API key leaves for an account that may be there.
module _ (ids : Ids) (account : Account) (w : World) (sound : w.fails w.calls ≡ false) where
  store_account-writes :
      (found : Option Account)
      → account_row account.id w.db ≡ found
      → ((store_account ids account w).1.db
          ≡ (if is_some found then w.db else record w.db { accounts = account ∷ w.db.accounts }))
        × (is_error (store_account ids account w).0 ≡ is_some found)
  unfolding store_account call create_account
  store_account-writes none e = rw (store_account, ◌>>=◌, sound, e) (refl, refl)
  store_account-writes (some a) e = rw (store_account, ◌>>=◌, sound, e) (refl, refl)

-- An API key, when no statement fails and the drawn ids are new: the operation is stored as completed
-- and its action as a success that names the volume, both without the time of their end, and the
-- account only if none of its id is there; otherwise the answer is an error, and operation and action
-- stay.
pub store_api_key-writes :
    (ids : Ids) (config : RawMessage) (node_id : String) (f : LoginConfig) (w : World)
    → ((n : ℕ) → w.fails n ≡ false)
    → find_operation ids.op_id w.db ≡ none
    → find_action ids.act_id w.db ≡ none
    → ((store_api_key ids config node_id f w).1.db.operations
        ≡ stored_operation ids config node_id w.now ∷ w.db.operations)
      × ((store_api_key ids config node_id f w).1.db.actions
          ≡ stored_action ids (volume_name_of f.agent_type f.name) w.now ∷ w.db.actions)
      × ((store_api_key ids config node_id f w).1.db.accounts ≡ (
          if is_some (account_row (api_key_account f w.now).id w.db)
          then w.db.accounts
          else api_key_account f w.now ∷ w.db.accounts))
      × (is_error (store_api_key ids config node_id f w).0
          ≡ is_some (account_row (api_key_account f w.now).id w.db))
unfolding store_api_key account_row
store_api_key-writes ids config node_id f w sound no_op no_act =
    let op =
      new_operation ids api_key config node_id OperationStatus.completed (some w.now) w.now in
    let act = api_key_action ids (volume_name_of f.agent_type f.name) w.now in
    let new = api_key_account f w.now in
    let (stored, reply) =
      store_account-writes ids new (both_stored op act w) (sound (w.calls + 1 + 1))
        (account_row new.id w.db) refl in
    rw (insert_both_stored op act (store_account ids new) w sound no_op no_act, stored, reply)
      (elim (Bool-cases (is_some (account_row new.id w.db))) [
        | inl e ↦ rw (e) (refl, refl, refl, refl)
        | inr e ↦ rw (e) (refl, refl, refl, refl)
      ])
