-- ===== src/Api/Successes.antt =====
-- The account that an action which succeeded leaves: no other table is written.
use agents_admin.Prelude.{
  Bool-cases, str_eq, String, Option, none, some, is_some, List, inl, inr, ◌∷◌,
}
use agents_admin.Json.{RawMessage}
use agents_admin.Model.Account.{AccountStatus, Account}
use agents_admin.Model.Operation.{OperationType, oauth, device_code, Operation, ActionStatus}
use agents_admin.Storage.World.{Db, pure, call, query}
use agents_admin.Storage.Leads.{
  Leads, Leads-pure, Leads-if, Leads-option, Leads-query, Leads-bind, Leads-call, Leads-exec,
}
use agents_admin.Storage.Accounts.{
  account_row, find_account, create_account, update_account_status, update_account_volume,
}
use agents_admin.Api.Accounts.{
  unmarshal_login, oauth_keys, LoginConfig, account_id, result_volume, authenticated_account,
  leave_account, authenticate, handle_auth_success, handle_action_success,
}
use agents_admin.Api.Actions.{conclude}

-- A property that does not depend on the table of accounts.
module _ (P : Db → Type 0)
    (kept : (db : Db) (accounts : List Account)
      → P db
      → P (record db { accounts = accounts })) where
  create_account-Leads : (account : Account) → Leads P P (call (create_account account))
  unfolding create_account
  create_account-Leads account = Leads-call (create_account account) (λ now db p.
      elim (Bool-cases (is_some (account_row account.id db))) [
        | inl e ↦ rw (e) p
        | inr e ↦ rw (e) (kept db (account ∷ db.accounts) p)
      ])

  leave_account-Leads :
      (account : Account) (volume : String) (found : Option (Option Account))
      → Leads P P (leave_account account volume found)
  unfolding update_account_status update_account_volume
  leave_account-Leads account volume none = Leads-pure tt (λ db p. p)
  leave_account-Leads account volume (some none) =
      Leads-bind _ _ (create_account-Leads account) (λ _. Leads-pure tt (λ db p. p))
  leave_account-Leads account volume (some (some existing)) =
      Leads-bind _ _
        (Leads-exec (update_account_status account.id AccountStatus.authenticated)
          (λ now db p. kept db _ p))
        (λ _.
          Leads-if (str_eq volume "") (pure tt) _ (λ _. Leads-pure tt (λ db p. p))
            (λ _.
              Leads-bind _ _
                (Leads-exec (update_account_volume account.id volume) (λ now db p. kept db _ p))
                (λ _. Leads-pure tt (λ db p. p))))

  authenticate-Leads : (f : LoginConfig) (result : RawMessage) → Leads P P (authenticate f result)
  unfolding authenticate
  authenticate-Leads f result = record {
    at = λ w p.
        (Leads-bind (query (λ _ db. find_account (account_id f.agent_type f.name) db))
            (leave_account (authenticated_account f result w.now) (result_volume result))
            (Leads-query _)
            (leave_account-Leads (authenticated_account f result w.now) (result_volume result))).at
          w p;
  }

  handle_auth_success-Leads :
      (op : Operation) (result : RawMessage) → Leads P P (handle_auth_success op result)
  unfolding handle_auth_success
  handle_auth_success-Leads op result =
      Leads-option (unmarshal_login oauth_keys op.config) (pure tt) (λ f. authenticate f result)
        (Leads-pure tt (λ db p. p)) (λ f _. authenticate-Leads f result)

  handle_action_success_of-Leads :
      (op : Operation) (t : OperationType) (result : RawMessage)
      → Leads P P (handle_action_success (record op { type = t }) result)
  unfolding handle_action_success
  handle_action_success_of-Leads op oauth result =
      handle_auth_success-Leads (record op { type = oauth }) result
  handle_action_success_of-Leads op device_code result =
      handle_auth_success-Leads (record op { type = device_code }) result
  handle_action_success_of-Leads op _ result = Leads-pure tt (λ db p. p)

  pub conclude-Leads :
      (op : Operation) (s : ActionStatus) (result : RawMessage) → Leads P P (conclude op s result)
  unfolding conclude
  conclude-Leads op ActionStatus.success result = handle_action_success_of-Leads op op.type result
  conclude-Leads op _ result = Leads-pure tt (λ db p. p)
