-- ===== src/Storage/Accounts.antt =====
-- internal/shared/storage/repository/account.go, and the inserts of operation.go.
use agents_admin.Prelude.{
  ℕ, leb, not, String, str_eq, Option, none, some, is_some, List, ◌∷◌, if◌then◌else◌, find?, filter,
  map, update,
}
use agents_admin.Model.Account.{AccountStatus, Account}
use agents_admin.Model.Operation.{Operation, Action}
use agents_admin.Storage.World.{Db, stamp}
use agents_admin.Storage.Order.{sort_by}
use agents_admin.Storage.Actions.{find_operation, find_action}

-- What a SELECT reads: not the key of the archive.
abbrev pub shown : Account → Account
shown a = record a { volume_archive_key = none }

unfoldable pub account_row : String → Db → Option Account
account_row id db = find? (λ a. str_eq a.id id) db.accounts

-- `GetAccount`
unfoldable pub find_account : String → Db → Option Account
unfolding account_row
find_account id db = elim (account_row id db) [ none ↦ none | some a ↦ some (shown a) ]

-- `CreateAccount`: the primary key refuses an id that is there.
unfoldable pub create_account : Account → ℕ → Db → Option (Unit {0}) × Db
unfolding account_row
create_account account now db =
    if is_some (account_row account.id db)
    then (none, db)
    else (some tt, record db { accounts = account ∷ db.accounts })

-- `ListAccounts`
unfoldable pub list_accounts : Db → List Account
list_accounts db = map shown (sort_by (λ a b. leb b.created_at a.created_at) db.accounts)

-- `UpdateAccountStatus`
unfoldable pub update_account_status : String → AccountStatus → ℕ → Db → Db
update_account_status id status now db = record db {
  accounts =
      update (λ a. str_eq a.id id)
        (λ a. record a { status = status; updated_at = stamp db now a.updated_at }) db.accounts;
}

-- `UpdateAccountVolume`
unfoldable pub update_account_volume : String → String → ℕ → Db → Db
update_account_volume id volume now db = record db {
  accounts =
      update (λ a. str_eq a.id id)
        (λ a. record a { volume_name = some volume; updated_at = stamp db now a.updated_at })
        db.accounts;
}

-- `UpdateAccountVolumeArchive`
unfoldable pub update_account_volume_archive : String → String → ℕ → Db → Db
update_account_volume_archive id key now db = record db {
  accounts =
      update (λ a. str_eq a.id id)
        (λ a. record a { volume_archive_key = some key; updated_at = now }) db.accounts;
}

-- `DeleteAccount`
unfoldable pub delete_account : String → ℕ → Db → Db
delete_account id now db = record db { accounts = filter (λ a. not (str_eq a.id id)) db.accounts }

-- `CreateOperation`: no column takes the time of its end.
unfoldable pub create_operation : Operation → ℕ → Db → Option (Unit {0}) × Db
unfolding find_operation
create_operation op now db =
    if is_some (find_operation op.id db)
    then (none, db)
    else (some tt, record db { operations = record op { finished_at = none } ∷ db.operations })

-- `CreateAction`: no column takes the times of its start and end.
unfoldable pub create_action : Action → ℕ → Db → Option (Unit {0}) × Db
unfolding find_action
create_action action now db = if is_some (find_action action.id db) then (none, db) else (
  some tt,
  record db { actions = record action { started_at = none; finished_at = none } ∷ db.actions },
)
