-- ===== src/Storage/World.antt =====
-- The tables, and the monad of code that calls the database. Each statement may fail: `fails n`
-- says whether the n-th one does, and nothing is assumed of it. A failed statement has no effect.
-- A handler reads one time, `now`.
use agents_admin.Prelude.{ℕ, ◌+◌, Bool, Option, none, some, List, [], ◌∷◌, if◌then◌else◌}
use agents_admin.Model.Run.{Run, Event}
use agents_admin.Model.Task.{Task}
use agents_admin.Model.Node.{Node, Instance}
use agents_admin.Model.Hitl.{
  ApprovalRequest, ApprovalDecision, HumanFeedback, Intervention, Confirmation,
}
use agents_admin.Model.Account.{Account}
use agents_admin.Model.Operation.{Operation, Action}

-- `stamps` says whether the schema has the triggers that set `updated_at` on every UPDATE: that of
-- deployments/init-db.sql has them, that of the SQLite driver has not.
pub record Db : Type 0 where
  pub tasks : List Task
  pub runs : List Run
  pub events : List Event
  pub nodes : List Node
  pub agents : List Instance
  pub approvals : List ApprovalRequest
  pub decisions : List ApprovalDecision
  pub feedbacks : List HumanFeedback
  pub interventions : List Intervention
  pub confirmations : List Confirmation
  pub operations : List Operation
  pub actions : List Action
  pub accounts : List Account
  pub stamps : Bool

-- The time of the last update after an UPDATE that does not set it.
abbrev pub stamp : Db → ℕ → ℕ → ℕ
stamp db now old = if db.stamps then now else old

pub record World : Type 0 where
  pub db : Db
  pub now : ℕ
  pub calls : ℕ
  pub fails : ℕ → Bool

abbrev pub M : Type 0 → Type 0
M A = World → A × World

abbrev pub pure : {A : Type 0} → A → M A
pure a w = (a, w)

-- `time.Now()`
abbrev pub clock : M ℕ
clock w = (w.now, w)

infixl 5 ◌>>=◌ ◌>>◌
abbrev pub ◌>>=◌ : {A B : Type 0} → M A → (A → M B) → M B
◌>>=◌ m f w = let (a, w') = m w in f a w'

abbrev pub ◌>>◌ : {A B : Type 0} → M A → M B → M B
m >> k = m >>= λ _. k

-- One statement, at the time of the handler; `none` is an error. The statement itself may refuse.
unfoldable pub call : {A : Type 0} → (ℕ → Db → Option A × Db) → M (Option A)
call f w =
    let (r, db') = f w.now w.db in
    if w.fails w.calls
    then (none, record w { calls = w.calls + 1 })
    else (r, record w { db = db'; calls = w.calls + 1 })

-- A SELECT.
unfoldable pub query : {A : Type 0} → (ℕ → Db → A) → M (Option A)
unfolding call
query f = call (λ now db. (some (f now db), db))

-- An INSERT, UPDATE or DELETE that the tables do not refuse.
unfoldable pub exec : (ℕ → Db → Db) → M (Option (Unit {0}))
unfolding call
exec f = call (λ now db. (some tt, f now db))

-- A loop over a slice.
unfoldable pub for_each : {A : Type 0} → (A → M (Unit {0})) → List A → M (Unit {0})
for_each f [] = pure tt
for_each f (x ∷ xs) = let rest = for_each f xs in f x >> rest
