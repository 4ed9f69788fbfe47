-- ===== src/Model/Run.antt =====
-- internal/shared/model/run.go and event.go: one execution of a task, and the events it reports.
use agents_admin.Prelude.{ℕ, ℤ, String, Bool, true, false, Option, str_eq, if◌then◌else◌}
use agents_admin.Json.{RawMessage}

-- A Go string type with eight constants; `other` is any other text, which a client may send.
pub data RunStatus : Type 0 where
  queued assigned running paused done failed cancelled timeout : RunStatus
  other : String → RunStatus

-- `model.RunStatus(s)`: a conversion of the text.
unfoldable pub of_string : String → RunStatus
of_string s =
    if str_eq s "queued"
    then queued
    else if str_eq s "assigned"
    then assigned
    else if str_eq s "running"
    then running
    else if str_eq s "paused"
    then paused
    else if str_eq s "done"
    then done
    else if str_eq s "failed"
    then failed
    else if str_eq s "cancelled"
    then cancelled
    else if str_eq s "timeout"
    then timeout
    else other s

pub record Run : Type 0 where
  pub id : String
  pub task_id : String
  pub status : RunStatus
  pub node_id : Option String
  pub started_at : Option ℕ
  pub finished_at : Option ℕ
  pub snapshot : RawMessage
  pub error : Option String
  pub created_at : ℕ
  pub updated_at : ℕ

abbrev pub status_is_terminal : RunStatus → Bool
status_is_terminal done = true
status_is_terminal failed = true
status_is_terminal cancelled = true
status_is_terminal timeout = true
status_is_terminal _ = false

-- `Run.IsTerminal`
abbrev pub is_terminal : Run → Bool
is_terminal r = status_is_terminal r.status

-- `Run.IsRunning`
abbrev pub is_running : RunStatus → Bool
is_running running = true
is_running _ = false

-- `Run.CanRetry`
abbrev pub can_retry : RunStatus → Bool
can_retry failed = true
can_retry timeout = true
can_retry _ = false

-- `status == "queued"`
abbrev pub is_queued : RunStatus → Bool
is_queued queued = true
is_queued _ = false

-- `model.Event`; the type of an event is a free text.
pub record Event : Type 0 where
  pub run_id : String
  pub seq : ℤ
  pub type : String
  pub timestamp : ℕ
  pub payload : RawMessage
  pub raw : Option String
