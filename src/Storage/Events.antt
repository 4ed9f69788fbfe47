-- ===== src/Storage/Events.antt =====
-- internal/shared/storage/repository/event.go: the statements on the table of events.
use agents_admin.Prelude.{ℕ, String, str_eq, List, ◌++◌, count}
use agents_admin.Model.Run.{Event}
use agents_admin.Storage.World.{Db}

-- The inserts of `CreateEvents`, which one transaction makes together.
unfoldable pub create_events : List Event → ℕ → Db → Db
create_events new now db = record db { events = db.events ++ new }

-- `CountEventsByRun`
unfoldable pub count_events_by_run : String → Db → ℕ
count_events_by_run run_id db = count (λ e. str_eq e.run_id run_id) db.events
