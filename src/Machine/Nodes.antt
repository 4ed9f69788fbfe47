-- ===== src/Machine/Nodes.antt =====
-- The control plane with the processes on its nodes: every PATCH comes from an execution.
use agents_admin.Prelude.{ℕ, Bool, String, List, [], ◌∷◌, ◌≡◌, Has}
use agents_admin.Storage.World.{Db}
use agents_admin.Nodes.Manager.{requeue_offline}
use agents_admin.System.{Request, Arrival, patch_run, run}
use agents_admin.System.Serving.{Respects, AllRespect}
use agents_admin.System.Keyed.{Keyed}
use agents_admin.System.Begun.{Begun, Ending}
use agents_admin.System.Idle.{requeue_offline-idle}
use agents_admin.Machine.Execution.{Surroundings, Fetched, delivered}
use agents_admin.Machine.Statuses.{delivered-Respects}

-- A PATCH is one of the requests that some execution sends; other requests come from anywhere.
abbrev pub Origin : Request → Type 0
Origin (patch_run id body) =
    (s : Surroundings) × (f : Fetched) × Has (patch_run id body) (delivered s f)
Origin _ = Unit

abbrev pub AllOrigin : List Arrival → Type 0
AllOrigin [] = Unit
AllOrigin (x ∷ xs) = Origin x.request × AllOrigin xs

Origin-Respects : (r : Request) → Origin r → Respects Ending r
Origin-Respects (patch_run id body) (s, f, m) = delivered-Respects s f (patch_run id body) m
Origin-Respects _ h = tt

AllOrigin-AllRespect : (xs : List Arrival) → AllOrigin xs → AllRespect Ending xs
AllOrigin-AllRespect [] h = tt
AllOrigin-AllRespect (x ∷ xs) h = (Origin-Respects x.request h.0, AllOrigin-AllRespect xs h.1)

-- If ids are keys, every started run has an event, and each PATCH is sent by the execution of some
-- run on some node, then after the arrivals the requeueing of runs on offline nodes changes nothing,
-- whichever nodes are online, for every threshold and time, and whichever statements fail.
pub nodes-idle :
    (db : Db) (xs : List Arrival) (online : List String) (threshold now : ℕ) (fails : ℕ → Bool)
    → Keyed db
    → Begun db
    → AllOrigin xs
    → (requeue_offline online threshold
        (record { db = run db xs; now = now; calls = 0; fails = fails })).1.db
      ≡ run db xs
nodes-idle db xs online threshold now fails k h origin =
    requeue_offline-idle db xs online threshold now fails k h (AllOrigin-AllRespect xs origin)
