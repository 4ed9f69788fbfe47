-- ===== src/System/Planting.antt =====
-- The handlers of tasks: two write no run, and a task is deleted with its runs.
use agents_admin.Prelude.{
  ℕ, String, str_eq, Option, none, some, refl, Bool-cases, inl, inr, is_some,
}
use agents_admin.Model.Task.{TaskContext, Task}
use agents_admin.Storage.World.{Db}
use agents_admin.Storage.Leads.{Leads-if, Leads-query, Leads-exec, Leads-call, Leads-bind}
use agents_admin.Storage.Tasks.{find_task, create_task, update_task_context}
use agents_admin.Api.Reply.{error, ok}
use agents_admin.Api.TaskRequest.{CreateRequest, text_or_empty}
use agents_admin.Api.Tasks.{
  Bridge, new_task, inherit, store_task, create_under, has_parent, create_checked, create,
  update_context, delete,
}
use agents_admin.System.Lifecycle.{Permits, RunStep, elsewhere, remove, next}
use agents_admin.System.Handlers.{Stays, done-Stays}
use agents_admin.System.Others.{write-Stays}

module _ (allow : Permits) (a : Db) where
  insert-elsewhere : (t : Task) (now : ℕ) (db : Db) → RunStep allow db (create_task t now db).1
  unfolding create_task
  insert-elsewhere t now db = elim (Bool-cases (is_some (find_task t.id db))) [
    | inl e ↦ rw e (elsewhere refl refl)
    | inr e ↦ rw e (elsewhere refl refl)
  ]

  store-Stays : (t : Task) → Stays allow a (store_task t)
  store-Stays t =
      Leads-bind _ _ (Leads-call _ (λ now db r. next r (insert-elsewhere t now db))) (λ stored.
        done-Stays allow a
          (elim stored [ none ↦ error 500 "failed to create task" | some _ ↦ ok 201 t ]))

  under-Stays : (t : Task) (found : Option (Option Task)) → Stays allow a (create_under t found)
  under-Stays t none = done-Stays allow a (error 500 "failed to get parent task")
  under-Stays t (some none) = done-Stays allow a (error 400 "parent task not found")
  under-Stays t (some (some parent)) = store-Stays (inherit parent t)

  checked-Stays :
      (bridge : Bridge) (new : String) (req : CreateRequest)
      → Stays allow a (create_checked bridge new req)
  checked-Stays bridge new req = record {
    at = λ w r. elim (Bool-cases (has_parent req.parent_id)) [
      | inl e ↦ rw e (
          (Leads-bind _ (create_under (new_task bridge new req w.now))
              (Leads-query (λ _ db. find_task (text_or_empty req.parent_id) db))
              (under-Stays (new_task bridge new req w.now))).at
            w r)
      | inr e ↦ rw e ((store-Stays (new_task bridge new req w.now)).at w r)
    ];
  }

  pub create_task-Stays :
      (bridge : Bridge) (new : String) (body : Option CreateRequest)
      → Stays allow a (create bridge new body)
  unfolding create
  create_task-Stays bridge new none = done-Stays allow a (error 400 "invalid request body")
  create_task-Stays bridge new (some req) =
      Leads-if (str_eq req.name "") _ _ (λ _. done-Stays allow a (error 400 "name is required"))
        (λ _.
          Leads-if (str_eq req.prompt "") _ _
            (λ _. done-Stays allow a (error 400 "prompt is required"))
            (λ _. checked-Stays bridge new req))

  pub write_context-Stays :
      (id : String) (body : Option TaskContext) → Stays allow a (update_context id body)
  unfolding update_context update_task_context
  write_context-Stays id none = done-Stays allow a (error 400 "invalid request body")
  write_context-Stays id (some c) =
      write-Stays allow a (update_task_context id c)
        (λ written. elim written [
          | none ↦ error 500 "failed to update task context"
          | some _ ↦ ok 200 tt
        ])
        (record { same_runs = λ now db. refl; same_events = λ now db. refl })

  pub delete_task-Stays : (id : String) → allow.deletes id → Stays allow a (delete id)
  unfolding delete
  delete_task-Stays id h =
      Leads-bind _ _ (Leads-exec _ (λ now db r. next r (remove id now h))) (λ deleted.
        done-Stays allow a
          (elim deleted [ none ↦ error 500 "failed to delete task" | some _ ↦ ok 204 tt ]))
