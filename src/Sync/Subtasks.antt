-- ===== src/Sync/Subtasks.antt =====
-- The subtask handlers of src/modules/tasks/application/commands over the tables of
-- src/modules/tasks/infrastructure/persistence/task.repository.ts, and what
-- src/modules/sync/application/queries/get-delta-sync.handler.ts tells of their effect.
use collabai_backend.Prelude.{
  ℕ, ◌≡◌, String, Bool, true, false, Option, some, none, ◌≤◌, find?, arith,
}
use collabai_backend.Prisma.{Table}
use collabai_backend.Projects.Role.{ProjectRole}
use collabai_backend.Projects.Entities.{TextOps}
use collabai_backend.Tasks.Entities.{Task}
use collabai_backend.Tasks.Access.{require_can_work_on_task}
use collabai_backend.Tasks.Edit.{add_subtask, update_subtask, delete_subtask}
use collabai_backend.Tasks.Guarded.{Edit, adds_subtask, updates_subtask, deletes_subtask, run}
use collabai_backend.Tasks.Ports.{World}
use collabai_backend.Tasks.Store.{
  TaskClient, task_key, add_subtask_row, update_subtask_row, delete_subtask_row, prisma_tasks,
}
use collabai_backend.Boards.Entities.{Board, same_board}
use collabai_backend.Sync.Delta.{Directory, delta}
use collabai_backend.Sync.Replica.{task_in, delta_told}

-- The requests that are about a subtask.
abbrev pub about_subtask : {Num : Type 0} → Edit Num → Bool
about_subtask (adds_subtask _ _) = true
about_subtask (updates_subtask _ _ _ _) = true
about_subtask (deletes_subtask _) = true
about_subtask _ = false

module _ (c : TaskClient) (text : TextOps) (clock : ℕ) (ids : ℕ → String)
    (role_of : String → String → Option ProjectRole) where
  run-tasks :
      (e : Edit c.Num) (task_id acting : String) (w : World (prisma_tasks c text clock ids))
      → about_subtask e ≡ true
      → (run (prisma_tasks c text clock ids) text role_of e task_id acting w).store.tasks
        ≡ w.store.tasks
  unfolding run add_subtask update_subtask delete_subtask require_can_work_on_task add_subtask_row
      update_subtask_row delete_subtask_row
  run-tasks (adds_subtask fresh title) task_id acting w h = ground arith
  run-tasks (updates_subtask now id title flag) task_id acting w h = ground arith
  run-tasks (deletes_subtask id) task_id acting w h = ground arith
  run-tasks _ task_id acting w h = absurd (ground arith)

  -- A task that was last changed at `since` or earlier is not in the answer for `since`, though a
  -- subtask of it has just been added, changed or deleted: a client that goes by the answers misses
  -- the subtask.
  pub edited_subtask_untold :
      (boards : Table Board same_board) (people : Directory) (rows : boards.Contents)
      (e : Edit c.Num) (task_id acting : String) (w : World (prisma_tasks c text clock ids))
      (task : Task c.Num) (project : String) (now since : ℕ)
      → about_subtask e ≡ true
      → find? (task_key task_id) (c.tasks.rows w.store.tasks) ≡ some task
      → task.updated_at ≤ since
      → task_in task_id
          (delta c boards people now project since (record {
            tables = (run (prisma_tasks c text clock ids) text role_of e task_id acting w).store;
            board_rows = rows;
          })).tasks_upserted
        ≡ none
  edited_subtask_untold boards people rows e task_id acting w task project now since h found old =
      let w' = run (prisma_tasks c text clock ids) text role_of e task_id acting w in
      ground (
        arith,
        delta_told c boards people task_id project now since
            (record { tables = w'.store; board_rows = rows }),
        run-tasks e task_id acting w h,
      )
