-- ===== src/Tasks/Assignment.antt =====
-- Whom a task is given to, and what a repeated creation does:
-- src/modules/tasks/application/commands, create-task.handler.ts and update-task.handler.ts.
use collabai_backend.Prelude.{
  truthy, ℕ, ◌≡◌, String, true, Option, none, some, is_some, List, ok, arith, same_text, inl, inr,
  ◌⊎◌, err, Result-cases, Option-cases,
}
use collabai_backend.Projects.Role.{ProjectRole, can_write_content, can_change_assignee}
use collabai_backend.Projects.Entities.{TextOps}
use collabai_backend.Tasks.Entities.{Task, TaskPatch}
use collabai_backend.Tasks.Access.{
  require_can_work_on_task, require_writer, require_can_assign, is_member, TaskError,
}
use collabai_backend.Tasks.Ports.{TaskRepository, TaskView, BoardRepository, World}
use collabai_backend.Tasks.Edit.{update_task}
use collabai_backend.Tasks.Create.{CreateTaskCommand, create_task, check_assignee, replayed}

module _ (repo : TaskRepository) (text : TextOps)
    (role_of : String → String → Option ProjectRole) where
  -- The user may make this change of assignee, and who is named is a member of the project.
  abbrev pub Assigned : String → String → Option String → Option String → Type 0
  Assigned project acting current next =
      ((role : ProjectRole) × (role_of project acting ≡ some role)
        × (can_change_assignee role acting current next ≡ true))
      × ((user : String) → truthy next ≡ some user → is_some (role_of project user) ≡ true)

  -- An update that names an assignee, or null, and succeeds was allowed to change the assignee, and
  -- a user named is a member of the task's project.
  pub update_task-Assigned :
      (now : ℕ) (task_id acting : String) (patch : TaskPatch) (labels : Option (List String))
      (task : Task repo.Num) (next : Option String) (view : TaskView repo.Num) (w : World repo)
      → repo.find_by_id task_id w.store ≡ some task
      → patch.assignee_id ≡ some next
      → (update_task repo text role_of now task_id acting patch labels w).0 ≡ ok view
      → Assigned task.project_id acting task.assignee_id next
  unfolding update_task require_can_work_on_task require_can_assign is_member
  update_task-Assigned now task_id acting patch labels task next view w found named done =
      ground arith

module _ (repo : TaskRepository) (boards : BoardRepository) (text : TextOps)
    (role_of : String → String → Option ProjectRole) where
  -- A creation whose id a task bears already changes nothing and emits nothing, and it returns
  -- nothing but the view of that very task, and only where it lies in the project of the command.
  pub create_task-replay :
      (now : ℕ) (fresh : String) (ids : ℕ → String) (c : CreateTaskCommand) (id : String)
      (old : TaskView repo.Num) (w : World repo)
      → truthy c.id ≡ some id
      → repo.find_view_by_id id w.store ≡ some old
      → let (r, w') = create_task repo boards text role_of now fresh ids c w in
        (w' ≡ w)
        × (((r ≡ ok old) × (old.task.project_id ≡ c.project_id)) ⊎ ((e : TaskError) × (r ≡ err e)))
  unfolding create_task replayed
  create_task-replay now fresh ids c id old w given found = (
    ground arith,
    elim (Result-cases (create_task repo boards text role_of now fresh ids c w).0) [
      | inl (view, made) ↦ inl (ground (arith, same_text old.task.project_id c.project_id))
      | inr failed ↦ inr failed
    ],
  )

  -- A creation that succeeds was a writer's; it names no assignee, or one who is a member of the
  -- project and whom the user was allowed to name.
  pub create_task-Assigned :
      (now : ℕ) (fresh : String) (ids : ℕ → String) (c : CreateTaskCommand)
      (view : TaskView repo.Num) (w : World repo)
      → (create_task repo boards text role_of now fresh ids c w).0 ≡ ok view
      → (role : ProjectRole) × (role_of c.project_id c.acting ≡ some role)
        × (can_write_content role ≡ true)
        × ((truthy c.assignee_id ≡ none)
            ⊎ ((user : String) × (truthy c.assignee_id ≡ some user)
                × (can_change_assignee role c.acting none (some user) ≡ true)
                × (is_some (role_of c.project_id user) ≡ true)))
  unfolding create_task require_writer check_assignee require_can_assign is_member
  create_task-Assigned now fresh ids c view w done =
      elim (Option-cases (role_of c.project_id c.acting)) [
        | inl stranger ↦ absurd (ground arith)
        | inr (role, is) ↦ (
          role,
          is,
          ground arith,
          elim (Option-cases (truthy c.assignee_id)) [
            | inl nobody ↦ inl nobody
            | inr (user, named) ↦ inr (user, named, ground arith, ground arith)
          ],
        )
      ]
