-- ===== src/Tasks/Edit.antt =====
-- src/modules/tasks/application/commands: update-task, move-task, delete-task, add-subtask,
-- update-subtask and delete-subtask.
use collabai_backend.Prelude.{
  truthy, ℕ, String, Bool, not, Option, none, some, List, if◌then◌else◌, ◌=s=◌, ◌>>=◌, ◌>>◌, pure,
  throw_if, or_else,
}
use collabai_backend.Projects.Role.{ProjectRole, same_user}
use collabai_backend.Projects.Entities.{TextOps}
use collabai_backend.Tasks.Entities.{
  Task, TaskStatus, TaskPatch, Subtask, apply_task_update, move_entity, create_subtask_entity,
  rename_subtask, set_done,
}
use collabai_backend.Tasks.Access.{
  require_can_work_on_task, require_can_assign, is_member, task_not_found, subtask_not_found,
  assignee_not_member,
}
use collabai_backend.Tasks.Ports.{
  TaskView, TaskRepository, Handler, fetch, look, save, emit, demand, task_assigned, task_moved,
  task_updated, task_deleted,
}

module _ (repo : TaskRepository) (text : TextOps)
    (role_of : String → String → Option ProjectRole) where
  -- The task, and the right to work on it: how every handler below begins.
  abbrev pub reach : String → String → Handler repo (Task repo.Num)
  reach task_id acting = do
    task ← fetch repo (repo.find_by_id task_id) task_not_found
    demand repo (require_can_work_on_task role_of task.project_id acting task.assignee_id)
    pure task

  -- Where the patch names an assignee (or null), the change must be allowed.
  check_change : String → Task repo.Num → Option (Option String) → Handler repo (Unit {0})
  check_change acting task none = pure tt
  check_change acting task (some next) =
      demand repo (require_can_assign role_of task.project_id acting task.assignee_id next)

  -- And the new assignee must be a member.
  check_assignee : Task repo.Num → Option String → Handler repo (Unit {0})
  check_assignee task none = pure tt
  check_assignee task (some user) =
      throw_if (not (is_member role_of task.project_id user)) assignee_not_member

  write_labels : String → Task repo.Num → Option (List String) → Handler repo (Unit {0})
  write_labels acting task none = pure tt
  write_labels acting task (some labels) =
      save repo (repo.set_labels task.id task.project_id acting labels)

  -- Notified is a real user who was not the assignee before.
  announce_assignee :
      String → Option String → Task repo.Num → Option String → Handler repo (Unit {0})
  announce_assignee acting previous task none = pure tt
  announce_assignee acting previous task (some user) =
      if same_user (some user) previous
      then pure tt
      else emit repo (task_assigned task.id task.project_id user acting task.title)

  -- `UpdateTaskHandler.execute`
  unfoldable pub update_task :
      ℕ → String → String → TaskPatch → Option (List String) → Handler repo (TaskView repo.Num)
  unfolding check_change check_assignee write_labels announce_assignee
  update_task now task_id acting patch labels = do
    task ← reach task_id acting
    check_change acting task patch.assignee_id
    check_assignee task (truthy (or_else patch.assignee_id none))
    let changed = apply_task_update text now patch task
    save repo (repo.update changed)
    write_labels acting changed labels
    announce_assignee acting task.assignee_id changed (truthy changed.assignee_id)
    view ← fetch repo (repo.find_view_by_id task.id) task_not_found
    emit repo (task_updated task.id task.project_id acting)
    pure view

  -- `MoveTaskHandler.execute`: without a position the task goes to the end of its column.
  unfoldable pub move_task :
      ℕ → String → String → TaskStatus → Option repo.Num → Handler repo (TaskView repo.Num)
  move_task now task_id acting status position = do
    task ← reach task_id acting
    last ← look repo (repo.max_position task.project_id status)
    let moved = move_entity now status (or_else position (repo.next_position last)) task
    save repo (repo.update moved)
    emit repo (task_moved task.id task.project_id acting task.status moved.status moved.position)
    fetch repo (repo.find_view_by_id task.id) task_not_found

  -- `DeleteTaskHandler.execute`
  unfoldable pub delete_task : String → String → Handler repo (Unit {0})
  delete_task task_id acting = do
    task ← reach task_id acting
    save repo (repo.delete task.id)
    emit repo (task_deleted task.id task.project_id task.board_id acting task.title)

  -- `AddSubtaskHandler.execute`
  unfoldable pub add_subtask : String → String → String → String → Handler repo (TaskView repo.Num)
  add_subtask fresh task_id acting title = do
    task ← reach task_id acting
    order ← look repo (repo.next_subtask_order task.id)
    save repo (repo.add_subtask (create_subtask_entity text fresh task.id title order))
    fetch repo (repo.find_view_by_id task.id) task_not_found

  -- The subtask, if it is one of this task.
  abbrev subtask_of : Task repo.Num → String → Handler repo Subtask
  subtask_of task subtask_id = do
    subtask ← fetch repo (repo.find_subtask subtask_id) subtask_not_found
    throw_if (not (subtask.task_id =s= task.id)) subtask_not_found
    pure subtask

  -- `UpdateSubtaskHandler.execute`
  unfoldable pub update_subtask :
      ℕ → String → String → String → Option String → Option Bool → Handler repo (TaskView repo.Num)
  update_subtask now task_id subtask_id acting title flag = do
    task ← reach task_id acting
    subtask ← subtask_of task subtask_id
    save repo (repo.update_subtask (set_done now flag (rename_subtask text title subtask)))
    fetch repo (repo.find_view_by_id task.id) task_not_found

  -- `DeleteSubtaskHandler.execute`
  unfoldable pub delete_subtask : String → String → String → Handler repo (TaskView repo.Num)
  delete_subtask task_id subtask_id acting = do
    task ← reach task_id acting
    subtask ← subtask_of task subtask_id
    save repo (repo.delete_subtask subtask.id)
    fetch repo (repo.find_view_by_id task.id) task_not_found
