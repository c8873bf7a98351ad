-- ===== src/Tasks/Access.antt =====
-- src/modules/tasks/application/services/task-access.service.ts. The role of a user in a project, as
-- `IProjectRepository.findMembership` gives it, is the argument `role_of`; no task handler changes it.
use collabai_backend.Prelude.{
  String, Bool, not, Option, none, some, is_some, if◌then◌else◌, Result, ok, err,
}
use collabai_backend.Projects.Role.{
  ProjectRole, can_write_content, can_change_assignee, can_work_on_task,
}

-- src/modules/tasks/application/errors/task.errors.ts; `database` is what the client throws.
pub data TaskError : Type 0 where
  task_not_found subtask_not_found not_project_member task_write_forbidden : TaskError
  assignee_not_member task_assign_forbidden not_your_task database : TaskError
  invalid_task_field : String → TaskError

module _ (role_of : String → String → Option ProjectRole) where
  unfoldable pub require_member : String → String → Result TaskError (Unit {0})
  require_member project user = elim (role_of project user) [
    | none ↦ err not_project_member
    | some role ↦ ok tt
  ]

  unfoldable pub require_writer : String → String → Result TaskError (Unit {0})
  require_writer project user = elim (role_of project user) [
    | none ↦ err not_project_member
    | some role ↦ if not (can_write_content role) then err task_write_forbidden else ok tt
  ]

  unfoldable pub require_can_assign :
      String → String → Option String → Option String → Result TaskError (Unit {0})
  require_can_assign project user current next = elim (role_of project user) [
    | none ↦ err not_project_member
    | some role ↦
        if not (can_change_assignee role user current next)
        then err task_assign_forbidden
        else ok tt
  ]

  unfoldable pub require_can_work_on_task :
      String → String → Option String → Result TaskError (Unit {0})
  require_can_work_on_task project user assignee = elim (role_of project user) [
    | none ↦ err not_project_member
    | some role ↦
        if not (can_write_content role)
        then err task_write_forbidden
        else if not (can_work_on_task role user assignee)
        then err not_your_task
        else ok tt
  ]

  unfoldable pub is_member : String → String → Bool
  is_member project user = is_some (role_of project user)
