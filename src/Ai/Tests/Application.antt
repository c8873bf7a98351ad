-- ===== src/Ai/Tests/Application.antt =====
-- A plan with one action, on a task that is deleted, to be given to a user who is no member.
use collabai_backend.Prelude.{
  ℕ, ◌≡◌, ◌⊎◌, refl, String, true, Option, none, some, [], ◌∷◌, truthy, ◌=s=◌, if◌then◌else◌,
}
use collabai_backend.Common.Uuid.{is_valid_uuid, uuid}
use collabai_backend.Prisma.Memory.{memory}
use collabai_backend.Projects.Role.{
  ProjectRole, admin, can_write_content, can_work_on_task, can_change_assignee,
}
use collabai_backend.Tasks.Entities.{Task, todo, in_progress, medium, parse_status}
use collabai_backend.Tasks.Memory.{client}
use collabai_backend.Ai.Plans.{
  ActionPlan, AiWorld, apply_task_actions, find_plan, picked_actions, apply_actions, apply_action,
  may_apply, changed_row, changes_something,
}
use collabai_backend.Ai.Confined.{task_at, Allowed, apply_task_actions-confined}

abbrev project : String
project = "10000000-0000-4000-8000-000000000000"

abbrev one : String
one = "10000000-0000-4000-8000-000000000001"

abbrev work : Task ℕ
work = record {
  id = one;
  project_id = project;
  board_id = none;
  title = "t";
  description = none;
  status = todo;
  priority = medium;
  position = 0;
  assignee_id = none;
  created_by_id = "ann";
  due_date = none;
  completed_at = none;
  created_at = 1;
  updated_at = 1;
  deleted_at = some 1;
}

abbrev plan : ActionPlan
plan = record {
  id = "plan";
  project_id = project;
  actions =
      record {
        id = "action-1";
        task_id = one;
        changes = record {
          status = some "in_progress";
          priority = none;
          assignee_id = some (some "eve");
          due_date = none;
        };
      }
      ∷ [];
  applied = true;
}

-- Ann alone is in the project.
abbrev role_of : String → String → Option ProjectRole
role_of p user = if user =s= "ann" then some admin else none

abbrev plans : String → Option ActionPlan
plans id = some plan

abbrev none_cached : String → Option ActionPlan
none_cached id = none

abbrev world : AiWorld client
unfolding memory
world = record {
  tables = record {
    tasks = (work ∷ [], refl);
    subtasks = ([], refl);
    labels = ([], refl);
    links = ([], refl);
    comments = ([], refl);
    notifications = ([], refl);
  };
  plans = plans;
  updated = [];
}

-- Neither the deletion of the task, nor that the plan has been applied before, nor that Eve is no member
-- stands in the way.
applied_regardless :
    task_at client role_of one
      (apply_task_actions client role_of none_cached 5 "plan" "ann" none world).1
    ≡ some (record work { status = in_progress; assignee_id = some "eve"; updated_at = 5 })
unfolding apply_task_actions find_plan picked_actions apply_actions apply_action may_apply
    changed_row changes_something can_write_content can_work_on_task can_change_assignee truthy
    world memory is_valid_uuid uuid parse_status ◌=s=◌
applied_regardless = refl

apply_task_actions-confined_example :
    (task_at client role_of one
        (apply_task_actions client role_of none_cached 5 "plan" "ann" none world).1
      ≡ task_at client role_of one world)
    ⊎ ((plan : ActionPlan) × (role : ProjectRole) × (find_plan client role_of none_cached "plan"
            world
          ≡ some plan)
        × (role_of plan.project_id "ann" ≡ some role)
        × (can_write_content role ≡ true)
        × Allowed client role_of "ann" plan.project_id (task_at client role_of one world) (
            task_at client role_of one
              (apply_task_actions client role_of none_cached 5 "plan" "ann" none world).1))
apply_task_actions-confined_example =
    apply_task_actions-confined client role_of none_cached 5 "plan" "ann" one none world
