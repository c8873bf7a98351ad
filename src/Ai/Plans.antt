-- ===== src/Ai/Plans.antt =====
-- src/modules/ai/application/commands/apply-task-actions.handler.ts, with the store of plans of
-- src/modules/ai/infrastructure/storage/proposal-plan.store.ts, over the tables of tasks. What a plan
-- asks for is what a language model has answered; its dates are read as times. The copies of plans in
-- Redis are the argument `cached`, which is empty where Redis fails. A text that is
-- written as a status or a priority and is none is kept as what the tasks module reads it for.
use collabai_backend.Prelude.{
  ℕ, String, Bool, true, false, not, ◌&&◌, ◌||◌, Option, none, some, is_some, or_else, truthy, List,
  [], ◌∷◌, ◌++◌, keep_if, ◌=s=◌, if◌then◌else◌, ok, err, Action, ◌>>=◌, ◌>>◌, pure,
}
use collabai_backend.Common.Uuid.{is_valid_uuid}
use collabai_backend.Projects.Role.{
  ProjectRole, can_write_content, can_work_on_task, can_change_assignee,
}
use collabai_backend.Tasks.Entities.{
  Task, TaskStatus, TaskPriority, low, medium, high, urgent, as_status,
}
use collabai_backend.Tasks.Store.{TaskClient, TaskTables, task_key}

-- An assignee or a date is left alone, taken away or given.
pub record ActionChanges : Type 0 where
  pub status : Option String
  pub priority : Option String
  pub assignee_id : Option (Option String)
  pub due_date : Option (Option ℕ)

pub record TaskAction : Type 0 where
  pub id : String
  pub task_id : String
  pub changes : ActionChanges

pub record ActionPlan : Type 0 where
  pub id : String
  pub project_id : String
  pub actions : List TaskAction
  pub applied : Bool

-- src/modules/ai/application/errors/ai.errors.ts, where this handler throws them.
pub data AiError : Type 0 where
  proposal_not_found not_project_member insufficient_ai_permission database : AiError

-- `task.updated`
pub record TaskUpdated : Type 0 where
  pub task_id : String
  pub project_id : String
  pub actor_id : String

pub record AiWorld (c : TaskClient) : Type 0 where
  pub tables : TaskTables c
  pub plans : String → Option ActionPlan
  pub updated : List TaskUpdated

-- `asPriority` of src/modules/tasks/infrastructure/persistence/task.repository.ts
unfoldable pub as_priority : String → TaskPriority
as_priority s =
    if s =s= "low"
    then low
    else if s =s= "high"
    then high
    else if s =s= "urgent"
    then urgent
    else medium

unfoldable pub changes_something : ActionChanges → Bool
changes_something ch =
    is_some (truthy ch.status)
    || is_some (truthy ch.priority)
    || is_some ch.assignee_id
    || is_some ch.due_date

-- The two rules that an action is held to.
unfoldable pub may_apply :
    Option ProjectRole → String → Option String → Option (Option String) → Bool
may_apply none user current next = false
may_apply (some role) user current none = can_work_on_task role user current
may_apply (some role) user current (some next) =
    can_work_on_task role user current && can_change_assignee role user current next

abbrev among : List String → String → Bool
among [] id = false
among (x ∷ xs) id = x =s= id || among xs id

-- `actionIds`, where there are any.
abbrev wanted : Option (List String) → String → Bool
wanted none id = true
wanted (some []) id = true
wanted (some (x ∷ xs)) id = x =s= id || among xs id

unfoldable pub picked_actions : Option (List String) → ActionPlan → List TaskAction
picked_actions ids plan = keep_if (λ a. wanted ids a.id) plan.actions

module _ (c : TaskClient) (role_of : String → String → Option ProjectRole) where
  abbrev pub Handler : Type 0 → Type 0
  Handler A = Action (AiWorld c) AiError A

  status_or : Option String → TaskStatus → TaskStatus
  status_or none old = old
  status_or (some text) old = as_status text

  priority_or : Option String → TaskPriority → TaskPriority
  unfolding as_priority
  priority_or none old = old
  priority_or (some text) old = as_priority text

  unfoldable pub changed_row : ℕ → ActionChanges → Task c.Num → Task c.Num
  unfolding status_or priority_or
  changed_row clock ch old = record old {
    status = status_or (truthy ch.status) old.status;
    priority = priority_or (truthy ch.priority) old.priority;
    assignee_id = or_else ch.assignee_id old.assignee_id;
    due_date = or_else ch.due_date old.due_date;
    updated_at = clock;
  }

  -- One turn of the loop: is the action applied? The read of a task under an id that is no UUID throws.
  unfoldable pub apply_action : ℕ → String → ActionPlan → TaskAction → Handler Bool
  apply_action now user plan a w =
      if not (changes_something a.changes)
      then (ok false, w)
      else if not (is_valid_uuid a.task_id)
      then (err database, w)
      else elim (c.tasks.find_first (λ t. t.project_id =s= plan.project_id && a.task_id =s= t.id)
          w.tables.tasks) [
            | none ↦ (ok false, w)
            | some current ↦
                if not (
                  may_apply (role_of plan.project_id user) user current.assignee_id
                    a.changes.assignee_id)
                then (ok false, w)
                else elim (c.tasks.update (task_key a.task_id) (changed_row now a.changes)
                    w.tables.tasks) [
                      | none ↦ (ok false, w)
                      | some rows ↦ (
                        ok true,
                        record w {
                          tables = record w.tables { tasks = rows };
                          updated =
                              w.updated
                              ++ record {
                                task_id = a.task_id;
                                project_id = plan.project_id;
                                actor_id = user;
                              }
                                ∷ [];
                        },
                      )
                    ]
          ]

  unfoldable pub apply_actions : ℕ → String → ActionPlan → List TaskAction → Handler (List String)
  apply_actions now user plan [] = pure []
  apply_actions now user plan (a ∷ rest) = do
    applied ← apply_action now user plan a
    others ← apply_actions now user plan rest
    pure (if applied then a.id ∷ others else others)

  unfoldable pub find_plan : (String → Option ActionPlan) → String → AiWorld c → Option ActionPlan
  find_plan cached id w = elim (w.plans id) [ none ↦ cached id | some plan ↦ some plan ]

  abbrev require_writer : String → String → Handler (Unit {0})
  require_writer project user w = elim (role_of project user) [
    | none ↦ (err not_project_member, w)
    | some role ↦
        if not (can_write_content role) then (err insufficient_ai_permission, w) else (ok tt, w)
  ]

  abbrev keep_plan : ActionPlan → Handler (Unit {0})
  keep_plan plan w = (
    ok tt,
    record w {
      plans = λ id. if id =s= plan.id then some (record plan { applied = true }) else w.plans id;
    },
  )

  -- `ApplyTaskActionsHandler.execute`, which returns the ids of what it has applied.
  unfoldable pub apply_task_actions :
      (String → Option ActionPlan)
      → ℕ
      → String
      → String
      → Option (List String)
      → Handler (List String)
  apply_task_actions cached now plan_id user ids w = elim (find_plan cached plan_id w) [
    | none ↦ (err proposal_not_found, w)
    | some plan ↦
        (require_writer plan.project_id user
            >> (apply_actions now user plan (picked_actions ids plan) >>= λ applied.
                keep_plan plan >> pure applied))
          w
  ]
