-- ===== src/Tasks/Entities.antt =====
-- src/modules/tasks/domain: task-status.value-object.ts, task-priority.value-object.ts,
-- task.entity.ts and subtask.entity.ts. A position is a JavaScript number: its type is the parameter
-- `Num`, of which the entities use nothing.
use collabai_backend.Prelude.{
  ℕ, String, Bool, true, false, not, ◌&&◌, Option, none, some, or_else, ◌=s=◌, if◌then◌else◌,
}
use collabai_backend.Projects.Entities.{TextOps, trim_all, given}

pub data TaskStatus : Type 0 where
  todo in_progress done : TaskStatus

pub data TaskPriority : Type 0 where
  low medium high urgent : TaskPriority

-- `TaskStatuses.isValid`, with the status that it lets through.
unfoldable pub parse_status : String → Option TaskStatus
unfolding ◌=s=◌
parse_status value =
    if value =s= "todo"
    then some todo
    else if value =s= "in_progress"
    then some in_progress
    else if value =s= "done"
    then some done
    else none

-- `asStatus`
abbrev pub as_status : String → TaskStatus
as_status value = or_else (parse_status value) todo

abbrev pub is_done : TaskStatus → Bool
is_done done = true
is_done _ = false

pub record Task (Num : Type 0) : Type 0 where
  pub id : String
  pub project_id : String
  pub board_id : Option String
  pub title : String
  pub description : Option String
  pub status : TaskStatus
  pub priority : TaskPriority
  pub position : Num
  pub assignee_id : Option String
  pub created_by_id : String
  pub due_date : Option ℕ
  pub completed_at : Option ℕ
  pub created_at : ℕ
  pub updated_at : ℕ
  pub deleted_at : Option ℕ

pub record CreateTaskProps (Num : Type 0) : Type 0 where
  pub id : String
  pub project_id : String
  pub board_id : String
  pub title : String
  pub created_by_id : String
  pub description : Option String
  pub status : Option TaskStatus
  pub priority : Option TaskPriority
  pub position : Num
  pub assignee_id : Option String
  pub due_date : Option ℕ

-- A field of the patch is absent or given; a nullable one is given as null or a value.
pub record TaskPatch : Type 0 where
  pub title : Option String
  pub description : Option (Option String)
  pub priority : Option TaskPriority
  pub assignee_id : Option (Option String)
  pub due_date : Option (Option ℕ)

pub record Subtask : Type 0 where
  pub id : String
  pub task_id : String
  pub title : String
  pub done : Bool
  pub completed_at : Option ℕ
  pub order_index : ℕ

module _ (text : TextOps) where
  -- `TaskEntity.create`
  unfoldable pub create_task_entity : {Num : Type 0} → ℕ → CreateTaskProps Num → Task Num
  create_task_entity now props =
      let status = or_else props.status todo in
      record {
        id = props.id;
        project_id = props.project_id;
        board_id = some props.board_id;
        title = text.trim props.title;
        description = trim_all text props.description;
        status = status;
        priority = or_else props.priority medium;
        position = props.position;
        assignee_id = props.assignee_id;
        created_by_id = props.created_by_id;
        due_date = props.due_date;
        completed_at = if is_done status then some now else none;
        created_at = now;
        updated_at = now;
        deleted_at = none;
      }

  trim_title : Option String → String → String
  trim_title none old = old
  trim_title (some new) old = text.trim new

  trim_description : Option (Option String) → Option String → Option String
  trim_description none old = old
  trim_description (some new) old = trim_all text new

  -- `TaskEntity.applyUpdate`
  unfoldable pub apply_task_update : {Num : Type 0} → ℕ → TaskPatch → Task Num → Task Num
  unfolding trim_title trim_description
  apply_task_update now patch t = record t {
    title = trim_title patch.title t.title;
    description = trim_description patch.description t.description;
    priority = given patch.priority t.priority;
    assignee_id = given patch.assignee_id t.assignee_id;
    due_date = given patch.due_date t.due_date;
    updated_at = now;
  }

  -- `SubtaskEntity.create`
  abbrev pub create_subtask_entity : String → String → String → ℕ → Subtask
  create_subtask_entity id task title order = record {
    id = id;
    task_id = task;
    title = text.trim title;
    done = false;
    completed_at = none;
    order_index = order;
  }

  -- `SubtaskEntity.rename`, where a title is given.
  abbrev pub rename_subtask : Option String → Subtask → Subtask
  rename_subtask none s = s
  rename_subtask (some title) s = record s { title = text.trim title }

-- `SubtaskEntity.setDone`, where the flag is given.
abbrev pub set_done : ℕ → Option Bool → Subtask → Subtask
set_done now none s = s
set_done now (some flag) s = record s {
  done = flag;
  completed_at = if flag then some now else none;
}

-- The completion date that `TaskEntity.move` leaves.
abbrev pub moved_completion : ℕ → TaskStatus → TaskStatus → Option ℕ → Option ℕ
moved_completion now old new before =
    if is_done new && not (is_done old)
    then some now
    else if not (is_done new) && is_done old
    then none
    else before

-- `TaskEntity.move`
unfoldable pub move_entity : {Num : Type 0} → ℕ → TaskStatus → Num → Task Num → Task Num
move_entity now status position t = record t {
  status = status;
  position = position;
  completed_at = moved_completion now t.status status t.completed_at;
  updated_at = now;
}
