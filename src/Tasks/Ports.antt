-- ===== src/Tasks/Ports.antt =====
-- src/modules/tasks/domain/repositories/task.repository.interface.ts, the part of
-- src/modules/boards/domain/repositories/board.repository.interface.ts that tasks use, and what a
-- task handler works on.
use collabai_backend.Prelude.{
  ℕ, String, Option, none, some, List, [], ◌∷◌, ◌++◌, Result, ok, err, Action,
}
use collabai_backend.Tasks.Entities.{Task, Subtask, TaskStatus}
use collabai_backend.Tasks.Access.{TaskError, database}

-- A `TaskView` is the task with its labels, its subtasks and its number of comments.
pub record TaskView (Num : Type 0) : Type 0 where
  pub task : Task Num
  pub labels : List String
  pub subtasks : List Subtask
  pub comment_count : ℕ

-- The number type, with the addition of POSITION_GAP that `nextPosition` makes.
pub record TaskRepository : Type 1 where
  pub State : Type 0
  pub Num : Type 0
  pub next_position : Num → Num
  pub create : Task Num → State → Option State
  pub find_by_id : String → State → Option (Task Num)
  pub find_view_by_id : String → State → Option (TaskView Num)
  pub update : Task Num → State → Option State
  pub delete : String → State → Option State
  pub max_position : String → TaskStatus → State → Num
  pub set_labels : String → String → String → List String → State → Option State
  pub add_subtask : Subtask → State → Option State
  pub find_subtask : String → State → Option Subtask
  pub update_subtask : Subtask → State → Option State
  pub delete_subtask : String → State → Option State
  -- One more than `maxSubtaskOrder`, which is -1 where there is no subtask.
  pub next_subtask_order : String → State → ℕ

pub record Board : Type 0 where
  pub id : String
  pub project_id : String

pub record BoardRepository : Type 0 where
  pub find_board : String → Option Board
  pub list_for_project : String → List Board

pub data TaskEvent (Num : Type 0) : Type 0 where
  task_created : String → String → String → String → TaskEvent Num
  task_assigned : String → String → String → String → String → TaskEvent Num
  task_moved : String → String → String → TaskStatus → TaskStatus → Num → TaskEvent Num
  task_updated : String → String → String → TaskEvent Num
  task_deleted : String → String → Option String → String → String → TaskEvent Num

pub record World (repo : TaskRepository) : Type 0 where
  pub store : repo.State
  pub events : List (TaskEvent repo.Num)

module _ (repo : TaskRepository) where
  abbrev pub Handler : Type 0 → Type 0
  Handler A = Action (World repo) TaskError A

  abbrev pub fetch : {A : Type 0} → (repo.State → Option A) → TaskError → Handler A
  fetch f e w = elim (f w.store) [ none ↦ (err e, w) | some a ↦ (ok a, w) ]

  abbrev pub look : {A : Type 0} → (repo.State → A) → Handler A
  look f w = (ok (f w.store), w)

  abbrev pub save : (repo.State → Option repo.State) → Handler (Unit {0})
  save f w = elim (f w.store) [
    | none ↦ (err database, w)
    | some s ↦ (ok tt, record w { store = s })
  ]

  abbrev pub emit : TaskEvent repo.Num → Handler (Unit {0})
  emit e w = (ok tt, record w { events = w.events ++ e ∷ [] })

  -- A check that reads no state.
  abbrev pub demand : Result TaskError (Unit {0}) → Handler (Unit {0})
  demand r w = (r, w)
