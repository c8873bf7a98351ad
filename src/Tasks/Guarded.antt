-- ===== src/Tasks/Guarded.antt =====
-- Who may change a task: the six handlers of src/modules/tasks/application/commands that edit one.
use collabai_backend.Prelude.{
  ℕ, ◌≡◌, ◌⊎◌, inl, inr, String, Bool, true, false, Option, none, some, List, arith, Option-cases,
  Bool-cases,
}
use collabai_backend.Projects.Role.{ProjectRole, can_write_content, can_work_on_task}
use collabai_backend.Projects.Entities.{TextOps}
use collabai_backend.Tasks.Entities.{Task, TaskStatus, TaskPatch}
use collabai_backend.Tasks.Access.{require_can_work_on_task}
use collabai_backend.Tasks.Ports.{TaskRepository, World}
use collabai_backend.Tasks.Edit.{
  update_task, move_task, delete_task, add_subtask, update_subtask, delete_subtask,
}

-- A request to change the task that it is sent to.
pub data Edit (Num : Type 0) : Type 0 where
  updates : ℕ → TaskPatch → Option (List String) → Edit Num
  moves : ℕ → TaskStatus → Option Num → Edit Num
  deletes : Edit Num
  adds_subtask : String → String → Edit Num
  updates_subtask : ℕ → String → Option String → Option Bool → Edit Num
  deletes_subtask : String → Edit Num

module _ (repo : TaskRepository) (text : TextOps)
    (role_of : String → String → Option ProjectRole) where
  -- The world that the request leaves.
  unfoldable pub run : Edit repo.Num → String → String → World repo → World repo
  run (updates now patch labels) task_id acting w =
      (update_task repo text role_of now task_id acting patch labels w).1
  run (moves now status position) task_id acting w =
      (move_task repo text role_of now task_id acting status position w).1
  run deletes task_id acting w = (delete_task repo text role_of task_id acting w).1
  run (adds_subtask fresh title) task_id acting w =
      (add_subtask repo text role_of fresh task_id acting title w).1
  run (updates_subtask now subtask_id title flag) task_id acting w =
      (update_subtask repo text role_of now task_id subtask_id acting title flag w).1
  run (deletes_subtask subtask_id) task_id acting w =
      (delete_subtask repo text role_of task_id subtask_id acting w).1

  -- The user has a role in the project of the task with which the task may be worked on.
  abbrev pub Entitled : String → Task repo.Num → Type 0
  Entitled acting task =
      (role : ProjectRole) × (role_of task.project_id acting ≡ some role)
      × (can_write_content role ≡ true)
      × (can_work_on_task role acting task.assignee_id ≡ true)

  -- Where the right is missing, no request does anything.
  run-refused :
      (e : Edit repo.Num) (task_id acting : String) (task : Task repo.Num) (role : ProjectRole)
      (w : World repo)
      → repo.find_by_id task_id w.store ≡ some task
      → role_of task.project_id acting ≡ some role
      → (can_write_content role ≡ false) ⊎ (can_work_on_task role acting task.assignee_id ≡ false)
      → run e task_id acting w ≡ w
  unfolding run require_can_work_on_task update_task move_task delete_task add_subtask
      update_subtask delete_subtask
  run-refused (updates _ _ _) task_id acting task role w found is bad = ground arith
  run-refused (moves _ _ _) task_id acting task role w found is bad = ground arith
  run-refused deletes task_id acting task role w found is bad = ground arith
  run-refused (adds_subtask _ _) task_id acting task role w found is bad = ground arith
  run-refused (updates_subtask _ _ _ _) task_id acting task role w found is bad = ground arith
  run-refused (deletes_subtask _) task_id acting task role w found is bad = ground arith

  run-outsider :
      (e : Edit repo.Num) (task_id acting : String) (task : Task repo.Num) (w : World repo)
      → repo.find_by_id task_id w.store ≡ some task
      → role_of task.project_id acting ≡ none
      → run e task_id acting w ≡ w
  unfolding run require_can_work_on_task update_task move_task delete_task add_subtask
      update_subtask delete_subtask
  run-outsider (updates _ _ _) task_id acting task w found is = ground arith
  run-outsider (moves _ _ _) task_id acting task w found is = ground arith
  run-outsider deletes task_id acting task w found is = ground arith
  run-outsider (adds_subtask _ _) task_id acting task w found is = ground arith
  run-outsider (updates_subtask _ _ _ _) task_id acting task w found is = ground arith
  run-outsider (deletes_subtask _) task_id acting task w found is = ground arith

  run-missing :
      (e : Edit repo.Num) (task_id acting : String) (w : World repo)
      → repo.find_by_id task_id w.store ≡ none
      → run e task_id acting w ≡ w
  unfolding run update_task move_task delete_task add_subtask update_subtask delete_subtask
  run-missing (updates _ _ _) task_id acting w gone = ground arith
  run-missing (moves _ _ _) task_id acting w gone = ground arith
  run-missing deletes task_id acting w gone = ground arith
  run-missing (adds_subtask _ _) task_id acting w gone = ground arith
  run-missing (updates_subtask _ _ _ _) task_id acting w gone = ground arith
  run-missing (deletes_subtask _) task_id acting w gone = ground arith

  -- Whichever of the six requests it is: it leaves the store and the events as they were, or the
  -- task is there and the user has a role in its project with which the task may be worked on.
  pub run-Entitled :
      (e : Edit repo.Num) (task_id acting : String) (w : World repo)
      → (run e task_id acting w ≡ w)
        ⊎ ((task : Task repo.Num) × (repo.find_by_id task_id w.store ≡ some task)
            × Entitled acting task)
  run-Entitled e task_id acting w = elim (Option-cases (repo.find_by_id task_id w.store)) [
    | inl gone ↦ inl (run-missing e task_id acting w gone)
    | inr (task, found) ↦ elim (Option-cases (role_of task.project_id acting)) [
      | inl out ↦ inl (run-outsider e task_id acting task w found out)
      | inr (role, is) ↦ elim (Bool-cases (can_write_content role)) [
        | inr bad ↦ inl (run-refused e task_id acting task role w found is (inl bad))
        | inl writes ↦ elim (Bool-cases (can_work_on_task role acting task.assignee_id)) [
          | inr bad ↦ inl (run-refused e task_id acting task role w found is (inr bad))
          | inl works ↦ inr (task, found, (role, is, writes, works))
        ]
      ]
    ]
  ]
