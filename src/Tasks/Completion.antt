-- ===== src/Tasks/Completion.antt =====
-- When a task was completed: src/modules/tasks/domain/entities/task.entity.ts, and
-- src/modules/tasks/application/commands/move-task.handler.ts.
use collabai_backend.Prelude.{
  ℕ, ◌≡◌, refl, ◌⊎◌, ◌≢◌, inl, inr, String, Option, some, none, arith, Option-cases, or_else,
}
use collabai_backend.Projects.Role.{ProjectRole}
use collabai_backend.Projects.Entities.{TextOps}
use collabai_backend.Tasks.Entities.{
  Task, TaskStatus, todo, in_progress, done, is_done, move_entity,
}
use collabai_backend.Tasks.Access.{require_can_work_on_task}
use collabai_backend.Tasks.Ports.{TaskRepository, World}
use collabai_backend.Tasks.Edit.{move_task}

module _ (repo : TaskRepository) (text : TextOps)
    (role_of : String → String → Option ProjectRole) where
  -- What moving the task `t` writes, and when it was completed.
  pub record MovedTo (now : ℕ) (status : TaskStatus) (position : Option repo.Num)
      (t : Task repo.Num) (s s' : repo.State) : Type 0 where
    pub moved : Task repo.Num
    pub written : repo.update moved s ≡ some s'
    pub column : moved.status ≡ status
    pub place :
        moved.position
        ≡ or_else position (repo.next_position (repo.max_position t.project_id status s))
    -- Nothing else of the task is written but the time of the change.
    pub same :
        record moved {
          status = t.status;
          position = t.position;
          completed_at = t.completed_at;
          updated_at = t.updated_at;
        }
        ≡ t
    pub touched : moved.updated_at ≡ now
    -- The date of completion is set where the task gets done, erased where it no longer is, and left
    -- as it was in every other move.
    pub completion :
        ((status ≡ done) × (t.status ≢ done) × (moved.completed_at ≡ some now))
        ⊎ ((status ≢ done) × (t.status ≡ done) × (moved.completed_at ≡ none))
        ⊎ ((is_done status ≡ is_done t.status) × (moved.completed_at ≡ t.completed_at))

  status-cases : (st : TaskStatus) → (st ≡ todo) ⊎ (st ≡ in_progress) ⊎ (st ≡ done)
  status-cases todo = inl refl
  status-cases in_progress = inr (inl refl)
  status-cases done = inr (inr refl)

  moved_entity :
      (now : ℕ) (status : TaskStatus) (position : Option repo.Num) (t : Task repo.Num)
      (s s' : repo.State)
      → let place =
          or_else position (repo.next_position (repo.max_position t.project_id status s)) in
        repo.update (move_entity now status place t) s ≡ some s'
        → MovedTo now status position t s s'
  unfolding move_entity
  moved_entity now status position t s s' done_it =
      let place = or_else position (repo.next_position (repo.max_position t.project_id status s)) in
      record {
        moved = move_entity now status place t;
        written = done_it;
        column = refl;
        place = refl;
        same = refl;
        touched = refl;
        completion = ground (arith, status-cases t.status, status-cases status);
      }

  -- Moving a task leaves the store as it was, or writes the task once, with nothing changed but its
  -- column, its place, its date of completion and the time of the change: it stands in the wanted
  -- column and place, and the date of completion becomes the present one where the task gets done, is
  -- erased where it no longer is done, and stays as it was in every other move.
  pub move_task-MovedTo :
      (now : ℕ) (task_id acting : String) (status : TaskStatus) (position : Option repo.Num)
      (t : Task repo.Num) (w : World repo)
      → repo.find_by_id task_id w.store ≡ some t
      → let s' = (move_task repo text role_of now task_id acting status position w).1.store in
        (s' ≡ w.store) ⊎ MovedTo now status position t w.store s'
  unfolding move_task require_can_work_on_task
  move_task-MovedTo now task_id acting status position t w found =
      let place =
        or_else position (repo.next_position (repo.max_position t.project_id status w.store)) in
      elim (Option-cases (repo.update (move_entity now status place t) w.store)) [
        | inl refused ↦ inl (ground arith)
        | inr (s', written) ↦ ground (arith, moved_entity now status position t w.store s' written)
      ]
