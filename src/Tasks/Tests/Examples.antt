-- ===== src/Tasks/Tests/Examples.antt =====
-- Two tasks of one project: one unassigned, one that is Bob's and done.
use collabai_backend.Prelude.{
  truthy, ℕ, ◌+◌, ◌≡◌, refl, ◌⊎◌, err, String, true, Option, none, some, List, [], ◌∷◌, ◌++◌, find?,
  update_if, remove_if, is_some, ok, if◌then◌else◌, ◌=s=◌,
}
use collabai_backend.Projects.Role.{
  ProjectRole, owner, member, viewer, can_write_content, can_work_on_task, can_change_assignee,
}
use collabai_backend.Projects.Entities.{TextOps}
use collabai_backend.Tasks.Entities.{
  Task, TaskPatch, todo, done, low, medium, move_entity, apply_task_update, create_task_entity,
}
use collabai_backend.Tasks.Access.{
  TaskError, require_can_work_on_task, require_can_assign, require_writer, is_member,
}
use collabai_backend.Tasks.Ports.{TaskRepository, TaskView, BoardRepository, World}
use collabai_backend.Tasks.Edit.{move_task, update_task}
use collabai_backend.Tasks.Create.{
  CreateTaskCommand, create_task, check_assignee, replayed, choose_board,
}
use collabai_backend.Tasks.Completion.{MovedTo, move_task-MovedTo}
use collabai_backend.Tasks.Guarded.{deletes, run, Entitled, run-Entitled}
use collabai_backend.Tasks.Assignment.{
  Assigned, update_task-Assigned, create_task-replay, create_task-Assigned,
}

abbrev plain : TextOps
plain = record { trim = λ s. s; to_lower = λ s. s }

find : String → List (Task ℕ) → Option (Task ℕ)
find id s = find? (λ t. t.id =s= id) s

view_of : Option (Task ℕ) → Option (TaskView ℕ)
view_of none = none
view_of (some t) = some record { task = t; labels = []; subtasks = []; comment_count = 0 }

-- The labels and the subtasks of the tests are never kept.
abbrev repo : TaskRepository
repo = record {
  State = List (Task ℕ);
  Num = ℕ;
  next_position = λ n. n + 1;
  create = λ t s. if is_some (find t.id s) then none else some (s ++ t ∷ []);
  find_by_id = find;
  find_view_by_id = λ id s. view_of (find id s);
  update = λ t s. some (update_if (λ u. u.id =s= t.id) (λ _. t) s);
  delete = λ id s. some (remove_if (λ u. u.id =s= id) s);
  max_position = λ p st s. 4;
  set_labels = λ t p u ls s. some s;
  add_subtask = λ x s. some s;
  find_subtask = λ id s. none;
  update_subtask = λ x s. some s;
  delete_subtask = λ id s. some s;
  next_subtask_order = λ id s. 0;
}

abbrev boards : BoardRepository
boards = record {
  find_board = λ id. some record { id = id; project_id = "p" };
  list_for_project = λ p. record { id = "b"; project_id = p } ∷ [];
}

abbrev role_of : String → String → Option ProjectRole
role_of project user =
    if user =s= "ann"
    then some owner
    else if user =s= "bob"
    then some member
    else if user =s= "cid"
    then some viewer
    else none

abbrev open_task : Task ℕ
open_task = record {
  id = "t1";
  project_id = "p";
  board_id = some "b";
  title = "write";
  description = none;
  status = todo;
  priority = medium;
  position = 1;
  assignee_id = none;
  created_by_id = "ann";
  due_date = none;
  completed_at = none;
  created_at = 0;
  updated_at = 0;
  deleted_at = none;
}

abbrev closed_task : Task ℕ
closed_task = record open_task {
  id = "t2";
  status = done;
  assignee_id = some "bob";
  completed_at = some 5;
}

abbrev start : World repo
start = record { store = open_task ∷ closed_task ∷ []; events = [] }

abbrev command : CreateTaskCommand
command = record {
  project_id = "p";
  acting = "bob";
  id = some "t1";
  board_id = none;
  title = "write";
  description = none;
  status = none;
  priority = none;
  assignee_id = some "bob";
  due_date = none;
  labels = [];
  subtasks = [];
}

-- Ann moves the open task to the column of those that are done.
moved_test :
    find "t1" (move_task repo plain role_of 9 "t1" "ann" done none start).1.store
    ≡ some (record open_task { status = done; position = 5; completed_at = some 9; updated_at = 9 })
unfolding find move_task move_entity require_can_work_on_task can_work_on_task can_write_content
    ◌=s=◌ view_of
moved_test = refl

move_task-MovedTo_example :
    let s' = (move_task repo plain role_of 9 "t1" "ann" done none start).1.store in
    (s' ≡ start.store) ⊎ MovedTo repo plain role_of 9 done none open_task start.store s'
unfolding find ◌=s=◌
move_task-MovedTo_example =
    move_task-MovedTo repo plain role_of 9 "t1" "ann" done none open_task start refl

run-Entitled_example :
    (run repo plain role_of deletes "t2" "cid" start ≡ start)
    ⊎ ((task : Task ℕ) × (find "t2" start.store ≡ some task)
        × Entitled repo plain role_of "cid" task)
run-Entitled_example = run-Entitled repo plain role_of deletes "t2" "cid" start

abbrev takes_it : TaskPatch
takes_it = record {
  title = none;
  description = none;
  priority = some low;
  assignee_id = some (some "bob");
  due_date = none;
}

abbrev taken : TaskView ℕ
taken = record {
  task = record open_task { priority = low; assignee_id = some "bob"; updated_at = 9 };
  labels = [];
  subtasks = [];
  comment_count = 0;
}

update_task-Assigned_example : Assigned repo plain role_of "p" "bob" none (some "bob")
unfolding find ◌=s=◌ view_of update_task can_change_assignee truthy can_work_on_task
    require_can_work_on_task require_can_assign is_member apply_task_update
update_task-Assigned_example =
    update_task-Assigned repo plain role_of 9 "t1" "bob" takes_it none open_task (some "bob") taken
      start refl refl refl

-- The id of the command is that of a task already.
create_task-replay_example :
    let (r, w') = create_task repo boards plain role_of 9 "t9" (λ n. "s") command start in
    (w' ≡ start)
    × (((r ≡ ok (record { task = open_task; labels = []; subtasks = []; comment_count = 0 }))
          × (open_task.project_id ≡ command.project_id))
        ⊎ ((e : TaskError) × (r ≡ err e)))
unfolding find ◌=s=◌ view_of truthy
create_task-replay_example =
    create_task-replay repo boards plain role_of 9 "t9" (λ n. "s") command "t1"
      (record { task = open_task; labels = []; subtasks = []; comment_count = 0 }) start refl refl

abbrev fresh_command : CreateTaskCommand
fresh_command = record command { id = none }

abbrev made : TaskView ℕ
made = record {
  task = record open_task {
    id = "t9";
    position = 5;
    assignee_id = some "bob";
    created_by_id = "bob";
    created_at = 9;
    updated_at = 9;
  };
  labels = [];
  subtasks = [];
  comment_count = 0;
}

create_task-Assigned_example :
    (role : ProjectRole) × (role_of "p" "bob" ≡ some role)
    × (can_write_content role ≡ true)
    × ((truthy fresh_command.assignee_id ≡ none)
        ⊎ ((user : String) × (truthy fresh_command.assignee_id ≡ some user)
            × (can_change_assignee role "bob" none (some user) ≡ true)
            × (is_some (role_of "p" user) ≡ true)))
unfolding find ◌=s=◌ view_of truthy create_task can_change_assignee can_write_content require_writer
    require_can_assign is_member check_assignee replayed choose_board create_task_entity
create_task-Assigned_example =
    create_task-Assigned repo boards plain role_of 9 "t9" (λ n. "s") fresh_command made start refl
