-- ===== src/Sync/Tests/Follow.antt =====
-- Two tasks in memory: the first is deleted between two answers.
use collabai_backend.Prelude.{
  ℕ, ◌≡◌, refl, String, true, Option, none, some, [], ◌∷◌, arith, ◌=s=◌, length,
}
use collabai_backend.Tasks.Ports.{World}
use collabai_backend.Tasks.Edit.{add_subtask}
use collabai_backend.Tasks.Access.{require_can_work_on_task}
use collabai_backend.Common.Uuid.{is_valid_uuid, uuid}
use collabai_backend.Prisma.{Table}
use collabai_backend.Prisma.Memory.{memory, same_text-shared}
use collabai_backend.Projects.Role.{member, can_write_content, can_work_on_task}
use collabai_backend.Projects.Entities.{TextOps}
use collabai_backend.Tasks.Entities.{Task, todo, medium}
use collabai_backend.Tasks.Guarded.{adds_subtask, run}
use collabai_backend.Tasks.Memory.{client}
use collabai_backend.Tasks.Store.{
  TaskTables, add_subtask_row, find_task, find_task_view, view_of_task, delete_task_row,
  prisma_tasks,
}
use collabai_backend.Boards.Entities.{Board, same_board}
use collabai_backend.Sync.Delta.{Directory, SyncTables, snapshot, delta, get_delta_sync}
use collabai_backend.Sync.Timeline.{Writes, here, next, deletes}
use collabai_backend.Sync.Replica.{
  taken_over, Follows, first, again, task_in, live_row, Follows-exact,
}
use collabai_backend.Sync.Subtasks.{edited_subtask_untold}

abbrev boards : Table Board same_board
boards = memory same_board (λ r x y. same_text-shared r.id x.id y.id)

abbrev people : Directory
people = record {
  owner_of = λ p. some "ann";
  is_active_member = λ p u. true;
  find_person = λ u. none;
}

abbrev plain : TextOps
plain = record { trim = λ s. s; to_lower = λ s. s }

abbrev project : String
project = "10000000-0000-4000-8000-000000000000"

abbrev one : String
one = "10000000-0000-4000-8000-000000000001"

abbrev two : String
two = "10000000-0000-4000-8000-000000000002"

abbrev task : String → Option ℕ → ℕ → Task ℕ
task id dead changed = record {
  id = id;
  project_id = project;
  board_id = none;
  title = "t";
  description = none;
  status = todo;
  priority = medium;
  position = 0;
  assignee_id = none;
  created_by_id = "ann";
  due_date = none;
  completed_at = none;
  created_at = 1;
  updated_at = changed;
  deleted_at = dead;
}

-- The first task stands as given.
abbrev tables : Option ℕ → ℕ → TaskTables client
unfolding memory ◌=s=◌
tables dead changed = record {
  tasks = (task one dead changed ∷ task two none 1 ∷ [], refl);
  subtasks = ([], refl);
  labels = ([], refl);
  links = ([], refl);
  comments = ([], refl);
  notifications = ([], refl);
}

abbrev with_boards : TaskTables client → SyncTables client boards people
unfolding memory
with_boards s = record { tables = s; board_rows = ([], refl) }

deleted_since : Writes client plain 2 (tables none 1) (tables (some 3) 3)
unfolding tables memory ◌=s=◌ delete_task_row is_valid_uuid uuid
deleted_since = next here (deletes 3 one _ (omega arith) refl)

-- What the client holds after the second answer.
abbrev held : String → Option (Task ℕ)
held = taken_over (delta client boards people 4 project 2 (with_boards (tables (some 3) 3))) (λ id.
    task_in id
      (snapshot client boards people 2 project (with_boards (tables none 1))).tasks_upserted)

followed : Follows client boards plain "ann" project 4 held (tables (some 3) 3)
unfolding tables memory ◌=s=◌ is_valid_uuid uuid get_delta_sync snapshot delta
followed =
    again people 4 2 _ _ (with_boards (tables (some 3) 3)) _
      (first people 2 (with_boards (tables none 1)) _ refl) deleted_since (omega arith) refl

Follows-exact_example : held one ≡ live_row client project one (tables (some 3) 3)
Follows-exact_example = Follows-exact client boards plain "ann" project one followed

first_is_gone : held one ≡ none
unfolding tables memory ◌=s=◌ snapshot delta
first_is_gone = refl

second_is_held : held two ≡ some (task two none 1)
unfolding tables memory ◌=s=◌ snapshot delta view_of_task
second_is_held = refl

abbrev three : String
three = "10000000-0000-4000-8000-000000000003"

-- The second task, last changed at 1, gets a subtask at 3.
abbrev with_subtask : World (prisma_tasks client plain 3 (λ i. "s"))
with_subtask =
    run (prisma_tasks client plain 3 (λ i. "s")) plain (λ p u. some member) (adds_subtask three "x")
      two "ann" (record { store = tables none 1; events = [] })

subtask_added : length (client.subtasks.rows with_subtask.store.subtasks) ≡ 1
unfolding tables memory ◌=s=◌ run add_subtask require_can_work_on_task add_subtask_row is_valid_uuid
    uuid find_task can_write_content can_work_on_task find_task_view
subtask_added = refl

edited_subtask_untold_example :
    task_in two
      (delta client boards people 4 project 2 (record {
        tables = with_subtask.store;
        board_rows = (with_boards (tables none 1)).board_rows;
      })).tasks_upserted
    ≡ none
unfolding with_boards tables memory ◌=s=◌
edited_subtask_untold_example =
    edited_subtask_untold client plain 3 (λ i. "s") (λ p u. some member) boards people
      (with_boards (tables none 1)).board_rows (adds_subtask three "x") two "ann"
      (record { store = tables none 1; events = [] }) (task two none 1) project 4 2 refl refl
      (omega arith)
