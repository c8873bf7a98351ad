-- ===== src/Tasks/Memory.antt =====
-- Tables of tasks in memory: the client that Tasks/Store takes can be had.
use collabai_backend.Prelude.{ℕ, ◌+◌, ◌≡◌, true, none, arith}
use collabai_backend.Prisma.Memory.{memory, same_text-shared}
use collabai_backend.Projects.Persistence.Rows.{same_notification}
use collabai_backend.Tasks.Store.{
  TaskClient, LabelRow, LinkRow, same_task_id, same_subtask_id, same_label, same_link, same_comment,
}

pub label-shared :
    (r x y : LabelRow) → same_label r x ≡ true → same_label r y ≡ true → same_label x y ≡ true
label-shared r x y h k = ground (
  arith,
  same_text-shared r.project_id x.project_id y.project_id,
  same_text-shared r.name x.name y.name,
)

pub link-shared :
    (r x y : LinkRow) → same_link r x ≡ true → same_link r y ≡ true → same_link x y ≡ true
link-shared r x y h k = ground (
  arith,
  same_text-shared r.task_id x.task_id y.task_id,
  same_text-shared r.label_id x.label_id y.label_id,
)

abbrev pub client : TaskClient
client = record {
  Num = ℕ;
  zero_position = 0;
  add_gap = λ n. n + 1000;
  largest = λ ns. none;
  tasks = memory same_task_id (λ r x y. same_text-shared r.id x.id y.id);
  subtasks = memory same_subtask_id (λ r x y. same_text-shared r.id x.id y.id);
  labels = memory same_label label-shared;
  links = memory same_link link-shared;
  comments = memory same_comment (λ r x y. same_text-shared r.id x.id y.id);
  notifications = memory same_notification (λ r x y. same_text-shared r.id x.id y.id);
  by_order = λ xs. xs;
  is_clash = λ x s. true;
}
