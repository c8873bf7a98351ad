-- ===== src/Tasks/Store.antt =====
-- `class TaskRepository` of src/modules/tasks/infrastructure/persistence/task.repository.ts over the
-- tables of tasks, subtasks, labels, their links, comments and notifications. A row of a task is a
-- `Task`, as `toDomain` reads it: a column that holds no status or priority is one of `todo` or `medium`.
-- The clock of the database, fresh identifiers and the largest of some positions are arguments.
use mathlib.Core.Option
use collabai_backend.Prelude.{
  ℕ, suc, String, Bool, true, false, not, ◌&&◌, Option, none, some, is_some, or_else, List, [], ◌∷◌,
  map, leb, ◌=s=◌, if◌then◌else◌,
}
use collabai_backend.Common.Uuid.{is_valid_uuid, uuid}
use collabai_backend.Prisma.{Table}
use collabai_backend.Projects.Entities.{TextOps}
use collabai_backend.Projects.Persistence.Rows.{NotificationKey, same_notification}
use collabai_backend.Tasks.Entities.{Task, TaskStatus, Subtask, todo, in_progress, done}
use collabai_backend.Tasks.Ports.{TaskView, TaskRepository}

pub record LabelRow : Type 0 where
  pub id : String
  pub project_id : String
  pub name : String
  pub created_by : String

pub record LinkRow : Type 0 where
  pub task_id : String
  pub label_id : String

pub record CommentRow : Type 0 where
  pub id : String
  pub task_id : String
  pub user_id : String
  pub content : String
  pub created_at : ℕ
  pub edited_at : Option ℕ
  pub deleted_at : Option ℕ

-- id @id, and for labels @@unique([projectId, name]), for links @@unique([taskId, labelId]).
abbrev pub same_task_id : {Num : Type 0} → Task Num → Task Num → Bool
same_task_id a b = a.id =s= b.id

abbrev pub same_subtask_id : Subtask → Subtask → Bool
same_subtask_id a b = a.id =s= b.id

abbrev pub same_label : LabelRow → LabelRow → Bool
same_label a b = a.project_id =s= b.project_id && a.name =s= b.name

abbrev pub same_link : LinkRow → LinkRow → Bool
same_link a b = a.task_id =s= b.task_id && a.label_id =s= b.label_id

abbrev pub same_comment : CommentRow → CommentRow → Bool
same_comment a b = a.id =s= b.id

pub record TaskClient : Type 1 where
  pub Num : Type 0
  pub zero_position : Num
  pub add_gap : Num → Num
  pub largest : List Num → Option Num
  pub tasks : Table (Task Num) same_task_id
  pub subtasks : Table Subtask same_subtask_id
  pub labels : Table LabelRow same_label
  pub links : Table LinkRow same_link
  pub comments : Table CommentRow same_comment
  pub notifications : Table NotificationKey same_notification
  pub by_order : List Subtask → List Subtask
  -- The error of a refused insertion is P2002, a clash of keys.
  pub is_clash : Subtask → subtasks.Contents → Bool

pub record TaskTables (c : TaskClient) : Type 0 where
  pub tasks : c.tasks.Contents
  pub subtasks : c.subtasks.Contents
  pub labels : c.labels.Contents
  pub links : c.links.Contents
  pub comments : c.comments.Contents
  pub notifications : c.notifications.Contents

-- `===` on statuses.
abbrev pub same_status : TaskStatus → TaskStatus → Bool
same_status todo todo = true
same_status in_progress in_progress = true
same_status done done = true
same_status _ _ = false

abbrev pub task_key : {Num : Type 0} → String → Task Num → Bool
task_key id t = id =s= t.id

-- `where: { id, deletedAt: null }`
abbrev pub live_task : {Num : Type 0} → String → Task Num → Bool
live_task id t = id =s= t.id && not (is_some t.deleted_at)

-- One more than the largest index, which counts as -1 where there is none.
max_suc : List Subtask → ℕ
max_suc [] = 0
max_suc (x ∷ xs) = let m = max_suc xs in if leb (suc x.order_index) m then m else suc x.order_index

-- `Array.from(new Set(…))`
add_name : String → List String → List String
add_name x [] = x ∷ []
add_name x (y ∷ ys) = if y =s= x then y ∷ ys else y ∷ add_name x ys

distinct_from : List String → List String → List String
unfolding add_name
distinct_from acc [] = acc
distinct_from acc (x ∷ xs) = distinct_from (if x =s= "" then acc else add_name x acc) xs

module _ (c : TaskClient) where
  unfoldable pub find_task : String → TaskTables c → Option (Task c.Num)
  find_task id s =
      if is_valid_uuid id then c.tasks.find_first (live_task (uuid id)) s.tasks else none

  labels_of : List LinkRow → TaskTables c → List String
  labels_of [] s = []
  labels_of (l ∷ ls) s = elim (c.labels.find_first (λ r. r.id =s= l.label_id) s.labels) [
    | none ↦ labels_of ls s
    | some r ↦ r.name ∷ labels_of ls s
  ]

  -- `toView`, over the rows that `include` joins.
  unfoldable pub view_of_task : TaskTables c → Task c.Num → TaskView c.Num
  unfolding labels_of
  view_of_task s t = record {
    task = t;
    labels = labels_of (c.links.find_many (λ l. l.task_id =s= t.id) s.links) s;
    subtasks = c.by_order (c.subtasks.find_many (λ x. x.task_id =s= t.id) s.subtasks);
    comment_count =
        c.comments.count (λ x. x.task_id =s= t.id && not (is_some x.deleted_at)) s.comments;
  }

  unfoldable pub find_task_view : String → TaskTables c → Option (TaskView c.Num)
  unfolding find_task
  find_task_view id s = Option.map (view_of_task s) (find_task id s)

  unfoldable pub max_task_position : String → TaskStatus → TaskTables c → c.Num
  max_task_position project status s =
      if is_valid_uuid project
      then or_else
          (c.largest (
            map (λ t. t.position)
              (c.tasks.find_many
                (λ t.
                  t.project_id =s= uuid project
                  && same_status t.status status
                  && not (is_some t.deleted_at))
                s.tasks)))
          c.zero_position
      else c.zero_position

  unfoldable pub next_order : String → TaskTables c → ℕ
  unfolding max_suc
  next_order task s =
      if is_valid_uuid task
      then max_suc (c.subtasks.find_many (λ x. x.task_id =s= uuid task) s.subtasks)
      else 0

  unfoldable pub find_subtask_row : String → TaskTables c → Option Subtask
  find_subtask_row id s =
      if is_valid_uuid id then c.subtasks.find_first (λ x. uuid id =s= x.id) s.subtasks else none

module _ (c : TaskClient) (text : TextOps) (clock : ℕ) where
  -- The columns that are not in `toCreateData` get their defaults.
  abbrev pub created_row : Task c.Num → Task c.Num
  created_row t = record t {
    id = uuid t.id;
    project_id = uuid t.project_id;
    board_id = Option.map uuid t.board_id;
    assignee_id = Option.map uuid t.assignee_id;
    created_by_id = uuid t.created_by_id;
    created_at = clock;
    updated_at = clock;
    deleted_at = none;
  }

  unfoldable pub create_task_row : Task c.Num → TaskTables c → Option (TaskTables c)
  create_task_row t s =
      Option.map (λ rows. record s { tasks = rows }) (c.tasks.create (created_row t) s.tasks)

  -- The columns that `update` writes; `updatedAt` is set by the client.
  abbrev pub updated_row : Task c.Num → Task c.Num → Task c.Num
  updated_row t old = record old {
    title = t.title;
    description = t.description;
    status = t.status;
    priority = t.priority;
    position = t.position;
    assignee_id = Option.map uuid t.assignee_id;
    due_date = t.due_date;
    completed_at = t.completed_at;
    updated_at = clock;
  }

  unfoldable pub update_task_row : Task c.Num → TaskTables c → Option (TaskTables c)
  update_task_row t s =
      if is_valid_uuid t.id
      then Option.map (λ rows. record s { tasks = rows })
          (c.tasks.update (task_key (uuid t.id)) (updated_row t) s.tasks)
      else some s

  abbrev pub deleted_row : Task c.Num → Task c.Num
  deleted_row old = record old { deleted_at = some clock; updated_at = clock }

  abbrev about_task : String → NotificationKey → Bool
  about_task id n =
      or_else n.related_entity_type "" =s= "task" && or_else n.related_entity_id "" =s= id

  unfoldable pub delete_task_row : String → TaskTables c → Option (TaskTables c)
  delete_task_row id s =
      if is_valid_uuid id
      then Option.map
          (λ rows. record s {
            tasks = rows;
            notifications = c.notifications.delete_many (about_task (uuid id)) s.notifications;
          })
          (c.tasks.update (task_key (uuid id)) deleted_row s.tasks)
      else some s

  -- The label of this name in the project, made if it is not there, with `id`.
  label_id :
      String → String → String → String → c.labels.Contents → Option String × c.labels.Contents
  label_id id project user name labels =
      let key : LabelRow → Bool = λ r. r.project_id =s= uuid project && r.name =s= name in
      elim (c.labels.find_first key labels) [
        | some r ↦ (some r.id, labels)
        | none ↦
            elim (c.labels.create
              (record { id = id; project_id = uuid project; name = name; created_by = uuid user })
              labels) [
                | some labels' ↦ (some id, labels')
                | none ↦ (Option.map (λ r. r.id) (c.labels.find_first key labels), labels)
              ]
      ]

  label_ids :
      (ℕ → String)
      → String
      → String
      → List String
      → c.labels.Contents
      → List String × c.labels.Contents
  unfolding label_id
  label_ids ids project user [] labels = ([], labels)
  label_ids ids project user (n ∷ ns) labels =
      let (found, labels') = label_id (ids 0) project user n labels in
      let (rest, labels'') = label_ids (λ i. ids (suc i)) project user ns labels' in
      (elim found [ none ↦ rest | some id ↦ id ∷ rest ], labels'')

  -- `createMany` with `skipDuplicates`.
  link_all : String → List String → c.links.Contents → c.links.Contents
  link_all task [] links = links
  link_all task (l ∷ ls) links =
      link_all task ls
        (or_else (c.links.create (record { task_id = task; label_id = l }) links) links)

  -- `setLabels`: with valid identifiers and a name that is not blank. The database is not touched by
  -- others between the attempts, so that the first does what the last would do.
  unfoldable pub set_task_labels :
      (ℕ → String) → String → String → String → List String → TaskTables c → Option (TaskTables c)
  unfolding label_ids link_all distinct_from
  set_task_labels ids task project user wanted s =
      let names = distinct_from [] (map text.trim wanted) in
      let (found, labels) = label_ids ids project user names s.labels in
      let linked =
        link_all (uuid task) found (c.links.delete_many (λ l. l.task_id =s= uuid task) s.links) in
      if not (is_valid_uuid task && is_valid_uuid project && is_valid_uuid user)
      then some s
      else elim names [ [] ↦ some s | n ∷ ns ↦ some (record s { labels = labels; links = linked }) ]

  -- `addSubtask`: an index that is taken is replaced by the next one.
  unfoldable pub add_subtask_row : Subtask → TaskTables c → Option (TaskTables c)
  add_subtask_row x s =
      let put = λ (rows : c.subtasks.Contents). record s { subtasks = rows } in
      let row = record x { id = uuid x.id; task_id = uuid x.task_id } in
      let again =
        c.subtasks.create (record row { order_index = next_order c x.task_id s }) s.subtasks in
      if is_valid_uuid x.id && is_valid_uuid x.task_id
      then elim (c.subtasks.create row s.subtasks) [
        | some rows ↦ some (put rows)
        | none ↦ if c.is_clash row s.subtasks then Option.map put again else none
      ]
      else some s

  unfoldable pub update_subtask_row : Subtask → TaskTables c → Option (TaskTables c)
  update_subtask_row x s =
      if is_valid_uuid x.id
      then Option.map (λ rows. record s { subtasks = rows })
          (c.subtasks.update (λ r. uuid x.id =s= r.id)
            (λ r. record r { title = x.title; done = x.done; completed_at = x.completed_at })
            s.subtasks)
      else some s

  unfoldable pub delete_subtask_row : String → TaskTables c → Option (TaskTables c)
  delete_subtask_row id s =
      if is_valid_uuid id
      then Option.map (λ rows. record s { subtasks = rows })
          (c.subtasks.delete (λ r. uuid id =s= r.id) s.subtasks)
      else some s

  abbrev pub prisma_tasks : (ℕ → String) → TaskRepository
  prisma_tasks ids = record {
    State = TaskTables c;
    Num = c.Num;
    next_position = c.add_gap;
    create = create_task_row;
    find_by_id = find_task c;
    find_view_by_id = find_task_view c;
    update = update_task_row;
    delete = delete_task_row;
    max_position = max_task_position c;
    set_labels = set_task_labels ids;
    add_subtask = add_subtask_row;
    find_subtask = find_subtask_row c;
    update_subtask = update_subtask_row;
    delete_subtask = delete_subtask_row;
    next_subtask_order = next_order c;
  }
