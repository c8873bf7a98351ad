-- ===== src/Tasks/Create.antt =====
-- src/modules/tasks/application/commands/create-task.handler.ts.
use collabai_backend.Prelude.{
  truthy, ℕ, ◌+◌, String, not, Option, none, some, List, [], ◌∷◌, err, if◌then◌else◌, ◌=s=◌, ◌>>=◌,
  ◌>>◌, pure, throw, throw_if, or_else,
}
use collabai_backend.Projects.Role.{ProjectRole}
use collabai_backend.Projects.Entities.{TextOps}
use collabai_backend.Tasks.Entities.{
  Task, TaskStatus, TaskPriority, todo, create_task_entity, create_subtask_entity,
}
use collabai_backend.Tasks.Access.{
  require_writer, require_can_assign, is_member, task_not_found, assignee_not_member,
  invalid_task_field, database,
}
use collabai_backend.Tasks.Ports.{
  TaskView, TaskRepository, Board, BoardRepository, Handler, fetch, look, save, emit, demand,
  task_created, task_assigned,
}

pub record CreateTaskCommand : Type 0 where
  pub project_id : String
  pub acting : String
  pub id : Option String
  pub board_id : Option String
  pub title : String
  pub description : Option String
  pub status : Option TaskStatus
  pub priority : Option TaskPriority
  pub assignee_id : Option String
  pub due_date : Option ℕ
  pub labels : List String
  pub subtasks : List String

find_named : BoardRepository → Option String → Option Board
find_named boards none = none
find_named boards (some id) = boards.find_board id

-- The board of the command if it lies in the project, else the project's first.
first_board : BoardRepository → Option Board → List Board → Option Board
first_board boards named [] = named
first_board boards named (b ∷ bs) = boards.find_board b.id

unfoldable pub choose_board : BoardRepository → String → Option String → Option Board
unfolding first_board find_named truthy
choose_board boards project wanted = elim (find_named boards (truthy wanted)) [
  | none ↦ first_board boards none (boards.list_for_project project)
  | some b ↦
      if b.project_id =s= project
      then some b
      else first_board boards (some b) (boards.list_for_project project)
]

module _ (repo : TaskRepository) (boards : BoardRepository) (text : TextOps)
    (role_of : String → String → Option ProjectRole) where
  -- What is under the id of the command already.
  unfoldable pub replayed : String → Option String → repo.State → Option (TaskView repo.Num)
  replayed project none s = none
  replayed project (some id) s = repo.find_view_by_id id s

  -- A task that is there is returned if it lies in the project.
  abbrev answer_replay : String → TaskView repo.Num → Handler repo (TaskView repo.Num)
  answer_replay project view =
      if view.task.project_id =s= project
      then pure view
      else throw (invalid_task_field "Task ID already exists in a different project")

  unfoldable pub check_assignee : String → String → Option String → Handler repo (Unit {0})
  check_assignee project acting none = pure tt
  check_assignee project acting (some user) = do
    demand repo (require_can_assign role_of project acting none (some user))
    throw_if (not (is_member role_of project user)) assignee_not_member

  write_labels : String → Task repo.Num → List String → Handler repo (Unit {0})
  write_labels acting task [] = pure tt
  write_labels acting task (l ∷ ls) =
      save repo (repo.set_labels task.id task.project_id acting (l ∷ ls))

  -- The loop over the titles; those that are blank are skipped, and `ids n` is drawn for the n-th
  -- that is kept.
  write_subtasks : (ℕ → String) → String → ℕ → List String → Handler repo (Unit {0})
  unfolding ◌=s=◌
  write_subtasks ids task order [] = pure tt
  write_subtasks ids task order (t ∷ ts) =
      let skipped = write_subtasks ids task order ts in
      let written =
        save repo (
          repo.add_subtask
            (create_subtask_entity text (ids (order + 1)) task (text.trim t) (order + 1)))
        >> write_subtasks ids task (order + 1) ts in
      if text.trim t =s= "" then skipped else written

  abbrev announce_assignee : String → Task repo.Num → Option String → Handler repo (Unit {0})
  announce_assignee acting task none = pure tt
  announce_assignee acting task (some user) =
      emit repo (task_assigned task.id task.project_id user acting task.title)

  -- Behind the insertion: labels, subtasks, the events and the view.
  finish : (ℕ → String) → CreateTaskCommand → Task repo.Num → Handler repo (TaskView repo.Num)
  unfolding write_labels write_subtasks
  finish ids c task = do
    write_labels c.acting task c.labels
    write_subtasks ids task.id 0 c.subtasks
    emit repo (task_created task.id task.project_id c.acting task.title)
    announce_assignee c.acting task (truthy task.assignee_id)
    fetch repo (repo.find_view_by_id task.id) task_not_found

  -- The insertion, and what follows when the database refuses it: somebody else may have made the
  -- same task in the meantime.
  insert : (ℕ → String) → CreateTaskCommand → Task repo.Num → Handler repo (TaskView repo.Num)
  unfolding finish replayed
  insert ids c task w = elim (repo.create task w.store) [
    | some s ↦ finish ids c task (record w { store = s })
    | none ↦ elim (replayed c.project_id (truthy c.id) w.store) [
      | some view ↦ answer_replay c.project_id view w
      | none ↦ (err database, w)
    ]
  ]

  abbrev new_task : ℕ → String → CreateTaskCommand → Board → repo.Num → Task repo.Num
  new_task now fresh c board last = create_task_entity text now (record {
    id = or_else (truthy c.id) fresh;
    project_id = c.project_id;
    board_id = board.id;
    title = c.title;
    created_by_id = c.acting;
    description = c.description;
    status = some (or_else c.status todo);
    priority = c.priority;
    position = repo.next_position last;
    assignee_id = c.assignee_id;
    due_date = c.due_date;
  })

  -- `CreateTaskHandler.execute`
  unfoldable pub create_task :
      ℕ → String → (ℕ → String) → CreateTaskCommand → Handler repo (TaskView repo.Num)
  unfolding check_assignee insert replayed
  create_task now fresh ids c = do
    demand repo (require_writer role_of c.project_id c.acting)
    elim (choose_board boards c.project_id c.board_id) [
      | none ↦ throw (invalid_task_field "No board found for this project")
      | some board ↦ do
        check_assignee c.project_id c.acting (truthy c.assignee_id)
        existing ← look repo (replayed c.project_id (truthy c.id))
        elim existing [
          | some view ↦ answer_replay c.project_id view
          | none ↦ do
            last ← look repo (repo.max_position c.project_id (or_else c.status todo))
            insert ids c (new_task now fresh c board last)
        ]
    ]
