-- ===== src/Sync/Replica.antt =====
-- A client that keeps what src/modules/sync/application/queries/get-delta-sync.handler.ts tells it of
-- the tasks of a project, and how it takes an answer over.
use collabai_backend.Prelude.{
  ℕ, ◌≤◌, ◌≡◌, inl, inr, refl, ◌∙◌, String, Bool, false, not, ◌&&◌, ◌||◌, Option, none, some,
  is_some, List, [], ◌∷◌, map, ◌=s=◌, find?, if◌then◌else◌, ok, arith, Option-cases,
}
use collabai_backend.Prisma.{Table}
use collabai_backend.Projects.Entities.{TextOps}
use collabai_backend.Tasks.Entities.{Task}
use collabai_backend.Tasks.Lookup.{passing, find?-and_at_most_one, count_if-task_key}
use collabai_backend.Tasks.Store.{TaskClient, TaskTables, task_key, view_of_task}
use collabai_backend.Boards.Entities.{Board, same_board}
use collabai_backend.Sync.Delta.{
  SyncTask, SyncResponse, SyncTables, Since, start, at, Directory, format_task, task_live,
  task_upserted, task_deleted, snapshot, delta, malformed_since, answer, get_delta_sync,
}
use collabai_backend.Sync.Timeline.{Evolved, Writes, Writes-Evolved}

-- What an answer says of a task: the row, and whether it is gone.
abbrev pub task_in : {Num : Type 0} → String → List (SyncTask Num) → Option (Task Num)
task_in id [] = none
task_in id (y ∷ ys) = if id =s= y.view.task.id then some y.view.task else task_in id ys

abbrev pub listed : String → List String → Bool
listed id [] = false
listed id (x ∷ xs) = id =s= x || listed id xs

abbrev newer {ℓ} : {A : Type ℓ} → Option A → Option A → Option A
newer (some a) o = some a
newer none o = o

-- A client forgets what is gone, and takes over what has come.
abbrev pub taken_over :
    {Num : Type 0} → SyncResponse Num → (String → Option (Task Num)) → String → Option (Task Num)
taken_over answer held id =
    if listed id answer.tasks_deleted
    then none
    else newer (task_in id answer.tasks_upserted) (held id)

-- The task of this identifier, if it is of the project and is not deleted.
abbrev pub live_row : (c : TaskClient) → String → String → TaskTables c → Option (Task c.Num)
live_row c project id s =
    passing (λ t. t.project_id =s= project && not (is_some t.deleted_at))
      (find? (task_key id) (c.tasks.rows s.tasks))

module _ (c : TaskClient) (boards : Table Board same_board) (people : Directory) where
  taken :
      (project : String) (since : ℕ) (before after : Option (Task c.Num))
      → Evolved since before after
      → (if is_some (passing (task_deleted c boards people project since) after)
          then none
          else newer
              (passing (task_upserted c boards people project since) after)
              (passing (task_live c boards people project) before))
        ≡ passing (task_live c boards people project) after
  taken project since none after (inl e) = rw e refl
  taken project since (some old) after (inl e) = rw e (elim (Option-cases old.deleted_at) [
    | inl alive ↦ ground arith
    | inr (d, dead) ↦ ground arith
  ])
  taken project since none after (inr (t, e, new, inl alive)) = rw e (ground arith)
  taken project since none after (inr (t, e, new, inr (d, dead, lt))) = rw e (ground arith)
  taken project since (some old) after (inr (t, e, new, (same, inl alive))) = rw e (ground arith)
  taken project since (some old) after (inr (t, e, new, (same, inr (inl gone)))) =
      rw e (elim (Option-cases t.deleted_at) [
        | inl alive ↦ ground arith
        | inr (d, dead) ↦ ground arith
      ])
  taken project since (some old) after (inr (t, e, new, (same, inr (inr (d, dead, lt))))) =
      rw e (ground arith)

  task_in-map :
      (id : String) (s : TaskTables c) (ts : List (Task c.Num))
      → task_in id (map (format_task c boards people s) ts) ≡ find? (task_key id) ts
  unfolding view_of_task
  task_in-map id s [] = refl
  task_in-map id s (t ∷ ts) = ground (arith, task_in-map id s ts)

  listed-map :
      (id : String) (ts : List (Task c.Num))
      → listed id (map (λ t. t.id) ts) ≡ is_some (find? (task_key id) ts)
  listed-map id [] = refl
  listed-map id (t ∷ ts) = ground (arith, listed-map id ts)

  abbrev row_of : String → TaskTables c → Option (Task c.Num)
  row_of id s = find? (task_key id) (c.tasks.rows s.tasks)

  find_many-key :
      (id : String) (p : Task c.Num → Bool) (s : TaskTables c)
      → find? (task_key id) (c.tasks.find_many p s.tasks) ≡ passing p (row_of id s)
  find_many-key id p s =
      c.tasks.find_many_rows p (task_key id) s.tasks (count_if-task_key c id s)
      ∙ find?-and_at_most_one p (task_key id) (c.tasks.rows s.tasks) (count_if-task_key c id s)

  told :
      (id project : String) (now : ℕ) (s : SyncTables c boards people)
      → task_in id (snapshot c boards people now project s).tasks_upserted
        ≡ passing (task_live c boards people project) (row_of id s.tables)
  unfolding snapshot
  told id project now s =
      task_in-map id s.tables (c.tasks.find_many (task_live c boards people project) s.tables.tasks)
      ∙ find_many-key id (task_live c boards people project) s.tables

  pub delta_told :
      (id project : String) (now since : ℕ) (s : SyncTables c boards people)
      → task_in id (delta c boards people now project since s).tasks_upserted
        ≡ passing
            (task_upserted c boards people project since)
            (find? (task_key id) (c.tasks.rows s.tables.tasks))
  unfolding delta
  delta_told id project now since s =
      task_in-map id s.tables
        (c.tasks.find_many (task_upserted c boards people project since) s.tables.tasks)
      ∙ find_many-key id (task_upserted c boards people project since) s.tables

  catches_up :
      (id project : String) (now since : ℕ) (text : TextOps) (before : TaskTables c)
      (s : SyncTables c boards people) (held : String → Option (Task c.Num))
      → held id ≡ passing (task_live c boards people project) (row_of id before)
      → Writes c text since before s.tables
      → taken_over (delta c boards people now project since s) held id
        ≡ passing (task_live c boards people project) (row_of id s.tables)
  unfolding delta
  catches_up id project now since text before s held kept writes =
      let up = task_upserted c boards people project since in
      let gone = task_deleted c boards people project since in
      rw
        (
          listed-map id (c.tasks.find_many gone s.tables.tasks),
          find_many-key id gone s.tables,
          task_in-map id s.tables (c.tasks.find_many up s.tables.tasks),
          find_many-key id up s.tables,
          kept,
        )
        (taken project since (row_of id before) (row_of id s.tables)
          (Writes-Evolved c text since id writes))

  answered :
      (now : ℕ) (user project : String) (since : Since) (s : SyncTables c boards people)
      (r : SyncResponse c.Num)
      → get_delta_sync c boards people now user project since s ≡ ok r
      → (r ≡ answer c boards people now project since s)
        × (malformed_since c boards people since ≡ false)
  unfolding get_delta_sync
  answered now user project since s r done = elim (Option-cases (people.owner_of project)) [
    | inl missing ↦ absurd (ground arith)
    | inr (owner, is) ↦ ground arith
  ]

-- Answers that a client has taken over, one after the other, each asked for from the time of the last:
-- the time of the last, what the client holds by then, and the tables that it answered from.
module _ (c : TaskClient) (boards : Table Board same_board) (text : TextOps)
    (user project : String) where
  pub data Follows : ℕ → (String → Option (Task c.Num)) → TaskTables c → Type 0 where
    first :
        (people : Directory) (now : ℕ) (s : SyncTables c boards people) (r : SyncResponse c.Num)
        → get_delta_sync c boards people now user project start s ≡ ok r
        → Follows r.server_time (λ id. task_in id r.tasks_upserted) s.tables
    again :
        (people : Directory) (now since : ℕ) (held : String → Option (Task c.Num))
        (before : TaskTables c) (s : SyncTables c boards people) (r : SyncResponse c.Num)
        → Follows since held before
        → Writes c text since before s.tables
        → since ≤ now
        → get_delta_sync c boards people now user project (at since) s ≡ ok r
        → Follows r.server_time (taken_over r held) s.tables

  -- A client that takes over a first answer and any number of later ones, each asked for from the time of
  -- the one before, where every task written in between bears a later time and no answer is asked for
  -- from a time to come, holds under each identifier the row of that task as it stands in the tables,
  -- if that is of the project and not deleted, and nothing otherwise.
  pub Follows-exact :
      (id : String) {since : ℕ} {held : String → Option (Task c.Num)} {s : TaskTables c}
      → Follows since held s
      → held id ≡ live_row c project id s
  Follows-exact id (first people now s r done) =
      rw (answered c boards people now user project start s r done).0
        (told c boards people id project now s)
  Follows-exact id (again people now since held before s r f w le done) =
      let e : r ≡ delta c boards people now project since s =
        ground (arith, (answered c boards people now user project (at since) s r done).0) in
      rw e
        (catches_up c boards people id project now since text before s held (Follows-exact id f) w)
