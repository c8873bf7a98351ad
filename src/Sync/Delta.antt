-- ===== src/Sync/Delta.antt =====
-- src/modules/sync/application/queries/get-delta-sync.handler.ts. The order of the rows in an answer
-- and the spelling of its dates are left out, and so are the fields that it gives twice under another
-- name.
use collabai_backend.Prelude.{
  ℕ, String, Bool, true, false, not, ◌&&◌, ◌||◌, Option, none, some, is_some, List, [], map, ltb,
  ◌=s=◌, Result, ok, err, if◌then◌else◌,
}
use collabai_backend.Common.Uuid.{is_valid_uuid}
use collabai_backend.Prisma.{Table}
use collabai_backend.Tasks.Entities.{Task}
use collabai_backend.Tasks.Ports.{TaskView}
use collabai_backend.Tasks.Store.{TaskClient, TaskTables, CommentRow, view_of_task}
use collabai_backend.Boards.Entities.{Board, same_board}

pub record Person : Type 0 where
  pub id : String
  pub name : String
  pub email : String
  pub avatar_url : Option String

-- `formatTask`, `formatComment`; a board is answered as it is.
pub record SyncTask (Num : Type 0) : Type 0 where
  pub view : TaskView Num
  pub assignee : Option Person
  pub creator : Option Person

pub record SyncComment : Type 0 where
  pub comment : CommentRow
  pub project_id : String
  pub author : Option Person

pub record SyncResponse (Num : Type 0) : Type 0 where
  pub server_time : ℕ
  pub tasks_upserted : List (SyncTask Num)
  pub tasks_deleted : List String
  pub comments_upserted : List SyncComment
  pub comments_deleted : List String
  pub boards_upserted : List Board

pub data SyncError : Type 0 where
  project_not_found invalid_since access_denied : SyncError

-- The time that the client asks from: none, no date at all, or a date.
pub data Since : Type 0 where
  start malformed : Since
  at : ℕ → Since

-- `deletedAt: { gt: since }`
abbrev pub later : ℕ → Option ℕ → Bool
later since none = false
later since (some d) = ltb since d

-- The owner of a project that is not deleted, active membership, and people.
pub record Directory : Type 0 where
  pub owner_of : String → Option String
  pub is_active_member : String → String → Bool
  pub find_person : String → Option Person

module _ (c : TaskClient) (boards : Table Board same_board) (people : Directory) where
  pub record SyncTables : Type 0 where
    pub tables : TaskTables c
    pub board_rows : boards.Contents

  abbrev pub format_task : TaskTables c → Task c.Num → SyncTask c.Num
  format_task s t = record {
    view = view_of_task c s t;
    assignee = elim t.assignee_id [ none ↦ none | some id ↦ people.find_person id ];
    creator = people.find_person t.created_by_id;
  }

  abbrev pub format_comment : String → CommentRow → SyncComment
  format_comment project x = record {
    comment = x;
    project_id = project;
    author = people.find_person x.user_id;
  }

  -- `where: { task: { projectId } }`
  abbrev pub comment_in : String → TaskTables c → CommentRow → Bool
  comment_in project s x =
      is_some (c.tasks.find_first (λ t. t.id =s= x.task_id && t.project_id =s= project) s.tasks)

  abbrev pub task_live : String → Task c.Num → Bool
  task_live project t = t.project_id =s= project && not (is_some t.deleted_at)

  abbrev pub task_upserted : String → ℕ → Task c.Num → Bool
  task_upserted project since t =
      t.project_id =s= project && ltb since t.updated_at && not (is_some t.deleted_at)

  abbrev pub task_deleted : String → ℕ → Task c.Num → Bool
  task_deleted project since t = t.project_id =s= project && later since t.deleted_at

  abbrev pub nothing : ℕ → SyncResponse c.Num
  nothing now = record {
    server_time = now;
    tasks_upserted = [];
    tasks_deleted = [];
    comments_upserted = [];
    comments_deleted = [];
    boards_upserted = [];
  }

  -- The answer without a time.
  unfoldable pub snapshot : ℕ → String → SyncTables → SyncResponse c.Num
  snapshot now project s = record {
    server_time = now;
    tasks_upserted =
        map (format_task s.tables) (c.tasks.find_many (task_live project) s.tables.tasks);
    tasks_deleted = [];
    comments_upserted = map (format_comment project) (
        c.comments.find_many (λ x. comment_in project s.tables x && not (is_some x.deleted_at))
          s.tables.comments);
    comments_deleted = [];
    boards_upserted = boards.find_many (λ b. b.project_id =s= project) s.board_rows;
  }

  -- What changed since.
  unfoldable pub delta : ℕ → String → ℕ → SyncTables → SyncResponse c.Num
  delta now project since s = record {
    server_time = now;
    tasks_upserted =
        map (format_task s.tables) (c.tasks.find_many (task_upserted project since) s.tables.tasks);
    tasks_deleted = map (λ t. t.id) (c.tasks.find_many (task_deleted project since) s.tables.tasks);
    comments_upserted = map (format_comment project) (
        c.comments.find_many
          (λ x.
            comment_in project s.tables x
            && not (is_some x.deleted_at)
            && (ltb since x.created_at || later since x.edited_at))
          s.tables.comments);
    comments_deleted =
        map (λ x. x.id)
          (c.comments.find_many (λ x. comment_in project s.tables x && later since x.deleted_at)
            s.tables.comments);
    boards_upserted =
        boards.find_many (λ b. b.project_id =s= project && ltb since b.updated_at) s.board_rows;
  }

  abbrev pub answer : ℕ → String → Since → SyncTables → SyncResponse c.Num
  answer now project start s = snapshot now project s
  answer now project malformed s = nothing now
  answer now project (at since) s = if ltb now since then nothing now else delta now project since s

  abbrev pub malformed_since : Since → Bool
  malformed_since malformed = true
  malformed_since _ = false

  -- `GetDeltaSyncHandler.execute`
  unfoldable pub get_delta_sync :
      ℕ → String → String → Since → SyncTables → Result SyncError (SyncResponse c.Num)
  get_delta_sync now user project since s =
      if not (is_valid_uuid project)
      then err project_not_found
      else if malformed_since since
      then err invalid_since
      else elim (people.owner_of project) [
        | none ↦ err project_not_found
        | some owner ↦
            if not (owner =s= user) && not (people.is_active_member project user)
            then err access_denied
            else ok (answer now project since s)
      ]
