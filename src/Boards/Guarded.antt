-- ===== src/Boards/Guarded.antt =====
-- Who may change the boards of a project: the handlers of src/modules/boards/application/commands.
use collabai_backend.Prelude.{ℕ, String, Option, none, some}
use collabai_backend.Prisma.{Table}
use collabai_backend.Projects.Role.{ProjectRole}
use collabai_backend.Projects.Entities.{TextOps}
use collabai_backend.Boards.Entities.{Board, BoardPatch, same_board, find_board}
use collabai_backend.Boards.Commands.{create_board, update_board, delete_board}

-- A request to make a board in a project, or to change or delete one.
pub data BoardEdit : Type 0 where
  creates : String → String → String → Option String → BoardEdit
  updates : String → BoardPatch → BoardEdit
  deletes : String → BoardEdit

module _ (boards : Table Board same_board) (text : TextOps)
    (role_of : String → String → Option ProjectRole) where
  -- The boards that the request leaves.
  unfoldable pub run : ℕ → BoardEdit → String → boards.Contents → boards.Contents
  run now (creates fresh project name description) user s =
      (create_board boards text role_of now fresh project user name description s).1
  run now (updates id patch) user s = (update_board boards text role_of now id user patch s).1
  run now (deletes id) user s = (delete_board boards text role_of now id user s).1

  -- The project that the request is about.
  abbrev pub project_of : Option Board → Option String
  project_of none = none
  project_of (some b) = some b.project_id

  abbrev pub subject : ℕ → BoardEdit → boards.Contents → Option String
  subject now (creates fresh project name description) s = some project
  subject now (updates id patch) s = project_of (find_board boards now id s)
  subject now (deletes id) s = project_of (find_board boards now id s)
