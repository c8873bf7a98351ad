-- ===== src/Boards/Commands.antt =====
-- src/modules/boards/application/commands: create-board, update-board and delete-board, with the
-- repository of the module. The role of a user in a project, as `findMembership` gives it, is the
-- argument `role_of`.
use collabai_backend.Prelude.{
  ℕ, String, Bool, false, not, Option, none, some, ok, err, Action, ◌>>=◌, ◌>>◌, throw_if, write,
}
use collabai_backend.Prisma.{Table}
use collabai_backend.Projects.Role.{ProjectRole, can_edit_project}
use collabai_backend.Projects.Entities.{TextOps}
use collabai_backend.Boards.Entities.{
  Board, BoardPatch, create_board_entity, apply_board_update, same_board, create_board_row,
  find_board, update_board_row, delete_board_row,
}

-- src/modules/boards/application/errors/board.errors.ts; `database` is what the client throws.
pub data BoardError : Type 0 where
  board_not_found board_forbidden database : BoardError

module _ (boards : Table Board same_board) (text : TextOps)
    (role_of : String → String → Option ProjectRole) where
  abbrev pub Handler : Type 0 → Type 0
  Handler A = Action boards.Contents BoardError A

  abbrev may_edit : Option ProjectRole → Bool
  may_edit none = false
  may_edit (some role) = can_edit_project role

  abbrev fetch_board : ℕ → String → Handler Board
  fetch_board now id s = elim (find_board boards now id s) [
    | none ↦ (err board_not_found, s)
    | some b ↦ (ok b, s)
  ]

  -- `view!`: what is read back, or null.
  abbrev read_back : ℕ → String → Handler (Option Board)
  read_back now id s = (ok (find_board boards now id s), s)

  -- `CreateBoardHandler.execute`
  unfoldable pub create_board :
      ℕ → String → String → String → String → Option String → Handler (Option Board)
  create_board now fresh project user name description = do
    throw_if (not (may_edit (role_of project user))) board_forbidden
    let board = create_board_entity text now fresh project (text.trim name) description
    write database (create_board_row boards now board)
    read_back now board.id

  -- `UpdateBoardHandler.execute`
  unfoldable pub update_board : ℕ → String → String → BoardPatch → Handler (Option Board)
  update_board now id user patch = do
    board ← fetch_board now id
    throw_if (not (may_edit (role_of board.project_id user))) board_forbidden
    write database (update_board_row boards now (apply_board_update text now patch board))
    read_back now board.id

  -- `DeleteBoardHandler.execute`
  unfoldable pub delete_board : ℕ → String → String → Handler (Unit {0})
  delete_board now id user = do
    board ← fetch_board now id
    throw_if (not (may_edit (role_of board.project_id user))) board_forbidden
    write database (delete_board_row boards now board.id)
