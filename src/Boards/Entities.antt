-- ===== src/Boards/Entities.antt =====
-- src/modules/boards: board.entity.ts and board.repository.interface.ts of domain, and
-- board.repository.ts of infrastructure/persistence. `listForProject` gives the boards in the order of
-- their creation, which the argument `by_created_at` makes.
use collabai_backend.Prelude.{
  ℕ, String, Bool, Option, none, some, List, [], ◌∷◌, ◌=s=◌, ◌&&◌, if◌then◌else◌,
}
use collabai_backend.Common.Uuid.{is_valid_uuid, uuid}
use collabai_backend.Prisma.{Table}
use collabai_backend.Projects.Entities.{TextOps, trim_all}

pub record BoardColumn : Type 0 where
  pub key : String
  pub title : String
  pub position : ℕ

abbrev pub default_columns : List BoardColumn
default_columns =
    record { key = "todo"; title = "To Do"; position = 0 }
    ∷ record { key = "in_progress"; title = "In Progress"; position = 1 }
    ∷ record { key = "done"; title = "Done"; position = 2 }
    ∷ []

-- `BoardProps`; a row of the table and a `BoardView` have the same fields.
pub record Board : Type 0 where
  pub id : String
  pub project_id : String
  pub name : String
  pub description : Option String
  pub columns : List BoardColumn
  pub created_at : ℕ
  pub updated_at : ℕ

-- A description is absent, null or given.
pub record BoardPatch : Type 0 where
  pub name : Option String
  pub description : Option (Option String)

module _ (text : TextOps) where
  -- `BoardEntity.create`
  unfoldable pub create_board_entity : ℕ → String → String → String → Option String → Board
  create_board_entity now id project name description = record {
    id = id;
    project_id = project;
    name = text.trim name;
    description = trim_all text description;
    columns = default_columns;
    created_at = now;
    updated_at = now;
  }

  trimmed_or : Option String → String → String
  trimmed_or none old = old
  trimmed_or (some new) old = text.trim new

  described_or : Option (Option String) → Option String → Option String
  described_or none old = old
  described_or (some new) old = trim_all text new

  -- `BoardEntity.applyUpdate`
  unfoldable pub apply_board_update : ℕ → BoardPatch → Board → Board
  unfolding trimmed_or described_or
  apply_board_update now patch b = record b {
    name = trimmed_or patch.name b.name;
    description = described_or patch.description b.description;
    updated_at = now;
  }

-- id @id
abbrev pub same_board : Board → Board → Bool
same_board a b = a.id =s= b.id

module _ (boards : Table Board same_board) (clock : ℕ) where
  unfoldable pub create_board_row : Board → boards.Contents → Option boards.Contents
  create_board_row b s =
      if is_valid_uuid b.id && is_valid_uuid b.project_id
      then boards.create
          (record b {
            id = uuid b.id;
            project_id = uuid b.project_id;
            created_at = clock;
            updated_at = clock;
          })
          s
      else some s

  unfoldable pub find_board : String → boards.Contents → Option Board
  find_board id s = if is_valid_uuid id then boards.find_first (λ b. uuid id =s= b.id) s else none

  unfoldable pub list_boards : (List Board → List Board) → String → boards.Contents → List Board
  list_boards by_created_at project s =
      if is_valid_uuid project
      then by_created_at (boards.find_many (λ b. b.project_id =s= uuid project) s)
      else []

  unfoldable pub update_board_row : Board → boards.Contents → Option boards.Contents
  update_board_row b s =
      if is_valid_uuid b.id
      then boards.update (λ r. uuid b.id =s= r.id)
          (λ r. record r {
            name = b.name;
            description = b.description;
            columns = b.columns;
            updated_at = clock;
          })
          s
      else some s

  -- The tasks of the board stay, without one: the cascade of prisma/schema.prisma is on the tasks.
  unfoldable pub delete_board_row : String → boards.Contents → Option boards.Contents
  delete_board_row id s =
      if is_valid_uuid id then boards.delete (λ r. uuid id =s= r.id) s else some s
