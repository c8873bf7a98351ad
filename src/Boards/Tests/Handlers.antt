-- ===== src/Boards/Tests/Handlers.antt =====
-- Ann is an admin of the project, and Bob a viewer.
use collabai_backend.Prelude.{
  ◌≡◌, refl, String, Option, none, some, ok, [], ◌∷◌, ◌=s=◌, if◌then◌else◌,
}
use collabai_backend.Common.Uuid.{is_valid_uuid, uuid}
use collabai_backend.Prisma.{Table}
use collabai_backend.Prisma.Memory.{memory, same_text-shared}
use collabai_backend.Projects.Role.{ProjectRole, admin, viewer, can_edit_project}
use collabai_backend.Projects.Entities.{TextOps}
use collabai_backend.Boards.Entities.{
  Board, same_board, default_columns, create_board_entity, create_board_row, find_board,
}
use collabai_backend.Boards.Commands.{create_board}

abbrev boards : Table Board same_board
boards = memory same_board (λ r x y. same_text-shared r.id x.id y.id)

abbrev plain : TextOps
plain = record { trim = λ s. s; to_lower = λ s. s }

abbrev role_of : String → String → Option ProjectRole
role_of project user = if user =s= "ann" then some admin else some viewer

abbrev project : String
project = "10000000-0000-4000-8000-000000000000"

abbrev one : String
one = "10000000-0000-4000-8000-000000000001"

abbrev empty : boards.Contents
unfolding memory
empty = ([], refl)

abbrev made : Board
made = record {
  id = one;
  project_id = project;
  name = "Work";
  description = none;
  columns = default_columns;
  created_at = 5;
  updated_at = 5;
}

abbrev filled : boards.Contents
unfolding memory
filled = (made ∷ [], refl)

create_board_once :
    create_board boards plain role_of 5 one project "ann" "Work" none empty
    ≡ (ok (some made), filled)
unfolding create_board create_board_entity create_board_row find_board empty filled memory ◌=s=◌
    is_valid_uuid uuid can_edit_project
create_board_once = refl
