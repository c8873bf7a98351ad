-- ===== src/Comments/Tests/Posts.antt =====
-- Ann posts a comment on a task, which mentions Bob.
use collabai_backend.Prelude.{◌≡◌, ◌⊎◌, ℕ, refl, String, Option, none, some, List, [], ◌∷◌}
use collabai_backend.Prisma.Memory.{memory}
use collabai_backend.Projects.Role.{ProjectRole, member}
use collabai_backend.Projects.Entities.{TextOps}
use collabai_backend.Tasks.Entities.{Task, todo, medium}
use collabai_backend.Tasks.Memory.{client}
use collabai_backend.Comments.Entities.{Comment, CommentView, comment_added, mention_created}
use collabai_backend.Comments.Access.{MemberAddress}
use collabai_backend.Comments.Store.{get_task_project_id, find_comment, row_of_comment}
use collabai_backend.Comments.Handlers.{CommentWorld}
use collabai_backend.Comments.Guarded.{edits, run, Moderates, edit_comment-Moderates}

abbrev plain : TextOps
plain = record { trim = λ s. s; to_lower = λ s. s }

abbrev role_of : String → String → Option ProjectRole
role_of project user = some member

abbrev mentions : String → List String
mentions body = "bob@x" ∷ "ann@x" ∷ []

abbrev project : String
project = "10000000-0000-4000-8000-000000000000"

abbrev one : String
one = "10000000-0000-4000-8000-000000000001"

abbrev ann : String
ann = "10000000-0000-4000-8000-00000000000a"

abbrev bob : String
bob = "10000000-0000-4000-8000-00000000000b"

abbrev note : String
note = "10000000-0000-4000-8000-00000000000c"

abbrev members : String → List MemberAddress
members p =
    record { user_id = ann; email = "ann@x" } ∷ record { user_id = bob; email = "bob@x" } ∷ []

abbrev work : Task ℕ
work = record {
  id = one;
  project_id = project;
  board_id = none;
  title = "t";
  description = none;
  status = todo;
  priority = medium;
  position = 0;
  assignee_id = none;
  created_by_id = ann;
  due_date = none;
  completed_at = none;
  created_at = 1;
  updated_at = 1;
  deleted_at = none;
}

abbrev comment : Comment
comment = record {
  id = note;
  task_id = one;
  author_id = ann;
  body = "Look";
  created_at = 5;
  edited_at = none;
  deleted_at = none;
}

abbrev view : CommentView
view = record { comment = comment; project_id = some project }

abbrev before : CommentWorld client
unfolding memory
before = record {
  tables = record {
    tasks = (work ∷ [], refl);
    subtasks = ([], refl);
    labels = ([], refl);
    links = ([], refl);
    comments = ([], refl);
    notifications = ([], refl);
  };
  events = [];
}

abbrev after : CommentWorld client
unfolding memory
after = record {
  tables = record {
    tasks = (work ∷ [], refl);
    subtasks = ([], refl);
    labels = ([], refl);
    links = ([], refl);
    comments = (row_of_comment comment ∷ [], refl);
    notifications = ([], refl);
  };
  events = comment_added note one project ann ∷ mention_created bob note one project ann ∷ [];
}

edit_comment-Moderates_example :
    (run client plain role_of 7 (edits "No") note bob after ≡ after)
    ⊎ ((x : Comment) × (project : String) × (role : ProjectRole) × (find_comment client note
            after.tables
          ≡ some x)
        × (get_task_project_id client x.task_id after.tables ≡ some project)
        × (role_of project bob ≡ some role)
        × Moderates client plain role_of role bob x)
edit_comment-Moderates_example =
    edit_comment-Moderates client plain role_of 7 (edits "No") note bob after
