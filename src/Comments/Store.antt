-- ===== src/Comments/Store.antt =====
-- `class CommentRepository` of src/modules/comments/infrastructure/persistence/comment.repository.ts over
-- the tables of tasks and comments. `listForTask` gives the comments in the order of their creation,
-- which the argument `by_created_at` makes.
use mathlib.Core.Option
use collabai_backend.Prelude.{
  ℕ, String, Bool, not, ◌&&◌, Option, none, some, is_some, List, [], map, ◌=s=◌, if◌then◌else◌,
}
use collabai_backend.Common.Uuid.{is_valid_uuid}
use collabai_backend.Tasks.Store.{TaskClient, TaskTables, CommentRow, task_key, live_task}
use collabai_backend.Comments.Entities.{Comment, CommentView}

-- The columns are named otherwise than the fields.
abbrev pub comment_of_row : CommentRow → Comment
comment_of_row r = record {
  id = r.id;
  task_id = r.task_id;
  author_id = r.user_id;
  body = r.content;
  created_at = r.created_at;
  edited_at = r.edited_at;
  deleted_at = r.deleted_at;
}

abbrev pub row_of_comment : Comment → CommentRow
row_of_comment c = record {
  id = c.id;
  task_id = c.task_id;
  user_id = c.author_id;
  content = c.body;
  created_at = c.created_at;
  edited_at = c.edited_at;
  deleted_at = none;
}

abbrev pub comment_key : String → CommentRow → Bool
comment_key id r = id =s= r.id

-- `where: { id, deletedAt: null }`
abbrev pub live_comment : String → CommentRow → Bool
live_comment id r = id =s= r.id && not (is_some r.deleted_at)

module _ (c : TaskClient) where
  unfoldable pub get_task_project_id : String → TaskTables c → Option String
  get_task_project_id id s =
      if is_valid_uuid id
      then Option.map (λ t. t.project_id) (c.tasks.find_first (live_task id) s.tasks)
      else none

  unfoldable pub view_of_comment : TaskTables c → CommentRow → CommentView
  view_of_comment s r = record {
    comment = comment_of_row r;
    project_id = Option.map (λ t. t.project_id) (c.tasks.find_first (task_key r.task_id) s.tasks);
  }

  unfoldable pub create_comment_row : Comment → TaskTables c → Option (TaskTables c)
  create_comment_row x s =
      if not (is_valid_uuid x.id && is_valid_uuid x.task_id && is_valid_uuid x.author_id)
      then some s
      else Option.map (λ rows. record s { comments = rows })
          (c.comments.create (row_of_comment x) s.comments)

  unfoldable pub find_comment : String → TaskTables c → Option Comment
  find_comment id s =
      if is_valid_uuid id
      then Option.map comment_of_row (c.comments.find_first (live_comment id) s.comments)
      else none

  unfoldable pub find_comment_view : String → TaskTables c → Option CommentView
  unfolding view_of_comment
  find_comment_view id s =
      if is_valid_uuid id
      then Option.map (view_of_comment s) (c.comments.find_first (live_comment id) s.comments)
      else none

  unfoldable pub list_comments :
      (List CommentView → List CommentView) → String → TaskTables c → List CommentView
  unfolding view_of_comment
  list_comments by_created_at task s =
      if is_valid_uuid task
      then by_created_at (
          map (view_of_comment s) (
            c.comments.find_many (λ r. r.task_id =s= task && not (is_some r.deleted_at))
              s.comments))
      else []

  unfoldable pub update_comment_row : Comment → TaskTables c → Option (TaskTables c)
  update_comment_row x s =
      if is_valid_uuid x.id
      then Option.map (λ rows. record s { comments = rows })
          (c.comments.update (comment_key x.id)
            (λ r. record r { content = x.body; edited_at = x.edited_at }) s.comments)
      else some s

  unfoldable pub delete_comment_row : ℕ → String → TaskTables c → Option (TaskTables c)
  delete_comment_row clock id s =
      if is_valid_uuid id
      then Option.map (λ rows. record s { comments = rows })
          (c.comments.update (comment_key id) (λ r. record r { deleted_at = some clock })
            s.comments)
      else some s
