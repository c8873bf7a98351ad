-- ===== src/Comments/Entities.antt =====
-- src/modules/comments/domain: comment.entity.ts of entities, comment.repository.interface.ts of
-- repositories and the events; and application/errors/comment.errors.ts.
use collabai_backend.Prelude.{ℕ, String, Option, none, some}
use collabai_backend.Projects.Entities.{TextOps}

-- `CommentProps`
pub record Comment : Type 0 where
  pub id : String
  pub task_id : String
  pub author_id : String
  pub body : String
  pub created_at : ℕ
  pub edited_at : Option ℕ
  pub deleted_at : Option ℕ

-- `CommentView`, without the joined user; the project is that of the task.
pub record CommentView : Type 0 where
  pub comment : Comment
  pub project_id : Option String

-- `database` is what the client throws.
pub data CommentError : Type 0 where
  task_not_found comment_not_found not_project_member comment_write_forbidden : CommentError
  comment_moderation_forbidden database : CommentError
  invalid_comment_field : String → CommentError

pub data CommentEvent : Type 0 where
  comment_added : String → String → String → String → CommentEvent
  mention_created : String → String → String → String → String → CommentEvent
  comment_deleted : String → String → String → String → CommentEvent

module _ (text : TextOps) where
  -- `CommentEntity.create`
  unfoldable pub create_comment_entity : ℕ → String → String → String → String → Comment
  create_comment_entity now id task author body = record {
    id = id;
    task_id = task;
    author_id = author;
    body = text.trim body;
    created_at = now;
    edited_at = none;
    deleted_at = none;
  }

  -- `CommentEntity.edit`
  unfoldable pub edit_comment_entity : ℕ → String → Comment → Comment
  edit_comment_entity now body c = record c { body = text.trim body; edited_at = some now }
