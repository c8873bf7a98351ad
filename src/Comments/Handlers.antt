-- ===== src/Comments/Handlers.antt =====
-- src/modules/comments/application: the handlers of commands/ and queries/, over the tables. The
-- addresses that a body mentions, which src/modules/comments/domain/services/comment.domain.service.ts
-- finds with a regular expression, are the argument `mentions`.
use collabai_backend.Prelude.{
  ℕ, String, Option, none, some, or_else, truthy, List, [], ◌∷◌, ◌++◌, ◌=s=◌, if◌then◌else◌, Result,
  ok, err, Action, ◌>>=◌, ◌>>◌, pure, throw,
}
use collabai_backend.Projects.Role.{ProjectRole}
use collabai_backend.Projects.Entities.{TextOps}
use collabai_backend.Tasks.Store.{TaskClient, TaskTables}
use collabai_backend.Comments.Entities.{
  Comment, CommentView, CommentError, CommentEvent, task_not_found, comment_not_found,
  invalid_comment_field, database, comment_added, mention_created, comment_deleted,
  create_comment_entity, edit_comment_entity,
}
use collabai_backend.Comments.Access.{
  MemberAddress, require_member, require_writer, require_author_or_moderator,
  resolve_mentioned_member_ids,
}
use collabai_backend.Comments.Store.{
  get_task_project_id, create_comment_row, find_comment, find_comment_view, list_comments,
  update_comment_row, delete_comment_row,
}

pub record CommentWorld (c : TaskClient) : Type 0 where
  pub tables : TaskTables c
  pub events : List CommentEvent

module _ (c : TaskClient) (text : TextOps) (role_of : String → String → Option ProjectRole) where
  abbrev pub Handler : Type 0 → Type 0
  Handler A = Action (CommentWorld c) CommentError A

  abbrev fetch : {A : Type 0} → (TaskTables c → Option A) → CommentError → Handler A
  fetch f e w = elim (f w.tables) [ none ↦ (err e, w) | some a ↦ (ok a, w) ]

  abbrev look : {A : Type 0} → (TaskTables c → A) → Handler A
  look f w = (ok (f w.tables), w)

  abbrev save : (TaskTables c → Option (TaskTables c)) → Handler (Unit {0})
  save f w = elim (f w.tables) [
    | none ↦ (err database, w)
    | some s ↦ (ok tt, record w { tables = s })
  ]

  abbrev emit : CommentEvent → Handler (Unit {0})
  emit e w = (ok tt, record w { events = w.events ++ e ∷ [] })

  abbrev demand : Result CommentError (Unit {0}) → Handler (Unit {0})
  demand r w = (r, w)

  -- `EditCommentHandler.execute`
  unfoldable pub edit_comment : ℕ → String → String → String → Handler CommentView
  edit_comment now id user body = do
    comment ← fetch (find_comment c id) comment_not_found
    project ← fetch (get_task_project_id c comment.task_id) task_not_found
    demand (require_author_or_moderator role_of project user comment.author_id)
    save (update_comment_row c (edit_comment_entity text now body comment))
    fetch (find_comment_view c comment.id) comment_not_found

  -- `DeleteCommentHandler.execute`
  unfoldable pub delete_comment : ℕ → String → String → Handler (Unit {0})
  delete_comment now id user = do
    comment ← fetch (find_comment c id) comment_not_found
    project ← fetch (get_task_project_id c comment.task_id) task_not_found
    demand (require_author_or_moderator role_of project user comment.author_id)
    save (delete_comment_row c now comment.id)
    emit (comment_deleted comment.id comment.task_id project user)

  -- `GetTaskCommentsHandler.execute`
  unfoldable pub get_task_comments :
      (List CommentView → List CommentView) → String → String → Handler (List CommentView)
  get_task_comments by_created_at task user = do
    project ← fetch (get_task_project_id c task) task_not_found
    demand (require_member role_of project user)
    look (list_comments c by_created_at task)

  module _ (list_members : String → List MemberAddress) (mentions : String → List String) where
    unfoldable pub existing_comment : Option String → TaskTables c → Option CommentView
    existing_comment none s = none
    existing_comment (some id) s = find_comment_view c id s

    abbrev answer_replay : String → CommentView → Handler CommentView
    answer_replay task view =
        if view.comment.task_id =s= task
        then pure view
        else throw (invalid_comment_field "Comment ID already exists on a different task")

    -- The loop over the mentioned, without the author.
    unfoldable pub mention_all : Comment → String → List String → Handler (Unit {0})
    mention_all x project [] = pure tt
    mention_all x project (u ∷ us) =
        let rest = mention_all x project us in
        if u =s= x.author_id
        then rest
        else emit (mention_created u x.id x.task_id project x.author_id) >> rest

    unfoldable pub finish : Comment → String → Handler CommentView
    unfolding mention_all
    finish x project = do
      emit (comment_added x.id x.task_id project x.author_id)
      mention_all x project
          (resolve_mentioned_member_ids text list_members project (mentions x.body))
      fetch (find_comment_view c x.id) comment_not_found

    -- The insertion, and what follows when the database refuses it.
    unfoldable pub insert : Option String → Comment → String → Handler CommentView
    unfolding finish existing_comment
    insert given x project w = elim (create_comment_row c x w.tables) [
      | some s ↦ finish x project (record w { tables = s })
      | none ↦ elim (existing_comment (truthy given) w.tables) [
        | some view ↦ answer_replay x.task_id view w
        | none ↦ (err database, w)
      ]
    ]

    -- `AddCommentHandler.execute`
    unfoldable pub add_comment :
        ℕ → String → Option String → String → String → String → Handler CommentView
    unfolding insert existing_comment
    add_comment now fresh given task user body = do
      project ← fetch (get_task_project_id c task) task_not_found
      demand (require_writer role_of project user)
      existing ← look (existing_comment (truthy given))
      elim existing [
        | some view ↦ answer_replay task view
        | none ↦
            insert given
              (create_comment_entity text now (or_else (truthy given) fresh) task user body) project
      ]
