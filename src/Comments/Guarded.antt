-- ===== src/Comments/Guarded.antt =====
-- Who may change a comment: edit-comment.handler.ts and delete-comment.handler.ts of
-- src/modules/comments/application/commands.
use collabai_backend.Prelude.{
  ℕ, String, true, false, ◌≡◌, ◌⊎◌, inl, inr, Option, none, some, ◌=s=◌, arith, same_text,
  Option-cases, Bool-cases,
}
use collabai_backend.Projects.Role.{ProjectRole, can_manage_members, can_write_content}
use collabai_backend.Projects.Entities.{TextOps}
use collabai_backend.Tasks.Store.{TaskClient}
use collabai_backend.Comments.Entities.{Comment}
use collabai_backend.Comments.Access.{require_author_or_moderator}
use collabai_backend.Comments.Store.{find_comment, get_task_project_id}
use collabai_backend.Comments.Handlers.{CommentWorld, edit_comment, delete_comment}

-- A request to change the comment that it is sent to.
pub data CommentEdit : Type 0 where
  edits : String → CommentEdit
  deletes : CommentEdit

module _ (c : TaskClient) (text : TextOps) (role_of : String → String → Option ProjectRole) where
  -- The world that the request leaves.
  unfoldable pub run : ℕ → CommentEdit → String → String → CommentWorld c → CommentWorld c
  run now (edits body) id user w = (edit_comment c text role_of now id user body w).1
  run now deletes id user w = (delete_comment c text role_of now id user w).1

  -- A moderator, or the author with the right to write.
  abbrev pub Moderates : ProjectRole → String → Comment → Type 0
  Moderates role user x =
      (can_manage_members role ≡ true) ⊎ ((can_write_content role ≡ true) × (x.author_id ≡ user))

  may_moderate :
      (role : ProjectRole) (user : String) (x : Comment)
      → ((can_manage_members role ≡ false)
          × ((can_write_content role ≡ false) ⊎ ((user =s= x.author_id) ≡ false)))
        ⊎ Moderates role user x
  may_moderate role user x = elim (Bool-cases (can_manage_members role)) [
    | inl high ↦ inr (inl high)
    | inr plain ↦ elim (Bool-cases (can_write_content role)) [
      | inr bad ↦ inl (plain, inl bad)
      | inl writes ↦ elim (Bool-cases (user =s= x.author_id)) [
        | inr other ↦ inl (plain, inr other)
        | inl own ↦ inr (inr (writes, ground (arith, same_text user x.author_id)))
      ]
    ]
  ]

  run-missing :
      (now : ℕ) (e : CommentEdit) (id user : String) (w : CommentWorld c)
      → find_comment c id w.tables ≡ none
      → run now e id user w ≡ w
  unfolding run edit_comment delete_comment
  run-missing now (edits body) id user w gone = ground arith
  run-missing now deletes id user w gone = ground arith

  run-orphan :
      (now : ℕ) (e : CommentEdit) (id user : String) (x : Comment) (w : CommentWorld c)
      → find_comment c id w.tables ≡ some x
      → get_task_project_id c x.task_id w.tables ≡ none
      → run now e id user w ≡ w
  unfolding run edit_comment delete_comment
  run-orphan now (edits body) id user x w found gone = ground arith
  run-orphan now deletes id user x w found gone = ground arith

  run-outsider :
      (now : ℕ) (e : CommentEdit) (id user project : String) (x : Comment) (w : CommentWorld c)
      → find_comment c id w.tables ≡ some x
      → get_task_project_id c x.task_id w.tables ≡ some project
      → role_of project user ≡ none
      → run now e id user w ≡ w
  unfolding run edit_comment delete_comment require_author_or_moderator
  run-outsider now (edits body) id user project x w found in_it out = ground arith
  run-outsider now deletes id user project x w found in_it out = ground arith

  run-refused :
      (now : ℕ) (e : CommentEdit) (id user project : String) (role : ProjectRole) (x : Comment)
      (w : CommentWorld c)
      → find_comment c id w.tables ≡ some x
      → get_task_project_id c x.task_id w.tables ≡ some project
      → role_of project user ≡ some role
      → can_manage_members role ≡ false
      → (can_write_content role ≡ false) ⊎ ((user =s= x.author_id) ≡ false)
      → run now e id user w ≡ w
  unfolding run edit_comment delete_comment require_author_or_moderator
  run-refused now (edits body) id user project role x w found in_it is plain bad = ground arith
  run-refused now deletes id user project role x w found in_it is plain bad = ground arith

  -- A request to edit or to delete a comment leaves the tables and the events as they were, or the comment
  -- and its task are there, not deleted, and the user has a role in the project of the task with which
  -- members may be managed, or is the author and has a role with which content may be written.
  pub edit_comment-Moderates :
      (now : ℕ) (e : CommentEdit) (id user : String) (w : CommentWorld c)
      → (run now e id user w ≡ w)
        ⊎ ((x : Comment) × (project : String) × (role : ProjectRole) × (find_comment c id w.tables
              ≡ some x)
            × (get_task_project_id c x.task_id w.tables ≡ some project)
            × (role_of project user ≡ some role)
            × Moderates role user x)
  edit_comment-Moderates now e id user w = elim (Option-cases (find_comment c id w.tables)) [
    | inl gone ↦ inl (run-missing now e id user w gone)
    | inr (x, found) ↦ elim (Option-cases (get_task_project_id c x.task_id w.tables)) [
      | inl gone ↦ inl (run-orphan now e id user x w found gone)
      | inr (project, in_it) ↦ elim (Option-cases (role_of project user)) [
        | inl out ↦ inl (run-outsider now e id user project x w found in_it out)
        | inr (role, is) ↦ elim (may_moderate role user x) [
          | inl (plain, bad) ↦
              inl (run-refused now e id user project role x w found in_it is plain bad)
          | inr good ↦ inr (x, project, role, found, in_it, is, good)
        ]
      ]
    ]
  ]
