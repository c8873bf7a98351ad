-- ===== src/Comments/Access.antt =====
-- src/modules/comments/application/services/comment-access.service.ts. The role of a user in a project,
-- as `findMembership` gives it, is the argument `role_of`, and the users of a project with their
-- addresses are the argument `list_members`.
use collabai_backend.Prelude.{
  String, Bool, false, not, ◌||◌, Option, none, some, List, [], ◌∷◌, map, keep_if, ◌=s=◌,
  if◌then◌else◌, Result, ok, err,
}
use collabai_backend.Projects.Role.{ProjectRole, can_write_content, can_manage_members}
use collabai_backend.Projects.Entities.{TextOps}
use collabai_backend.Comments.Entities.{
  CommentError, not_project_member, comment_write_forbidden, comment_moderation_forbidden,
}

pub record MemberAddress : Type 0 where
  pub user_id : String
  pub email : String

module _ (role_of : String → String → Option ProjectRole) where
  unfoldable pub require_member : String → String → Result CommentError (Unit {0})
  require_member project user = elim (role_of project user) [
    | none ↦ err not_project_member
    | some role ↦ ok tt
  ]

  unfoldable pub require_writer : String → String → Result CommentError (Unit {0})
  require_writer project user = elim (role_of project user) [
    | none ↦ err not_project_member
    | some role ↦ if not (can_write_content role) then err comment_write_forbidden else ok tt
  ]

  unfoldable pub require_author_or_moderator :
      String → String → String → Result CommentError (Unit {0})
  require_author_or_moderator project user author = elim (role_of project user) [
    | none ↦ err not_project_member
    | some role ↦
        if can_manage_members role
        then ok tt
        else if not (can_write_content role)
        then err comment_write_forbidden
        else if user =s= author
        then ok tt
        else err comment_moderation_forbidden
  ]

abbrev has_text : List String → String → Bool
has_text [] x = false
has_text (y ∷ ys) x = y =s= x || has_text ys x

unfoldable pub resolve_mentioned_member_ids :
    TextOps → (String → List MemberAddress) → String → List String → List String
resolve_mentioned_member_ids text list_members project emails =
    let wanted = map text.to_lower emails in
    elim emails [
      | [] ↦ []
      | e ∷ es ↦
          map (λ m. m.user_id)
            (keep_if (λ m. has_text wanted (text.to_lower m.email)) (list_members project))
    ]
