-- ===== src/Projects/Role.antt =====
-- src/modules/projects/domain: the roles of project-role.value-object.ts and the rules of
-- project.domain.service.ts.
use collabai_backend.Prelude.{
  ℕ, String, Bool, true, false, not, ◌&&◌, ◌||◌, Option, none, some, leb, ◌==◌, ◌=s=◌,
  if◌then◌else◌,
}

pub data ProjectRole : Type 0 where
  owner admin member viewer : ProjectRole

-- `ProjectRoles.isValid`, with the role that it lets through.
unfoldable pub parse_role : String → Option ProjectRole
unfolding ◌=s=◌
parse_role role =
    if role =s= "owner"
    then some owner
    else if role =s= "admin"
    then some admin
    else if role =s= "member"
    then some member
    else if role =s= "viewer"
    then some viewer
    else none

abbrev pub role_name : ProjectRole → String
role_name owner = "owner"
role_name admin = "admin"
role_name member = "member"
role_name viewer = "viewer"

abbrev pub rank : ProjectRole → ℕ
rank owner = 3
rank admin = 2
rank member = 1
rank viewer = 0

abbrev pub is_owner : ProjectRole → Bool
is_owner owner = true
is_owner _ = false

-- `===` on roles.
abbrev pub same_role : ProjectRole → ProjectRole → Bool
same_role a b = rank a == rank b

-- `===` on a user id or null.
unfoldable pub same_user : Option String → Option String → Bool
same_user none none = true
same_user (some a) (some b) = a =s= b
same_user none (some b) = false
same_user (some a) none = false

abbrev pub at_least : ProjectRole → ProjectRole → Bool
at_least role min = leb (rank min) (rank role)

unfoldable pub can_manage_members : ProjectRole → Bool
can_manage_members role = at_least role admin

unfoldable pub can_edit_project : ProjectRole → Bool
can_edit_project role = at_least role admin

unfoldable pub can_delete_project : ProjectRole → Bool
can_delete_project role = is_owner role

unfoldable pub can_write_content : ProjectRole → Bool
can_write_content role = at_least role member

unfoldable pub can_change_assignee : ProjectRole → String → Option String → Option String → Bool
unfolding can_manage_members can_write_content same_user
can_change_assignee role actor current next =
    if same_user current next
    then true
    else if can_manage_members role
    then true
    else if not (can_write_content role)
    then false
    else (same_user current none && same_user next (some actor))
      || (same_user current (some actor) && same_user next none)

unfoldable pub can_work_on_task : ProjectRole → String → Option String → Bool
unfolding can_manage_members can_write_content same_user
can_work_on_task role actor assignee =
    if can_manage_members role
    then true
    else if not (can_write_content role)
    then false
    else same_user assignee none || same_user assignee (some actor)

-- `ProjectDomainService.canAssignRole`
unfoldable pub can_assign_role : ProjectRole → ProjectRole → ProjectRole → Bool
unfolding can_manage_members
can_assign_role actor_role target_role new_role =
    if not (can_manage_members actor_role)
    then false
    else if (at_least target_role admin || at_least new_role admin) && not (is_owner actor_role)
    then false
    else true

unfoldable pub would_leave_no_owner : ProjectRole → ℕ → Bool
would_leave_no_owner current_role owner_count = is_owner current_role && leb owner_count 1

unfoldable pub can_remove_member : String → ProjectRole → String → ProjectRole → Bool
unfolding can_manage_members
can_remove_member actor actor_role target target_role =
    if actor =s= target
    then true
    else if not (can_manage_members actor_role)
    then false
    else if at_least target_role admin && not (is_owner actor_role)
    then false
    else true
