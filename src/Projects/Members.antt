-- ===== src/Projects/Members.antt =====
-- src/modules/projects/application/commands: update-member-role.handler.ts and
-- remove-member.handler.ts.
use collabai_backend.Prelude.{String, not, ◌&&◌, if◌then◌else◌, ◌=s=◌, ◌>>=◌, ◌>>◌, throw, throw_if}
use collabai_backend.Projects.Role.{
  ProjectRole, is_owner, same_role, can_manage_members, can_assign_role, can_remove_member,
  would_leave_no_owner,
}
use collabai_backend.Projects.Entities.{ProjectView}
use collabai_backend.Projects.Repository.{ProjectRepository}
use collabai_backend.Projects.World.{
  Handler, fetch, look, save, not_project_member, project_not_found, member_not_found,
  insufficient_permission, last_owner,
}

module _ (repo : ProjectRepository) where
  -- The part behind the checks on the actor: the last-owner rule, the write and the view.
  commit_role : String → String → ProjectRole → ProjectRole → Handler repo.State ProjectView
  commit_role project target current role = do
    owners ← look (repo.count_owners project)
    throw_if (is_owner current && not (is_owner role) && would_leave_no_owner current owners)
        (last_owner "The project must have at least one owner. Assign another owner first.")
    save (repo.update_member_role project target role)
    fetch (repo.find_view_by_id project) project_not_found

  -- `UpdateMemberRoleHandler.execute`
  unfoldable pub update_member_role :
      String → String → String → ProjectRole → Handler repo.State ProjectView
  unfolding commit_role
  update_member_role project acting target_id role = do
    actor ← fetch (repo.find_membership project acting) not_project_member
    throw_if (acting =s= target_id)
        (insufficient_permission "You can't change your own role. Ask a project owner to do it.")
    throw_if (not (can_manage_members actor.role))
        (insufficient_permission "Only project owners and admins can change member roles.")
    target ← fetch (repo.find_membership project target_id) member_not_found
    if same_role target.role role
        then fetch (repo.find_view_by_id project) project_not_found
        else if not (can_assign_role actor.role target.role role)
        then throw (
            insufficient_permission
              "Only the project owner can grant, change or remove the owner and admin roles.")
        else commit_role project target_id target.role role

  abbrev removal_refused : ProjectRole → String
  removal_refused acting_role =
      if can_manage_members acting_role
      then "Only the project owner can remove an owner or admin."
      else "Only project owners and admins can remove members."

  abbrev orphan_refused : String → String → String
  orphan_refused acting target =
      if acting =s= target
      then "You're the last owner. Make someone else an owner before leaving the project."
      else "The project must have at least one owner. Assign another owner first."

  -- The reads of `RemoveMemberHandler.execute` and the errors that they lead to.
  unfoldable pub check_removal : String → String → String → Handler repo.State (Unit {0})
  check_removal project acting target_id = do
    actor ← fetch (repo.find_membership project acting) not_project_member
    target ← fetch (repo.find_membership project target_id) member_not_found
    throw_if (not (can_remove_member acting actor.role target_id target.role))
        (insufficient_permission (removal_refused actor.role))
    owners ← look (repo.count_owners project)
    throw_if (is_owner target.role && would_leave_no_owner target.role owners)
        (last_owner (orphan_refused acting target_id))

  -- `RemoveMemberHandler.execute`
  unfoldable pub remove_member : String → String → String → Handler repo.State ProjectView
  unfolding check_removal
  remove_member project acting target_id = do
    check_removal project acting target_id
    save (repo.remove_member project target_id)
    fetch (repo.find_view_by_id project) project_not_found
