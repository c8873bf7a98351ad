-- ===== src/Projects/Settings.antt =====
-- src/modules/projects/application/commands: create-project, update-project and delete-project. The
-- board that `create-project` makes through the command bus belongs to the boards module: it is the
-- argument `create_board`, a call that may throw.
use collabai_backend.Prelude.{
  ℕ, String, Bool, false, not, Option, none, some, if◌then◌else◌, ◌=s=◌, ◌>>=◌, ◌>>◌, throw_if,
}
use collabai_backend.Projects.Role.{owner, can_edit_project, can_delete_project}
use collabai_backend.Projects.Entities.{
  Project, ProjectMember, ProjectView, ProjectPatch, TextOps, create_member, create_project_entity,
  apply_project_update,
}
use collabai_backend.Projects.Repository.{ProjectRepository}
use collabai_backend.Projects.World.{
  Handler, fetch, look, save, not_project_member, project_not_found, duplicate_project_name,
  insufficient_permission,
}

-- What `CreateProjectCommand` carries, with the two identifiers that `uuidv4()` draws.
pub record CreateProjectCommand : Type 0 where
  pub owner_id : String
  pub name : String
  pub description : Option String
  pub icon : Option String
  pub color : Option String
  pub fresh_project_id : String
  pub fresh_member_id : String

-- The two rows that `create-project` inserts.
abbrev pub new_project : TextOps → ℕ → CreateProjectCommand → Project
new_project text now c = create_project_entity text now (record {
  id = c.fresh_project_id;
  owner_id = c.owner_id;
  name = text.trim c.name;
  description = c.description;
  icon = c.icon;
  color = c.color;
})

abbrev pub new_owner : ℕ → CreateProjectCommand → ProjectMember
new_owner now c = create_member now c.fresh_member_id c.fresh_project_id c.owner_id owner none

module _ (repo : ProjectRepository) (text : TextOps) where
  -- `CreateProjectHandler.execute`
  unfoldable pub create_project :
      ℕ
      → (String → String → Handler repo.State (Unit {0}))
      → CreateProjectCommand
      → Handler repo.State ProjectView
  create_project now create_board c = do
    taken ← look (repo.exists_by_owner_and_name c.owner_id (text.trim c.name))
    throw_if taken duplicate_project_name
    save (repo.create_with_owner (new_project text now c) (new_owner now c))
    create_board c.owner_id c.fresh_project_id
    fetch (repo.find_view_by_id c.fresh_project_id) project_not_found

  -- A new name, unless it is absent, empty once trimmed, or the present one.
  changed_name : Option String → String → Option String
  unfolding ◌=s=◌
  changed_name none old = none
  changed_name (some new) old =
      if text.trim new =s= ""
      then none
      else if text.trim new =s= old
      then none
      else some (text.trim new)

  name_taken : String → Option String → repo.State → Bool
  name_taken owner_id none s = false
  name_taken owner_id (some name) s = repo.exists_by_owner_and_name owner_id name s

  -- `UpdateProjectHandler.execute`
  unfoldable pub update_project :
      ℕ → String → String → ProjectPatch → Handler repo.State ProjectView
  unfolding changed_name name_taken
  update_project now project_id acting patch = do
    membership ← fetch (repo.find_membership project_id acting) not_project_member
    throw_if (not (can_edit_project membership.role))
        (insufficient_permission "Only project owners and admins can edit project settings.")
    project ← fetch (repo.find_by_id project_id) project_not_found
    taken ← look (name_taken project.owner_id (changed_name patch.name project.name))
    throw_if taken duplicate_project_name
    save (repo.update (apply_project_update text now patch project))
    fetch (repo.find_view_by_id project.id) project_not_found

  -- `DeleteProjectHandler.execute`
  unfoldable pub delete_project : String → String → Handler repo.State (Unit {0})
  delete_project project_id acting = do
    membership ← fetch (repo.find_membership project_id acting) not_project_member
    throw_if (not (can_delete_project membership.role))
        (insufficient_permission "Only the owner can delete a project")
    save (repo.delete project_id)
