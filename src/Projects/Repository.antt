-- ===== src/Projects/Repository.antt =====
-- src/modules/projects/domain/repositories/project.repository.interface.ts: the port through which
-- the handlers reach the store. A read is a function of the store's state, a write gives the new
-- state, or `none` where the database refuses and the call throws.
use collabai_backend.Prelude.{
  ℕ, ◌+◌, ◌≤◌, ◌≡◌, ◌≢◌, String, Bool, true, ◌&&◌, Option, none, some, is_some, List, ◌=s=◌,
  if◌then◌else◌,
}
use mathlib.Core.Option
use collabai_backend.Common.Uuid.{is_valid_uuid, uuid}
use collabai_backend.Projects.Role.{ProjectRole, is_owner}
use collabai_backend.Projects.Entities.{
  ProjectMember, Project, ProjectView, Invitation, InvitationData, UserRef,
}

pub record ProjectRepository : Type 1 where
  pub State : Type 0
  pub create_with_owner : Project → ProjectMember → State → Option State
  pub find_by_id : String → State → Option Project
  pub find_view_by_id : String → State → Option ProjectView
  pub exists_by_owner_and_name : String → String → State → Bool
  pub update : Project → State → Option State
  pub delete : String → State → Option State
  pub find_membership : String → String → State → Option ProjectMember
  pub add_member : ProjectMember → State → Option State
  pub update_member_role : String → String → ProjectRole → State → Option State
  pub remove_member : String → String → State → Option State
  pub count_owners : String → State → ℕ
  pub find_user_by_email : String → State → Option UserRef
  pub create_invitation : InvitationData → State → Option State
  pub find_invitation_by_token : String → State → Option Invitation
  pub find_invitation_by_id : String → State → Option Invitation
  pub list_invitations_by_email : String → State → List Invitation
  pub delete_invitation : String → State → State

-- One owner, if the test holds.
abbrev pub one_if : Bool → ℕ
one_if b = if b then 1 else 0

abbrev pub exists : (repo : ProjectRepository) → String → repo.State → Bool
exists repo q s = is_some (repo.find_by_id q s)

-- The database knows an identifier whatever the case of its letters.
abbrev pub same_key : String → String → String → String → Bool
same_key p u q v = uuid p =s= uuid q && uuid u =s= uuid v

abbrev pub with_role : ProjectRole → Option ProjectMember → Option ProjectMember
with_role r none = none
with_role r (some m) = some (record m { role = r })

-- The membership as the database gives it back.
abbrev pub as_stored : ProjectMember → ProjectMember
as_stored m = record m {
  id = uuid m.id;
  project_id = uuid m.project_id;
  user_id = uuid m.user_id;
  invited_by = Option.map uuid m.invited_by;
}

-- What an update of the project `old` by `pr` leaves, at the time `now`.
abbrev pub edited : Project → ℕ → Project → Project
edited pr now old = record old {
  name = pr.name;
  description = pr.description;
  icon = pr.icon;
  color = pr.color;
  is_archived = pr.is_archived;
  updated_at = now;
}

-- What the handlers rely on: a write changes the projects and the memberships that it names, and no
-- other. `p`, `u` name what is written, `q`, `v` what is read afterwards.
pub record IsLawful (repo : ProjectRepository) : Type 0 where
  pub view_of_project :
      (q : String) (s : repo.State) → is_some (repo.find_view_by_id q s) ≡ exists repo q s
  pub id_of_project :
      (q : String) (s : repo.State) (pr : Project) → repo.find_by_id q s ≡ some pr → pr.id ≡ uuid q
  pub project-valid :
      (q : String) (s : repo.State) → exists repo q s ≡ true → is_valid_uuid q ≡ true
  -- Two spellings of an identifier name the same thing.
  pub membership-spelling :
      (p u q v : String) (s : repo.State)
      → is_valid_uuid p && is_valid_uuid u ≡ true
      → is_valid_uuid q && is_valid_uuid v ≡ true
      → same_key p u q v ≡ true
      → repo.find_membership p u s ≡ repo.find_membership q v s
  pub owners-spelling :
      (p q : String) (s : repo.State)
      → is_valid_uuid p ≡ true
      → is_valid_uuid q ≡ true
      → uuid p ≡ uuid q
      → repo.count_owners p s ≡ repo.count_owners q s
  pub create-others :
      (pr : Project) (m : ProjectMember) (q : String) (s s' : repo.State)
      → repo.create_with_owner pr m s ≡ some s'
      → uuid pr.id ≢ uuid q
      → repo.find_by_id q s' ≡ repo.find_by_id q s
  pub create-owners :
      (pr : Project) (m : ProjectMember) (q : String) (s s' : repo.State)
      → repo.create_with_owner pr m s ≡ some s'
      → is_valid_uuid m.project_id ≡ true
      → is_valid_uuid q ≡ true
      → repo.count_owners q s'
        ≡ repo.count_owners q s + one_if (uuid m.project_id =s= uuid q && is_owner m.role)
  pub create-membership :
      (pr : Project) (m : ProjectMember) (q v : String) (s s' : repo.State)
      → repo.create_with_owner pr m s ≡ some s'
      → is_valid_uuid q && is_valid_uuid v ≡ true
      → repo.find_membership q v s' ≡ (
          if same_key m.project_id m.user_id q v
          then some (as_stored m)
          else repo.find_membership q v s)
  pub update-exists :
      (pr : Project) (q : String) (s s' : repo.State)
      → repo.update pr s ≡ some s'
      → exists repo q s' ≡ exists repo q s
  pub update-others :
      (pr : Project) (q : String) (s s' : repo.State)
      → repo.update pr s ≡ some s'
      → uuid pr.id ≢ uuid q
      → repo.find_by_id q s' ≡ repo.find_by_id q s
  pub update-project :
      (pr old : Project) (q : String) (s s' : repo.State)
      → repo.update pr s ≡ some s'
      → is_valid_uuid pr.id ≡ true
      → uuid pr.id ≡ uuid q
      → repo.find_by_id q s ≡ some old
      → (now : ℕ) × (repo.find_by_id q s' ≡ some (edited pr now old))
  pub update-membership :
      (pr : Project) (q v : String) (s s' : repo.State)
      → repo.update pr s ≡ some s'
      → repo.find_membership q v s' ≡ repo.find_membership q v s
  pub update-owners :
      (pr : Project) (q : String) (s s' : repo.State)
      → repo.update pr s ≡ some s'
      → repo.count_owners q s' ≡ repo.count_owners q s
  pub delete-exists :
      (p q : String) (s s' : repo.State)
      → repo.delete p s ≡ some s'
      → exists repo q s' ≡ true
      → (is_valid_uuid p ≡ true → uuid p ≢ uuid q) × (exists repo q s ≡ true)
  pub delete-owners :
      (p q : String) (s s' : repo.State)
      → repo.delete p s ≡ some s'
      → uuid p ≢ uuid q
      → repo.count_owners q s' ≡ repo.count_owners q s
  pub delete-others :
      (p q : String) (s s' : repo.State)
      → repo.delete p s ≡ some s'
      → uuid p ≢ uuid q
      → repo.find_by_id q s' ≡ repo.find_by_id q s
  pub delete-membership :
      (p q v : String) (s s' : repo.State)
      → repo.delete p s ≡ some s'
      → uuid p ≢ uuid q
      → repo.find_membership q v s' ≡ repo.find_membership q v s
  pub member-valid :
      (p u : String) (s : repo.State) (m : ProjectMember)
      → repo.find_membership p u s ≡ some m
      → (is_valid_uuid p ≡ true) × (is_valid_uuid u ≡ true)
  pub add-project :
      (m : ProjectMember) (q : String) (s s' : repo.State)
      → repo.add_member m s ≡ some s'
      → repo.find_by_id q s' ≡ repo.find_by_id q s
  pub add-owners :
      (m : ProjectMember) (q : String) (s s' : repo.State)
      → repo.add_member m s ≡ some s'
      → repo.count_owners q s ≤ repo.count_owners q s'
  pub add-membership :
      (m : ProjectMember) (q v : String) (s s' : repo.State)
      → repo.add_member m s ≡ some s'
      → is_valid_uuid m.id ≡ true
      → is_valid_uuid m.project_id ≡ true
      → is_valid_uuid m.user_id ≡ true
      → is_valid_uuid q && is_valid_uuid v ≡ true
      → repo.find_membership q v s' ≡ (
          if same_key m.project_id m.user_id q v
          then some (as_stored m)
          else repo.find_membership q v s)
  pub role-project :
      (p u : String) (r : ProjectRole) (q : String) (s s' : repo.State)
      → repo.update_member_role p u r s ≡ some s'
      → repo.find_by_id q s' ≡ repo.find_by_id q s
  pub role-owners :
      (p u : String) (r : ProjectRole) (q : String) (m : ProjectMember) (s s' : repo.State)
      → repo.find_membership p u s ≡ some m
      → repo.update_member_role p u r s ≡ some s'
      → is_valid_uuid q ≡ true
      → repo.count_owners q s' + one_if (uuid p =s= uuid q && is_owner m.role)
        ≡ repo.count_owners q s + one_if (uuid p =s= uuid q && is_owner r)
  pub role-membership :
      (p u : String) (r : ProjectRole) (q v : String) (m : ProjectMember) (s s' : repo.State)
      → repo.find_membership p u s ≡ some m
      → repo.update_member_role p u r s ≡ some s'
      → repo.find_membership q v s' ≡ (
          if same_key p u q v
          then with_role r (repo.find_membership q v s)
          else repo.find_membership q v s)
  pub remove-project :
      (p u q : String) (s s' : repo.State)
      → repo.remove_member p u s ≡ some s'
      → repo.find_by_id q s' ≡ repo.find_by_id q s
  pub remove-owners :
      (p u q : String) (m : ProjectMember) (s s' : repo.State)
      → repo.find_membership p u s ≡ some m
      → repo.remove_member p u s ≡ some s'
      → is_valid_uuid q ≡ true
      → repo.count_owners q s' + one_if (uuid p =s= uuid q && is_owner m.role)
        ≡ repo.count_owners q s
  pub remove-membership :
      (p u q v : String) (m : ProjectMember) (s s' : repo.State)
      → repo.find_membership p u s ≡ some m
      → repo.remove_member p u s ≡ some s'
      → repo.find_membership q v s'
        ≡ (if same_key p u q v then none else repo.find_membership q v s)
  pub invite-project :
      (d : InvitationData) (q : String) (s s' : repo.State)
      → repo.create_invitation d s ≡ some s'
      → repo.find_by_id q s' ≡ repo.find_by_id q s
  pub invite-owners :
      (d : InvitationData) (q : String) (s s' : repo.State)
      → repo.create_invitation d s ≡ some s'
      → repo.count_owners q s' ≡ repo.count_owners q s
  pub invite-membership :
      (d : InvitationData) (q v : String) (s s' : repo.State)
      → repo.create_invitation d s ≡ some s'
      → repo.find_membership q v s' ≡ repo.find_membership q v s
  pub revoke-project :
      (i q : String) (s : repo.State)
      → repo.find_by_id q (repo.delete_invitation i s) ≡ repo.find_by_id q s
  pub revoke-owners :
      (i q : String) (s : repo.State)
      → repo.count_owners q (repo.delete_invitation i s) ≡ repo.count_owners q s
  pub revoke-membership :
      (i q v : String) (s : repo.State)
      → repo.find_membership q v (repo.delete_invitation i s) ≡ repo.find_membership q v s
