-- ===== src/Projects/Persistence/Keys.antt =====
-- Keys and columns of the membership table.
use collabai_backend.Prelude.{
  ◌≤◌, ◌≡◌, refl, ◌≢◌, String, true, false, ◌&&◌, none, some, arith, ◌=s=◌, same_text, find?,
  count_if,
}
use mathlib.Core.Option
use collabai_backend.Common.Uuid.{is_valid_uuid}
use collabai_backend.Projects.Role.{
  ProjectRole, owner, admin, member, viewer, role_name, is_owner, parse_role,
}
use collabai_backend.Projects.Entities.{ProjectMember, Project, TextOps}
use collabai_backend.Projects.Repository.{ProjectRepository}
use collabai_backend.Projects.Persistence.Rows.{
  MemberRow, Client, Tables, member_key, live_project, owner_of, as_role, to_member_domain,
}
use collabai_backend.Projects.Persistence.Calls.{prisma_projects}

pub as_role-role_name : (r : ProjectRole) → as_role (role_name r) ≡ r
unfolding parse_role
as_role-role_name owner = refl
as_role-role_name admin = refl
as_role-role_name member = refl
as_role-role_name viewer = refl

-- The column `role` says "owner" exactly when the role read from it is owner.
pub owner_column : (text : String) → (text =s= "owner") ≡ is_owner (as_role text)
unfolding parse_role
owner_column text = ground arith

module _ (c : Client) (text : TextOps) where
  abbrev repo : ProjectRepository
  repo = prisma_projects c text

  pub member-valid :
      (p u : String) (s : repo.State) (m : ProjectMember)
      → repo.find_membership p u s ≡ some m
      → (is_valid_uuid p ≡ true) × (is_valid_uuid u ≡ true)
  unfolding prisma_projects
  member-valid p u s m h = ground arith

  pub one_member :
      (p u : String) (t : c.members.Contents) → count_if (member_key p u) (c.members.rows t) ≤ 1
  one_member p u t =
      c.members.unique
        (record {
          id = p;
          project_id = p;
          user_id = u;
          role = p;
          invited_by = none;
          joined_at = none;
          is_active = true;
        })
        t

  -- The row behind a membership that is found.
  pub member_row :
      (p u : String) (s : Tables c) (m : ProjectMember)
      → Option.map to_member_domain (c.members.find_first (member_key p u) s.members) ≡ some m
      → (r : MemberRow) × (find? (member_key p u) (c.members.rows s.members) ≡ some r)
        × (to_member_domain r ≡ m)
  member_row p u s m h = ground (arith, c.members.find_first_rows (member_key p u) s.members)

  -- The row that stands under a key counts as an owner of the project in the key.
  pub owner_of-keyed :
      (p u q : String) (r : MemberRow)
      → member_key p u r ≡ true
      → owner_of q r ≡ (p =s= q && is_owner (as_role r.role))
  unfolding owner_of
  owner_of-keyed p u q r h = ground (
    arith,
    owner_column r.role,
    same_text p r.project_id,
    same_text q r.project_id,
    same_text p q,
  )

  -- Two different keys name different rows.
  pub keys_apart :
      (p u q v : String) (r : MemberRow)
      → (p =s= q && u =s= v) ≡ false
      → member_key p u r ≡ true
      → member_key q v r ≡ false
  keys_apart p u q v r h k = ground (
    arith,
    same_text p q,
    same_text u v,
    same_text p r.project_id,
    same_text u r.user_id,
    same_text q r.project_id,
    same_text v r.user_id,
  )

  pub keys_swap :
      (p u q v : String) (r : MemberRow)
      → (p =s= q && u =s= v) ≡ false
      → member_key q v r ≡ true
      → member_key p u r ≡ false
  keys_swap p u q v r h k = ground (
    arith,
    same_text p q,
    same_text u v,
    same_text p r.project_id,
    same_text u r.user_id,
    same_text q r.project_id,
    same_text v r.user_id,
  )

  pub keys_equal : (p u q v : String) → (p =s= q && u =s= v) ≡ true → (p ≡ q) × (u ≡ v)
  keys_equal p u q v h = ground (arith, same_text p q, same_text u v)

  pub live_project-apart :
      (p q : String) (x : Project) → p ≡ q → live_project q x ≡ true → (p =s= x.id) ≡ true
  live_project-apart p q x e h = ground (arith, same_text q x.id, same_text p x.id)

  pub owner_of-apart :
      (p q : String) (x : MemberRow) → p ≢ q → owner_of q x ≡ true → (p =s= x.project_id) ≡ false
  unfolding owner_of
  owner_of-apart p q x other h = ground (arith, same_text q x.project_id, same_text p x.project_id)
