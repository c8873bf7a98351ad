-- ===== src/Projects/Persistence/Rows.antt =====
-- The rows of the tables and `class ProjectRepository`.
use collabai_backend.Prelude.{ℕ, String, Bool, not, ◌&&◌, Option, is_some, or_else, List, ◌=s=◌}
use mathlib.Core.Option
use collabai_backend.Common.Uuid.{uuid}
use collabai_backend.Prisma.{Table}
use collabai_backend.Projects.Role.{ProjectRole, member, parse_role, role_name}
use collabai_backend.Projects.Entities.{ProjectMember, Project, ProjectMemberView}

-- `ProjectMember`; the role is a text column.
pub record MemberRow : Type 0 where
  pub id : String
  pub project_id : String
  pub user_id : String
  pub role : String
  pub invited_by : Option String
  pub joined_at : Option ℕ
  pub is_active : Bool

pub record UserRow : Type 0 where
  pub id : String
  pub email : String
  pub name : String
  pub avatar_url : Option String

-- `ProjectInvitation`
pub record InvitationRow : Type 0 where
  pub id : String
  pub project_id : String
  pub email : String
  pub role : String
  pub token : String
  pub invited_by : String
  pub expires_at : ℕ
  pub created_at : ℕ

-- The columns of `Task` and `Notification` that a deletion reads.
pub record TaskKey : Type 0 where
  pub id : String
  pub project_id : String

pub record NotificationKey : Type 0 where
  pub id : String
  pub related_entity_type : Option String
  pub related_entity_id : Option String

-- @@unique([projectId, userId])
abbrev pub same_member : MemberRow → MemberRow → Bool
same_member a b = a.project_id =s= b.project_id && a.user_id =s= b.user_id

abbrev pub same_project : Project → Project → Bool
same_project a b = a.id =s= b.id

abbrev pub same_account : UserRow → UserRow → Bool
same_account a b = a.id =s= b.id

abbrev pub same_invitation : InvitationRow → InvitationRow → Bool
same_invitation a b = a.id =s= b.id

abbrev pub same_task : TaskKey → TaskKey → Bool
same_task a b = a.id =s= b.id

abbrev pub same_notification : NotificationKey → NotificationKey → Bool
same_notification a b = a.id =s= b.id

-- The client's delegates, the orders that a query may ask for, and the database's clock.
pub record Client : Type 1 where
  pub projects : Table Project same_project
  pub members : Table MemberRow same_member
  pub users : Table UserRow same_account
  pub invitations : Table InvitationRow same_invitation
  pub tasks : Table TaskKey same_task
  pub notifications : Table NotificationKey same_notification
  pub by_joined_at : List MemberRow → List MemberRow
  pub by_created_at : List InvitationRow → List InvitationRow
  pub clock : ℕ

pub record Tables (c : Client) : Type 0 where
  pub projects : c.projects.Contents
  pub members : c.members.Contents
  pub users : c.users.Contents
  pub invitations : c.invitations.Contents
  pub tasks : c.tasks.Contents
  pub notifications : c.notifications.Contents

-- `where: { projectId_userId: { projectId, userId } }`
abbrev pub member_key : String → String → MemberRow → Bool
member_key p u r = p =s= r.project_id && u =s= r.user_id

-- `where: { id, deletedAt: null }`
abbrev pub live_project : String → Project → Bool
live_project p r = p =s= r.id && not (is_some r.deleted_at)

unfoldable pub owner_of : String → MemberRow → Bool
unfolding ◌=s=◌
owner_of p r = p =s= r.project_id && r.role =s= "owner"

-- `asRole`
abbrev pub as_role : String → ProjectRole
as_role text = or_else (parse_role text) member

abbrev pub to_member_domain : MemberRow → ProjectMember
to_member_domain r = record {
  id = r.id;
  project_id = r.project_id;
  user_id = r.user_id;
  role = as_role r.role;
  invited_by = r.invited_by;
  joined_at = r.joined_at;
  is_active = r.is_active;
}

-- The row that `addMember` and `createWithOwner` insert.
abbrev pub to_member_row : ProjectMember → MemberRow
to_member_row m = record {
  id = uuid m.id;
  project_id = uuid m.project_id;
  user_id = uuid m.user_id;
  role = role_name m.role;
  invited_by = Option.map uuid m.invited_by;
  joined_at = m.joined_at;
  is_active = m.is_active;
}

-- The row that `createWithOwner` inserts.
abbrev pub to_project_row : Project → Project
to_project_row project = record project { id = uuid project.id; owner_id = uuid project.owner_id }

abbrev pub to_member_view : UserRow → MemberRow → ProjectMemberView
to_member_view user r = record {
  user_id = r.user_id;
  role = as_role r.role;
  name = user.name;
  email = user.email;
  avatar_url = user.avatar_url;
  joined_at = r.joined_at;
}
