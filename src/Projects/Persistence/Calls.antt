-- ===== src/Projects/Persistence/Calls.antt =====
-- `class ProjectRepository`. Reads and writes that name an identifier which is no UUID find nothing
-- and do nothing; the others reach the database as `uuid` spells them. A transaction that fails leaves the old tables.
use collabai_backend.Prelude.{
  ℕ, String, Bool, false, not, ◌&&◌, ◌||◌, Option, none, some, is_some, or_else, List, [], map, ltb,
  find?, ◌=s=◌, if◌then◌else◌,
}
use mathlib.Core.Option
use mathlib.Core.List.{filter_map}
use collabai_backend.Common.Uuid.{is_valid_uuid, uuid}
use collabai_backend.Projects.Role.{ProjectRole, role_name}
use collabai_backend.Projects.Entities.{
  ProjectMember, Project, ProjectView, ProjectMemberView, Invitation, InvitationData, UserRef,
  TextOps,
}
use collabai_backend.Projects.Repository.{ProjectRepository}
use collabai_backend.Projects.Persistence.Rows.{
  MemberRow, InvitationRow, TaskKey, NotificationKey, Client, Tables, member_key, live_project,
  owner_of, to_member_domain, to_member_row, to_project_row, to_member_view,
}

infixl 5 ◌>>=◌
abbrev ◌>>=◌ : {A B : Type 0} → Option A → (A → Option B) → Option B
none >>= f = none
some a >>= f = f a

module _ (c : Client) (text : TextOps) where
  create_with_owner : Project → ProjectMember → Tables c → Option (Tables c)
  create_with_owner project owner_member t = do
    projects ← c.projects.create (to_project_row project) t.projects
    members ← c.members.create (to_member_row owner_member) t.members
    some (record t { projects = projects; members = members })

  find_by_id : String → Tables c → Option Project
  find_by_id id t =
      if is_valid_uuid id then c.projects.find_first (live_project (uuid id)) t.projects else none

  members_view : String → Tables c → List ProjectMemberView
  members_view id t =
      filter_map
        (λ r.
          Option.map (λ u. to_member_view u r)
            (c.users.find_first (λ u. u.id =s= r.user_id) t.users))
        (c.by_joined_at (c.members.find_many (λ r. r.project_id =s= uuid id) t.members))

  find_view_by_id : String → Tables c → Option ProjectView
  find_view_by_id id t =
      if is_valid_uuid id
      then Option.map (λ p. record { project = p; members = members_view id t })
          (c.projects.find_first (live_project (uuid id)) t.projects)
      else none

  exists_by_owner_and_name : String → String → Tables c → Bool
  exists_by_owner_and_name owner_id name t =
      if is_valid_uuid owner_id
      then ltb 0 (
          c.projects.count
            (λ p.
              p.owner_id =s= uuid owner_id
              && p.name =s= text.trim name
              && not (is_some p.deleted_at))
            t.projects)
      else false

  -- `updatedAt` is set by the client.
  edit_project : Project → Project → Project
  edit_project project r = record r {
    name = project.name;
    description = project.description;
    icon = project.icon;
    color = project.color;
    is_archived = project.is_archived;
    updated_at = c.clock;
  }

  update : Project → Tables c → Option (Tables c)
  unfolding edit_project
  update project t =
      if is_valid_uuid project.id
      then (do
        projects ←
            c.projects.update (λ r. uuid project.id =s= r.id) (edit_project project) t.projects
        some (record t { projects = projects }))
      else some t

  -- `relatedEntityType`, `relatedEntityId`: the project, or one of its tasks.
  about_project : String → List TaskKey → NotificationKey → Bool
  unfolding ◌=s=◌
  about_project id tasks n =
      (or_else n.related_entity_type "" =s= "project" && or_else n.related_entity_id "" =s= id)
      || (or_else n.related_entity_type "" =s= "task"
          && is_some (find? (λ (k : TaskKey). k.id =s= or_else n.related_entity_id "") tasks))

  -- Behind the deletion of the project stand the cascades of prisma/schema.prisma to its members,
  -- invitations and tasks.
  delete : String → Tables c → Option (Tables c)
  unfolding about_project
  delete id t =
      if is_valid_uuid id
      then (do
        projects ← c.projects.delete (λ r. uuid id =s= r.id) t.projects
        some (record {
          projects = projects;
          members = c.members.delete_many (λ r. uuid id =s= r.project_id) t.members;
          users = t.users;
          invitations = c.invitations.delete_many (λ r. uuid id =s= r.project_id) t.invitations;
          tasks = c.tasks.delete_many (λ k. uuid id =s= k.project_id) t.tasks;
          notifications =
              c.notifications.delete_many
                (about_project (uuid id)
                  (c.tasks.find_many (λ k. k.project_id =s= uuid id) t.tasks))
                t.notifications;
        }))
      else some t

  find_membership : String → String → Tables c → Option ProjectMember
  find_membership p u t =
      if is_valid_uuid p && is_valid_uuid u
      then Option.map to_member_domain
          (c.members.find_first (member_key (uuid p) (uuid u)) t.members)
      else none

  add_member : ProjectMember → Tables c → Option (Tables c)
  add_member m t =
      if is_valid_uuid m.id && is_valid_uuid m.project_id && is_valid_uuid m.user_id
      then (do
        members ← c.members.create (to_member_row m) t.members
        some (record t { members = members }))
      else some t

  abbrev set_role : ProjectRole → MemberRow → MemberRow
  set_role role r = record r { role = role_name role }

  update_member_role : String → String → ProjectRole → Tables c → Option (Tables c)
  update_member_role p u role t =
      if is_valid_uuid p && is_valid_uuid u
      then (do
        members ← c.members.update (member_key (uuid p) (uuid u)) (set_role role) t.members
        some (record t { members = members }))
      else some t

  remove_member : String → String → Tables c → Option (Tables c)
  remove_member p u t =
      if is_valid_uuid p && is_valid_uuid u
      then (do
        members ← c.members.delete (member_key (uuid p) (uuid u)) t.members
        some (record t { members = members }))
      else some t

  count_owners : String → Tables c → ℕ
  count_owners p t = if is_valid_uuid p then c.members.count (owner_of (uuid p)) t.members else 0

  find_user_by_email : String → Tables c → Option UserRef
  find_user_by_email address t =
      Option.map (λ u. record { id = u.id; name = u.name })
        (c.users.find_first (λ u. u.email =s= text.trim (text.to_lower address)) t.users)

  -- `inv` with the name of the inviter joined to it.
  to_invitation : Tables c → InvitationRow → Invitation
  to_invitation t inv = record {
    id = inv.id;
    project_id = inv.project_id;
    email = inv.email;
    role = inv.role;
    token = inv.token;
    invited_by = inv.invited_by;
    inviter_name =
        Option.map (λ u. u.name) (c.users.find_first (λ u. u.id =s= inv.invited_by) t.users);
    expires_at = inv.expires_at;
    created_at = inv.created_at;
  }

  -- `where: { projectId_email: … }`
  invitation_key : InvitationData → InvitationRow → Bool
  invitation_key d r =
      r.project_id =s= uuid d.project_id && r.email =s= text.trim (text.to_lower d.email)

  new_invitation : InvitationData → InvitationRow
  new_invitation d = record {
    id = uuid d.id;
    project_id = uuid d.project_id;
    email = text.trim (text.to_lower d.email);
    role = d.role;
    token = d.token;
    invited_by = uuid d.invited_by;
    expires_at = d.expires_at;
    created_at = c.clock;
  }

  renew_invitation : InvitationData → InvitationRow → InvitationRow
  renew_invitation d r = record r {
    role = d.role;
    token = d.token;
    invited_by = uuid d.invited_by;
    expires_at = d.expires_at;
  }

  -- `upsert`
  create_invitation : InvitationData → Tables c → Option (Tables c)
  unfolding invitation_key new_invitation renew_invitation
  create_invitation d t = do
    invitations ←
        if is_some (c.invitations.find_first (invitation_key d) t.invitations)
        then c.invitations.update (invitation_key d) (renew_invitation d) t.invitations
        else c.invitations.create (new_invitation d) t.invitations
    some (record t { invitations = invitations })

  find_invitation_by_token : String → Tables c → Option Invitation
  find_invitation_by_token token t =
      Option.map (to_invitation t) (c.invitations.find_first (λ r. r.token =s= token) t.invitations)

  find_invitation_by_id : String → Tables c → Option Invitation
  find_invitation_by_id id t =
      if is_valid_uuid id
      then Option.map (to_invitation t)
          (c.invitations.find_first (λ r. r.id =s= uuid id) t.invitations)
      else none

  -- The filter compares without regard to case.
  list_invitations_by_email : String → Tables c → List Invitation
  unfolding ◌=s=◌
  list_invitations_by_email address t =
      let normalized = text.to_lower (text.trim address) in
      if normalized =s= ""
      then []
      else map (to_invitation t) (
          c.by_created_at
            (c.invitations.find_many (λ r. text.to_lower r.email =s= normalized) t.invitations))

  -- A deletion that is refused is passed over: `.catch(() => null)`.
  delete_invitation : String → Tables c → Tables c
  delete_invitation id t =
      if is_valid_uuid id
      then record t {
        invitations =
            or_else (c.invitations.delete (λ r. r.id =s= uuid id) t.invitations) t.invitations;
      }
      else t

  unfoldable pub prisma_projects : ProjectRepository
  unfolding create_with_owner find_by_id members_view find_view_by_id exists_by_owner_and_name
      update delete find_membership add_member update_member_role remove_member count_owners
      find_user_by_email to_invitation create_invitation find_invitation_by_token
      find_invitation_by_id list_invitations_by_email delete_invitation
  prisma_projects = record {
    State = Tables c;
    create_with_owner = create_with_owner;
    find_by_id = find_by_id;
    find_view_by_id = find_view_by_id;
    exists_by_owner_and_name = exists_by_owner_and_name;
    update = update;
    delete = delete;
    find_membership = find_membership;
    add_member = add_member;
    update_member_role = update_member_role;
    remove_member = remove_member;
    count_owners = count_owners;
    find_user_by_email = find_user_by_email;
    create_invitation = create_invitation;
    find_invitation_by_token = find_invitation_by_token;
    find_invitation_by_id = find_invitation_by_id;
    list_invitations_by_email = list_invitations_by_email;
    delete_invitation = delete_invitation;
  }
