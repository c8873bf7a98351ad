-- ===== src/Projects/Invitations.antt =====
-- src/modules/projects/application/commands: invite-member, accept-invitation, resend-invitation and
-- revoke-invitation; and infrastructure/event-handlers/invitation-events.listener.ts. Identifiers and
-- tokens that `uuidv4()` draws, the clock and the front end's origin are arguments.
use collabai_backend.Prelude.{
  ℕ, suc, ◌+◌, ◌*◌, String, not, Option, none, some, List, [], ◌∷◌, ok, or_else, ltb, if◌then◌else◌,
  ◌=s=◌, ◌>>=◌, ◌>>◌, pure, throw, throw_if, is_some, find?,
}
use Prim.Native.String
use collabai_backend.Projects.Role.{ProjectRole, viewer, member, parse_role, role_name}
use collabai_backend.Projects.Role.{can_manage_members, can_assign_role}
use collabai_backend.Projects.Entities.{ProjectView, Invitation, UserRef, TextOps, create_member}
use collabai_backend.Projects.Repository.{ProjectRepository}
use collabai_backend.Projects.World.{
  World, Handler, fetch, look, save, publish, email, member_added, not_project_member,
  project_not_found, invitation_not_found, invitation_expired, wrong_email, insufficient_permission,
  member_already_exists,
}

-- What a call draws from its surroundings.
pub record Surroundings : Type 0 where
  pub now : ℕ
  pub fresh_id : String
  pub fresh_token : String
  pub frontend_origin : String

-- 7 * 24 * 60 * 60 * 1000
abbrev pub invitation_ttl : ℕ
invitation_ttl = 7 * 24 * 60 * 60 * 1000

-- `name || 'A team member'`: the empty name counts as none.
name_or_default : Option String → String
unfolding ◌=s=◌
name_or_default none = "A team member"
name_or_default (some name) = if name =s= "" then "A team member" else name

-- `ProjectRoles.isValid(role) ? role : 'member'`
abbrev pub role_or_member : String → ProjectRole
role_or_member text = or_else (parse_role text) member

infixl 60 ◌^◌
abbrev ◌^◌ : String → String → String
a ^ b = String.◌++◌ a b

-- `normalizeEmail` of accept-invitation.handler.ts.
abbrev pub normalize_email : TextOps → String → String
normalize_email text address = text.to_lower (text.trim address)

module _ (repo : ProjectRepository) (text : TextOps) where
  abbrev invitation_mail : String → ProjectView → String → String → Handler repo.State (Unit {0})
  invitation_mail to project inviter url = publish (
      email (record {
        to = to;
        project_name = project.project.name;
        inviter_name = inviter;
        invite_url = url;
      }))

  inviter_of : String → ProjectView → String
  inviter_of acting project =
      name_or_default (elim (find? (λ m. m.user_id =s= acting) project.members) [
        | none ↦ none
        | some m ↦ some m.name
      ])

  -- The invitee has an account: a membership is created at once.
  invite_user :
      Surroundings
      → String
      → String
      → String
      → ProjectRole
      → ProjectView
      → UserRef
      → Handler repo.State (Unit {0})
  unfolding inviter_of name_or_default
  invite_user env project acting address role view invitee = do
    existing ← look (repo.find_membership project invitee.id)
    throw_if (is_some existing)
        (member_already_exists (address ^ " is already a member of this project."))
    save
        (repo.add_member (create_member env.now env.fresh_id project invitee.id role (some acting)))
    invitation_mail address view (inviter_of acting view)
        (env.frontend_origin ^ "/board/" ^ project)

  -- Nobody has registered the address: an invitation with a token is stored.
  invite_address :
      Surroundings
      → String
      → String
      → String
      → ProjectRole
      → ProjectView
      → Handler repo.State (Unit {0})
  unfolding inviter_of name_or_default
  invite_address env project acting address role view = do
    save (
        repo.create_invitation (record {
          id = env.fresh_id;
          project_id = project;
          email = address;
          role = role_name role;
          token = env.fresh_token;
          invited_by = acting;
          expires_at = env.now + invitation_ttl;
        }))
    invitation_mail address view (inviter_of acting view)
        (env.frontend_origin ^ "/accept-invite?token=" ^ env.fresh_token)

  -- `InviteMemberHandler.execute`
  unfoldable pub invite_member :
      Surroundings → String → String → String → ProjectRole → Handler repo.State ProjectView
  unfolding invite_user invite_address
  invite_member env project acting address role = do
    actor ← fetch (repo.find_membership project acting) not_project_member
    throw_if (not (can_manage_members actor.role))
        (insufficient_permission "Only project owners and admins can invite members.")
    throw_if (not (can_assign_role actor.role viewer role))
        (insufficient_permission "Only the project owner can grant the admin role.")
    view ← fetch (repo.find_view_by_id project) project_not_found
    let clean = text.trim (text.to_lower address)
    invitee ← look (repo.find_user_by_email clean)
    elim invitee [
      | none ↦ invite_address env project acting clean role view
      | some user ↦ invite_user env project acting clean role view user
    ]
    fetch (repo.find_view_by_id project) project_not_found

  abbrev discard : String → Handler repo.State (Unit {0})
  discard id w = (ok tt, record w { store = repo.delete_invitation id w.store })

  -- The membership that an invitation grants, unless there is one.
  join : Surroundings → Invitation → String → Handler repo.State (Unit {0})
  join env inv user w = elim (repo.find_membership inv.project_id user w.store) [
    | some existing ↦ (ok tt, w)
    | none ↦
        save
          (repo.add_member (
            create_member env.now env.fresh_id inv.project_id user (role_or_member inv.role)
              (some inv.invited_by)))
          w
  ]

  -- `AcceptInvitationHandler.execute`
  unfoldable pub accept_invitation :
      Surroundings → String → String → String → Handler repo.State ProjectView
  unfolding join
  accept_invitation env token user user_email = do
    inv ← fetch (repo.find_invitation_by_token token) invitation_not_found
    if ltb inv.expires_at env.now then discard inv.id >> throw invitation_expired else pure tt
    throw_if (not (normalize_email text inv.email =s= normalize_email text user_email)) wrong_email
    join env inv user
    discard inv.id
    fetch (repo.find_view_by_id inv.project_id) project_not_found

  -- `ResendInvitationHandler.execute`
  unfoldable pub resend_invitation :
      Surroundings → String → String → String → Handler repo.State (Unit {0})
  unfolding name_or_default
  resend_invitation env project acting invitation = do
    actor ← fetch (repo.find_membership project acting) not_project_member
    throw_if (not (can_manage_members actor.role))
        (insufficient_permission "Only project owners and admins can resend invitations.")
    inv ← fetch (repo.find_invitation_by_id invitation) invitation_not_found
    throw_if (not (inv.project_id =s= project)) invitation_not_found
    view ← fetch (repo.find_view_by_id project) project_not_found
    save (
        repo.create_invitation (record {
          id = inv.id;
          project_id = project;
          email = inv.email;
          role = inv.role;
          token = env.fresh_token;
          invited_by = acting;
          expires_at = env.now + invitation_ttl;
        }))
    invitation_mail inv.email view (name_or_default inv.inviter_name)
        (env.frontend_origin ^ "/accept-invite?token=" ^ env.fresh_token)

  -- `RevokeInvitationHandler.execute`: an invitation that is not there, or belongs to another
  -- project, is passed over in silence.
  unfoldable pub revoke_invitation : String → String → String → Handler repo.State (Unit {0})
  revoke_invitation project acting invitation = do
    actor ← fetch (repo.find_membership project acting) not_project_member
    throw_if (not (can_manage_members actor.role))
        (insufficient_permission "Only project owners and admins can revoke invitations.")
    found ← look (repo.find_invitation_by_id invitation)
    elim found [
      | none ↦ pure tt
      | some inv ↦ if inv.project_id =s= project then discard invitation else pure tt
    ]

  settle : Surroundings → String → Invitation → Handler repo.State (Unit {0})
  unfolding join
  settle env user inv = do
    had ← look (repo.find_membership inv.project_id user)
    join env inv user
    if is_some had
        then pure tt
        else publish (member_added inv.project_id inv.invited_by user (role_or_member inv.role))
    discard inv.id

  -- One round of the loop in `InvitationEventsListener.onEmailVerified`, behind its `try`: an error
  -- is logged and the loop goes on from what was written.
  unfoldable pub take_invitation :
      Surroundings → String → Invitation → World repo.State → World repo.State
  unfolding settle
  take_invitation env user inv w =
      if ltb inv.expires_at env.now then w else (settle env user inv w).1

  -- The loop; `ids n` is the identifier that `uuidv4()` draws in round `n`.
  unfoldable pub take_all :
      Surroundings
      → (ℕ → String)
      → ℕ
      → String
      → List Invitation
      → World repo.State
      → World repo.State
  take_all env ids n user [] w = w
  take_all env ids n user (inv ∷ invs) w =
      take_all env ids (suc n) user invs
        (take_invitation (record env { fresh_id = ids n }) user inv w)

  unfoldable pub on_email_verified :
      Surroundings → (ℕ → String) → String → String → World repo.State → World repo.State
  unfolding take_all take_invitation
  on_email_verified env ids user address w =
      take_all env ids 0 user (repo.list_invitations_by_email address w.store) w
