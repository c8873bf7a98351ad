-- ===== src/Projects/Acceptance.antt =====
-- Joining by an invitation: src/modules/projects/application/commands/accept-invitation.handler.ts.
use collabai_backend.Prelude.{
  ◌≤◌, ◌≡◌, ◌⊎◌, inl, inr, String, true, none, some, arith, Option-cases, same_text, same_text_refl,
  ok,
}
use collabai_backend.Common.Uuid.{is_valid_uuid, uuid}
use collabai_backend.Projects.Entities.{
  ProjectMember, ProjectView, TextOps, Invitation, create_member,
}
use collabai_backend.Projects.Repository.{ProjectRepository, IsLawful, as_stored}
use collabai_backend.Projects.World.{World}
use collabai_backend.Projects.Invitations.{
  Surroundings, accept_invitation, role_or_member, normalize_email,
}

module _ (repo : ProjectRepository) (laws : IsLawful repo) (text : TextOps) where
  -- The membership that the invited user holds afterwards: the one that was there, unchanged, or a
  -- new one with the role of the invitation.
  abbrev pub Joined : Surroundings → Invitation → String → repo.State → repo.State → Type 0
  Joined env inv user s s' =
      ((m : ProjectMember) × (repo.find_membership inv.project_id user s ≡ some m)
        × (repo.find_membership inv.project_id user s' ≡ some m))
      ⊎ ((repo.find_membership inv.project_id user s ≡ none)
          × (repo.find_membership inv.project_id user s'
              ≡ some (
                  as_stored (
                    create_member env.now env.fresh_id inv.project_id user (role_or_member inv.role)
                      (some inv.invited_by)))))

  -- An accepted invitation had not expired, was addressed to the user's own address, and leaves the
  -- user a member: with the role of the invitation, or as before if already a member.
  pub accept_invitation-joins :
      (env : Surroundings) (token user address : String) (w : World repo.State) (inv : Invitation)
      (view : ProjectView)
      → repo.find_invitation_by_token token w.store ≡ some inv
      → is_valid_uuid env.fresh_id ≡ true
      → is_valid_uuid inv.project_id ≡ true
      → is_valid_uuid user ≡ true
      → (accept_invitation repo text env token user address w).0 ≡ ok view
      → (env.now ≤ inv.expires_at)
        × (normalize_email text inv.email ≡ normalize_email text address)
        × Joined env inv user w.store (accept_invitation repo text env token user address w).1.store
  unfolding accept_invitation
  accept_invitation-joins env token user address w inv view found vi vp vu done =
      elim (Option-cases (repo.find_membership inv.project_id user w.store)) [
        | inl new ↦
            let m =
              create_member env.now env.fresh_id inv.project_id user (role_or_member inv.role)
                (some inv.invited_by) in
            elim (Option-cases (repo.add_member m w.store)) [
              | inl refused ↦ absurd (ground arith)
              | inr (s', added) ↦ ground (
                arith,
                same_text (normalize_email text inv.email) (normalize_email text address),
                laws.add-membership m inv.project_id user w.store s' added vi vp vu (ground arith),
                laws.revoke-membership inv.id inv.project_id user s',
                same_text_refl (uuid inv.project_id),
                same_text_refl (uuid user),
              )
            ]
        | inr (m, old) ↦ ground (
          arith,
          same_text (normalize_email text inv.email) (normalize_email text address),
          laws.revoke-membership inv.id inv.project_id user w.store,
        )
      ]
