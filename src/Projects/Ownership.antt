-- ===== src/Projects/Ownership.antt =====
-- Every project that exists has an owner: handler by handler, for one project `q`.
use collabai_backend.Prelude.{
  ℕ, suc, ◌<◌, ◌≡◌, inl, inr, String, List, [], ◌∷◌, true, arith, Option-cases, same_text,
}
use collabai_backend.Common.Uuid.{is_valid_uuid, uuid}
use collabai_backend.Projects.Role.{ProjectRole, would_leave_no_owner}
use collabai_backend.Projects.Entities.{TextOps, ProjectPatch, Invitation}
use collabai_backend.Projects.Repository.{ProjectRepository, IsLawful, exists}
use collabai_backend.Projects.World.{World, Handler}
use collabai_backend.Projects.Members.{update_member_role, remove_member}
use collabai_backend.Projects.Invitations.{
  Surroundings, invite_member, accept_invitation, resend_invitation, revoke_invitation,
  on_email_verified, take_invitation, take_all,
}
use collabai_backend.Projects.Settings.{
  CreateProjectCommand, new_project, new_owner, create_project, update_project, delete_project,
}

module _ (repo : ProjectRepository) (laws : IsLawful repo) (text : TextOps) (q : String) where
  -- If the project exists, someone owns it.
  abbrev pub Owned : repo.State → Type 0
  Owned s = exists repo q s ≡ true → 0 < repo.count_owners q s

  pub remove_member-Owned :
      (p acting target : String) (w : World repo.State)
      → Owned w.store
      → Owned (remove_member repo p acting target w).1.store
  unfolding remove_member would_leave_no_owner
  remove_member-Owned p acting target w h =
      elim (Option-cases (repo.find_membership p target w.store)) [
        | inl missing ↦ ground arith
        | inr (m, found) ↦ elim (Option-cases (repo.remove_member p target w.store)) [
          | inl refused ↦ ground arith
          | inr (s', done) ↦ ground (
            arith,
            laws.project-valid q w.store,
            laws.member-valid p target w.store m found,
            laws.owners-spelling p q w.store,
            laws.remove-owners p target q m w.store s' found done,
            laws.remove-project p target q w.store s' done,
            same_text (uuid p) (uuid q),
          )
        ]
      ]

  pub update_member_role-Owned :
      (p acting target : String) (role : ProjectRole) (w : World repo.State)
      → Owned w.store
      → Owned (update_member_role repo p acting target role w).1.store
  unfolding update_member_role would_leave_no_owner
  update_member_role-Owned p acting target role w h =
      elim (Option-cases (repo.find_membership p target w.store)) [
        | inl missing ↦ ground arith
        | inr (m, found) ↦ elim (Option-cases (repo.update_member_role p target role w.store)) [
          | inl refused ↦ ground arith
          | inr (s', done) ↦ ground (
            arith,
            laws.project-valid q w.store,
            laws.member-valid p target w.store m found,
            laws.owners-spelling p q w.store,
            laws.role-owners p target role q m w.store s' found done,
            laws.role-project p target role q w.store s' done,
            same_text (uuid p) (uuid q),
          )
        ]
      ]

  pub invite_member-Owned :
      (env : Surroundings) (p acting address : String) (role : ProjectRole) (w : World repo.State)
      → Owned w.store
      → Owned (invite_member repo text env p acting address role w).1.store
  unfolding invite_member
  invite_member-Owned env p acting address role w h =
      grind (arith, laws.invite-owners, laws.invite-project, laws.add-owners, laws.add-project)

  pub accept_invitation-Owned :
      (env : Surroundings) (token user address : String) (w : World repo.State)
      → Owned w.store
      → Owned (accept_invitation repo text env token user address w).1.store
  unfolding accept_invitation
  accept_invitation-Owned env token user address w h =
      grind (arith, laws.revoke-owners, laws.revoke-project, laws.add-owners, laws.add-project)

  pub resend_invitation-Owned :
      (env : Surroundings) (p acting invitation : String) (w : World repo.State)
      → Owned w.store
      → Owned (resend_invitation repo text env p acting invitation w).1.store
  unfolding resend_invitation
  resend_invitation-Owned env p acting invitation w h =
      grind (arith, laws.invite-owners, laws.invite-project)

  pub revoke_invitation-Owned :
      (p acting invitation : String) (w : World repo.State)
      → Owned w.store
      → Owned (revoke_invitation repo text p acting invitation w).1.store
  unfolding revoke_invitation
  revoke_invitation-Owned p acting invitation w h =
      grind (arith, laws.revoke-owners, laws.revoke-project)

  take_invitation-Owned :
      (env : Surroundings) (user : String) (inv : Invitation) (w : World repo.State)
      → Owned w.store
      → Owned (take_invitation repo text env user inv w).store
  unfolding take_invitation
  take_invitation-Owned env user inv w h =
      grind (arith, laws.revoke-owners, laws.revoke-project, laws.add-owners, laws.add-project)

  take_all-Owned :
      (env : Surroundings) (ids : ℕ → String) (n : ℕ) (user : String) (invs : List Invitation)
      (w : World repo.State)
      → Owned w.store
      → Owned (take_all repo text env ids n user invs w).store
  unfolding take_all
  take_all-Owned env ids n user [] w h = h
  take_all-Owned env ids n user (inv ∷ invs) w h =
      take_all-Owned env ids (suc n) user invs _
        (take_invitation-Owned (record env { fresh_id = ids n }) user inv w h)

  pub on_email_verified-Owned :
      (env : Surroundings) (ids : ℕ → String) (user address : String) (w : World repo.State)
      → Owned w.store
      → Owned (on_email_verified repo text env ids user address w).store
  unfolding on_email_verified
  on_email_verified-Owned env ids user address w h =
      take_all-Owned env ids 0 user (repo.list_invitations_by_email address w.store) w h

  pub create_project-Owned :
      (now : ℕ) (create_board : String → String → Handler repo.State (Unit {0}))
      (c : CreateProjectCommand) (w : World repo.State)
      → ((a b : String) (v : World repo.State) → Owned v.store → Owned (create_board a b v).1.store)
      → is_valid_uuid c.fresh_project_id ≡ true
      → Owned w.store
      → Owned (create_project repo text now create_board c w).1.store
  unfolding create_project
  create_project-Owned now create_board c w keeps valid h =
      elim (Option-cases
        (repo.create_with_owner (new_project text now c) (new_owner now c) w.store)) [
          | inl refused ↦ ground arith
          | inr (s', done) ↦ ground (
            arith,
            laws.project-valid q s',
            laws.create-others (new_project text now c) (new_owner now c) q w.store s' done,
            laws.create-owners (new_project text now c) (new_owner now c) q w.store s' done valid,
            same_text (uuid c.fresh_project_id) (uuid q),
            keeps c.owner_id c.fresh_project_id (record w { store = s' }),
          )
        ]

  pub update_project-Owned :
      (now : ℕ) (p acting : String) (patch : ProjectPatch) (w : World repo.State)
      → Owned w.store
      → Owned (update_project repo text now p acting patch w).1.store
  unfolding update_project
  update_project-Owned now p acting patch w h =
      grind (arith, laws.update-owners, laws.update-exists)

  pub delete_project-Owned :
      (p acting : String) (w : World repo.State)
      → Owned w.store
      → Owned (delete_project repo text p acting w).1.store
  unfolding delete_project
  delete_project-Owned p acting w h = elim (Option-cases (repo.find_membership p acting w.store)) [
    | inl missing ↦ ground arith
    | inr (m, found) ↦ elim (Option-cases (repo.delete p w.store)) [
      | inl refused ↦ ground arith
      | inr (s', done) ↦ ground (
        arith,
        laws.member-valid p acting w.store m found,
        laws.delete-exists p q w.store s' done,
        laws.delete-owners p q w.store s' done,
      )
    ]
  ]
