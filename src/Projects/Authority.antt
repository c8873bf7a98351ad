-- ===== src/Projects/Authority.antt =====
-- What a role change may do, and to whom: src/modules/projects/application/commands,
-- update-member-role.handler.ts.
use collabai_backend.Prelude.{
  ◌≤◌, ◌<◌, ◌≡◌, ◌≢◌, ◌⊎◌, inl, inr, String, true, false, some, arith, Option-cases, same_text,
  same_text_refl, ok,
}
use collabai_backend.Common.Uuid.{is_valid_uuid, uuid}
use collabai_backend.Projects.Role.{
  ProjectRole, owner, admin, viewer, rank, can_assign_role, would_leave_no_owner,
}
use collabai_backend.Projects.Entities.{ProjectMember, ProjectView, TextOps}
use collabai_backend.Projects.Repository.{ProjectRepository, IsLawful, same_key}
use collabai_backend.Projects.World.{World}
use collabai_backend.Projects.Members.{update_member_role}
use collabai_backend.Projects.Invitations.{Surroundings, invite_member}

-- Who may move a member from one role to another.
abbrev pub MayAssign : ProjectRole → ProjectRole → ProjectRole → Type 0
MayAssign actor current new =
    (actor ≡ owner) ⊎ ((actor ≡ admin) × (rank current ≤ 1) × (rank new ≤ 1))

module _ (repo : ProjectRepository) where
  -- The write that a role change leads to, and the checks behind which it stands.
  record Rewritten (p acting target : String) (role : ProjectRole) (a m : ProjectMember)
      (w w' : World repo.State) (s' : repo.State) : Type 0 where
    written : w' ≡ record w { store = s' }
    others : acting ≢ target
    entitled : MayAssign a.role m.role role
    covered : (m.role ≢ owner) ⊎ (1 < repo.count_owners p w.store)

module _ (repo : ProjectRepository) (laws : IsLawful repo) where
  -- What a role change leaves behind: the target holds the new role, with all else of its membership
  -- kept, and every other membership is as before.
  pub record RoleChanged (p target : String) (role : ProjectRole) (m : ProjectMember)
      (s s' : repo.State) : Type 0 where
    pub changed : repo.find_membership p target s' ≡ some (record m { role = role })
    pub kept :
        (q v : String)
        → same_key p target q v ≡ false
        → repo.find_membership q v s' ≡ repo.find_membership q v s

  update-RoleChanged :
      (p target : String) (role : ProjectRole) (m : ProjectMember) (s s' : repo.State)
      → repo.find_membership p target s ≡ some m
      → repo.update_member_role p target role s ≡ some s'
      → RoleChanged p target role m s s'
  update-RoleChanged p target role m s s' found done = record {
    changed = ground (
      arith,
      laws.role-membership p target role p target m s s' found done,
      same_text_refl (uuid p),
      same_text_refl (uuid target),
    );
    kept = λ q v other. ground (arith, laws.role-membership p target role q v m s s' found done);
  }

  -- The actor is told from the target by the text alone, and the database passes over the case of the
  -- letters: an owner, while there is a second one, who names the own account as the target in another
  -- case, and asks for another role than owner, holds that role afterwards, where the database takes
  -- the write.
  pub update_member_role-own_role :
      (p acting target : String) (role : ProjectRole) (w : World repo.State) (a : ProjectMember)
      (s' : repo.State)
      → acting ≢ target
      → uuid acting ≡ uuid target
      → is_valid_uuid target ≡ true
      → repo.find_membership p acting w.store ≡ some a
      → a.role ≡ owner
      → role ≢ owner
      → 1 < repo.count_owners p w.store
      → repo.update_member_role p target role w.store ≡ some s'
      → repo.find_membership p acting (update_member_role repo p acting target role w).1.store
        ≡ some (record a { role = role })
  unfolding update_member_role can_assign_role would_leave_no_owner
  update_member_role-own_role p acting target role w a s' apart same valid found is other two done =
      let (vp, va) = laws.member-valid p acting w.store a found in
      let key : same_key p acting p target ≡ true =
        ground (arith, same_text_refl (uuid p), same_text (uuid acting) (uuid target)) in
      let target_found : repo.find_membership p target w.store ≡ some a =
        ground (arith, laws.membership-spelling p acting p target w.store) in
      let changed = update-RoleChanged p target role a w.store s' target_found done in
      ground (
        arith,
        same_text acting target,
        changed.changed,
        laws.membership-spelling p acting p target s',
      )

module _ (repo : ProjectRepository) (text : TextOps) where
  -- An invitation succeeds only for an actor who is a member of the project, as an owner, or as an
  -- admin who grants a role below admin.
  pub invite_member-authority :
      (env : Surroundings) (p acting address : String) (role : ProjectRole) (w : World repo.State)
      (view : ProjectView)
      → (invite_member repo text env p acting address role w).0 ≡ ok view
      → (a : ProjectMember) × (repo.find_membership p acting w.store ≡ some a)
        × MayAssign a.role viewer role
  unfolding invite_member can_assign_role
  invite_member-authority env p acting address role w view done =
      elim (Option-cases (repo.find_membership p acting w.store)) [
        | inl missing ↦ absurd (ground arith)
        | inr (a, found) ↦ (a, found, ground arith)
      ]
