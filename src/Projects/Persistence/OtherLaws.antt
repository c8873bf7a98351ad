-- ===== src/Projects/Persistence/OtherLaws.antt =====
-- What writes of projects leave as it was, and spellings of one identifier.
use collabai_backend.Prelude.{
  ℕ, ◌≡◌, ◌≢◌, refl, inl, inr, String, Bool, true, ◌&&◌, some, arith, Option-cases, ◌=s=◌,
  same_text, find?-remove_if_disjoint, find?-update_if_disjoint, if◌then◌else◌,
}
use collabai_backend.Prisma.{find?-update_if_covered}
use collabai_backend.Common.Uuid.{is_valid_uuid, uuid}
use collabai_backend.Projects.Entities.{ProjectMember, Project, InvitationData, TextOps}
use collabai_backend.Projects.Repository.{ProjectRepository, exists, same_key, as_stored, edited}
use collabai_backend.Projects.Persistence.Rows.{
  MemberRow, Client, member_key, live_project, to_member_row, to_project_row,
}
use collabai_backend.Projects.Persistence.MemberLaws.{stored_row}
use collabai_backend.Projects.Persistence.Calls.{prisma_projects}

module _ (c : Client) (text : TextOps) where
  abbrev repo : ProjectRepository
  repo = prisma_projects c text

  pub project-valid :
      (q : String) (s : repo.State) → exists repo q s ≡ true → is_valid_uuid q ≡ true
  unfolding prisma_projects
  project-valid q s h = ground arith

  pub membership-spelling :
      (p u q v : String) (s : repo.State)
      → is_valid_uuid p && is_valid_uuid u ≡ true
      → is_valid_uuid q && is_valid_uuid v ≡ true
      → same_key p u q v ≡ true
      → repo.find_membership p u s ≡ repo.find_membership q v s
  unfolding prisma_projects
  membership-spelling p u q v s vp vq same =
      ground (arith, same_text (uuid p) (uuid q), same_text (uuid u) (uuid v))

  pub owners-spelling :
      (p q : String) (s : repo.State)
      → is_valid_uuid p ≡ true
      → is_valid_uuid q ≡ true
      → uuid p ≡ uuid q
      → repo.count_owners p s ≡ repo.count_owners q s
  unfolding prisma_projects
  owners-spelling p q s vp vq same = ground arith

  pub update-others :
      (pr : Project) (q : String) (s s' : repo.State)
      → repo.update pr s ≡ some s'
      → uuid pr.id ≢ uuid q
      → repo.find_by_id q s' ≡ repo.find_by_id q s
  unfolding prisma_projects
  update-others pr q s s' done other =
      let f = edited pr c.clock in
      let key : Project → Bool = λ x. uuid pr.id =s= x.id in
      elim (Option-cases (c.projects.update key f s.projects)) [
        | inl refused ↦ ground arith
        | inr (t', wrote) ↦ ground (
          arith,
          c.projects.update_rows key f s.projects t' wrote,
          c.projects.find_first_rows (live_project (uuid q)) s.projects,
          c.projects.find_first_rows (live_project (uuid q)) t',
          find?-update_if_disjoint (live_project (uuid q)) key f (c.projects.rows s.projects)
              (λ x k. ground (arith, same_text (uuid pr.id) x.id, same_text (uuid q) x.id))
              (λ x k. ground (arith, same_text (uuid pr.id) x.id, same_text (uuid q) x.id)),
        )
      ]

  pub update-membership :
      (pr : Project) (q v : String) (s s' : repo.State)
      → repo.update pr s ≡ some s'
      → repo.find_membership q v s' ≡ repo.find_membership q v s
  unfolding prisma_projects
  update-membership pr q v s s' done = ground arith

  pub delete-others :
      (p q : String) (s s' : repo.State)
      → repo.delete p s ≡ some s'
      → uuid p ≢ uuid q
      → repo.find_by_id q s' ≡ repo.find_by_id q s
  unfolding prisma_projects
  delete-others p q s s' done other =
      let gone : Project → Bool = λ x. uuid p =s= x.id in
      elim (Option-cases (c.projects.delete gone s.projects)) [
        | inl refused ↦ ground arith
        | inr (t', wrote) ↦ ground (
          arith,
          c.projects.delete_rows gone s.projects t' wrote,
          c.projects.find_first_rows (live_project (uuid q)) s.projects,
          c.projects.find_first_rows (live_project (uuid q)) t',
          find?-remove_if_disjoint (live_project (uuid q)) gone (c.projects.rows s.projects)
              (λ x k. ground (arith, same_text (uuid p) x.id, same_text (uuid q) x.id)),
        )
      ]

  pub delete-membership :
      (p q v : String) (s s' : repo.State)
      → repo.delete p s ≡ some s'
      → uuid p ≢ uuid q
      → repo.find_membership q v s' ≡ repo.find_membership q v s
  unfolding prisma_projects
  delete-membership p q v s s' done other =
      let gone : Project → Bool = λ x. uuid p =s= x.id in
      let out : MemberRow → Bool = λ x. uuid p =s= x.project_id in
      elim (Option-cases (c.projects.delete gone s.projects)) [
        | inl refused ↦ ground arith
        | inr (t', wrote) ↦ ground (
          arith,
          c.members.delete_many_rows out s.members,
          c.members.find_first_rows (member_key (uuid q) (uuid v)) s.members,
          c.members.find_first_rows (member_key (uuid q) (uuid v))
              (c.members.delete_many out s.members),
          find?-remove_if_disjoint (member_key (uuid q) (uuid v)) out (c.members.rows s.members)
              (λ x k.
                ground (arith, same_text (uuid p) x.project_id, same_text (uuid q) x.project_id)),
        )
      ]

  pub invite-membership :
      (d : InvitationData) (q v : String) (s s' : repo.State)
      → repo.create_invitation d s ≡ some s'
      → repo.find_membership q v s' ≡ repo.find_membership q v s
  unfolding prisma_projects
  invite-membership d q v s s' done = ground arith

  pub update-project :
      (pr old : Project) (q : String) (s s' : repo.State)
      → repo.update pr s ≡ some s'
      → is_valid_uuid pr.id ≡ true
      → uuid pr.id ≡ uuid q
      → repo.find_by_id q s ≡ some old
      → (now : ℕ) × (repo.find_by_id q s' ≡ some (edited pr now old))
  unfolding prisma_projects
  update-project pr old q s s' done valid same found =
      let f = edited pr c.clock in
      let key : Project → Bool = λ x. uuid pr.id =s= x.id in
      elim (Option-cases (c.projects.update key f s.projects)) [
        | inl refused ↦ absurd (ground arith)
        | inr (t', wrote) ↦ (
          c.clock,
          ground (
            arith,
            c.projects.update_rows key f s.projects t' wrote,
            c.projects.find_first_rows (live_project (uuid q)) s.projects,
            c.projects.find_first_rows (live_project (uuid q)) t',
            find?-update_if_covered key (live_project (uuid q)) f (c.projects.rows s.projects) old
                (λ x. refl) (λ x k. ground arith),
          ),
        )
      ]

  pub create-membership :
      (pr : Project) (m : ProjectMember) (q v : String) (s s' : repo.State)
      → repo.create_with_owner pr m s ≡ some s'
      → is_valid_uuid q && is_valid_uuid v ≡ true
      → repo.find_membership q v s' ≡ (
          if same_key m.project_id m.user_id q v
          then some (as_stored m)
          else repo.find_membership q v s)
  unfolding prisma_projects
  create-membership pr m q v s s' done vq =
      let x = to_project_row pr in
      let r = to_member_row m in
      elim (Option-cases (c.projects.create x s.projects)) [
        | inl refused ↦ absurd (ground arith)
        | inr (t', made) ↦ elim (Option-cases (c.members.create r s.members)) [
          | inl refused ↦ absurd (ground arith)
          | inr (u', wrote) ↦ ground (arith, stored_row c text m q v s.members u' wrote)
        ]
      ]
