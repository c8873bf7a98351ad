-- ===== src/Projects/Persistence/ProjectLaws.antt =====
-- Writes of projects and invitations, read back through the port.
use collabai_backend.Prelude.{
  ◌+◌, ◌≡◌, refl, ◌≢◌, inl, inr, String, Bool, true, ◌&&◌, some, is_some, arith, Option-cases,
  Bool-cases, ◌=s=◌, same_text, same_text_refl, count_if-append, find?-eq-some, find?-append,
  find?-remove_if_covered,
}
use collabai_backend.Common.Uuid.{is_valid_uuid, uuid}
use collabai_backend.Prisma.{
  count_if-remove_if_disjoint, is_some-find?-update_if, find?-remove_if_back,
}
use collabai_backend.Projects.Role.{is_owner}
use collabai_backend.Projects.Entities.{ProjectMember, Project, InvitationData, TextOps}
use collabai_backend.Projects.Repository.{ProjectRepository, exists, one_if}
use collabai_backend.Projects.Persistence.Rows.{
  Client, live_project, owner_of, to_member_row, to_project_row,
}
use collabai_backend.Projects.Persistence.Calls.{prisma_projects}
use collabai_backend.Projects.Persistence.Keys.{
  as_role-role_name, owner_of-keyed, live_project-apart, owner_of-apart,
}

module _ (c : Client) (text : TextOps) where
  abbrev repo : ProjectRepository
  repo = prisma_projects c text

  pub create-others :
      (pr : Project) (m : ProjectMember) (q : String) (s s' : repo.State)
      → repo.create_with_owner pr m s ≡ some s'
      → uuid pr.id ≢ uuid q
      → repo.find_by_id q s' ≡ repo.find_by_id q s
  unfolding prisma_projects
  create-others pr m q s s' done other =
      let x = to_project_row pr in
      elim (Option-cases (c.projects.create x s.projects)) [
        | inl refused ↦ absurd (ground arith)
        | inr (t', wrote) ↦ elim (Option-cases (c.members.create (to_member_row m) s.members)) [
          | inl refused ↦ absurd (ground arith)
          | inr (u', joined) ↦ ground (
            arith,
            c.projects.create_rows x s.projects t' wrote,
            c.projects.find_first_rows (live_project (uuid q)) s.projects,
            c.projects.find_first_rows (live_project (uuid q)) t',
            find?-append (live_project (uuid q)) (c.projects.rows s.projects) x,
            same_text (uuid q) (uuid pr.id),
          )
        ]
      ]

  pub create-owners :
      (pr : Project) (m : ProjectMember) (q : String) (s s' : repo.State)
      → repo.create_with_owner pr m s ≡ some s'
      → is_valid_uuid m.project_id ≡ true
      → is_valid_uuid q ≡ true
      → repo.count_owners q s'
        ≡ repo.count_owners q s + one_if (uuid m.project_id =s= uuid q && is_owner m.role)
  unfolding prisma_projects
  create-owners pr m q s s' done valid vq =
      let r = to_member_row m in
      elim (Option-cases (c.projects.create (to_project_row pr) s.projects)) [
        | inl refused ↦ absurd (ground arith)
        | inr (t', wrote) ↦ elim (Option-cases (c.members.create r s.members)) [
          | inl refused ↦ absurd (ground arith)
          | inr (u', joined) ↦ ground (
            arith,
            c.members.create_rows r s.members u' joined,
            c.members.count_rows (owner_of (uuid q)) s.members,
            c.members.count_rows (owner_of (uuid q)) u',
            count_if-append (owner_of (uuid q)) (c.members.rows s.members) r,
            owner_of-keyed c text (uuid m.project_id) (uuid m.user_id) (uuid q) r,
            as_role-role_name m.role,
            same_text_refl (uuid m.project_id),
            same_text_refl (uuid m.user_id),
            same_text (uuid m.project_id) (uuid q),
          )
        ]
      ]

  pub update-exists :
      (pr : Project) (q : String) (s s' : repo.State)
      → repo.update pr s ≡ some s'
      → exists repo q s' ≡ exists repo q s
  unfolding prisma_projects
  update-exists pr q s s' done =
      let f : Project → Project = λ x. record x {
        name = pr.name;
        description = pr.description;
        icon = pr.icon;
        color = pr.color;
        is_archived = pr.is_archived;
        updated_at = c.clock;
      } in
      elim (Option-cases (c.projects.update (λ x. uuid pr.id =s= x.id) f s.projects)) [
        | inl refused ↦ ground arith
        | inr (t', wrote) ↦ ground (
          arith,
          c.projects.update_rows (λ x. uuid pr.id =s= x.id) f s.projects t' wrote,
          c.projects.find_first_rows (live_project (uuid q)) s.projects,
          c.projects.find_first_rows (live_project (uuid q)) t',
          is_some-find?-update_if (λ x. uuid pr.id =s= x.id) (live_project (uuid q)) f
              (c.projects.rows s.projects) (λ x. refl),
        )
      ]

  pub update-owners :
      (pr : Project) (q : String) (s s' : repo.State)
      → repo.update pr s ≡ some s'
      → repo.count_owners q s' ≡ repo.count_owners q s
  unfolding prisma_projects
  update-owners pr q s s' done = ground arith

  pub delete-exists :
      (p q : String) (s s' : repo.State)
      → repo.delete p s ≡ some s'
      → exists repo q s' ≡ true
      → (is_valid_uuid p ≡ true → uuid p ≢ uuid q) × (exists repo q s ≡ true)
  unfolding prisma_projects
  delete-exists p q s s' done there =
      let gone : Project → Bool = λ x. uuid p =s= x.id in
      elim (Option-cases (c.projects.delete gone s.projects)) [
        | inl refused ↦ ground arith
        | inr (t', wrote) ↦ elim (Bool-cases (is_valid_uuid p)) [
          | inr bad ↦ ground arith
          | inl valid ↦ (
            λ v e. absurd (
                ground (
                  arith,
                  c.projects.delete_rows gone s.projects t' wrote,
                  c.projects.find_first_rows (live_project (uuid q)) t',
                  find?-remove_if_covered (live_project (uuid q)) gone (c.projects.rows s.projects)
                      (λ x k. live_project-apart c text (uuid p) (uuid q) x e k),
                )),
            ground (
              arith,
              c.projects.delete_rows gone s.projects t' wrote,
              c.projects.find_first_rows (live_project (uuid q)) s.projects,
              c.projects.find_first_rows (live_project (uuid q)) t',
              find?-remove_if_back gone (live_project (uuid q)) (c.projects.rows s.projects),
            ),
          )
        ]
      ]

  pub delete-owners :
      (p q : String) (s s' : repo.State)
      → repo.delete p s ≡ some s'
      → uuid p ≢ uuid q
      → repo.count_owners q s' ≡ repo.count_owners q s
  unfolding prisma_projects
  delete-owners p q s s' done other =
      let gone : Project → Bool = λ x. uuid p =s= x.id in
      elim (Option-cases (c.projects.delete gone s.projects)) [
        | inl refused ↦ ground arith
        | inr (t', wrote) ↦ ground (
          arith,
          c.members.delete_many_rows (λ x. uuid p =s= x.project_id) s.members,
          c.members.count_rows (owner_of (uuid q)) s.members,
          c.members.count_rows (owner_of (uuid q))
              (c.members.delete_many (λ x. uuid p =s= x.project_id) s.members),
          count_if-remove_if_disjoint (λ x. uuid p =s= x.project_id) (owner_of (uuid q))
              (c.members.rows s.members) (λ x k. owner_of-apart c text (uuid p) (uuid q) x other k),
        )
      ]

  pub id_of_project :
      (q : String) (s : repo.State) (pr : Project) → repo.find_by_id q s ≡ some pr → pr.id ≡ uuid q
  unfolding prisma_projects
  id_of_project q s pr h = ground (
    arith,
    c.projects.find_first_rows (live_project (uuid q)) s.projects,
    find?-eq-some (live_project (uuid q)) (c.projects.rows s.projects) pr,
    same_text (uuid q) pr.id,
  )

  pub view_of_project :
      (q : String) (s : repo.State) → is_some (repo.find_view_by_id q s) ≡ exists repo q s
  unfolding prisma_projects
  view_of_project q s = ground arith

  pub invite-keeps :
      (d : InvitationData) (s s' : repo.State)
      → repo.create_invitation d s ≡ some s'
      → (q : String)
      → (repo.find_by_id q s' ≡ repo.find_by_id q s)
        × (repo.count_owners q s' ≡ repo.count_owners q s)
  unfolding prisma_projects
  invite-keeps d s s' done q = ground arith

  pub revoke-keeps :
      (i q v : String) (s : repo.State)
      → (repo.find_by_id q (repo.delete_invitation i s) ≡ repo.find_by_id q s)
        × (repo.count_owners q (repo.delete_invitation i s) ≡ repo.count_owners q s)
        × (repo.find_membership q v (repo.delete_invitation i s) ≡ repo.find_membership q v s)
  unfolding prisma_projects
  revoke-keeps i q v s = ground arith
