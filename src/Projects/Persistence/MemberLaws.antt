-- ===== src/Projects/Persistence/MemberLaws.antt =====
-- Writes of memberships, read back through the port.
use collabai_backend.Prelude.{
  ◌+◌, ◌≤◌, ◌≡◌, inl, inr, String, true, ◌&&◌, none, some, arith, Option-cases, Bool-cases, ◌=s=◌,
  same_text, same_text_refl, count_if-append, find?-eq-some, find?-append, find?-append_none,
  find?-remove_if_covered, find?-remove_if_disjoint, find?-update_if_disjoint, find?-update_if_self,
  if◌then◌else◌,
}
use mathlib.Core.Option
use collabai_backend.Common.Uuid.{is_valid_uuid, uuid}
use collabai_backend.Prisma.{count_if-update_if, count_if-remove_if, find?-of_count_zero}
use collabai_backend.Projects.Role.{ProjectRole, role_name, is_owner}
use collabai_backend.Projects.Entities.{ProjectMember, TextOps}
use collabai_backend.Projects.Repository.{ProjectRepository, same_key, with_role, one_if, as_stored}
use collabai_backend.Projects.Persistence.Rows.{
  MemberRow, Client, member_key, owner_of, to_member_row, to_member_domain,
}
use collabai_backend.Projects.Persistence.Calls.{prisma_projects}
use collabai_backend.Projects.Persistence.Keys.{
  as_role-role_name, member-valid, one_member, member_row, owner_of-keyed, keys_apart, keys_swap,
  keys_equal,
}

module _ (c : Client) (text : TextOps) where
  abbrev repo : ProjectRepository
  repo = prisma_projects c text

  pub role-owners :
      (p u : String) (role : ProjectRole) (q : String) (m : ProjectMember) (s s' : repo.State)
      → repo.find_membership p u s ≡ some m
      → repo.update_member_role p u role s ≡ some s'
      → is_valid_uuid q ≡ true
      → repo.count_owners q s' + one_if (uuid p =s= uuid q && is_owner m.role)
        ≡ repo.count_owners q s + one_if (uuid p =s= uuid q && is_owner role)
  unfolding prisma_projects
  role-owners p u role q m s s' found done vq =
      let (vp, vu) = member-valid c text p u s m found in
      let (r, at_row, is_m) = member_row c text (uuid p) (uuid u) s m (ground arith) in
      let f : MemberRow → MemberRow = λ x. record x { role = role_name role } in
      elim (Option-cases (c.members.update (member_key (uuid p) (uuid u)) f s.members)) [
        | inl refused ↦ absurd (ground arith)
        | inr (t', wrote) ↦ ground (
          arith,
          c.members.update_rows (member_key (uuid p) (uuid u)) f s.members t' wrote,
          c.members.count_rows (owner_of (uuid q)) s.members,
          c.members.count_rows (owner_of (uuid q)) t',
          count_if-update_if (member_key (uuid p) (uuid u)) (owner_of (uuid q)) f
              (c.members.rows s.members) r (one_member c text (uuid p) (uuid u) s.members) at_row,
          owner_of-keyed c text (uuid p) (uuid u) (uuid q) r
              (find?-eq-some (member_key (uuid p) (uuid u)) (c.members.rows s.members) r at_row),
          owner_of-keyed c text (uuid p) (uuid u) (uuid q) (f r)
              (find?-eq-some (member_key (uuid p) (uuid u)) (c.members.rows s.members) r at_row),
          as_role-role_name role,
          same_text (uuid p) (uuid q),
        )
      ]

  pub remove-owners :
      (p u q : String) (m : ProjectMember) (s s' : repo.State)
      → repo.find_membership p u s ≡ some m
      → repo.remove_member p u s ≡ some s'
      → is_valid_uuid q ≡ true
      → repo.count_owners q s' + one_if (uuid p =s= uuid q && is_owner m.role)
        ≡ repo.count_owners q s
  unfolding prisma_projects
  remove-owners p u q m s s' found done vq =
      let (vp, vu) = member-valid c text p u s m found in
      let (r, at_row, is_m) = member_row c text (uuid p) (uuid u) s m (ground arith) in
      elim (Option-cases (c.members.delete (member_key (uuid p) (uuid u)) s.members)) [
        | inl refused ↦ absurd (ground arith)
        | inr (t', wrote) ↦ ground (
          arith,
          c.members.delete_rows (member_key (uuid p) (uuid u)) s.members t' wrote,
          c.members.count_rows (owner_of (uuid q)) s.members,
          c.members.count_rows (owner_of (uuid q)) t',
          count_if-remove_if (member_key (uuid p) (uuid u)) (owner_of (uuid q))
              (c.members.rows s.members) r (one_member c text (uuid p) (uuid u) s.members) at_row,
          owner_of-keyed c text (uuid p) (uuid u) (uuid q) r
              (find?-eq-some (member_key (uuid p) (uuid u)) (c.members.rows s.members) r at_row),
          same_text (uuid p) (uuid q),
        )
      ]

  pub role-membership :
      (p u : String) (role : ProjectRole) (q v : String) (m : ProjectMember) (s s' : repo.State)
      → repo.find_membership p u s ≡ some m
      → repo.update_member_role p u role s ≡ some s'
      → repo.find_membership q v s' ≡ (
          if same_key p u q v
          then with_role role (repo.find_membership q v s)
          else repo.find_membership q v s)
  unfolding prisma_projects
  role-membership p u role q v m s s' found done =
      let (vp, vu) = member-valid c text p u s m found in
      let (r, at_row, is_m) = member_row c text (uuid p) (uuid u) s m (ground arith) in
      let f : MemberRow → MemberRow = λ x. record x { role = role_name role } in
      elim (Option-cases (c.members.update (member_key (uuid p) (uuid u)) f s.members)) [
        | inl refused ↦ absurd (ground arith)
        | inr (t', wrote) ↦ elim (Bool-cases (same_key p u q v)) [
          | inl same ↦ ground (
            arith,
            keys_equal c text (uuid p) (uuid u) (uuid q) (uuid v) same,
            c.members.update_rows (member_key (uuid p) (uuid u)) f s.members t' wrote,
            c.members.find_first_rows (member_key (uuid p) (uuid u)) s.members,
            c.members.find_first_rows (member_key (uuid p) (uuid u)) t',
            find?-update_if_self (member_key (uuid p) (uuid u)) f (c.members.rows s.members) r
                (λ y k. k) at_row,
            as_role-role_name role,
          )
          | inr other ↦ ground (
            arith,
            c.members.update_rows (member_key (uuid p) (uuid u)) f s.members t' wrote,
            c.members.find_first_rows (member_key (uuid q) (uuid v)) s.members,
            c.members.find_first_rows (member_key (uuid q) (uuid v)) t',
            find?-update_if_disjoint (member_key (uuid q) (uuid v)) (member_key (uuid p) (uuid u)) f
                (c.members.rows s.members)
                (λ x k. keys_apart c text (uuid p) (uuid u) (uuid q) (uuid v) x other k)
                (λ x k. keys_apart c text (uuid p) (uuid u) (uuid q) (uuid v) x other k),
          )
        ]
      ]

  pub remove-membership :
      (p u q v : String) (m : ProjectMember) (s s' : repo.State)
      → repo.find_membership p u s ≡ some m
      → repo.remove_member p u s ≡ some s'
      → repo.find_membership q v s'
        ≡ (if same_key p u q v then none else repo.find_membership q v s)
  unfolding prisma_projects
  remove-membership p u q v m s s' found done =
      let (vp, vu) = member-valid c text p u s m found in
      elim (Option-cases (c.members.delete (member_key (uuid p) (uuid u)) s.members)) [
        | inl refused ↦ absurd (ground arith)
        | inr (t', wrote) ↦ elim (Bool-cases (same_key p u q v)) [
          | inl same ↦ ground (
            arith,
            keys_equal c text (uuid p) (uuid u) (uuid q) (uuid v) same,
            c.members.delete_rows (member_key (uuid p) (uuid u)) s.members t' wrote,
            c.members.find_first_rows (member_key (uuid p) (uuid u)) t',
            find?-remove_if_covered (member_key (uuid p) (uuid u)) (member_key (uuid p) (uuid u))
                (c.members.rows s.members) (λ y k. k),
          )
          | inr other ↦ ground (
            arith,
            c.members.delete_rows (member_key (uuid p) (uuid u)) s.members t' wrote,
            c.members.find_first_rows (member_key (uuid q) (uuid v)) s.members,
            c.members.find_first_rows (member_key (uuid q) (uuid v)) t',
            find?-remove_if_disjoint (member_key (uuid q) (uuid v)) (member_key (uuid p) (uuid u))
                (c.members.rows s.members)
                (λ x k. keys_swap c text (uuid p) (uuid u) (uuid q) (uuid v) x other k),
          )
        ]
      ]

  -- What is found after the row of a membership has been inserted.
  pub stored_row :
      (m : ProjectMember) (q v : String) (before after : c.members.Contents)
      → c.members.create (to_member_row m) before ≡ some after
      → Option.map to_member_domain (c.members.find_first (member_key (uuid q) (uuid v)) after) ≡ (
          if same_key m.project_id m.user_id q v
          then some (as_stored m)
          else Option.map to_member_domain
              (c.members.find_first (member_key (uuid q) (uuid v)) before))
  stored_row m q v before after wrote =
      let r = to_member_row m in
      elim (Bool-cases (same_key m.project_id m.user_id q v)) [
        | inl same ↦ ground (
          arith,
          keys_equal c text (uuid m.project_id) (uuid m.user_id) (uuid q) (uuid v) same,
          same_text_refl (uuid m.project_id),
          same_text_refl (uuid m.user_id),
          c.members.create_rows r before after wrote,
          c.members.find_first_rows (member_key (uuid m.project_id) (uuid m.user_id)) after,
          one_member c text (uuid m.project_id) (uuid m.user_id) after,
          count_if-append (member_key (uuid m.project_id) (uuid m.user_id)) (c.members.rows before)
              r,
          find?-of_count_zero (member_key (uuid q) (uuid v))
              (member_key (uuid m.project_id) (uuid m.user_id)) (c.members.rows before),
          find?-append_none (member_key (uuid m.project_id) (uuid m.user_id))
              (c.members.rows before) r,
          as_role-role_name m.role,
        )
        | inr other ↦ ground (
          arith,
          c.members.create_rows r before after wrote,
          c.members.find_first_rows (member_key (uuid q) (uuid v)) before,
          c.members.find_first_rows (member_key (uuid q) (uuid v)) after,
          find?-append (member_key (uuid q) (uuid v)) (c.members.rows before) r,
          same_text (uuid m.project_id) (uuid q),
          same_text (uuid m.user_id) (uuid v),
          same_text (uuid q) (uuid m.project_id),
          same_text (uuid v) (uuid m.user_id),
        )
      ]

  pub add-membership :
      (m : ProjectMember) (q v : String) (s s' : repo.State)
      → repo.add_member m s ≡ some s'
      → is_valid_uuid m.id ≡ true
      → is_valid_uuid m.project_id ≡ true
      → is_valid_uuid m.user_id ≡ true
      → is_valid_uuid q && is_valid_uuid v ≡ true
      → repo.find_membership q v s' ≡ (
          if same_key m.project_id m.user_id q v
          then some (as_stored m)
          else repo.find_membership q v s)
  unfolding prisma_projects
  add-membership m q v s s' done vi vp vu vq =
      elim (Option-cases (c.members.create (to_member_row m) s.members)) [
        | inl refused ↦ absurd (ground arith)
        | inr (t', wrote) ↦ ground (arith, stored_row m q v s.members t' wrote)
      ]

  pub add-owners :
      (m : ProjectMember) (q : String) (s s' : repo.State)
      → repo.add_member m s ≡ some s'
      → repo.count_owners q s ≤ repo.count_owners q s'
  unfolding prisma_projects
  add-owners m q s s' done =
      let r = to_member_row m in
      elim (Option-cases (c.members.create r s.members)) [
        | inl refused ↦ ground arith
        | inr (t', wrote) ↦ ground (
          arith,
          c.members.create_rows r s.members t' wrote,
          c.members.count_rows (owner_of (uuid q)) s.members,
          c.members.count_rows (owner_of (uuid q)) t',
          count_if-append (owner_of (uuid q)) (c.members.rows s.members) r,
        )
      ]

  pub add-project :
      (m : ProjectMember) (q : String) (s s' : repo.State)
      → repo.add_member m s ≡ some s'
      → repo.find_by_id q s' ≡ repo.find_by_id q s
  unfolding prisma_projects
  add-project m q s s' done = ground arith

  pub remove-project :
      (p u q : String) (s s' : repo.State)
      → repo.remove_member p u s ≡ some s'
      → repo.find_by_id q s' ≡ repo.find_by_id q s
  unfolding prisma_projects
  remove-project p u q s s' done = ground arith

  pub role-project :
      (p u : String) (role : ProjectRole) (q : String) (s s' : repo.State)
      → repo.update_member_role p u role s ≡ some s'
      → repo.find_by_id q s' ≡ repo.find_by_id q s
  unfolding prisma_projects
  role-project p u role q s s' done = ground arith
