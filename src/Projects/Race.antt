-- ===== src/Projects/Race.antt =====
-- Two removals whose reads both come before either write: the handlers take no lock and open no
-- transaction round the count of the owners and the deletion.
use collabai_backend.Prelude.{◌≡◌, ◌≢◌, String, some, arith, same_text, ok}
use collabai_backend.Common.Uuid.{uuid}
use collabai_backend.Projects.Role.{owner, can_remove_member, would_leave_no_owner}
use collabai_backend.Projects.Entities.{ProjectMember}
use collabai_backend.Projects.Repository.{ProjectRepository, IsLawful}
use collabai_backend.Projects.World.{World}
use collabai_backend.Projects.Members.{check_removal}

module _ (repo : ProjectRepository) (laws : IsLawful repo) where
  -- The two owners of a project leave at the same time. Both pass the checks, and when both
  -- deletions are made the project has no owner left.
  pub both_owners_leave :
      (p u v : String) (w : World repo.State) (mu mv : ProjectMember) (s t : repo.State)
      → uuid u ≢ uuid v
      → repo.find_membership p u w.store ≡ some mu
      → repo.find_membership p v w.store ≡ some mv
      → mu.role ≡ owner
      → mv.role ≡ owner
      → repo.count_owners p w.store ≡ 2
      → repo.remove_member p u w.store ≡ some s
      → repo.remove_member p v s ≡ some t
      → ((check_removal repo p u u w).0 ≡ ok tt)
        × ((check_removal repo p v v w).0 ≡ ok tt)
        × (repo.count_owners p t ≡ 0)
  unfolding check_removal can_remove_member would_leave_no_owner
  both_owners_leave p u v w mu mv s t apart fu fv ou ov two du dv =
      let (vp, vu) = laws.member-valid p u w.store mu fu in
      let still : repo.find_membership p v s ≡ some mv = ground (
        arith,
        laws.remove-membership p u p v mu w.store s fu du,
        same_text (uuid u) (uuid v),
        fv,
      ) in
      (
        ground (arith, same_text u u),
        ground (arith, same_text v v),
        ground (
          arith,
          laws.remove-owners p u p mu w.store s fu du vp,
          laws.remove-owners p v p mv s t still dv vp,
          same_text (uuid p) (uuid p),
        ),
      )
