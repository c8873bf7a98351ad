-- ===== src/Projects/Tests/Spelling.antt =====
-- An owner whose identifier is also given in upper case.
use collabai_backend.Prelude.{
  ◌≡◌, ◌≢◌, refl, some, or_else, ◌=s=◌, same_text, arith, String, ◌∷◌, [],
}
use mathlib.Core.Bool.{false≢true}
use collabai_backend.Common.Uuid.{is_valid_uuid, uuid}
use collabai_backend.Prisma.Memory.{memory}
use collabai_backend.Projects.Role.{owner, viewer, parse_role}
use collabai_backend.Projects.World.{World}
use collabai_backend.Projects.Members.{update_member_role}
use collabai_backend.Projects.Authority.{update_member_role-own_role}
use collabai_backend.Projects.Persistence.Rows.{owner_of}
use collabai_backend.Projects.Persistence.Calls.{prisma_projects}
use collabai_backend.Projects.Tests.Fixture.{repo, laws, start, row, membership, board, bob}

abbrev eva : String
eva = "20000000-0000-4000-8000-00000000000e"

abbrev loud_eva : String
loud_eva = "20000000-0000-4000-8000-00000000000E"

abbrev two_owners : World repo.State
unfolding prisma_projects memory ◌=s=◌
two_owners = record start {
  store = record start.store { members = (row eva "owner" ∷ row bob "owner" ∷ [], refl) };
}

abbrev demoted : repo.State
demoted = or_else (repo.update_member_role board loud_eva viewer two_owners.store) two_owners.store

eva-apart : eva ≢ loud_eva
unfolding ◌=s=◌
eva-apart e = false≢true ((same_text eva loud_eva).1 e)

owner-ne-viewer : viewer ≢ owner
owner-ne-viewer e = ground arith

update_member_role-own_role_example :
    repo.find_membership board eva
      (update_member_role repo board eva loud_eva viewer two_owners).1.store
    ≡ some (membership eva viewer)
unfolding prisma_projects memory is_valid_uuid uuid owner_of ◌=s=◌ parse_role
update_member_role-own_role_example =
    update_member_role-own_role repo laws board eva loud_eva viewer two_owners
      (membership eva owner) demoted eva-apart refl refl refl refl owner-ne-viewer (omega arith)
      refl
