-- ===== src/Projects/Tests/Examples.antt =====
-- The theorems of the projects module at the fixture.
use collabai_backend.Prelude.{
  ℕ, ◌≡◌, ◌≢◌, ◌≤◌, refl, arith, ok, err, some, none, or_else, ◌=s=◌, true, false, [], same_text,
}
use mathlib.Core.Bool.{false≢true}
use mathlib.Core.List.{filter_map}
use collabai_backend.Common.Uuid.{is_valid_uuid, uuid}
use collabai_backend.Prisma.Memory.{memory}
use collabai_backend.Projects.Role.{
  owner, admin, viewer, parse_role, can_remove_member, would_leave_no_owner, can_assign_role,
}
use collabai_backend.Projects.Entities.{ProjectMember, ProjectView, Invitation}
use collabai_backend.Projects.World.{World, last_owner}
use collabai_backend.Projects.Members.{remove_member, check_removal, update_member_role}
use collabai_backend.Projects.Invitations.{
  Surroundings, accept_invitation, invite_member, normalize_email,
}
use collabai_backend.Projects.Ownership.{Owned}
use collabai_backend.Projects.History.{here, next, removes, Reach-Owned}
use collabai_backend.Projects.Race.{both_owners_leave}
use collabai_backend.Projects.Authority.{MayAssign, invite_member-authority}
use collabai_backend.Projects.Acceptance.{Joined, accept_invitation-joins}
use collabai_backend.Projects.Persistence.Rows.{owner_of}
use collabai_backend.Projects.Persistence.Calls.{prisma_projects}
use collabai_backend.Projects.Tests.Fixture.{
  plain, repo, laws, start, no_board, membership, board, ann, bob, cid, dee, link,
}

uuid_test : is_valid_uuid board ≡ true
unfolding is_valid_uuid uuid
uuid_test = refl

owners_at_start : repo.count_owners board start.store ≡ 2
unfolding prisma_projects memory is_valid_uuid uuid owner_of ◌=s=◌
owners_at_start = refl

start-Owned : Owned repo laws plain board start.store
start-Owned e = rw owners_at_start (omega arith)

-- Ann leaves, then Bob tries to.
abbrev ann_left : World repo.State
ann_left = (remove_member repo board ann ann start).1

Reach-Owned_example :
    Owned repo laws plain board (remove_member repo board bob bob ann_left).1.store
Reach-Owned_example =
    Reach-Owned repo plain no_board laws (λ q a b v h. h) board start-Owned
      (next (next here (removes board ann ann)) (removes board bob bob))

last_owner_stays :
    (remove_member repo board bob bob ann_left).0
    ≡ err
        (last_owner "You're the last owner. Make someone else an owner before leaving the project.")
unfolding remove_member prisma_projects memory is_valid_uuid uuid owner_of ◌=s=◌ parse_role
    can_remove_member would_leave_no_owner
last_owner_stays = refl

-- Both owners leave at once.
abbrev after_ann : repo.State
after_ann = or_else (repo.remove_member board ann start.store) start.store

abbrev after_both : repo.State
after_both = or_else (repo.remove_member board bob after_ann) start.store

ann_is_owner : repo.find_membership board ann start.store ≡ some (membership ann owner)
unfolding prisma_projects memory is_valid_uuid uuid ◌=s=◌ parse_role
ann_is_owner = refl

bob_is_owner : repo.find_membership board bob start.store ≡ some (membership bob owner)
unfolding prisma_projects memory is_valid_uuid uuid ◌=s=◌ parse_role
bob_is_owner = refl

ann_removed : repo.remove_member board ann start.store ≡ some after_ann
unfolding prisma_projects memory is_valid_uuid uuid ◌=s=◌
ann_removed = refl

bob_removed : repo.remove_member board bob after_ann ≡ some after_both
unfolding prisma_projects memory is_valid_uuid uuid ◌=s=◌
bob_removed = refl

ann-ne-bob : uuid ann ≢ uuid bob
unfolding ◌=s=◌ uuid
ann-ne-bob e = false≢true ((same_text (uuid ann) (uuid bob)).1 e)

both_owners_leave_example :
    ((check_removal repo board ann ann start).0 ≡ ok tt)
    × ((check_removal repo board bob bob start).0 ≡ ok tt)
    × (repo.count_owners board after_both ≡ 0)
both_owners_leave_example =
    both_owners_leave repo laws board ann bob start (membership ann owner) (membership bob owner)
      after_ann after_both ann-ne-bob ann_is_owner bob_is_owner refl refl owners_at_start
      ann_removed bob_removed

role_changed :
    repo.find_membership board cid (update_member_role repo board ann cid admin start).1.store
    ≡ some (membership cid admin)
unfolding update_member_role can_assign_role would_leave_no_owner prisma_projects memory
    is_valid_uuid uuid ◌=s=◌ parse_role
role_changed = refl

abbrev at_time : ℕ → Surroundings
at_time t = record {
  now = t;
  fresh_id = "40000000-0000-4000-8000-000000000009";
  fresh_token = "u";
  frontend_origin = "https://app";
}

abbrev letter : Invitation
letter = record {
  id = link;
  project_id = board;
  email = "dee@x.io";
  role = "admin";
  token = "t";
  invited_by = ann;
  inviter_name = none;
  expires_at = 100;
  created_at = 1;
}

letter_found : repo.find_invitation_by_token "t" start.store ≡ some letter
unfolding prisma_projects memory ◌=s=◌
letter_found = refl

abbrev some_view : ProjectView
some_view = record {
  project = record {
    id = board;
    owner_id = ann;
    name = "Board";
    description = none;
    icon = none;
    color = none;
    is_archived = false;
    created_at = 1;
    updated_at = 1;
    deleted_at = none;
  };
  members = [];
}

accepted : (accept_invitation repo plain (at_time 50) "t" dee "dee@x.io" start).0 ≡ ok some_view
unfolding accept_invitation prisma_projects memory is_valid_uuid uuid ◌=s=◌ parse_role filter_map
accepted = refl

accept_invitation-joins_example :
    (50 ≤ 100)
    × (normalize_email plain "dee@x.io" ≡ normalize_email plain "dee@x.io")
    × Joined repo laws plain
        (at_time 50)
        letter
        dee
        start.store
        (accept_invitation repo plain (at_time 50) "t" dee "dee@x.io" start).1.store
unfolding is_valid_uuid uuid
accept_invitation-joins_example =
    accept_invitation-joins repo laws plain (at_time 50) "t" dee "dee@x.io" start letter some_view
      letter_found refl refl refl accepted

invited : (invite_member repo plain (at_time 50) board ann "eve@x.io" admin start).0 ≡ ok some_view
unfolding invite_member can_assign_role prisma_projects memory is_valid_uuid uuid ◌=s=◌ parse_role
    filter_map
invited = refl

invite_member-authority_example :
    (a : ProjectMember) × (repo.find_membership board ann start.store ≡ some a)
    × MayAssign a.role viewer admin
invite_member-authority_example =
    invite_member-authority repo plain (at_time 50) board ann "eve@x.io" admin start some_view
      invited
