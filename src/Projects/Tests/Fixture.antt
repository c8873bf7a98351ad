-- ===== src/Projects/Tests/Fixture.antt =====
-- A project with two owners, a member and an invitation.
use collabai_backend.Prelude.{◌≡◌, refl, String, Bool, true, none, some, [], ◌∷◌, arith, ◌=s=◌, ok}
use collabai_backend.Prisma.Memory.{memory, same_text-shared}
use collabai_backend.Projects.Role.{ProjectRole}
use collabai_backend.Projects.Entities.{ProjectMember, TextOps}
use collabai_backend.Projects.Repository.{ProjectRepository, IsLawful}
use collabai_backend.Projects.World.{World, Handler}
use collabai_backend.Projects.Persistence.Rows.{
  MemberRow, Client, same_member, same_project, same_account, same_invitation, same_task,
  same_notification,
}
use collabai_backend.Projects.Persistence.Calls.{prisma_projects}
use collabai_backend.Projects.Persistence.Laws.{prisma_projects-IsLawful}

pub member-shared :
    (r x y : MemberRow) → same_member r x ≡ true → same_member r y ≡ true → same_member x y ≡ true
member-shared r x y h k = ground (
  arith,
  same_text-shared r.project_id x.project_id y.project_id,
  same_text-shared r.user_id x.user_id y.user_id,
)

abbrev pub client : Client
client = record {
  projects = memory same_project (λ r x y. same_text-shared r.id x.id y.id);
  members = memory same_member member-shared;
  users = memory same_account (λ r x y. same_text-shared r.id x.id y.id);
  invitations = memory same_invitation (λ r x y. same_text-shared r.id x.id y.id);
  tasks = memory same_task (λ r x y. same_text-shared r.id x.id y.id);
  notifications = memory same_notification (λ r x y. same_text-shared r.id x.id y.id);
  by_joined_at = λ l. l;
  by_created_at = λ l. l;
  clock = 7;
}

-- The texts of the tests are trimmed and in lower case already.
abbrev pub plain : TextOps
plain = record { trim = λ s. s; to_lower = λ s. s }

abbrev pub board : String
board = "10000000-0000-4000-8000-000000000000"

abbrev pub ann : String
ann = "20000000-0000-4000-8000-000000000001"

abbrev pub bob : String
bob = "20000000-0000-4000-8000-000000000002"

abbrev pub cid : String
cid = "20000000-0000-4000-8000-000000000003"

abbrev pub dee : String
dee = "20000000-0000-4000-8000-000000000004"

abbrev pub link : String
link = "30000000-0000-4000-8000-000000000005"

abbrev pub repo : ProjectRepository
repo = prisma_projects client plain

pub laws : IsLawful repo
laws = prisma_projects-IsLawful client plain

abbrev pub row : String → String → MemberRow
row user role = record {
  id = user;
  project_id = board;
  user_id = user;
  role = role;
  invited_by = none;
  joined_at = some 1;
  is_active = true;
}

abbrev pub start : World repo.State
unfolding prisma_projects memory ◌=s=◌
start = record {
  store = record {
    projects = (
      record {
        id = board;
        owner_id = ann;
        name = "Board";
        description = none;
        icon = none;
        color = none;
        is_archived = Bool.false;
        created_at = 1;
        updated_at = 1;
        deleted_at = none;
      }
          ∷ [],
      refl,
    );
    members = (row ann "owner" ∷ row bob "owner" ∷ row cid "member" ∷ [], refl);
    users = ([], refl);
    invitations = (
      record {
        id = link;
        project_id = board;
        email = "dee@x.io";
        role = "admin";
        token = "t";
        invited_by = ann;
        expires_at = 100;
        created_at = 1;
      }
          ∷ [],
      refl,
    );
    tasks = ([], refl);
    notifications = ([], refl);
  };
  sent = [];
}

abbrev pub no_board : String → String → Handler repo.State (Unit {0})
no_board a b w = (ok tt, w)

-- A membership of the fixture as the port gives it.
abbrev pub membership : String → ProjectRole → ProjectMember
membership user role = record {
  id = user;
  project_id = board;
  user_id = user;
  role = role;
  invited_by = none;
  joined_at = some 1;
  is_active = true;
}
