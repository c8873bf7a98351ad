-- ===== src/Projects/Entities.antt =====
-- src/modules/projects/domain/entities and the read models of
-- src/modules/projects/domain/repositories/project.repository.interface.ts. A date is a number of
-- milliseconds; `new Date()` is the argument `now`.
use collabai_backend.Prelude.{ℕ, String, Bool, true, false, Option, none, some, List}
use collabai_backend.Projects.Role.{ProjectRole}

pub record ProjectMember : Type 0 where
  pub id : String
  pub project_id : String
  pub user_id : String
  pub role : ProjectRole
  pub invited_by : Option String
  pub joined_at : Option ℕ
  pub is_active : Bool

-- `ProjectMemberEntity.create`
abbrev pub create_member :
    ℕ → String → String → String → ProjectRole → Option String → ProjectMember
create_member now id project_id user_id role invited_by = record {
  id = id;
  project_id = project_id;
  user_id = user_id;
  role = role;
  invited_by = invited_by;
  joined_at = some now;
  is_active = true;
}

pub record Project : Type 0 where
  pub id : String
  pub owner_id : String
  pub name : String
  pub description : Option String
  pub icon : Option String
  pub color : Option String
  pub is_archived : Bool
  pub created_at : ℕ
  pub updated_at : ℕ
  pub deleted_at : Option ℕ

pub record CreateProjectProps : Type 0 where
  pub id : String
  pub owner_id : String
  pub name : String
  pub description : Option String
  pub icon : Option String
  pub color : Option String

-- A field of a patch: absent (`undefined`), or given.
abbrev pub given {ℓ} : {A : Type ℓ} → Option A → A → A
given none old = old
given (some new) old = new

-- A nullable text field is absent, or given as null or a text.
pub record ProjectPatch : Type 0 where
  pub name : Option String
  pub description : Option (Option String)
  pub icon : Option (Option String)
  pub color : Option (Option String)

pub record ProjectMemberView : Type 0 where
  pub user_id : String
  pub role : ProjectRole
  pub name : String
  pub email : String
  pub avatar_url : Option String
  pub joined_at : Option ℕ

pub record ProjectView : Type 0 where
  pub project : Project
  pub members : List ProjectMemberView

-- `ProjectInvitationView`; the role is the text of the database column.
pub record Invitation : Type 0 where
  pub id : String
  pub project_id : String
  pub email : String
  pub role : String
  pub token : String
  pub invited_by : String
  pub inviter_name : Option String
  pub expires_at : ℕ
  pub created_at : ℕ

-- What `createInvitation` is given.
pub record InvitationData : Type 0 where
  pub id : String
  pub project_id : String
  pub email : String
  pub role : String
  pub token : String
  pub invited_by : String
  pub expires_at : ℕ

pub record UserRef : Type 0 where
  pub id : String
  pub name : String

-- Texts are trimmed and put in lower case by the JavaScript runtime.
pub record TextOps : Type 0 where
  pub trim : String → String
  pub to_lower : String → String

module _ (text : TextOps) where
  abbrev pub trim_all : Option String → Option String
  trim_all none = none
  trim_all (some s) = some (text.trim s)

  -- `ProjectEntity.create`
  abbrev pub create_project_entity : ℕ → CreateProjectProps → Project
  create_project_entity now props = record {
    id = props.id;
    owner_id = props.owner_id;
    name = text.trim props.name;
    description = trim_all props.description;
    icon = props.icon;
    color = props.color;
    is_archived = false;
    created_at = now;
    updated_at = now;
    deleted_at = none;
  }

  abbrev trim_given : Option (Option String) → Option (Option String)
  trim_given none = none
  trim_given (some s) = some (trim_all s)

  abbrev trim_name : Option String → String → String
  trim_name none old = old
  trim_name (some new) old = text.trim new

  -- `ProjectEntity.applyUpdate`, with its call of `touch`.
  abbrev pub apply_project_update : ℕ → ProjectPatch → Project → Project
  apply_project_update now patch p = record p {
    name = trim_name patch.name p.name;
    description = given (trim_given patch.description) p.description;
    icon = given patch.icon p.icon;
    color = given patch.color p.color;
    updated_at = now;
  }
