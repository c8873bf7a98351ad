-- ===== src/Auth/Users.antt =====
-- src/modules/auth/domain/entities/user.entity.ts, the code rules of
-- src/modules/auth/domain/services/auth.domain.service.ts, and the port
-- src/modules/auth/domain/repositories/user.repository.interface.ts, as far as the handlers use it.
use collabai_backend.Prelude.{
  ℕ, ◌+◌, ◌*◌, String, Bool, true, false, not, ◌||◌, Option, none, some, or_else, leb, ◌=s=◌,
  if◌then◌else◌,
}
use collabai_backend.Projects.Entities.{TextOps}

pub record User : Type 0 where
  pub id : String
  pub email : String
  pub name : String
  pub password_hash : String
  pub role : String
  pub is_verified : Bool
  pub avatar_url : Option String
  pub verification_code : Option String
  pub verification_code_expiry : Option ℕ
  pub password_reset_code : Option String
  pub password_reset_code_expiry : Option ℕ
  pub is_active : Bool
  pub created_at : ℕ
  pub updated_at : ℕ
  pub last_login : Option ℕ
  pub deleted_at : Option ℕ

-- `UserEntity.create`, without a role among the props.
abbrev pub create_user : TextOps → ℕ → String → String → String → String → User
create_user text now id email name password_hash = record {
  id = id;
  email = text.trim (text.to_lower email);
  name = name;
  password_hash = password_hash;
  role = "member";
  is_verified = false;
  avatar_url = none;
  verification_code = none;
  verification_code_expiry = none;
  password_reset_code = none;
  password_reset_code_expiry = none;
  is_active = true;
  created_at = now;
  updated_at = now;
  last_login = none;
  deleted_at = none;
}

abbrev pub set_verification_code : ℕ → String → ℕ → User → User
set_verification_code now code expiry u = record u {
  verification_code = some code;
  verification_code_expiry = some expiry;
  updated_at = now;
}

abbrev pub mark_verified : ℕ → User → User
mark_verified now u = record u {
  is_verified = true;
  verification_code = none;
  verification_code_expiry = none;
  updated_at = now;
}

abbrev pub set_password_reset_code : ℕ → String → ℕ → User → User
set_password_reset_code now code expiry u = record u {
  password_reset_code = some code;
  password_reset_code_expiry = some expiry;
  updated_at = now;
}

abbrev pub clear_password_reset_code : ℕ → User → User
clear_password_reset_code now u = record u {
  password_reset_code = none;
  password_reset_code_expiry = none;
  updated_at = now;
}

abbrev pub change_password : ℕ → String → User → User
change_password now hash u = clear_password_reset_code now (record u { password_hash = hash })

abbrev pub record_login : ℕ → User → User
record_login now u = record u { last_login = some now; updated_at = now }

-- `updateProfile`: a field is absent or given, the picture also as null.
abbrev pub update_profile_fields : ℕ → Option String → Option (Option String) → User → User
update_profile_fields now name avatar u = record u {
  name = or_else name u.name;
  avatar_url = or_else avatar u.avatar_url;
  updated_at = now;
}

-- `isCodeExpired`: without an expiry there is nothing to trust.
abbrev pub is_code_expired : Option ℕ → ℕ → Bool
is_code_expired none now = true
is_code_expired (some expiry) now = leb expiry now

-- `isCodeValid`
unfoldable pub is_code_valid : Option String → Option ℕ → String → ℕ → Bool
unfolding ◌=s=◌
is_code_valid none expiry given now = false
is_code_valid (some stored) expiry given now =
    if stored =s= "" || given =s= ""
    then false
    else if not (stored =s= given)
    then false
    else not (is_code_expired expiry now)

-- `computeExpiry`
abbrev pub compute_expiry : ℕ → ℕ → ℕ
compute_expiry minutes from = from + minutes * 60 * 1000

-- A lookup may fill a cache, so it too gives a state.
pub record UserRepository : Type 1 where
  pub State : Type 0
  pub find_by_email : String → State → Option User × State
  pub find_by_id : String → State → Option User × State
  pub save : User → State → Option State
  -- The new password and the deletion of the user's sessions, in one transaction.
  pub reset_password : User → State → Option State
