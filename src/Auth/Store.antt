-- ===== src/Auth/Store.antt =====
-- `class UserRepository` of src/modules/auth/infrastructure/persistence/user.repository.ts: the rows of
-- the database behind a cache. A call of the cache that fails is passed over, so a read of it gives
-- nothing, a write does nothing and a deletion leaves the entry. A row is a `User`, whose `is_verified` is the column
-- `emailVerified`; the clock of the client sets `updatedAt`. What `resetPassword` deletes from the
-- cache of sessions, which nothing reads, is left out.
use collabai_backend.Prelude.{ℕ, String, Bool, Option, none, some, ◌=s=◌, truthy, ◌≡◌, or_else}
use mathlib.Core.Option
use collabai_backend.Prisma.{Table}
use collabai_backend.Projects.Entities.{TextOps}
use collabai_backend.Auth.Tokens.{TokenRow, same_hash, of_user}
use collabai_backend.Auth.Users.{User, UserRepository}

-- authCacheKeys
pub data CacheKey : Type 0 where
  auth_user_entity safe_user_entity auth_user_email_lookup : String → CacheKey

-- What `UserEntity.toPersistence` gives: it has no picture.
pub record UserProps : Type 0 where
  pub id : String
  pub email : String
  pub name : String
  pub password_hash : String
  pub role : String
  pub is_verified : Bool
  pub verification_code : Option String
  pub verification_code_expiry : Option ℕ
  pub password_reset_code : Option String
  pub password_reset_code_expiry : Option ℕ
  pub is_active : Bool
  pub created_at : ℕ
  pub updated_at : ℕ
  pub last_login : Option ℕ
  pub deleted_at : Option ℕ

unfoldable pub to_props : User → UserProps
to_props u = record {
  id = u.id;
  email = u.email;
  name = u.name;
  password_hash = u.password_hash;
  role = u.role;
  is_verified = u.is_verified;
  verification_code = u.verification_code;
  verification_code_expiry = u.verification_code_expiry;
  password_reset_code = u.password_reset_code;
  password_reset_code_expiry = u.password_reset_code_expiry;
  is_active = u.is_active;
  created_at = u.created_at;
  updated_at = u.updated_at;
  last_login = u.last_login;
  deleted_at = u.deleted_at;
}

-- `UserEntity.fromPersistence` on such props: `props.avatarUrl ?? null`.
unfoldable pub from_props : UserProps → User
from_props p = record {
  id = p.id;
  email = p.email;
  name = p.name;
  password_hash = p.password_hash;
  role = p.role;
  is_verified = p.is_verified;
  avatar_url = none;
  verification_code = p.verification_code;
  verification_code_expiry = p.verification_code_expiry;
  password_reset_code = p.password_reset_code;
  password_reset_code_expiry = p.password_reset_code_expiry;
  is_active = p.is_active;
  created_at = p.created_at;
  updated_at = p.updated_at;
  last_login = p.last_login;
  deleted_at = p.deleted_at;
}

-- The Redis client, and JSON with dates revived. A deletion may fail; after one that does not the key
-- is not found, and it brings no key back. What JSON prints, which is never empty, it reads. An id
-- stands as it is.
pub record Cache : Type 1 where
  pub State : Type 0
  pub Text : Type 0
  pub get : CacheKey → State → Option Text
  pub set : CacheKey → Text → State → State
  pub del : CacheKey → State → Option State
  pub stringify : UserProps → Text
  pub parse : Text → UserProps
  pub stringify_safe : User → Text
  pub from_id : String → Text
  pub to_id : Text → String
  pub parse-stringify : (p : UserProps) → parse (stringify p) ≡ p
  pub del-gone : (k : CacheKey) (s s' : State) → del k s ≡ some s' → get k s' ≡ none
  pub del-keeps :
      (k j : CacheKey) (s s' : State) → get k s ≡ none → del j s ≡ some s' → get k s' ≡ none

-- One key of `cacheDel`: where the deletion fails, the entry stays.
unfoldable pub drop_key : (cache : Cache) → CacheKey → cache.State → cache.State
drop_key cache k s = or_else (cache.del k s) s

-- id @id
abbrev pub same_user_id : User → User → Bool
same_user_id a b = a.id =s= b.id

module _ (users : Table User same_user_id) (tokens : Table TokenRow same_hash) (cache : Cache)
    (text : TextOps) (clock : ℕ) where
  pub record Store : Type 0 where
    pub rows : users.Contents
    pub sessions : tokens.Contents
    pub cached : cache.State

  abbrev normal_email : String → String
  normal_email email = text.trim (text.to_lower email)

  populate : User → Store → Store
  populate u s = record s {
    cached =
        cache.set (safe_user_entity u.id) (cache.stringify_safe u)
          (cache.set (auth_user_entity u.id) (cache.stringify (to_props u)) s.cached);
  }

  find_row : Option User → Store → Option User × Store
  unfolding populate
  find_row none s = (none, s)
  find_row (some u) s = (some u, populate u s)

  find_cached_or_row : Option cache.Text → String → Store → Option User × Store
  unfolding find_row
  find_cached_or_row none id s = find_row (users.find_first (λ u. id =s= u.id) s.rows) s
  find_cached_or_row (some json) id s = (some (from_props (cache.parse json)), s)

  -- `findById`
  unfoldable pub find_user : String → Store → Option User × Store
  unfolding find_cached_or_row
  find_user id s = find_cached_or_row (cache.get (auth_user_entity id) s.cached) id s

  abbrev remember : String → Option User × Store → Option User × Store
  remember email (none, s) = (none, s)
  remember email (some u, s) = (
    some u,
    record s { cached = cache.set (auth_user_email_lookup email) (cache.from_id u.id) s.cached },
  )

  find_by_address : String → Store → Option User × Store
  unfolding find_row
  find_by_address email s =
      remember email (find_row (users.find_first (λ u. u.email =s= email) s.rows) s)

  abbrev or_by_address : String → Option User × Store → Option User × Store
  or_by_address email (none, s) = find_by_address email s
  or_by_address email (some u, s) = (some u, s)

  find_looked_up : Option String → String → Store → Option User × Store
  unfolding find_user find_by_address
  find_looked_up none email s = find_by_address email s
  find_looked_up (some id) email s = or_by_address email (find_user id s)

  -- `findByEmail`
  unfoldable pub find_user_by_address : String → Store → Option User × Store
  unfolding find_looked_up
  find_user_by_address email s =
      find_looked_up
        (truthy (
          Option.map cache.to_id
            (cache.get (auth_user_email_lookup (normal_email email)) s.cached)))
        (normal_email email) s

  invalidate : String → String → Store → Store
  unfolding drop_key
  invalidate id email s = record s {
    cached =
        drop_key cache (auth_user_email_lookup email)
          (drop_key cache (safe_user_entity id) (drop_key cache (auth_user_entity id) s.cached));
  }

  -- The row that a write of `u` leaves where `old` stood.
  unfoldable pub written : User → User → User
  written u old = record u {
    id = old.id;
    email = normal_email u.email;
    created_at = old.created_at;
    updated_at = clock;
  }

  upsert : Option User → User → Store → Option users.Contents
  unfolding written
  upsert none u s = users.create (written u u) s.rows
  upsert (some old) u s = users.update (λ x. u.id =s= x.id) (written u) s.rows

  -- `save`
  unfoldable pub save_user : User → Store → Option Store
  unfolding upsert invalidate
  save_user u s = elim (upsert (users.find_first (λ x. u.id =s= x.id) s.rows) u s) [
    | none ↦ none
    | some rows ↦ some (invalidate u.id (normal_email u.email) (record s { rows = rows }))
  ]

  -- `resetPassword`
  unfoldable pub reset_user_password : User → Store → Option Store
  unfolding invalidate
  reset_user_password u s = elim (users.update (λ x. u.id =s= x.id) (written u) s.rows) [
    | none ↦ none
    | some rows ↦ some (
        invalidate u.id (normal_email u.email)
          (record s { rows = rows; sessions = tokens.delete_many (of_user u.id) s.sessions }))
  ]

  abbrev pub prisma_users : UserRepository
  prisma_users = record {
    State = Store;
    find_by_email = find_user_by_address;
    find_by_id = find_user;
    save = save_user;
    reset_password = reset_user_password;
  }
