-- ===== src/Auth/Login.antt =====
-- src/modules/auth/application/commands/login.handler.ts.
use collabai_backend.Prelude.{
  ◌+◌, String, Bool, not, Option, none, some, ok, err, Action, if◌then◌else◌,
}
use collabai_backend.Prisma.{Table}
use collabai_backend.Projects.Entities.{TextOps}
use collabai_backend.Auth.Tokens.{
  TokenRow, same_hash, TokenService, Draws, RefreshToken, save_token, refresh_ttl,
}
use collabai_backend.Auth.Users.{User, UserRepository, record_login}
use collabai_backend.Auth.Codes.{
  AuthError, invalid_credentials, login_blocked, email_not_verified, database,
}
use collabai_backend.Auth.Lockout.{Redis, is_locked, record_failed_attempt, clear_attempts}

pub record LoginResult : Type 0 where
  pub access_token : String
  pub refresh_token : String
  pub user : User

-- The accounts, the counters of failures and the sessions.
pub record Entry (repo : UserRepository) (redis : Redis) (tokens : Table TokenRow same_hash)
    : Type 0 where
  pub users : repo.State
  pub locks : redis.State
  pub sessions : tokens.Contents

module _ (repo : UserRepository) (redis : Redis) (tokens : Table TokenRow same_hash)
    (service : TokenService) (compare : String → String → Bool) (text : TextOps) where
  abbrev pub Handler : Type 0 → Type 0
  Handler A = Action (Entry repo redis tokens) AuthError A

  abbrev first_token : Draws → User → RefreshToken
  first_token d user = record {
    id = d.token_id;
    user_id = user.id;
    token_hash = service.hash (service.sign_refresh d.now user.id d.refresh_jti);
    expires_at = d.now + refresh_ttl;
    created_at = d.now;
  }

  -- What follows a right password: the counters go, the login is recorded, a session is opened.
  open_session : Draws → String → User → Handler LoginResult
  open_session d email user w =
      let logged = record_login d.now user in
      let cleared = record w { locks = clear_attempts redis text email w.locks } in
      elim (repo.save logged cleared.users) [
        | none ↦ (err database, cleared)
        | some s ↦ elim (save_token tokens (first_token d user) cleared.sessions) [
          | none ↦ (err database, record cleared { users = s })
          | some t ↦ (
            ok (record {
              access_token = service.sign_access user.id d.access_jti;
              refresh_token = service.sign_refresh d.now user.id d.refresh_jti;
              user = logged;
            }),
            record cleared { users = s; sessions = t },
          )
        ]
      ]

  -- The attempt is counted, whether there is no such account or the password is wrong.
  abbrev reject : String → String → Handler LoginResult
  reject email ip w = (
    err invalid_credentials,
    record w { locks = record_failed_attempt redis text email ip w.locks },
  )

  admit : Draws → String → String → String → Option User → Handler LoginResult
  unfolding open_session
  admit d email ip password none w = reject email ip w
  admit d email ip password (some user) w =
      if not (compare password user.password_hash)
      then reject email ip w
      else if not user.is_verified
      then (err email_not_verified, w)
      else open_session d email user w

  -- `LoginHandler.execute`
  unfoldable pub login : Draws → String → String → String → Handler LoginResult
  unfolding admit
  login d address ip password w =
      let email = text.trim (text.to_lower address) in
      let (found, s) = repo.find_by_email email w.users in
      if is_locked redis text email ip w.locks
      then (err login_blocked, w)
      else admit d email ip password found (record w { users = s })
