-- ===== src/Auth/Codes.antt =====
-- Codes sent by e-mail: src/modules/auth/application/commands, verify-email, verify-password-reset,
-- request-password-reset, resend-email-verification, register, reset-password and update-profile.
-- What bcrypt, the code generator and `uuidv4()` give is an argument.
use collabai_backend.Prelude.{
  ℕ, String, Bool, true, false, not, ◌||◌, Option, none, some, List, [], ◌∷◌, ◌++◌, ok, err, Action,
  ◌>>=◌, ◌>>◌, pure, throw, throw_if, ◌=s=◌, if◌then◌else◌,
}
use collabai_backend.Projects.Entities.{TextOps}
use collabai_backend.Auth.Users.{
  User, UserRepository, create_user, set_verification_code, mark_verified, set_password_reset_code,
  clear_password_reset_code, change_password, update_profile_fields, is_code_expired,
  compute_expiry,
}

-- src/modules/auth/application/errors/auth.errors.ts; `database` is what the client throws.
pub data AuthError : Type 0 where
  invalid_code code_expired email_already_verified email_already_registered : AuthError
  user_not_found invalid_credentials login_blocked email_not_verified database : AuthError
  weak_password : List String → AuthError

pub data AuthEvent : Type 0 where
  user_registered : String → String → String → String → AuthEvent
  email_verified : String → String → AuthEvent
  password_reset_requested : String → String → String → AuthEvent
  password_reset_success : String → String → AuthEvent

pub record Accounts (repo : UserRepository) : Type 0 where
  pub store : repo.State
  pub events : List AuthEvent

module _ (repo : UserRepository) (text : TextOps) where
  abbrev pub Handler : Type 0 → Type 0
  Handler A = Action (Accounts repo) AuthError A

  abbrev pub normal : String → String
  normal email = text.trim (text.to_lower email)

  abbrev pub lookup : String → Handler (Option User)
  lookup email w =
      let (found, s) = repo.find_by_email (normal email) w.store in
      (ok found, record w { store = s })

  abbrev pub demand_user : Option User → AuthError → Handler User
  demand_user none e = throw e
  demand_user (some u) e = pure u

  abbrev pub save : (repo.State → Option repo.State) → Handler (Unit {0})
  save f w = elim (f w.store) [
    | none ↦ (err database, w)
    | some s ↦ (ok tt, record w { store = s })
  ]

  abbrev pub emit : AuthEvent → Handler (Unit {0})
  emit e w = (ok tt, record w { events = w.events ++ e ∷ [] })

  -- `!code || stored !== code`, on the trimmed code.
  unfoldable pub wrong_code : Option String → Option String → Bool
  unfolding ◌=s=◌
  wrong_code stored none = true
  wrong_code none (some code) = true
  wrong_code (some stored) (some code) = text.trim code =s= "" || not (stored =s= text.trim code)

  -- `VerifyEmailHandler.execute`
  unfoldable pub verify_email : ℕ → String → Option String → Handler (Unit {0})
  verify_email now email code = do
    found ← lookup email
    user ← demand_user found invalid_code
    throw_if user.is_verified email_already_verified
    throw_if (wrong_code user.verification_code code) invalid_code
    throw_if (is_code_expired user.verification_code_expiry now) code_expired
    save (repo.save (mark_verified now user))
    emit (email_verified user.id user.email)

  -- `VerifyPasswordResetHandler.execute`
  unfoldable pub verify_password_reset : ℕ → String → Option String → Handler (Unit {0})
  verify_password_reset now email code = do
    found ← lookup email
    user ← demand_user found invalid_code
    throw_if (wrong_code user.password_reset_code code) invalid_code
    throw_if (is_code_expired user.password_reset_code_expiry now) code_expired
    save (repo.save (clear_password_reset_code now user))

  request_for : ℕ → String → Option User → Handler (Unit {0})
  request_for now code none = pure tt
  request_for now code (some user) = do
    save (repo.save (set_password_reset_code now code (compute_expiry 3 now) user))
    emit (password_reset_requested user.id user.email code)

  -- `RequestPasswordResetHandler.execute`
  unfoldable pub request_password_reset : ℕ → String → String → Handler (Unit {0})
  unfolding request_for
  request_password_reset now code email = do found ← lookup email; request_for now code found

  resend_to : ℕ → String → Option User → Handler (Unit {0})
  resend_to now code none = pure tt
  resend_to now code (some user) =
      let renewed = set_verification_code now code (compute_expiry 3 now) user in
      if user.is_verified
      then pure tt
      else (do save (repo.save renewed); emit (user_registered user.id user.email user.name code))

  -- `ResendEmailVerificationHandler.execute`
  unfoldable pub resend_email_verification : ℕ → String → String → Handler (Unit {0})
  unfolding resend_to
  resend_email_verification now code email = do found ← lookup email; resend_to now code found

  -- The account that a registration writes: an unverified one is taken over, with its id.
  unfoldable pub registered : ℕ → String → String → String → String → Option User → User
  registered now id email name hash none = create_user text now id email name hash
  registered now id email name hash (some old) = record old { name = name; password_hash = hash }

  abbrev taken : Option User → Bool
  taken none = false
  taken (some user) = user.is_verified

  -- `RegisterHandler.execute`: `problems` are the errors of the password policy, `name` the trimmed
  -- full name.
  unfoldable pub register :
      ℕ → String → String → String → List String → String → String → Handler String
  unfolding registered
  register now id code hash problems name email = do
    elim problems [ [] ↦ pure tt | p ∷ ps ↦ throw (weak_password (p ∷ ps)) ]
    found ← lookup email
    throw_if (taken found) email_already_registered
    let user =
        set_verification_code now code (compute_expiry 3 now)
          (registered now id (normal email) name hash found)
    save (repo.save user)
    emit (user_registered user.id user.email user.name code)
    pure user.email

  -- `ResetPasswordHandler.execute`
  unfoldable pub reset_password : ℕ → String → List String → String → Handler (Unit {0})
  reset_password now hash problems email = do
    elim problems [ [] ↦ pure tt | p ∷ ps ↦ throw (weak_password (p ∷ ps)) ]
    found ← lookup email
    user ← demand_user found user_not_found
    save (repo.reset_password (change_password now hash user))
    emit (password_reset_success user.id user.email)

  -- `UpdateProfileHandler.execute`
  unfoldable pub update_profile : ℕ → String → Option String → Option (Option String) → Handler User
  update_profile now id name avatar w =
      let (found, s) = repo.find_by_id id w.store in
      let act = (do
        user ← demand_user found user_not_found
        let changed = update_profile_fields now name avatar user
        save (repo.save changed)
        pure changed) in
      act (record w { store = s })
