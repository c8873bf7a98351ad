-- ===== src/Auth/SignIn.antt =====
-- Signing in and guessing: src/modules/auth/application/commands/login.handler.ts with the lock-out of
-- src/modules/auth/infrastructure/services/account-lockout.service.ts.
use collabai_backend.Prelude.{
  ◌≤◌, ◌≡◌, String, Bool, true, false, some, ok, err, List, [], ◌∷◌, map, length, arith, refl,
}
use collabai_backend.Prisma.{Table}
use collabai_backend.Projects.Entities.{TextOps}
use collabai_backend.Auth.Tokens.{TokenRow, same_hash, TokenService, Draws}
use collabai_backend.Auth.Users.{User, UserRepository, record_login}
use collabai_backend.Auth.Codes.{invalid_credentials, login_blocked}
use collabai_backend.Auth.Lockout.{
  Redis, IsReachable, account_attempts, account_blocked, is_locked, record_failed_attempt,
  normalize,
}
use collabai_backend.Auth.BruteForce.{failures, is_locked-failures}
use collabai_backend.Auth.Login.{LoginResult, Entry, login}

-- A guess, and where it comes from.
pub record Guess : Type 0 where
  pub draws : Draws
  pub ip : String
  pub password : String

length-map : {A B : Type 0} (f : A → B) (xs : List A) → length (map f xs) ≡ length xs
length-map f [] = refl
length-map f (x ∷ xs) = ground (arith, length-map f xs)

module _ (repo : UserRepository) (redis : Redis) (tokens : Table TokenRow same_hash)
    (service : TokenService) (compare : String → String → Bool) (text : TextOps) where
  -- Only the owner gets in: a login that succeeds was not locked, found the account of the address,
  -- matched its password, and the account's address is verified.
  pub login-admits :
      (d : Draws) (address ip password : String) (result : LoginResult)
      (w : Entry repo redis tokens)
      → (login repo redis tokens service compare text d address ip password w).0 ≡ ok result
      → let email = text.trim (text.to_lower address) in
        (is_locked redis text email ip w.locks ≡ false)
        × ((user : User) × ((repo.find_by_email email w.users).0 ≡ some user)
            × (compare password user.password_hash ≡ true)
            × (user.is_verified ≡ true)
            × (result.user ≡ record_login d.now user))
  unfolding login
  login-admits d address ip password result w done = ground arith

  login-counts :
      (d : Draws) (address ip password : String) (w : Entry repo redis tokens)
      → (login repo redis tokens service compare text d address ip password w).0
        ≡ err invalid_credentials
      → (login repo redis tokens service compare text d address ip password w).1.locks
        ≡ record_failed_attempt redis text (text.trim (text.to_lower address)) ip w.locks
  unfolding login
  login-counts d address ip password w done = ground arith

  -- The world after the guesses, and that each was turned down as wrong.
  unfoldable pub guess_all : String → List Guess → Entry repo redis tokens → Entry repo redis tokens
  guess_all address [] w = w
  guess_all address (g ∷ gs) w =
      guess_all address gs
        (login repo redis tokens service compare text g.draws address g.ip g.password w).1

  unfoldable pub AllWrong : String → List Guess → Entry repo redis tokens → Type 0
  AllWrong address [] w = Unit
  AllWrong address (g ∷ gs) w =
      let (r, w') =
        login repo redis tokens service compare text g.draws address g.ip g.password w in
      (r ≡ err invalid_credentials) × AllWrong address gs w'

  guess_all-locks :
      (address : String) (gs : List Guess) (w : Entry repo redis tokens)
      → AllWrong address gs w
      → (guess_all address gs w).locks
        ≡ failures redis text (text.trim (text.to_lower address)) (map (λ g. g.ip) gs) w.locks
  unfolding guess_all AllWrong failures
  guess_all-locks address [] w h = refl
  guess_all-locks address (g ∷ gs) w (wrong, h) =
      ground (arith, login-counts g.draws address g.ip g.password w, guess_all-locks address gs _ h)

  -- While Redis answers and within one window: once five guesses at an account that had no failures
  -- have been turned down, from whatever addresses, every further login to the account is refused and
  -- changes nothing, the one with the right password included.
  pub login-locks_out :
      (up : IsReachable redis) (address : String) (gs : List Guess) (d : Draws)
      (ip password : String) (w : Entry repo redis tokens)
      → let email = normalize redis text (text.trim (text.to_lower address)) in
        up.counter (account_attempts email) w.locks ≡ 0
        → redis.exists (account_blocked email) w.locks ≡ some false
        → AllWrong address gs w
        → 5 ≤ length gs
        → let after = guess_all address gs w in
          login repo redis tokens service compare text d address ip password after
          ≡ (err login_blocked, after)
  unfolding login
  login-locks_out up address gs d ip password w fresh free wrong many = ground (
    arith,
    guess_all-locks address gs w wrong,
    length-map (λ g. g.ip) gs,
    is_locked-failures redis up text (text.trim (text.to_lower address)) ip (map (λ g. g.ip) gs)
        w.locks fresh free,
  )
