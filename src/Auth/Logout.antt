-- ===== src/Auth/Logout.antt =====
-- Signing out: src/modules/auth/application/commands/logout.handler.ts, with the revoked tokens of
-- src/modules/auth/infrastructure/services/token-blacklist.service.ts, and the guard of requests,
-- src/common/guards/jwt-auth.guard.ts. The token that `extractBearerToken` finds in a request is an
-- argument of the guard.
use collabai_backend.Prelude.{
  ℕ, ◌+◌, ◌-◌, ◌*◌, ◌/◌, ◌≤◌, ◌<◌, ◌≡◌, String, Bool, false, Option, none, some, is_some, truthy,
  ltb, ◌=s=◌, if◌then◌else◌, Result, ok, err,
}
use collabai_backend.Prisma.{Table}
use collabai_backend.Auth.Tokens.{TokenRow, same_hash, find_by_hash, delete_by_id}

-- Values with a time to live, under the `jti` behind the prefix `blacklist:`. `none`: the call fails.
pub record ExpiringStore : Type 1 where
  pub State : Type 0
  pub get : ℕ → String → State → Option (Option String)
  pub set : ℕ → String → String → ℕ → State → Option State

-- Redis as documented, while it answers: SET with EX keeps a value for so many seconds.
pub record IsAnswering (store : ExpiringStore) : Type 0 where
  pub set-lasting :
      (now seconds : ℕ) (key value : String) (s : store.State)
      → 1 ≤ seconds
      → (t : store.State) × (store.set now key value seconds s ≡ some t)
        × ((later : ℕ)
            → now ≤ later
            → later < now + seconds * 1000
            → store.get later key t ≡ some (some value))

-- `JwtPayload`
pub record Claims : Type 0 where
  pub sub : String
  pub email : String
  pub role : String
  pub jti : Option String
  pub exp : Option ℕ

-- @nestjs/jwt: `decode` looks at no signature, `verify` does.
pub record JwtService : Type 0 where
  pub decode : String → Option Claims
  pub verify : ℕ → String → Option Claims

-- The library as documented: a token that is good has the claims that are in it, and has not expired.
pub record IsJwt (jwt : JwtService) : Type 0 where
  pub verify-decode :
      (now : ℕ) (token : String) (claims : Claims)
      → jwt.verify now token ≡ some claims
      → jwt.decode token ≡ some claims
  pub verify-exp :
      (now exp : ℕ) (token : String) (claims : Claims)
      → jwt.verify now token ≡ some claims
      → claims.exp ≡ some exp
      → now / 1000 < exp

pub data GuardError : Type 0 where
  token_missing token_invalid payload_invalid token_revoked : GuardError

pub record AuthenticatedUser : Type 0 where
  pub id : String
  pub email : String
  pub role : String

module _ (store : ExpiringStore) where
  unfoldable pub is_blacklisted : ℕ → String → store.State → Bool
  is_blacklisted now jti s =
      if jti =s= ""
      then false
      else elim (store.get now jti s) [ none ↦ false | some value ↦ is_some value ]

  unfoldable pub blacklist : ℕ → String → ℕ → store.State → store.State
  blacklist now jti seconds s =
      if jti =s= "" then s else elim (store.set now jti "1" seconds s) [ none ↦ s | some t ↦ t ]

  module _ (jwt : JwtService) where
    -- Where there is a `jti`.
    unfoldable pub revoked : ℕ → Option String → store.State → Bool
    unfolding is_blacklisted
    revoked now none s = false
    revoked now (some jti) s = is_blacklisted now jti s

    unfoldable pub admitted : ℕ → Claims → store.State → Result GuardError AuthenticatedUser
    unfolding revoked
    admitted now claims s =
        if claims.sub =s= ""
        then err payload_invalid
        else if revoked now (truthy claims.jti) s
        then err token_revoked
        else ok (record { id = claims.sub; email = claims.email; role = claims.role })

    -- `JwtAuthGuard.canActivate`
    unfoldable pub can_activate :
        ℕ → Option String → store.State → Result GuardError AuthenticatedUser
    unfolding admitted
    can_activate now none s = err token_missing
    can_activate now (some token) s = elim (jwt.verify now token) [
      | none ↦ err token_invalid
      | some claims ↦ admitted now claims s
    ]

    module _ (tokens : Table TokenRow same_hash) (hash : String → String) where
      pub record Session : Type 0 where
        pub rows : tokens.Contents
        pub revocations : store.State

      unfoldable pub drop_refresh : Option String → tokens.Contents → tokens.Contents
      drop_refresh none t = t
      drop_refresh (some raw) t = elim (find_by_hash tokens (hash raw) t) [
        | none ↦ t
        | some token ↦ delete_by_id tokens token.id t
      ]

      -- For the time that is left of it.
      unfoldable pub revoke_claims : ℕ → Option String → Option ℕ → store.State → store.State
      unfolding blacklist
      revoke_claims now none exp s = s
      revoke_claims now (some jti) none s = s
      revoke_claims now (some jti) (some exp) s =
          if ltb (now / 1000) exp then blacklist now jti (exp - now / 1000) s else s

      unfoldable pub revoke_access : ℕ → Option String → store.State → store.State
      unfolding revoke_claims
      revoke_access now none s = s
      revoke_access now (some token) s = elim (jwt.decode token) [
        | none ↦ s
        | some claims ↦ revoke_claims now (truthy claims.jti) claims.exp s
      ]

      -- `LogoutHandler.execute`
      unfoldable pub logout : ℕ → Option String → Option String → Session → Session
      logout now refresh access s = record {
        rows = drop_refresh (truthy refresh) s.rows;
        revocations = revoke_access now (truthy access) s.revocations;
      }
