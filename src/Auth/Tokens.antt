-- ===== src/Auth/Tokens.antt =====
-- Refresh tokens: src/modules/auth/domain/entities/refresh-token.entity.ts,
-- src/modules/auth/infrastructure/persistence/refresh-token.repository.ts and
-- src/modules/auth/application/commands/refresh-token.handler.ts. What the repository writes to the
-- cache is left out: nothing in the program reads the keys `cache:auth:refresh:…`.
use collabai_backend.Prelude.{
  ℕ, ◌+◌, ◌*◌, String, Bool, not, ◌&&◌, Option, none, some, is_some, ok, err, Action, ◌=s=◌, leb,
  if◌then◌else◌,
}
use collabai_backend.Prisma.{Table}

-- A row of `RefreshToken`; `revoked_at` is null while the token is live.
pub record TokenRow : Type 0 where
  pub id : String
  pub user_id : String
  pub token_hash : String
  pub expires_at : ℕ
  pub created_at : ℕ
  pub revoked_at : Option ℕ

-- `RefreshTokenEntity`
pub record RefreshToken : Type 0 where
  pub id : String
  pub user_id : String
  pub token_hash : String
  pub expires_at : ℕ
  pub created_at : ℕ

-- tokenHash @unique
abbrev pub same_hash : TokenRow → TokenRow → Bool
same_hash a b = a.token_hash =s= b.token_hash

-- `isExpired`
pub is_expired : RefreshToken → ℕ → Bool
is_expired token now = leb token.expires_at now

abbrev pub to_row : RefreshToken → TokenRow
to_row t = record {
  id = t.id;
  user_id = t.user_id;
  token_hash = t.token_hash;
  expires_at = t.expires_at;
  created_at = t.created_at;
  revoked_at = none;
}

abbrev pub to_domain : TokenRow → RefreshToken
to_domain r = record {
  id = r.id;
  user_id = r.user_id;
  token_hash = r.token_hash;
  expires_at = r.expires_at;
  created_at = r.created_at;
}

pub data RotateOutcome : Type 0 where
  rotated reuse not_found : RotateOutcome

-- `where: { tokenHash, userId, revokedAt: null }`
abbrev pub live : String → String → TokenRow → Bool
live hash user r = hash =s= r.token_hash && user =s= r.user_id && not (is_some r.revoked_at)

-- `where: { tokenHash, userId, revokedAt: { not: null } }`
abbrev pub spent : String → String → TokenRow → Bool
spent hash user r = hash =s= r.token_hash && user =s= r.user_id && is_some r.revoked_at

abbrev pub of_user : String → TokenRow → Bool
of_user user r = user =s= r.user_id

abbrev pub revoke : ℕ → TokenRow → TokenRow
revoke now r = record r { revoked_at = some now }

infixl 5 ◌>>=◌
abbrev ◌>>=◌ : {A B : Type 0} → Option A → (A → Option B) → Option B
none >>= f = none
some a >>= f = f a

module _ (tokens : Table TokenRow same_hash) where
  -- `save`: an upsert by id.
  unfoldable pub save_token : RefreshToken → tokens.Contents → Option tokens.Contents
  save_token token t =
      if is_some (tokens.find_first (λ r. r.id =s= token.id) t)
      then tokens.update (λ r. r.id =s= token.id)
          (λ r. record r {
            user_id = token.user_id;
            token_hash = token.token_hash;
            expires_at = token.expires_at;
          })
          t
      else tokens.create (to_row token) t

  -- `findByHash`: live tokens only.
  unfoldable pub find_by_hash : String → tokens.Contents → Option RefreshToken
  find_by_hash hash t =
      elim (tokens.find_first (λ r. r.token_hash =s= hash && not (is_some r.revoked_at)) t) [
        | none ↦ none
        | some r ↦ some (to_domain r)
      ]

  unfoldable pub delete_by_id : String → tokens.Contents → tokens.Contents
  delete_by_id id t = tokens.delete_many (λ r. r.id =s= id) t

  unfoldable pub delete_all_for_user : String → tokens.Contents → tokens.Contents
  delete_all_for_user user t = tokens.delete_many (of_user user) t

  -- The transaction of `rotate`. `none`: a write is refused, and all is rolled back.
  unfoldable pub rotate :
      ℕ
      → String
      → String
      → RefreshToken
      → tokens.Contents
      → Option (RotateOutcome × tokens.Contents)
  rotate now old_hash user new t = elim (tokens.find_first (live old_hash user) t) [
    | none ↦
        if is_some (tokens.find_first (spent old_hash user) t)
        then some (reuse, t)
        else some (not_found, t)
    | some found ↦ do
      t' ← tokens.update (λ r. found.id =s= r.id) (revoke now) t
      t'' ← tokens.create (to_row new) t'
      some (rotated, t'')
  ]

pub data RefreshError : Type 0 where
  invalid_refresh_token reuse_detected database : RefreshError

-- A signed pair: the access token, and the refresh token with its expiry.
pub record RefreshResult : Type 0 where
  pub access_token : String
  pub refresh_token : String

-- The JWT library and SHA-256, behind `AuthTokenService` and `RefreshTokenEntity.hash`: the subject of
-- a token whose signature and expiry are good, and the signing of new ones.
pub record TokenService : Type 0 where
  pub verify_refresh : ℕ → String → Option String
  pub sign_access : String → String → String
  pub sign_refresh : ℕ → String → String → String
  pub hash : String → String

-- What a refresh draws: the clock and three `uuidv4()`.
pub record Draws : Type 0 where
  pub now : ℕ
  pub access_jti : String
  pub refresh_jti : String
  pub token_id : String

-- REFRESH_TOKEN_TTL_SECONDS * 1000: 18 days
abbrev pub refresh_ttl : ℕ
refresh_ttl = 18 * 24 * 60 * 60 * 1000

module _ (tokens : Table TokenRow same_hash) (service : TokenService)
    (known_user : String → Bool) where
  abbrev pub new_refresh : Draws → String → String
  new_refresh d user = service.sign_refresh d.now user d.refresh_jti

  abbrev pub new_token : Draws → String → RefreshToken
  new_token d user = record {
    id = d.token_id;
    user_id = user;
    token_hash = service.hash (new_refresh d user);
    expires_at = d.now + refresh_ttl;
    created_at = d.now;
  }

  -- How the handler answers each outcome of the rotation.
  abbrev conclude :
      Draws → String → RotateOutcome → Action tokens.Contents RefreshError RefreshResult
  conclude d user rotated t = (
    ok (record {
      access_token = service.sign_access user d.access_jti;
      refresh_token = new_refresh d user;
    }),
    t,
  )
  conclude d user reuse t = (err reuse_detected, delete_all_for_user tokens user t)
  conclude d user not_found t = (err invalid_refresh_token, t)

  -- `RefreshTokenHandler.execute`
  unfoldable pub refresh : Draws → String → Action tokens.Contents RefreshError RefreshResult
  unfolding delete_all_for_user
  refresh d raw t = elim (service.verify_refresh d.now raw) [
    | none ↦ (err invalid_refresh_token, t)
    | some user ↦
        if known_user user
        then elim (rotate tokens d.now (service.hash raw) user (new_token d user) t) [
          | none ↦ (err database, t)
          | some (outcome, t') ↦ conclude d user outcome t'
        ]
        else (err invalid_refresh_token, t)
  ]
