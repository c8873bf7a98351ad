-- ===== src/Auth/Tests/Sessions.antt =====
-- The life of a refresh token over a table in memory.
use collabai_backend.Prelude.{
  ℕ, ◌+◌, ◌≤◌, ◌≡◌, refl, String, Bool, true, false, none, some, is_some, not, ◌&&◌, [], ◌∷◌, arith,
  ◌=s=◌, same_text, ok, err, count_if, Option, if◌then◌else◌,
}
use collabai_backend.Prisma.{Table}
use collabai_backend.Prisma.Memory.{memory}
use collabai_backend.Auth.Tokens.{
  TokenRow, RefreshToken, same_hash, RotateOutcome, rotated, of_user, rotate, TokenService, Draws,
  refresh, invalid_refresh_token, reuse_detected,
}
use collabai_backend.Auth.Rotation.{rotate-live_count, refresh_without_rows, refresh-replay}

hash-shared :
    (r x y : TokenRow) → same_hash r x ≡ true → same_hash r y ≡ true → same_hash x y ≡ true
hash-shared r x y h k = ground (
  arith,
  same_text r.token_hash x.token_hash,
  same_text r.token_hash y.token_hash,
  same_text x.token_hash y.token_hash,
)

abbrev tokens : Table TokenRow same_hash
tokens = memory same_hash hash-shared

-- A token is its user's name with a number; the hash is the text itself.
abbrev service : TokenService
service = record {
  verify_refresh = λ now raw. some "ann";
  sign_access = λ user jti. jti;
  sign_refresh = λ now user jti. jti;
  hash = λ raw. raw;
}

abbrev start : tokens.Contents
unfolding memory ◌=s=◌
start = (
  record {
    id = "1";
    user_id = "ann";
    token_hash = "r1";
    expires_at = 90;
    created_at = 1;
    revoked_at = none;
  }
      ∷ [],
  refl,
)

abbrev replacement : String → RefreshToken
replacement hash = record {
  id = hash;
  user_id = "ann";
  token_hash = hash;
  expires_at = 95;
  created_at = 5;
}

abbrev after : Option (RotateOutcome × tokens.Contents) → tokens.Contents
after none = start
after (some (outcome, t)) = t

abbrev once : tokens.Contents
once = after (rotate tokens 5 "r1" "ann" (replacement "r2") start)

rotated_once : rotate tokens 5 "r1" "ann" (replacement "r2") start ≡ some (rotated, once)
unfolding rotate memory ◌=s=◌
rotated_once = refl

at_most_one : (b : Bool) → (if b then 1 else 0) + 0 ≤ 1
at_most_one true = omega arith
at_most_one false = omega arith

one_id : (i : String) → count_if (λ r. i =s= r.id) (tokens.rows start) ≤ 1
unfolding memory start ◌=s=◌
one_id i = at_most_one (i =s= "1")

rotate-live_count_example :
    count_if (λ r. of_user "ann" r && not (is_some r.revoked_at)) (tokens.rows once)
    ≡ count_if (λ r. of_user "ann" r && not (is_some r.revoked_at)) (tokens.rows start)
rotate-live_count_example =
    rotate-live_count tokens 5 "r1" "ann" (replacement "r2") start once "ann" one_id rotated_once
      refl

abbrev draws : ℕ → String → Draws
draws t jti = record { now = t; access_jti = "a"; refresh_jti = jti; token_id = jti }

abbrev known : String → Bool
known user = true

abbrev refreshed : tokens.Contents
refreshed = (refresh tokens service known (draws 5 "r2") "r1" start).1

refreshed_ok :
    refresh tokens service known (draws 5 "r2") "r1" start
    ≡ (ok (record { access_token = "a"; refresh_token = "r2" }), refreshed)
unfolding refresh rotate memory ◌=s=◌
refreshed_ok = refl

refresh-replay_example :
    ((refresh tokens service known (draws 6 "r3") "r1" refreshed).0 ≡ err reuse_detected)
    × (count_if
          (of_user "ann")
          (tokens.rows (refresh tokens service known (draws 6 "r3") "r1" refreshed).1)
        ≡ 0)
refresh-replay_example =
    refresh-replay tokens service known (draws 5 "r2") (draws 6 "r3") "r1" "ann" start refreshed
      (record { access_token = "a"; refresh_token = "r2" }) refl refl refreshed_ok

-- After the replay not even the replacement is taken.
abbrev robbed : tokens.Contents
robbed = (refresh tokens service known (draws 6 "r3") "r1" refreshed).1

robbed_empty : count_if (of_user "ann") (tokens.rows robbed) ≡ 0
unfolding refresh rotate memory ◌=s=◌
robbed_empty = refl

refresh_without_rows_example :
    refresh tokens service known (draws 7 "r4") "r2" robbed ≡ (err invalid_refresh_token, robbed)
refresh_without_rows_example =
    refresh_without_rows tokens service known (draws 7 "r4") "r2" "ann" robbed refl robbed_empty
