-- ===== src/Auth/Tests/Entrance.antt =====
-- Guessing passwords over counters in memory.
use collabai_backend.Prelude.{
  ℕ, suc, ◌<◌, ◌≡◌, ◌≢◌, refl, String, Bool, true, false, none, some, [], ◌∷◌, List, arith, ◌=s=◌,
  same_text, same_text_refl, err, Option, if◌then◌else◌,
}
use collabai_backend.Prisma.{Table}
use collabai_backend.Prisma.Memory.{memory}
use collabai_backend.Projects.Entities.{TextOps}
use collabai_backend.Auth.Tokens.{TokenRow, same_hash, TokenService, Draws, save_token}
use collabai_backend.Auth.Users.{
  User, UserRepository, create_user, set_verification_code, mark_verified, record_login,
}
use collabai_backend.Auth.Codes.{Accounts, verify_email, wrong_code, login_blocked}
use collabai_backend.Auth.Lockout.{
  Key, account_attempts, account_blocked, ip_attempts, ip_blocked, same_key, Redis, IsReachable,
  is_locked, record_failed_attempt, clear_attempts, bump_and_maybe_block, start_window,
}
use collabai_backend.Auth.BruteForce.{
  failures, elsewhere, is_locked-failures, is_locked-few_failures,
}
use collabai_backend.Auth.Login.{Entry, LoginResult, login}
use collabai_backend.Auth.SignIn.{Guess, AllWrong, guess_all, login-admits, login-locks_out}
use collabai_backend.Auth.Accounts.{verify_email-proves}

record Counters : Type 0 where
  counts : Key → ℕ
  present : Key → Bool

abbrev redis : Redis
redis = record {
  State = Counters;
  incr = λ k s. some (
    suc (s.counts k),
    record {
      counts = λ j. if same_key k j then suc (s.counts k) else s.counts j;
      present = λ j. if same_key k j then true else s.present j;
    },
  );
  expire = λ k n s. some s;
  ttl = λ k s. some none;
  set = λ k n s. some (record s { present = λ j. if same_key k j then true else s.present j });
  exists = λ k s. some (s.present k);
  del = λ k s. some (record s { present = λ j. if same_key k j then false else s.present j });
}

same_key_refl : (k : Key) → same_key k k ≡ true
same_key_refl (account_attempts a) = same_text_refl a
same_key_refl (account_blocked a) = same_text_refl a
same_key_refl (ip_attempts a) = same_text_refl a
same_key_refl (ip_blocked a) = same_text_refl a

abbrev up : IsReachable redis
up = record {
  counter = λ k s. s.counts k;
  exists-known = λ k s. refl;
  incr-some = λ k s. (
    record {
      counts = λ j. if same_key k j then suc (s.counts k) else s.counts j;
      present = λ j. if same_key k j then true else s.present j;
    },
    refl,
    ground (arith, same_key_refl k),
    λ j h. ground arith,
    λ j h. ground arith,
  );
  expire-some = λ k n s h. (s, refl, λ j. refl, λ j. refl);
  set-some = λ k n s h. (
    record s { present = λ j. if same_key k j then true else s.present j },
    refl,
    ground (arith, same_key_refl k),
    λ j h. refl,
    λ j h. ground arith,
  );
}

abbrev plain : TextOps
plain = record { trim = λ s. s; to_lower = λ s. s }

abbrev calm : Counters
calm = record { counts = λ k. 0; present = λ k. false }

is_locked-failures_example :
    is_locked redis plain "ann" "9"
      (failures redis plain "ann" ("1" ∷ "2" ∷ "3" ∷ "4" ∷ "5" ∷ []) calm)
    ≡ true
is_locked-failures_example =
    is_locked-failures redis up plain "ann" "9" ("1" ∷ "2" ∷ "3" ∷ "4" ∷ "5" ∷ []) calm refl refl
      (omega arith)

is_locked-few_failures_example :
    is_locked redis plain "ann" "9" (failures redis plain "ann" ("1" ∷ "2" ∷ []) calm) ≡ false
unfolding elsewhere ◌=s=◌
is_locked-few_failures_example =
    is_locked-few_failures redis up plain "ann" "9" ("1" ∷ "2" ∷ []) calm refl refl (omega arith)
      refl refl

hash-shared :
    (r x y : TokenRow) → same_hash r x ≡ true → same_hash r y ≡ true → same_hash x y ≡ true
hash-shared r x y h k = ground (
  arith,
  same_text r.token_hash x.token_hash,
  same_text r.token_hash y.token_hash,
  same_text x.token_hash y.token_hash,
)

abbrev tokens : Table TokenRow same_hash
tokens = memory same_hash hash-shared

abbrev service : TokenService
service = record {
  verify_refresh = λ now raw. some "1";
  sign_access = λ user jti. jti;
  sign_refresh = λ now user jti. jti;
  hash = λ raw. raw;
}

abbrev ann : User
ann = mark_verified 2 (create_user plain 1 "1" "ann" "Ann" "secret")

-- One account, whatever is asked for.
abbrev repo : UserRepository
repo = record {
  State = Option User;
  find_by_email = λ e s. (s, s);
  find_by_id = λ i s. (s, s);
  save = λ u s. some (some u);
  reset_password = λ u s. some (some u);
}

abbrev compare : String → String → Bool
compare password hash = password =s= hash

abbrev no_sessions : tokens.Contents
unfolding memory ◌=s=◌
no_sessions = ([], refl)

abbrev start : Entry repo redis tokens
start = record { users = some ann; locks = calm; sessions = no_sessions }

abbrev draws : Draws
draws = record { now = 9; access_jti = "a"; refresh_jti = "b"; token_id = "c" }

abbrev result : LoginResult
result = record { access_token = "a"; refresh_token = "b"; user = record_login 9 ann }

login-admits_example :
    (is_locked redis plain "ann" "9" calm ≡ false)
    × ((user : User) × (some ann ≡ some user)
        × (compare "secret" user.password_hash ≡ true)
        × (user.is_verified ≡ true)
        × (result.user ≡ record_login 9 user))
unfolding login is_locked clear_attempts save_token memory ◌=s=◌
login-admits_example =
    login-admits repo redis tokens service compare plain draws "ann" "9" "secret" result start refl

abbrev guess : String → Guess
guess ip = record { draws = draws; ip = ip; password = "guess" }

abbrev guesses : List Guess
guesses = guess "1" ∷ guess "2" ∷ guess "3" ∷ guess "4" ∷ guess "5" ∷ []

-- Even Ann, from a place of her own and with her password.
login-locks_out_example :
    let after = guess_all repo redis tokens service compare plain "ann" guesses start in
    login repo redis tokens service compare plain draws "ann" "9" "secret" after
    ≡ (err login_blocked, after)
unfolding AllWrong login is_locked record_failed_attempt bump_and_maybe_block start_window ◌=s=◌
login-locks_out_example =
    login-locks_out repo redis tokens service compare plain up "ann" guesses draws "9" "secret"
      start refl refl (refl, (refl, (refl, (refl, (refl, tt))))) (omega arith)

abbrev waiting : User
waiting = set_verification_code 3 "123456" 90 (create_user plain 1 "1" "ann" "Ann" "secret")

abbrev unverified : Accounts repo
unverified = record { store = some waiting; events = [] }

verify_email-proves_example :
    (user : User) × (given : String) × (expiry : ℕ) × (some waiting ≡ some user)
    × (user.is_verified ≡ false)
    × (some "123456" ≡ some given)
    × (given ≢ "")
    × (user.verification_code ≡ some given)
    × (user.verification_code_expiry ≡ some expiry)
    × (9 < expiry)
    × (some (some (mark_verified 9 user))
        ≡ some (verify_email repo plain 9 "ann" (some "123456") unverified).1.store)
unfolding verify_email wrong_code ◌=s=◌
verify_email-proves_example = verify_email-proves repo plain 9 "ann" (some "123456") unverified refl
