-- ===== src/Auth/Tests/Leaving.antt =====
-- Ann signs out, with a store whose values expire.
use collabai_backend.Prelude.{
  ℕ, ◌+◌, ◌*◌, ◌/◌, ◌≡◌, refl, String, Option, none, some, truthy, ltb, ◌=s=◌, if◌then◌else◌, ok,
  err, [], ◌∷◌, arith, same_text_refl,
}
use collabai_backend.Prisma.{Table}
use collabai_backend.Prisma.Memory.{memory, same_text-shared}
use collabai_backend.Auth.Tokens.{TokenRow, same_hash, find_by_hash}
use collabai_backend.Auth.Logout.{
  ExpiringStore, IsAnswering, Claims, JwtService, IsJwt, GuardError, Session, can_activate,
  admitted, revoked, is_blacklisted, logout,
}
use collabai_backend.Auth.Revocation.{logout-ends}

record Entry : Type 0 where
  value : String
  until : ℕ

abbrev fresh : ℕ → Option Entry → Option String
fresh now none = none
fresh now (some e) = if ltb now e.until then some e.value else none

abbrev store : ExpiringStore
store = record {
  State = String → Option Entry;
  get = λ now key s. some (fresh now (s key));
  set = λ now key value seconds s. some (λ k.
      if k =s= key then some (record { value = value; until = now + seconds * 1000 }) else s k);
}

store-IsAnswering : IsAnswering store
store-IsAnswering = record {
  set-lasting =
      λ now seconds key value s one. (_, refl, λ later le lt. ground (arith, same_text_refl key));
}

abbrev claims : Claims
claims = record { sub = "ann"; email = "ann@x"; role = "user"; jti = some "j1"; exp = some 100 }

abbrev jwt : JwtService
jwt = record {
  decode = λ token. some claims;
  verify = λ now token. if ltb (now / 1000) 100 then some claims else none;
}

jwt-IsJwt : IsJwt jwt
jwt-IsJwt = record {
  verify-decode = λ now token c h. ground arith;
  verify-exp = λ now exp token c h e. ground arith;
}

abbrev tokens : Table TokenRow same_hash
tokens = memory same_hash (λ r x y. same_text-shared r.token_hash x.token_hash y.token_hash)

abbrev hash : String → String
hash raw = raw

abbrev session : Session store jwt tokens hash
unfolding memory
session = record {
  rows = (
    record {
      id = "1";
      user_id = "ann";
      token_hash = "r1";
      expires_at = 90000;
      created_at = 1;
      revoked_at = none;
    }
        ∷ [],
    refl,
  );
  revocations = λ key. none;
}

let_in_before :
    can_activate store jwt 50000 (some "a1") session.revocations
    ≡ ok (record { id = "ann"; email = "ann@x"; role = "user" })
unfolding can_activate admitted revoked is_blacklisted truthy ◌=s=◌ session
let_in_before = refl

some_jti : truthy (some "j1") ≡ some "j1"
unfolding truthy ◌=s=◌
some_jti = refl

some_access : truthy (some "a1") ≡ some "a1"
unfolding truthy ◌=s=◌
some_access = refl

some_refresh : truthy (some "r1") ≡ some "r1"
unfolding truthy ◌=s=◌
some_refresh = refl

logout-ends_example :
    let s = logout store jwt tokens hash 40000 (some "r1") (some "a1") session in
    ((e : GuardError) × (can_activate store jwt 50000 (some "a1") s.revocations ≡ err e))
    × (find_by_hash tokens (hash "r1") s.rows ≡ none)
logout-ends_example =
    logout-ends store jwt tokens hash 40000 50000 100 "r1" "a1" "j1" claims session
      store-IsAnswering jwt-IsJwt refl some_jti refl some_access some_refresh (omega arith)
