-- ===== src/Auth/Tests/Profiles.antt =====
-- One account with a picture, behind a cache in memory.
use collabai_backend.Prelude.{
  ◌≡◌, refl, String, Bool, true, false, none, some, [], ◌∷◌, arith, ◌=s=◌, same_text,
  same_text_refl, Option, or_else, if◌then◌else◌, count_if, List, truthy,
}
use collabai_backend.Prisma.{Table}
use collabai_backend.Prisma.Memory.{memory}
use collabai_backend.Projects.Entities.{TextOps}
use collabai_backend.Auth.Tokens.{TokenRow, same_hash, of_user}
use collabai_backend.Auth.Users.{User, create_user, record_login, change_password}
use collabai_backend.Auth.Codes.{Accounts, update_profile, reset_password}
use collabai_backend.Auth.Store.{
  Cache, CacheKey, auth_user_entity, safe_user_entity, auth_user_email_lookup, Store, UserProps,
  to_props, from_props, same_user_id, find_user, save_user, written, prisma_users,
  find_user_by_address, reset_user_password,
}
use collabai_backend.Auth.Accounts.{save_user-find_user}
use collabai_backend.Auth.Profiles.{update_profile-erases_picture, reset_password-signs_out}

abbrev same_cache_key : CacheKey → CacheKey → Bool
same_cache_key (auth_user_entity a) (auth_user_entity b) = a =s= b
same_cache_key (safe_user_entity a) (safe_user_entity b) = a =s= b
same_cache_key (auth_user_email_lookup a) (auth_user_email_lookup b) = a =s= b
same_cache_key _ _ = false

same_cache_key_refl : (k : CacheKey) → same_cache_key k k ≡ true
same_cache_key_refl (auth_user_entity a) = same_text_refl a
same_cache_key_refl (safe_user_entity a) = same_text_refl a
same_cache_key_refl (auth_user_email_lookup a) = same_text_refl a

abbrev plain : TextOps
plain = record { trim = λ s. s; to_lower = λ s. s }

abbrev ann : User
ann = record (create_user plain 1 "1" "ann" "Ann" "secret") { avatar_url = some "ann.png" }

-- A text of the cache is the props that it prints, or an id.
abbrev cache : Cache
cache = record {
  State = CacheKey → Option (UserProps × String);
  Text = UserProps × String;
  get = λ k s. s k;
  set = λ k v s j. if same_cache_key k j then some v else s j;
  del = λ k s. some (λ j. if same_cache_key k j then none else s j);
  stringify = λ p. (p, "");
  parse = λ v. v.0;
  stringify_safe = λ u. (to_props u, "");
  from_id = λ i. (to_props ann, i);
  to_id = λ v. v.1;
  parse-stringify = λ p. refl;
  del-gone = λ k s s' d. ground (arith, same_cache_key_refl k);
  del-keeps = λ k j s s' h d. ground arith;
}

hash-shared :
    (r x y : TokenRow) → same_hash r x ≡ true → same_hash r y ≡ true → same_hash x y ≡ true
hash-shared r x y h k = ground (
  arith,
  same_text r.token_hash x.token_hash,
  same_text r.token_hash y.token_hash,
  same_text x.token_hash y.token_hash,
)

abbrev tokens : Table TokenRow same_hash
tokens = memory same_hash hash-shared

id-shared :
    (r x y : User) → same_user_id r x ≡ true → same_user_id r y ≡ true → same_user_id x y ≡ true
id-shared r x y h k = ground (arith, same_text r.id x.id, same_text r.id y.id, same_text x.id y.id)

abbrev users : Table User same_user_id
users = memory same_user_id id-shared

abbrev store : Store users tokens cache plain 9
unfolding memory ◌=s=◌
store = record {
  rows = (ann ∷ [], refl);
  sessions = (
    record {
      id = "s";
      user_id = "1";
      token_hash = "h";
      expires_at = 90;
      created_at = 1;
      revoked_at = none;
    }
        ∷ [],
    refl,
  );
  cached = λ k. none;
}

-- After one read of the account.
abbrev warm : Accounts (prisma_users users tokens cache plain 9)
warm = record { store = (find_user users tokens cache plain 9 "1" store).1; events = [] }

abbrev saved : Option (Store users tokens cache plain 9) → Store users tokens cache plain 9
saved none = store
saved (some s) = s

save_user-find_user_example :
    let s = saved (save_user users tokens cache plain 9 (record_login 5 ann) warm.store) in
    (find_user users tokens cache plain 9 "1" s).0
    ≡ some (
        written users tokens cache plain 9
          (record_login 5 ann)
          (or_else (users.find_first (λ x. "1" =s= x.id) warm.store.rows) (record_login 5 ann)))
unfolding find_user save_user memory ◌=s=◌
save_user-find_user_example =
    save_user-find_user users tokens cache plain 9 (record_login 5 ann) warm.store
      (saved (save_user users tokens cache plain 9 (record_login 5 ann) warm.store)) refl refl

abbrev answer : User
answer = record ann { name = "Anna"; avatar_url = none; updated_at = 9 }

update_profile-erases_picture_example :
    (answer.avatar_url ≡ none)
    × ((after : User) × (users.find_first
            (λ x. "1" =s= x.id)
            (update_profile
              (prisma_users users tokens cache plain 9)
              plain
              9
              "1"
              (some "Anna")
              none
              warm).1.store.rows
          ≡ some after)
        × (after.avatar_url ≡ none))
unfolding find_user save_user memory ◌=s=◌ update_profile to_props from_props
update_profile-erases_picture_example =
    update_profile-erases_picture users tokens cache plain 9 9 "Anna" ann answer warm refl refl refl

reset_password-signs_out_example :
    let w' =
      (reset_password (prisma_users users tokens cache plain 9) plain 9 "new" [] "ann" warm).1 in
    let (found, s) = find_user_by_address users tokens cache plain 9 "ann" warm.store in
    (◌≡◌ {A = List String} [] [])
    × ((user : User) × (found ≡ some user)
        × (count_if (of_user user.id) (tokens.rows w'.store.sessions) ≡ 0)
        × (reset_user_password users tokens cache plain 9 (change_password 9 "new" user) s
            ≡ some w'.store))
unfolding find_user find_user_by_address reset_user_password reset_password memory truthy ◌=s=◌
reset_password-signs_out_example =
    reset_password-signs_out users tokens cache plain 9 9 "new" [] "ann" warm refl
