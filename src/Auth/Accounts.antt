-- ===== src/Auth/Accounts.antt =====
-- Accounts behind the cache, and codes that prove an address: src/modules/auth, user.repository.ts of
-- infrastructure/persistence with the handlers of application/commands.
use collabai_backend.Prelude.{
  ℕ, ◌<◌, ◌≡◌, ◌≢◌, inl, inr, String, true, false, is_some, Option, none, some, or_else, ok,
  find?-append_none, find?-update_if_self, ◌=s=◌, arith, Option-cases, same_text, same_text_refl,
}
use collabai_backend.Prisma.{Table}
use collabai_backend.Projects.Entities.{TextOps}
use collabai_backend.Auth.Tokens.{TokenRow, same_hash}
use collabai_backend.Auth.Users.{User, UserRepository, mark_verified}
use collabai_backend.Auth.Codes.{Accounts, verify_email, wrong_code}
use collabai_backend.Auth.Store.{
  Cache, CacheKey, drop_key, Store, auth_user_entity, safe_user_entity, auth_user_email_lookup,
  same_user_id, find_user, save_user, written,
}

module _ (repo : UserRepository) (text : TextOps) where
  -- An address counts as verified only by its code: where the call succeeds, the account was not yet
  -- verified, the code given is not blank and is, trimmed, the one stored, which had not expired, and
  -- what is stored now is the account marked as verified.
  pub verify_email-proves :
      (now : ℕ) (email : String) (code : Option String) (w : Accounts repo)
      → (verify_email repo text now email code w).0 ≡ ok tt
      → let (found, s) = repo.find_by_email (text.trim (text.to_lower email)) w.store in
        (user : User) × (given : String) × (expiry : ℕ) × (found ≡ some user)
        × (user.is_verified ≡ false)
        × (code ≡ some given)
        × (text.trim given ≢ "")
        × (user.verification_code ≡ some (text.trim given))
        × (user.verification_code_expiry ≡ some expiry)
        × (now < expiry)
        × (repo.save (mark_verified now user) s
            ≡ some (verify_email repo text now email code w).1.store)
  unfolding verify_email wrong_code
  verify_email-proves now email code w done =
      elim (Option-cases (repo.find_by_email (text.trim (text.to_lower email)) w.store).0) [
        | inl missing ↦ absurd (ground arith)
        | inr (user, found) ↦ elim (Option-cases code) [
          | inl absent ↦ absurd (ground arith)
          | inr (given, is) ↦ elim (Option-cases user.verification_code_expiry) [
            | inl never ↦ absurd (ground arith)
            | inr (expiry, until) ↦ (
              user,
              given,
              expiry,
              found,
              ground arith,
              is,
              λ e. ground (arith, same_text (text.trim given) ""),
              elim (Option-cases user.verification_code) [
                | inl none_sent ↦ absurd (ground arith)
                | inr (stored, sent) ↦ ground (arith, same_text stored (text.trim given))
              ],
              until,
              ground arith,
              elim (Option-cases (
                  repo.save (mark_verified now user)
                    (repo.find_by_email (text.trim (text.to_lower email)) w.store).1)) [
                      | inl refused ↦ absurd (ground arith)
                      | inr (s', saved) ↦ ground arith
                    ],
            )
          ]
        ]
      ]

module _ (users : Table User same_user_id) (tokens : Table TokenRow same_hash) (cache : Cache)
    (text : TextOps) (clock : ℕ) where
  drop_key-gone :
      (k : CacheKey) (s : cache.State)
      → is_some (cache.del k s) ≡ true
      → cache.get k (drop_key cache k s) ≡ none
  unfolding drop_key
  drop_key-gone k s answers = elim (Option-cases (cache.del k s)) [
    | inl failed ↦ absurd (ground arith)
    | inr (s', gone) ↦ ground (arith, cache.del-gone k s s' gone)
  ]

  drop_key-keeps :
      (k j : CacheKey) (s : cache.State)
      → cache.get k s ≡ none
      → cache.get k (drop_key cache j s) ≡ none
  unfolding drop_key
  drop_key-keeps k j s free = elim (Option-cases (cache.del j s)) [
    | inl failed ↦ ground arith
    | inr (s', gone) ↦ ground (arith, cache.del-keeps k j s s' free gone)
  ]

  -- The account is not in the cache once it has been invalidated, if its deletion was answered.
  forgotten :
      (id email : String) (c : cache.State)
      → is_some (cache.del (auth_user_entity id) c) ≡ true
      → cache.get (auth_user_entity id) (
          drop_key cache
            (auth_user_email_lookup email)
            (drop_key cache (safe_user_entity id) (drop_key cache (auth_user_entity id) c)))
        ≡ none
  forgotten id email c answers =
      drop_key-keeps _ _ _ (drop_key-keeps _ _ _ (drop_key-gone (auth_user_entity id) c answers))

  pub found_row :
      (u old : User) (before after : users.Contents)
      → users.find_first (λ x. u.id =s= x.id) before ≡ some old
      → users.update (λ x. u.id =s= x.id) (written users tokens cache text clock u) before
        ≡ some after
      → users.find_first (λ x. u.id =s= x.id) after
        ≡ some (written users tokens cache text clock u old)
  unfolding written
  found_row u old before after found updated = ground (
    arith,
    users.find_first_rows (λ x. u.id =s= x.id) before,
    users.find_first_rows (λ x. u.id =s= x.id) after,
    users.update_rows (λ x. u.id =s= x.id) (written users tokens cache text clock u) before after
        updated,
    find?-update_if_self (λ x. u.id =s= x.id) (written users tokens cache text clock u)
        (users.rows before) old (λ y h. h),
  )

  made_row :
      (u : User) (before after : users.Contents)
      → users.find_first (λ x. u.id =s= x.id) before ≡ none
      → users.create (written users tokens cache text clock u u) before ≡ some after
      → users.find_first (λ x. u.id =s= x.id) after
        ≡ some (written users tokens cache text clock u u)
  unfolding written
  made_row u before after free created =
      let new = written users tokens cache text clock u u in
      ground (
        arith,
        users.find_first_rows (λ x. u.id =s= x.id) before,
        users.find_first_rows (λ x. u.id =s= x.id) after,
        users.create_rows new before after created,
        find?-append_none (λ x. u.id =s= x.id) (users.rows before) new (same_text_refl u.id),
      )

  -- While Redis answers the deletion of the account's entry, what is read by id after a save that goes
  -- through is what was saved, whatever the cache held before: with the address normalised, the present time as that of the last change, and, where a row was there,
  -- its time of creation.
  pub save_user-find_user :
      (u : User) (s s' : Store users tokens cache text clock)
      → is_some (cache.del (auth_user_entity u.id) s.cached) ≡ true
      → save_user users tokens cache text clock u s ≡ some s'
      → (find_user users tokens cache text clock u.id s').0
        ≡ some (
            written users tokens cache text clock u
              (or_else (users.find_first (λ x. u.id =s= x.id) s.rows) u))
  unfolding save_user find_user
  save_user-find_user u s s' answers saved =
      elim (Option-cases (users.find_first (λ x. u.id =s= x.id) s.rows)) [
        | inl free ↦
            elim (Option-cases (users.create (written users tokens cache text clock u u) s.rows)) [
              | inl refused ↦ absurd (ground arith)
              | inr (rows, created) ↦ ground (
                arith,
                made_row u s.rows rows free created,
                forgotten u.id (text.trim (text.to_lower u.email)) s.cached answers,
              )
            ]
        | inr (old, found) ↦
            elim (Option-cases (
              users.update (λ x. u.id =s= x.id) (written users tokens cache text clock u) s.rows)) [
                | inl refused ↦ absurd (ground arith)
                | inr (rows, updated) ↦ ground (
                  arith,
                  found_row u old s.rows rows found updated,
                  forgotten u.id (text.trim (text.to_lower u.email)) s.cached answers,
                )
              ]
      ]
