-- ===== src/Auth/Profiles.antt =====
-- What handlers do to an account behind the cache: src/modules/auth, reset-password.handler.ts and
-- update-profile.handler.ts of application/commands over user.repository.ts of
-- infrastructure/persistence.
use collabai_backend.Prelude.{
  ℕ, ◌≡◌, inl, inr, refl, String, none, some, List, [], ◌∷◌, ok, count_if, ◌=s=◌, arith,
  Option-cases,
}
use collabai_backend.Prisma.{Table}
use collabai_backend.Projects.Entities.{TextOps}
use collabai_backend.Auth.Tokens.{TokenRow, same_hash, of_user}
use collabai_backend.Auth.Rotation.{count_if-remove_if_covered}
use collabai_backend.Auth.Users.{User, UserRepository, change_password, update_profile_fields}
use collabai_backend.Auth.Codes.{Accounts, reset_password, update_profile}
use collabai_backend.Auth.Store.{
  Cache, auth_user_entity, to_props, from_props, same_user_id, find_user, find_user_by_address,
  save_user, reset_user_password, written, prisma_users,
}
use collabai_backend.Auth.Accounts.{found_row}

module _ (users : Table User same_user_id) (tokens : Table TokenRow same_hash) (cache : Cache)
    (text : TextOps) (clock : ℕ) where
  abbrev repo : UserRepository
  repo = prisma_users users tokens cache text clock

  -- A password that has been reset takes every session of the account with it: where the call
  -- succeeds the password policy had no objection, the address has an account, no row of a refresh
  -- token is left for it, and the new password was written in the same step.
  pub reset_password-signs_out :
      (now : ℕ) (hash : String) (problems : List String) (email : String)
      (w : Accounts (prisma_users users tokens cache text clock))
      → (reset_password
          (prisma_users users tokens cache text clock)
          text
          now
          hash
          problems
          email
          w).0
        ≡ ok tt
      → let w' =
          (reset_password
            (prisma_users users tokens cache text clock)
            text
            now
            hash
            problems
            email
            w).1 in
        let address = text.trim (text.to_lower email) in
        let (found, s) = find_user_by_address users tokens cache text clock address w.store in
        (problems ≡ [])
        × ((user : User) × (found ≡ some user)
            × (count_if (of_user user.id) (tokens.rows w'.store.sessions) ≡ 0)
            × (reset_user_password users tokens cache text clock (change_password now hash user) s
                ≡ some w'.store))
  unfolding reset_password reset_user_password
  reset_password-signs_out now hash [] email w done =
      let address = text.trim (text.to_lower email) in
      let (found, s) = find_user_by_address users tokens cache text clock address w.store in
      (
        refl,
        elim (Option-cases found) [
          | inl missing ↦ absurd (ground arith)
          | inr (user, is) ↦
              let u = change_password now hash user in
              elim (Option-cases (
                users.update (λ x. u.id =s= x.id) (written users tokens cache text clock u)
                  s.rows)) [
                    | inl refused ↦ absurd (ground arith)
                    | inr (rows, updated) ↦ (
                      user,
                      is,
                      ground (
                        arith,
                        tokens.delete_many_rows (of_user user.id) s.sessions,
                        count_if-remove_if_covered (of_user user.id) (tokens.rows s.sessions),
                      ),
                      ground arith,
                    )
                  ]
        ],
      )
  reset_password-signs_out now hash (p ∷ ps) email w done = absurd (ground arith)

  -- The cached form of an account has no picture: while the cache holds the account, a change of name
  -- alone erases the picture, in the answer and in the row.
  pub update_profile-erases_picture :
      (now : ℕ) (name : String) (row changed : User)
      (w : Accounts (prisma_users users tokens cache text clock))
      → users.find_first (λ x. row.id =s= x.id) w.store.rows ≡ some row
      → cache.get (auth_user_entity row.id) w.store.cached ≡ some (cache.stringify (to_props row))
      → let (r, w') =
          update_profile
            (prisma_users users tokens cache text clock)
            text
            now
            row.id
            (some name)
            none
            w in
        r ≡ ok changed
        → (changed.avatar_url ≡ none)
          × ((after : User) × (users.find_first (λ x. row.id =s= x.id) w'.store.rows ≡ some after)
              × (after.avatar_url ≡ none))
  unfolding update_profile find_user to_props from_props save_user written
  update_profile-erases_picture now name row changed w found cached done =
      let base = from_props (to_props row) in
      let u = update_profile_fields now (some name) none base in
      elim (Option-cases (
        users.update (λ x. u.id =s= x.id) (written users tokens cache text clock u) w.store.rows)) [
          | inl refused ↦ absurd (ground (arith, cache.parse-stringify (to_props row)))
          | inr (rows, updated) ↦ (
            ground (arith, cache.parse-stringify (to_props row)),
            (
              written users tokens cache text clock u row,
              ground (
                arith,
                cache.parse-stringify (to_props row),
                found_row users tokens cache text clock u row w.store.rows rows found updated,
              ),
              refl,
            ),
          )
        ]
