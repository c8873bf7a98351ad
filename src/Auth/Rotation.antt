-- ===== src/Auth/Rotation.antt =====
-- Single use of refresh tokens and the answer to a replay:
-- src/modules/auth/infrastructure/persistence/refresh-token.repository.ts, `rotate`, and
-- src/modules/auth/application/commands/refresh-token.handler.ts.
use collabai_backend.Prelude.{
  ℕ, ◌≤◌, ◌≡◌, refl, String, Bool, true, false, not, ◌&&◌, none, some, is_some, List, [], ◌∷◌, ◌++◌,
  inl, inr, arith, Option-cases, ok, err, ◌=s=◌, same_text, same_text_refl, find?, find?-eq-some,
  count_if, count_if-append, remove_if, update_if,
}
use collabai_backend.Prisma.{Table, count_if-update_if}
use collabai_backend.Auth.Tokens.{
  TokenRow, RefreshToken, same_hash, to_row, rotated, reuse, live, spent, of_user, revoke, rotate,
  TokenService, Draws, RefreshResult, new_token, refresh, reuse_detected, invalid_refresh_token,
}

module _ {Row : Type 0} where
  -- A row that is found and updated is found in its new form.
  find?-updated :
      (p q p' : Row → Bool) (f : Row → Row) (xs : List Row) (r : Row)
      → find? p xs ≡ some r
      → q r ≡ true
      → p' (f r) ≡ true
      → is_some (find? p' (update_if q f xs)) ≡ true
  find?-updated p q p' f [] r e h k = cc
  find?-updated p q p' f (x ∷ xs) r e h k = ground (arith, find?-updated p q p' f xs r)

  find?-append_some :
      (p : Row → Bool) (xs : List Row) (y : Row)
      → is_some (find? p xs) ≡ true
      → is_some (find? p (xs ++ y ∷ [])) ≡ true
  find?-append_some p [] y h = cc
  find?-append_some p (x ∷ xs) y h = ground (arith, find?-append_some p xs y)

  pub count_if-remove_if_covered :
      (p : Row → Bool) (xs : List Row) → count_if p (remove_if p xs) ≡ 0
  count_if-remove_if_covered p [] = refl
  count_if-remove_if_covered p (x ∷ xs) = ground (arith, count_if-remove_if_covered p xs)

  find?-uncounted :
      (p q : Row → Bool) (xs : List Row)
      → ((x : Row) → p x ≡ true → q x ≡ true)
      → count_if q xs ≡ 0
      → find? p xs ≡ none
  find?-uncounted p q [] imp h = refl
  find?-uncounted p q (x ∷ xs) imp h = ground (arith, imp x, find?-uncounted p q xs imp)

  count_if-found :
      (p q : Row → Bool) (xs : List Row) (r : Row)
      → find? p xs ≡ some r
      → q r ≡ true
      → 1 ≤ count_if q xs
  count_if-found p q [] r e h = cc
  count_if-found p q (x ∷ xs) r e h = ground (arith, count_if-found p q xs r)

  -- The first row with the id of a row that is there is that row, where ids are unique.
  first_of_unique :
      (p q : Row → Bool) (xs : List Row) (r : Row)
      → count_if q xs ≤ 1
      → find? p xs ≡ some r
      → q r ≡ true
      → find? q xs ≡ some r
  first_of_unique p q [] r one e h = cc
  first_of_unique p q (x ∷ xs) r one e h =
      ground (arith, first_of_unique p q xs r, count_if-found p q xs r)

  count_if-pos :
      (p q : Row → Bool) (xs : List Row)
      → ((x : Row) → p x ≡ true → q x ≡ true)
      → is_some (find? p xs) ≡ true
      → 1 ≤ count_if q xs
  count_if-pos p q [] imp h = cc
  count_if-pos p q (x ∷ xs) imp h = ground (arith, imp x, count_if-pos p q xs imp)

  -- Of two exclusive kinds under one key only one is found.
  find?-exclusive :
      (p p' q : Row → Bool) (xs : List Row)
      → ((x : Row) → p x ≡ true → q x ≡ true)
      → ((x : Row) → p' x ≡ true → (q x ≡ true) × (p x ≡ false))
      → count_if q xs ≤ 1
      → is_some (find? p xs) ≡ true
      → find? p' xs ≡ none
  find?-exclusive p p' q [] i j one h = refl
  find?-exclusive p p' q (x ∷ xs) i j one h = ground (
    arith,
    i x,
    j x,
    find?-exclusive p p' q xs i j,
    count_if-pos p q xs i,
    count_if-pos p' q xs (λ y k. (j y k).0),
    Option-cases (find? p' xs),
  )

module _ (tokens : Table TokenRow same_hash) where
  one_hash :
      (hash : String) (t : tokens.Contents)
      → count_if (λ r. hash =s= r.token_hash) (tokens.rows t) ≤ 1
  one_hash hash t =
      tokens.unique
        (record {
          id = hash;
          user_id = hash;
          token_hash = hash;
          expires_at = 0;
          created_at = 0;
          revoked_at = none;
        })
        t

  -- The row that a rotation found, and the two writes that it made.
  record Rotated (now : ℕ) (old user : String) (new : RefreshToken) (t t' : tokens.Contents)
      : Type 0 where
    row : TokenRow
    found : find? (live old user) (tokens.rows t) ≡ some row
    rows_after :
        tokens.rows t'
        ≡ update_if (λ r. row.id =s= r.id) (revoke now) (tokens.rows t) ++ to_row new ∷ []

  rotate-Rotated :
      (now : ℕ) (old user : String) (new : RefreshToken) (t t' : tokens.Contents)
      → rotate tokens now old user new t ≡ some (rotated, t')
      → Rotated now old user new t t'
  unfolding rotate
  rotate-Rotated now old user new t t' h =
      elim (Option-cases (tokens.find_first (live old user) t)) [
        | inl missing ↦ absurd (ground arith)
        | inr (r, at_row) ↦
            elim (Option-cases (tokens.update (λ x. r.id =s= x.id) (revoke now) t)) [
              | inl refused ↦ absurd (ground arith)
              | inr (u, wrote) ↦ elim (Option-cases (tokens.create (to_row new) u)) [
                | inl refused ↦ absurd (ground arith)
                | inr (v, made) ↦ record {
                  row = r;
                  found = ground (arith, tokens.find_first_rows (live old user) t);
                  rows_after = ground (
                    arith,
                    tokens.update_rows (λ x. r.id =s= x.id) (revoke now) t u wrote,
                    tokens.create_rows (to_row new) u v made,
                  );
                }
              ]
            ]
      ]

  -- A rotation leaves the presented hash spent.
  rotate-spends :
      (now : ℕ) (old user : String) (new : RefreshToken) (t t' : tokens.Contents)
      → rotate tokens now old user new t ≡ some (rotated, t')
      → is_some (find? (spent old user) (tokens.rows t')) ≡ true
  rotate-spends now old user new t t' h =
      let c = rotate-Rotated now old user new t t' h in
      let is_live = find?-eq-some (live old user) (tokens.rows t) c.row c.found in
      rw (c.rows_after) (
        find?-append_some (spent old user) _ (to_row new) (
          find?-updated (live old user) (λ r. c.row.id =s= r.id) (spent old user) (revoke now)
            (tokens.rows t) c.row c.found (same_text_refl c.row.id) (ground arith)))

  -- A spent hash is not live.
  live_of_spent :
      (old user : String) (t : tokens.Contents)
      → is_some (find? (spent old user) (tokens.rows t)) ≡ true
      → find? (live old user) (tokens.rows t) ≡ none
  live_of_spent old user t h =
      find?-exclusive (spent old user) (live old user) (λ r. old =s= r.token_hash) (tokens.rows t)
        (λ x k. ground arith) (λ x k. (ground arith, ground arith)) (one_hash old t) h

  -- A refresh token works once: whatever is presented with a hash that has been rotated is answered
  -- as a replay, and writes nothing itself.
  pub rotate-rotate :
      (now later : ℕ) (old user : String) (new newer : RefreshToken) (t t' : tokens.Contents)
      → rotate tokens now old user new t ≡ some (rotated, t')
      → rotate tokens later old user newer t' ≡ some (reuse, t')
  rotate-rotate now later old user new newer t t' h =
      let is_spent = rotate-spends now old user new t t' h in
      unfold rotate in
      ground (
        arith,
        is_spent,
        live_of_spent old user t' is_spent,
        tokens.find_first_rows (live old user) t',
        tokens.find_first_rows (spent old user) t',
      )

  -- Where row ids are unique, a rotation leaves every user's number of live tokens as it was: one is
  -- spent and one made, both of the same user.
  pub rotate-live_count :
      (now : ℕ) (old user : String) (new : RefreshToken) (t t' : tokens.Contents) (who : String)
      → ((i : String) → count_if (λ r. i =s= r.id) (tokens.rows t) ≤ 1)
      → rotate tokens now old user new t ≡ some (rotated, t')
      → new.user_id ≡ user
      → count_if (λ r. of_user who r && not (is_some r.revoked_at)) (tokens.rows t')
        ≡ count_if (λ r. of_user who r && not (is_some r.revoked_at)) (tokens.rows t)
  rotate-live_count now old user new t t' who ids h mine =
      let c = rotate-Rotated now old user new t t' h in
      let r = c.row in
      let q : TokenRow → Bool = λ x. of_user who x && not (is_some x.revoked_at) in
      let is_live = find?-eq-some (live old user) (tokens.rows t) r c.found in
      let by_id =
        first_of_unique (live old user) (λ x. r.id =s= x.id) (tokens.rows t) r (ids r.id) c.found
          (same_text_refl r.id) in
      rw (c.rows_after) (
        ground (
          arith,
          count_if-append q (update_if (λ x. r.id =s= x.id) (revoke now) (tokens.rows t))
              (to_row new),
          count_if-update_if (λ x. r.id =s= x.id) q (revoke now) (tokens.rows t) r (ids r.id) by_id,
          is_live,
          same_text user r.user_id,
          same_text who r.user_id,
          same_text who new.user_id,
        ))

module _ (tokens : Table TokenRow same_hash) (service : TokenService)
    (known_user : String → Bool) where
  -- A user without rows has no session: every token is turned away, and nothing is written.
  pub refresh_without_rows :
      (d : Draws) (raw user : String) (t : tokens.Contents)
      → service.verify_refresh d.now raw ≡ some user
      → count_if (of_user user) (tokens.rows t) ≡ 0
      → refresh tokens service known_user d raw t ≡ (err invalid_refresh_token, t)
  unfolding refresh rotate
  refresh_without_rows d raw user t good zero = ground (
    arith,
    tokens.find_first_rows (live (service.hash raw) user) t,
    tokens.find_first_rows (spent (service.hash raw) user) t,
    find?-uncounted (live (service.hash raw) user) (of_user user) (tokens.rows t)
        (λ x k. ground arith),
    find?-uncounted (spent (service.hash raw) user) (of_user user) (tokens.rows t)
        (λ x k. ground arith),
  )

  refresh-rotates :
      (d : Draws) (raw user : String) (t t' : tokens.Contents) (result : RefreshResult)
      → service.verify_refresh d.now raw ≡ some user
      → refresh tokens service known_user d raw t ≡ (ok result, t')
      → rotate tokens d.now (service.hash raw) user (new_token tokens service known_user d user) t
        ≡ some (rotated, t')
  unfolding refresh
  refresh-rotates d raw user t t' result good first = ground arith

  refresh-known :
      (d : Draws) (raw user : String) (t t' : tokens.Contents) (result : RefreshResult)
      → service.verify_refresh d.now raw ≡ some user
      → refresh tokens service known_user d raw t ≡ (ok result, t')
      → known_user user ≡ true
  unfolding refresh
  refresh-known d raw user t t' result good first = ground arith

  -- A token that has been used is presented again: the call ends in the security error, and of the
  -- user's sessions, the one just issued included, none is left.
  pub refresh-replay :
      (d d' : Draws) (raw user : String) (t t' : tokens.Contents) (result : RefreshResult)
      → service.verify_refresh d.now raw ≡ some user
      → service.verify_refresh d'.now raw ≡ some user
      → refresh tokens service known_user d raw t ≡ (ok result, t')
      → ((refresh tokens service known_user d' raw t').0 ≡ err reuse_detected)
        × (count_if (of_user user) (tokens.rows (refresh tokens service known_user d' raw t').1)
            ≡ 0)
  refresh-replay d d' raw user t t' result good again first =
      let turned = refresh-rotates d raw user t t' result good first in
      let replayed =
        rotate-rotate tokens d.now d'.now (service.hash raw) user
          (new_token tokens service known_user d user) (new_token tokens service known_user d' user)
          t t' turned in
      unfold refresh in
      (
        ground (arith, replayed, refresh-known d raw user t t' result good first),
        ground (
          arith,
          replayed,
          refresh-known d raw user t t' result good first,
          tokens.delete_many_rows (of_user user) t',
          count_if-remove_if_covered (of_user user) (tokens.rows t'),
        ),
      )
