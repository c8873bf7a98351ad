-- ===== src/Auth/Revocation.antt =====
-- What signing out puts an end to: src/modules/auth/application/commands/logout.handler.ts.
use collabai_backend.Prelude.{
  ℕ, ◌+◌, ◌-◌, ◌*◌, ◌/◌, ◌≤◌, ◌<◌, ◌≡◌, inl, inr, refl, String, Bool, true, false, not, ◌&&◌,
  Option, none, some, is_some, truthy, ◌=s=◌, err, List, [], ◌∷◌, find?, find?-eq-some, count_if,
  remove_if, arith, same_text, same_text_refl, Option-cases, Bool-cases,
}
use collabai_backend.Prisma.{Table}
use collabai_backend.Auth.Tokens.{TokenRow, same_hash, find_by_hash, delete_by_id}
use collabai_backend.Auth.Logout.{
  token_invalid, payload_invalid, token_revoked, ExpiringStore, IsAnswering, JwtService, IsJwt,
  Claims, GuardError, Session, is_blacklisted, blacklist, revoked, admitted, revoke_claims,
  can_activate, drop_refresh, revoke_access, logout,
}

module _ {Row : Type 0} (p q : Row → Bool) where
  find?-remove_if_uncounted : (xs : List Row) → count_if q xs ≡ 0 → find? q (remove_if p xs) ≡ none
  find?-remove_if_uncounted [] h = refl
  find?-remove_if_uncounted (x ∷ xs) h = ground (arith, find?-remove_if_uncounted xs)

  -- The one row that passes is taken away.
  find?-remove_if_only :
      (xs : List Row) (r : Row)
      → count_if q xs ≤ 1
      → find? q xs ≡ some r
      → p r ≡ true
      → find? q (remove_if p xs) ≡ none
  find?-remove_if_only [] r one found hit = refl
  find?-remove_if_only (x ∷ xs) r one found hit =
      ground (arith, find?-remove_if_only xs r, find?-remove_if_uncounted xs)

live_one : String → TokenRow → Bool
live_one h r = r.token_hash =s= h && not (is_some r.revoked_at)

count_if-live_one :
    (r : TokenRow) (xs : List TokenRow)
    → count_if (live_one r.token_hash) xs ≤ count_if (same_hash r) xs
unfolding live_one
count_if-live_one r [] = omega arith
count_if-live_one r (x ∷ xs) = ground (
  arith,
  count_if-live_one r xs,
  same_text x.token_hash r.token_hash,
  same_text r.token_hash x.token_hash,
)

truthy-some : (o : Option String) (x : String) → truthy o ≡ some x → (x =s= "") ≡ false
unfolding truthy
truthy-some none x h = absurd (ground arith)
truthy-some (some y) x h = ground arith

-- Until it expires, a token is refused once it has been revoked for the time that was left of it.
still_listed :
    (now later exp : ℕ)
    → now ≤ later
    → later / 1000 < exp
    → (1 ≤ exp - now / 1000) × (now / 1000 < exp) × (later < now + (exp - now / 1000) * 1000)
still_listed now later exp le lt = (omega arith, omega arith, omega arith)

module _ (store : ExpiringStore) (jwt : JwtService) (tokens : Table TokenRow same_hash)
    (hash : String → String) where
  drop_refresh-drops :
      (raw : String) (t : tokens.Contents)
      → find_by_hash tokens (hash raw) (drop_refresh store jwt tokens hash (some raw) t) ≡ none
  unfolding drop_refresh find_by_hash delete_by_id live_one
  drop_refresh-drops raw t = elim (Option-cases (tokens.find_first (live_one (hash raw)) t)) [
    | inl gone ↦ ground arith
    | inr (r, found) ↦
        let there : find? (live_one (hash raw)) (tokens.rows t) ≡ some r =
          ground (arith, tokens.find_first_rows (live_one (hash raw)) t) in
        let same : r.token_hash ≡ hash raw = ground (
          arith,
          find?-eq-some (live_one (hash raw)) (tokens.rows t) r,
          same_text r.token_hash (hash raw),
        ) in
        let one : count_if (live_one r.token_hash) (tokens.rows t) ≤ 1 =
          ground (arith, count_if-live_one r (tokens.rows t), tokens.unique r t) in
        let left = tokens.delete_many (λ x. x.id =s= r.id) t in
        let gone : tokens.find_first (live_one (hash raw)) left ≡ none = ground (
          arith,
          tokens.find_first_rows (live_one (hash raw)) left,
          tokens.delete_many_rows (λ x. x.id =s= r.id) t,
          find?-remove_if_only (λ x. x.id =s= r.id) (live_one (hash raw)) (tokens.rows t) r
              (rw same at one) there (same_text_refl r.id),
        ) in
        ground arith
  ]

  revoke_access-revokes :
      (now later exp : ℕ) (token jti : String) (claims : Claims) (s : store.State)
      → IsAnswering store
      → jwt.decode token ≡ some claims
      → truthy claims.jti ≡ some jti
      → claims.exp ≡ some exp
      → now ≤ later
      → later / 1000 < exp
      → is_blacklisted store later jti (revoke_access store jwt tokens hash now (some token) s)
        ≡ true
  unfolding revoke_access revoke_claims blacklist is_blacklisted
  revoke_access-revokes now later exp token jti claims s h d j e le lt =
      let (some_left, runs, lasts) = still_listed now later exp le lt in
      let (t, put, keeps) = h.set-lasting now (exp - now / 1000) jti "1" s some_left in
      ground (arith, truthy-some claims.jti jti, keeps later le lasts)

  -- While Redis answers, signing out with an access token that bears an identifier and an expiry has the
  -- guard refuse this token from then on, at any time; and the refresh token that is handed in with it is
  -- under no live row of the table any more.
  pub logout-ends :
      (now later exp : ℕ) (refresh access jti : String) (claims : Claims)
      (s : Session store jwt tokens hash)
      → IsAnswering store
      → IsJwt jwt
      → jwt.decode access ≡ some claims
      → truthy claims.jti ≡ some jti
      → claims.exp ≡ some exp
      → truthy (some access) ≡ some access
      → truthy (some refresh) ≡ some refresh
      → now ≤ later
      → let s' = logout store jwt tokens hash now (some refresh) (some access) s in
        ((e : GuardError) × (can_activate store jwt later (some access) s'.revocations ≡ err e))
        × (find_by_hash tokens (hash refresh) s'.rows ≡ none)
  unfolding logout can_activate admitted revoked
  logout-ends now later exp refresh access jti claims s answers good d j e a r le = (
    elim (Option-cases (jwt.verify later access)) [
      | inl bad ↦ (token_invalid, ground arith)
      | inr (shown, v) ↦
          let same : shown ≡ claims = ground (arith, good.verify-decode later access shown v) in
          let fresh : later / 1000 < exp = good.verify-exp later exp access shown v (rw same e) in
          let listed =
            revoke_access-revokes now later exp access jti claims s.revocations answers d j e le
              fresh in
          elim (Bool-cases (claims.sub =s= "")) [
            | inl nobody ↦ (payload_invalid, ground arith)
            | inr somebody ↦ (token_revoked, ground arith)
          ]
    ],
    rw r (drop_refresh-drops refresh s.rows),
  )
