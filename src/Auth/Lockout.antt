-- ===== src/Auth/Lockout.antt =====
-- Locking out who guesses passwords: src/modules/auth/infrastructure/services,
-- account-lockout.service.ts, over the Redis client. A key is one of four prefixes with a text behind
-- it. A call of the client may fail, and the service then carries on: it fails open.
use collabai_backend.Prelude.{
  ℕ, suc, ◌≤◌, ◌≡◌, String, Bool, true, false, ◌||◌, Option, none, some, is_some, ok, err, Action,
  leb, ◌==◌, ◌=s=◌, ◌>>=◌, ◌>>◌, pure, if◌then◌else◌,
}
use collabai_backend.Projects.Entities.{TextOps}

pub data Key : Type 0 where
  account_attempts account_blocked ip_attempts ip_blocked : String → Key

abbrev pub same_key : Key → Key → Bool
same_key (account_attempts a) (account_attempts b) = a =s= b
same_key (account_blocked a) (account_blocked b) = a =s= b
same_key (ip_attempts a) (ip_attempts b) = a =s= b
same_key (ip_blocked a) (ip_blocked b) = a =s= b
same_key _ _ = false

-- `none`: the call fails. `ttl` finds no time to live, or one.
pub record Redis : Type 1 where
  pub State : Type 0
  pub incr : Key → State → Option (ℕ × State)
  pub expire : Key → ℕ → State → Option State
  pub ttl : Key → State → Option (Option ℕ)
  pub set : Key → ℕ → State → Option State
  pub exists : Key → State → Option Bool
  pub del : Key → State → Option State

-- The client as documented, while the server answers and before any of the keys runs out: INCR adds
-- one to a counter and returns it, EXPIRE and SET with a time to live change nothing else.
pub record IsReachable (redis : Redis) : Type 0 where
  pub counter : Key → redis.State → ℕ
  pub exists-known : (k : Key) (s : redis.State) → is_some (redis.exists k s) ≡ true
  pub incr-some :
      (k : Key) (s : redis.State)
      → (t : redis.State) × (redis.incr k s ≡ some (suc (counter k s), t))
        × (counter k t ≡ suc (counter k s))
        × ((j : Key) → same_key k j ≡ false → counter j t ≡ counter j s)
        × ((j : Key) → same_key k j ≡ false → redis.exists j t ≡ redis.exists j s)
  pub expire-some :
      (k : Key) (n : ℕ) (s : redis.State)
      → 1 ≤ n
      → (t : redis.State) × (redis.expire k n s ≡ some t)
        × ((j : Key) → counter j t ≡ counter j s)
        × ((j : Key) → redis.exists j t ≡ redis.exists j s)
  pub set-some :
      (k : Key) (n : ℕ) (s : redis.State)
      → 1 ≤ n
      → (t : redis.State) × (redis.set k n s ≡ some t)
        × (redis.exists k t ≡ some true)
        × ((j : Key) → same_key k j ≡ false → counter j t ≡ counter j s)
        × ((j : Key) → same_key k j ≡ false → redis.exists j t ≡ redis.exists j s)

-- ACCOUNT_MAX_ATTEMPTS, IP_MAX_ATTEMPTS, ATTEMPT_WINDOW_SECONDS and LOCKOUT_SECONDS
abbrev pub account_max_attempts : ℕ
account_max_attempts = 5

abbrev pub ip_max_attempts : ℕ
ip_max_attempts = 20

abbrev pub attempt_window_seconds : ℕ
attempt_window_seconds = 900

abbrev pub lockout_seconds : ℕ
lockout_seconds = 1800

-- `ttl(…).catch(() => -1)`, and is it 0 or more?
has_ttl : Option (Option ℕ) → Bool
has_ttl (some (some n)) = true
has_ttl _ = false

both_known : Option Bool → Option Bool → Bool
both_known (some a) (some b) = a || b
both_known _ _ = false

module _ (redis : Redis) where
  -- A command of the client: it fails, or has done its work.
  abbrev pub command : (redis.State → Option redis.State) → Action redis.State (Unit {0}) (Unit {0})
  command f s = elim (f s) [ none ↦ (err tt, s) | some t ↦ (ok tt, t) ]

  abbrev increment : Key → Action redis.State (Unit {0}) ℕ
  increment k s = elim (redis.incr k s) [ none ↦ (err tt, s) | some (n, t) ↦ (ok n, t) ]

  -- The window opens with the first failure; a counter without an end is given one.
  unfoldable pub start_window : Key → ℕ → Action redis.State (Unit {0}) (Unit {0})
  unfolding has_ttl
  start_window attempts count s =
      let opened = command (redis.expire attempts attempt_window_seconds) s in
      if count == 1 then opened else if has_ttl (redis.ttl attempts s) then (ok tt, s) else opened

  -- `bumpAndMaybeBlock`
  unfoldable pub bump_and_maybe_block : Key → Key → ℕ → Action redis.State (Unit {0}) (Unit {0})
  unfolding start_window
  bump_and_maybe_block attempts blocked threshold = do
    count ← increment attempts
    start_window attempts count
    if leb threshold count then command (redis.set blocked lockout_seconds) else pure tt

  module _ (text : TextOps) where
    abbrev pub normalize : String → String
    normalize email = text.trim (text.to_lower email)

    -- `recordFailedAttempt`
    unfoldable pub record_failed_attempt : String → String → redis.State → redis.State
    unfolding bump_and_maybe_block
    record_failed_attempt email ip s =
        let email = normalize email in
        let ip = text.trim ip in
        let bump_account =
          bump_and_maybe_block (account_attempts email) (account_blocked email)
            account_max_attempts in
        let bump_ip = bump_and_maybe_block (ip_attempts ip) (ip_blocked ip) ip_max_attempts in
        ((bump_account >> bump_ip) s).1

    -- `isLocked`
    unfoldable pub is_locked : String → String → redis.State → Bool
    unfolding both_known
    is_locked email ip s =
        both_known (redis.exists (account_blocked (normalize email)) s)
          (redis.exists (ip_blocked (text.trim ip)) s)

    -- `clearAttempts`
    unfoldable pub clear_attempts : String → redis.State → redis.State
    clear_attempts email s =
        let email = normalize email in
        let forget =
          command (redis.del (account_attempts email))
          >> command (redis.del (account_blocked email)) in
        (forget s).1
