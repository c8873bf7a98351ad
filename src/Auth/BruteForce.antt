-- ===== src/Auth/BruteForce.antt =====
-- What the counters of account-lockout.service.ts (src/modules/auth/infrastructure/services) come to.
use collabai_backend.Prelude.{
  ℕ, suc, ◌+◌, ◌≤◌, ◌≡◌, refl, String, Bool, true, false, some, ok, List, [], ◌∷◌, length, leb,
  ◌=s=◌, if◌then◌else◌, arith,
}
use collabai_backend.Projects.Entities.{TextOps}
use collabai_backend.Auth.Lockout.{
  Key, account_attempts, account_blocked, ip_attempts, ip_blocked, same_key, Redis, IsReachable,
  bump_and_maybe_block, start_window, record_failed_attempt, is_locked, normalize,
}

module _ (redis : Redis) (up : IsReachable redis) where
  record Opened (attempts : Key) (s t : redis.State) : Type 0 where
    counters : (j : Key) → up.counter j t ≡ up.counter j s
    others : (j : Key) → redis.exists j t ≡ redis.exists j s

  start_window-Opened :
      (attempts : Key) (count : ℕ) (s : redis.State)
      → ((start_window redis attempts count s).0 ≡ ok tt)
        × Opened attempts s (start_window redis attempts count s).1
  unfolding start_window
  start_window-Opened attempts count s =
      let (t, expired, counted, kept) = up.expire-some attempts 900 s (omega arith) in
      (
        ground arith,
        record { counters = λ j. ground (arith, counted j); others = λ j. ground (arith, kept j) },
      )

  -- One failure counted under one pair of keys.
  record Bumped (attempts blocked : Key) (threshold : ℕ) (s t : redis.State) : Type 0 where
    counted : up.counter attempts t ≡ suc (up.counter attempts s)
    locked : redis.exists blocked t ≡ (
        if leb threshold (suc (up.counter attempts s)) then some true else redis.exists blocked s)
    counters :
        (j : Key)
        → same_key attempts j ≡ false
        → same_key blocked j ≡ false
        → up.counter j t ≡ up.counter j s
    others :
        (j : Key)
        → same_key attempts j ≡ false
        → same_key blocked j ≡ false
        → redis.exists j t ≡ redis.exists j s

  bump-Bumped :
      (attempts blocked : Key) (threshold : ℕ) (s : redis.State)
      → same_key attempts blocked ≡ false
      → same_key blocked attempts ≡ false
      → ((bump_and_maybe_block redis attempts blocked threshold s).0 ≡ ok tt)
        × Bumped attempts blocked threshold s
            (bump_and_maybe_block redis attempts blocked threshold s).1
  unfolding bump_and_maybe_block
  bump-Bumped attempts blocked threshold s apart apart' =
      let (t, grown, counted, counters, others) = up.incr-some attempts s in
      let (opened, window) = start_window-Opened attempts (suc (up.counter attempts s)) t in
      let u = (start_window redis attempts (suc (up.counter attempts s)) t).1 in
      let (v, written, there, counters', others') = up.set-some blocked 1800 u (omega arith) in
      (
        ground arith,
        record {
          counted = ground (arith, window.counters attempts, counters' attempts);
          locked = ground (arith, window.others blocked, others blocked);
          counters = λ j a b. ground (arith, window.counters j, counters j, counters' j);
          others = λ j a b. ground (arith, window.others j, others j, others' j);
        },
      )

module _ (redis : Redis) (text : TextOps) where
  -- Failed attempts on one account, from the addresses in the list.
  unfoldable pub failures : String → List String → redis.State → redis.State
  failures email [] s = s
  failures email (ip ∷ ips) s = failures email ips (record_failed_attempt redis text email ip s)

  -- None of the addresses is this one.
  unfoldable pub elsewhere : String → List String → Bool
  elsewhere ip [] = true
  elsewhere ip (other ∷ ips) = if text.trim other =s= text.trim ip then false else elsewhere ip ips

module _ (redis : Redis) (up : IsReachable redis) (text : TextOps) where
  record Recorded (email ip : String) (s t : redis.State) : Type 0 where
    counted : up.counter (account_attempts email) t ≡ suc (up.counter (account_attempts email) s)
    locked : redis.exists (account_blocked email) t ≡ (
        if leb 5 (suc (up.counter (account_attempts email) s))
        then some true
        else redis.exists (account_blocked email) s)
    others :
        (other : String)
        → (ip =s= other) ≡ false
        → redis.exists (ip_blocked other) t ≡ redis.exists (ip_blocked other) s

  record_failed_attempt-Recorded :
      (email ip : String) (s : redis.State)
      → Recorded
          (normalize redis text email)
          (text.trim ip)
          s
          (record_failed_attempt redis text email ip s)
  unfolding record_failed_attempt
  record_failed_attempt-Recorded email ip s =
      let e = normalize redis text email in
      let i = text.trim ip in
      let (fine, b) = bump-Bumped redis up (account_attempts e) (account_blocked e) 5 s refl refl in
      let t = (bump_and_maybe_block redis (account_attempts e) (account_blocked e) 5 s).1 in
      let (fine', b') = bump-Bumped redis up (ip_attempts i) (ip_blocked i) 20 t refl refl in
      record {
        counted = ground (arith, b.counted, b'.counters (account_attempts e));
        locked = ground (arith, b.locked, b'.others (account_blocked e));
        others = λ o apart. ground (arith, b.others (ip_blocked o), b'.others (ip_blocked o));
      }

  account_blocked-failures :
      (email : String) (ips : List String) (s : redis.State)
      → let e = normalize redis text email in
        redis.exists (account_blocked e) s ≡ some (leb 5 (up.counter (account_attempts e) s))
        → redis.exists (account_blocked e) (failures redis text email ips s)
          ≡ some (leb 5 (up.counter (account_attempts e) s + length ips))
  unfolding failures
  account_blocked-failures email [] s h = ground arith
  account_blocked-failures email (ip ∷ ips) s h =
      let r = record_failed_attempt-Recorded email ip s in
      let t = record_failed_attempt redis text email ip s in
      ground (arith, r.counted, r.locked, account_blocked-failures email ips t)

  ip_blocked-failures :
      (email ip : String) (ips : List String) (s : redis.State)
      → elsewhere redis text ip ips ≡ true
      → redis.exists (ip_blocked (text.trim ip)) (failures redis text email ips s)
        ≡ redis.exists (ip_blocked (text.trim ip)) s
  unfolding failures elsewhere
  ip_blocked-failures email ip [] s h = refl
  ip_blocked-failures email ip (other ∷ ips) s h =
      let r = record_failed_attempt-Recorded email other s in
      ground (
        arith,
        r.others (text.trim ip),
        ip_blocked-failures email ip ips (record_failed_attempt redis text email other s),
      )

  -- While Redis answers and within one window: after five or more failed attempts on an account that
  -- had none, from whatever addresses, the account is locked for everybody.
  pub is_locked-failures :
      (email ip : String) (ips : List String) (s : redis.State)
      → let e = normalize redis text email in
        up.counter (account_attempts e) s ≡ 0
        → redis.exists (account_blocked e) s ≡ some false
        → 5 ≤ length ips
        → is_locked redis text email ip (failures redis text email ips s) ≡ true
  unfolding is_locked
  is_locked-failures email ip ips s fresh free many = ground (
    arith,
    account_blocked-failures email ips s (ground arith),
    up.exists-known (ip_blocked (text.trim ip)) (failures redis text email ips s),
  )

  -- While Redis answers and within one window: after at most four failed attempts on an account that
  -- had none, whoever comes from another address that is not blocked is not locked out.
  pub is_locked-few_failures :
      (email ip : String) (ips : List String) (s : redis.State)
      → let e = normalize redis text email in
        up.counter (account_attempts e) s ≡ 0
        → redis.exists (account_blocked e) s ≡ some false
        → length ips ≤ 4
        → elsewhere redis text ip ips ≡ true
        → redis.exists (ip_blocked (text.trim ip)) s ≡ some false
        → is_locked redis text email ip (failures redis text email ips s) ≡ false
  unfolding is_locked
  is_locked-few_failures email ip ips s fresh free few away calm = ground (
    arith,
    account_blocked-failures email ips s (ground arith),
    ip_blocked-failures email ip ips s away,
  )
