-- ===== src/Auth/Lockout.antt =====
-- The lockout of auth/providers/auth.service.ts: failed logins of one client with one email are
-- counted, and the client is locked out when they reach the maximum.
use mathlib.Core.Path.{subst}
use proof_stell_backend.Common.{
  ℕ, suc, ◌+◌, ◌*◌, ◌≤◌, ◌<◌, ◌≡◌, refl, sym, ◌∙◌, String, Bool, true, false, Option, none, some,
  List, [], ◌∷◌, if◌then◌else◌, ltb, leb, ===_refl, length, All, arith, Bool-cases, ◌⊎◌, inl, inr,
}
use proof_stell_backend.Common.Result.{err}
use proof_stell_backend.TokenTable.{Entry, read, write, fresh}
use proof_stell_backend.Users.{User, SelectedUser, find_by_email}
use proof_stell_backend.Users.Service.{Hashing}
use proof_stell_backend.Auth.{
  LockoutMetadata, AuthState, AuthConfig, invalid_credentials, lockout_error, login_key,
  normalize_email, counter_ttl, lockout_ttl, check_account_lockout, increment,
  record_failed_attempt, check_credentials, unless_locked, validate_user,
}

-- A login that fails for its password or its email
abbrev pub Fails : Hashing → String → List User → String → Type 0
Fails h email us password =
    (find_by_email email us ≡ none)
    ⊎ ((u : SelectedUser) × (find_by_email email us ≡ some u)
        × (u.is_active ≡ true)
        × (u.is_email_verified ≡ true)
        × (h.compare_password password u.password ≡ false))

module _ (h : Hashing) (digest : String → String) (config : AuthConfig) (email : String)
    (ip user_agent : Option String) where
  -- A locked client is refused whatever the password is, and nothing changes.
  pub validate_user-locked :
      (password : String) (now : ℕ) (s : AuthState) (l : LockoutMetadata)
      → read s.lockouts (login_key digest email ip user_agent) now ≡ some l
      → now < l.locked_until
      → validate_user h digest config email password ip user_agent now s
        ≡ (s, err (lockout_error l now))
  unfolding validate_user check_account_lockout unless_locked
  validate_user-locked password now s l e early =
      rw (e, check_account_lockout)
        (elim (Bool-cases (ltb now l.locked_until)) [
          | inl before ↦ rw before refl
          | inr after ↦ absurd (ground (arith, after, early))
        ])

  check_credentials-Fails :
      (password : String) (now : ℕ) (s : AuthState)
      → Fails h (normalize_email email) s.users password
      → check_credentials h digest config
          (login_key digest email ip user_agent)
          (normalize_email email)
          password
          now
          s
        ≡ (
          record_failed_attempt config (login_key digest email ip user_agent) now s,
          err invalid_credentials,
        )
  unfolding check_credentials
  check_credentials-Fails password now s (inl missing) = rw (missing, check_credentials) refl
  check_credentials-Fails password now s (inr (u, found, active, verified, wrong)) =
      rw (found, check_credentials) (rw (active, verified, wrong) refl)

  -- A failing login that is not locked out is counted.
  validate_user-Fails :
      (password : String) (now : ℕ) (s : AuthState)
      → s.lockouts.entry (login_key digest email ip user_agent) ≡ none
      → Fails h (normalize_email email) s.users password
      → validate_user h digest config email password ip user_agent now s ≡ (
        record_failed_attempt config (login_key digest email ip user_agent) now s,
        err invalid_credentials,
      )
  unfolding validate_user check_account_lockout unless_locked read fresh
  validate_user-Fails password now s free fails =
      rw (free, check_account_lockout, read) (check_credentials-Fails password now s fails)

-- The failures of a key are `i`, and the count is not forgotten before the time `until`.
abbrev Counted : String → ℕ → ℕ → AuthState → Type 0
Counted key until i s =
    ((i ≡ 0) × (s.attempts.entry key ≡ none))
    ⊎ ((e : Entry ℕ) × (s.attempts.entry key ≡ some e) × (e.value ≡ i) × (until ≤ e.expires))

abbrev locked_at : AuthConfig → ℕ → ℕ → Entry LockoutMetadata
locked_at config now n = record {
  value = record { locked_until = now + config.lockout_duration * 1000; attempts = n };
  expires = now + lockout_ttl config;
}

-- What `increment` returns and stores
increment-Counted :
    (has_incr : Bool) (key : String) (until now window i : ℕ) (s : AuthState)
    → now < until
    → until ≤ now + counter_ttl has_incr window
    → Counted key until i s
    → ((increment has_incr s.attempts key window now).1 ≡ suc i)
      × ((e : Entry ℕ) × ((increment has_incr s.attempts key window now).0.entry key ≡ some e)
          × (e.value ≡ suc i)
          × (until ≤ e.expires))
unfolding increment read fresh write
increment-Counted has_incr key until now window i s early long (inl (zero', free)) =
    rw (free, increment, read)
      (
        ground (arith, zero'),
        (
          record { value = 1; expires = now + counter_ttl has_incr window },
          rw (===_refl key) refl,
          ground (arith, zero'),
          long,
        ),
      )
increment-Counted has_incr key until now window i s early long (inr (e, found, value, keeps)) =
    let alive : read s.attempts key now ≡ some e.value = ground (arith, found, early, keeps) in
    let expires : ℕ = if has_incr then e.expires else now + counter_ttl has_incr window in
    rw (alive, increment)
      (
        ground (arith, value),
        (
          record { value = e.value + 1; expires = expires },
          rw (===_refl key) (rw found refl),
          ground (arith, value),
          ground (arith, keeps, long),
        ),
      )

module _ (config : AuthConfig) (key : String) (until now : ℕ) (s : AuthState) where
  Counted-step :
      (i : ℕ)
      → now < until
      → until ≤ now + counter_ttl config.has_incr config.attempt_window
      → Counted key until i s
      → Counted key until (suc i) (record_failed_attempt config key now s)
        × ((record_failed_attempt config key now s).lockouts.entry key ≡ (
            if leb config.max_failed_attempts (suc i)
            then some (locked_at config now (suc i))
            else s.lockouts.entry key))
  unfolding record_failed_attempt write
  Counted-step i early long counted =
      let (number, (e, found, value, keeps)) =
        increment-Counted config.has_incr key until now config.attempt_window i s early long
          counted in
      elim (Bool-cases (leb config.max_failed_attempts (suc i))) [
        | inl many ↦ rw number (rw many (inr (e, found, value, keeps), rw (===_refl key) refl))
        | inr few ↦ rw number (rw few (inr (e, found, value, keeps), refl))
      ]

-- Logins of one client: the password and the time of each
abbrev pub Attempt : Type 0
Attempt = String × ℕ

-- The time of the last attempt
abbrev pub last_time : ℕ → List Attempt → ℕ
last_time t [] = t
last_time t ((_, now) ∷ rest) = last_time now rest

module _ (h : Hashing) (digest : String → String) (config : AuthConfig) (email : String)
    (ip user_agent : Option String) where
  -- The state after logins one after the other, whether they returned or threw
  unfoldable pub validate_users : List Attempt → AuthState → AuthState
  validate_users [] s = s
  validate_users ((password, now) ∷ rest) s =
      validate_users rest (validate_user h digest config email password ip user_agent now s).0

  record_failed_attempt-users :
      (key : String) (now : ℕ) (s : AuthState)
      → (record_failed_attempt config key now s).users ≡ s.users
  unfolding record_failed_attempt
  record_failed_attempt-users key now s = ground arith

  module _ (start : ℕ) where
    abbrev pub InWindow : Attempt → Type 0
    InWindow (password, now) =
        (start ≤ now) × (now < start + counter_ttl config.has_incr config.attempt_window)

    pub validate_users-locks :
        (us : List User) (i now : ℕ) (password : String) (rest : List Attempt) (s : AuthState)
        → s.users ≡ us
        → i + suc (length rest) ≡ config.max_failed_attempts
        → All (λ ((p, t) : Attempt). Fails h (normalize_email email) us p) ((password, now) ∷ rest)
        → All InWindow ((password, now) ∷ rest)
        → Counted
            (login_key digest email ip user_agent)
            (start + counter_ttl config.has_incr config.attempt_window)
            i
            s
        → s.lockouts.entry (login_key digest email ip user_agent) ≡ none
        → (validate_users ((password, now) ∷ rest) s).lockouts.entry
            (login_key digest email ip user_agent)
          ≡ some (locked_at config (last_time now rest) config.max_failed_attempts)
    unfolding validate_users
    validate_users-locks us i now password [] s at size (fails, _) ((from, before), _) counted
          free =
        let key = login_key digest email ip user_agent in
        let (_, stored) =
          Counted-step config key (start + counter_ttl config.has_incr config.attempt_window) now s
            i before (omega arith) counted in
        rw
          (
            validate_user-Fails h digest config email ip user_agent password now s free
                (subst (λ l. Fails h (normalize_email email) l password) (sym at) fails),
            validate_users,
          )
          (ground (arith, stored, size))
    validate_users-locks us i now password ((p, t) ∷ rest) s at size (fails, more)
          ((from, before), later) counted free =
        let key = login_key digest email ip user_agent in
        let s' = record_failed_attempt config key now s in
        let (counted', stored) =
          Counted-step config key (start + counter_ttl config.has_incr config.attempt_window) now s
            i before (omega arith) counted in
        let same = record_failed_attempt-users key now s in
        rw
          (
            validate_user-Fails h digest config email ip user_agent password now s free
                (subst (λ l. Fails h (normalize_email email) l password) (sym at) fails),
            validate_users,
          )
          (validate_users-locks us (suc i) t p rest s' (same ∙ at) (omega arith) more later counted'
            (ground (arith, stored, size, free)))

  -- If a client has no counter and no lockout, then as many failing logins as the maximum, all while
  -- the counter of the first is kept, lock it out: after the last of them, until the lockout duration
  -- or the TTL of the lockout entry has passed, every login of that client is refused as locked,
  -- whatever the password is, and changes nothing. The TTL is the sum of the lockout duration and the
  -- attempt window in seconds, taken as milliseconds.
  pub validate_users-locked_out :
      (start first : ℕ) (password : String) (rest : List Attempt) (s : AuthState) (later : ℕ)
      (attempted : String)
      → s.attempts.entry (login_key digest email ip user_agent) ≡ none
      → s.lockouts.entry (login_key digest email ip user_agent) ≡ none
      → suc (length rest) ≡ config.max_failed_attempts
      → All
          (λ ((p, t) : Attempt). Fails h (normalize_email email) s.users p)
          ((password, first) ∷ rest)
      → All (InWindow start) ((password, first) ∷ rest)
      → later < last_time first rest + config.lockout_duration * 1000
      → later < last_time first rest + lockout_ttl config
      → (let s' = validate_users ((password, first) ∷ rest) s in
          validate_user h digest config email attempted ip user_agent later s' ≡ (
            s',
            err (
                lockout_error
                  (record {
                    locked_until = last_time first rest + config.lockout_duration * 1000;
                    attempts = config.max_failed_attempts;
                  })
                  later),
          ))
  unfolding read fresh
  validate_users-locked_out start first password rest s later attempted fresh' free size fails
        within early kept =
      let s' = validate_users ((password, first) ∷ rest) s in
      let stored =
        validate_users-locks start s.users 0 first password rest s refl (omega (arith, size)) fails
          within (inl (refl, fresh')) free in
      validate_user-locked h digest config email ip user_agent attempted later s'
        (record {
          locked_until = last_time first rest + config.lockout_duration * 1000;
          attempts = config.max_failed_attempts;
        })
        (ground (arith, stored, kept)) early
