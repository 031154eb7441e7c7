-- ===== src/Auth.antt =====
-- auth/providers/auth.service.ts: logins with account lockout, registration and email verification,
-- over the user service and the token service. The counters and the lockouts of the cache are two
-- tables, under the part of their keys that they share, with their times in milliseconds. The TTLs of
-- the configuration are in seconds and positive; `cacheService.set` hands them on as they are to a
-- cache manager that takes milliseconds, and only the client's EXPIRE reads them as seconds.
pub mod Registration
pub mod Tokens
pub mod Lockout
pub mod Admission
pub mod Forgotten
pub mod Journey
pub mod Roles
pub mod Sessions
mod Tests
use Prim.Native.Char.{Char, code}
use Prim.Native.String.{char_at, ◌++◌ as append_text}
use proof_stell_backend.Common.{
  ℕ, ◌+◌, ◌-◌, ◌*◌, ◌/◌, String, Bool, true, false, Option, none, some, List, [], ◌∷◌, ◌++◌,
  if◌then◌else◌, ltb, leb, ◌==◌, ◌===◌, ◌&&◌, ◌||◌, not,
}
use proof_stell_backend.Common.Result.{Result, ok, err}
use proof_stell_backend.Common.Text.{to_lower_case, trim}
use proof_stell_backend.TokenTable.{Table, Entry, read, write, remove, fresh}
use proof_stell_backend.Tokens.{TokenCache}
use proof_stell_backend.Users.{User, SelectedUser, ReadUser, find_by_email}
use proof_stell_backend.Users.Service.{Hashing, UserError}

-- interface LockoutMetadata
pub record LockoutMetadata : Type 0 where
  pub locked_until : ℕ
  pub attempts : ℕ

-- A message for the mail service
pub record VerificationEmail : Type 0 where
  pub to : String
  pub username : Option String
  pub token : String

-- What the service reads and changes
pub record AuthState : Type 0 where
  pub users : List User
  pub attempts : Table ℕ
  pub lockouts : Table LockoutMetadata
  pub tokens : TokenCache
  pub emails : List VerificationEmail

-- The configuration, in seconds; `has_incr` says whether the cache client can increment
pub record AuthConfig : Type 0 where
  pub attempt_window : ℕ
  pub max_failed_attempts : ℕ
  pub lockout_duration : ℕ
  pub has_incr : Bool

pub data LoginError : Type 0 where
  invalid_credentials deactivated unverified : LoginError
  locked : ℕ → LoginError
  invalid_verification already_verified verification_expired user_missing : LoginError
  from_users : UserError → LoginError
  registration_failed : LoginError
  invalid_refresh : LoginError

abbrev pub Method : Type 0 → Type 0
Method A = AuthState → AuthState × Result LoginError A

-- a || b on texts
abbrev pub or_text : Option String → String → String
or_text none b = b
or_text (some a) b = if a === "" then b else a

-- private normalizeEmail
unfoldable pub normalize_email : String → String
normalize_email email = trim (to_lower_case email)

-- Required<LoginContext>
pub record LoginContext : Type 0 where
  pub ip : String
  pub user_agent : String

-- private buildLoginContext
unfoldable pub build_login_context : Option String → Option String → LoginContext
build_login_context ip user_agent = record {
  ip = or_text (some (trim (or_text ip "unknown"))) "unknown";
  user_agent = or_text (some (trim (or_text user_agent "unknown"))) "unknown";
}

-- private hashDeviceMetadata; `digest` is the start of the hash of a text
unfoldable pub hash_device_metadata : (String → String) → String → String
hash_device_metadata digest user_agent =
    digest (to_lower_case (trim (or_text (some user_agent) "unknown")))

-- private buildLockoutKeys: what follows `auth:attempts:` and `auth:lockout:`
unfoldable pub build_lockout_key : (String → String) → String → LoginContext → String
build_lockout_key digest email c = append_text email (
    append_text ":" (append_text c.ip (append_text ":" (hash_device_metadata digest c.user_agent))))

-- The key of a login
unfoldable pub login_key : (String → String) → String → Option String → Option String → String
login_key digest email ip user_agent =
    build_lockout_key digest (normalize_email email) (build_login_context ip user_agent)

-- Math.ceil((until - now) / 1000)
abbrev pub seconds_until : ℕ → ℕ → ℕ
seconds_until until now = (until - now + 999) / 1000

-- private clearFailedAttempts
unfoldable pub clear_failed_attempts : String → AuthState → AuthState
clear_failed_attempts key s = record s {
  attempts = remove s.attempts key;
  lockouts = remove s.lockouts key;
}

-- The text of the error says how many minutes are left.
abbrev pub lockout_error : LockoutMetadata → ℕ → LoginError
lockout_error l now = locked ((seconds_until l.locked_until now + 59) / 60)

-- private checkAccountLockout
unfoldable pub check_account_lockout : String → ℕ → Method (Unit {0})
check_account_lockout key now s = elim (read s.lockouts key now) [
  | none ↦ (s, ok tt)
  | some l ↦
      if ltb now l.locked_until
      then (s, err (lockout_error l now))
      else (clear_failed_attempts key s, ok tt)
]

-- How many milliseconds a counter is kept that is written with a TTL: EXPIRE of the client reads
-- seconds, the cache manager reads milliseconds
abbrev pub counter_ttl : Bool → ℕ → ℕ
counter_ttl has_incr ttl = if has_incr then ttl * 1000 else ttl

-- cacheService.increment(key, ttl): the client's INCR keeps the time at which the entry expires, the
-- other branch sets it again
unfoldable pub increment : Bool → Table ℕ → String → ℕ → ℕ → Table ℕ × ℕ
increment has_incr t key ttl now = elim (read t key now) [
  | none ↦ (write t key 1 (now + counter_ttl has_incr ttl), 1)
  | some n ↦ (
    write t key (n + 1) (elim (t.entry key) [
      | none ↦ now + counter_ttl has_incr ttl
      | some e ↦ if has_incr then e.expires else now + counter_ttl has_incr ttl
    ]),
    n + 1,
  )
]

-- private getLockoutMetadataTtlSeconds
abbrev pub lockout_ttl : AuthConfig → ℕ
lockout_ttl config = config.lockout_duration + config.attempt_window

-- private recordFailedAttempt
unfoldable pub record_failed_attempt : AuthConfig → String → ℕ → AuthState → AuthState
record_failed_attempt config key now s =
    let (attempts, n) = increment config.has_incr s.attempts key config.attempt_window now in
    let counted = record s { attempts = attempts } in
    if leb config.max_failed_attempts n
    then record counted {
      lockouts =
          write s.lockouts key
            (record { locked_until = now + config.lockout_duration * 1000; attempts = n })
            (now + lockout_ttl config);
    }
    else counted

module _ (h : Hashing) (digest : String → String) (config : AuthConfig) where
  -- validateUser after the check of the lockout
  unfoldable pub check_credentials : String → String → String → ℕ → Method SelectedUser
  check_credentials key email password now s = elim (find_by_email email s.users) [
    | none ↦ (record_failed_attempt config key now s, err invalid_credentials)
    | some u ↦
        if not u.is_active
        then (s, err deactivated)
        else if not u.is_email_verified
        then (s, err unverified)
        else if not (h.compare_password password u.password)
        then (record_failed_attempt config key now s, err invalid_credentials)
        else (clear_failed_attempts key s, ok u)
  ]

  unfoldable pub unless_locked :
      AuthState × Result LoginError (Unit {0})
      → Method SelectedUser
      → AuthState × Result LoginError SelectedUser
  unless_locked (s, err e) next = (s, err e)
  unless_locked (s, ok _) next = next s

  -- async validateUser(email, password, clientIp, userAgent)
  unfoldable pub validate_user :
      String → String → Option String → Option String → ℕ → Method SelectedUser
  validate_user email password ip user_agent now s =
      let key = login_key digest email ip user_agent in
      unless_locked (check_account_lockout key now s)
        (check_credentials key (normalize_email email) password now)

  -- async getRemainingLockoutTime(email, clientIp, userAgent)
  unfoldable pub get_remaining_lockout_time :
      String → Option String → Option String → ℕ → AuthState → AuthState × ℕ
  get_remaining_lockout_time email ip user_agent now s =
      let key = login_key digest email ip user_agent in
      elim (read s.lockouts key now) [
        | none ↦ (s, 0)
        | some l ↦
            if ltb now l.locked_until
            then (s, seconds_until l.locked_until now)
            else (clear_failed_attempts key s, 0)
      ]

  -- async unlockAccount(email, clientIp, userAgent)
  unfoldable pub unlock_account : String → Option String → Option String → AuthState → AuthState
  unlock_account email ip user_agent s =
      clear_failed_attempts (login_key digest email ip user_agent) s
