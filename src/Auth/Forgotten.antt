-- ===== src/Auth/Forgotten.antt =====
-- How long a lockout of auth/providers/auth.service.ts lasts.
use proof_stell_backend.Common.{
  ℕ, suc, ◌+◌, ◌≤◌, ◌≡◌, refl, ◌∙◌, String, true, Option, none, some, List, [], ◌∷◌, length, All,
  arith, inl,
}
use proof_stell_backend.Common.Result.{ok}
use proof_stell_backend.TokenTable.{read, fresh}
use proof_stell_backend.Users.{SelectedUser, find_by_email}
use proof_stell_backend.Users.Service.{Hashing}
use proof_stell_backend.Auth.{
  AuthState, AuthConfig, login_key, normalize_email, lockout_ttl, check_account_lockout,
  check_credentials, unless_locked, validate_user, clear_failed_attempts, record_failed_attempt,
}
use proof_stell_backend.Auth.Lockout.{
  Attempt, Fails, InWindow, last_time, validate_users, validate_users-locks,
}
use proof_stell_backend.Auth.Admission.{validate_user-ok_iff}

module _ (h : Hashing) (digest : String → String) (config : AuthConfig) (email : String)
    (ip user_agent : Option String) where
  validate_user-users :
      (password : String) (now : ℕ) (s : AuthState)
      → (validate_user h digest config email password ip user_agent now s).0.users ≡ s.users
  unfolding validate_user check_account_lockout unless_locked check_credentials
      clear_failed_attempts record_failed_attempt
  validate_user-users password now s = ground arith

  validate_users-users :
      (attempts : List Attempt) (s : AuthState)
      → (validate_users h digest config email ip user_agent attempts s).users ≡ s.users
  unfolding validate_users
  validate_users-users [] s = refl
  validate_users-users ((password, now) ∷ rest) s =
      validate_users-users rest _ ∙ validate_user-users password now s

  -- A lockout is forgotten when the TTL of its entry has passed, although it should last for the
  -- lockout duration: then, after as many failing logins as the maximum, the client is let in with the
  -- right password. The TTL is the sum of the lockout duration and the attempt window in seconds,
  -- taken as milliseconds.
  pub validate_users-forgotten :
      (start first : ℕ) (password : String) (rest : List Attempt) (s : AuthState) (later : ℕ)
      (attempted : String) (u : SelectedUser)
      → s.attempts.entry (login_key digest email ip user_agent) ≡ none
      → s.lockouts.entry (login_key digest email ip user_agent) ≡ none
      → suc (length rest) ≡ config.max_failed_attempts
      → All
          (λ ((p, t) : Attempt). Fails h (normalize_email email) s.users p)
          ((password, first) ∷ rest)
      → All (InWindow h digest config email ip user_agent start) ((password, first) ∷ rest)
      → last_time first rest + lockout_ttl config ≤ later
      → find_by_email (normalize_email email) s.users ≡ some u
      → u.is_active ≡ true
      → u.is_email_verified ≡ true
      → h.compare_password attempted u.password ≡ true
      → (let s' = validate_users h digest config email ip user_agent ((password, first) ∷ rest) s in
          (validate_user h digest config email attempted ip user_agent later s').1 ≡ ok u)
  validate_users-forgotten start first password rest s later attempted u fresh' free size fails
        within late found active verified right =
      let s' = validate_users h digest config email ip user_agent ((password, first) ∷ rest) s in
      let stored =
        validate_users-locks h digest config email ip user_agent start s.users 0 first password rest
          s refl (omega (arith, size)) fails within (inl (refl, fresh')) free in
      let gone : read s'.lockouts (login_key digest email ip user_agent) later ≡ none =
        unfold read fresh in ground (arith, stored, late) in
      let same : s'.users ≡ s.users = validate_users-users ((password, first) ∷ rest) s in
      (validate_user-ok_iff h digest config email attempted ip user_agent later s' u).1
        (inl gone, rw same found, active, verified, right)
