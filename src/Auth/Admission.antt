-- ===== src/Auth/Admission.antt =====
-- When validateUser of auth/providers/auth.service.ts lets a client in, and what a success changes.
use proof_stell_backend.Common.{
  ℕ, ◌≤◌, ◌≡◌, ◌↔◌, ◌⊎◌, refl, String, true, false, Option, none, some, ltb, ===_refl, arith,
  Option-cases, Bool-cases, inl, inr,
}
use proof_stell_backend.Common.Result.{ok}
use proof_stell_backend.TokenTable.{read, read-remove}
use proof_stell_backend.Users.{SelectedUser, find_by_email}
use proof_stell_backend.Users.Service.{Hashing}
use proof_stell_backend.Auth.Lockout.{validate_user-locked}
use proof_stell_backend.Auth.{
  LockoutMetadata, AuthState, AuthConfig, login_key, normalize_email, check_account_lockout,
  check_credentials, unless_locked, validate_user, clear_failed_attempts,
}

-- No lockout is in force.
abbrev pub IsOpen : String → ℕ → AuthState → Type 0
IsOpen key now s =
    (read s.lockouts key now ≡ none)
    ⊎ ((l : LockoutMetadata) × (read s.lockouts key now ≡ some l) × (l.locked_until ≤ now))

module _ (h : Hashing) (digest : String → String) (config : AuthConfig)
    (key email password : String) (now : ℕ) where
  check_credentials-ok_iff :
      (s : AuthState) (u : SelectedUser)
      → ((check_credentials h digest config key email password now s).1 ≡ ok u) ↔ (
          (find_by_email email s.users ≡ some u)
          × (u.is_active ≡ true)
          × (u.is_email_verified ≡ true)
          × (h.compare_password password u.password ≡ true))
  unfolding check_credentials
  check_credentials-ok_iff s u = elim (Option-cases (find_by_email email s.users)) [
    | inl missing ↦
        (λ e. absurd (ground (arith, missing, e)), λ h. absurd (ground (arith, missing, h.0)))
    | inr (v, there) ↦ (
      λ e. (
        ground (arith, there, e),
        ground (arith, there, e),
        ground (arith, there, e),
        ground (arith, there, e),
      ),
      λ (found, active, verified, right). ground (arith, there, found, active, verified, right),
    )
  ]

  check_credentials-success :
      (s : AuthState) (u : SelectedUser)
      → find_by_email email s.users ≡ some u
      → u.is_active ≡ true
      → u.is_email_verified ≡ true
      → h.compare_password password u.password ≡ true
      → check_credentials h digest config key email password now s
        ≡ (clear_failed_attempts key s, ok u)
  unfolding check_credentials
  check_credentials-success s u found active verified right =
      rw (found, check_credentials) (rw (active, verified, right) refl)

cleared :
    (key : String) (later : ℕ) (s : AuthState)
    → (read (clear_failed_attempts key s).attempts key later ≡ none)
      × (read (clear_failed_attempts key s).lockouts key later ≡ none)
      × ((clear_failed_attempts key s).users ≡ s.users)
unfolding clear_failed_attempts
cleared key later s = (
  ground (arith, read-remove s.attempts key key later, ===_refl key),
  ground (arith, read-remove s.lockouts key key later, ===_refl key),
  refl,
)

module _ (h : Hashing) (digest : String → String) (config : AuthConfig) (email password : String)
    (ip user_agent : Option String) (now : ℕ) where
  refuse :
      (s : AuthState) (l : LockoutMetadata)
      → read s.lockouts (login_key digest email ip user_agent) now ≡ some l
      → ltb now l.locked_until ≡ true
      → IsOpen (login_key digest email ip user_agent) now s
      → ⊥
  refuse s l there early (inl free) = ground (arith, there, free)
  refuse s l there early (inr (m, found, over)) = ground (arith, there, found, early, over)

  -- validateUser without a lockout
  validate_user-free :
      (s : AuthState)
      → read s.lockouts (login_key digest email ip user_agent) now ≡ none
      → validate_user h digest config email password ip user_agent now s
        ≡ check_credentials h digest config
            (login_key digest email ip user_agent)
            (normalize_email email)
            password
            now
            s
  unfolding validate_user unless_locked
  validate_user-free s free =
      let passed : check_account_lockout (login_key digest email ip user_agent) now s ≡ (s, ok tt) =
        unfold check_account_lockout in rw (free, check_account_lockout) refl in
      rw passed refl

  -- validateUser when the lockout is over
  validate_user-over :
      (s : AuthState) (l : LockoutMetadata)
      → read s.lockouts (login_key digest email ip user_agent) now ≡ some l
      → l.locked_until ≤ now
      → validate_user h digest config email password ip user_agent now s
        ≡ check_credentials h digest config
            (login_key digest email ip user_agent)
            (normalize_email email)
            password
            now
            (clear_failed_attempts (login_key digest email ip user_agent) s)
  unfolding validate_user unless_locked
  validate_user-over s l there over =
      let late : ltb now l.locked_until ≡ false = ground (arith, over) in
      let passed : check_account_lockout (login_key digest email ip user_agent) now s
          ≡ (clear_failed_attempts (login_key digest email ip user_agent) s, ok tt) =
        unfold check_account_lockout in rw (there, check_account_lockout) (rw late refl) in
      rw passed refl

  -- A client is let in as a user exactly when no lockout of its key is in force, the user is the one
  -- with the normalised email, is active and verified, and the password matches.
  pub validate_user-ok_iff :
      (s : AuthState) (u : SelectedUser)
      → ((validate_user h digest config email password ip user_agent now s).1 ≡ ok u) ↔ (
          IsOpen (login_key digest email ip user_agent) now s
          × (find_by_email (normalize_email email) s.users ≡ some u)
          × (u.is_active ≡ true)
          × (u.is_email_verified ≡ true)
          × (h.compare_password password u.password ≡ true))
  unfolding clear_failed_attempts
  validate_user-ok_iff s u =
      let key = login_key digest email ip user_agent in
      let mail = normalize_email email in
      elim (Option-cases (read s.lockouts key now)) [
        | inl free ↦
            let (to, from) = check_credentials-ok_iff h digest config key mail password now s u in
            rw (validate_user-free s free)
              (λ e. let c = to e in (inl free, c.0, c.1, c.2, c.3), λ c. from (c.1, c.2, c.3, c.4))
        | inr (l, there) ↦ elim (Bool-cases (ltb now l.locked_until)) [
          | inl early ↦
              rw
                (validate_user-locked h digest config email ip user_agent password now s l there
                  (ground (arith, early)))
                (λ e. absurd (ground (arith, e)), λ c. absurd (refuse s l there early c.0))
          | inr over ↦
              let s' = clear_failed_attempts key s in
              let (to, from) =
                check_credentials-ok_iff h digest config key mail password now s' u in
              rw (validate_user-over s l there (ground (arith, over))) (
                λ e. let c = to e in (inr (l, there, ground (arith, over)), c.0, c.1, c.2, c.3),
                λ c. from (c.1, c.2, c.3, c.4),
              )
        ]
      ]

  -- A login that succeeds clears the failures of its key and changes no user: the key then has
  -- neither a counter nor a lockout.
  pub validate_user-clears :
      (s : AuthState) (u : SelectedUser) (later : ℕ)
      → (validate_user h digest config email password ip user_agent now s).1 ≡ ok u
      → (let s' = (validate_user h digest config email password ip user_agent now s).0 in
          let key = login_key digest email ip user_agent in
          (read s'.attempts key later ≡ none)
          × (read s'.lockouts key later ≡ none)
          × (s'.users ≡ s.users))
  validate_user-clears s u later returned =
      let key = login_key digest email ip user_agent in
      let mail = normalize_email email in
      let (opened, found, active, verified, right) = (validate_user-ok_iff s u).0 returned in
      elim opened [
        | inl free ↦ rw (validate_user-free s free) (
            rw
              (check_credentials-success h digest config key mail password now s u found active
                verified right)
              (cleared key later s))
        | inr (l, there, over) ↦ rw (validate_user-over s l there over) (
            rw
              (check_credentials-success h digest config key mail password now
                (clear_failed_attempts key s) u (unfold clear_failed_attempts in found) active
                verified right)
              (unfold clear_failed_attempts in cleared key later (clear_failed_attempts key s)))
      ]
