-- ===== src/Auth/Registration.antt =====
-- register, verifyEmail and resendVerificationEmail of auth/providers/auth.service.ts. The token and
-- the id of the new user come from outside, and so does whether a mail can be sent and whether the
-- analytics service fails; times are in milliseconds.
use proof_stell_backend.Common.{
  ℕ, ◌+◌, ◌*◌, String, Bool, true, false, Option, none, some, List, [], ◌∷◌, ◌++◌, if◌then◌else◌,
  ltb,
}
use proof_stell_backend.Common.Result.{Result, ok, err}
use proof_stell_backend.Users.{
  User, SelectedUser, ReadUser, find_by_email, find_by_verification_token,
}
use proof_stell_backend.Users.Service.{
  Hashing, UserError, email_exists, username_exists, CreateUser, UpdateUser, create, update,
}
use proof_stell_backend.Auth.{
  AuthState, LoginError, invalid_verification, already_verified, verification_expired, user_missing,
  from_users, registration_failed, Method,
}

-- RegisterDto, after its transformations
pub record Register : Type 0 where
  pub email : String
  pub username : String
  pub password : String

-- addHours(new Date(), 24)
abbrev pub in_a_day : ℕ → ℕ
in_a_day now = now + 24 * 3600 * 1000

-- What register gives to the user service
unfoldable pub registration : Register → String → ℕ → CreateUser
registration q token now = record {
  email = q.email;
  username = q.username;
  password = q.password;
  role = none;
  is_email_verified = false;
  email_verification_token = some token;
  email_verification_expires = some (in_a_day now);
}

-- A ConflictException is thrown on, and every other error becomes one.
unfoldable pub registration_error : UserError → LoginError
registration_error email_exists = from_users email_exists
registration_error username_exists = from_users username_exists
registration_error e = registration_failed

unfoldable pub send_verification_email : Bool → String → SelectedUser → AuthState → AuthState
send_verification_email sent token u s =
    if sent
    then record s {
      emails = s.emails ++ record { to = u.email; username = u.username; token = token } ∷ [];
    }
    else s

-- What follows the creation: the user is read, the mail is sent and the event is tracked.
unfoldable pub announce : Bool → Bool → String → String → Method SelectedUser
announce sent tracked token email s = elim (find_by_email email s.users) [
  | none ↦ (s, err registration_failed)
  | some u ↦
      let s' = send_verification_email sent token u s in
      if sent
      then if tracked then (s', ok u) else (s', err registration_failed)
      else (s', err registration_failed)
]

unfoldable pub after_creation :
    Bool
    → Bool
    → String
    → AuthState
    → List User × Result UserError ReadUser
    → AuthState × Result LoginError SelectedUser
after_creation sent tracked token s (us, err e) =
    (record s { users = us }, err (registration_error e))
after_creation sent tracked token s (us, ok u) =
    announce sent tracked token u.email (record s { users = us })

-- async register(registerDto)
unfoldable pub register :
    Hashing → Bool → Bool → String → String → ℕ → Register → Method SelectedUser
register h sent tracked id token now q s =
    after_creation sent tracked token s (create h id (registration q token now) s.users)

abbrev pub no_update : UpdateUser
no_update = record {
  new_email = none;
  new_username = none;
  new_is_email_verified = none;
  new_token = none;
  new_expires = none;
}

abbrev pub updated :
    AuthState → List User × Result UserError ReadUser → AuthState × Result LoginError Bool
updated s (us, err e) = (record s { users = us }, err (from_users e))
updated s (us, ok _) = (record s { users = us }, ok true)

abbrev pub is_past : ℕ → Option ℕ → Bool
is_past now none = true
is_past now (some e) = ltb e now

-- The update of a user whose email is now verified
abbrev pub verified_update : UpdateUser
verified_update = record no_update {
  new_is_email_verified = some true;
  new_token = some none;
  new_expires = some none;
}

-- async verifyEmail(token)
unfoldable pub verify_email : String → ℕ → Method Bool
verify_email token now s = elim (find_by_verification_token token s.users) [
  | none ↦ (s, err invalid_verification)
  | some u ↦
      if u.is_email_verified
      then (s, err already_verified)
      else if is_past now u.email_verification_expires
      then (s, err verification_expired)
      else updated s (update u.id verified_update s.users)
]

-- What follows the new token of resendVerificationEmail
unfoldable pub resent :
    Bool
    → String
    → SelectedUser
    → AuthState × Result LoginError Bool
    → AuthState × Result LoginError Bool
resent sent token u (s, err e) = (s, err e)
resent sent token u (s, ok _) =
    let s' = send_verification_email sent token u s in
    if sent then (s', ok true) else (s', err registration_failed)

-- async resendVerificationEmail(email)
unfoldable pub resend_verification_email : Bool → String → ℕ → String → Method Bool
resend_verification_email sent token now email s = elim (find_by_email email s.users) [
  | none ↦ (s, err user_missing)
  | some u ↦
      if u.is_email_verified
      then (s, err already_verified)
      else resent sent token u (
          updated s (
            update u.id
              (record no_update {
                new_token = some (some token);
                new_expires = some (some (in_a_day now));
              })
              s.users))
]
