-- ===== src/Auth/Tests.antt =====
-- A client that is locked out, and a user who registers, logs in and logs out.
use proof_stell_backend.Common.{
  ◌+◌, ltb, if◌then◌else◌, inr, ◌≡◌, ◌↔◌, refl, String, true, false, none, some, [], ◌∷◌, ◌===◌,
  ===_refl, ne_of_===, inl, arith,
}
use proof_stell_backend.Common.Result.{ok, err, is_ok}
use proof_stell_backend.Common.StringSet.{has}
use proof_stell_backend.TokenTable.{read, write, remove, empty, fresh}
use proof_stell_backend.Tokens.{expiring, seconds, refresh_claims, Jwt, JwtLaws, Claims}
use proof_stell_backend.Users.{
  User, SelectedUser, find_row, save_row, select_user, read_user, find_by_email,
}
use proof_stell_backend.Users.Service.{
  Hashing, HashingLaws, new_user, create, create_conflict, conflict, save_and_read, find_one,
  find_complete_user,
}
use proof_stell_backend.Common.Text.{
  trim, trim_start, trim_end, to_lower_case, lower_char, is_white,
}
use proof_stell_backend.Auth.{
  AuthState, AuthConfig, lockout_error, validate_user, check_credentials, check_account_lockout,
  unless_locked, clear_failed_attempts, normalize_email, login_key,
}
use proof_stell_backend.Auth.Registration.{
  Register, registration, register, after_creation, announce, send_verification_email, verify_email,
}
use proof_stell_backend.Auth.Tokens.{login, logout, refresh_tokens}
use proof_stell_backend.Auth.Forgotten.{validate_users-forgotten}
use proof_stell_backend.Auth.Lockout.{Fails, validate_users, validate_users-locked_out}
use proof_stell_backend.Auth.Admission.{IsOpen, validate_user-ok_iff}
use proof_stell_backend.Auth.Journey.{register-verify-login}
use proof_stell_backend.Auth.Roles.{login-roleless}
use proof_stell_backend.Auth.Sessions.{logout-refused}

abbrev hashing : Hashing
hashing = record { hash = λ p. p; compare_password = λ p q. p === q }

abbrev hashing_laws : HashingLaws hashing
hashing_laws = record { compare-hash = λ p. ===_refl p }

abbrev digest : String → String
digest t = "d"

abbrev config : AuthConfig
config = record {
  attempt_window = 900;
  max_failed_attempts = 3;
  lockout_duration = 600;
  has_incr = true;
}

runs : Unit {0}
unfolding find_row save_row select_user read_user find_by_email new_user create create_conflict
    conflict save_and_read find_one find_complete_user validate_user check_credentials
    check_account_lockout unless_locked clear_failed_attempts normalize_email trim trim_start
    trim_end to_lower_case lower_char is_white registration register after_creation announce
    send_verification_email read write remove empty fresh
runs = tt

abbrev nobody : AuthState
nobody = record {
  users = [];
  attempts = empty;
  lockouts = empty;
  tokens = record {
    families = empty;
    revoked_refresh = empty;
    sessions = empty;
    revoked_access = empty;
  };
  emails = [];
}

abbrev ann : Register
ann = record { email = "ann@x.org"; username = "ann"; password = "secret" }

validate_users-locked_out_example :
    (let s' =
        validate_users hashing digest config "Ann@x.org " none none
          (("a", 1000) ∷ ("b", 1500) ∷ ("c", 2500) ∷ [])
          nobody in
      validate_user hashing digest config "Ann@x.org " "secret" none none 3500 s'
      ≡ (s', err (lockout_error (record { locked_until = 602500; attempts = 3 }) 3500)))
unfolding runs
validate_users-locked_out_example =
    validate_users-locked_out hashing digest config "Ann@x.org " none none 1000 1000 "a"
      (("b", 1500) ∷ ("c", 2500) ∷ []) nobody 3500 "secret" refl refl refl
      (inl refl, (inl refl, (inl refl, tt))) (omega arith) (omega arith) (omega arith)

register-verify-login_example :
    (let (s1, _) = register hashing true true "u1" "t1" 1000 ann nobody in
      let (s2, verified_now) = verify_email "t1" 5000 s1 in
      let (_, let_in) =
        validate_user hashing digest config " ANN@x.org" "secret" none none 9000 s2 in
      (verified_now ≡ ok true)
      × (let_in
          ≡ ok (record {
            id = "u1";
            email = "ann@x.org";
            password = "secret";
            is_active = true;
            is_email_verified = true;
            username = none;
            role = none;
          })))
unfolding runs
register-verify-login_example =
    register-verify-login hashing "u1" "t1" 1000 ann nobody refl refl hashing_laws digest config
      " ANN@x.org" none none 5000 9000 refl refl (omega arith) refl

abbrev verified : User
verified = record (new_user hashing "u1" (registration ann "t1" 1000)) { is_email_verified = true }

abbrev selected : SelectedUser
selected = record {
  id = "u1";
  email = "ann@x.org";
  password = "secret";
  is_active = true;
  is_email_verified = true;
  username = none;
  role = none;
}

abbrev one_user : AuthState
one_user = record nobody { users = verified ∷ [] }

validate_user-ok_iff_example :
    ((validate_user hashing digest config "ann@x.org" "secret" none none 9000 one_user).1
      ≡ ok selected)
    ↔ (IsOpen (login_key digest "ann@x.org" none none) 9000 one_user
        × (find_by_email (normalize_email "ann@x.org") one_user.users ≡ some selected)
        × (selected.is_active ≡ true)
        × (selected.is_email_verified ≡ true)
        × (hashing.compare_password "secret" selected.password ≡ true))
validate_user-ok_iff_example =
    validate_user-ok_iff hashing digest config "ann@x.org" "secret" none none 9000 one_user selected

let_in :
    (validate_user hashing digest config "ann@x.org" "secret" none none 9000 one_user).1
    ≡ ok selected
unfolding runs
let_in = refl

wrong :
    (password : String)
    → (password === "secret") ≡ false
    → Fails hashing "ann@x.org" one_user.users password
unfolding runs
wrong password e = inr (selected, refl, refl, refl, e)

validate_users-forgotten_example :
    (let s' =
        validate_users hashing digest config "ann@x.org" none none
          (("a", 1000) ∷ ("b", 1500) ∷ ("c", 2500) ∷ [])
          one_user in
      (validate_user hashing digest config "ann@x.org" "secret" none none 4000 s').1 ≡ ok selected)
unfolding runs
validate_users-forgotten_example =
    validate_users-forgotten hashing digest config "ann@x.org" none none 1000 1000 "a"
      (("b", 1500) ∷ ("c", 2500) ∷ []) one_user 4000 "secret" selected refl refl refl
      (wrong "a" refl, (wrong "b" refl, (wrong "c" refl, tt))) (omega arith) (omega arith) refl refl
      refl refl

-- Tokens that are their claims
abbrev jwt : Jwt Claims
jwt = record {
  sign = λ iat ttl c. expiring (iat + ttl) c;
  verify = λ t c. elim c.exp [ none ↦ some c | some e ↦ if ltb t e then some c else none ];
  decode = λ c. some c;
  access_ttl = 60;
}

abbrev jwt_laws : JwtLaws jwt
jwt_laws = record { verify-sign = λ iat ttl t c e. refl }

login-roleless_example :
    (claims : Claims) × (jwt.verify
        (seconds 50000)
        (login jwt 1000 9000 selected "a1" "f1" "r1" one_user).1.access_token
      ≡ some claims)
    × (claims.sub ≡ "u1")
    × (claims.role ≡ none)
login-roleless_example =
    login-roleless jwt jwt_laws 1000 hashing digest config "ann@x.org" "secret" none none 9000 50000
      one_user selected "a1" "f1" "r1" let_in (omega arith)

abbrev an_access_token : Claims
an_access_token = record {
  sub = "u1";
  email = none;
  role = none;
  jti = some "a1";
  family = none;
  exp = none;
}

logout-refused_example :
    (let (s1, pair) = login jwt 1000 9 selected "a1" "f1" "r1" one_user in
      let s2 = logout jwt 1000 (λ t. "h") 20 an_access_token (some pair.refresh_token) s1 in
      is_ok (refresh_tokens jwt 1000 30 pair.refresh_token "r2" "a2" "a3" s2).1 ≡ false)
logout-refused_example =
    logout-refused jwt 1000 jwt_laws (λ t. "h") 9 20 30 selected "a1" "f1" "r1" "r2" "a2" "a3"
      an_access_token one_user (ne_of_=== "u1" "" refl) (ne_of_=== "r1" "" refl)
      (ne_of_=== "f1" "" refl) (unfold refresh_claims in refl) (unfold read empty fresh has in refl)
      (omega arith) (omega arith)
