-- ===== src/Guards/Tests.antt =====
-- An administrator, and a bearer token.
use proof_stell_backend.Common.{◌≡◌, refl, String, true, false, none, some, [], ◌∷◌}
use proof_stell_backend.Common.Int.{pos}
use proof_stell_backend.Common.Result.{err}
use proof_stell_backend.TokenTable.{empty}
use proof_stell_backend.Tokens.{Jwt, Claims, TokenCache}
use proof_stell_backend.Users.{User, find_row, read_user}
use proof_stell_backend.Users.Service.{find_one, find_complete_user}
use proof_stell_backend.Guards.{
  RequestUser, forbidden, unavailable, roles_guard, admin_guard, maintenance_guard,
  message_or_default, validate_payload,
}
use proof_stell_backend.Guards.Privileges.{validate_payload-barred}

abbrev admin : User
admin = record {
  id = "u1";
  email = "ann@x.org";
  password = "secret";
  username = "ann";
  role = "admin";
  is_active = true;
  is_email_verified = true;
  email_verification_token = none;
  email_verification_expires = none;
  last_login = none;
  games_played = pos 0;
  total_score = pos 0;
  highest_score = pos 0;
  current_streak = pos 0;
  longest_streak = pos 0;
}

abbrev claims : Claims
claims = record {
  sub = "u1";
  email = none;
  role = none;
  jti = some "a1";
  family = none;
  exp = none;
}

abbrev on_request : RequestUser
on_request = record { id = some "u1"; email = some "ann@x.org"; role = none }

validate_payload-barred_example :
    ((admin_guard (some on_request)).answer ≡ err forbidden)
    × ((roles_guard (some ("admin" ∷ [])) (some on_request)).answer ≡ err forbidden)
    × ((maintenance_guard false true (some "Later") (some on_request)).answer
        ≡ err (unavailable (message_or_default (some "Later"))))
validate_payload-barred_example =
    validate_payload-barred (admin ∷ []) claims on_request "admin" [] (some "Later")
      (unfold validate_payload find_one find_complete_user find_row read_user in refl)

abbrev player : RequestUser
player = record { id = some "u2"; email = none; role = some "player" }

abbrev jwt : Jwt String
jwt = record {
  sign = λ iat ttl c. "t";
  verify = λ now t. some claims;
  decode = λ t. some claims;
  access_ttl = 60;
}

abbrev cache : TokenCache
cache = record {
  families = empty;
  revoked_refresh = empty;
  sessions = empty;
  revoked_access = empty;
}
