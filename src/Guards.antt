-- ===== src/Guards.antt =====
-- Who passes: common/guards/roles.guard.ts, admin.guard.ts, maintenance.guard.ts and auth.guard.ts,
-- auth/guards/auth.guard.ts, and the user that auth/strategies/jwt.strategy.ts puts on the request for
-- them. The denial that a guard sends to the audit log is part of its answer.
pub mod Privileges
pub mod AccessTokens
mod Tests
use Prim.Native.Char.{Char, code}
use proof_stell_backend.Common.{
  ℕ, String, Bool, true, false, Option, none, some, List, [], ◌∷◌, if◌then◌else◌, ◌==◌, ◌===◌, not,
  some_of,
}
use proof_stell_backend.Common.Result.{Result, ok, err}
use proof_stell_backend.TokenTable.{read}
use proof_stell_backend.Tokens.{
  seconds, Jwt, Claims, TokenCache, AuthResult, unauthorized, revoked_token_id,
}
use proof_stell_backend.Users.{User, ReadUser}
use proof_stell_backend.Users.Service.{find_one}

-- request.user
pub record RequestUser : Type 0 where
  pub id : Option String
  pub email : Option String
  pub role : Option String

-- The reasons that recordDenial writes
pub data Denial : Type 0 where
  no_auth insufficient_privilege : Denial

pub data GuardError : Type 0 where
  unauthenticated : GuardError
  forbidden : GuardError
  unavailable : String → GuardError
  token_missing token_invalid token_revoked : GuardError
  user_missing user_inactive : GuardError

-- A decision, and the denial that is recorded with the id of the user, if there is one
pub record Decision : Type 0 where
  pub answer : Result GuardError Bool
  pub denial : Option (Denial × String)

abbrev pub allowed : Decision
allowed = record { answer = ok true; denial = none }

-- user?.id ?? 'anonymous'
abbrev pub id_or_anonymous : Option RequestUser → String
id_or_anonymous none = "anonymous"
id_or_anonymous (some u) = elim u.id [ none ↦ "anonymous" | some id ↦ id ]

abbrev pub deny : GuardError → Denial → Option RequestUser → Decision
deny e reason user = record { answer = err e; denial = some (reason, id_or_anonymous user) }

-- !user.role is also true of an empty text
abbrev pub has_role : List String → Option String → Bool
has_role required none = false
has_role required (some role) = if role === "" then false else some_of (λ r. r === role) required

-- RolesGuard.canActivate, with the roles of the decorator, if there are any
unfoldable pub roles_guard : Option (List String) → Option RequestUser → Decision
roles_guard none user = allowed
roles_guard (some []) user = allowed
roles_guard (some (r ∷ rs)) none = deny unauthenticated no_auth none
roles_guard (some (r ∷ rs)) (some u) =
    if not (has_role (r ∷ rs) u.role)
    then deny forbidden insufficient_privilege (some u)
    else allowed

abbrev pub is_admin : Option String → Bool
is_admin none = false
is_admin (some role) = role === "admin"

-- AdminGuard.canActivate
unfoldable pub admin_guard : Option RequestUser → Decision
admin_guard none = deny unauthenticated no_auth none
admin_guard (some u) =
    if not (is_admin u.role) then deny forbidden insufficient_privilege (some u) else allowed

abbrev pub message_or_default : Option String → String
message_or_default none = "The platform is currently under maintenance. Please try again later."
message_or_default (some m) =
    if m === "" then "The platform is currently under maintenance. Please try again later." else m

-- MaintenanceGuard.canActivate: whether the route is public, and the setting
unfoldable pub maintenance_guard : Bool → Bool → Option String → Option RequestUser → Decision
maintenance_guard is_public enabled message user =
    if is_public
    then allowed
    else if not enabled
    then allowed
    else if elim user [ none ↦ false | some u ↦ is_admin u.role ]
    then allowed
    else record { answer = err (unavailable (message_or_default message)); denial = none }

-- The text up to the next space, and what follows that space
unfoldable pub next_part : String → String × Option String
next_part String.[] = (String.[], none)
next_part (String.◌∷◌ c s) =
    let (part, rest) = next_part s in
    if code c == 32 then (String.[], some s) else (String.◌∷◌ c part, rest)

-- private extractTokenFromHeader: the second part of the header, if the first is 'Bearer'
unfoldable pub extract_token_from_header : Option String → Option String
extract_token_from_header none = none
extract_token_from_header (some header) =
    let (type, rest) = next_part header in
    if type === "Bearer" then elim rest [ none ↦ none | some s ↦ some (next_part s).0 ] else none

abbrev pub present : Option String → Option String
present none = none
present (some t) = if t === "" then none else some t

module _ (j : Jwt String) where
  -- AuthGuard.canActivate of common/guards: the claims that become request.user
  unfoldable pub plain_auth_guard : ℕ → Option String → Result GuardError Claims
  plain_auth_guard now header = elim (present (extract_token_from_header header)) [
    | none ↦ err token_missing
    | some token ↦ elim (j.verify (seconds now) token) [ none ↦ err token_invalid | some c ↦ ok c ]
  ]

  -- AuthGuard.canActivate of auth/guards, which also looks up revoked tokens
  unfoldable pub auth_guard :
      (String → String) → ℕ → TokenCache → Option String → Result GuardError Claims
  auth_guard sha256 now cache header = elim (present (extract_token_from_header header)) [
    | none ↦ err token_missing
    | some token ↦ elim (j.verify (seconds now) token) [
      | none ↦ err token_invalid
      | some c ↦ elim (read cache.revoked_access (revoked_token_id sha256 (some c) token) now) [
        | some true ↦ err token_revoked
        | some false ↦ ok c
        | none ↦ ok c
      ]
    ]
  ]

-- JwtStrategy.validate, on a payload whose token is active: the user as the service reads it
unfoldable pub validate_payload : List User → Claims → Result GuardError RequestUser
validate_payload users payload = elim (find_one payload.sub users) [
  | err _ ↦ err user_missing
  | ok u ↦
      if not u.is_active
      then err user_inactive
      else ok (record { id = some u.id; email = some u.email; role = u.role })
]
