-- ===== src/Auth/Roles.antt =====
-- The claims of the access tokens that auth/providers/auth.service.ts issues: the queries behind them
-- select no role.
use proof_stell_backend.Common.{
  ℕ, ◌+◌, ◌<◌, ◌≡◌, refl, ◌∙◌, String, Option, none, some, List, arith, Option-cases, inl, inr,
}
use proof_stell_backend.Common.Result.{ok}
use proof_stell_backend.Tokens.{Claims, Jwt, JwtLaws, expiring, seconds, sign_access_token}
use proof_stell_backend.Users.{User, SelectedUser, find_row, has_email, select_user, find_by_email}
use proof_stell_backend.Users.Service.{Hashing}
use proof_stell_backend.Auth.{AuthState, AuthConfig, validate_user, normalize_email}
use proof_stell_backend.Auth.Tokens.{login}
use proof_stell_backend.Auth.Admission.{validate_user-ok_iff}

find_by_email-role :
    (email : String) (us : List User) (u : SelectedUser)
    → find_by_email email us ≡ some u
    → u.role ≡ none
unfolding find_by_email select_user
find_by_email-role email us u e = elim (Option-cases (find_row (has_email email) us)) [
  | inl missing ↦ ground (arith, missing, e)
  | inr (v, found) ↦ ground (arith, found, e)
]

-- The access token that a client gets which validateUser let in verifies until it expires, and then to
-- claims that name the user and no role, whatever role the user has.
pub login-roleless :
    {T : Type 0} (j : Jwt T) (laws : JwtLaws j) (refresh_ttl : ℕ) (h : Hashing)
    (digest : String → String) (config : AuthConfig) (email password : String)
    (ip user_agent : Option String) (now later : ℕ) (s : AuthState) (u : SelectedUser)
    (access_jti family jti : String)
    → (validate_user h digest config email password ip user_agent now s).1 ≡ ok u
    → seconds later < seconds now + j.access_ttl
    → (claims : Claims) × (j.verify
          (seconds later)
          (login j refresh_ttl now u access_jti family jti s).1.access_token
        ≡ some claims)
      × (claims.sub ≡ u.id)
      × (claims.role ≡ none)
unfolding login sign_access_token
login-roleless j laws refresh_ttl h digest config email password ip user_agent now later s u
      access_jti family jti let_in early =
    let (_, found, _, _, _) =
      (validate_user-ok_iff h digest config email password ip user_agent now s u).0 let_in in
    let signed : Claims = record {
      sub = u.id;
      email = some u.email;
      role = u.role;
      jti = some access_jti;
      family = none;
      exp = none;
    } in
    (
      expiring (seconds now + j.access_ttl) signed,
      laws.verify-sign (seconds now) j.access_ttl (seconds later) signed refl
          ∙ ground (arith, early),
      refl,
      find_by_email-role (normalize_email email) s.users u found,
    )
