-- ===== src/Auth/Tokens.antt =====
-- login, refreshTokens, logout and forceExpireAllSessions of auth/providers/auth.service.ts, over the
-- token service. Times are in milliseconds, TTLs in seconds, and the random ids come from outside.
use proof_stell_backend.Common.{ℕ, String, Option, none, some, if◌then◌else◌, ◌===◌}
use proof_stell_backend.Common.Result.{Result, ok, err}
use proof_stell_backend.Tokens.{
  Jwt, Claims, TokenCache, AuthResult, unauthorized, Rotation, sign_access_token,
  generate_refresh_token, rotate_refresh_token, revoke_access_token, revoke_all_user_refresh_tokens,
}
use proof_stell_backend.Users.{SelectedUser}
use proof_stell_backend.Users.Service.{update_last_login, find_one}
use proof_stell_backend.Auth.{AuthState, LoginError, invalid_refresh, from_users, Method}

pub record TokenPair (T : Type 0) : Type 0 where
  pub access_token : T
  pub refresh_token : T

-- `refresh_ttl` is the configured lifetime of refresh tokens.
module _ {T : Type 0} (j : Jwt T) (refresh_ttl : ℕ) where
  -- async login(user), with the random ids of the access token, the family and the refresh token
  unfoldable pub login :
      ℕ → SelectedUser → String → String → String → AuthState → AuthState × TokenPair T
  login now user access_jti family jti s =
      let (tokens, refresh) =
        generate_refresh_token j refresh_ttl now s.tokens user.id family jti in
      (
        record s { users = update_last_login now user.id s.users; tokens = tokens },
        record {
          access_token = sign_access_token j now user.id user.email user.role access_jti;
          refresh_token = refresh;
        },
      )

  -- The user of the claims is read, and the access token is signed anew.
  unfoldable pub sign_again :
      ℕ
      → String
      → String
      → AuthState
      → TokenCache × AuthResult (Rotation T)
      → AuthState × Result LoginError (TokenPair T)
  sign_again now sub access_jti s (tokens, unauthorized e) =
      (record s { tokens = tokens }, err invalid_refresh)
  sign_again now sub access_jti s (tokens, AuthResult.ok r) = elim (find_one sub s.users) [
    | err e ↦ (record s { tokens = tokens }, err (from_users e))
    | ok user ↦ (
      record s { tokens = tokens },
      ok (record {
        access_token = sign_access_token j now user.id user.email user.role access_jti;
        refresh_token = r.refresh_token;
      }),
    )
  ]

  abbrev pub subject : Option Claims → Option String
  subject none = none
  subject (some c) = if c.sub === "" then none else some c.sub

  -- async refreshTokens(refreshToken); the decoded subject is not yet verified when it is read
  unfoldable pub refresh_tokens : ℕ → T → String → String → String → Method (TokenPair T)
  refresh_tokens now token new_jti inner_jti access_jti s = elim (subject (j.decode token)) [
    | none ↦ (s, err invalid_refresh)
    | some sub ↦
        sign_again now sub access_jti s
          (rotate_refresh_token j refresh_ttl now s.tokens token new_jti inner_jti)
  ]

  -- async logout(accessToken, refreshToken)
  unfoldable pub logout : (T → String) → ℕ → T → Option T → AuthState → AuthState
  logout sha256 now access refresh s =
      let tokens = revoke_access_token j sha256 j.access_ttl now s.tokens access in
      elim refresh [
        | none ↦ record s { tokens = tokens }
        | some token ↦ elim (subject (j.decode token)) [
          | none ↦ record s { tokens = tokens }
          | some sub ↦ record s {
            tokens = revoke_all_user_refresh_tokens refresh_ttl now tokens sub;
          }
        ]
      ]

  -- async forceExpireAllSessions(userId)
  unfoldable pub force_expire_all_sessions : ℕ → String → AuthState → AuthState
  force_expire_all_sessions now user s = record s {
    tokens = revoke_all_user_refresh_tokens refresh_ttl now s.tokens user;
  }
