-- ===== src/Auth/Sessions.antt =====
-- The sessions of auth/providers/auth.service.ts: what a logout ends, and what a refresh returns.
use proof_stell_backend.Common.{
  ℕ, ◌+◌, ◌≤◌, Option, none, ◌<◌, ◌≡◌, ◌≢◌, refl, String, false, some, ===_of_ne, arith,
  Option-cases, inl, inr, Elem,
}
use mathlib.Core.Option
use proof_stell_backend.Common.StringSet.{has}
use proof_stell_backend.Common.Result.{is_ok}
use proof_stell_backend.TokenTable.{read}
use proof_stell_backend.Tokens.{
  Claims, Jwt, JwtLaws, seconds, TokenCache, AuthResult, unauthorized, Rotation, or_empty,
  refresh_claims, generate_refresh_token, rotate_refresh_token, revoke_access_token,
}
use proof_stell_backend.Tokens.Families.{IsTokenOf, IsGranted}
use proof_stell_backend.Tokens.Expiry.{revoke_all_user_refresh_tokens-refused, generate-listed}
use proof_stell_backend.Tokens.Signed.{signed-IsTokenOf}
use proof_stell_backend.Users.{SelectedUser}
use proof_stell_backend.Auth.{AuthState}
use proof_stell_backend.Auth.Tokens.{login, logout, refresh_tokens, sign_again, subject}

module _ {T : Type 0} (j : Jwt T) (refresh_ttl : ℕ) where
  revoke_access_token-sessions :
      (sha256 : T → String) (ttl now : ℕ) (c : TokenCache) (token : T)
      → (revoke_access_token j sha256 ttl now c token).sessions ≡ c.sessions
  unfolding revoke_access_token
  revoke_access_token-sessions sha256 ttl now c token = ground arith

  sign_again-refused :
      (now : ℕ) (sub a : String) (s : AuthState) (r : TokenCache × AuthResult (Rotation T))
      → ¬ IsGranted r.1
      → is_ok (sign_again j refresh_ttl now sub a s r).1 ≡ false
  unfolding sign_again
  sign_again-refused now sub a s (tokens, unauthorized e) refused = refl
  sign_again-refused now sub a s (tokens, AuthResult.ok r) refused = absurd (refused tt)

  subject-decoded :
      (o : Option Claims) (user : String)
      → Option.map (λ (c : Claims). c.sub) o ≡ some user
      → user ≢ ""
      → subject j refresh_ttl o ≡ some user
  subject-decoded none user e ne = absurd (ground (arith, e))
  subject-decoded (some c) user e ne =
      let same : c.sub ≡ user = ground (arith, e) in ground (arith, same, ===_of_ne user "" ne)

  -- Without a rotation there is no refresh.
  refresh_tokens-refused :
      (now : ℕ) (token : T) (n i a : String) (s : AuthState)
      → ¬ IsGranted (rotate_refresh_token j refresh_ttl now s.tokens token n i).1
      → is_ok (refresh_tokens j refresh_ttl now token n i a s).1 ≡ false
  unfolding refresh_tokens
  refresh_tokens-refused now token n i a s refused =
      elim (Option-cases (subject j refresh_ttl (j.decode token))) [
        | inl missing ↦ rw (missing, refresh_tokens) refl
        | inr (sub, found) ↦
            rw (found, refresh_tokens)
              (sign_again-refused now sub a s
                (rotate_refresh_token j refresh_ttl now s.tokens token n i) refused)
      ]

  -- After a login, a logout with its refresh token, while the list of the user's families is kept, ends the session: the refresh token
  -- is refused at every later time. The ids of the login are not empty, the family id was not listed
  -- for the user before, and the token decodes to claims with the user that was signed.
  pub logout-refused :
      (laws : JwtLaws j) (sha256 : T → String) (t0 t1 t2 : ℕ) (u : SelectedUser)
      (access_jti family jti n i a : String) (access : T) (s : AuthState)
      → u.id ≢ ""
      → jti ≢ ""
      → family ≢ ""
      → Option.map
          (λ (c : Claims). c.sub)
          (j.decode (j.sign (seconds t0) refresh_ttl (refresh_claims u.id jti family)))
        ≡ some u.id
      → has (or_empty (read s.tokens.sessions u.id t0)) family ≡ false
      → t1 < t0 + refresh_ttl
      → t1 ≤ t2
      → (let (s1, pair) = login j refresh_ttl t0 u access_jti family jti s in
          let s2 = logout j refresh_ttl sha256 t1 access (some pair.refresh_token) s1 in
          is_ok (refresh_tokens j refresh_ttl t2 pair.refresh_token n i a s2).1 ≡ false)
  unfolding login logout
  logout-refused laws sha256 t0 t1 t2 u access_jti family jti n i a access s user id fam decoded new
        early le =
      let made = generate_refresh_token j refresh_ttl t0 s.tokens u.id family jti in
      let c = revoke_access_token j sha256 j.access_ttl t1 made.0 access in
      let named : subject j refresh_ttl (j.decode made.1) ≡ some u.id =
        unfold generate_refresh_token in subject-decoded _ u.id decoded user in
      let listed : Elem family (or_empty (read c.sessions u.id t1)) =
        rw (revoke_access_token-sessions sha256 j.access_ttl t1 made.0 access)
          (generate-listed j refresh_ttl t0 t1 s.tokens u.id family jti new early) in
      let signed : IsTokenOf j made.1 u.id jti family =
        unfold generate_refresh_token in
        signed-IsTokenOf j laws refresh_ttl t0 u.id jti family id fam in
      let refused =
        revoke_all_user_refresh_tokens-refused j refresh_ttl t1 t2 c u.id family made.1 u.id jti n i
          listed signed le in
      rw (named, logout) (refresh_tokens-refused t2 made.1 n i a _ refused)
