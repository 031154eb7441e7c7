-- ===== src/Tokens/Access.antt =====
-- Access tokens: what revokeAccessToken keeps in the cache, and for how long.
use proof_stell_backend.Common.{
  ℕ, ◌+◌, ◌-◌, ◌<◌, String, ◌≡◌, ◌≢◌, true, some, none, ◌===◌, ===_refl, ===_of_ne, if◌then◌else◌,
  ltb, arith,
}
use proof_stell_backend.TokenTable.{read, read-write}
use proof_stell_backend.Tokens.{
  Claims, Jwt, TokenCache, ok, unauthorized, access_token_revoked, seconds, revoked_token_id,
  remaining_ttl, revoke_access_token, verify_access_token,
}

read-revoke_access_token :
    {T : Type 0} (j : Jwt T) (sha256 : T → String) (access_ttl now later e : ℕ) (c : TokenCache)
    (token : T) (claims : Claims) (id : String)
    → j.decode token ≡ some claims
    → claims.exp ≡ some e
    → seconds now < e
    → read (revoke_access_token j sha256 access_ttl now c token).revoked_access id later ≡ (
        if revoked_token_id sha256 (some claims) token === id
        then if ltb later (now + (e - seconds now)) then some true else none
        else read c.revoked_access id later)
unfolding revoke_access_token remaining_ttl
read-revoke_access_token j sha256 access_ttl now later e c token claims id d x lt = ground (
  arith,
  d,
  x,
  read-write c.revoked_access (revoked_token_id sha256 (some claims) token) id true
      (now + (e - seconds now)) later,
)

-- The rest of the life of a token, a number of seconds, is kept as if it were one of milliseconds: a
-- revoked token that has not expired is rejected for that many milliseconds, and is accepted again
-- from then on.
pub verify-revoke_access_token :
    {T : Type 0} (j : Jwt T) (sha256 : T → String) (access_ttl now later e : ℕ) (c : TokenCache)
    (token : T) (claims : Claims)
    → j.decode token ≡ some claims
    → j.verify (seconds later) token ≡ some claims
    → claims.exp ≡ some e
    → seconds now < e
    → verify_access_token j sha256 later (revoke_access_token j sha256 access_ttl now c token) token
      ≡ (if ltb later (now + (e - seconds now))
          then unauthorized access_token_revoked
          else ok claims)
unfolding verify_access_token
verify-revoke_access_token j sha256 access_ttl now later e c token claims d v x lt =
    let id = revoked_token_id sha256 (some claims) token in
    ground (
      arith,
      v,
      read-revoke_access_token j sha256 access_ttl now later e c token claims id d x lt,
      ===_refl id,
    )

-- A valid token with another id is verified as if nothing had been revoked.
pub verify-revoke_access_token_ne :
    {T : Type 0} (j : Jwt T) (sha256 : T → String) (access_ttl now later e : ℕ) (c : TokenCache)
    (token other : T) (claims others : Claims)
    → j.decode token ≡ some claims
    → claims.exp ≡ some e
    → seconds now < e
    → j.verify (seconds later) other ≡ some others
    → revoked_token_id sha256 (some claims) token ≢ revoked_token_id sha256 (some others) other
    → verify_access_token j sha256 later (revoke_access_token j sha256 access_ttl now c token) other
      ≡ verify_access_token j sha256 later c other
unfolding verify_access_token
verify-revoke_access_token_ne j sha256 access_ttl now later e c token other claims others d x lt v
      ne =
    let id = revoked_token_id sha256 (some claims) token in
    let id' = revoked_token_id sha256 (some others) other in
    ground (
      arith,
      v,
      read-revoke_access_token j sha256 access_ttl now later e c token claims id' d x lt,
      ===_of_ne id id' ne,
    )
