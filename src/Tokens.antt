-- ===== src/Tokens.antt =====
-- auth/providers/auth-token.service.ts: access tokens, and refresh tokens in rotating families.
-- The four kinds of cache keys start with different words, so they are four tables. `now` is in
-- milliseconds. The TTLs are in seconds, and so are the times of the JWT library; the cache service
-- hands a TTL on as it is to a cache manager that takes milliseconds, so that an entry is read until
-- as many milliseconds have elapsed. Random ids come from outside.
pub mod Access
pub mod Families
pub mod Signed
pub mod History
pub mod Expiry
mod Tests
use proof_stell_backend.Common.{
  ℕ, ◌+◌, ◌-◌, ◌/◌, String, Bool, true, false, Option, none, some, List, [], ◌∷◌, ◌++◌, ltb, ◌===◌,
  ◌==◌, if◌then◌else◌, ◌≡◌,
}
use proof_stell_backend.Common.StringSet.{has}
use proof_stell_backend.TokenTable.{Table, read, write, remove}

-- AccessTokenClaims and RefreshTokenClaims, as one payload of optional parts
pub record Claims : Type 0 where
  pub sub : String
  pub email : Option String
  pub role : Option String
  pub jti : Option String
  pub family : Option String
  pub exp : Option ℕ

-- The claims with the time at which they expire, as the JWT library adds it to them
abbrev pub expiring : ℕ → Claims → Claims
expiring e c = record c { exp = some e }

-- The JWT library with the configured secret, issuer, audience and lifetime of access tokens; T is the
-- type of the signed strings that it makes and reads. `sign iat expires_in c` is called at the time
-- iat, `verify t` at the time t, both in seconds.
pub record Jwt (T : Type 0) : Type 0 where
  pub sign : ℕ → ℕ → Claims → T
  pub verify : ℕ → T → Option Claims
  pub decode : T → Option Claims
  pub access_ttl : ℕ

-- What is relied on: a token that the service has signed verifies to what was signed, with its time of
-- expiry, before that time, and not from then on.
pub record JwtLaws {T : Type 0} (j : Jwt T) : Type 0 where
  pub verify-sign :
      (iat expires_in t : ℕ) (c : Claims)
      → c.exp ≡ none
      → j.verify t (j.sign iat expires_in c)
        ≡ (if ltb t (iat + expires_in) then some (expiring (iat + expires_in) c) else none)

-- Math.floor(Date.now() / 1000)
abbrev pub seconds : ℕ → ℕ
seconds now = now / 1000

-- interface RefreshFamilyMetadata
pub record FamilyMetadata : Type 0 where
  pub current_token_id : String
  pub reused : Bool
  pub user_id : String
  pub created_at : ℕ

-- The entries under auth:refresh:family:, auth:refresh:revoked:, auth:user:sessions: and
-- auth:jwt:revoked:
pub record TokenCache : Type 0 where
  pub families : Table FamilyMetadata
  pub revoked_refresh : Table Bool
  pub sessions : Table (List String)
  pub revoked_access : Table Bool

pub data AuthError : Type 0 where
  invalid_refresh_token malformed_refresh_token unknown_family family_revoked token_reused :
      AuthError
  invalid_access_token access_token_revoked : AuthError

pub data AuthResult {ℓ} (A : Type ℓ) : Type ℓ where
  ok : A → AuthResult A
  unauthorized : AuthError → AuthResult A

abbrev pub truthy : Option String → Option String
truthy none = none
truthy (some s) = if s === "" then none else some s

-- private revokeRefreshTokenById
unfoldable pub revoke_refresh_token_by_id : ℕ → ℕ → TokenCache → String → TokenCache
revoke_refresh_token_by_id ttl now c jti = record c {
  revoked_refresh = write c.revoked_refresh jti true (now + ttl);
}

-- private storeRefreshFamily
unfoldable pub store_refresh_family : ℕ → ℕ → TokenCache → String → FamilyMetadata → TokenCache
store_refresh_family ttl now c family meta = record c {
  families = write c.families family meta (now + ttl);
}

-- private revokeRefreshFamily
unfoldable pub revoke_refresh_family : ℕ → ℕ → TokenCache → String → TokenCache
revoke_refresh_family ttl now c family = elim (read c.families family now) [
  | none ↦ c
  | some meta ↦
      let c' = store_refresh_family ttl now c family (record meta { reused = true }) in
      if meta.current_token_id === ""
      then c'
      else revoke_refresh_token_by_id ttl now c' meta.current_token_id
]

abbrev pub or_empty : Option (List String) → List String
or_empty none = []
or_empty (some l) = l

-- private trackUserSession
unfoldable pub track_user_session : ℕ → ℕ → TokenCache → String → String → TokenCache
track_user_session ttl now c user family =
    let families = or_empty (read c.sessions user now) in
    if has families family
    then c
    else record c { sessions = write c.sessions user (families ++ family ∷ []) (now + ttl) }

unfoldable pub refresh_claims : String → String → String → Claims
refresh_claims sub jti family = record {
  sub = sub;
  email = none;
  role = none;
  jti = some jti;
  family = some family;
  exp = none;
}

-- async generateRefreshToken(user), with the two random ids
unfoldable pub generate_refresh_token :
    {T : Type 0} → Jwt T → ℕ → ℕ → TokenCache → String → String → String → TokenCache × T
generate_refresh_token j ttl now c user family jti =
    let meta : FamilyMetadata = record {
      current_token_id = jti;
      reused = false;
      user_id = user;
      created_at = now;
    } in
    (
      track_user_session ttl now (store_refresh_family ttl now c family meta) user family,
      j.sign (seconds now) ttl (refresh_claims user jti family),
    )

pub record Rotation (T : Type 0) : Type 0 where
  pub access_token : T
  pub refresh_token : T
  pub family : String

-- signAccessToken(user), with the random id; a role that is undefined is not printed
unfoldable pub sign_access_token :
    {T : Type 0} → Jwt T → ℕ → String → String → Option String → String → T
sign_access_token j now id email role jti = j.sign (seconds now) j.access_ttl (record {
  sub = id;
  email = some email;
  role = role;
  jti = some jti;
  family = none;
  exp = none;
})

-- The part of rotateRefreshToken after the checks: issue, revoke the old id, move the family on.
unfoldable pub issue :
    {T : Type 0}
    → Jwt T
    → ℕ
    → ℕ
    → TokenCache
    → String
    → String
    → String
    → FamilyMetadata
    → String
    → String
    → TokenCache × AuthResult (Rotation T)
issue j ttl now c sub jti family meta new_jti access_jti =
    let c' = revoke_refresh_token_by_id ttl now c jti in
    (
      store_refresh_family ttl now c' family (record meta { current_token_id = new_jti }),
      ok (record {
        access_token = sign_access_token j now sub "" (some "") access_jti;
        refresh_token = j.sign (seconds now) ttl (refresh_claims sub new_jti family);
        family = family;
      }),
    )

-- rotateRefreshToken on a token with an id and a family
unfoldable pub rotate_in_family :
    {T : Type 0}
    → Jwt T
    → ℕ
    → ℕ
    → TokenCache
    → String
    → String
    → String
    → String
    → String
    → TokenCache × AuthResult (Rotation T)
rotate_in_family j ttl now c sub jti family new_jti access_jti = elim (read c.families family now) [
  | none ↦ (c, unauthorized unknown_family)
  | some meta ↦
      if meta.reused
      then (revoke_refresh_family ttl now c family, unauthorized family_revoked)
      else if meta.current_token_id === jti
      then issue j ttl now c sub jti family meta new_jti access_jti
      else (
        revoke_refresh_family ttl now
            (store_refresh_family ttl now c family (record meta { reused = true })) family,
        unauthorized token_reused,
      )
]

-- async rotateRefreshToken(refreshToken), with the random ids of the two new tokens
unfoldable pub rotate_refresh_token :
    {T : Type 0}
    → Jwt T
    → ℕ
    → ℕ
    → TokenCache
    → T
    → String
    → String
    → TokenCache × AuthResult (Rotation T)
rotate_refresh_token j ttl now c token new_jti access_jti = elim (j.verify (seconds now) token) [
  | none ↦ (c, unauthorized invalid_refresh_token)
  | some claims ↦ elim (truthy claims.jti) [
    | none ↦ (c, unauthorized malformed_refresh_token)
    | some jti ↦ elim (truthy claims.family) [
      | none ↦ (c, unauthorized malformed_refresh_token)
      | some family ↦ rotate_in_family j ttl now c claims.sub jti family new_jti access_jti
    ]
  ]
]

-- for (const family of families) await this.revokeRefreshFamily(family, userId)
pub revoke_each : ℕ → ℕ → TokenCache → List String → TokenCache
revoke_each ttl now c [] = c
revoke_each ttl now c (f ∷ fs) = revoke_each ttl now (revoke_refresh_family ttl now c f) fs

-- async revokeAllUserRefreshTokens(userId)
pub revoke_all_user_refresh_tokens : ℕ → ℕ → TokenCache → String → TokenCache
revoke_all_user_refresh_tokens ttl now c user =
    let c' = revoke_each ttl now c (or_empty (read c.sessions user now)) in
    record c' { sessions = remove c'.sessions user }

-- private buildRevokedTokenKey, without its prefix: the id of the token, or the hash of its text
unfoldable pub revoked_token_id : {T : Type 0} → (T → String) → Option Claims → T → String
revoked_token_id sha256 none token = sha256 token
revoked_token_id sha256 (some claims) token = elim (truthy claims.jti) [
  | some jti ↦ jti
  | none ↦ sha256 token
]

-- private getRemainingTtlSeconds
unfoldable pub remaining_ttl : ℕ → ℕ → Option Claims → ℕ
remaining_ttl access_ttl now none = access_ttl
remaining_ttl access_ttl now (some claims) = elim claims.exp [
  | none ↦ access_ttl
  | some e ↦ if e == 0 then access_ttl else e - seconds now
]

-- async revokeAccessToken(token)
unfoldable pub revoke_access_token :
    {T : Type 0} → Jwt T → (T → String) → ℕ → ℕ → TokenCache → T → TokenCache
revoke_access_token j sha256 access_ttl now c token =
    let ttl = remaining_ttl access_ttl now (j.decode token) in
    if ltb 0 ttl
    then record c {
      revoked_access =
          write c.revoked_access (revoked_token_id sha256 (j.decode token) token) true (now + ttl);
    }
    else c

-- async verifyAccessToken(token), with assertAccessTokenIsActive
unfoldable pub verify_access_token :
    {T : Type 0} → Jwt T → (T → String) → ℕ → TokenCache → T → AuthResult Claims
verify_access_token j sha256 now c token = elim (j.verify (seconds now) token) [
  | none ↦ unauthorized invalid_access_token
  | some claims ↦ elim (read c.revoked_access (revoked_token_id sha256 (some claims) token) now) [
    | some true ↦ unauthorized access_token_revoked
    | some false ↦ ok claims
    | none ↦ ok claims
  ]
]
