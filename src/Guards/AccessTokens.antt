-- ===== src/Guards/AccessTokens.antt =====
-- auth/guards/auth.guard.ts against the check of auth/providers/auth-token.service.ts.
use proof_stell_backend.Common.{ℕ, ◌≡◌, ◌↔◌, String, Option, some, arith, Option-cases, inl, inr}
use proof_stell_backend.Common.Result.{ok}
use proof_stell_backend.Tokens.{Jwt, Claims, TokenCache, AuthResult, verify_access_token}
use proof_stell_backend.Guards.{present, extract_token_from_header, auth_guard}

-- The guard lets a request through as some claims exactly when its header has a bearer token that is
-- not empty, and the token service verifies that token to those claims.
pub auth_guard-ok_iff :
    (j : Jwt String) (sha256 : String → String) (now : ℕ) (cache : TokenCache)
    (header : Option String) (c : Claims)
    → (auth_guard j sha256 now cache header ≡ ok c) ↔ (
        (token : String) × (present (extract_token_from_header header) ≡ some token)
        × (verify_access_token j sha256 now cache token ≡ AuthResult.ok c))
unfolding auth_guard verify_access_token
auth_guard-ok_iff j sha256 now cache header c =
    elim (Option-cases (present (extract_token_from_header header))) [
      | inl missing ↦
          (λ e. absurd (ground (arith, missing, e)), λ h. absurd (ground (arith, missing, h.1)))
      | inr (token, there) ↦
          (λ e. (token, there, ground (arith, there, e)), λ h. ground (arith, there, h.1, h.2))
    ]
