-- ===== src/Tokens/Signed.antt =====
-- The tokens that auth/providers/auth-token.service.ts signs, when they verify and as what.
use proof_stell_backend.Common.{
  ℕ, ◌+◌, ◌<◌, ◌≤◌, String, ◌≡◌, ◌≢◌, refl, some, none, ===_of_ne, if◌then◌else◌, ltb, arith,
  Bool-cases, inl, inr, ◌∙◌,
}
use proof_stell_backend.Tokens.{Jwt, JwtLaws, expiring, seconds, refresh_claims}
use proof_stell_backend.Tokens.Families.{IsTokenOf, VerifiesAs}

module _ {T : Type 0} (j : Jwt T) (L : JwtLaws j) (ttl now : ℕ) where
  verify-refresh :
      (t : ℕ) (sub jti f : String)
      → j.verify t (j.sign (seconds now) ttl (refresh_claims sub jti f)) ≡ (
          if ltb t (seconds now + ttl)
          then some (expiring (seconds now + ttl) (refresh_claims sub jti f))
          else none)
  verify-refresh t sub jti f =
      L.verify-sign (seconds now) ttl t (refresh_claims sub jti f) (unfold refresh_claims in refl)

  -- A signed refresh token names its family and its id for as long as it verifies.
  pub signed-IsTokenOf :
      (sub jti f : String)
      → jti ≢ ""
      → f ≢ ""
      → IsTokenOf j (j.sign (seconds now) ttl (refresh_claims sub jti f)) sub jti f
  signed-IsTokenOf sub jti f ne fe = (
    expiring (seconds now + ttl) (refresh_claims sub jti f),
    λ t. elim (Bool-cases (ltb t (seconds now + ttl))) [
      | inl early ↦ inr (verify-refresh t sub jti f ∙ rw early refl)
      | inr late ↦ inl (verify-refresh t sub jti f ∙ rw late refl)
    ],
    unfold refresh_claims in refl,
    unfold refresh_claims in ground (arith, ===_of_ne jti "" ne),
    unfold refresh_claims in ground (arith, ===_of_ne f "" fe),
  )

  -- It verifies for longer than an entry of the cache lasts that is written with it.
  pub signed-VerifiesAs :
      (later : ℕ) (sub jti f : String)
      → now ≤ later
      → later < now + ttl
      → jti ≢ ""
      → f ≢ ""
      → VerifiesAs j later (j.sign (seconds now) ttl (refresh_claims sub jti f)) sub jti f
  signed-VerifiesAs later sub jti f le lt ne fe = (
    expiring (seconds now + ttl) (refresh_claims sub jti f),
    verify-refresh (seconds later) sub jti f ∙ ground arith,
    unfold refresh_claims in refl,
    unfold refresh_claims in ground (arith, ===_of_ne jti "" ne),
    unfold refresh_claims in ground (arith, ===_of_ne f "" fe),
  )
