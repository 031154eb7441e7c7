-- ===== src/Tokens/Families.antt =====
-- Refresh token families: who can rotate, and what reuse does.
use proof_stell_backend.Common.{
  ℕ, ◌+◌, ◌≤◌, ◌⊎◌, none, String, ◌≡◌, refl, sym, ◌∙◌, ◌↔◌, true, false, some, ===_iff, ===_refl,
  arith, Option-cases, inl, inr,
}
use proof_stell_backend.TokenTable.{read, read-write, read-later}
use proof_stell_backend.Tokens.{
  Claims, Jwt, seconds, invalid_refresh_token, FamilyMetadata, TokenCache, AuthResult, ok,
  unauthorized, truthy, revoke_refresh_token_by_id, store_refresh_family, revoke_refresh_family,
  Rotation, issue, rotate_in_family, rotate_refresh_token,
}

-- From the time `now` on, no token of the family is current: its entry is gone, or marked as reused.
abbrev pub IsDead : TokenCache → String → ℕ → Type 0
IsDead c f now =
    (t : ℕ) (m : FamilyMetadata) → now ≤ t → read c.families f t ≡ some m → m.reused ≡ true

module _ (ttl now : ℕ) (c : TokenCache) where
  store_refresh_family-reused :
      (k f : String) (m : FamilyMetadata)
      → m.reused ≡ true
      → IsDead c f now
      → IsDead (store_refresh_family ttl now c k m) f now
  unfolding store_refresh_family
  store_refresh_family-reused k f m r d t x h e =
      ground (arith, read-write c.families k f m (now + ttl) t, d t x h)

  pub store_refresh_family-kills :
      (f : String) (m : FamilyMetadata)
      → m.reused ≡ true
      → IsDead (store_refresh_family ttl now c f m) f now
  unfolding store_refresh_family
  store_refresh_family-kills f m r t x h e =
      ground (arith, read-write c.families f f m (now + ttl) t, ===_refl f)

  pub revoke_refresh_family-IsDead :
      (k f : String) → IsDead c f now → IsDead (revoke_refresh_family ttl now c k) f now
  unfolding revoke_refresh_family revoke_refresh_token_by_id
  revoke_refresh_family-IsDead k f d t x h e = elim (Option-cases (read c.families k now)) [
    | inl gone ↦ ground (arith, d t x h)
    | inr (m, found) ↦
        ground (arith, store_refresh_family-reused k f (record m { reused = true }) refl d t x h)
  ]

  pub revoke_refresh_family-kills : (f : String) → IsDead (revoke_refresh_family ttl now c f) f now
  unfolding revoke_refresh_family revoke_refresh_token_by_id
  revoke_refresh_family-kills f t x h e = elim (Option-cases (read c.families f now)) [
    | inl gone ↦ ground (arith, read-later c.families f now t h gone)
    | inr (m, found) ↦
        ground (arith, store_refresh_family-kills f (record m { reused = true }) refl t x h)
  ]

-- A rotation was granted.
abbrev pub IsGranted : {T : Type 0} → AuthResult (Rotation T) → Type 0
IsGranted (ok r) = Unit
IsGranted (unauthorized e) = ⊥

module _ {T : Type 0} (j : Jwt T) (ttl now : ℕ) (c : TokenCache) where
  pub rotate_in_family-IsDead :
      (sub jti k new_jti access_jti f : String)
      → IsDead c f now
      → IsDead (rotate_in_family j ttl now c sub jti k new_jti access_jti).0 f now
  unfolding rotate_in_family issue revoke_refresh_token_by_id store_refresh_family
  rotate_in_family-IsDead sub jti k new_jti access_jti f d t x h e =
      elim (Option-cases (read c.families k now)) [
        | inl gone ↦ ground (arith, d t x h)
        | inr (m, found) ↦
            let marked = store_refresh_family ttl now c k (record m { reused = true }) in
            ground (
              arith,
              d t x h,
              d now m (omega arith),
              revoke_refresh_family-IsDead ttl now c k f d t x h,
              revoke_refresh_family-IsDead ttl now marked k f
                  (store_refresh_family-reused ttl now c k f (record m { reused = true }) refl d) t
                  x h,
              read-write c.families k f (record m { current_token_id = new_jti }) (now + ttl) t,
              ===_iff k f,
            )
      ]

  pub rotate_in_family-IsGranted_iff :
      (sub jti k new_jti access_jti : String)
      → IsGranted (rotate_in_family j ttl now c sub jti k new_jti access_jti).1 ↔ (
          (m : FamilyMetadata) × (read c.families k now ≡ some m)
          × (m.reused ≡ false)
          × (m.current_token_id ≡ jti))
  unfolding rotate_in_family issue
  rotate_in_family-IsGranted_iff sub jti k new_jti access_jti =
      elim (Option-cases (read c.families k now)) [
        | inl gone ↦ (λ g. ground arith, λ h. cc (h.1))
        | inr (m, found) ↦ (
          λ g. (m, found, ground arith, ground (arith, ===_iff m.current_token_id jti)),
          λ h.
              let same : some m ≡ some h.0 = sym found ∙ h.1 in
              ground (arith, same, h.2, h.3, ===_iff m.current_token_id jti),
        )
      ]

  -- A token that is not the current one of its family kills the family.
  rotate_in_family-kills :
      (sub jti k new_jti access_jti : String)
      → ¬ IsGranted (rotate_in_family j ttl now c sub jti k new_jti access_jti).1
      → IsDead (rotate_in_family j ttl now c sub jti k new_jti access_jti).0 k now
  unfolding rotate_in_family issue
  rotate_in_family-kills sub jti k new_jti access_jti refused t x h e =
      elim (Option-cases (read c.families k now)) [
        | inl gone ↦ ground (arith, read-later c.families k now t h gone)
        | inr (m, found) ↦
            let marked = store_refresh_family ttl now c k (record m { reused = true }) in
            ground (
              arith,
              refused,
              revoke_refresh_family-kills ttl now c k t x h,
              revoke_refresh_family-kills ttl now marked k t x h,
            )
      ]

-- Whenever the token verifies, it does so to the same claims, which name the family and the id.
abbrev pub IsTokenOf : {T : Type 0} → Jwt T → T → String → String → String → Type 0
IsTokenOf j token sub jti family =
    (claims : Claims) × ((t : ℕ) → (j.verify t token ≡ none) ⊎ (j.verify t token ≡ some claims))
    × (claims.sub ≡ sub)
    × (truthy claims.jti ≡ some jti)
    × (truthy claims.family ≡ some family)

-- The token verifies at a time, given in milliseconds, to claims that name the family and the id.
abbrev pub VerifiesAs : {T : Type 0} → Jwt T → ℕ → T → String → String → String → Type 0
VerifiesAs j now token sub jti family =
    (claims : Claims) × (j.verify (seconds now) token ≡ some claims)
    × (claims.sub ≡ sub)
    × (truthy claims.jti ≡ some jti)
    × (truthy claims.family ≡ some family)

module _ {T : Type 0} (j : Jwt T) (ttl now : ℕ) (c : TokenCache) (token : T)
    (sub jti family new_jti access_jti : String) where
  pub rotate_refresh_token-in_family :
      VerifiesAs j now token sub jti family
      → rotate_refresh_token j ttl now c token new_jti access_jti
        ≡ rotate_in_family j ttl now c sub jti family new_jti access_jti
  unfolding rotate_refresh_token
  rotate_refresh_token-in_family (claims, v, s, a, b) = ground (arith, v, s, a, b)

  -- A token either has expired, or verifies.
  pub rotate_refresh_token-cases :
      IsTokenOf j token sub jti family
      → (rotate_refresh_token j ttl now c token new_jti access_jti
          ≡ (c, unauthorized invalid_refresh_token))
        ⊎ VerifiesAs j now token sub jti family
  unfolding rotate_refresh_token
  rotate_refresh_token-cases (claims, at, s, a, b) = elim (at (seconds now)) [
    | inl gone ↦ inl (rw (gone, rotate_refresh_token) refl)
    | inr v ↦ inr (claims, v, s, a, b)
  ]

  -- A verified token with an id and a family is granted a rotation exactly if its family is cached, is
  -- not marked as reused and has this id as the current one.
  pub rotate_refresh_token-IsGranted_iff :
      VerifiesAs j now token sub jti family
      → IsGranted (rotate_refresh_token j ttl now c token new_jti access_jti).1 ↔ (
          (m : FamilyMetadata) × (read c.families family now ≡ some m)
          × (m.reused ≡ false)
          × (m.current_token_id ≡ jti))
  rotate_refresh_token-IsGranted_iff is =
      rw (rotate_refresh_token-in_family is)
        (rotate_in_family-IsGranted_iff j ttl now c sub jti family new_jti access_jti)

  -- A token that is granted a rotation verifies.
  pub IsGranted-VerifiesAs :
      IsTokenOf j token sub jti family
      → IsGranted (rotate_refresh_token j ttl now c token new_jti access_jti).1
      → VerifiesAs j now token sub jti family
  IsGranted-VerifiesAs is g = elim (rotate_refresh_token-cases is) [
    | inl refused ↦ absurd (rw refused at g)
    | inr v ↦ v
  ]

  -- A verified token that is refused kills its family.
  pub rotate_refresh_token-kills :
      VerifiesAs j now token sub jti family
      → ¬ IsGranted (rotate_refresh_token j ttl now c token new_jti access_jti).1
      → IsDead (rotate_refresh_token j ttl now c token new_jti access_jti).0 family now
  rotate_refresh_token-kills is =
      rw (rotate_refresh_token-in_family is)
        (rotate_in_family-kills j ttl now c sub jti family new_jti access_jti)
