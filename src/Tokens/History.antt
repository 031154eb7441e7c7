-- ===== src/Tokens/History.antt =====
-- Refresh tokens over whole histories of calls, each call no earlier than the one before it.
use proof_stell_backend.Common.{
  ℕ, ◌+◌, ◌≤◌, ◌<◌, String, ◌≡◌, ◌≢◌, refl, ap, ◌∙◌, false, none, some, List, [], ◌∷◌, ===_iff,
  ===_refl, ===_of_ne, All, if◌then◌else◌, arith, Option-cases, inl, inr, ltb,
}
use proof_stell_backend.TokenTable.{read, read-write}
use proof_stell_backend.Tokens.{
  Jwt, JwtLaws, seconds, FamilyMetadata, TokenCache, ok, truthy, revoke_refresh_token_by_id,
  store_refresh_family, refresh_claims, Rotation, issue, rotate_in_family, rotate_refresh_token,
  track_user_session, generate_refresh_token, revoke_each, revoke_refresh_family,
  revoke_all_user_refresh_tokens, revoke_access_token, or_empty, sign_access_token,
}
use proof_stell_backend.Tokens.Signed.{signed-VerifiesAs}
use proof_stell_backend.Tokens.Families.{
  IsDead, IsGranted, IsTokenOf, VerifiesAs, rotate_in_family-IsDead, rotate_refresh_token-in_family,
  IsGranted-VerifiesAs, rotate_refresh_token-IsGranted_iff, rotate_refresh_token-kills,
  revoke_refresh_family-IsDead,
}

-- A call of the service, with the time since the call before it.
pub data Call (T : Type 0) : Type 0 where
  login : ℕ → String → String → String → Call T
  rotate : ℕ → T → String → String → Call T
  logout_all : ℕ → String → Call T
  revoke_access : ℕ → T → Call T

abbrev pub delay : {T : Type 0} → Call T → ℕ
delay (login d user family jti) = d
delay (rotate d token new_jti access_jti) = d
delay (logout_all d user) = d
delay (revoke_access d token) = d

-- The call is no login that draws the random id `f` for its family.
abbrev pub NotDrawnBy : {T : Type 0} → String → Call T → Type 0
NotDrawnBy f (login d user family jti) = family ≢ f
NotDrawnBy f (rotate d token new_jti access_jti) = Unit
NotDrawnBy f (logout_all d user) = Unit
NotDrawnBy f (revoke_access d token) = Unit

module _ {T : Type 0} (j : Jwt T) (sha256 : T → String) (ttl access_ttl : ℕ) where
  -- The cache after a call at the time `now`.
  pub after : ℕ → TokenCache → Call T → TokenCache
  after now c (login d user family jti) = (generate_refresh_token j ttl now c user family jti).0
  after now c (rotate d token new_jti access_jti) =
      (rotate_refresh_token j ttl now c token new_jti access_jti).0
  after now c (logout_all d user) = revoke_all_user_refresh_tokens ttl now c user
  after now c (revoke_access d token) = revoke_access_token j sha256 access_ttl now c token

  pub run : ℕ → TokenCache → List (Call T) → TokenCache × ℕ
  run now c [] = (c, now)
  run now c (call ∷ calls) = run (now + delay call) (after (now + delay call) c call) calls

  track_user_session-families :
      (now : ℕ) (c : TokenCache) (user family f : String) (t : ℕ)
      → read (track_user_session ttl now c user family).families f t ≡ read c.families f t
  unfolding track_user_session
  track_user_session-families now c user family f t = ground arith

  generate-IsDead :
      (now : ℕ) (c : TokenCache) (user family jti f : String)
      → family ≢ f
      → IsDead c f now
      → IsDead (generate_refresh_token j ttl now c user family jti).0 f now
  unfolding generate_refresh_token store_refresh_family
  generate-IsDead now c user family jti f ne d t x h e =
      let meta : FamilyMetadata = record {
        current_token_id = jti;
        reused = false;
        user_id = user;
        created_at = now;
      } in
      let stored = store_refresh_family ttl now c family meta in
      ground (
        arith,
        d t x h,
        track_user_session-families now stored user family f t,
        read-write c.families family f meta (now + ttl) t,
        ===_of_ne family f ne,
      )

  rotate-IsDead :
      (now : ℕ) (c : TokenCache) (token : T) (new_jti access_jti f : String)
      → IsDead c f now
      → IsDead (rotate_refresh_token j ttl now c token new_jti access_jti).0 f now
  unfolding rotate_refresh_token
  rotate-IsDead now c token new_jti access_jti f d t x h e =
      elim (Option-cases (j.verify (seconds now) token)) [
        | inl bad ↦ ground (arith, d t x h)
        | inr (claims, v) ↦ elim (Option-cases (truthy claims.jti)) [
          | inl bad ↦ ground (arith, d t x h)
          | inr (jti, a) ↦ elim (Option-cases (truthy claims.family)) [
            | inl bad ↦ ground (arith, d t x h)
            | inr (k, b) ↦ ground (
              arith,
              rotate_in_family-IsDead j ttl now c claims.sub jti k new_jti access_jti f d t x h,
            )
          ]
        ]
      ]

  revoke_each-IsDead :
      (now : ℕ) (c : TokenCache) (fs : List String) (f : String)
      → IsDead c f now
      → IsDead (revoke_each ttl now c fs) f now
  unfolding revoke_each
  revoke_each-IsDead now c [] f d = d
  revoke_each-IsDead now c (k ∷ fs) f d =
      revoke_each-IsDead now (revoke_refresh_family ttl now c k) fs f
        (revoke_refresh_family-IsDead ttl now c k f d)

  after-IsDead :
      (now : ℕ) (c : TokenCache) (call : Call T) (f : String)
      → NotDrawnBy f call
      → IsDead c f now
      → IsDead (after now c call) f now
  unfolding after revoke_all_user_refresh_tokens revoke_access_token
  after-IsDead now c (login d user family jti) f ne dead =
      generate-IsDead now c user family jti f ne dead
  after-IsDead now c (rotate d token new_jti access_jti) f ne dead =
      rotate-IsDead now c token new_jti access_jti f dead
  after-IsDead now c (logout_all d user) f ne dead =
      revoke_each-IsDead now c (or_empty (read c.sessions user now)) f dead
  after-IsDead now c (revoke_access d token) f ne dead = λ t x h e. ground (arith, dead t x h)

  pub IsDead-later :
      (c : TokenCache) (f : String) (now later : ℕ)
      → now ≤ later
      → IsDead c f now
      → IsDead c f later
  IsDead-later c f now later le d t x h e = d t x (omega arith) e

  run-IsDead :
      (now : ℕ) (c : TokenCache) (calls : List (Call T)) (f : String)
      → All (NotDrawnBy f) calls
      → IsDead c f now
      → IsDead (run now c calls).0 f (run now c calls).1
  unfolding run
  run-IsDead now c [] f _ d = d
  run-IsDead now c (call ∷ calls) f (ne, nes) d =
      run-IsDead (now + delay call) (after (now + delay call) c call) calls f nes (
        after-IsDead (now + delay call) c call f ne
          (IsDead-later c f now (now + delay call) (omega arith) d))

  pub IsDead-refused :
      (now : ℕ) (c : TokenCache) (token : T) (sub jti f new_jti access_jti : String)
      → IsDead c f now
      → IsTokenOf j token sub jti f
      → ¬ IsGranted (rotate_refresh_token j ttl now c token new_jti access_jti).1
  IsDead-refused now c token sub jti f new_jti access_jti d is g =
      let v = IsGranted-VerifiesAs j ttl now c token sub jti f new_jti access_jti is g in
      let (m, found, live, _) =
        (rotate_refresh_token-IsGranted_iff j ttl now c token sub jti f new_jti access_jti v).0 g in
      cc (d now m (omega arith) found)

  -- Once a token of a family that has not expired has been refused, no token of that family is ever
  -- granted a rotation again, whatever calls come in between, unless a login draws the same random
  -- family id.
  pub refused_forever :
      (now : ℕ) (c : TokenCache) (token : T) (sub jti f n a : String) (calls : List (Call T))
      (token' : T) (sub' jti' n' a' : String)
      → VerifiesAs j now token sub jti f
      → ¬ IsGranted (rotate_refresh_token j ttl now c token n a).1
      → All (NotDrawnBy f) calls
      → IsTokenOf j token' sub' jti' f
      → ¬ IsGranted
          (rotate_refresh_token j ttl
            (run now (rotate_refresh_token j ttl now c token n a).0 calls).1
            (run now (rotate_refresh_token j ttl now c token n a).0 calls).0
            token'
            n'
            a').1
  refused_forever now c token sub jti f n a calls token' sub' jti' n' a' is refused nes is' =
      IsDead-refused _ _ token' sub' jti' f n' a'
        (run-IsDead now (rotate_refresh_token j ttl now c token n a).0 calls f nes
          (rotate_refresh_token-kills j ttl now c token sub jti f n a is refused))
        is'

  pub issued :
      (now : ℕ) (c : TokenCache) (token : T) (sub jti f n a : String)
      → IsTokenOf j token sub jti f
      → IsGranted (rotate_refresh_token j ttl now c token n a).1
      → (m : FamilyMetadata) × (read c.families f now ≡ some m)
        × (m.reused ≡ false)
        × ((rotate_refresh_token j ttl now c token n a) ≡ issue j ttl now c sub jti f m n a)
  issued now c token sub jti f n a is g =
      let v = IsGranted-VerifiesAs j ttl now c token sub jti f n a is g in
      let (m, found, live, current) =
        (rotate_refresh_token-IsGranted_iff j ttl now c token sub jti f n a v).0 g in
      (
        m,
        found,
        live,
        rotate_refresh_token-in_family j ttl now c token sub jti f n a v
            ∙ (unfold rotate_in_family in
                ground (arith, found, live, current, ===_iff m.current_token_id jti)),
      )

  -- A token is good for one rotation: presented again at any later time it is refused, if the new
  -- random id differs from the old one.
  pub rotate-once :
      (now later : ℕ) (c : TokenCache) (token : T) (sub jti f n a n' a' : String)
      → now ≤ later
      → n ≢ jti
      → IsTokenOf j token sub jti f
      → IsGranted (rotate_refresh_token j ttl now c token n a).1
      → ¬ IsGranted
          (rotate_refresh_token j ttl later
            (rotate_refresh_token j ttl now c token n a).0
            token
            n'
            a').1
  rotate-once now later c token sub jti f n a n' a' le ne is g g' =
      let (m, found, live, step) = issued now c token sub jti f n a is g in
      let c' = (rotate_refresh_token j ttl now c token n a).0 in
      let v' = IsGranted-VerifiesAs j ttl later c' token sub jti f n' a' is g' in
      let (m', found', live', current) =
        (rotate_refresh_token-IsGranted_iff j ttl later c' token sub jti f n' a' v').0 g' in
      let moved : FamilyMetadata = record m { current_token_id = n } in
      let same : read (rotate_refresh_token j ttl now c token n a).0.families f later
          ≡ (if ltb later (now + ttl) then some moved else none) =
        ap (λ r. read r.0.families f later) step
        ∙ (unfold issue store_refresh_family revoke_refresh_token_by_id in
            ground (arith, read-write c.families f f moved (now + ttl) later, ===_refl f)) in
      ground (arith, same, found', current, ne)

  -- The token that a rotation returns is good for the next one at any later time at which the entry of
  -- the family, which was written with it, has not run out; the token itself has not expired by then.
  -- The random ids are not empty.
  pub rotate-next :
      (L : JwtLaws j) (now later : ℕ) (c : TokenCache) (token : T) (sub jti f n a n' a' : String)
      → now ≤ later
      → later < now + ttl
      → n ≢ ""
      → f ≢ ""
      → IsTokenOf j token sub jti f
      → IsGranted (rotate_refresh_token j ttl now c token n a).1
      → (r : Rotation T) × ((rotate_refresh_token j ttl now c token n a).1 ≡ ok r)
        × IsGranted
            (rotate_refresh_token j ttl later
              (rotate_refresh_token j ttl now c token n a).0
              r.refresh_token
              n'
              a').1
  rotate-next L now later c token sub jti f n a n' a' le lt ne fe is g =
      let (m, found, live, step) = issued now c token sub jti f n a is g in
      let moved : FamilyMetadata = record m { current_token_id = n } in
      let next = j.sign (seconds now) ttl (refresh_claims sub n f) in
      let v : VerifiesAs j later next sub n f =
        signed-VerifiesAs j L ttl now later sub n f le lt ne fe in
      let same : read (rotate_refresh_token j ttl now c token n a).0.families f later ≡ some moved =
        ap (λ r. read r.0.families f later) step
        ∙ (unfold issue store_refresh_family revoke_refresh_token_by_id in
            ground (arith, read-write c.families f f moved (now + ttl) later, ===_refl f)) in
      let r : Rotation T = record {
        access_token = sign_access_token j now sub "" (some "") a;
        refresh_token = next;
        family = f;
      } in
      (
        r,
        ap (λ r. r.1) step ∙ (unfold issue in refl),
        (rotate_refresh_token-IsGranted_iff j ttl later _ next sub n f n' a' v).1
            (moved, same, live, refl),
      )
