-- ===== src/Tokens/Expiry.antt =====
-- Revoking all refresh tokens of a user, and the list of families that it works from.
use proof_stell_backend.Common.{
  ℕ, ◌+◌, ◌≤◌, ◌<◌, String, ◌≡◌, ◌≢◌, refl, ap, ◌∙◌, false, none, some, List, [], ◌∷◌, ◌++◌,
  ===_refl, if◌then◌else◌, arith, inl, inr, ltb, Elem,
}
use proof_stell_backend.Common.StringSet.{has}
use proof_stell_backend.TokenTable.{read, read-write}
use proof_stell_backend.Tokens.{
  Jwt, JwtLaws, seconds, FamilyMetadata, TokenCache, ok, revoke_refresh_token_by_id,
  store_refresh_family, refresh_claims, Rotation, issue, rotate_refresh_token, track_user_session,
  generate_refresh_token, revoke_each, revoke_refresh_family, revoke_all_user_refresh_tokens,
  or_empty, sign_access_token,
}
use proof_stell_backend.Tokens.Families.{
  IsDead, IsGranted, IsTokenOf, VerifiesAs, rotate_refresh_token-IsGranted_iff,
  revoke_refresh_family-IsDead, revoke_refresh_family-kills,
}
use proof_stell_backend.Tokens.Signed.{signed-IsTokenOf, signed-VerifiesAs}
use proof_stell_backend.Tokens.History.{issued, IsDead-refused, IsDead-later}

module _ (ttl now : ℕ) where
  revoke_each-IsDead :
      (c : TokenCache) (fs : List String) (f : String)
      → IsDead c f now
      → IsDead (revoke_each ttl now c fs) f now
  unfolding revoke_each
  revoke_each-IsDead c [] f d = d
  revoke_each-IsDead c (k ∷ fs) f d =
      revoke_each-IsDead (revoke_refresh_family ttl now c k) fs f
        (revoke_refresh_family-IsDead ttl now c k f d)

  revoke_each-kills :
      (c : TokenCache) (fs : List String) (f : String)
      → Elem f fs
      → IsDead (revoke_each ttl now c fs) f now
  unfolding revoke_each
  revoke_each-kills c [] f m = elim m [ ]
  revoke_each-kills c (k ∷ fs) f (inl e) =
      revoke_each-IsDead (revoke_refresh_family ttl now c k) fs f
        (rw e (revoke_refresh_family-kills ttl now c k))
  revoke_each-kills c (k ∷ fs) f (inr m) =
      revoke_each-kills (revoke_refresh_family ttl now c k) fs f m

  revoke_all_user_refresh_tokens-IsDead :
      (c : TokenCache) (user f : String)
      → Elem f (or_empty (read c.sessions user now))
      → IsDead (revoke_all_user_refresh_tokens ttl now c user) f now
  unfolding revoke_all_user_refresh_tokens
  revoke_all_user_refresh_tokens-IsDead c user f listed =
      revoke_each-kills c (or_empty (read c.sessions user now)) f listed

Elem-last : (xs : List String) (x : String) → Elem x (xs ++ x ∷ [])
Elem-last [] x = inl refl
Elem-last (y ∷ ys) x = inr (Elem-last ys x)

-- The list of the user's families after a login with a new family id.
sessions-generate :
    {T : Type 0} (j : Jwt T) (ttl now later : ℕ) (c : TokenCache) (user f jti : String)
    → has (or_empty (read c.sessions user now)) f ≡ false
    → read (generate_refresh_token j ttl now c user f jti).0.sessions user later ≡ (
        if ltb later (now + ttl)
        then some (or_empty (read c.sessions user now) ++ f ∷ [])
        else none)
unfolding generate_refresh_token track_user_session store_refresh_family
sessions-generate j ttl now later c user f jti new = ground (
  arith,
  new,
  read-write c.sessions user user (or_empty (read c.sessions user now) ++ f ∷ []) (now + ttl) later,
  ===_refl user,
)

-- A new family is listed for its user, as long as the list is kept.
pub generate-listed :
    {T : Type 0} (j : Jwt T) (ttl now later : ℕ) (c : TokenCache) (user f jti : String)
    → has (or_empty (read c.sessions user now)) f ≡ false
    → later < now + ttl
    → Elem f (or_empty (read (generate_refresh_token j ttl now c user f jti).0.sessions user later))
generate-listed j ttl now later c user f jti new early =
    let listed : read (generate_refresh_token j ttl now c user f jti).0.sessions user later
        ≡ some (or_empty (read c.sessions user now) ++ f ∷ []) =
      sessions-generate j ttl now later c user f jti new ∙ ground arith in
    rw listed (Elem-last (or_empty (read c.sessions user now)) f)

-- Once all refresh tokens of a user are revoked, a token of any family that was listed for the user is
-- refused, then and at every later time.
pub revoke_all_user_refresh_tokens-refused :
    {T : Type 0} (j : Jwt T) (ttl now later : ℕ) (c : TokenCache) (user f : String) (token : T)
    (sub jti n a : String)
    → Elem f (or_empty (read c.sessions user now))
    → IsTokenOf j token sub jti f
    → now ≤ later
    → ¬ IsGranted
        (rotate_refresh_token j ttl later
          (revoke_all_user_refresh_tokens ttl now c user)
          token
          n
          a).1
revoke_all_user_refresh_tokens-refused j ttl now later c user f token sub jti n a listed is le =
    let c' = revoke_all_user_refresh_tokens ttl now c user in
    IsDead-refused j (λ s. "") ttl ttl later c' token sub jti f n a
      (IsDead-later j (λ s. "") ttl ttl c' f now later le
        (revoke_all_user_refresh_tokens-IsDead ttl now c user f listed))
      is

-- A refresh token of a login whose family id was not listed before is refused at any time after all
-- of the user's tokens were revoked, if that was less than a TTL after the login.
pub generate_refresh_token-revoked :
    {T : Type 0} (j : Jwt T) (ttl login revocation later : ℕ) (c : TokenCache) (user f jti : String)
    (token : T) (sub jti' n a : String)
    → has (or_empty (read c.sessions user login)) f ≡ false
    → revocation < login + ttl
    → IsTokenOf j token sub jti' f
    → revocation ≤ later
    → ¬ IsGranted
        (rotate_refresh_token j ttl later
          (revoke_all_user_refresh_tokens ttl revocation
            (generate_refresh_token j ttl login c user f jti).0
            user)
          token
          n
          a).1
generate_refresh_token-revoked j ttl login revocation later c user f jti token sub jti' n a new
      early is le =
    let c' = (generate_refresh_token j ttl login c user f jti).0 in
    let listed : read c'.sessions user revocation
        ≡ some (or_empty (read c.sessions user login) ++ f ∷ []) =
      sessions-generate j ttl login revocation c user f jti new ∙ ground arith in
    revoke_all_user_refresh_tokens-refused j ttl revocation later c' user f token sub jti' n a
      (rw listed (Elem-last (or_empty (read c.sessions user login)) f)) is le

generated-family :
    {T : Type 0} (j : Jwt T) (ttl now later : ℕ) (c : TokenCache) (user f jti : String)
    → later < now + ttl
    → read (generate_refresh_token j ttl now c user f jti).0.families f later
      ≡ some (record { current_token_id = jti; reused = false; user_id = user; created_at = now })
unfolding generate_refresh_token track_user_session store_refresh_family
generated-family j ttl now later c user f jti early = ground (
  arith,
  read-write c.families f f
      (record { current_token_id = jti; reused = false; user_id = user; created_at = now })
      (now + ttl) later,
  ===_refl f,
)

-- The list of a user's families is not renewed by a rotation, the family is. So a login at t0, a
-- rotation at t1 and a revocation of all tokens at t2, at least a TTL after the login and less than
-- one after the rotation, leave a token that is granted the next rotation.
pub survives_revoke_all :
    {T : Type 0} (j : Jwt T) (L : JwtLaws j) (ttl t0 t1 t2 : ℕ) (c : TokenCache)
    (user f jti n a n' a' : String)
    → has (or_empty (read c.sessions user t0)) f ≡ false
    → t1 < t0 + ttl
    → t0 + ttl ≤ t2
    → t2 < t1 + ttl
    → f ≢ ""
    → jti ≢ ""
    → n ≢ ""
    → (r : Rotation T) × ((rotate_refresh_token j ttl t1
          (generate_refresh_token j ttl t0 c user f jti).0
          (generate_refresh_token j ttl t0 c user f jti).1
          n
          a).1
        ≡ ok r)
      × IsGranted
          (rotate_refresh_token j ttl t2
            (revoke_all_user_refresh_tokens ttl t2
              (rotate_refresh_token j ttl t1
                (generate_refresh_token j ttl t0 c user f jti).0
                (generate_refresh_token j ttl t0 c user f jti).1
                n
                a).0
              user)
            r.refresh_token
            n'
            a').1
survives_revoke_all j L ttl t0 t1 t2 c user f jti n a n' a' new e1 e2 e3 fe je ne =
    let c1 = (generate_refresh_token j ttl t0 c user f jti).0 in
    let token = (generate_refresh_token j ttl t0 c user f jti).1 in
    let is : IsTokenOf j token user jti f =
      unfold generate_refresh_token in signed-IsTokenOf j L ttl t0 user jti f je fe in
    let at_t1 : VerifiesAs j t1 token user jti f =
      unfold generate_refresh_token in
      signed-VerifiesAs j L ttl t0 t1 user jti f (omega arith) e1 je fe in
    let first : FamilyMetadata = record {
      current_token_id = jti;
      reused = false;
      user_id = user;
      created_at = t0;
    } in
    let granted : IsGranted (rotate_refresh_token j ttl t1 c1 token n a).1 =
      (rotate_refresh_token-IsGranted_iff j ttl t1 c1 token user jti f n a at_t1).1
        (first, generated-family j ttl t0 t1 c user f jti e1, refl, refl) in
    let (m, found, live, step) = issued j (λ s. "") ttl ttl t1 c1 token user jti f n a is granted in
    let c2 = (rotate_refresh_token j ttl t1 c1 token n a).0 in
    let moved : FamilyMetadata = record m { current_token_id = n } in
    let listed : read c2.sessions user t2 ≡ none =
      ap (λ r. read r.0.sessions user t2) step
      ∙ (unfold issue store_refresh_family revoke_refresh_token_by_id in
          sessions-generate j ttl t0 t2 c user f jti new ∙ ground arith) in
    let untouched : read (revoke_all_user_refresh_tokens ttl t2 c2 user).families f t2
        ≡ read c2.families f t2 =
      unfold revoke_all_user_refresh_tokens revoke_each in ground (arith, listed) in
    let kept : read (revoke_all_user_refresh_tokens ttl t2 c2 user).families f t2 ≡ some moved =
      untouched
      ∙ ap (λ r. read r.0.families f t2) step
      ∙ (unfold issue store_refresh_family revoke_refresh_token_by_id in
          ground (arith, read-write c1.families f f moved (t1 + ttl) t2, ===_refl f)) in
    (
      record {
        access_token = sign_access_token j t1 user "" (some "") a;
        refresh_token = j.sign (seconds t1) ttl (refresh_claims user n f);
        family = f;
      },
      ap (λ r. r.1) step ∙ (unfold issue in refl),
      (rotate_refresh_token-IsGranted_iff j ttl t2 (revoke_all_user_refresh_tokens ttl t2 c2 user)
            (j.sign (seconds t1) ttl (refresh_claims user n f)) user n f n' a'
            (signed-VerifiesAs j L ttl t1 t2 user n f (omega arith) e3 ne fe)).1
          (moved, kept, live, refl),
    )
