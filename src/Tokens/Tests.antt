-- ===== src/Tokens/Tests.antt =====
-- Histories of tokens, with a JWT library whose signed tokens are the claims themselves.
use proof_stell_backend.Common.{
  ◌+◌, ◌-◌, ltb, if◌then◌else◌, Bool-cases, inr, String, ◌≡◌, ◌↔◌, refl, false, none, some, List,
  [], ◌∷◌, arith, inl, ne_of_===,
}
use proof_stell_backend.TokenTable.{empty, read, write, fresh}
use proof_stell_backend.Common.StringSet.{has}
use proof_stell_backend.Tokens.{
  Claims, Jwt, JwtLaws, expiring, seconds, verify_access_token, revoke_access_token, remaining_ttl,
  unauthorized, access_token_revoked, FamilyMetadata, TokenCache, ok, Rotation, refresh_claims,
  generate_refresh_token, rotate_refresh_token, rotate_in_family, issue,
  revoke_all_user_refresh_tokens, revoked_token_id, store_refresh_family, track_user_session,
  or_empty,
}
use proof_stell_backend.Tokens.Families.{
  IsGranted, IsTokenOf, VerifiesAs, rotate_refresh_token-IsGranted_iff,
}
use proof_stell_backend.Tokens.History.{
  Call, login, rotate, run, refused_forever, rotate-once, rotate-next,
}
use proof_stell_backend.Tokens.Access.{verify-revoke_access_token}
use proof_stell_backend.Tokens.Expiry.{revoke_all_user_refresh_tokens-refused, survives_revoke_all}

abbrev plain : Jwt Claims
plain = record {
  sign = λ iat ttl c. expiring (iat + ttl) c;
  verify = λ t c. elim c.exp [ none ↦ some c | some e ↦ if ltb t e then some c else none ];
  decode = λ c. some c;
  access_ttl = 50;
}

plain-laws : JwtLaws plain
plain-laws = record { verify-sign = λ iat ttl t c e. refl }

abbrev sha : Claims → String
sha c = "hash"

abbrev nothing : TokenCache
nothing = record {
  families = empty;
  revoked_refresh = empty;
  sessions = empty;
  revoked_access = empty;
}

abbrev first : Claims
first = expiring 100 (refresh_claims "ann" "t1" "fam")

first-IsTokenOf : IsTokenOf plain first "ann" "t1" "fam"
unfolding refresh_claims
first-IsTokenOf = (
  first,
  λ t. elim (Bool-cases (ltb t 100)) [
    | inl early ↦ inr (rw early refl)
    | inr late ↦ inl (rw late refl)
  ],
  refl,
  refl,
  refl,
)

first-VerifiesAs : VerifiesAs plain 20 first "ann" "t1" "fam"
unfolding refresh_claims
first-VerifiesAs = (first, refl, refl, refl, refl)

first-VerifiesAs_later : VerifiesAs plain 30 first "ann" "t1" "fam"
unfolding refresh_claims
first-VerifiesAs_later = (first, refl, refl, refl, refl)

abbrev logged_in : TokenCache
logged_in = (generate_refresh_token plain 100 10 nothing "ann" "fam" "t1").0

first-IsGranted : IsGranted (rotate_refresh_token plain 100 20 logged_in first "t2" "a2").1
unfolding generate_refresh_token rotate_refresh_token rotate_in_family issue refresh_claims
    store_refresh_family track_user_session has read write fresh empty
first-IsGranted = tt

rotate_refresh_token-IsGranted_iff_example :
    IsGranted (rotate_refresh_token plain 100 20 logged_in first "t2" "a2").1 ↔ (
      (m : FamilyMetadata) × (read logged_in.families "fam" 20 ≡ some m)
      × (m.reused ≡ false)
      × (m.current_token_id ≡ "t1"))
rotate_refresh_token-IsGranted_iff_example =
    rotate_refresh_token-IsGranted_iff plain 100 20 logged_in first "ann" "t1" "fam" "t2" "a2"
      first-VerifiesAs

abbrev rotated : TokenCache
rotated = (rotate_refresh_token plain 100 20 logged_in first "t2" "a2").0

second_use_refused : ¬ IsGranted (rotate_refresh_token plain 100 30 rotated first "t3" "a3").1
second_use_refused =
    rotate-once plain sha 100 50 20 30 logged_in first "ann" "t1" "fam" "t2" "a2" "t3" "a3"
      (omega arith) (ne_of_=== "t2" "t1" refl) first-IsTokenOf first-IsGranted

rotate-once_example : ¬ IsGranted (rotate_refresh_token plain 100 30 rotated first "t3" "a3").1
rotate-once_example =
    rotate-once plain sha 100 50 20 30 logged_in first "ann" "t1" "fam" "t2" "a2" "t3" "a3"
      (omega arith) (ne_of_=== "t2" "t1" refl) first-IsTokenOf first-IsGranted

rotate-next_example :
    (r : Rotation Claims) × ((rotate_refresh_token plain 100 20 logged_in first "t2" "a2").1 ≡ ok r)
    × IsGranted (rotate_refresh_token plain 100 90 rotated r.refresh_token "t3" "a3").1
rotate-next_example =
    rotate-next plain sha 100 50 plain-laws 20 90 logged_in first "ann" "t1" "fam" "t2" "a2" "t3"
      "a3" (omega arith) (omega arith) (λ e. cc) (λ e. cc) first-IsTokenOf first-IsGranted

second : Claims
second = expiring 100 (refresh_claims "ann" "t2" "fam")

second-IsTokenOf : IsTokenOf plain second "ann" "t2" "fam"
unfolding refresh_claims second
second-IsTokenOf = (
  second,
  λ t. elim (Bool-cases (ltb t 100)) [
    | inl early ↦ inr (rw early refl)
    | inr late ↦ inl (rw late refl)
  ],
  refl,
  refl,
  refl,
)

abbrev reused : TokenCache
reused = (rotate_refresh_token plain 100 30 rotated first "t3" "a3").0

abbrev calls : List (Call Claims)
calls = rotate 5 second "t4" "a4" ∷ login 5 "ann" "fam2" "t5" ∷ []

refused_forever_example :
    ¬ IsGranted
      (rotate_refresh_token plain 100
        (run plain sha 100 50 30 reused calls).1
        (run plain sha 100 50 30 reused calls).0
        second
        "t6"
        "a6").1
refused_forever_example =
    refused_forever plain sha 100 50 30 rotated first "ann" "t1" "fam" "t3" "a3" calls second "ann"
      "t2" "t6" "a6" first-VerifiesAs_later second_use_refused
      (tt, (ne_of_=== "fam2" "fam" refl, tt)) second-IsTokenOf

ann_listed : read logged_in.sessions "ann" 20 ≡ some ("fam" ∷ [])
unfolding generate_refresh_token store_refresh_family track_user_session has read write fresh empty
ann_listed = refl

revoke_all_user_refresh_tokens-refused_example :
    ¬ IsGranted
      (rotate_refresh_token plain 100 40
        (revoke_all_user_refresh_tokens 100 20 logged_in "ann")
        first
        "t2"
        "a2").1
revoke_all_user_refresh_tokens-refused_example =
    revoke_all_user_refresh_tokens-refused plain 100 20 40 logged_in "ann" "fam" first "ann" "t1"
      "t2" "a2" (rw ann_listed (inl refl)) first-IsTokenOf (omega arith)

new_family : has (or_empty (read nothing.sessions "ann" 10)) "fam" ≡ false
unfolding read empty fresh has
new_family = refl

abbrev login_token : Claims
login_token = (generate_refresh_token plain 100 10 nothing "ann" "fam" "t1").1

survives_revoke_all_example :
    (r : Rotation Claims) × ((rotate_refresh_token plain 100 60 logged_in login_token "t2" "a2").1
      ≡ ok r)
    × IsGranted
        (rotate_refresh_token plain 100 120
          (revoke_all_user_refresh_tokens 100 120
            (rotate_refresh_token plain 100 60 logged_in login_token "t2" "a2").0
            "ann")
          r.refresh_token
          "t3"
          "a3").1
survives_revoke_all_example =
    survives_revoke_all plain plain-laws 100 10 60 120 nothing "ann" "fam" "t1" "t2" "a2" "t3" "a3"
      new_family (omega arith) (omega arith) (omega arith) (λ e. cc) (λ e. cc) (λ e. cc)

-- A token that lives until the second 3600, and is revoked in the second 1000.
abbrev access : Claims
access = record {
  sub = "ann";
  email = some "ann@example.org";
  role = some "USER";
  jti = some "a1";
  family = none;
  exp = some 3600;
}

verify-revoke_access_token_example :
    verify_access_token plain sha 1002600
      (revoke_access_token plain sha 3600 1000000 nothing access)
      access
    ≡ (if ltb 1002600 (1000000 + (3600 - seconds 1000000))
        then unauthorized access_token_revoked
        else ok access)
verify-revoke_access_token_example =
    verify-revoke_access_token plain sha 3600 1000000 1002600 3600 nothing access access refl refl
      refl (omega arith)

accepted_again :
    verify_access_token plain sha 1002600
      (revoke_access_token plain sha 3600 1000000 nothing access)
      access
    ≡ ok access
unfolding verify_access_token revoke_access_token remaining_ttl revoked_token_id read write fresh
accepted_again = refl
