-- ===== src/SessionReports/Verification.antt =====
-- The first step of reportSession in game-session/game-session.service.ts: which reports it takes, and
-- that it takes each session once.
use mathlib.Core.Path.{subst}
use proof_stell_backend.Common.{
  ℕ, ◌≡◌, ◌↔◌, refl, sym, ◌∙◌, Bool, true, false, none, some, List, [], ◌∷◌, ◌===◌, ===_iff, ◌&&◌,
  arith, Option-cases, Bool-cases, inl, inr,
}
use proof_stell_backend.Redis.{Redis}
use proof_stell_backend.SessionReports.{Session, calculate_session_hash, find_session, save_session}
use proof_stell_backend.SessionReports.Steps.{
  Report, Context, already_reported, reported, verify_and_save,
}

-- The session that a report names, of the user who reports
abbrev pub is_reported : {R : Redis} → Report R → Session → Bool
is_reported q s = s.id === q.dto.session_id && s.user_id === q.user_id

module _ {R : Redis} (q : Report R) where
  -- The first step takes a report exactly when the named session is stored for the user, was not
  -- reported before, and the signature is the keyed hash of its nonce and the reported numbers.
  pub verify_and_save-taken_iff :
      (c : Context R)
      → ((verify_and_save q c).1 ≡ none) ↔ (
          (s : Session) × (find_session (is_reported q) c.db.sessions ≡ some s)
          × (s.nonce_used_at ≡ none)
          × (calculate_session_hash q.hmac s.nonce q.dto ≡ q.dto.signature))
  unfolding verify_and_save
  verify_and_save-taken_iff c = elim (Option-cases (find_session (is_reported q) c.db.sessions)) [
    | inl missing ↦
        (λ e. absurd (ground (arith, missing, e)), λ h. absurd (ground (arith, missing, h.1)))
    | inr (s, found) ↦ elim (Option-cases s.nonce_used_at) [
      | inr (t, used) ↦ (
        λ e. absurd (ground (arith, found, used, e)),
        λ h. absurd (ground (arith, found, used, h.1, h.2)),
      )
      | inl unused ↦ (
        λ e. (
          s,
          found,
          unused,
          (===_iff (calculate_session_hash q.hmac s.nonce q.dto) q.dto.signature).0
              (ground (arith, found, unused, e)),
        ),
        λ h.
            let same : h.0 ≡ s = ground (arith, found, h.1) in
            let signed =
              subst (λ (z : Session). calculate_session_hash q.hmac z.nonce q.dto ≡ q.dto.signature)
                same h.3 in
            let equal =
              (===_iff (calculate_session_hash q.hmac s.nonce q.dto) q.dto.signature).1 signed in
            ground (arith, found, unused, equal),
      )
    ]
  ]

  reported-same :
      (s : Session)
      → ((reported q s).id ≡ s.id)
        × ((reported q s).user_id ≡ s.user_id)
        × ((reported q s).nonce_used_at ≡ some q.now)
  unfolding reported
  reported-same s = elim (Bool-cases q.is_suspicious) [
    | inl e ↦ rw e (refl, refl, refl)
    | inr e ↦ rw e (refl, refl, refl)
  ]

-- The first session with a property that its rewriting keeps, after it is saved
find_session-save :
    (p : Session → Bool) (s t : Session) (rows : List Session)
    → find_session p rows ≡ some s
    → (t.id ≡ s.id)
    → p t ≡ true
    → ((x : Session) → p x ≡ true → x.id ≡ s.id)
    → find_session p (save_session t rows) ≡ some t
unfolding find_session save_session
find_session-save p s t [] found same fits unique = absurd (ground (arith, found))
find_session-save p s t (x ∷ rows) found same fits unique = elim (Bool-cases (x.id === t.id)) [
  | inl here ↦ rw here (rw fits refl)
  | inr other ↦
      let no_match : p x ≡ false = elim (Bool-cases (p x)) [
        | inr e ↦ e
        | inl e ↦
            let equal : x.id ≡ t.id = unique x e ∙ sym same in
            absurd (ground (arith, (===_iff x.id t.id).1 equal, other))
      ] in
      rw other (
        rw no_match
          (find_session-save p s t rows (ground (arith, found, no_match)) same fits unique))
]

find_session_sound :
    (p : Session → Bool) (rows : List Session) (s : Session)
    → find_session p rows ≡ some s
    → p s ≡ true
unfolding find_session
find_session_sound p [] s e = ground (arith, e)
find_session_sound p (x ∷ rows) s e = ground (arith, e, find_session_sound p rows s)

names_one :
    {R : Redis} (q : Report R) (s x : Session)
    → is_reported q s ≡ true
    → is_reported q x ≡ true
    → x.id ≡ s.id
names_one q s x a b =
    ground (arith, a, b, ===_iff s.id q.dto.session_id, ===_iff x.id q.dto.session_id)

-- What the first step leaves when it takes a report
taken-sessions :
    {R : Redis} (q : Report R) (c : Context R) (s : Session)
    → find_session (is_reported q) c.db.sessions ≡ some s
    → s.nonce_used_at ≡ none
    → calculate_session_hash q.hmac s.nonce q.dto ≡ q.dto.signature
    → (verify_and_save q c).0.db.sessions ≡ save_session (reported q s) c.db.sessions
unfolding verify_and_save
taken-sessions q c s found unused signed =
    let equal = (===_iff (calculate_session_hash q.hmac s.nonce q.dto) q.dto.signature).1 signed in
    ground (arith, found, unused, equal)

used-refused :
    {R : Redis} (q : Report R) (c : Context R) (s : Session) (t : ℕ)
    → find_session (is_reported q) c.db.sessions ≡ some s
    → s.nonce_used_at ≡ some t
    → (verify_and_save q c).1 ≡ some already_reported
unfolding verify_and_save
used-refused q c s t found used = rw (found, verify_and_save) (rw used refl)

-- A report that the first step has taken is taken only once: the same session reported again, by any
-- report of the same user and session, is refused as already reported.
pub verify_and_save-once :
    {R : Redis} (q q' : Report R) (c : Context R)
    → (verify_and_save q c).1 ≡ none
    → q'.user_id ≡ q.user_id
    → q'.dto.session_id ≡ q.dto.session_id
    → (verify_and_save q' (verify_and_save q c).0).1 ≡ some already_reported
verify_and_save-once q q' c taken user session =
    let (s, found, unused, signed) = (verify_and_save-taken_iff q c).0 taken in
    let (same_id, same_user, used) = reported-same q s in
    let fits : is_reported q s ≡ true = find_session_sound (is_reported q) c.db.sessions s found in
    let still : is_reported q (reported q s) ≡ true = rw (same_id, same_user) fits in
    let unique = λ (x : Session) (e : is_reported q x ≡ true). names_one q s x fits e in
    let there : find_session (is_reported q) (save_session (reported q s) c.db.sessions)
        ≡ some (reported q s) =
      find_session-save (is_reported q) s (reported q s) c.db.sessions found same_id still unique in
    let same_test : is_reported q' ≡ is_reported q =
      λ i x. (x.id === session i) && (x.user_id === user i) in
    let again : find_session (is_reported q') (verify_and_save q c).0.db.sessions
        ≡ some (reported q s) =
      rw (same_test, taken-sessions q c s found unused signed) there in
    used-refused q' (verify_and_save q c).0 (reported q s) q.now again used
