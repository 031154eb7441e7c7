-- ===== src/SessionInputs/Replay/Detection.antt =====
-- What the replay detection finds, and what it keeps.
use proof_stell_backend.Common.{
  ℕ, ◌+◌, ◌≤◌, ◌<◌, ◌≡◌, ◌≢◌, ◌∙◌, String, Option, none, some, List, [], ◌∷◌, ◌++◌, length, filter,
  count, length-filter, count-append, ===_iff, ===_refl, Option-cases, inl, inr, arith,
}
use proof_stell_backend.SessionInputs.Replay.{
  Submission, PayloadHash, calculate_payload_hash, same_hash, ReplayCache, Health, down, up,
  Healths, duplicate_payload, non_empty, store_payload, store_signature, store_rate, check_payload,
  check_signature, is_recent, check_rate, detect_for, detect_replay_attack,
}

check_payload-stores :
    (c : ReplayCache) (user : String) (h : PayloadHash) (now : ℕ)
    → (check_payload up c user h now).1 ≡ none
    → (check_payload up c user h now).0.payloads user h ≡ some now
unfolding check_payload store_payload same_hash
check_payload-stores c user h now e = ground (arith, ===_refl user, ===_refl h.duration)

check_signature-payloads :
    (hl : Health) (c : ReplayCache) (user : String) (o : Option String) (now : ℕ) (u : String)
    (h : PayloadHash)
    → (check_signature hl c user o now).0.payloads u h ≡ c.payloads u h
unfolding check_signature store_signature
check_signature-payloads hl c user o now u h = ground arith

check_rate-payloads :
    (hl : Health) (c : ReplayCache) (user : String) (now : ℕ) (u : String) (h : PayloadHash)
    → (check_rate hl c user now).0.payloads u h ≡ c.payloads u h
unfolding check_rate store_rate
check_rate-payloads hl c user now u h = ground arith

detect_for-stores :
    (hs : Healths) (c : ReplayCache) (s : Submission) (user : String) (now : ℕ)
    → hs.payload ≡ up
    → (detect_for hs c s user now).1 ≡ none
    → (detect_for hs c s user now).0.payloads user (calculate_payload_hash s) ≡ some now
unfolding detect_for
detect_for-stores hs c s user now u e =
    let h = calculate_payload_hash s in
    let c' = (check_payload hs.payload c user h now).0 in
    let c'' = (check_signature hs.signature c' user (non_empty s.signature) now).0 in
    ground (
      arith,
      u,
      check_payload-stores c user h now,
      check_signature-payloads hs.signature c' user (non_empty s.signature) now user h,
      check_rate-payloads hs.rate c'' user now user h,
    )

-- The same payload again, in whatever state the cache answers reads: it is reported with the time of
-- the first submission.
detect_for-duplicate :
    (hs : Healths) (c : ReplayCache) (s : Submission) (user : String) (before now : ℕ)
    → hs.payload ≢ down
    → 0 < before
    → c.payloads user (calculate_payload_hash s) ≡ some before
    → (detect_for hs c s user now).1 ≡ some (duplicate_payload before)
unfolding detect_for check_payload
detect_for-duplicate hs c s user before now ok pos h = ground arith

detect_replay_attack-detect_for :
    (hs : Healths) (c : ReplayCache) (s : Submission) (id user : String) (now : ℕ)
    → non_empty s.session_id ≡ some id
    → non_empty s.user_id ≡ some user
    → detect_replay_attack hs c s now ≡ detect_for hs c s user now
unfolding detect_replay_attack
detect_replay_attack-detect_for hs c s id user now e e' =
    rw (e, detect_replay_attack) (rw (e', detect_replay_attack))

-- A submission that the detection let through while the cache worked is reported when a submission
-- with the same duration, number of inputs, first and last timestamp comes from the same user, as
-- long as the entry is cached; the report names the time of the first one.
pub detect_replay_attack-duplicate :
    (hs hs' : Healths) (c : ReplayCache) (s s' : Submission) (id id' user : String) (now now' : ℕ)
    → hs.payload ≡ up
    → hs'.payload ≢ down
    → 0 < now
    → non_empty s.session_id ≡ some id
    → non_empty s'.session_id ≡ some id'
    → non_empty s.user_id ≡ some user
    → non_empty s'.user_id ≡ some user
    → calculate_payload_hash s ≡ calculate_payload_hash s'
    → (detect_replay_attack hs c s now).1 ≡ none
    → (detect_replay_attack hs' (detect_replay_attack hs c s now).0 s' now').1
      ≡ some (duplicate_payload now)
detect_replay_attack-duplicate hs hs' c s s' id id' user now now' works reads pos e1 e2 e3 e4 same
      fine =
    let first = detect_replay_attack-detect_for hs c s id user now e1 e3 in
    let second =
      detect_replay_attack-detect_for hs' (detect_for hs c s user now).0 s' id' user now' e2 e4 in
    let fine' : (detect_for hs c s user now).1 ≡ none = rw (← first) fine in
    rw (first, second)
      (detect_for-duplicate hs' (detect_for hs c s user now).0 s' user now now' reads pos
        (rw (← same) (detect_for-stores hs c s user now works fine')))

-- With a cache that fails in all three checks nothing is suspicious and nothing is written.
pub detect_replay_attack-down :
    (hs : Healths) (c : ReplayCache) (s : Submission) (now : ℕ)
    → hs.payload ≡ down
    → hs.signature ≡ down
    → hs.rate ≡ down
    → detect_replay_attack hs c s now ≡ (c, none)
unfolding detect_replay_attack detect_for check_payload check_signature check_rate
detect_replay_attack-down hs c s now p q r = ground arith

-- Every user has at most eleven recent submission times in the cache.
abbrev pub IsRateBounded : ReplayCache → Type 0
IsRateBounded c = (u : String) → length (c.rates u) ≤ 11

length-kept :
    (now : ℕ) (times : List ℕ)
    → length (filter (is_recent now) (times ++ now ∷ []))
      ≡ length (filter (is_recent now) times) + 1
length-kept now times = ground (
  arith,
  length-filter (is_recent now) (times ++ now ∷ []),
  length-filter (is_recent now) times,
  count-append (is_recent now) times (now ∷ []),
)

check_rate-IsRateBounded :
    (hl : Health) (c : ReplayCache) (user : String) (now : ℕ)
    → IsRateBounded c
    → IsRateBounded (check_rate hl c user now).0
unfolding check_rate store_rate
check_rate-IsRateBounded hl c user now h u =
    ground (arith, h u, length-kept now (c.rates user), ===_iff u user)

check_signature-rates :
    (hl : Health) (c : ReplayCache) (user : String) (o : Option String) (now : ℕ) (u : String)
    → (check_signature hl c user o now).0.rates u ≡ c.rates u
unfolding check_signature store_signature
check_signature-rates hl c user o now u = ground arith

check_payload-rates :
    (hl : Health) (c : ReplayCache) (user : String) (p : PayloadHash) (now : ℕ) (u : String)
    → (check_payload hl c user p now).0.rates u ≡ c.rates u
unfolding check_payload store_payload
check_payload-rates hl c user p now u = ground arith

detect_for-IsRateBounded :
    (hs : Healths) (c : ReplayCache) (s : Submission) (user : String) (now : ℕ)
    → IsRateBounded c
    → IsRateBounded (detect_for hs c s user now).0
unfolding detect_for
detect_for-IsRateBounded hs c s user now h u =
    let p = calculate_payload_hash s in
    let c' = (check_payload hs.payload c user p now).0 in
    let c'' = (check_signature hs.signature c' user (non_empty s.signature) now).0 in
    let kept = λ (v : String).
      check_signature-rates hs.signature c' user (non_empty s.signature) now v
      ∙ check_payload-rates hs.payload c user p now v in
    let bounded : IsRateBounded c'' = λ v. rw (kept v) (h v) in
    ground (
      arith,
      h u,
      check_payload-rates hs.payload c user p now u,
      check_signature-rates hs.signature c' user (non_empty s.signature) now u,
      check_rate-IsRateBounded hs.rate c'' user now bounded u,
    )

detect_replay_attack-IsRateBounded :
    (hs : Healths) (c : ReplayCache) (s : Submission) (now : ℕ)
    → IsRateBounded c
    → IsRateBounded (detect_replay_attack hs c s now).0
unfolding detect_replay_attack
detect_replay_attack-IsRateBounded hs c s now h u = elim (Option-cases (non_empty s.session_id)) [
  | inl e ↦ ground (arith, h u)
  | inr (id, e) ↦ elim (Option-cases (non_empty s.user_id)) [
    | inl e' ↦ ground (arith, h u)
    | inr (user, e') ↦ ground (arith, detect_for-IsRateBounded hs c s user now h u)
  ]
]

check_rate-pass :
    (hl : Health) (c : ReplayCache) (user : String) (now : ℕ)
    → hl ≢ down
    → (check_rate hl c user now).1 ≡ none
    → count (is_recent now) (c.rates user) ≤ 10
unfolding check_rate
check_rate-pass hl c user now ok e = ground (arith, length-filter (is_recent now) (c.rates user))

-- A submission of a known user that the detection lets through, with the rates readable, is at most
-- the eleventh of that user within a minute that the cache knows of.
pub detect_replay_attack-rate :
    (hs : Healths) (c : ReplayCache) (s : Submission) (id user : String) (now : ℕ)
    → hs.rate ≢ down
    → non_empty s.session_id ≡ some id
    → non_empty s.user_id ≡ some user
    → (detect_replay_attack hs c s now).1 ≡ none
    → count (is_recent now) (c.rates user) ≤ 10
unfolding detect_for
detect_replay_attack-rate hs c s id user now ok e e' fine =
    let p = calculate_payload_hash s in
    let c' = (check_payload hs.payload c user p now).0 in
    let c'' = (check_signature hs.signature c' user (non_empty s.signature) now).0 in
    ground (
      arith,
      detect_replay_attack-detect_for hs c s id user now e e',
      check_payload-rates hs.payload c user p now user,
      check_signature-rates hs.signature c' user (non_empty s.signature) now user,
      check_rate-pass hs.rate c'' user now ok,
    )

-- Detections in a row, each at its own time and with its own failures of the cache.
pub detect_all : ReplayCache → List (Healths × Submission × ℕ) → ReplayCache
detect_all c [] = c
detect_all c ((hs, s, now) ∷ rest) = detect_all (detect_replay_attack hs c s now).0 rest

-- However many submissions come, from whatever users and at whatever times, the cache never holds
-- more than eleven submission times of one user.
pub detect_all-IsRateBounded :
    (c : ReplayCache) (events : List (Healths × Submission × ℕ))
    → IsRateBounded c
    → IsRateBounded (detect_all c events)
unfolding detect_all
detect_all-IsRateBounded c [] h = h
detect_all-IsRateBounded c ((hs, s, now) ∷ rest) h =
    detect_all-IsRateBounded (detect_replay_attack hs c s now).0 rest
      (detect_replay_attack-IsRateBounded hs c s now h)
