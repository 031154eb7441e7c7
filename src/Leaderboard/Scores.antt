-- ===== src/Leaderboard/Scores.antt =====
-- What a submission to leaderboard/Leaderboard.service.ts does to the scores.
use mathlib.Core.Path.{subst}
use proof_stell_backend.Common.{
  ℕ, ◌+◌, ◌≤◌, ◌≡◌, refl, ap, sym, ◌∙◌, ◌⊎◌, String, Option, some, List, [], ◌∷◌, ◌++◌, leb, ◌===◌,
  map, arith, inl, inr, Option-cases, Bool-cases,
}
use proof_stell_backend.Common.Result.{ok, err, Result-cases}
use proof_stell_backend.Redis.{Redis}
use proof_stell_backend.Lock.{LockState}
use proof_stell_backend.Cache.Locking.Nested.{with_lock-cases}
use proof_stell_backend.Idempotency.{generate_key, check, store, check-store}
use proof_stell_backend.Leaderboard.{
  Entry, Board, no_lock, with_rank, recalculate_ranks_with_manager, find_entry, set_score,
  write_score, update_key, recalculate_key, lock_ttl, result_ttl, Submission, recalculate_locked,
  after_commit, submit_score_with_transaction, submit_locked, submit_score,
}

-- The user has an entry with at least that score.
abbrev pub HasAtLeast : String → ℕ → List Entry → Type 0
HasAtLeast user score rows = (e : Entry) × (find_entry user rows ≡ some e) × (score ≤ e.score)

find_entry-ranked :
    (all : List Entry) (user : String) (rows : List Entry) (score : ℕ)
    → HasAtLeast user score rows
    → HasAtLeast user score (map (with_rank all) rows)
unfolding find_entry
find_entry-ranked all user [] score (e, found, enough) = absurd (ground (arith, found))
find_entry-ranked all user (x ∷ rows) score (e, found, enough) =
    elim (Bool-cases (x.user_id === user)) [
      | inl same ↦
          let is : x ≡ e = ground (arith, found, same) in
          (with_rank all x, rw same refl, subst (λ (z : Entry). score ≤ z.score) (sym is) enough)
      | inr other ↦
          let (y, at, more) =
            find_entry-ranked all user rows score (e, ground (arith, found, other), enough) in
          (y, rw other at, more)
    ]

find_entry-append :
    (user : String) (rows more : List Entry) (score : ℕ)
    → HasAtLeast user score rows
    → HasAtLeast user score (rows ++ more)
unfolding find_entry
find_entry-append user [] more score (e, found, enough) = absurd (ground (arith, found))
find_entry-append user (x ∷ rows) more score (e, found, enough) =
    elim (Bool-cases (x.user_id === user)) [
      | inl same ↦ (e, rw same (ground (arith, found, same)), enough)
      | inr other ↦
          let (y, at, most) =
            find_entry-append user rows more score (e, ground (arith, found, other), enough) in
          (y, rw other at, most)
    ]

-- A raised score of one user lowers nobody's.
set_score-HasAtLeast :
    (user other : String) (score now least : ℕ) (rows : List Entry)
    → ((e : Entry) → find_entry user rows ≡ some e → e.score ≤ score)
    → HasAtLeast other least rows
    → HasAtLeast other least (set_score user score now rows)
unfolding find_entry set_score
set_score-HasAtLeast user other score now least [] higher (e, found, enough) =
    absurd (ground (arith, found))
set_score-HasAtLeast user other score now least (x ∷ rows) higher (e, found, enough) =
    elim (Bool-cases (x.user_id === user)) [
      | inl mine ↦ elim (Bool-cases (x.user_id === other)) [
        | inl same ↦
            let is : x ≡ e = ground (arith, found, same) in
            let low : x.score ≤ score = higher x (rw mine refl) in
            let enough' = subst (λ (z : Entry). least ≤ z.score) (sym is) enough in
            rw mine (
              record x { score = score; updated_at = now },
              rw same refl,
              omega (arith, low, enough'),
            )
        | inr different ↦ rw mine (e, rw different (ground (arith, found, different)), enough)
      ]
      | inr not_mine ↦ elim (Bool-cases (x.user_id === other)) [
        | inl same ↦ rw not_mine (e, rw same (ground (arith, found, same)), enough)
        | inr different ↦
            let (y, at, more) =
              set_score-HasAtLeast user other score now least rows (λ z h. higher z (rw not_mine h))
                (e, ground (arith, found, different), enough) in
            rw not_mine (y, rw different at, more)
      ]
    ]

write_score-HasAtLeast :
    (id : ℕ) (user other : String) (score now least : ℕ) (rows written : List Entry)
    → write_score id user score now rows ≡ ok written
    → HasAtLeast other least rows
    → HasAtLeast other least written
unfolding write_score
write_score-HasAtLeast id user other score now least rows written e h =
    elim (Option-cases (find_entry user rows)) [
      | inl free ↦
          let new : Entry = record {
            id = id;
            user_id = user;
            score = score;
            rank = 0;
            updated_at = now;
          } in
          let is : rows ++ new ∷ [] ≡ written = ground (arith, free, e) in
          subst (λ (l : List Entry). HasAtLeast other least l) is
            (find_entry-append other rows (new ∷ []) least h)
      | inr (x, found) ↦ elim (Bool-cases (leb score x.score)) [
        | inl low ↦ absurd (ground (arith, found, low, e))
        | inr high ↦
            let is : set_score user score now rows ≡ written = ground (arith, found, high, e) in
            subst (λ (l : List Entry). HasAtLeast other least l) is
              (set_score-HasAtLeast user other score now least rows
                (λ z at. ground (arith, at, found, high)) h)
      ]
    ]

module _ {R : Redis} (q : Submission R) where
  recalculate_locked-HasAtLeast :
      (rows : List Entry) (ls : LockState R) (user : String) (least : ℕ)
      → HasAtLeast user least rows
      → HasAtLeast user least (recalculate_locked q rows ls).1
  unfolding recalculate_locked recalculate_ranks_with_manager
  recalculate_locked-HasAtLeast rows ls user least h = elim (Bool-cases q.batch) [
    | inl batch ↦ rw batch h
    | inr now ↦
        rw now
          (elim (with_lock-cases R q.config q.rank_lock q.rank_link recalculate_key lock_ttl
            (λ l. (l, recalculate_ranks_with_manager rows)) ls) [
              | inl e ↦ rw e h
              | inr (mid, e) ↦ rw e (find_entry-ranked rows user rows least h)
            ])
  ]

  after_commit-HasAtLeast :
      (user other : String) (previous : Option Entry) (b : Board) (rows : List Entry) (least : ℕ)
      → HasAtLeast other least b.rows
      → HasAtLeast other least rows
      → HasAtLeast other least (after_commit q user previous b rows).0.rows
  unfolding after_commit
  after_commit-HasAtLeast user other previous b rows least old new =
      elim (Option-cases (find_entry user rows)) [
        | inl gone ↦ rw (gone, after_commit) old
        | inr (e, found) ↦
            rw (found, after_commit)
              (elim (Bool-cases q.posted) [ inl fine ↦ rw fine new | inr failed ↦ rw failed new ])
      ]

  submit_locked-HasAtLeast :
      (user other : String) (score least : ℕ) (b : Board) (ls : LockState R)
      → HasAtLeast other least b.rows
      → HasAtLeast other least (submit_locked q user score b ls).1.0.rows
  unfolding submit_locked submit_score_with_transaction
  submit_locked-HasAtLeast user other score least b ls h =
      elim (Option-cases (check q.now (generate_key "submit-score" user) b.results).1) [
        | inr (e, cached) ↦ rw (cached, submit_locked) h
        | inl new ↦
            rw (new, submit_locked)
              (elim (Result-cases (write_score q.new_id user score q.now b.rows)) [
                | inl (e, refused) ↦ rw (refused, submit_score_with_transaction) h
                | inr (rows, written) ↦
                    rw (written, submit_score_with_transaction)
                      (after_commit-HasAtLeast user other (find_entry user b.rows) _ _ least h (
                        recalculate_locked-HasAtLeast rows ls other least (
                          write_score-HasAtLeast q.new_id user other score q.now least b.rows rows
                            written h)))
              ])
      ]

  -- No submission lowers a score: whoever has an entry with at least some score has one with at least
  -- that score after any submission, whether it returns or throws, of that user or another.
  pub submit_score-HasAtLeast :
      (user other : String) (score least : ℕ) (b : Board) (ls : LockState R)
      → HasAtLeast other least b.rows
      → HasAtLeast other least (submit_score q user score b ls).1.0.rows
  unfolding submit_score
  submit_score-HasAtLeast user other score least b ls h =
      elim (with_lock-cases R q.config q.update_lock q.update_link (update_key user) lock_ttl
        (submit_locked q user score b) ls) [
          | inl e ↦ rw (e, submit_score) h
          | inr (mid, e) ↦
              rw (e, submit_score) (submit_locked-HasAtLeast user other score least b mid h)
        ]

  -- A score that was submitted under the lock is stored for its user for ten minutes.
  after_commit-stored :
      (user : String) (previous : Option Entry) (b b' : Board) (rows : List Entry) (e : Entry)
      → after_commit q user previous b rows ≡ (b', ok e)
      → b'.results ≡ store q.now result_ttl (generate_key "submit-score" user) e b.results
  unfolding after_commit
  after_commit-stored user previous b b' rows e h = elim (Option-cases (find_entry user rows)) [
    | inl gone ↦ absurd (ground (arith, gone, h))
    | inr (x, found) ↦ elim (Bool-cases q.posted) [
      | inl fine ↦ ground (arith, found, fine, h)
      | inr failed ↦ absurd (ground (arith, found, failed, h))
    ]
  ]

  submit_score_with_transaction-stored :
      (user : String) (score : ℕ) (b b' : Board) (ls : LockState R) (e : Entry)
      → (submit_score_with_transaction q user score b ls).1 ≡ (b', ok e)
      → b'.results ≡ store q.now result_ttl (generate_key "submit-score" user) e b.results
  unfolding submit_score_with_transaction
  submit_score_with_transaction-stored user score b b' ls e h =
      elim (Result-cases (write_score q.new_id user score q.now b.rows)) [
        | inl (x, refused) ↦ absurd (ground (arith, refused, h))
        | inr (rows, written) ↦
            let ranked = (recalculate_locked q rows ls).1 in
            let step : (submit_score_with_transaction q user score b ls).1
                ≡ after_commit q user (find_entry user b.rows) b ranked =
              rw (written, submit_score_with_transaction) refl in
            after_commit-stored user (find_entry user b.rows) b b' ranked e (sym step ∙ h)
      ]

  -- A stored result answers every submission of the user.
  submit_score-answered :
      (user : String) (score : ℕ) (b : Board) (ls : LockState R) (e : Entry)
      → check q.now (generate_key "submit-score" user) b.results ≡ (b.results, some e)
      → ((submit_score q user score b ls).1 ≡ (b, ok e))
        ⊎ ((submit_score q user score b ls).1 ≡ (b, err no_lock))
  unfolding submit_score
  submit_score-answered user score b ls e stored =
      elim (with_lock-cases R q.config q.update_lock q.update_link (update_key user) lock_ttl
        (submit_locked q user score b) ls) [
          | inl refused ↦ inr (rw (refused, submit_score) refl)
          | inr (mid, ran) ↦
              let same : submit_locked q user score b mid ≡ (mid, (b, ok e)) =
                unfold submit_locked in rw (stored, submit_locked) (rw stored refl) in
              inl (rw (ran, submit_score) (ap (λ r. r.1) same))
        ]

-- After the work of a submission has returned an entry, every submission of that user within ten
-- minutes, whatever its score, leaves the board as it is: it returns that first entry again, or fails
-- for the lock. So a higher score that is reached within that time is not recorded.
pub submit_score-deaf :
    {R : Redis} (q q' : Submission R) (user : String) (score score' : ℕ) (b b' : Board)
    (ls ls' : LockState R) (e : Entry)
    → (submit_score_with_transaction q user score b ls).1 ≡ (b', ok e)
    → q'.now ≤ q.now + 600000
    → ((submit_score q' user score' b' ls').1 ≡ (b', ok e))
      ⊎ ((submit_score q' user score' b' ls').1 ≡ (b', err no_lock))
submit_score-deaf q q' user score score' b b' ls ls' e returned soon =
    let key = generate_key "submit-score" user in
    let stored = submit_score_with_transaction-stored q user score b b' ls e returned in
    let found : check q'.now key b'.results ≡ (b'.results, some e) =
      rw stored (check-store q.now q'.now result_ttl key e b.results soon) in
    submit_score-answered q' user score' b' ls' e found
