-- ===== src/Users/Rows.antt =====
-- Queries and writes on the rows of the users.
use proof_stell_backend.Common.{
  String, Bool, true, false, ◌≡◌, refl, ap, ◌∙◌, Option-cases, none, some, List, [], ◌∷◌, ◌++◌,
  if◌then◌else◌, ◌===◌, ===_refl, arith, Bool-cases, inl, inr,
}
use proof_stell_backend.Common.Result.{ok, is_ok}
use proof_stell_backend.Users.{User, find_row, save_row, has_id, has_email, has_username, read_user}
use proof_stell_backend.Users.Service.{
  Hashing, CreateUser, create_conflict, conflict, matches, new_user, create, save_and_read,
  find_one, find_complete_user,
}

pub find_row_sound :
    (p : User → Bool) (us : List User) (v : User) → find_row p us ≡ some v → p v ≡ true
unfolding find_row
find_row_sound p [] v e = ground (arith, e)
find_row_sound p (u ∷ us) v e = ground (arith, e, find_row_sound p us v)

pub find_row-append :
    (p : User → Bool) (us : List User) (u : User)
    → find_row p us ≡ none
    → find_row p (us ++ u ∷ []) ≡ (if p u then some u else none)
unfolding find_row
find_row-append p [] u e = refl
find_row-append p (v ∷ us) u e = elim (Bool-cases (p v)) [
  | inl there ↦ absurd (ground (arith, there, e))
  | inr not_there ↦ rw not_there (find_row-append p us u (ground (arith, not_there, e)))
]

pub find_row-never :
    (p : User → Bool) (us : List User) → ((v : User) → p v ≡ false) → find_row p us ≡ none
unfolding find_row
find_row-never p [] never = refl
find_row-never p (v ∷ us) never = rw (never v) (find_row-never p us never)

-- A row with a new id comes last.
pub save_row-append :
    (u : User) (us : List User) → find_row (has_id u.id) us ≡ none → save_row u us ≡ us ++ u ∷ []
unfolding find_row save_row
save_row-append u [] e = refl
save_row-append u (v ∷ us) e = elim (Bool-cases (v.id === u.id)) [
  | inl same ↦ absurd (ground (arith, same, e))
  | inr other ↦ rw other (ap (◌∷◌ v) (save_row-append u us (ground (arith, other, e))))
]

-- The last row is written again.
pub save_row-last :
    (u v : User) (us : List User)
    → find_row (has_id u.id) us ≡ none
    → (v.id === u.id) ≡ true
    → save_row u (us ++ v ∷ []) ≡ us ++ u ∷ []
unfolding find_row save_row
save_row-last u v [] e same = rw same refl
save_row-last u v (w ∷ us) e same = elim (Bool-cases (w.id === u.id)) [
  | inl there ↦ absurd (ground (arith, there, e))
  | inr other ↦ rw other (ap (◌∷◌ w) (save_row-last u v us (ground (arith, other, e)) same))
]

-- The last row is read by its id.
pub find_one-last :
    (u : User) (us : List User)
    → find_row (has_id u.id) us ≡ none
    → find_one u.id (us ++ u ∷ []) ≡ ok (read_user u)
find_one-last u us e =
    let found : find_row (has_id u.id) (us ++ u ∷ []) ≡ some u =
      find_row-append (has_id u.id) us u e ∙ (rw (===_refl u.id) refl) in
    unfold find_one find_complete_user in rw (found, find_one, find_complete_user) refl

pub find_row-weaker :
    (p q : User → Bool) (us : List User)
    → ((v : User) → p v ≡ true → q v ≡ true)
    → find_row q us ≡ none
    → find_row p us ≡ none
unfolding find_row
find_row-weaker p q [] weaker e = refl
find_row-weaker p q (v ∷ us) weaker e = elim (Bool-cases (p v)) [
  | inl there ↦ absurd (ground (arith, weaker v there, e))
  | inr other ↦ rw other (find_row-weaker p q us weaker (ground (arith, e)))
]

create_conflict-none :
    (q : CreateUser) (us : List User)
    → create_conflict q us ≡ none
    → find_row (matches (some q.email) (some q.username)) us ≡ none
create_conflict-none q us e =
    elim (Option-cases (find_row (matches (some q.email) (some q.username)) us)) [
      | inl free ↦ free
      | inr (v, found) ↦
          let fits = find_row_sound (matches (some q.email) (some q.username)) us v found in
          absurd (unfold create_conflict conflict in ground (arith, found, fits, e))
    ]

module _ (h : Hashing) (id : String) (q : CreateUser) (us : List User)
    (new : find_row (has_id id) us ≡ none) where
  -- Without a conflict the new user is the last row, and neither its email nor its name was there.
  pub create-appended :
      create_conflict q us ≡ none
      → (create h id q us ≡ (us ++ new_user h id q ∷ [], ok (read_user (new_user h id q))))
        × (find_row (has_email q.email) us ≡ none)
        × (find_row (has_username q.username) us ≡ none)
  create-appended free =
      let none_matches = create_conflict-none q us free in
      let u = new_user h id q in
      let own : u.id ≡ id = unfold new_user in refl in
      let appended : save_row u us ≡ us ++ u ∷ [] = save_row-append u us (rw own new) in
      let read_back : find_one u.id (us ++ u ∷ []) ≡ ok (read_user u) =
        find_one-last u us (rw own new) in
      (
        unfold create save_and_read in rw (free, create) (rw appended (rw read_back refl)),
        find_row-weaker (has_email q.email) (matches (some q.email) (some q.username)) us
            (λ v e. ground (arith, e)) none_matches,
        find_row-weaker (has_username q.username) (matches (some q.email) (some q.username)) us
            (λ v e. ground (arith, e)) none_matches,
      )

  pub create-conflict_free : is_ok (create h id q us).1 ≡ true → create_conflict q us ≡ none
  unfolding create
  create-conflict_free returned = elim (Option-cases (create_conflict q us)) [
    | inr (e, found) ↦ absurd (ground (arith, found, returned))
    | inl free ↦ free
  ]
