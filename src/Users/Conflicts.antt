-- ===== src/Users/Conflicts.antt =====
-- Unique emails and names of users: create keeps them, and update does not.
use proof_stell_backend.Common.{
  String, false, ◌≡◌, ◌≢◌, refl, none, some, List, [], ◌∷◌, ◌++◌, ◌===◌, ===_refl, ne_of_===, arith,
  Option-cases, inl, inr, All,
}
use proof_stell_backend.Users.{User, find_row, save_row, has_id, has_email, has_username}
use proof_stell_backend.Users.Service.{
  Hashing, CreateUser, UpdateUser, create, new_user, create_conflict, update, update_conflict,
  assign_user, save_and_read,
}
use proof_stell_backend.Users.Rows.{create-appended}

-- No two rows have the same email or the same name.
abbrev pub IsUnique : List User → Type 0
IsUnique [] = Unit
IsUnique (u ∷ us) =
    All (λ (v : User). (u.email ≢ v.email) × (u.username ≢ v.username)) us × IsUnique us

All-snoc : (P : User → Type 0) (us : List User) (u : User) → All P us → P u → All P (us ++ u ∷ [])
All-snoc P [] u _ p = (p, tt)
All-snoc P (v ∷ us) u (q, h) p = (q, All-snoc P us u h p)

IsUnique-append :
    (us : List User) (u : User)
    → find_row (has_email u.email) us ≡ none
    → find_row (has_username u.username) us ≡ none
    → IsUnique us
    → IsUnique (us ++ u ∷ [])
unfolding find_row
IsUnique-append [] u e n h = (tt, tt)
IsUnique-append (v ∷ us) u e n (first, rest) =
    let email : (v.email === u.email) ≡ false = ground (arith, e) in
    let name : (v.username === u.username) ≡ false = ground (arith, n) in
    (
      All-snoc _ us u first (ne_of_=== v.email u.email email, ne_of_=== v.username u.username name),
      IsUnique-append us u (ground (arith, e, email)) (ground (arith, n, name)) rest,
    )

-- If no two users have the same email or the same name and the id is new, then that is still so after
-- the creation of a user, whether it succeeds or not.
pub create-IsUnique :
    (h : Hashing) (id : String) (q : CreateUser) (us : List User)
    → find_row (has_id id) us ≡ none
    → IsUnique us
    → IsUnique (create h id q us).0
create-IsUnique h id q us new unique = elim (Option-cases (create_conflict q us)) [
  | inr (e, found) ↦ unfold create in rw (found, create) unique
  | inl free ↦
      let (appended, email, name) = create-appended h id q us new free in
      rw appended (
        IsUnique-append us (new_user h id q) (unfold new_user in email) (unfold new_user in name)
          unique)
]

abbrev pub renaming : String → String → UpdateUser
renaming email username = record {
  new_email = some email;
  new_username = some username;
  new_is_email_verified = none;
  new_token = none;
  new_expires = none;
}

-- The check of update for a name that is taken looks at one row only: if the user's own row is found
-- first, by the email that it keeps, then the user gets the name of another user.
pub update-duplicates :
    (u v : User) (us : List User)
    → (u.email === "") ≡ false
    → (v.username === "") ≡ false
    → (update u.id (renaming u.email v.username) (u ∷ v ∷ us)).0
      ≡ record u { username = v.username } ∷ v ∷ us
update-duplicates u v us email name =
    let d = renaming u.email v.username in
    let own : find_row (has_id u.id) (u ∷ v ∷ us) ≡ some u =
      unfold find_row in rw (===_refl u.id) refl in
    let unseen : update_conflict u.id d (u ∷ v ∷ us) ≡ none =
      unfold update_conflict find_row in
      ground (arith, email, name, ===_refl u.email, ===_refl u.id) in
    unfold update save_and_read assign_user save_row in
    rw (own, update) (rw unseen (rw (===_refl u.id) refl))
