-- ===== src/Users.antt =====
-- users/providers/users.service.ts: the user records and their service. The repository is a list of
-- rows in the order of the database, and a query for one row gives the first that fits; ids come from
-- outside. What an entity does not select is missing in it.
pub mod Service
pub mod Rows
pub mod Conflicts
mod Tests
use proof_stell_backend.Common.{
  ℕ, String, Bool, true, false, Option, none, some, List, [], ◌∷◌, if◌then◌else◌, ◌===◌, ◌||◌,
}
use proof_stell_backend.Common.Int.{ℤ, pos}

-- The columns of the entity User that the services read or write
pub record User : Type 0 where
  pub id : String
  pub email : String
  pub password : String
  pub username : String
  pub role : String
  pub is_active : Bool
  pub is_email_verified : Bool
  pub email_verification_token : Option String
  pub email_verification_expires : Option ℕ
  pub last_login : Option ℕ
  pub games_played : ℤ
  pub total_score : ℤ
  pub highest_score : ℤ
  pub current_streak : ℤ
  pub longest_streak : ℤ

-- A User with the columns that findByEmail selects; the others are undefined
pub record SelectedUser : Type 0 where
  pub id : String
  pub email : String
  pub password : String
  pub is_active : Bool
  pub is_email_verified : Bool
  pub username : Option String
  pub role : Option String

-- ReadUserDto, made from the columns that findCompleteUserForDto selects: no role
pub record ReadUser : Type 0 where
  pub id : String
  pub email : String
  pub username : String
  pub role : Option String
  pub is_active : Bool
  pub is_email_verified : Bool
  pub highest_score : ℤ

-- The first row with a property
unfoldable pub find_row : (User → Bool) → List User → Option User
find_row p [] = none
find_row p (u ∷ us) = let rest = find_row p us in if p u then some u else rest

-- The row with the id is written again.
unfoldable pub save_row : User → List User → List User
save_row u [] = u ∷ []
save_row u (v ∷ vs) = let rest = save_row u vs in if v.id === u.id then u ∷ vs else v ∷ rest

unfoldable pub remove_row : String → List User → List User
remove_row id [] = []
remove_row id (v ∷ vs) = let rest = remove_row id vs in if v.id === id then rest else v ∷ rest

abbrev pub has_id : String → User → Bool
has_id id u = u.id === id

abbrev pub has_email : String → User → Bool
has_email email u = u.email === email

abbrev pub has_username : String → User → Bool
has_username username u = u.username === username

abbrev pub has_token : String → User → Bool
has_token token u = elim u.email_verification_token [ none ↦ false | some t ↦ t === token ]

abbrev pub option_map {ℓ κ} : {A : Type ℓ} {B : Type κ} → (A → B) → Option A → Option B
option_map f none = none
option_map f (some a) = some (f a)

unfoldable pub select_user : User → SelectedUser
select_user u = record {
  id = u.id;
  email = u.email;
  password = u.password;
  is_active = u.is_active;
  is_email_verified = u.is_email_verified;
  username = none;
  role = none;
}

unfoldable pub read_user : User → ReadUser
read_user u = record {
  id = u.id;
  email = u.email;
  username = u.username;
  role = none;
  is_active = u.is_active;
  is_email_verified = u.is_email_verified;
  highest_score = u.highest_score;
}

-- async findByEmail(email)
unfoldable pub find_by_email : String → List User → Option SelectedUser
find_by_email email us = option_map select_user (find_row (has_email email) us)

-- async findByUsername(username)
unfoldable pub find_by_username : String → List User → Option SelectedUser
find_by_username username us =
    option_map (λ u. record (select_user u) { username = some u.username })
      (find_row (has_username username) us)

-- async findByVerificationToken(token)
unfoldable pub find_by_verification_token : String → List User → Option User
find_by_verification_token token us = find_row (has_token token) us
