-- ===== src/Users/Service.antt =====
-- The methods of users/providers/users.service.ts that change the users.
use proof_stell_backend.Common.{
  ℕ, String, Bool, true, false, Option, none, some, List, if◌then◌else◌, ◌===◌, ◌||◌, ◌≡◌,
}
use proof_stell_backend.Common.Int.{ℤ, pos, ltb_ℤ, sub_ℕ, pos_part, neg_part}
use proof_stell_backend.Common.Result.{Result, ok, err}
use proof_stell_backend.Users.{
  User, SelectedUser, ReadUser, find_row, save_row, remove_row, has_id, read_user, find_by_email,
  option_map,
}
use Prim.Native.Nat.{◌+◌}

-- bcrypt: the hash of a password, and the comparison of a password with a hash
pub record Hashing : Type 0 where
  pub hash : String → String
  pub compare_password : String → String → Bool

-- What is relied on: a password matches its own hash.
pub record HashingLaws (h : Hashing) : Type 0 where
  pub compare-hash : (password : String) → h.compare_password password (h.hash password) ≡ true

pub data UserError : Type 0 where
  email_exists username_exists : UserError
  user_not_found : String → UserError
  wrong_password : UserError

abbrev pub Method : Type 0 → Type 0
Method A = List User → List User × Result UserError A

-- CreateUserDto
pub record CreateUser : Type 0 where
  pub email : String
  pub username : String
  pub password : String
  pub role : Option String
  pub is_email_verified : Bool
  pub email_verification_token : Option String
  pub email_verification_expires : Option ℕ

-- repository.create: the columns that are not given have their defaults
unfoldable pub new_user : Hashing → String → CreateUser → User
new_user h id q = record {
  id = id;
  email = q.email;
  password = h.hash q.password;
  username = q.username;
  role = elim q.role [ none ↦ "player" | some r ↦ r ];
  is_active = true;
  is_email_verified = q.is_email_verified;
  email_verification_token = q.email_verification_token;
  email_verification_expires = q.email_verification_expires;
  last_login = none;
  games_played = pos 0;
  total_score = pos 0;
  highest_score = pos 0;
  current_streak = pos 0;
  longest_streak = pos 0;
}

-- private findCompleteUserForDto(id), made into a ReadUserDto
unfoldable pub find_complete_user : String → List User → Option ReadUser
find_complete_user id us = option_map read_user (find_row (has_id id) us)

-- async findOne(id)
unfoldable pub find_one : String → List User → Result UserError ReadUser
find_one id us = elim (find_complete_user id us) [ none ↦ err (user_not_found id) | some u ↦ ok u ]

-- The last part of create and update: the row is written, and read again.
unfoldable pub save_and_read : User → Method ReadUser
save_and_read u us = let us' = save_row u us in (us', find_one u.id us')

-- Which unique value a found row already has
unfoldable pub conflict : Option String → Option String → User → Option UserError
conflict email username v =
    if elim email [ none ↦ false | some e ↦ v.email === e ]
    then some email_exists
    else if elim username [ none ↦ false | some n ↦ v.username === n ]
    then some username_exists
    else none

abbrev pub matches : Option String → Option String → User → Bool
matches email username v =
    elim email [ none ↦ false | some e ↦ v.email === e ]
    || elim username [ none ↦ false | some n ↦ v.username === n ]

unfoldable pub create_conflict : CreateUser → List User → Option UserError
create_conflict q us = elim (find_row (matches (some q.email) (some q.username)) us) [
  | none ↦ none
  | some v ↦ conflict (some q.email) (some q.username) v
]

-- async create(createUserDto), with the new id
unfoldable pub create : Hashing → String → CreateUser → Method ReadUser
create h id q us = elim (create_conflict q us) [
  | some e ↦ (us, err e)
  | none ↦ save_and_read (new_user h id q) us
]

-- UpdateUserDto: the fields that are given
pub record UpdateUser : Type 0 where
  pub new_email : Option String
  pub new_username : Option String
  pub new_is_email_verified : Option Bool
  pub new_token : Option (Option String)
  pub new_expires : Option (Option ℕ)

abbrev pub given {ℓ} : {A : Type ℓ} → Option A → A → A
given none a = a
given (some b) a = b

-- Object.assign(user, updateUserDto)
unfoldable pub assign_user : UpdateUser → User → User
assign_user d u = record u {
  email = given d.new_email u.email;
  username = given d.new_username u.username;
  is_email_verified = given d.new_is_email_verified u.is_email_verified;
  email_verification_token = given d.new_token u.email_verification_token;
  email_verification_expires = given d.new_expires u.email_verification_expires;
}

-- An empty text is falsy
abbrev pub nonempty : Option String → Option String
nonempty none = none
nonempty (some s) = if s === "" then none else some s

-- The check of update for another row with the new email or name; only the first found row is seen
unfoldable pub update_conflict : String → UpdateUser → List User → Option UserError
update_conflict id d us =
    elim (find_row (matches (nonempty d.new_email) (nonempty d.new_username)) us) [
      | none ↦ none
      | some v ↦
          if v.id === id then none else conflict (nonempty d.new_email) (nonempty d.new_username) v
    ]

-- async update(id, updateUserDto)
unfoldable pub update : String → UpdateUser → Method ReadUser
update id d us = elim (find_row (has_id id) us) [
  | none ↦ (us, err (user_not_found id))
  | some u ↦ elim (update_conflict id d us) [
    | some e ↦ (us, err e)
    | none ↦ save_and_read (assign_user d u) us
  ]
]

-- async changePassword(id, changePasswordDto)
unfoldable pub change_password : Hashing → String → String → String → Method (Unit {0})
change_password h id current new us = elim (find_row (has_id id) us) [
  | none ↦ (us, err (user_not_found id))
  | some u ↦
      if h.compare_password current u.password
      then (save_row (record u { password = h.hash new }) us, ok tt)
      else (us, err wrong_password)
]

-- async remove(id)
unfoldable pub remove : String → Method (Unit {0})
remove id us = elim (find_row (has_id id) us) [
  | none ↦ (us, err (user_not_found id))
  | some u ↦ (remove_row id us, ok tt)
]

-- repository.update(id, { lastLogin: new Date() }): a missing row is no error
unfoldable pub update_last_login : ℕ → String → List User → List User
update_last_login now id us = elim (find_row (has_id id) us) [
  | none ↦ us
  | some u ↦ save_row (record u { last_login = some now }) us
]

-- async validateUser(email, password)
unfoldable pub validate_user : Hashing → String → String → List User → Option SelectedUser
validate_user h email password us = elim (find_by_email email us) [
  | none ↦ none
  | some u ↦ if h.compare_password password u.password then some u else none
]

-- The stats of updateUserStats that are given
pub record UserStats : Type 0 where
  pub more_games : Option ℤ
  pub more_score : Option ℤ
  pub new_highest : Option ℤ
  pub new_streak : Option ℤ
  pub new_longest : Option ℤ

abbrev pub plus : ℤ → Option ℤ → ℤ
plus a none = a
plus a (some b) = sub_ℕ (pos_part a + pos_part b) (neg_part a + neg_part b)

-- if (x !== undefined && x > old) old = x
abbrev pub raised : ℤ → Option ℤ → ℤ
raised a none = a
raised a (some b) = if ltb_ℤ a b then b else a

-- async updateUserStats(userId, stats)
unfoldable pub update_user_stats : String → UserStats → Method (Unit {0})
update_user_stats id d us = elim (find_row (has_id id) us) [
  | none ↦ (us, err (user_not_found id))
  | some u ↦ (
    save_row
        (record u {
          games_played = plus u.games_played d.more_games;
          total_score = plus u.total_score d.more_score;
          highest_score = raised u.highest_score d.new_highest;
          current_streak = given d.new_streak u.current_streak;
          longest_streak = raised u.longest_streak d.new_longest;
        })
        us,
    ok tt,
  )
]
