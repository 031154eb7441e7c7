-- ===== src/Users/Tests.antt =====
-- Two users, and a third one that is created.
use proof_stell_backend.Common.{◌≡◌, refl, String, true, false, none, [], ◌∷◌, ne_of_===, ◌===◌}
use proof_stell_backend.Common.Int.{pos}
use proof_stell_backend.Users.{User, find_row}
use proof_stell_backend.Users.Service.{Hashing, CreateUser, create, update}
use proof_stell_backend.Users.Conflicts.{IsUnique, create-IsUnique, renaming, update-duplicates}

abbrev user : String → String → String → User
user id email username = record {
  id = id;
  email = email;
  password = "secret";
  username = username;
  role = "player";
  is_active = true;
  is_email_verified = true;
  email_verification_token = none;
  email_verification_expires = none;
  last_login = none;
  games_played = pos 0;
  total_score = pos 0;
  highest_score = pos 0;
  current_streak = pos 0;
  longest_streak = pos 0;
}

abbrev ann : User
ann = user "u1" "ann@x.org" "ann"

abbrev bob : User
bob = user "u2" "bob@x.org" "bob"

abbrev hashing : Hashing
hashing = record { hash = λ p. p; compare_password = λ p q. p === q }

abbrev cleo : CreateUser
cleo = record {
  email = "cleo@x.org";
  username = "cleo";
  password = "secret";
  role = none;
  is_email_verified = false;
  email_verification_token = none;
  email_verification_expires = none;
}

create-IsUnique_example : IsUnique (create hashing "u3" cleo (ann ∷ bob ∷ [])).0
create-IsUnique_example =
    create-IsUnique hashing "u3" cleo (ann ∷ bob ∷ []) (unfold find_row in refl)
      (((ne_of_=== "ann@x.org" "bob@x.org" refl, ne_of_=== "ann" "bob" refl), tt), (tt, tt))

update-duplicates_example :
    (update "u1" (renaming "ann@x.org" "bob") (ann ∷ bob ∷ [])).0
    ≡ user "u1" "ann@x.org" "bob" ∷ bob ∷ []
update-duplicates_example = update-duplicates ann bob [] refl refl
