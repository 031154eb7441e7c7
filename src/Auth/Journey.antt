-- ===== src/Auth/Journey.antt =====
-- From the registration of a user to the first login, through the methods of
-- auth/providers/auth.service.ts.
use proof_stell_backend.Common.{
  ℕ, ◌≤◌, ◌≡◌, refl, ap, ◌∙◌, String, true, false, Option, none, some, List, [], ◌∷◌, ◌++◌,
  ===_refl, arith, Option-cases, inl, inr,
}
use proof_stell_backend.Common.Result.{ok, is_ok}
use proof_stell_backend.TokenTable.{read}
use proof_stell_backend.Users.{
  User, find_row, save_row, has_id, has_email, has_token, select_user, read_user, find_by_email,
  find_by_verification_token, option_map,
}
use proof_stell_backend.Users.Service.{
  Hashing, HashingLaws, new_user, create, create_conflict, update, update_conflict, assign_user,
  matches, save_and_read, find_one,
}
use proof_stell_backend.Users.Rows.{
  create-appended, find_row-append, find_row-never, save_row-last, find_one-last,
}
use proof_stell_backend.Auth.{AuthState, AuthConfig, login_key, normalize_email, validate_user}
use proof_stell_backend.Auth.Registration.{
  Register, registration, register, after_creation, announce, send_verification_email, in_a_day,
  verified_update, verify_email, is_past,
}
use proof_stell_backend.Auth.Admission.{validate_user-ok_iff}

-- The user as it is registered
abbrev registered : Hashing → String → String → ℕ → Register → User
registered h id token now q = new_user h id (registration q token now)

module _ (h : Hashing) (id token : String) (now : ℕ) (q : Register) (s : AuthState)
    (new_id : find_row (has_id id) s.users ≡ none)
    (new_token : find_row (has_token token) s.users ≡ none) where
  abbrev u : User
  u = registered h id token now q

  abbrev us : List User
  us = s.users ++ u ∷ []

  found_email :
      find_row (has_email q.email) s.users ≡ none → find_by_email q.email us ≡ some (select_user u)
  unfolding find_by_email new_user registration
  found_email e =
      let found : find_row (has_email q.email) us ≡ some u =
        find_row-append (has_email q.email) s.users u e ∙ (rw (===_refl q.email) refl) in
      ap (option_map select_user) found

  found_token : find_by_verification_token token us ≡ some u
  unfolding find_by_verification_token new_user registration
  found_token = find_row-append (has_token token) s.users u new_token ∙ (rw (===_refl token) refl)

  conflict_free :
      is_ok (register h true true id token now q s).1 ≡ true
      → create_conflict (registration q token now) s.users ≡ none
  unfolding register after_creation create
  conflict_free returned =
      elim (Option-cases (create_conflict (registration q token now) s.users)) [
        | inl free ↦ free
        | inr (e, found) ↦ absurd (ground (arith, found, returned))
      ]

  -- A registration without a conflict
  register-appended :
      create_conflict (registration q token now) s.users ≡ none
      → ((register h true true id token now q s).0.users ≡ us)
        × ((register h true true id token now q s).0.lockouts ≡ s.lockouts)
        × (find_row (has_email q.email) s.users ≡ none)
  unfolding register after_creation announce send_verification_email new_user registration read_user
  register-appended free =
      let (appended, free_email, _) =
        create-appended h id (registration q token now) s.users new_id free in
      let email : find_row (has_email q.email) s.users ≡ none = free_email in
      let found : find_by_email (read_user u).email us ≡ some (select_user u) =
        unfold read_user in found_email email in
      rw appended (rw (found, announce) (refl, refl, email))

  -- The last user with a verified email
  abbrev verified : User
  verified = record u {
    is_email_verified = true;
    email_verification_token = none;
    email_verification_expires = none;
  }

  own_id : u.id ≡ id
  unfolding new_user
  own_id = refl

  update-verified :
      update u.id verified_update us ≡ (s.users ++ verified ∷ [], ok (read_user verified))
  unfolding update save_and_read update_conflict assign_user
  update-verified =
      let new : find_row (has_id u.id) s.users ≡ none = rw own_id new_id in
      let found : find_row (has_id u.id) us ≡ some u =
        find_row-append (has_id u.id) s.users u new ∙ (rw (===_refl u.id) refl) in
      let nobody : find_row (matches none none) us ≡ none =
        find_row-never (matches none none) us (λ v. refl) in
      let unseen : update_conflict u.id verified_update us ≡ none =
        rw (nobody, update_conflict) refl in
      let saved : save_row verified us ≡ s.users ++ verified ∷ [] =
        save_row-last verified u s.users new (===_refl u.id) in
      let read_back : find_one u.id (s.users ++ verified ∷ []) ≡ ok (read_user verified) =
        find_one-last verified s.users new in
      rw (found, update) (rw unseen (rw saved (rw read_back refl)))

  verify_email-verifies :
      (r : AuthState) (later : ℕ)
      → r.users ≡ us
      → later ≤ in_a_day now
      → verify_email token later r ≡ (record r { users = s.users ++ verified ∷ [] }, ok true)
  unfolding verify_email
  verify_email-verifies r later at early =
      let found : find_by_verification_token token r.users ≡ some u = rw at found_token in
      let changed : update u.id verified_update r.users
          ≡ (s.users ++ verified ∷ [], ok (read_user verified)) =
        rw at update-verified in
      let unverified : u.is_email_verified ≡ false = unfold new_user registration in refl in
      let in_time : is_past later u.email_verification_expires ≡ false =
        unfold new_user registration in ground (arith, early) in
      rw (found, verify_email) (rw (unverified, in_time) (rw changed refl))

  verified_email :
      find_row (has_email q.email) s.users ≡ none
      → find_by_email q.email (s.users ++ verified ∷ []) ≡ some (select_user verified)
  unfolding find_by_email new_user registration
  verified_email e =
      let found : find_row (has_email q.email) (s.users ++ verified ∷ []) ≡ some verified =
        find_row-append (has_email q.email) s.users verified e ∙ (rw (===_refl q.email) refl) in
      ap (option_map select_user) found

  -- If a registration returned, its id and its verification token were new, the email is verified
  -- with the token within a day, and no lockout is stored for the client, then the verification
  -- returns, and the login with the registered password and any spelling of the registered email that
  -- is normalised to it lets the client in as the new user. Passwords match their own hashes.
  pub register-verify-login :
      (laws : HashingLaws h) (digest : String → String) (config : AuthConfig) (email : String)
      (ip user_agent : Option String) (t1 t2 : ℕ)
      → is_ok (register h true true id token now q s).1 ≡ true
      → normalize_email email ≡ q.email
      → t1 ≤ in_a_day now
      → read s.lockouts (login_key digest email ip user_agent) t2 ≡ none
      → (let (s1, _) = register h true true id token now q s in
          let (s2, verified_now) = verify_email token t1 s1 in
          let (_, let_in) = validate_user h digest config email q.password ip user_agent t2 s2 in
          (verified_now ≡ ok true) × (let_in ≡ ok (select_user verified)))
  register-verify-login laws digest config email ip user_agent t1 t2 returned spelled in_time free =
      let (added, kept, new_email) = register-appended (conflict_free returned) in
      let r = (register h true true id token now q s).0 in
      let changed = verify_email-verifies r t1 added in_time in
      let (_, login) =
        validate_user-ok_iff h digest config email q.password ip user_agent t2
          (record r { users = s.users ++ verified ∷ [] }) (select_user verified) in
      rw changed (
        refl,
        login (
          inl (rw kept free),
          rw spelled (verified_email new_email),
          unfold select_user new_user in refl,
          unfold select_user in refl,
          unfold select_user new_user registration in laws.compare-hash q.password,
        ),
      )
