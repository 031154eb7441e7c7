-- ===== src/Guards/Privileges.antt =====
-- What the guards of roles let through, by themselves and after jwt.strategy.ts.
use mathlib.Core.Path.{subst}
use proof_stell_backend.Common.{
  ◌≡◌, ◌≢◌, ◌↔◌, refl, ap, ===_of_ne, ne_of_===, String, true, false, Option, none, some, List, [],
  ◌∷◌, ◌===◌, ===_iff, some_of, arith, Option-cases, inl, inr, Elem,
}
use proof_stell_backend.Common.Result.{ok, err}
use proof_stell_backend.Tokens.{Claims}
use proof_stell_backend.Users.{User, find_row, has_id, read_user}
use proof_stell_backend.Users.Service.{find_one, find_complete_user}
use proof_stell_backend.Guards.{
  RequestUser, forbidden, unavailable, roles_guard, admin_guard, maintenance_guard,
  message_or_default, validate_payload,
}

some_of-Elem_iff :
    (role : String) (roles : List String)
    → (some_of (λ r. r === role) roles ≡ true) ↔ Elem role roles
some_of-Elem_iff role [] = (λ e. cc, λ m. absurd m)
some_of-Elem_iff role (r ∷ rs) =
    ground (arith, (some_of-Elem_iff role rs).0, (some_of-Elem_iff role rs).1, ===_iff r role)

-- A route that requires at least one role lets a request through exactly when it has a user with a
-- role that is not empty and is one of the required ones.
pub roles_guard-allowed_iff :
    (required : List String) (user : Option RequestUser)
    → required ≢ []
    → ((roles_guard (some required) user).answer ≡ ok true) ↔ (
        (u : RequestUser) × (role : String) × (user ≡ some u)
        × (u.role ≡ some role)
        × (role ≢ "")
        × Elem role required)
unfolding roles_guard
roles_guard-allowed_iff [] user nonempty = absurd (nonempty refl)
roles_guard-allowed_iff (r ∷ rs) none nonempty =
    (λ e. absurd (ground (arith, e)), λ h. absurd (ground (arith, h.2)))
roles_guard-allowed_iff (r ∷ rs) (some u) nonempty = elim (Option-cases u.role) [
  | inl missing ↦ (
    λ e. absurd (ground (arith, missing, e)),
    λ h.
        let same : u ≡ h.0 = ground (arith, h.2) in
        let role = ap (λ (v : RequestUser). v.role) same in
        absurd (ground (arith, role, missing, h.3)),
  )
  | inr (role, has) ↦ (
    λ e.
        let full : (role === "") ≡ false = ground (arith, has, e) in
        let listed : some_of (λ t. t === role) (r ∷ rs) ≡ true = ground (arith, has, full, e) in
        (u, role, refl, has, ne_of_=== role "" full, (some_of-Elem_iff role (r ∷ rs)).0 listed),
    λ h.
        let same : u ≡ h.0 = ground (arith, h.2) in
        let role' : h.1 ≡ role = ground (arith, ap (λ (v : RequestUser). v.role) same, has, h.3) in
        let full : (role === "") ≡ false =
          subst (λ (t : String). (t === "") ≡ false) role' (===_of_ne h.1 "" h.4) in
        let listed : some_of (λ t. t === role) (r ∷ rs) ≡ true =
          (some_of-Elem_iff role (r ∷ rs)).1 (subst (λ (t : String). Elem t (r ∷ rs)) role' h.5) in
        rw (has, full, listed) refl,
  )
]

-- The user that the JWT strategy puts on the request has no role.
validate_payload-roleless :
    (users : List User) (payload : Claims) (u : RequestUser)
    → validate_payload users payload ≡ ok u
    → u.role ≡ none
unfolding validate_payload find_one find_complete_user read_user
validate_payload-roleless users payload u e =
    elim (Option-cases (find_row (has_id payload.sub) users)) [
      | inl missing ↦ absurd (ground (arith, missing, e))
      | inr (v, found) ↦ ground (arith, found, e)
    ]

-- No user whom the JWT strategy authenticates passes the guard of administrators, or a route that
-- requires a role, or, in maintenance mode, a route that is not public; whatever role the user has in
-- the database.
pub validate_payload-barred :
    (users : List User) (payload : Claims) (u : RequestUser) (role : String) (roles : List String)
    (message : Option String)
    → validate_payload users payload ≡ ok u
    → ((admin_guard (some u)).answer ≡ err forbidden)
      × ((roles_guard (some (role ∷ roles)) (some u)).answer ≡ err forbidden)
      × ((maintenance_guard false true message (some u)).answer
          ≡ err (unavailable (message_or_default message)))
unfolding admin_guard roles_guard maintenance_guard
validate_payload-barred users payload u role roles message e =
    let roleless = validate_payload-roleless users payload u e in
    (ground (arith, roleless), ground (arith, roleless), ground (arith, roleless))
