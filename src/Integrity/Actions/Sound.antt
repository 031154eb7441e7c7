-- ===== src/Integrity/Actions/Sound.antt =====
-- Which sessions pass the check of the action sequence and the rate check.
use proof_stell_backend.Common.{
  ℕ, ◌≤◌, ◌≡◌, ◌≢◌, ◌↔◌, refl, String, true, false, List, [], ◌∷◌, ltb, length, filter, map,
  some_of, arith, All, Bool-cases, inl, inr,
}
use proof_stell_backend.Common.Int.{ℤ}
use proof_stell_backend.Integrity.{GameAction, GameSession, SessionValidationRules, passed}
use proof_stell_backend.Integrity.Actions.{
  actions_of, find_type, has_type, missing_actions, starts_late, same_number, distinct,
  validate_action_sequence,
}

-- No element comes again later.
abbrev pub Unrepeated : List ℤ → Type 0
Unrepeated [] = Unit
Unrepeated (x ∷ xs) = All (λ y. x ≢ y) xs × Unrepeated xs

same_number_iff : (x y : ℤ) → (same_number x y ≡ true) ↔ (x ≡ y)
unfolding same_number
same_number_iff x y = ground arith

some_of-same_number_iff :
    (x : ℤ) (xs : List ℤ) → (some_of (same_number x) xs ≡ false) ↔ All (λ y. x ≢ y) xs
some_of-same_number_iff x [] = (λ _. tt, λ _. refl)
some_of-same_number_iff x (y ∷ ys) =
    let (to, from) = some_of-same_number_iff x ys in
    let (same, reflexive) = same_number_iff x y in
    (
      λ e. ((λ p. ground (arith, reflexive p, e)), to (ground (arith, e))),
      λ h. elim (Bool-cases (same_number x y)) [
        | inl e ↦ absurd (h.0 (same e))
        | inr e ↦ ground (arith, e, from (h.1))
      ],
    )

length-distinct : (xs : List ℤ) → length (distinct xs) ≤ length xs
unfolding distinct
length-distinct [] = omega arith
length-distinct (x ∷ xs) = ground (arith, length-distinct xs)

distinct-Unrepeated_iff : (xs : List ℤ) → (length xs ≡ length (distinct xs)) ↔ Unrepeated xs
unfolding distinct
distinct-Unrepeated_iff [] = (λ _. tt, λ _. refl)
distinct-Unrepeated_iff (x ∷ xs) =
    let (to, from) = distinct-Unrepeated_iff xs in
    let shorter = length-distinct xs in
    elim (Bool-cases (some_of (same_number x) xs)) [
      | inl again ↦ (
        λ e. absurd (ground (arith, shorter, again, e)),
        λ u.
            let once = (some_of-same_number_iff x xs).1 (u.0) in
            absurd (ground (arith, once, again)),
      )
      | inr new ↦ (
        λ e. ((some_of-same_number_iff x xs).0 new, to (ground (arith, new, e))),
        λ u. ground (arith, new, from (u.1)),
      )
    ]

missing_actions-nil_iff :
    (required : List String) (actions : List GameAction)
    → (length (missing_actions required actions) ≡ 0)
      ↔ All (λ t. has_type t actions ≡ true) required
unfolding missing_actions
missing_actions-nil_iff [] actions = (λ _. tt, λ _. refl)
missing_actions-nil_iff (t ∷ ts) actions =
    let (to, from) = missing_actions-nil_iff ts actions in
    elim (Bool-cases (has_type t actions)) [
      | inl there ↦
          (λ e. (there, to (ground (arith, there, e))), λ h. ground (arith, there, from (h.1)))
      | inr gone ↦ (λ e. ground (arith, gone, e), λ h. ground (arith, gone, h.0))
    ]

-- A sequence of actions as a session should have it at the time `now`
pub record IsComplete (now : ℕ) (required : List String) (actions : List GameAction) : Type 0 where
  pub all_required : All (λ t. has_type t actions ≡ true) required
  pub in_order : starts_late (find_type "start" actions) (find_type "complete" actions) ≡ false
  pub numbered : Unrepeated (map (λ (a : GameAction). a.sequence) actions)
  pub none_in_future : All (λ (a : GameAction). ltb now a.timestamp ≡ false) actions

none_future_iff :
    (now : ℕ) (actions : List GameAction)
    → (length (filter (λ (a : GameAction). ltb now a.timestamp) actions) ≡ 0)
      ↔ All (λ (a : GameAction). ltb now a.timestamp ≡ false) actions
none_future_iff now [] = (λ _. tt, λ _. refl)
none_future_iff now (a ∷ rest) =
    let (to, from) = none_future_iff now rest in
    elim (Bool-cases (ltb now a.timestamp)) [
      | inl late ↦ (λ e. ground (arith, late, e), λ h. ground (arith, late, h.0))
      | inr fine ↦
          (λ e. (fine, to (ground (arith, fine, e))), λ h. ground (arith, fine, from (h.1)))
    ]

-- The sequence check passes exactly if every required action is there, the first start is not after
-- the first completion, no sequence number comes twice and no action lies in the future.
pub validate_action_sequence-passed_iff :
    (now : ℕ) (session : GameSession) (rules : SessionValidationRules)
    → ((validate_action_sequence now session rules).status ≡ passed)
      ↔ IsComplete now rules.required_actions (actions_of session)
unfolding validate_action_sequence
validate_action_sequence-passed_iff now session rules =
    let actions = actions_of session in
    let (m, m') = missing_actions-nil_iff rules.required_actions actions in
    let (d, d') = distinct-Unrepeated_iff (map (λ (a : GameAction). a.sequence) actions) in
    let (f, f') = none_future_iff now actions in
    (
      λ e. record {
        all_required = m (ground (arith, e));
        in_order = ground (arith, e);
        numbered = d (ground (arith, e));
        none_in_future = f (ground (arith, e));
      },
      λ c. ground (arith, m' c.all_required, c.in_order, d' c.numbered, f' c.none_in_future),
    )
