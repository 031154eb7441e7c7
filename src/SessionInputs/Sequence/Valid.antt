-- ===== src/SessionInputs/Sequence/Valid.antt =====
-- Exactly which input sequences pass.
use proof_stell_backend.Common.{
  ◌⊎◌, ℕ, suc, ◌/◌, ◌≤◌, ◌≡◌, ◌≢◌, refl, ◌↔◌, String, true, false, Option, none, some, List, [],
  ◌∷◌, arith, Bool-cases, Option-cases, inl, inr, length, ◌===◌, ===_iff, ===_refl, All,
}
use proof_stell_backend.Common.Int.{ℤ, ◌<ℤ◌}
use proof_stell_backend.Common.StringSet.{
  has, has-add, has-nil, NoDuplicates, add-NoDuplicates, length-le_of_covered,
}
use proof_stell_backend.SessionInputs.{
  ValidationResult, valid, same_timestamp, too_many_in_second, too_many_in_100ms,
  max_inputs_per_second, max_inputs_per_100ms,
}
use proof_stell_backend.SessionInputs.Sequence.{
  TimedInput, check_ascending, not_greater, check_numbers, check_sequence, note_client,
  collect_clients, check_clients, truthy, validate_input_sequence, ◌orelse◌,
}
use proof_stell_backend.SessionInputs.Sequence.Windows.{in_window, check_windows-valid_iff}

-- Each input is at least as late as the one before it.
abbrev pub Ascending : TimedInput → List TimedInput → Type 0
Ascending previous [] = Unit
Ascending previous (x ∷ xs) = (previous.timestamp ≤ x.timestamp) × Ascending x xs

abbrev pub Above : Option ℤ → Option ℤ → Type 0
Above (some a) (some b) = a <ℤ b
Above _ _ = Unit

-- Two neighbours that both have a sequence number are in strictly increasing order.
abbrev pub Numbered : Option ℤ → List TimedInput → Type 0
Numbered previous [] = Unit
Numbered previous (x ∷ xs) = Above previous x.sequence × Numbered x.sequence xs

-- The first input has no number, or all are numbered.
abbrev pub NumberedIfFirst : TimedInput → List TimedInput → Type 0
NumberedIfFirst x xs = (x.sequence ≡ none) ⊎ Numbered x.sequence xs

-- A client id is missing, empty or one of `ids`.
abbrev pub IsKnownClient : List String → TimedInput → Type 0
IsKnownClient ids x = (s : String) → x.client_id ≡ some s → s ≢ "" → has ids s ≡ true

-- At most three clients have sent the inputs, if the first one names its client.
abbrev pub FewClients : TimedInput → List TimedInput → Type 0
FewClients x xs =
    (truthy x.client_id ≡ false)
    ⊎ ((ids : List String) × (length ids ≤ 3) × All (IsKnownClient ids) (x ∷ xs))

check_ascending-valid_iff :
    (i : ℕ) (x : TimedInput) (xs : List TimedInput)
    → (check_ascending i x xs ≡ valid) ↔ Ascending x xs
unfolding check_ascending
check_ascending-valid_iff i x [] = (λ _. tt, λ _. refl)
check_ascending-valid_iff i x (y ∷ ys) =
    let (to, from) = check_ascending-valid_iff (suc i) y ys in
    (λ e. (ground arith, to (ground arith)), λ h. ground (arith, from h.1))

not_greater_iff : (a b : Option ℤ) → (not_greater a b ≡ false) ↔ Above b a
not_greater_iff none none = (λ _. tt, λ _. refl)
not_greater_iff none (some b) = (λ _. tt, λ _. refl)
not_greater_iff (some a) none = (λ _. tt, λ _. refl)
not_greater_iff (some a) (some b) = (λ e. ground arith, λ h. ground arith)

check_numbers-valid_iff :
    (i : ℕ) (p : Option ℤ) (xs : List TimedInput) → (check_numbers i p xs ≡ valid) ↔ Numbered p xs
unfolding check_numbers
check_numbers-valid_iff i p [] = (λ _. tt, λ _. refl)
check_numbers-valid_iff i p (y ∷ ys) =
    let (to, from) = check_numbers-valid_iff (suc i) y.sequence ys in
    let (to', from') = not_greater_iff y.sequence p in
    (λ e. (to' (ground arith), to (ground arith)), λ h. ground (arith, from h.1, from' h.0))

check_sequence-valid_iff :
    (x : TimedInput) (xs : List TimedInput) → (check_sequence x xs ≡ valid) ↔ NumberedIfFirst x xs
unfolding check_sequence
check_sequence-valid_iff x xs = elim (Option-cases x.sequence) [
  | inl e ↦ rw (e, check_sequence) (λ _. inl refl, λ _. refl)
  | inr (n, e) ↦
      rw (e, check_sequence)
        (let (to, from) = check_numbers-valid_iff 1 (some n) xs in
          (λ h. inr (to h), λ h. elim h [ inl p ↦ absurd cc | inr m ↦ from m ]))
]

has-note_client :
    (ids : List String) (o : Option String) (s : String)
    → has ids s ≡ true
    → has (note_client ids o) s ≡ true
has-note_client ids none s h = h
has-note_client ids (some t) s h = ground (arith, has-add ids t s)

has-collect_clients :
    (ids : List String) (xs : List TimedInput) (s : String)
    → has ids s ≡ true
    → has (collect_clients ids xs) s ≡ true
unfolding collect_clients
has-collect_clients ids [] s h = h
has-collect_clients ids (x ∷ xs) s h =
    has-collect_clients (note_client ids x.client_id) xs s (has-note_client ids x.client_id s h)

collect_clients-IsKnownClient :
    (ids : List String) (xs : List TimedInput) → All (IsKnownClient (collect_clients ids xs)) xs
unfolding collect_clients
collect_clients-IsKnownClient ids [] = tt
collect_clients-IsKnownClient ids (x ∷ xs) = (
  λ s e ne.
      has-collect_clients (note_client ids x.client_id) xs s
        (rw e (ground (arith, ===_iff s "", has-add ids s s, ===_refl s))),
  collect_clients-IsKnownClient (note_client ids x.client_id) xs,
)

note_client-NoDuplicates :
    (ids : List String) (o : Option String) → NoDuplicates ids → NoDuplicates (note_client ids o)
note_client-NoDuplicates ids none h = h
note_client-NoDuplicates ids (some s) h = elim (Bool-cases (s === "")) [
  | inl e ↦ rw e h
  | inr e ↦ rw e (add-NoDuplicates ids s h)
]

collect_clients-NoDuplicates :
    (ids : List String) (xs : List TimedInput)
    → NoDuplicates ids
    → NoDuplicates (collect_clients ids xs)
unfolding collect_clients
collect_clients-NoDuplicates ids [] h = h
collect_clients-NoDuplicates ids (x ∷ xs) h =
    collect_clients-NoDuplicates (note_client ids x.client_id) xs
      (note_client-NoDuplicates ids x.client_id h)

note_client-covered :
    (known ids : List String) (x : TimedInput) (s : String)
    → IsKnownClient known x
    → (has ids s ≡ true → has known s ≡ true)
    → has (note_client ids x.client_id) s ≡ true
    → has known s ≡ true
note_client-covered known ids x s k h m = elim (Option-cases x.client_id) [
  | inl e ↦ h (rw e at m)
  | inr (t, e) ↦
      let m' : has (note_client ids (some t)) s ≡ true = rw e at m in
      ground (arith, k t e, ===_iff t "", has-add ids t s, ===_iff t s, h)
]

collect_clients-covered :
    (known ids : List String) (xs : List TimedInput) (s : String)
    → All (IsKnownClient known) xs
    → ((t : String) → has ids t ≡ true → has known t ≡ true)
    → has (collect_clients ids xs) s ≡ true
    → has known s ≡ true
unfolding collect_clients
collect_clients-covered known ids [] s ks h m = h s m
collect_clients-covered known ids (x ∷ xs) s (k, ks) h m =
    collect_clients-covered known (note_client ids x.client_id) xs s ks
      (λ t. note_client-covered known ids x t k (h t)) m

check_clients-valid_iff :
    (x : TimedInput) (xs : List TimedInput) → (check_clients x xs ≡ valid) ↔ FewClients x xs
unfolding check_clients
check_clients-valid_iff x xs = (
  λ e. elim (Bool-cases (truthy x.client_id)) [
    | inr unnamed ↦ inl unnamed
    | inl named ↦
        inr (collect_clients [] (x ∷ xs), ground arith, collect_clients-IsKnownClient [] (x ∷ xs))
  ],
  λ h. elim h [
    | inl e ↦ rw (e, check_clients)
    | inr (ids, few, known) ↦
        let bound =
          length-le_of_covered (collect_clients [] (x ∷ xs)) ids
            (collect_clients-NoDuplicates [] (x ∷ xs) tt)
            (λ s. collect_clients-covered ids [] (x ∷ xs) s known (λ t m. cc (has-nil t))) in
        ground arith
  ],
)

-- What an input sequence that begins with x must satisfy to pass.
pub record PlausibleFrom (x : TimedInput) (xs : List TimedInput) : Type 0 where
  pub at_most_5_at_once : (t : ℕ) → in_window (λ u. u) t (x ∷ xs) ≤ 5
  pub ascending : Ascending x xs
  pub numbered : NumberedIfFirst x xs
  pub at_most_50_per_second : (s : ℕ) → in_window (λ t. t / 1000) s (x ∷ xs) ≤ 50
  pub at_most_10_per_100ms : (w : ℕ) → in_window (λ t. t / 100) w (x ∷ xs) ≤ 10
  pub few_clients : FewClients x xs

abbrev pub IsPlausible : List TimedInput → Type 0
IsPlausible [] = Unit
IsPlausible (x ∷ xs) = PlausibleFrom x xs

orelse-valid_iff :
    (r next : ValidationResult) → ((r orelse next) ≡ valid) ↔ ((r ≡ valid) × (next ≡ valid))
orelse-valid_iff r next = ground arith

-- The sequence check accepts exactly the plausible input sequences: at most 5 inputs at one time, at
-- most 50 in one second and 10 in one tenth of it, timestamps that do not go back, a greater sequence
-- number than that of the input before, where both have one, if the first input has one, and at most
-- three clients if the first input names one.
pub validate_input_sequence-valid_iff :
    (xs : List TimedInput) → (validate_input_sequence xs ≡ valid) ↔ IsPlausible xs
unfolding validate_input_sequence
validate_input_sequence-valid_iff [] = (λ _. tt, λ _. refl)
validate_input_sequence-valid_iff (x ∷ xs) = (
  λ e.
      let (a, e1) = (orelse-valid_iff _ _).0 e in
      let (b, e2) = (orelse-valid_iff _ _).0 e1 in
      let (c, e3) = (orelse-valid_iff _ _).0 e2 in
      let (d, e4) = (orelse-valid_iff _ _).0 e3 in
      let (f, g) = (orelse-valid_iff _ _).0 e4 in
      record {
        at_most_5_at_once = (check_windows-valid_iff _ _ _ (x ∷ xs)).0 a;
        ascending = (check_ascending-valid_iff 1 x xs).0 b;
        numbered = (check_sequence-valid_iff x xs).0 c;
        at_most_50_per_second = (check_windows-valid_iff _ _ _ (x ∷ xs)).0 d;
        at_most_10_per_100ms = (check_windows-valid_iff _ _ _ (x ∷ xs)).0 f;
        few_clients = (check_clients-valid_iff x xs).0 g;
      },
  λ p.
      let a = (check_windows-valid_iff (λ t. t) 5 same_timestamp (x ∷ xs)).1 p.at_most_5_at_once in
      let b = (check_ascending-valid_iff 1 x xs).1 p.ascending in
      let c = (check_sequence-valid_iff x xs).1 p.numbered in
      let d =
        (check_windows-valid_iff (λ t. t / 1000) max_inputs_per_second too_many_in_second
            (x ∷ xs)).1
          p.at_most_50_per_second in
      let f =
        (check_windows-valid_iff (λ t. t / 100) max_inputs_per_100ms too_many_in_100ms (x ∷ xs)).1
          p.at_most_10_per_100ms in
      rw (a, b, c, d, f) ((check_clients-valid_iff x xs).1 p.few_clients),
)
