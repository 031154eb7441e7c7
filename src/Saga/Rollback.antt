-- ===== src/Saga/Rollback.antt =====
-- What a saga run has done when it returns and when it throws.
use proof_stell_backend.Common.{
  ℕ, zero, suc, ◌+◌, String, ◌≡◌, refl, ap, ◌∙◌, ◌⊎◌, inl, inr, Option, none, some, List, [], ◌∷◌,
  ◌++◌, arith, length, get_elem?, length-append, Option-cases,
}
use proof_stell_backend.Saga.{
  SagaStep, SagaBuilder, Progress, forward, compensate_at, backward, finish, execute,
}

module _ {ℓ κ} {C : Type ℓ} {E : Type κ} where
  -- All the steps run one after the other, and none throws.
  pub data Ran : List (SagaStep C E) → C → C → Type (ℓ ⊔ κ) where
    done : {c : C} → Ran [] c c
    then :
        {s : SagaStep C E} {rest : List (SagaStep C E)} {c c' d : C}
        → s.execute c ≡ (c', none)
        → Ran rest c' d
        → Ran (s ∷ rest) c d

  -- The compensations of the steps, the last step first; what they throw is dropped.
  abbrev pub unwind : List (SagaStep C E) → C → C
  unwind [] c = c
  unwind (s ∷ rest) c = (s.compensate (unwind rest c)).0

  -- The run stopped at a step: those before it ran, it threw, and those before it were undone.
  pub record Aborted (steps : List (SagaStep C E)) (c d : C) (e : E) : Type (ℓ ⊔ κ) where
    pub before : List (SagaStep C E)
    pub failing : SagaStep C E
    pub after : List (SagaStep C E)
    pub middle : C
    pub broken : C
    pub split : steps ≡ before ++ failing ∷ after
    pub ran : Ran before c middle
    pub threw : failing.execute middle ≡ (broken, some e)
    pub undone : d ≡ unwind before broken

  -- Where the loop of `execute` stopped.
  record Stopped (steps : List (SagaStep C E)) (c : C) (n : ℕ) (p : Progress C E)
      : Type (ℓ ⊔ κ) where
    before : List (SagaStep C E)
    failing : SagaStep C E
    after : List (SagaStep C E)
    middle : C
    error : E
    split : steps ≡ before ++ failing ∷ after
    ran : Ran before c middle
    threw : failing.execute middle ≡ (p.context, some error)
    pushed : length p.executed ≡ n + length before
    reported : p.error ≡ some error

  execute-pair :
      (s : SagaStep C E) (c : C) {t : Option E}
      → (s.execute c).1 ≡ t
      → s.execute c ≡ ((s.execute c).0, t)
  execute-pair s c e = ap (λ t. ((s.execute c).0, t)) e

  Stopped-cons :
      (s : SagaStep C E) (rest : List (SagaStep C E)) (c : C) (names : List String)
      (p : Progress C E)
      → (s.execute c).1 ≡ none
      → Stopped rest (s.execute c).0 (length (names ++ s.name ∷ [])) p
      → Stopped (s ∷ rest) c (length names) p
  Stopped-cons s rest c names p e x = record {
    before = s ∷ x.before;
    failing = x.failing;
    after = x.after;
    middle = x.middle;
    error = x.error;
    split = ap (◌∷◌ s) x.split;
    ran = Ran.then (execute-pair s c e) x.ran;
    threw = x.threw;
    pushed = omega (arith, x.pushed, length-append names (s.name ∷ []));
    reported = x.reported;
  }

  forward-cases :
      (steps : List (SagaStep C E)) (c : C) (names : List String)
      → (Ran steps c (forward steps c names).context × ((forward steps c names).error ≡ none))
        ⊎ Stopped steps c (length names) (forward steps c names)
  unfolding forward
  forward-cases [] c names = inl (Ran.done, refl)
  forward-cases (s ∷ rest) c names = elim (Option-cases (s.execute c).1) [
    | inl e ↦
        rw (e, forward)
          (elim (forward-cases rest (s.execute c).0 (names ++ s.name ∷ [])) [
            | inl (ran, fine) ↦ inl (Ran.then (execute-pair s c e) ran, fine)
            | inr x ↦ inr (Stopped-cons s rest c names _ e x)
          ])
    | inr (err, e) ↦
        rw (e, forward)
          (inr (record {
            before = [];
            failing = s;
            after = rest;
            middle = c;
            error = err;
            split = refl;
            ran = Ran.done;
            threw = execute-pair s c e;
            pushed = omega arith;
            reported = refl;
          }))
  ]

  backward-cons :
      (s : SagaStep C E) (rest : List (SagaStep C E)) (n : ℕ) (c : C)
      → backward (s ∷ rest) (suc n) c ≡ (s.compensate (backward rest n c)).0
  unfolding backward compensate_at
  backward-cons s rest zero c = refl
  backward-cons s rest (suc n) c = backward-cons s rest n (compensate_at (get_elem? rest n) c)

  -- The index loop visits the steps before the failing one, from the last to the first.
  backward-eq-unwind :
      (before after : List (SagaStep C E)) (c : C)
      → backward (before ++ after) (length before) c ≡ unwind before c
  backward-eq-unwind [] after c = unfold backward in refl
  backward-eq-unwind (s ∷ before) after c =
      backward-cons s (before ++ after) (length before) c
      ∙ ap (λ d. (s.compensate d).0) (backward-eq-unwind before after c)

  Stopped-Aborted :
      (steps : List (SagaStep C E)) (c : C) (p : Progress C E)
      → (x : Stopped steps c 0 p)
      → Aborted steps c (finish steps p).0 x.error × ((finish steps p).1 ≡ some x.error)
  unfolding finish
  Stopped-Aborted steps c p x =
      rw (x.reported, finish)
        (
          record {
            before = x.before;
            failing = x.failing;
            after = x.after;
            middle = x.middle;
            broken = p.context;
            split = x.split;
            ran = x.ran;
            threw = x.threw;
            undone =
                ap (λ (n : ℕ). backward steps n p.context) (omega (arith, x.pushed))
                ∙ ap (λ l. backward l (length x.before) p.context) x.split
                ∙ backward-eq-unwind x.before (x.failing ∷ x.after) p.context;
          },
          refl,
        )

  -- A saga run either returns after every step ran in order without throwing, or rethrows the error
  -- of the first step that throws, with exactly the steps before it compensated, the latest first.
  pub execute-cases :
      (b : SagaBuilder C E) (c : C)
      → (Ran b.steps c (execute b c).0 × ((execute b c).1 ≡ none))
        ⊎ ((e : E) × Aborted b.steps c (execute b c).0 e × ((execute b c).1 ≡ some e))
  unfolding execute
  execute-cases b c = elim (forward-cases b.steps c []) [
    | inl (ran, fine) ↦ inl (unfold finish in rw (fine, finish) (ran, refl))
    | inr x ↦
        let (aborted, thrown) = Stopped-Aborted b.steps c (forward b.steps c []) x in
        inr (x.error, aborted, thrown)
  ]
