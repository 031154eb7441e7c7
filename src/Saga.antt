-- ===== src/Saga.antt =====
-- common/saga/saga.builder.ts: a list of steps, each with a compensation, run in order.
-- `C` is the context object together with everything that the steps touch through it (database,
-- cache, other services); a step may have changed it also when it throws. `E` is what is thrown.
pub mod Rollback
mod Tests
use proof_stell_backend.Common.{
  ℕ, zero, suc, String, Option, none, some, List, [], ◌∷◌, ◌++◌, length, get_elem?,
}

module _ {ℓ κ} (C : Type ℓ) (E : Type κ) where
  -- interface SagaStep; an async function returns the context that it leaves and what it throws
  pub record SagaStep : Type (ℓ ⊔ κ) where
    pub name : String
    pub execute : C → C × Option E
    pub compensate : C → C × Option E

  -- class SagaBuilder
  pub record SagaBuilder : Type (ℓ ⊔ κ) where
    pub steps : List SagaStep

-- What the loop of `execute` leaves: the context, the names pushed on `executed`, the error.
pub record Progress {ℓ κ} (C : Type ℓ) (E : Type κ) : Type (ℓ ⊔ κ) where
  pub context : C
  pub executed : List String
  pub error : Option E

module _ {ℓ κ} {C : Type ℓ} {E : Type κ} where
  unfoldable pub create : SagaBuilder C E
  create = record { steps = [] }

  unfoldable pub step :
      String → (C → C × Option E) → (C → C × Option E) → SagaBuilder C E → SagaBuilder C E
  step name execute compensate b = record {
    steps = b.steps ++ record { name = name; execute = execute; compensate = compensate } ∷ [];
  }

  -- for (const step of this.steps) { await step.execute(ctx); executed.push(step.name) }
  unfoldable pub forward : List (SagaStep C E) → C → List String → Progress C E
  forward [] c names = record { context = c; executed = names; error = none }
  forward (s ∷ rest) c names =
      let (c', thrown) = s.execute c in
      elim thrown [
        | some e ↦ record { context = c'; executed = names; error = some e }
        | none ↦ forward rest c' (names ++ s.name ∷ [])
      ]

  -- this.steps[i].compensate(ctx), with every exception swallowed; past the end of the array
  -- the access itself throws inside the `try`
  unfoldable pub compensate_at : Option (SagaStep C E) → C → C
  compensate_at none c = c
  compensate_at (some s) c = (s.compensate c).0

  -- for (let i = executed.length - 1; i >= 0; i--); the argument is i + 1
  unfoldable pub backward : List (SagaStep C E) → ℕ → C → C
  backward steps zero c = c
  backward steps (suc i) c = backward steps i (compensate_at (get_elem? steps i) c)

  unfoldable pub finish : List (SagaStep C E) → Progress C E → C × Option E
  finish steps p = elim p.error [
    | none ↦ (p.context, none)
    | some e ↦ (backward steps (length p.executed) p.context, some e)
  ]

  -- async execute(ctx)
  unfoldable pub execute : SagaBuilder C E → C → C × Option E
  execute b c = finish b.steps (forward b.steps c [])
