-- ===== src/Saga/Tests.antt =====
-- Runs of small sagas.
use proof_stell_backend.Common.{◌⊎◌, ℕ, ◌≡◌, refl, none, some, List, [], ◌∷◌}
use proof_stell_backend.Saga.Rollback.{Ran, Aborted, execute-cases}
use proof_stell_backend.Saga.{
  SagaBuilder, create, step, forward, compensate_at, backward, finish, execute,
}

abbrev two_steps : SagaBuilder (List ℕ) ℕ
two_steps =
    step "b" (λ c. (2 ∷ c, none)) (λ c. (20 ∷ c, some 7))
      (step "a" (λ c. (1 ∷ c, none)) (λ c. (10 ∷ c, none)) create)

abbrev three_steps : SagaBuilder (List ℕ) ℕ
three_steps = step "c" (λ c. (3 ∷ c, some 9)) (λ c. (30 ∷ c, none)) two_steps

runs : Unit {0}
unfolding create step forward compensate_at backward finish execute
runs = tt

succeeds : execute two_steps [] ≡ (2 ∷ 1 ∷ [], none)
unfolding runs
succeeds = refl

rolls_back : execute three_steps [] ≡ (10 ∷ 20 ∷ 3 ∷ 2 ∷ 1 ∷ [], some 9)
unfolding runs
rolls_back = refl

execute-cases_example :
    (Ran three_steps.steps [] (execute three_steps []).0 × ((execute three_steps []).1 ≡ none))
    ⊎ ((e : ℕ) × Aborted three_steps.steps [] (execute three_steps []).0 e
        × ((execute three_steps []).1 ≡ some e))
execute-cases_example = execute-cases three_steps []
