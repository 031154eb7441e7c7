-- ===== src/Cache/Waiting.antt =====
-- cache/cache.service.ts, waitForValue: polling a key until a deadline. The clock and what each
-- read of the key answers come from outside, by the number of the poll.
use native.Mathlib.Decide.{dec_lt}
use proof_stell_backend.Common.{
  ◌⊎◌, ℕ, zero, suc, ◌+◌, ◌-◌, ◌≤◌, ◌<◌, ◌≡◌, refl, Bool, true, false, arith, ltb, inl, inr,
  Bool-cases, if◌then◌else◌,
}

-- What a read of the key comes to: an error of the cache manager, which `get` rethrows, no value, or
-- a value
pub data Read (V : Type 0) : Type 0 where
  failed : Read V
  missing : Read V
  value : V → Read V

pub record Polls (V : Type 0) : Type 0 where
  pub now : ℕ → ℕ
  pub seen : ℕ → Read V

pub data Waited (V : Type 0) : Type 0 where
  found : V → ℕ → Waited V
  threw : ℕ → Waited V
  timed_out : ℕ → Waited V
  out_of_fuel : Waited V

module _ {V : Type 0} (p : Polls V) (accepts : V → Bool) (deadline : ℕ) where
  -- The read ends the loop.
  abbrev stops : Read V → Bool
  stops failed = true
  stops missing = false
  stops (value v) = accepts v

  abbrev answer : Read V → ℕ → Waited V → Waited V
  answer failed attempts rest = threw attempts
  answer missing attempts rest = rest
  answer (value v) attempts rest = if accepts v then found v attempts else rest

  -- while (Date.now() < deadline) { … }, before the poll number `i`
  unfoldable pub poll_from : ℕ → ℕ → Waited V
  poll_from zero i = out_of_fuel
  poll_from (suc fuel) i =
      let rest = poll_from fuel (suc i) in
      if ltb (p.now i) deadline then answer (p.seen i) (suc i) rest else timed_out i

-- async waitForValue(key, timeoutMs, intervalMs, predicate), started at the time `start`
unfoldable pub wait_for_value : {V : Type 0} → Polls V → (V → Bool) → ℕ → ℕ → ℕ → Waited V
wait_for_value p accepts start timeout fuel = poll_from p accepts (start + timeout) fuel 0

Read-cases : {V : Type 0} (r : Read V) → (r ≡ failed) ⊎ ((r ≡ missing) ⊎ ((v : V) × (r ≡ value v)))
Read-cases failed = inl refl
Read-cases missing = inr (inl refl)
Read-cases (value v) = inr (inr (v, refl))

module _ {V : Type 0} (p : Polls V) (accepts : V → Bool) (deadline : ℕ) where
  -- The polls from the number `i` up to `j` came in time, and saw no acceptable value and no error.
  abbrev pub Waiting : ℕ → ℕ → Type 0
  Waiting i j =
      (k : ℕ) → i ≤ k → k < j → (p.now k < deadline) × (stops p accepts deadline (p.seen k) ≡ false)

  -- The first acceptable value or the first error before the deadline, or the first poll at or after it.
  abbrev pub Ends : ℕ → Waited V → Type 0
  Ends i (found v n) =
      (j : ℕ) × (n ≡ suc j)
      × (i ≤ j)
      × (p.now j < deadline)
      × (p.seen j ≡ value v)
      × (accepts v ≡ true)
      × Waiting i j
  Ends i (threw n) =
      (j : ℕ) × (n ≡ suc j) × (i ≤ j) × (p.now j < deadline) × (p.seen j ≡ failed) × Waiting i j
  Ends i (timed_out j) = (i ≤ j) × (deadline ≤ p.now j) × Waiting i j
  Ends i out_of_fuel = ⊥

  Waiting-before :
      (i j : ℕ)
      → p.now i < deadline
      → stops p accepts deadline (p.seen i) ≡ false
      → Waiting (suc i) j
      → Waiting i j
  Waiting-before i j early no_value w k low high = elim (dec_lt i k) [
    | yes later ↦ w k later high
    | no same ↦ let e : k ≡ i = omega arith in (rw e early, rw e no_value)
  ]

  Ends-before :
      (i : ℕ) (r : Waited V)
      → p.now i < deadline
      → stops p accepts deadline (p.seen i) ≡ false
      → Ends (suc i) r
      → Ends i r
  Ends-before i (found v n) early no_value (j, e, low, t, s, a, w) =
      (j, e, omega arith, t, s, a, Waiting-before i j early no_value w)
  Ends-before i (threw n) early no_value (j, e, low, t, s, w) =
      (j, e, omega arith, t, s, Waiting-before i j early no_value w)
  Ends-before i (timed_out j) early no_value (low, t, w) =
      (omega arith, t, Waiting-before i j early no_value w)
  Ends-before i out_of_fuel early no_value h = h

  poll_from-Ends :
      ((k : ℕ) → p.now k < p.now (suc k))
      → (fuel i : ℕ) → deadline - p.now i < fuel
      → Ends i (poll_from p accepts deadline fuel i)
  unfolding poll_from
  poll_from-Ends ticks zero i enough = absurd (omega arith)
  poll_from-Ends ticks (suc fuel) i enough = elim (Bool-cases (ltb (p.now i) deadline)) [
    | inr late ↦ rw (late, poll_from) (omega arith, ground arith, λ k a b. absurd (omega arith))
    | inl early ↦
        rw (early, poll_from)
          (let rest = poll_from-Ends ticks fuel (suc i) (ground (arith, ticks i)) in
            let in_time : p.now i < deadline = ground arith in
            elim (Read-cases (p.seen i)) [
              | inl e ↦ rw e (i, refl, omega arith, in_time, e, λ k a b. absurd (omega arith))
              | inr (inl e) ↦ rw e (Ends-before i _ in_time (rw e refl) rest)
              | inr (inr (v, e)) ↦ elim (Bool-cases (accepts v)) [
                | inl yes_v ↦
                    rw (e, yes_v)
                      (i, refl, omega arith, in_time, e, yes_v, λ k a b. absurd (omega arith))
                | inr no_v ↦ rw (e, no_v) (Ends-before i _ in_time (rw (e, no_v)) rest)
              ]
            ])
  ]

-- If the clock advances between two polls, `waitForValue` ends after at most timeout + 1 polls: with
-- the first acceptable value that a poll before the deadline sees, with the error of a read that fails
-- before that, or with nothing at the first poll at or after the deadline.
pub wait_for_value-Ends :
    {V : Type 0} (p : Polls V) (accepts : V → Bool) (start timeout fuel : ℕ)
    → ((k : ℕ) → p.now k < p.now (suc k))
    → start ≤ p.now 0
    → timeout < fuel
    → Ends p accepts (start + timeout) 0 (wait_for_value p accepts start timeout fuel)
unfolding wait_for_value
wait_for_value-Ends p accepts start timeout fuel ticks begins enough =
    poll_from-Ends p accepts (start + timeout) ticks fuel 0 (omega arith)
