-- ===== src/Idempotency.antt =====
-- common/services/idempotency.service.ts: results stored under a key until a time. `V` is the type of
-- the results of one operation; the rows of another are not in the list.
use Prim.Native.String.{◌++◌ as append_text}
use proof_stell_backend.Common.{
  ℕ, ◌+◌, ◌≤◌, ◌≡◌, String, Option, none, some, List, [], ◌∷◌, if◌then◌else◌, ltb, ◌===◌, arith,
  false, refl,
}
use proof_stell_backend.Common.Dict.{lookup, insert, lookup-insert_self}

-- A row of IdempotencyKey, without its key
pub record StoredResult {ℓ} (V : Type ℓ) : Type ℓ where
  pub result : V
  pub expires_at : ℕ

-- generateKey(operation, identifier)
unfoldable pub generate_key : String → String → String
generate_key operation identifier = append_text operation (append_text ":" identifier)

module _ {ℓ} {V : Type ℓ} where
  -- delete(key)
  unfoldable pub delete : String → List (String × StoredResult V) → List (String × StoredResult V)
  delete key [] = []
  delete key ((k, r) ∷ rows) =
      let rest = delete key rows in if k === key then rest else (k, r) ∷ rest

  -- check(key): the rows that are left, and the result
  unfoldable pub check :
      ℕ → String → List (String × StoredResult V) → List (String × StoredResult V) × Option V
  check now key rows = elim (lookup key rows) [
    | none ↦ (rows, none)
    | some r ↦ if ltb r.expires_at now then (delete key rows, none) else (rows, some r.result)
  ]

  -- store(key, result, ttlMs)
  unfoldable pub store :
      ℕ → ℕ → String → V → List (String × StoredResult V) → List (String × StoredResult V)
  store now ttl key result rows =
      insert key (record { result = result; expires_at = now + ttl }) rows

  -- What was stored is found until its time has passed.
  pub check-store :
      (now later ttl : ℕ) (key : String) (v : V) (rows : List (String × StoredResult V))
      → later ≤ now + ttl
      → check later key (store now ttl key v rows) ≡ (store now ttl key v rows, some v)
  unfolding check store
  check-store now later ttl key v rows early =
      let r : StoredResult V = record { result = v; expires_at = now + ttl } in
      let late : ltb (now + ttl) later ≡ false = ground (arith, early) in
      rw (lookup-insert_self key r rows, check) (rw late refl)
