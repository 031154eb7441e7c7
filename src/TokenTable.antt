-- ===== src/TokenTable.antt =====
-- Cache entries under the keys of one prefix, each with the time at which it expires.
use proof_stell_backend.Common.{
  ℕ, ◌≤◌, String, Option, none, some, ltb, ◌===◌, if◌then◌else◌, ◌≡◌, arith,
}

pub record Entry {ℓ} (V : Type ℓ) : Type ℓ where
  pub value : V
  pub expires : ℕ

pub record Table {ℓ} (V : Type ℓ) : Type ℓ where
  pub entry : String → Option (Entry V)

module _ {ℓ} {V : Type ℓ} where
  unfoldable pub fresh : ℕ → Option (Entry V) → Option V
  fresh now none = none
  fresh now (some e) = if ltb now e.expires then some e.value else none

  -- cacheService.get(key) at the time `now`
  unfoldable pub read : Table V → String → ℕ → Option V
  read t k now = fresh now (t.entry k)

  -- cacheService.set(key, value, ttl), until the time `expires`
  unfoldable pub write : Table V → String → V → ℕ → Table V
  write t k v expires = record {
    entry = λ j. if k === j then some (record { value = v; expires = expires }) else t.entry j;
  }

  -- cacheService.del(key)
  unfoldable pub remove : Table V → String → Table V
  remove t k = record { entry = λ j. if k === j then none else t.entry j }

  pub read-write :
      (t : Table V) (k j : String) (v : V) (expires now : ℕ)
      → read (write t k v expires) j now
        ≡ (if k === j then if ltb now expires then some v else none else read t j now)
  unfolding read write fresh
  read-write t k j v expires now = ground arith

  pub read-remove :
      (t : Table V) (k j : String) (now : ℕ)
      → read (remove t k) j now ≡ (if k === j then none else read t j now)
  unfolding read remove fresh
  read-remove t k j now = ground arith

  unfoldable pub empty : Table V
  empty = record { entry = λ _. none }

  pub read-empty : (k : String) (now : ℕ) → read empty k now ≡ none
  unfolding read empty fresh
  read-empty k now = ground arith

  -- What is gone stays gone.
  pub read-later :
      (t : Table V) (k : String) (now later : ℕ)
      → now ≤ later
      → read t k now ≡ none
      → read t k later ≡ none
  unfolding read fresh
  read-later t k now later h e = ground arith

  pub read-earlier :
      (t : Table V) (k : String) (now later : ℕ) (v : V)
      → now ≤ later
      → read t k later ≡ some v
      → read t k now ≡ some v
  unfolding read fresh
  read-earlier t k now later v h e = ground arith
