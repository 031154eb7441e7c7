-- ===== src/Cache/Exclusive.antt =====
-- Writes of the cache service without a Redis client: counters and first writes.
use mathlib.Core.Option.{get_or}
use proof_stell_backend.Common.{
  not, is_some, ===_iff, ℕ, zero, suc, ◌+◌, String, ◌≡◌, ap, ◌∙◌, true, Option, none, some, arith,
  if◌then◌else◌, ◌===◌, ===_refl,
}
use proof_stell_backend.Common.Int.{ℤ}
use proof_stell_backend.Cache.{
  CacheManager, CacheLaws, CacheState, returned, get, set, set_then, increment, set_if_not_exists,
}

module _ {ℓ} {V : Type ℓ} (m : CacheManager V) (L : CacheLaws m) where
  -- `setIfNotExists` never overwrites: it answers whether the key had no value, and afterwards the key
  -- has its old value if there was one and the new one otherwise, and every other key is as before.
  pub set_if_not_exists_lem :
      (k j : String) (v : V) (ttl : Option ℤ) (st : CacheState m)
      → ((set_if_not_exists m none true true k v ttl st).1
          ≡ returned (not (is_some (m.get st.store k))))
        × (m.get (set_if_not_exists m none true true k v ttl st).0.store j
            ≡ (if k === j then some (get_or (m.get st.store k) v) else m.get st.store j))
  unfolding set_if_not_exists get set set_then get_or
  set_if_not_exists_lem k j v ttl st =
      (ground arith, ground (arith, L.get-set st.store k j v ttl, ===_iff k j))

  module _ (number : Option V → ℕ) (value : ℕ → V)
      (reads_back : (n : ℕ) → number (some (value n)) ≡ n) where
    pub increments : ℕ → String → Option ℤ → CacheState m → CacheState m
    increments zero k ttl st = st
    increments (suc n) k ttl st =
        increments n k ttl (increment m none true true number value k ttl st).0

    increment_lem :
        (k : String) (ttl : Option ℤ) (st : CacheState m) (j : String)
        → m.get (increment m none true true number value k ttl st).0.store j
          ≡ (if k === j then some (value (number (m.get st.store k) + 1)) else m.get st.store j)
    unfolding increment get set set_then
    increment_lem k ttl st j =
        ground (arith, L.get-set st.store k j (value (number (m.get st.store k) + 1)) ttl)

    -- After n more increments without interference the next one answers the old count plus n + 1.
    pub increments-count :
        (n : ℕ) (k : String) (ttl : Option ℤ) (st : CacheState m)
        → (increment m none true true number value k ttl (increments n k ttl st)).1
          ≡ returned (number (m.get st.store k) + n + 1)
    unfolding increments
    increments-count zero k ttl st = unfold increment get set set_then in ground arith
    increments-count (suc n) k ttl st =
        increments-count n k ttl (increment m none true true number value k ttl st).0
        ∙ ap returned (
            let e = increment_lem k ttl st k in
            ground (arith, e, ===_refl k, reads_back (number (m.get st.store k) + 1)))
