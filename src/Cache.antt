-- ===== src/Cache.antt =====
-- cache/cache.service.ts: typed access to the cache manager, with statistics. The histograms and
-- log lines are left out; the lock methods are in `Cache/Locking`.
pub mod Locking
pub mod Counting
pub mod Exclusive
pub mod Waiting
mod Tests
use proof_stell_backend.Common.{
  ℕ, zero, suc, ◌+◌, ◌*◌, String, Bool, true, false, Option, none, some, List, [], ◌∷◌, ◌==◌, ltb,
  ◌&&◌, if◌then◌else◌, ◌≡◌, ◌===◌,
}
use proof_stell_backend.Common.Int.{ℤ, pos, negsuc, ltb_ℤ}

-- The cache manager, a library: a store of values under text keys. `none` stands for the `undefined`
-- or `null` of a missing or expired key. The TTL is passed on as the code passes it.
pub record CacheManager {ℓ} (V : Type ℓ) : Type (ℓ ⊔ 1) where
  pub Store : Type 0
  pub get : Store → String → Option V
  pub set : Store → String → V → Option ℤ → Store
  pub del : Store → String → Store

-- What the code relies on, for reads before the TTL elapses.
pub record CacheLaws {ℓ} {V : Type ℓ} (m : CacheManager V) : Type ℓ where
  pub get-set :
      (s : m.Store) (k j : String) (v : V) (ttl : Option ℤ)
      → m.get (m.set s k v ttl) j ≡ (if k === j then some v else m.get s j)
  pub get-del :
      (s : m.Store) (k j : String) → m.get (m.del s k) j ≡ (if k === j then none else m.get s j)

-- enum CacheBackend
pub data CacheBackend : Type 0 where
  redis memory unknown : CacheBackend

-- The counters of CacheService.
pub record Counters : Type 0 where
  pub hits : ℕ
  pub misses : ℕ
  pub redis_hits : ℕ
  pub redis_misses : ℕ
  pub memory_hits : ℕ
  pub memory_misses : ℕ
  pub lock_failures : ℕ
  pub key_collisions : ℕ
  pub backend : CacheBackend

-- A call returns or rejects.
pub data Reply {ℓ} (A : Type ℓ) : Type ℓ where
  returned : A → Reply A
  threw : Reply A

-- The fields' initial values, and detectBackend()
pub new_counters : Bool → Counters
new_counters has_client = record {
  hits = 0;
  misses = 0;
  redis_hits = 0;
  redis_misses = 0;
  memory_hits = 0;
  memory_misses = 0;
  lock_failures = 0;
  key_collisions = 0;
  backend = if has_client then redis else memory;
}

-- resetStats()
pub reset_stats : Counters → Counters
reset_stats c = record c {
  hits = 0;
  misses = 0;
  redis_hits = 0;
  redis_misses = 0;
  memory_hits = 0;
  memory_misses = 0;
  lock_failures = 0;
  key_collisions = 0;
}

-- private trackBackendHit
pub track_backend_hit : Counters → Bool → Counters
track_backend_hit c is_hit = elim c.backend [
  | redis ↦
      if is_hit
      then record c { redis_hits = c.redis_hits + 1 }
      else record c { redis_misses = c.redis_misses + 1 }
  | _ ↦
      if is_hit
      then record c { memory_hits = c.memory_hits + 1 }
      else record c { memory_misses = c.memory_misses + 1 }
]

abbrev pub max_ttl : ℕ
max_ttl = 365 * 24 * 60 * 60

-- private normalizeTtl, on whole seconds
pub normalize_ttl : Option ℤ → Option ℤ
normalize_ttl none = none
normalize_ttl (some ttl) =
    if ltb_ℤ ttl (pos 0)
    then none
    else if ltb_ℤ ttl (pos 1)
    then none
    else if ltb_ℤ (pos max_ttl) ttl
    then some (pos max_ttl)
    else some ttl

-- interface CacheStats; the hit rate is the fraction `hits / total`, or 0 / 1
pub record CacheStats : Type 0 where
  pub hits : ℕ
  pub misses : ℕ
  pub hit_rate : ℕ × ℕ
  pub total_requests : ℕ
  pub backend : CacheBackend
  pub redis_hits : ℕ
  pub redis_misses : ℕ
  pub memory_hits : ℕ
  pub memory_misses : ℕ
  pub lock_failures : ℕ
  pub key_collisions : ℕ

-- getStats()
pub get_stats : Counters → CacheStats
get_stats c =
    let total = c.hits + c.misses in
    record {
      hits = c.hits;
      misses = c.misses;
      hit_rate = if ltb 0 total then (c.hits, total) else (0, 1);
      total_requests = total;
      backend = c.backend;
      redis_hits = c.redis_hits;
      redis_misses = c.redis_misses;
      memory_hits = c.memory_hits;
      memory_misses = c.memory_misses;
      lock_failures = c.lock_failures;
      key_collisions = c.key_collisions;
    }

-- The Redis client beneath the manager, where the store has one. `incr`, `expire` and `set … NX` act
-- on the server's keyspace, which is a part of the manager's store.
pub record Client {ℓ} {V : Type ℓ} (m : CacheManager V) : Type ℓ where
  pub incr : m.Store → String → m.Store × ℕ
  pub expire : m.Store → String → ℤ → m.Store
  pub set_nx : m.Store → String → V → Option ℤ → m.Store × Bool
  pub del : m.Store → String → m.Store

-- `ttl && …`: zero counts as no TTL
pub given : Option ℤ → Bool
given none = false
given (some (pos zero)) = false
given (some _) = true

module _ {ℓ} {V : Type ℓ} (m : CacheManager V) where
  pub record CacheState : Type 0 where
    pub counters : Counters
    pub store : m.Store

  -- async get(key): `up` is false when the manager rejects
  pub get : Bool → String → CacheState → CacheState × Reply (Option V)
  get false key st = (st, threw)
  get true key st = elim (m.get st.store key) [
    | some v ↦ (
      record st { counters = record st.counters { hits = st.counters.hits + 1 } },
      returned (some v),
    )
    | none ↦ (
      record st { counters = record st.counters { misses = st.counters.misses + 1 } },
      returned none,
    )
  ]

  -- async set(key, value, ttl): the TTL is passed on as it is
  pub set : Bool → String → V → Option ℤ → CacheState → CacheState × Reply (Unit {0})
  set false key v ttl st = (st, threw)
  set true key v ttl st = (record st { store = m.set st.store key v ttl }, returned tt)

  -- async del(key): the manager's entry, and the client's if there is one
  pub del : Bool → Option (Client m) → String → CacheState → CacheState × Reply (Unit {0})
  del false client key st = (st, threw)
  del true none key st = (record st { store = m.del st.store key }, returned tt)
  del true (some c) key st = (record st { store = c.del (m.del st.store key) key }, returned tt)

  -- if (value === 1 && ttl && redisClient.expire) await redisClient.expire(key, ttl)
  pub first_expiry : Client m → m.Store → String → ℕ → Option ℤ → m.Store
  first_expiry c s key n none = s
  first_expiry c s key n (some t) = if n == 1 && given (some t) then c.expire s key t else s

  -- `this.set(key, value, ttl)` as the last step of a method that answers `result`
  pub set_then {κ} :
      {A : Type κ} → Bool → String → V → Option ℤ → A → CacheState → CacheState × Reply A
  set_then up key v ttl result st =
      let (st', done) = set up key v ttl st in
      elim done [ returned _ ↦ (st', returned result) | threw ↦ (st', threw) ]

  -- async increment(key, ttl): `number` reads a cached value as a number (`|| 0`), and `value` is
  -- how a number is cached; the two flags say whether the manager answers the read and the write
  pub increment :
      Option (Client m)
      → Bool
      → Bool
      → (Option V → ℕ)
      → (ℕ → V)
      → String
      → Option ℤ
      → CacheState
      → CacheState × Reply ℕ
  increment (some c) read_up write_up number value key ttl st =
      let (s, n) = c.incr st.store key in
      (record st { store = first_expiry c s key n ttl }, returned n)
  increment none read_up write_up number value key ttl st =
      let (st', found) = get read_up key st in
      elim found [
        | threw ↦ (st', threw)
        | returned v ↦ set_then write_up key (value (number v + 1)) ttl (number v + 1) st'
      ]

  -- async setIfNotExists(key, value, ttl)
  pub set_if_not_exists :
      Option (Client m) → Bool → Bool → String → V → Option ℤ → CacheState → CacheState × Reply Bool
  set_if_not_exists (some c) read_up write_up key v ttl st =
      let (s, ok) = c.set_nx st.store key v (if given ttl then ttl else none) in
      (record st { store = s }, returned ok)
  set_if_not_exists none read_up write_up key v ttl st =
      let (st', found) = get read_up key st in
      elim found [
        | threw ↦ (st', threw)
        | returned none ↦ set_then write_up key v ttl true st'
        | returned (some _) ↦ (st', returned false)
      ]
