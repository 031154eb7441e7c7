-- ===== src/Cache/Counting.antt =====
-- The statistics of the cache service over any sequence of calls.
use proof_stell_backend.Common.{
  ℕ, ◌+◌, String, ◌≡◌, Bool, true, false, Option, none, List, [], ◌∷◌, arith,
}
use proof_stell_backend.Common.Int.{ℤ}
use proof_stell_backend.Cache.{
  CacheManager, Client, CacheState, Counters, get_stats, get, set, set_then, del, increment,
  set_if_not_exists,
}

module _ {ℓ} {V : Type ℓ} (m : CacheManager V) (client : Option (Client m)) (number : Option V → ℕ)
    (value : ℕ → V) where
  -- A call of the service, with the answers of the manager to its read and its write.
  pub data Call : Type ℓ where
    get_call : Bool → String → Call
    set_call : Bool → String → V → Option ℤ → Call
    del_call : Bool → String → Call
    increment_call : Bool → Bool → String → Option ℤ → Call
    set_if_not_exists_call : Bool → Bool → String → V → Option ℤ → Call

  pub perform : Call → CacheState m → CacheState m
  perform (get_call up k) st = (get m up k st).0
  perform (set_call up k v ttl) st = (set m up k v ttl st).0
  perform (del_call up k) st = (del m up client k st).0
  perform (increment_call r w k ttl) st = (increment m client r w number value k ttl st).0
  perform (set_if_not_exists_call r w k v ttl) st = (set_if_not_exists m client r w k v ttl st).0

  pub perform_all : List Call → CacheState m → CacheState m
  perform_all [] st = st
  perform_all (c ∷ cs) st = perform_all cs (perform c st)

  abbrev one_if : Bool → ℕ
  one_if true = 1
  one_if false = 0

  -- The reads of the manager that a call makes and that are answered: a method that goes through the
  -- Redis client reads nothing.
  pub reads : Option (Client m) → Call → ℕ
  reads _ (get_call up k) = one_if up
  reads none (increment_call r w k ttl) = one_if r
  reads none (set_if_not_exists_call r w k v ttl) = one_if r
  reads _ _ = 0

  pub all_reads : List Call → ℕ
  all_reads [] = 0
  all_reads (c ∷ cs) = reads client c + all_reads cs

  -- What one call adds to the counters.
  record Counted (c : Call) (before after : Counters) : Type 0 where
    total : after.hits + after.misses ≡ before.hits + before.misses + reads client c
    redis_hits : after.redis_hits ≡ before.redis_hits
    redis_misses : after.redis_misses ≡ before.redis_misses
    memory_hits : after.memory_hits ≡ before.memory_hits
    memory_misses : after.memory_misses ≡ before.memory_misses

  perform-Counted : (c : Call) (st : CacheState m) → Counted c st.counters (perform c st).counters
  unfolding perform reads get set del increment set_then set_if_not_exists
  perform-Counted (get_call true k) st = ground arith
  perform-Counted (get_call false k) st = ground arith
  perform-Counted c st = ground arith

  -- Whatever calls are made, in any order and with any failures, hits and misses together grow by
  -- exactly the number of answered reads of the manager, and the four counters per backend never move.
  pub perform_all-total_requests :
      (cs : List Call) (st : CacheState m)
      → ((get_stats (perform_all cs st).counters).total_requests
          ≡ (get_stats st.counters).total_requests + all_reads cs)
        × ((get_stats (perform_all cs st).counters).redis_hits ≡ st.counters.redis_hits)
        × ((get_stats (perform_all cs st).counters).redis_misses ≡ st.counters.redis_misses)
        × ((get_stats (perform_all cs st).counters).memory_hits ≡ st.counters.memory_hits)
        × ((get_stats (perform_all cs st).counters).memory_misses ≡ st.counters.memory_misses)
  unfolding perform_all all_reads get_stats
  perform_all-total_requests [] st = ground arith
  perform_all-total_requests (c ∷ cs) st =
      ground (arith, perform_all-total_requests cs (perform c st), perform-Counted c st)
