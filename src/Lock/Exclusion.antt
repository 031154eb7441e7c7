-- ===== src/Lock/Exclusion.antt =====
-- Mutual exclusion: while one holder has a key, whatever the others do.
use proof_stell_backend.Common.{
  String, ◌≡◌, ◌≢◌, refl, ◌∙◌, true, false, none, some, ===_iff, ===_refl, ===_of_ne, Option-cases,
  inl, inr, arith, if◌then◌else◌,
}
use proof_stell_backend.Common.Int.{ℤ}
use proof_stell_backend.Common.StringSet.{has, has-add, has-delete}
use proof_stell_backend.Redis.{Link, absent, lost, live, Redis, RedisLaws}
use proof_stell_backend.Lock.{
  LockBackend, redis, fallback, AcquiredLock, LockConfig, LockService, LockState, normalize_ttl,
  acquire_fallback, acquire, release_script, release_redis, release, run_with_lock,
}
use proof_stell_backend.Lock.Ownership.{acquire_held, acquire_free, release_own}

module _ (R : Redis) where
  -- What the rest of the cluster may do to the keyspace while somebody holds `key` with `token`:
  -- any acquire by any instance over any connection, any release of another token, and the expiry
  -- of other keys.
  pub data Rival (key token : String) : R.Store → R.Store → Type 0 where
    acquires :
        (config : LockConfig) (link : Link) (t k : String) (ttl : ℤ) (st : LockState R)
        → Rival key token st.store (acquire R config link t k ttl st).0.store
    releases :
        (link : Link) (lock : AcquiredLock) (st : LockState R)
        → lock.token ≢ token
        → Rival key token st.store (release R link (some lock) st).0.store
    expires : (j : String) (s : R.Store) → j ≢ key → Rival key token s (R.del s j)

  pub data Rivals (key token : String) (s : R.Store) : R.Store → Type 0 where
    none_yet : Rivals key token s s
    and_then : {u v : R.Store} → Rivals key token s u → Rival key token u v → Rivals key token s v

module _ (R : Redis) (L : RedisLaws R) where
  set_nx_keeps :
      (s : R.Store) (k t key token : String) (px : ℤ)
      → R.get s key ≡ some token
      → R.get (R.set_nx s k t px) key ≡ some token
  set_nx_keeps s k t key token px h = elim (Option-cases (R.get s k)) [
    | inl free ↦ ground (arith, L.get-set_nx s k t key px free, ===_iff k key)
    | inr (held, e) ↦ rw (L.set_nx_held s k t held px e) h
  ]

  script_keeps :
      (k t key token : String) (s : R.Store)
      → t ≢ token
      → R.get s key ≡ some token
      → R.get (release_script R k t s).0 key ≡ some token
  unfolding release_script
  script_keeps k t key token s ne h =
      ground (arith, L.get-del s k key, ===_iff k key, ===_iff token t, ===_iff t token)

  Rival-keeps :
      (key token : String) {s u : R.Store}
      → Rival R key token s u
      → R.get s key ≡ some token
      → R.get u key ≡ some token
  unfolding acquire release release_redis
  Rival-keeps key token (Rival.acquires config absent t k ttl st) h = h
  Rival-keeps key token (Rival.acquires config (lost a) t k ttl st) h =
      ground (arith, set_nx_keeps st.store k t key token (normalize_ttl config ttl) h)
  Rival-keeps key token (Rival.acquires config live t k ttl st) h =
      ground (arith, set_nx_keeps st.store k t key token (normalize_ttl config ttl) h)
  Rival-keeps key token (Rival.releases absent lock st ne) h = ground arith
  Rival-keeps key token (Rival.releases (lost a) lock st ne) h =
      ground (arith, script_keeps lock.key lock.token key token st.store ne h)
  Rival-keeps key token (Rival.releases live lock st ne) h =
      ground (arith, script_keeps lock.key lock.token key token st.store ne h)
  Rival-keeps key token (Rival.expires j s ne) h =
      ground (arith, L.get-del s j key, ===_of_ne j key ne)

  Rivals-keep :
      (key token : String) {s u : R.Store}
      → Rivals R key token s u
      → R.get s key ≡ some token
      → R.get u key ≡ some token
  Rivals-keep key token Rivals.none_yet h = h
  Rivals-keep key token (Rivals.and_then rs r) h =
      Rival-keeps key token r (Rivals-keep key token rs h)

  -- A holder keeps its key through every interleaving of other acquires, other releases and the
  -- expiry of other keys, and after it no instance can take the key over a live connection.
  pub Rivals-excluded :
      (key token : String) {s u : R.Store} (config : LockConfig) (t : String) (ttl : ℤ)
      (service : LockService)
      → Rivals R key token s u
      → R.get s key ≡ some token
      → (R.get u key ≡ some token)
        × (acquire R config live t key ttl (record { service = service; store = u })
            ≡ (record { service = service; store = u }, none))
  Rivals-excluded key token {u} config t ttl service rs h =
      let kept = Rivals-keep key token rs h in
      (kept, acquire_held R L config t key token ttl (record { service = service; store = u }) kept)

  -- Without Redis an instance excludes itself: a key is taken exactly if the instance does not have
  -- it yet, the keyspace is not touched, and the release of a lock on the key makes it free again.
  pub fallback_exclusive :
      (config : LockConfig) (token key t : String) (b : LockBackend) (ttl : ℤ) (st : LockState R)
      → ((acquire R config absent token key ttl st).1 ≡ (
          if has st.service.active_locks key
          then none
          else some (record { key = key; token = token; backend = fallback })))
        × (has (acquire R config absent token key ttl st).0.service.active_locks key ≡ true)
        × ((acquire R config absent token key ttl st).0.store ≡ st.store)
        × (has
              (release R absent
                (some (record { key = key; token = t; backend = b }))
                st).0.service.active_locks
              key
            ≡ false)
  unfolding acquire acquire_fallback release release_redis
  fallback_exclusive config token key t b ttl st = (
    ground arith,
    ground (arith, has-add st.service.active_locks key key, ===_refl key),
    ground arith,
    ground (arith, has-delete st.service.active_locks key key, ===_refl key),
  )

  -- When the key is held, `runWithLock` over a live connection does not run the work, returns null
  -- and changes nothing.
  pub run_with_lock_held {ℓ} :
      {A : Type ℓ} (config : LockConfig) (token key held : String) (ttl : ℤ)
      (work : LockState R → LockState R × A) (st : LockState R)
      → R.get st.store key ≡ some held
      → run_with_lock R config live live token key ttl work st ≡ (st, none)
  unfolding run_with_lock
  run_with_lock_held config token key held ttl work st h =
      ground (arith, acquire_held R L config token key held ttl st h)

  -- When the key is free, the work runs in the state that `acquire` leaves, its result is passed on,
  -- and the key is free again afterwards if the work itself leaves the lock in place.
  pub run_with_lock_free {ℓ} :
      {A : Type ℓ} (config : LockConfig) (token key : String) (ttl : ℤ)
      (work : LockState R → LockState R × A) (st : LockState R)
      → R.get st.store key ≡ none
      → ((mid : LockState R)
          → R.get mid.store key ≡ some token
          → R.get (work mid).0.store key ≡ some token)
      → (R.get (run_with_lock R config live live token key ttl work st).0.store key ≡ none)
        × ((run_with_lock R config live live token key ttl work st).1
            ≡ some (work (acquire R config live token key ttl st).0).1)
  unfolding run_with_lock
  run_with_lock_free config token key ttl work st free keeps =
      let got = acquire_free R L config token key ttl st free in
      let mid = (acquire R config live token key ttl st).0 in
      let stored : R.get mid.store key ≡ some token = got.2 key ∙ ground (arith, ===_refl key) in
      let lock : AcquiredLock = record { key = key; token = token; backend = redis } in
      let after = (release_own R L lock (work mid).0 refl (keeps mid stored)).1 key in
      (rw (got.0, run_with_lock) (after ∙ ground (arith, ===_refl key)), rw (got.0, run_with_lock))
