-- ===== src/Lock/Ownership.antt =====
-- Who holds a lock: the laws of acquire and release on a keyspace that obeys Redis.
use proof_stell_backend.Common.{
  String, ◌≡◌, ◌≢◌, ap, ◌∙◌, true, none, some, ◌===◌, ===_refl, ===_of_ne, Option-cases, inl, inr,
  arith, if◌then◌else◌,
}
use proof_stell_backend.Common.Int.{ℤ}
use proof_stell_backend.Common.StringSet.{has, has-add}
use proof_stell_backend.Redis.{live, Redis, RedisLaws}
use proof_stell_backend.Lock.{
  redis, AcquiredLock, LockConfig, LockState, normalize_ttl, acquire, release_script, release_redis,
  release,
}

module _ (R : Redis) (L : RedisLaws R) where
  -- Over a live connection, a key that somebody holds is refused and nothing changes.
  pub acquire_held :
      (config : LockConfig) (token key held : String) (ttl : ℤ) (st : LockState R)
      → R.get st.store key ≡ some held
      → acquire R config live token key ttl st ≡ (st, none)
  unfolding acquire
  acquire_held config token key held ttl st h = ground (
    arith,
    L.set_nx_ok_lem st.store key token (normalize_ttl config ttl),
    L.set_nx_held st.store key token held (normalize_ttl config ttl) h,
  )

  -- Over a live connection, a free key is taken: the handle carries the token that Redis now stores,
  -- the key is recorded locally, and every other key is as it was.
  pub acquire_free :
      (config : LockConfig) (token key : String) (ttl : ℤ) (st : LockState R)
      → R.get st.store key ≡ none
      → ((acquire R config live token key ttl st).1
          ≡ some (record { key = key; token = token; backend = redis }))
        × (has (acquire R config live token key ttl st).0.service.active_locks key ≡ true)
        × ((j : String)
            → R.get (acquire R config live token key ttl st).0.store j
              ≡ (if key === j then some token else R.get st.store j))
  unfolding acquire
  acquire_free config token key ttl st h =
      let px = normalize_ttl config ttl in
      let fine : R.set_nx_ok st.store key token px ≡ true =
        L.set_nx_ok_lem st.store key token px ∙ ground arith in
      let stored = λ (j : String). L.get-set_nx st.store key token j px h in
      (
        ground arith,
        ground (arith, has-add st.service.active_locks key key, ===_refl key),
        λ j. ground (arith, stored j),
      )

  -- The Lua script deletes the key exactly when it holds the caller's token.
  release_script_lem :
      (key token : String) (s : R.Store)
      → ((R.get s key ≡ some token) → release_script R key token s ≡ (R.del s key, 1))
        × ((R.get s key ≢ some token) → release_script R key token s ≡ (s, 0))
  unfolding release_script
  release_script_lem key token s = (
    λ h. ground (arith, L.del_reply_lem s key, ===_refl token),
    λ h. elim (Option-cases (R.get s key)) [
      | inl e ↦ rw (e, release_script)
      | inr (held, e) ↦ rw (e, release_script) (rw (===_of_ne held token (λ p. h (e ∙ ap some p))))
    ],
  )

  -- Releasing a lock that this caller still holds in Redis frees the key and no other, and says so.
  pub release_own :
      (lock : AcquiredLock) (st : LockState R)
      → lock.backend ≡ redis
      → R.get st.store lock.key ≡ some lock.token
      → ((release R live (some lock) st).1 ≡ true)
        × ((j : String)
            → R.get (release R live (some lock) st).0.store j
              ≡ (if lock.key === j then none else R.get st.store j))
  unfolding release release_redis
  release_own lock st b h = (
    ground (arith, (release_script_lem lock.key lock.token st.store).0 h),
    λ j. ground (
      arith,
      (release_script_lem lock.key lock.token st.store).0 h,
      L.get-del st.store lock.key j,
    ),
  )
