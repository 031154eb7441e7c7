-- ===== src/Cache/Locking/Nested.antt =====
-- withLock of cache/cache.service.ts on a key that is held, by another instance or by the caller.
use mathlib.Core.Path.{subst}
use proof_stell_backend.Common.{
  ℕ, zero, suc, ◌+◌, ◌*◌, String, ◌≡◌, refl, ap, sym, ◌∙◌, ◌⊎◌, true, none, some, arith, inl, inr,
  Option-cases, ===_refl,
}
use proof_stell_backend.Common.Int.{ℤ}
use proof_stell_backend.Common.StringSet.{has}
use proof_stell_backend.Redis.{Link, absent, lost, live, Redis, RedisLaws}
use proof_stell_backend.Lock.{
  AcquiredLock, LockConfig, LockState, acquire, acquire_fallback, normalize_ttl,
}
use proof_stell_backend.Lock.Ownership.{acquire_held, acquire_free}
use proof_stell_backend.Cache.Locking.{
  Surroundings, Attempts, try, attempt_from, acquire_lock, with_lock,
}

-- Either the lock was not obtained, or the work ran, and its result is returned.
pub with_lock-cases {ℓ} :
    (R : Redis) {A : Type ℓ} (config : LockConfig) (w : Surroundings R) (link : Link) (key : String)
    (ttl : ℤ) (callback : LockState R → LockState R × A) (st : LockState R)
    → ((with_lock R config w link key ttl callback st).1 ≡ none)
      ⊎ ((mid : LockState R) × ((with_lock R config w link key ttl callback st).1
            ≡ some (callback mid).1))
unfolding with_lock
with_lock-cases R config w link key ttl callback st =
    let a = acquire_lock R config w key ttl 3 st in
    elim (Option-cases a.lock) [
      | inl e ↦ inl (rw (e, with_lock) refl)
      | inr (lock, e) ↦ inr (a.state, rw (e, with_lock) refl)
    ]

module _ (R : Redis) (L : RedisLaws R) where
  -- The key is taken: this instance has it among its locks, and Redis holds it.
  abbrev pub IsTaken : String → LockState R → Type 0
  IsTaken key st =
      (has st.service.active_locks key ≡ true)
      × ((token : String) × (R.get st.store key ≡ some token))

  -- No link lets the instance take a key that is taken.
  acquire-IsTaken :
      (config : LockConfig) (link : Link) (token key : String) (ttl : ℤ) (st : LockState R)
      → IsTaken key st
      → ((acquire R config link token key ttl st).1 ≡ none)
        × IsTaken key (acquire R config link token key ttl st).0
  unfolding acquire acquire_fallback
  acquire-IsTaken config absent token key ttl st (mine, (t, held)) =
      rw mine (refl, (mine, (t, held)))
  acquire-IsTaken config (lost applied) token key ttl st (mine, (t, held)) = rw mine (
    refl,
    (
      mine,
      (t, ground (arith, L.set_nx_held st.store key token t (normalize_ttl config ttl) held, held)),
    ),
  )
  acquire-IsTaken config live token key ttl st (mine, (t, held)) =
      rw (acquire_held R L config token key t ttl st held) (refl, (mine, (t, held)))

  live-takes :
      (config : LockConfig) (token key : String) (ttl : ℤ) (st : LockState R) (lock : AcquiredLock)
      → (acquire R config live token key ttl st).1 ≡ some lock
      → IsTaken key (acquire R config live token key ttl st).0
  live-takes config token key ttl st lock got = elim (Option-cases (R.get st.store key)) [
    | inr (held, e) ↦
        let refused = ap (λ r. r.1) (acquire_held R L config token key held ttl st e) in
        absurd (ground (arith, refused, got))
    | inl free ↦
        let (_, mine, stored) = acquire_free R L config token key ttl st free in
        (mine, (token, stored key ∙ (rw (===_refl key) refl)))
  ]

  acquire-takes :
      (config : LockConfig) (link : Link) (token key : String) (ttl : ℤ) (st : LockState R)
      (lock : AcquiredLock)
      → link ≡ live
      → (acquire R config link token key ttl st).1 ≡ some lock
      → IsTaken key (acquire R config link token key ttl st).0
  acquire-takes config link token key ttl st lock online =
      subst
        (λ (l : Link).
          (acquire R config l token key ttl st).1 ≡ some lock
          → IsTaken key (acquire R config l token key ttl st).0)
        (sym online) (live-takes config token key ttl st lock)

  module _ (config : LockConfig) (w : Surroundings R) (key : String) (ttl : ℤ)
      (kept : (i : ℕ) (s : LockState R) → IsTaken key s → IsTaken key (w.meanwhile i s)) where
    attempt_from-taken :
        (left attempt waited : ℕ) (st : LockState R)
        → IsTaken key st
        → (attempt_from R config w key ttl left attempt waited st).lock ≡ none
    unfolding attempt_from try
    attempt_from-taken zero attempt waited st taken =
        (acquire-IsTaken config (w.link attempt) (w.token attempt) key ttl st taken).0
    attempt_from-taken (suc left) attempt waited st taken =
        let (refused, still) =
          acquire-IsTaken config (w.link attempt) (w.token attempt) key ttl st taken in
        rw (refused, attempt_from)
          (attempt_from-taken left (suc attempt) (waited + 50 * (attempt + 1))
            (w.meanwhile attempt (acquire R config (w.link attempt) (w.token attempt) key ttl st).0)
            (kept attempt _ still))

    -- While a key stays taken, `withLock` on it gives up, whatever the state of the connection is, and
    -- the work does not run.
    pub with_lock-taken {ℓ} :
        {A : Type ℓ} (link : Link) (callback : LockState R → LockState R × A) (st : LockState R)
        → IsTaken key st
        → (with_lock R config w link key ttl callback st).1 ≡ none
    unfolding with_lock acquire_lock
    with_lock-taken link callback st taken =
        rw (attempt_from-taken 3 0 0 st taken, with_lock, acquire_lock) refl

  -- A lock that was obtained over a live connection is taken.
  pub attempt_from-takes :
      (config : LockConfig) (w : Surroundings R) (key : String) (ttl : ℤ)
      → ((i : ℕ) → w.link i ≡ live)
      → (left attempt waited : ℕ) (st : LockState R) (lock : AcquiredLock)
      → (attempt_from R config w key ttl left attempt waited st).lock ≡ some lock
      → IsTaken key (attempt_from R config w key ttl left attempt waited st).state
  unfolding attempt_from try
  attempt_from-takes config w key ttl online zero attempt waited st lock got =
      acquire-takes config (w.link attempt) (w.token attempt) key ttl st lock (online attempt) got
  attempt_from-takes config w key ttl online (suc left) attempt waited st lock got =
      let r = acquire R config (w.link attempt) (w.token attempt) key ttl st in
      elim (Option-cases r.1) [
        | inr (l, e) ↦
            rw (e, attempt_from)
              (acquire-takes config (w.link attempt) (w.token attempt) key ttl st l (online attempt)
                e)
        | inl e ↦
            let next =
              attempt_from R config w key ttl left (suc attempt) (waited + 50 * (attempt + 1))
                (w.meanwhile attempt r.0) in
            let step : attempt_from R config w key ttl (suc left) attempt waited st ≡ next =
              rw (e, attempt_from) refl in
            subst (λ (a : Attempts R). IsTaken key a.state) (sym step)
              (attempt_from-takes config w key ttl online left (suc attempt)
                (waited + 50 * (attempt + 1)) (w.meanwhile attempt r.0) lock
                (ap (λ (a : Attempts R). a.lock) (sym step) ∙ got))
      ]
