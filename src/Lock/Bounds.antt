-- ===== src/Lock/Bounds.antt =====
-- The TTL that a lock is given.
use proof_stell_backend.Common.{ℕ, ◌≡◌, arith, min, max}
use proof_stell_backend.Common.Int.{pos, negsuc}
use proof_stell_backend.Lock.{LockConfig, normalize_ttl}

-- A TTL of n ms that is not negative becomes n clamped to 100 ms .. 1 h; a negative one becomes the
-- configured default, as it is.
pub normalize_ttl-clamp :
    (config : LockConfig) (n : ℕ)
    → (normalize_ttl config (pos n) ≡ pos (max 100 (min n 3600000)))
      × (normalize_ttl config (negsuc n) ≡ config.cron_lock_ttl_ms)
unfolding normalize_ttl
normalize_ttl-clamp config n = (ground arith, ground arith)
