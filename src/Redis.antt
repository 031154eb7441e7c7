-- ===== src/Redis.antt =====
-- The Redis commands that src/cache uses through its client, with their documented behaviour.
-- Redis is a server outside this repository: the commands are operations on an abstract keyspace.
-- A key that Redis drops when its TTL elapses is a `del` that no client of this model sent.
use proof_stell_backend.Common.{
  ℕ, String, ◌≡◌, refl, Bool, true, false, Option, none, some, ◌===◌, if◌then◌else◌, is_some,
}
use proof_stell_backend.Common.Int.{ℤ}

-- One client connection at the moment of a call. `lost applied` is a call that throws: the server
-- may have carried the command out before the connection failed, or not.
pub data Link : Type 0 where
  absent : Link
  lost : Bool → Link
  live : Link

pub record Redis : Type 1 where
  pub Store : Type 0
  -- GET key
  pub get : Store → String → Option String
  -- SET key value NX PX ttl: the new keyspace, and whether the reply is OK
  pub set_nx : Store → String → String → ℤ → Store
  pub set_nx_ok : Store → String → String → ℤ → Bool
  -- DEL key: the new keyspace; the reply is the number of removed keys
  pub del : Store → String → Store
  pub del_reply : Store → String → ℕ

-- What the code relies on.
pub record RedisLaws (r : Redis) : Type 0 where
  pub set_nx_ok_lem :
      (s : r.Store) (k t : String) (px : ℤ)
      → r.set_nx_ok s k t px ≡ (if is_some (r.get s k) then false else true)
  pub set_nx_held :
      (s : r.Store) (k t t' : String) (px : ℤ) → r.get s k ≡ some t' → r.set_nx s k t px ≡ s
  pub get-set_nx :
      (s : r.Store) (k t j : String) (px : ℤ)
      → r.get s k ≡ none
      → r.get (r.set_nx s k t px) j ≡ (if k === j then some t else r.get s j)
  pub get-del :
      (s : r.Store) (k j : String) → r.get (r.del s k) j ≡ (if k === j then none else r.get s j)
  pub del_reply_lem :
      (s : r.Store) (k : String) → r.del_reply s k ≡ (if is_some (r.get s k) then 1 else 0)

-- A keyspace as a function: the behaviour can be met.
abbrev pub memory_redis : Redis
memory_redis = record {
  Store = String → Option String;
  get = λ s k. s k;
  set_nx = λ s k t px j. if is_some (s k) then s j else if k === j then some t else s j;
  set_nx_ok = λ s k t px. if is_some (s k) then false else true;
  del = λ s k j. if k === j then none else s j;
  del_reply = λ s k. if is_some (s k) then 1 else 0;
}

pub memory_redis-RedisLaws : RedisLaws memory_redis
memory_redis-RedisLaws = record {
  set_nx_ok_lem = λ s k t px. refl;
  set_nx_held = λ s k t t' px e i j.
      (let h : (if is_some (s k) then s j else if k === j then some t else s j) ≡ s j = rw e in h)
        i;
  get-set_nx = λ s k t j px e. rw e;
  get-del = λ s k j. refl;
  del_reply_lem = λ s k. refl;
}
