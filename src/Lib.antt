-- ===== src/Lib.antt =====
-- A model of the core services of the Proof Stell backend, and what they guarantee.
--
-- The backend keeps its short-lived shared state in Redis, behind three services. The lock service
-- takes and frees cluster-wide locks, the cache service stores values and retries locks, and the token
-- service keeps the state of refresh token families and revoked tokens as cache entries. The auth
-- service registers users with the user service, counts failed logins in the cache, and lets the token
-- service issue and revoke tokens; guards decide from those tokens and from the user's row who may
-- call a route.
--
-- Reports of game sessions pass through a guard that asks the session checks, which remember
-- submissions in the cache. A report is then worked on by a saga: a list of steps, each with its
-- compensation, that verifies the session, saves its inputs, updates the user and submits the score to
-- the leaderboard under a lock. A second game session service keeps its sessions in memory, follows a
-- table of allowed actions, and would have a finished session validated by the integrity service, which
-- recommends to accept, review or reject it and keeps a log of anomalies. Jobs that run on every
-- instance, such as those of scheduled challenges, take the lock first.
--
-- Which file models which code (paths from the root of the repository):
--
--   Saga           src/common/saga/saga.builder.ts. `SagaBuilder` is a list of steps; `execute` is
--                  the loop `forward` and, after an error, `backward` over what was executed.
--   Redis          The keyspace that the lock service talks to: a parameter, with what is relied on
--                  as `RedisLaws` and a small instance for the examples.
--   Lock           src/cache/distributed-lock.service.ts: acquire, release, runWithLock, the fallback
--                  without Redis, TTLs, statistics and shutdown.
--   Cache          src/cache/cache.service.ts: get, set, del, increment, setIfNotExists, statistics;
--                  Cache/Locking: acquireLock, releaseLock, withLock; Cache/Waiting: waitForValue.
--                  The cache manager and the Redis client are parameters.
--   SessionInputs  src/common/services/session-integrity.service.ts: Timing is validateSessionTiming,
--                  Timing/Unread the same for a duration that reads as no number, Sequence is
--                  validateInputSequence, Replay is detectReplayAttack;
--                  SessionInputs/Guard is src/common/guards/session-integrity.guard.ts.
--   Integrity      src/interfaces/game-sessions/session-integrity.service.ts, the report on a finished
--                  session: validateScore and validateTiming; Integrity/Actions is
--                  validateActionSequence and validateRateLimit, Integrity/Metadata validateMetadata
--                  with isValidIP and isSuspiciousUserAgent, Integrity/Report detectReplay,
--                  verifySignature and createAnomaly, Integrity/Validation validateSession and
--                  generateIntegrityReport, Integrity/Log the queries of the anomaly log. Hashing and
--                  signing are parameters.
--   GameSessions   src/interfaces/game-sessions/game-session.service.ts: recordAction and its checks;
--                  GameSessions/Operations: startSession, pauseSession, resumeSession, abandonSession;
--                  GameSessions/Completing: endSession, which calls the model of validateSession;
--                  GameSessions/Queries: getSession, getUserSessions, getSessionStats;
--                  GameSessions/Calls: the calls that change the service, in
--                  any order.
--   Users          src/users/providers/users.service.ts: the rows and the columns that its queries
--                  select; Users/Service: create, update, changePassword, remove, validateUser,
--                  updateUserStats and the others. The hashing of passwords is a parameter.
--   Auth           src/auth/providers/auth.service.ts: validateUser with the lockout, unlockAccount,
--                  getRemainingLockoutTime; Auth/Registration: register, verifyEmail,
--                  resendVerificationEmail; Auth/Tokens: login, refreshTokens, logout.
--   Guards         src/common/guards (roles, admin, maintenance and auth), src/auth/guards and
--                  src/auth/strategies/jwt.strategy.ts.
--   Idempotency    src/common/services/idempotency.service.ts.
--   Leaderboard    src/leaderboard/Leaderboard.service.ts: submitScore with its lock, transaction and
--                  stored result, the ranks, reading and reset.
--   SessionReports src/game-session/game-session.service.ts: startSession, the signature, the queries;
--                  SessionReports/Steps: the five steps of reportSession and their compensations;
--                  SessionReports/Saga: the saga of them, the transaction and the stored results.
--   ScheduledChallenges
--                  src/scheduled-challenges/services/scheduled-challenge.service.ts: the three jobs
--                  under the lock and the queries; ScheduledChallenges/Difficulty is
--                  dynamic-difficulty.service.ts beside it.
--   TokenTable     Cache entries with expiry times, as the token service uses them.
--   Tokens         src/auth/providers/auth-token.service.ts: generateRefreshToken,
--                  rotateRefreshToken, revokeAllUserRefreshTokens, revokeAccessToken,
--                  verifyAccessToken and their helpers. The JWT library is a parameter.
--   Common         Shared types and lemmas.
--
-- Services are records that the operations take and return. What an operation throws is a value of
-- its result; the clock, random ids, the state of a connection and what happens between two steps are
-- arguments. Times and counts are natural numbers, signed values are integers.
--
-- The database is a list of rows, and a transaction that is rolled back gives the rows that it began
-- with. One call reads the clock once. Lower-casing is that of the letters A to Z. The TTLs of entries
-- are positive.
--
-- Times are milliseconds. `CacheService.set` hands a TTL on as it is to a cache manager that takes
-- milliseconds, so an entry that is written with a TTL in seconds is kept for that many milliseconds;
-- Auth and Tokens keep their entries that long. Only EXPIRE of the client, in `increment`, reads
-- seconds. The JWT library signs with `expiresIn` and reads and writes its times in seconds: a signed
-- token verifies to its claims, with an `exp`, until it expires.
--
-- The guard of session reports casts the raw body: its duration can be any JSON value, of which the
-- model keeps the number it reads as, if any, and its text. Its inputs are an array of objects. Numbers
-- are whole. A read of the cache in `waitForValue` may throw, which ends it.
--
-- Fuel: `poll_from` polls at most `fuel` times; a timeout smaller than the fuel is enough when the
-- clock advances between two polls. `chunk_loop` has one round for each element, which is enough
-- because every round takes one at least. All other loops are structural.
--
-- Not modelled: log lines, Prometheus metrics, the texts of messages, the probe of `ping`, the parsing
-- of durations. The token service is modelled over a cache that does not fail; the session checks are
-- modelled over one that may. The entries of the session checks do not expire in the model, the
-- entries of the token service do. Achievements, notifications and analytics are parameters or
-- recorded calls. Mail, chain and web framework parts of the repository, the pages of the leaderboard,
-- referrals and the audit log are not modelled. Averages of challenge attempts are kept as sums.
pub mod Common
pub mod Cache
pub mod Integrity
pub mod Lock
pub mod Idempotency
pub mod Guards
pub mod Leaderboard
pub mod SessionReports
pub mod ScheduledChallenges
pub mod Redis
pub mod Saga
pub mod GameSessions
pub mod SessionInputs
pub mod TokenTable
pub mod Users
pub mod Auth
pub mod Tokens
