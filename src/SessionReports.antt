-- ===== src/SessionReports.antt =====
-- game-session/game-session.service.ts: a game session is started with a nonce and reported once, by a
-- saga over a database transaction, the leaderboard and the achievements. The tables that the saga
-- changes are `Database`, which a failed report rolls back; ids, the nonce and the clock come from
-- outside, and so do the HMAC and the achievement service. Metrics are not modelled.
pub mod Steps
pub mod Saga
pub mod Chunks
pub mod Verification
pub mod Locked
mod Tests
use Prim.Native.String.{◌++◌ as append_text}
use proof_stell_backend.Common.{
  ℕ, zero, suc, ◌+◌, String, Bool, true, false, Option, none, some, List, [], ◌∷◌, ◌++◌,
  if◌then◌else◌, ltb, leb, ◌===◌, ◌&&◌, not, map, filter, length, take, drop,
}
use proof_stell_backend.Common.Int.{ℤ}
use proof_stell_backend.Common.Result.{Result, ok, err}
use proof_stell_backend.Common.Sorting.{sort_by}
use proof_stell_backend.Users.{User}

-- The entity GameSession; the metadata is a JSON text
pub record Session : Type 0 where
  pub id : String
  pub user_id : String
  pub challenge_id : String
  pub score : ℕ
  pub duration : ℕ
  pub metadata : Option String
  pub is_suspicious : Bool
  pub suspicion_reason : Option String
  pub nonce : String
  pub nonce_used_at : Option ℕ
  pub is_verified : Bool
  pub created_at : ℕ

-- InputEventDto
pub record Input : Type 0 where
  pub event_type : String
  pub timestamp : ℕ
  pub event_data : String
  pub client_id : Option String

-- A row of the entity InputEvent
pub record InputEvent : Type 0 where
  pub game_session_id : String
  pub input : Input

-- ReportSessionDto
pub record ReportSession : Type 0 where
  pub challenge_id : String
  pub score : ℕ
  pub duration : ℕ
  pub inputs : List Input
  pub metadata : Option String
  pub session_id : String
  pub signature : String

pub record Database : Type 0 where
  pub sessions : List Session
  pub input_events : List InputEvent
  pub users : List User
  pub user_badges : List (String × String)

-- What calculateSessionHash prints after the nonce
pub record HashedData : Type 0 where
  pub challenge_id : String
  pub score : ℕ
  pub duration : ℕ
  pub input_count : ℕ
  pub first_input : ℕ
  pub last_input : ℕ

abbrev pub first_timestamp : List Input → ℕ
first_timestamp [] = 0
first_timestamp (i ∷ _) = i.timestamp

abbrev pub last_timestamp : List Input → ℕ
last_timestamp [] = 0
last_timestamp (i ∷ []) = i.timestamp
last_timestamp (i ∷ j ∷ rest) = last_timestamp (j ∷ rest)

unfoldable pub hashed_data : ReportSession → HashedData
hashed_data q = record {
  challenge_id = q.challenge_id;
  score = q.score;
  duration = q.duration;
  input_count = length q.inputs;
  first_input = first_timestamp q.inputs;
  last_input = last_timestamp q.inputs;
}

-- private calculateSessionHash, with the keyed hash of the nonce and the printed data
unfoldable pub calculate_session_hash :
    (String → HashedData → String) → String → ReportSession → String
calculate_session_hash hmac nonce q = hmac nonce (hashed_data q)

-- The rounds of the loop over i += size, on what is left of the array; the fuel bounds the rounds
unfoldable pub chunk_loop {ℓ} : {A : Type ℓ} → ℕ → ℕ → List A → List (List A)
chunk_loop zero size xs = []
chunk_loop (suc fuel) size [] = []
chunk_loop (suc fuel) size (x ∷ xs) = take size (x ∷ xs) ∷ chunk_loop fuel size (drop size (x ∷ xs))

-- private chunkArray; a positive size takes at most as many rounds as there are elements
unfoldable pub chunk_array {ℓ} : {A : Type ℓ} → List A → ℕ → List (List A)
chunk_array xs size = chunk_loop (length xs) size xs

-- A session that is asked for by its id
unfoldable pub find_session : (Session → Bool) → List Session → Option Session
find_session p [] = none
find_session p (s ∷ rest) = let later = find_session p rest in if p s then some s else later

unfoldable pub save_session : Session → List Session → List Session
save_session s [] = s ∷ []
save_session s (t ∷ rest) =
    let later = save_session s rest in if t.id === s.id then s ∷ rest else t ∷ later

-- async startSession(userId, dto): the new row, and the id and the nonce that are returned
unfoldable pub start_session :
    ℕ → String → String → String → String → Database → Database × (String × String)
start_session now id nonce user challenge db =
    let s : Session = record {
      id = id;
      user_id = user;
      challenge_id = challenge;
      score = 0;
      duration = 0;
      metadata = none;
      is_suspicious = false;
      suspicion_reason = none;
      nonce = nonce;
      nonce_used_at = none;
      is_verified = false;
      created_at = now;
    } in
    (record db { sessions = save_session s db.sessions }, (id, nonce))

-- What the methods that read throw
pub data ReadError : Type 0 where
  forbidden not_found : ReadError

-- async findSessionsByUser(userId, requestingUser, limit, offset): a page, and the number of all
unfoldable pub find_sessions_by_user :
    String → String → String → ℕ → ℕ → Database → Result ReadError (List Session × ℕ)
find_sessions_by_user user asking role limit offset db =
    if not (asking === user) && not (role === "admin")
    then err forbidden
    else let own = filter (λ (s : Session). s.user_id === user) db.sessions in
      ok (
        take limit (drop offset (sort_by (λ (a b : Session). leb b.created_at a.created_at) own)),
        length own,
      )

-- async findSessionById(sessionId)
unfoldable pub find_session_by_id : String → Database → Result ReadError Session
find_session_by_id id db = elim (find_session (λ s. s.id === id) db.sessions) [
  | none ↦ err not_found
  | some s ↦ ok s
]
