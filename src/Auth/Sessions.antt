-- ===== src/Auth/Sessions.antt =====
-- The session operations of src/auth/session_auth_service.cpp. `now` is a reading of the steady
-- clock, `wall` one of the system clock.
use red_culture_service.Common.{
  ℕ, ◌+◌, String, Bool, true, false, ◌||◌, List, [], ◌∷◌, Option, none, some, ℕ_discrete, str_dec,
  ltb, leb, if◌then◌else◌, length, inc_u64,
}
use red_culture_service.Common.Map.{lookup, insert, erase, keys}
use red_culture_service.Auth.Types.{AuthConfig, TokenClaims, Session, SessionAuthService}

unfoldable pub initial : AuthConfig → SessionAuthService
initial config = record {
  config = config;
  next_session_id = 1;
  sessions = [];
  player_sessions = [];
}

abbrev pub refreshed : Session → TokenClaims → ℕ → ℕ → Session
refreshed session claims connection_id now = record session {
  account = claims.account;
  connection_id = connection_id;
  last_seen_at = now;
  token_expires_at = claims.expires_at;
}

abbrev pub new_session : ℕ → TokenClaims → ℕ → ℕ → Session
new_session id claims connection_id now = record {
  id = id;
  player_id = claims.player_id;
  account = claims.account;
  connection_id = connection_id;
  created_at = now;
  last_seen_at = now;
  token_expires_at = claims.expires_at;
}

-- `none` is the exception of `sessions_.at`.
unfoldable pub refresh_session :
    SessionAuthService → ℕ → TokenClaims → ℕ → ℕ → Option (SessionAuthService × Session)
refresh_session s id claims connection_id now = elim (lookup ℕ_discrete id s.sessions) [
  | none ↦ none
  | some session ↦
      let session' = refreshed session claims connection_id now in
      some (record s { sessions = insert ℕ_discrete id session' s.sessions }, session')
]

unfoldable pub upsert_session :
    SessionAuthService → TokenClaims → ℕ → ℕ → Option (SessionAuthService × Session)
upsert_session s claims connection_id now =
    elim (lookup str_dec claims.player_id s.player_sessions) [
      | some id ↦ refresh_session s id claims connection_id now
      | none ↦
          let session = new_session s.next_session_id claims connection_id now in
          some (
            record s {
              next_session_id = inc_u64 s.next_session_id;
              player_sessions = insert str_dec claims.player_id s.next_session_id s.player_sessions;
              sessions = insert ℕ_discrete s.next_session_id session s.sessions;
            },
            session,
          )
    ]

unfoldable pub find_session : SessionAuthService → ℕ → Option Session
find_session s id = lookup ℕ_discrete id s.sessions

unfoldable pub find_session_by_player : SessionAuthService → String → Option Session
find_session_by_player s player_id = elim (lookup str_dec player_id s.player_sessions) [
  | none ↦ none
  | some id ↦ lookup ℕ_discrete id s.sessions
]

unfoldable pub touch_session : SessionAuthService → ℕ → ℕ → SessionAuthService × Bool
touch_session s id now = elim (lookup ℕ_discrete id s.sessions) [
  | none ↦ (s, false)
  | some session ↦ (
    record s { sessions = insert ℕ_discrete id (record session { last_seen_at = now }) s.sessions },
    true,
  )
]

-- The two `erase` calls of `closeSession` and `sweepExpiredSessions`.
unfoldable pub remove_session : SessionAuthService → ℕ → Session → SessionAuthService
remove_session s id session = record s {
  player_sessions = erase str_dec session.player_id s.player_sessions;
  sessions = erase ℕ_discrete id s.sessions;
}

unfoldable pub close_session : SessionAuthService → ℕ → SessionAuthService × Bool
close_session s id = elim (lookup ℕ_discrete id s.sessions) [
  | none ↦ (s, false)
  | some session ↦ (remove_session s id session, true)
]

abbrev pub is_session_expired : AuthConfig → ℕ → ℕ → Session → Bool
is_session_expired config now wall session =
    ltb (session.last_seen_at + config.session_idle_timeout) now
    || leb session.token_expires_at wall

-- One turn of the loop: the iterator stands at the entry with the id.
unfoldable pub sweep_one : ℕ → ℕ → SessionAuthService → ℕ → SessionAuthService
sweep_one now wall s id = elim (lookup ℕ_discrete id s.sessions) [
  | none ↦ s
  | some session ↦
      if is_session_expired s.config now wall session then remove_session s id session else s
]

unfoldable pub sweep_loop : ℕ → ℕ → List ℕ → SessionAuthService → SessionAuthService
sweep_loop now wall [] s = s
sweep_loop now wall (id ∷ ids) s = sweep_loop now wall ids (sweep_one now wall s id)

unfoldable pub sweep_expired_sessions : SessionAuthService → ℕ → ℕ → SessionAuthService
sweep_expired_sessions s now wall = sweep_loop now wall (keys s.sessions) s

unfoldable pub session_count : SessionAuthService → ℕ
session_count s = length s.sessions
