-- ===== src/Auth/Tests.antt =====
-- The theorems on tokens and sessions at concrete inputs.
use red_culture_service.Common.{
  ◌≡◌, refl, true, [], ◌∷◌, none, some, ℕ_discrete, str_dec, arith, inc_u64,
}
use red_culture_service.Common.Map.{lookup, insert, erase}
use red_culture_service.Auth.Types.{
  AuthConfig, TokenClaims, AuthResult, Session, SessionAuthService,
}
use red_culture_service.Auth.Sessions.{
  initial, refresh_session, upsert_session, touch_session, remove_session, close_session, sweep_one,
  sweep_loop, sweep_expired_sessions, new_session,
}
use red_culture_service.Auth.Tokens.{issue_token, validate_token, check_claims, login_with_claims}
use red_culture_service.Auth.Invariant.{Inv, initial-Inv}
use red_culture_service.Auth.Login.{IsLoggedIn, upsert_session-IsLoggedIn}
use red_culture_service.Auth.Sweep.{surviving, lookup-sweep}
use red_culture_service.Auth.Steps.{logs_in, touches, sweeps, step, run, run-Inv}

program : Unit {0}
unfolding initial refresh_session upsert_session touch_session remove_session close_session
    sweep_one sweep_loop sweep_expired_sessions issue_token validate_token check_claims
    login_with_claims step run lookup insert erase ℕ_discrete str_dec inc_u64
program = tt

abbrev config : AuthConfig
config = record {
  issuer = "red-culture-service";
  audience = "unity-client";
  jwt_secret = "secret";
  token_ttl = 7200;
  session_idle_timeout = 1800;
}

abbrev claims : TokenClaims
claims = record { player_id = "ann"; account = "ann@example"; issued_at = 0; expires_at = 7200 }

upsert_session-IsLoggedIn_example :
    (s' : SessionAuthService) × (x : Session) × (upsert_session (initial config) claims 5 10
      ≡ some (s', x))
    × IsLoggedIn (initial config) claims 5 10 s' x
unfolding initial
upsert_session-IsLoggedIn_example =
    upsert_session-IsLoggedIn (initial config) claims 5 10 (initial-Inv config) (omega arith)

abbrev login : AuthResult
login = record { ok = true; error = ""; claims = some claims }

run-Inv_example :
    (s' : SessionAuthService) × (run
        (initial config)
        ((10, logs_in login 5) ∷ (20, touches 1) ∷ (30, sweeps 7300) ∷ [])
      ≡ some s')
    × Inv s'
unfolding initial
run-Inv_example =
    run-Inv (initial config) ((10, logs_in login 5) ∷ (20, touches 1) ∷ (30, sweeps 7300) ∷ [])
      (initial-Inv config) (omega arith)

abbrev anns_session : Session
anns_session = new_session 1 claims 5 10

abbrev logged_in : SessionAuthService
logged_in = record {
  config = config;
  next_session_id = 2;
  sessions = (1, anns_session) ∷ [];
  player_sessions = ("ann", 1) ∷ [];
}

lookup-sweep_example :
    lookup ℕ_discrete 1 (sweep_expired_sessions logged_in 2000 100).sessions
    ≡ surviving config 2000 100 (lookup ℕ_discrete 1 logged_in.sessions)
lookup-sweep_example = lookup-sweep logged_in 2000 100 1

-- The session has been idle for too long.
swept : lookup ℕ_discrete 1 (sweep_expired_sessions logged_in 2000 100).sessions ≡ none
unfolding program
swept = refl
