-- ===== src/Auth/Steps.antt =====
-- Histories of `SessionAuthService`: logins with whatever the token check has answered, touches,
-- closes and sweeps.
use red_culture_service.Common.{
  ℕ, ◌+◌, ◌<◌, ◌≤◌, ◌≡◌, refl, List, [], ◌∷◌, Option, none, some, arith, length, u64_mod,
  if◌then◌else◌,
}
use red_culture_service.Auth.Types.{AuthResult, LoginResult, SessionAuthService, TokenClaims}
use red_culture_service.Auth.Sessions.{
  touch_session, close_session, remove_session, sweep_expired_sessions,
}
use red_culture_service.Auth.Tokens.{login_with_claims}
use red_culture_service.Auth.Invariant.{Inv, touch_session-Inv, close_session-Inv}
use red_culture_service.Auth.Login.{upsert_session-IsLoggedIn}
use red_culture_service.Auth.Sweep.{sweep-Inv, sweep-next}

pub data Call : Type 0 where
  logs_in : AuthResult → ℕ → Call
  touches : ℕ → Call
  closes : ℕ → Call
  sweeps : ℕ → Call

after_login : Option (SessionAuthService × LoginResult) → Option SessionAuthService
after_login none = none
after_login (some (s, _)) = some s

-- `none` is an exception that leaves the call.
unfoldable pub step : SessionAuthService → ℕ → Call → Option SessionAuthService
unfolding after_login
step s now (logs_in auth conn) = after_login (login_with_claims s auth conn now)
step s now (touches i) = some (touch_session s i now).0
step s now (closes i) = some (close_session s i).0
step s now (sweeps wall) = some (sweep_expired_sessions s now wall)

unfoldable pub run : SessionAuthService → List (ℕ × Call) → Option SessionAuthService
unfolding step
run s [] = some s
run s ((now, c) ∷ cs) = elim (step s now c) [ none ↦ none | some s' ↦ run s' cs ]

touch_next :
    (s : SessionAuthService) (i now : ℕ)
    → (touch_session s i now).0.next_session_id ≡ s.next_session_id
unfolding touch_session
touch_next s i now = ground arith

close_next :
    (s : SessionAuthService) (i : ℕ) → (close_session s i).0.next_session_id ≡ s.next_session_id
unfolding close_session remove_session
close_next s i = ground arith

login-Inv :
    (s : SessionAuthService) (now : ℕ) (auth : AuthResult) (conn : ℕ) (claims : Option TokenClaims)
    → (if auth.ok then auth.claims else none) ≡ claims
    → Inv s
    → s.next_session_id + 1 < u64_mod
    → (s' : SessionAuthService) × (step s now (logs_in auth conn) ≡ some s')
      × Inv s'
      × (s'.next_session_id ≤ s.next_session_id + 1)
unfolding step login_with_claims
login-Inv s now auth conn none e v h = (s, rw (e, login_with_claims), v, omega arith)
login-Inv s now auth conn (some claims) e v h =
    let (s', x, f, done) = upsert_session-IsLoggedIn s claims conn now v h in
    (s', rw (e, login_with_claims) (rw (f, login_with_claims)), done.inv, done.next_bounded)

-- No call of a well-formed service throws, and each leaves it well formed.
pub step-Inv :
    (s : SessionAuthService) (now : ℕ) (c : Call)
    → Inv s
    → s.next_session_id + 1 < u64_mod
    → (s' : SessionAuthService) × (step s now c ≡ some s')
      × Inv s'
      × (s'.next_session_id ≤ s.next_session_id + 1)
unfolding step
step-Inv s now (touches i) v h = (
  (touch_session s i now).0,
  refl,
  touch_session-Inv s i now v,
  omega (arith, touch_next s i now),
)
step-Inv s now (closes i) v h =
    ((close_session s i).0, refl, close_session-Inv s i v, omega (arith, close_next s i))
step-Inv s now (sweeps wall) v h = (
  sweep_expired_sessions s now wall,
  refl,
  sweep-Inv s now wall v,
  omega (arith, sweep-next s now wall),
)
step-Inv s now (logs_in auth conn) v h =
    login-Inv s now auth conn (if auth.ok then auth.claims else none) refl v h

-- From a well-formed service, no history of calls throws while the session ids last, and after it
-- the service is well formed: every session is indexed under its player and every index entry has
-- its session.
pub run-Inv :
    (s : SessionAuthService) (cs : List (ℕ × Call))
    → Inv s
    → s.next_session_id + length cs < u64_mod
    → (s' : SessionAuthService) × (run s cs ≡ some s') × Inv s'
unfolding run
run-Inv s [] v h = (s, refl, v)
run-Inv s ((now, c) ∷ cs) v h =
    let (s', e, v', next) = step-Inv s now c v (omega arith) in
    let (t, f, w) = run-Inv s' cs v' (omega arith) in (t, rw (e, run) f, w)
