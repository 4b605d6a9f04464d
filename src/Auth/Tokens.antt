-- ===== src/Auth/Tokens.antt =====
-- Tokens: `issueToken`, `validateToken` and `loginWithToken` of
-- src/auth/session_auth_service.cpp. The token library is a parameter.
use red_culture_service.Common.{
  ℕ, ◌+◌, ◌<◌, ◌≡◌, String, true, false, Option, none, some, is_empty, if◌then◌else◌, arith,
}
use red_culture_service.Auth.Types.{
  AuthConfig, TokenClaims, AuthResult, LoginResult, SessionAuthService, TokenPayload, Verified,
  raised, verified, Jwt,
}
use red_culture_service.Auth.Sessions.{upsert_session}

-- `claimAsString(decoded, "account")`
abbrev pub claim_as_string : Option String → String
claim_as_string none = ""
claim_as_string (some account) = account

abbrev pub auth_failed : String → AuthResult
auth_failed error = record { ok = false; error = error; claims = none }

abbrev pub claims_of : TokenPayload → TokenClaims
claims_of t = record {
  player_id = t.subject;
  account = claim_as_string t.account;
  issued_at = t.issued_at;
  expires_at = t.expires_at;
}

-- The part of `validateToken` behind the verification, its `catch` included.
unfoldable pub check_claims : Verified → AuthResult
check_claims (raised what) = auth_failed what
check_claims (verified t) =
    if is_empty t.subject
    then auth_failed "token subject is empty"
    else record { ok = true; error = ""; claims = some (claims_of t) }

abbrev pub payload : AuthConfig → String → String → ℕ → TokenPayload
payload config player_id account wall = record {
  issuer = config.issuer;
  audience = config.audience;
  subject = player_id;
  issued_at = wall;
  expires_at = wall + config.token_ttl;
  account = some account;
}

-- `none` is an exception that leaves the function.
unfoldable pub login_with_claims :
    SessionAuthService → AuthResult → ℕ → ℕ → Option (SessionAuthService × LoginResult)
login_with_claims s auth connection_id now = elim (if auth.ok then auth.claims else none) [
  | none ↦ some (s, record { ok = false; error = auth.error; session = none })
  | some claims ↦ elim (upsert_session s claims connection_id now) [
    | none ↦ none
    | some (s', session) ↦ some (s', record { ok = true; error = ""; session = some session })
  ]
]

module _ (jwt : Jwt) where
  -- `none` is the exception for an empty id.
  unfoldable pub issue_token : AuthConfig → String → String → ℕ → Option String
  issue_token config player_id account wall =
      if is_empty player_id
      then none
      else some (jwt.sign config.jwt_secret (payload config player_id account wall))

  unfoldable pub validate_token : AuthConfig → ℕ → String → AuthResult
  validate_token config wall token =
      if is_empty token
      then auth_failed "token is empty"
      else check_claims (jwt.verify config.jwt_secret config.issuer config.audience wall token)

  unfoldable pub login_with_token :
      SessionAuthService → String → ℕ → ℕ → ℕ → Option (SessionAuthService × LoginResult)
  unfolding login_with_claims
  login_with_token s token connection_id now wall =
      login_with_claims s (validate_token s.config wall token) connection_id now

  -- A token that the service has issued is accepted by a service with the same configuration until
  -- it expires, and gives back the player and the account, if the token library verifies what it
  -- has signed, under the same secret, issuer and audience, before the expiry, and signs no empty
  -- text.
  pub validate-issue :
      ((secret : String) (t : TokenPayload) (wall : ℕ)
        → wall < t.expires_at
        → jwt.verify secret t.issuer t.audience wall (jwt.sign secret t) ≡ verified t)
      → ((secret : String) (t : TokenPayload) → is_empty (jwt.sign secret t) ≡ false)
      → (config : AuthConfig) (player_id account : String) (wall later : ℕ) (token : String)
      → issue_token config player_id account wall ≡ some token
      → later < wall + config.token_ttl
      → validate_token config later token ≡ record {
        ok = true;
        error = "";
        claims = some (record {
          player_id = player_id;
          account = account;
          issued_at = wall;
          expires_at = wall + config.token_ttl;
        });
      }
  unfolding issue_token validate_token check_claims
  validate-issue sound nonempty config player_id account wall later token e h = ground (
    arith,
    sound config.jwt_secret (payload config player_id account wall) later h,
    nonempty config.jwt_secret (payload config player_id account wall),
  )
