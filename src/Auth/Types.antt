-- ===== src/Auth/Types.antt =====
-- The structs of include/rcs/auth/session_auth_service.hpp, and what the code uses of jwt-cpp.
-- Times of the steady and of the system clock, and durations, are numbers.
use red_culture_service.Common.{ℕ, String, Bool, List, Option}

pub record AuthConfig : Type 0 where
  pub issuer : String
  pub audience : String
  pub jwt_secret : String
  pub token_ttl : ℕ
  pub session_idle_timeout : ℕ

pub record TokenClaims : Type 0 where
  pub player_id : String
  pub account : String
  pub issued_at : ℕ
  pub expires_at : ℕ

pub record AuthResult : Type 0 where
  pub ok : Bool
  pub error : String
  pub claims : Option TokenClaims

pub record Session : Type 0 where
  pub id : ℕ
  pub player_id : String
  pub account : String
  pub connection_id : ℕ
  pub created_at : ℕ
  pub last_seen_at : ℕ
  pub token_expires_at : ℕ

pub record LoginResult : Type 0 where
  pub ok : Bool
  pub error : String
  pub session : Option Session

-- The private members of `SessionAuthService`. Its mutex makes each operation atomic.
pub record SessionAuthService : Type 0 where
  pub config : AuthConfig
  pub next_session_id : ℕ
  pub sessions : List (ℕ × Session)
  pub player_sessions : List (String × ℕ)

-- The fields of a token that the code sets with `jwt::create` and reads from a decoded token.
pub record TokenPayload : Type 0 where
  pub issuer : String
  pub audience : String
  pub subject : String
  pub issued_at : ℕ
  pub expires_at : ℕ
  pub account : Option String

-- What `jwt::decode` and `verify` do: they throw with a message, or give the token's fields.
pub data Verified : Type 0 where
  raised : String → Verified
  verified : TokenPayload → Verified

-- jwt-cpp: `sign secret payload`, and `verify secret issuer audience now token`.
pub record Jwt : Type 0 where
  pub sign : String → TokenPayload → String
  pub verify : String → String → String → ℕ → String → Verified
