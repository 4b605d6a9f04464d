-- ===== src/Auth/Login.antt =====
-- What `upsertSession` does to a well-formed service.
use red_culture_service.Common.{
  ℕ, ◌+◌, ◌≤◌, inc_u64_lem, ◌<◌, ◌≡◌, inl, inr, refl, some, ℕ_discrete, str_dec, arith,
  Option-cases, u64_mod, inc_u64, if◌then◌else◌, is_some,
}
use red_culture_service.Common.Map.{lookup, insert, lookup-insert, size-insert}
use red_culture_service.Auth.Types.{TokenClaims, Session, SessionAuthService}
use red_culture_service.Auth.Sessions.{
  refreshed, new_session, refresh_session, upsert_session, find_session_by_player, session_count,
}
use red_culture_service.Auth.Invariant.{Inv, update-Inv, insert-Inv, fresh_id}

-- What a login leaves behind: a well-formed service in which the player's session is the one
-- returned, with the connection and the expiry of this login. A player who had a session keeps its
-- id, the number of sessions grows by one exactly for a player who had none, and at most one id is
-- used up.
pub record IsLoggedIn (s : SessionAuthService) (claims : TokenClaims) (conn now : ℕ)
    (s' : SessionAuthService) (x : Session) : Type 0 where
  pub inv : Inv s'
  pub next_bounded : s'.next_session_id ≤ s.next_session_id + 1
  pub found : find_session_by_player s' claims.player_id ≡ some x
  pub player : x.player_id ≡ claims.player_id
  pub account : x.account ≡ claims.account
  pub connection : x.connection_id ≡ conn
  pub seen : x.last_seen_at ≡ now
  pub expiry : x.token_expires_at ≡ claims.expires_at
  pub kept_id : (i : ℕ) → lookup str_dec claims.player_id s.player_sessions ≡ some i → x.id ≡ i
  pub count : session_count s' ≡ (
      if is_some (lookup str_dec claims.player_id s.player_sessions)
      then session_count s
      else session_count s + 1)

-- On a well-formed service whose session ids last, `upsertSession` does not throw, and the session
-- that it returns is the one that the player's name finds, with the account and connection of the
-- login; the service stays well formed, and a player who had a session keeps its id.
pub upsert_session-IsLoggedIn :
    (s : SessionAuthService) (claims : TokenClaims) (conn now : ℕ)
    → Inv s
    → s.next_session_id + 1 < u64_mod
    → (s' : SessionAuthService) × (x : Session) × (upsert_session s claims conn now ≡ some (s', x))
      × IsLoggedIn s claims conn now s' x
unfolding upsert_session refresh_session find_session_by_player session_count
upsert_session-IsLoggedIn s claims conn now v h =
    elim (Option-cases (lookup str_dec claims.player_id s.player_sessions)) [
      | inr (i, e) ↦
          let (x, found, player) = v.backed claims.player_id i e in
          let y = refreshed x claims conn now in
          (
            record s { sessions = insert ℕ_discrete i y s.sessions },
            y,
            rw (e, upsert_session, found, refresh_session),
            record {
              inv = update-Inv s i x y v found refl refl;
              next_bounded = omega arith;
              found =
                  rw (e, find_session_by_player)
                    (ground (arith, lookup-insert ℕ_discrete i i y s.sessions));
              player = player;
              account = refl;
              connection = refl;
              seen = refl;
              expiry = refl;
              kept_id = λ j f. ground (arith, v.stored i x found);
              count = rw e (ground (arith, size-insert ℕ_discrete i y s.sessions));
            },
          )
      | inl e ↦
          let i = s.next_session_id in
          let y = new_session i claims conn now in
          (
            record s {
              next_session_id = inc_u64 i;
              player_sessions = insert str_dec claims.player_id i s.player_sessions;
              sessions = insert ℕ_discrete i y s.sessions;
            },
            y,
            rw (e, upsert_session),
            record {
              inv = insert-Inv s claims conn now v h e;
              next_bounded = omega (arith, inc_u64_lem i h);
              found = ground (
                arith,
                lookup-insert str_dec claims.player_id claims.player_id i s.player_sessions,
                lookup-insert ℕ_discrete i i y s.sessions,
              );
              player = refl;
              account = refl;
              connection = refl;
              seen = refl;
              expiry = refl;
              kept_id = λ j f. absurd (cc);
              count = rw e (ground (arith, size-insert ℕ_discrete i y s.sessions, fresh_id s v));
            },
          )
    ]
