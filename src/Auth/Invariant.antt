-- ===== src/Auth/Invariant.antt =====
-- The session table and the index by player describe the same sessions.
use red_culture_service.Common.{
  ℕ, ◌+◌, ◌<◌, ◌≡◌, inl, inr, refl, String, List, none, some, ℕ_discrete, str_dec, arith,
  Option-cases, u64_mod, inc_u64, inc_u64_lem,
}
use red_culture_service.Common.Map.{lookup, insert, erase, lookup-insert, lookup-erase}
use red_culture_service.Auth.Types.{AuthConfig, TokenClaims, Session, SessionAuthService}
use red_culture_service.Auth.Sessions.{
  initial, new_session, touch_session, remove_session, close_session,
}

abbrev pub Sessions : Type 0
Sessions = List (ℕ × Session)

pub record AuthInv (next : ℕ) (m : Sessions) (index : List (String × ℕ)) : Type 0 where
  pub stored :
      (i : ℕ) (x : Session)
      → lookup ℕ_discrete i m ≡ some x
      → (x.id ≡ i) × (i < next) × (lookup str_dec x.player_id index ≡ some i)
  pub backed :
      (p : String) (i : ℕ)
      → lookup str_dec p index ≡ some i
      → (x : Session) × (lookup ℕ_discrete i m ≡ some x) × (x.player_id ≡ p)

-- Every session is indexed under its player, every index entry has its session, and ids are new.
abbrev pub Inv : SessionAuthService → Type 0
Inv s = AuthInv s.next_session_id s.sessions s.player_sessions

pub initial-Inv : (config : AuthConfig) → Inv (initial config)
unfolding initial lookup
initial-Inv config = record { stored = λ i x e. absurd (cc); backed = λ p i e. absurd (cc) }

-- A session replaced by one of the same id and player.
module _ (s : SessionAuthService) (i : ℕ) (x y : Session) where
  pub update-Inv :
      Inv s
      → lookup ℕ_discrete i s.sessions ≡ some x
      → y.id ≡ x.id
      → y.player_id ≡ x.player_id
      → Inv (record s { sessions = insert ℕ_discrete i y s.sessions })
  update-Inv v e same_id same_player = record { stored = stored; backed = backed }
    where
      stored :
          (j : ℕ) (z : Session)
          → lookup ℕ_discrete j (insert ℕ_discrete i y s.sessions) ≡ some z
          → (z.id ≡ j)
            × (j < s.next_session_id)
            × (lookup str_dec z.player_id s.player_sessions ≡ some j)
      stored j z h =
          ground (arith, v.stored i x e, v.stored j z, lookup-insert ℕ_discrete j i y s.sessions)

      backed :
          (p : String) (j : ℕ)
          → lookup str_dec p s.player_sessions ≡ some j
          → (z : Session) × (lookup ℕ_discrete j (insert ℕ_discrete i y s.sessions) ≡ some z)
            × (z.player_id ≡ p)
      backed p j h = elim (ℕ_discrete i j) [
        | yes here ↦
            let (z, found, player) = v.backed p j h in
            (y, ground (arith, lookup-insert ℕ_discrete j i y s.sessions), ground arith)
        | no other ↦
            let (z, found, player) = v.backed p j h in
            (z, ground (arith, lookup-insert ℕ_discrete j i y s.sessions), player)
      ]

-- Both erasures together.
pub remove_session-Inv :
    (s : SessionAuthService) (i : ℕ) (x : Session)
    → Inv s
    → lookup ℕ_discrete i s.sessions ≡ some x
    → Inv (remove_session s i x)
unfolding remove_session
remove_session-Inv s i x v e = record { stored = stored; backed = backed }
  where
    stored :
        (j : ℕ) (z : Session)
        → lookup ℕ_discrete j (erase ℕ_discrete i s.sessions) ≡ some z
        → (z.id ≡ j)
          × (j < s.next_session_id)
          × (lookup str_dec z.player_id (erase str_dec x.player_id s.player_sessions) ≡ some j)
    stored j z h = ground (
      arith,
      v.stored i x e,
      v.stored j z,
      lookup-erase ℕ_discrete j i s.sessions,
      lookup-erase str_dec z.player_id x.player_id s.player_sessions,
    )

    backed :
        (p : String) (j : ℕ)
        → lookup str_dec p (erase str_dec x.player_id s.player_sessions) ≡ some j
        → (z : Session) × (lookup ℕ_discrete j (erase ℕ_discrete i s.sessions) ≡ some z)
          × (z.player_id ≡ p)
    backed p j h =
        let old : lookup str_dec p s.player_sessions ≡ some j =
          ground (arith, lookup-erase str_dec p x.player_id s.player_sessions) in
        let (z, found, player) = v.backed p j old in
        (
          z,
          ground (
            arith,
            lookup-erase ℕ_discrete j i s.sessions,
            lookup-erase str_dec p x.player_id s.player_sessions,
          ),
          player,
        )

-- A new session for a player without one.
pub insert-Inv :
    (s : SessionAuthService) (claims : TokenClaims) (conn now : ℕ)
    → Inv s
    → s.next_session_id + 1 < u64_mod
    → lookup str_dec claims.player_id s.player_sessions ≡ none
    → AuthInv
        (inc_u64 s.next_session_id)
        (insert ℕ_discrete s.next_session_id
          (new_session s.next_session_id claims conn now)
          s.sessions)
        (insert str_dec claims.player_id s.next_session_id s.player_sessions)
insert-Inv s claims conn now v h e = record {
  stored = λ j z f. ground (
    arith,
    v.stored j z,
    inc_u64_lem s.next_session_id h,
    lookup-insert ℕ_discrete j s.next_session_id y s.sessions,
    lookup-insert str_dec z.player_id claims.player_id s.next_session_id s.player_sessions,
  );
  backed = λ p j f. elim (str_dec claims.player_id p) [
    | yes here ↦ (
      y,
      ground (
        arith,
        lookup-insert ℕ_discrete j s.next_session_id y s.sessions,
        lookup-insert str_dec p claims.player_id s.next_session_id s.player_sessions,
      ),
      here,
    )
    | no other ↦
        let old : lookup str_dec p s.player_sessions ≡ some j =
          ground
            (arith, lookup-insert str_dec p claims.player_id s.next_session_id s.player_sessions) in
        let (z, found, player) = v.backed p j old in
        (
          z,
          ground (
            arith,
            v.stored j z found,
            lookup-insert ℕ_discrete j s.next_session_id y s.sessions,
          ),
          player,
        )
  ];
}
  where
    y : Session
    y = new_session s.next_session_id claims conn now

pub fresh_id :
    (s : SessionAuthService) → Inv s → lookup ℕ_discrete s.next_session_id s.sessions ≡ none
fresh_id s v = elim (Option-cases (lookup ℕ_discrete s.next_session_id s.sessions)) [
  | inl e ↦ e
  | inr (x, e) ↦ absurd (omega (arith, (v.stored s.next_session_id x e).1))
]

pub touch_session-Inv : (s : SessionAuthService) (i now : ℕ) → Inv s → Inv (touch_session s i now).0
unfolding touch_session
touch_session-Inv s i now v = elim (Option-cases (lookup ℕ_discrete i s.sessions)) [
  | inl e ↦ rw (e, touch_session) v
  | inr (x, e) ↦ rw (e, touch_session) (update-Inv s i x _ v e refl refl)
]

pub close_session-Inv : (s : SessionAuthService) (i : ℕ) → Inv s → Inv (close_session s i).0
unfolding close_session
close_session-Inv s i v = elim (Option-cases (lookup ℕ_discrete i s.sessions)) [
  | inl e ↦ rw (e, close_session) v
  | inr (x, e) ↦ rw (e, close_session) (remove_session-Inv s i x v e)
]
