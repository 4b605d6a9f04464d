-- ===== src/Auth/Sweep.antt =====
-- `sweepExpiredSessions` removes exactly the expired sessions.
use red_culture_service.Common.{
  ℕ, ◌≡◌, inl, inr, refl, List, [], ◌∷◌, Option, none, some, ℕ_discrete, arith, Bool-cases,
  Option-cases, In, ite, ◌∙◌, if◌then◌else◌,
}
use red_culture_service.Common.Map.{lookup, keys, In-keys, lookup-erase}
use red_culture_service.Auth.Types.{AuthConfig, Session, SessionAuthService}
use red_culture_service.Auth.Sessions.{
  remove_session, is_session_expired, sweep_one, sweep_loop, sweep_expired_sessions,
}
use red_culture_service.Auth.Invariant.{Inv, remove_session-Inv}

-- What a sweep leaves of one entry.
abbrev pub surviving : AuthConfig → ℕ → ℕ → Option Session → Option Session
surviving config now wall none = none
surviving config now wall (some x) = if is_session_expired config now wall x then none else some x

module _ (now wall : ℕ) where
  sweep_one-config : (s : SessionAuthService) (i : ℕ) → (sweep_one now wall s i).config ≡ s.config
  unfolding sweep_one remove_session
  sweep_one-config s i = ground arith

  sweep_one-lookup :
      (s : SessionAuthService) (i j : ℕ)
      → lookup ℕ_discrete j (sweep_one now wall s i).sessions
        ≡ ite
            (ℕ_discrete i j)
            (surviving s.config now wall (lookup ℕ_discrete j s.sessions))
            (lookup ℕ_discrete j s.sessions)
  unfolding sweep_one remove_session
  sweep_one-lookup s i j = ground (arith, lookup-erase ℕ_discrete j i s.sessions)

  sweep_one-Inv : (s : SessionAuthService) (i : ℕ) → Inv s → Inv (sweep_one now wall s i)
  unfolding sweep_one
  sweep_one-Inv s i v = elim (Option-cases (lookup ℕ_discrete i s.sessions)) [
    | inl e ↦ rw (e, sweep_one) v
    | inr (x, e) ↦ elim (Bool-cases (is_session_expired s.config now wall x)) [
      | inl old ↦ rw (e, sweep_one, old) (remove_session-Inv s i x v e)
      | inr live ↦ rw (e, sweep_one, live) v
    ]
  ]

  sweep_loop-Inv : (ids : List ℕ) (s : SessionAuthService) → Inv s → Inv (sweep_loop now wall ids s)
  unfolding sweep_loop
  sweep_loop-Inv [] s v = v
  sweep_loop-Inv (i ∷ ids) s v = sweep_loop-Inv ids (sweep_one now wall s i) (sweep_one-Inv s i v)

  surviving-surviving :
      (config : AuthConfig) (o : Option Session)
      → surviving config now wall (surviving config now wall o) ≡ surviving config now wall o
  surviving-surviving config none = refl
  surviving-surviving config (some x) = ground arith

  -- What would survive is left alone.
  sweep_loop_fixed :
      (ids : List ℕ) (s : SessionAuthService) (j : ℕ)
      → surviving s.config now wall (lookup ℕ_discrete j s.sessions)
        ≡ lookup ℕ_discrete j s.sessions
      → lookup ℕ_discrete j (sweep_loop now wall ids s).sessions ≡ lookup ℕ_discrete j s.sessions
  unfolding sweep_loop
  sweep_loop_fixed [] s j f = refl
  sweep_loop_fixed (i ∷ ids) s j f =
      let same_entry : lookup ℕ_discrete j (sweep_one now wall s i).sessions
          ≡ lookup ℕ_discrete j s.sessions =
        ground (arith, sweep_one-lookup s i j) in
      sweep_loop_fixed ids (sweep_one now wall s i) j (rw (same_entry, sweep_one-config s i) f)
      ∙ same_entry

  -- A visited entry goes if it has expired.
  sweep_loop_visited :
      (ids : List ℕ) (s : SessionAuthService) (j : ℕ)
      → In j ids
      → lookup ℕ_discrete j (sweep_loop now wall ids s).sessions
        ≡ surviving s.config now wall (lookup ℕ_discrete j s.sessions)
  unfolding sweep_loop
  sweep_loop_visited [] s j h = absurd h
  sweep_loop_visited (i ∷ ids) s j h = elim (ℕ_discrete i j) [
    | yes here ↦
        let gone : lookup ℕ_discrete j (sweep_one now wall s i).sessions
            ≡ surviving s.config now wall (lookup ℕ_discrete j s.sessions) =
          ground (arith, sweep_one-lookup s i j) in
        sweep_loop_fixed ids (sweep_one now wall s i) j
          (rw (gone, sweep_one-config s i) (surviving-surviving s.config _))
        ∙ gone
    | no other ↦
        let kept : lookup ℕ_discrete j (sweep_one now wall s i).sessions
            ≡ lookup ℕ_discrete j s.sessions =
          ground (arith, sweep_one-lookup s i j) in
        let later : In j ids = elim h [ inl e ↦ absurd (other e) | inr l ↦ l ] in
        sweep_loop_visited ids (sweep_one now wall s i) j later ∙ rw (kept, sweep_one-config s i)
  ]

-- After a sweep exactly the sessions that have not expired are there, unchanged.
pub lookup-sweep :
    (s : SessionAuthService) (now wall j : ℕ)
    → lookup ℕ_discrete j (sweep_expired_sessions s now wall).sessions
      ≡ surviving s.config now wall (lookup ℕ_discrete j s.sessions)
unfolding sweep_expired_sessions
lookup-sweep s now wall j = elim (Option-cases (lookup ℕ_discrete j s.sessions)) [
  | inl e ↦ sweep_loop_fixed now wall (keys s.sessions) s j (rw e) ∙ rw e
  | inr (x, e) ↦
      sweep_loop_visited now wall (keys s.sessions) s j (In-keys ℕ_discrete j s.sessions (λ n. cc))
]

pub sweep-Inv :
    (s : SessionAuthService) (now wall : ℕ) → Inv s → Inv (sweep_expired_sessions s now wall)
unfolding sweep_expired_sessions
sweep-Inv s now wall v = sweep_loop-Inv now wall (keys s.sessions) s v

sweep_loop-next :
    (now wall : ℕ) (ids : List ℕ) (s : SessionAuthService)
    → (sweep_loop now wall ids s).next_session_id ≡ s.next_session_id
unfolding sweep_loop sweep_one remove_session
sweep_loop-next now wall [] s = refl
sweep_loop-next now wall (i ∷ ids) s =
    sweep_loop-next now wall ids (sweep_one now wall s i) ∙ ground arith

pub sweep-next :
    (s : SessionAuthService) (now wall : ℕ)
    → (sweep_expired_sessions s now wall).next_session_id ≡ s.next_session_id
unfolding sweep_expired_sessions
sweep-next s now wall = sweep_loop-next now wall (keys s.sessions) s
