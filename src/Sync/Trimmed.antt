-- ===== src/Sync/Trimmed.antt =====
-- The deltas that wait in a room after one more has come, in src/sync/state_sync_service.cpp.
use red_culture_service.Common.{
  ℕ, zero, suc, ◌-◌, ◌≤◌, ◌<◌, ◌≡◌, refl, inl, inr, List, [], ◌∷◌, ◌++◌, ltb, arith, Bool-cases, ap,
  length, take, drop, length-append, length-drop,
}
use red_culture_service.Sync.Types.{FloatOps, StateDelta}
use red_culture_service.Sync.Authority.{trim}

module _ (F : FloatOps) where
  -- What waits in a room when one more delta has come: it stands last, and as many of the oldest as
  -- lie above the limit are gone. With a limit of 0 nothing waits.
  pub record IsQueued (limit : ℕ) (old : List (StateDelta F)) (delta : StateDelta F)
      (new : List (StateDelta F)) : Type 0 where
    pub dropped : List (StateDelta F)
    pub rest : dropped ++ new ≡ old ++ (delta ∷ [])
    pub within : length new ≤ limit
    pub all_kept : length old < limit → dropped ≡ []
    pub full : limit ≤ length old → length new ≡ limit

  append-take-drop :
      (n : ℕ) (deltas : List (StateDelta F)) → take n deltas ++ drop n deltas ≡ deltas
  append-take-drop zero deltas = refl
  append-take-drop (suc n) [] = refl
  append-take-drop (suc n) (d ∷ deltas) = ap (λ l. d ∷ l) (append-take-drop n deltas)

  pub trim-IsQueued :
      (limit : ℕ) (old : List (StateDelta F)) (delta : StateDelta F)
      → IsQueued limit old delta (trim F limit (old ++ (delta ∷ [])))
  unfolding trim
  trim-IsQueued limit old delta =
      let all = old ++ (delta ∷ []) in
      let size = length-append old (delta ∷ []) in
      let left = length-drop (length all - limit) all in
      elim (Bool-cases (ltb limit (length all))) [
        | inl over ↦
            let more : limit < length all = ground arith in
            rw over (record {
              dropped = take (length all - limit) all;
              rest = append-take-drop (length all - limit) all;
              within = omega (arith, left);
              all_kept = λ h. absurd (omega (arith, size));
              full = λ h. omega (arith, left);
            })
        | inr fits ↦
            let le : length all ≤ limit = ground arith in
            rw fits (record {
              dropped = [];
              rest = refl;
              within = le;
              all_kept = λ h. refl;
              full = λ h. absurd (omega (arith, size));
            })
      ]
