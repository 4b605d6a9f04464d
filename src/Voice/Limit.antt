-- ===== src/Voice/Limit.antt =====
-- How `enforceCacheLimitLocked` cuts the cache down to its limit.
use red_culture_service.Common.{
  ℕ, zero, suc, ◌≤◌, ◌<◌, ◌≡◌, refl, inl, inr, ◌⊎◌, String, List, [], ◌∷◌, some, str_dec, ltb,
  arith, ap, ◌∙◌, sym, subst, Bool-cases, In,
}
use red_culture_service.Common.Map.{lookup, insert, erase, size, size-erase-lt, lookup-erase}
use red_culture_service.Voice.Types.{AudioResource, AudioCache}
use red_culture_service.Voice.Cache.{
  oldest_of, enforce_loop, enforce_cache_limit_locked, store_cache_locked,
}

oldest_of_cases :
    (e f : String × AudioResource) (fs : List (String × AudioResource))
    → ((f.1.created_at < e.1.created_at) × (oldest_of e (f ∷ fs) ≡ oldest_of f fs))
      ⊎ ((e.1.created_at ≤ f.1.created_at) × (oldest_of e (f ∷ fs) ≡ oldest_of e fs))
unfolding oldest_of
oldest_of_cases e f fs = elim (Bool-cases (ltb f.1.created_at e.1.created_at)) [
  | inl lt ↦ inl (ground arith, rw lt)
  | inr ge ↦ inr (ground arith, rw ge)
]

oldest_of-In :
    (e : String × AudioResource) (es : List (String × AudioResource)) → In (oldest_of e es) (e ∷ es)
unfolding oldest_of
oldest_of-In e [] = inl refl
oldest_of-In e (f ∷ fs) = elim (oldest_of_cases e f fs) [
  | inl (_, q) ↦ inr (subst (λ r. In r (f ∷ fs)) (sym q) (oldest_of-In f fs))
  | inr (_, q) ↦ elim (oldest_of-In e fs) [
    | inl first ↦ inl (first ∙ sym q)
    | inr later ↦ inr (inr (subst (λ r. In r fs) (sym q) later))
  ]
]

-- No entry was made before the oldest one.
oldest_of-least :
    (e : String × AudioResource) (es : List (String × AudioResource)) (f : String × AudioResource)
    → In f (e ∷ es)
    → (oldest_of e es).1.created_at ≤ f.1.created_at
unfolding oldest_of
oldest_of-least e [] f (inl same_entry) =
    let times = ap (λ x. x.1.created_at) same_entry in omega arith
oldest_of-least e [] f (inr i) = absurd i
oldest_of-least e (g ∷ gs) f i = elim (oldest_of_cases e g gs) [
  | inl (lt, q) ↦
      let least = oldest_of-least g gs g (inl refl) in
      elim i [
        | inl first ↦ let times = ap (λ x. x.1.created_at) first in rw q (omega arith)
        | inr later ↦ rw q (oldest_of-least g gs f later)
      ]
  | inr (le, q) ↦
      let least = oldest_of-least e gs e (inl refl) in
      elim i [
        | inl first ↦ rw q (oldest_of-least e gs f (inl first))
        | inr (inl second) ↦ let times = ap (λ x. x.1.created_at) second in rw q (omega arith)
        | inr (inr later) ↦ rw q (oldest_of-least e gs f (inr later))
      ]
]

abbrev without :
    String × AudioResource → List (String × AudioResource) → List (String × String) → AudioCache
without oldest resources ids = record {
  resources = erase str_dec oldest.0 resources;
  id_keys = erase str_dec oldest.1.id ids;
}

-- One turn of the loop: either the cache fits, or the oldest entry goes and the loop runs on.
enforce_loop_cases :
    (fuel max : ℕ) (e : String × AudioResource) (es : List (String × AudioResource))
    (ids : List (String × String))
    → let cache : AudioCache = record { resources = e ∷ es; id_keys = ids } in
      ((size cache.resources ≤ max) × (enforce_loop (suc fuel) max cache ≡ cache))
      ⊎ ((max < size cache.resources)
          × (enforce_loop (suc fuel) max cache
              ≡ enforce_loop fuel max (without (oldest_of e es) (e ∷ es) ids)))
unfolding enforce_loop
enforce_loop_cases fuel max e es ids = elim (Bool-cases (ltb max (size (e ∷ es)))) [
  | inl over ↦ inr (ground arith, rw over)
  | inr fits ↦ inl (ground arith, rw fits)
]

-- Once the loop of `enforceCacheLimitLocked` has ended, there are no more entries than the limit
-- says: the number of entries is fuel enough.
pub enforce_loop-size :
    (fuel max : ℕ) (resources : List (String × AudioResource)) (ids : List (String × String))
    → size resources ≤ fuel
    → size (enforce_loop fuel max (record { resources = resources; id_keys = ids })).resources ≤ max
unfolding enforce_loop
enforce_loop-size zero max [] ids h = omega arith
enforce_loop-size zero max (e ∷ es) ids h = omega arith
enforce_loop-size (suc fuel) max [] ids h = omega arith
enforce_loop-size (suc fuel) max (e ∷ es) ids h = elim (enforce_loop_cases fuel max e es ids) [
  | inl (fits, q) ↦ rw q fits
  | inr (over, q) ↦
      let oldest = oldest_of e es in
      let fewer = size-erase-lt str_dec oldest (e ∷ es) (oldest_of-In e es) in
      rw q (
        enforce_loop-size fuel max (erase str_dec oldest.0 (e ∷ es)) (erase str_dec oldest.1.id ids)
          (omega arith))
]

-- What stays in the cache was there before.
enforce_loop-lookup :
    (fuel max : ℕ) (resources : List (String × AudioResource)) (ids : List (String × String))
    (k : String) (a : AudioResource)
    → lookup str_dec k
        (enforce_loop fuel max (record { resources = resources; id_keys = ids })).resources
      ≡ some a
    → lookup str_dec k resources ≡ some a
unfolding enforce_loop
enforce_loop-lookup zero max resources ids k a h = h
enforce_loop-lookup (suc fuel) max [] ids k a h = h
enforce_loop-lookup (suc fuel) max (e ∷ es) ids k a h =
    elim (enforce_loop_cases fuel max e es ids) [
      | inl (fits, q) ↦ ap (λ c. lookup str_dec k c.resources) (sym q) ∙ h
      | inr (over, q) ↦
          let oldest = oldest_of e es in
          let rest = erase str_dec oldest.0 (e ∷ es) in
          let after =
            enforce_loop-lookup fuel max rest (erase str_dec oldest.1.id ids) k a
              (ap (λ c. lookup str_dec k c.resources) (sym q) ∙ h) in
          ground (arith, after, lookup-erase str_dec k oldest.0 (e ∷ es))
    ]

-- However many entries the cache had, after `storeCacheLocked` it has no more than the limit: the
-- loop that drops the oldest entry ends within its fuel.
pub store_cache_locked-size :
    (max : ℕ) (cache : AudioCache) (key : String) (audio : AudioResource)
    → size (store_cache_locked max cache key audio).resources ≤ max
unfolding store_cache_locked enforce_cache_limit_locked
store_cache_locked-size max cache key audio =
    let resources = insert str_dec key audio cache.resources in
    let ids = insert str_dec audio.id key cache.id_keys in
    enforce_loop-size (size resources) max resources ids (omega arith)
