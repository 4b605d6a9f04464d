-- ===== src/Net/RateLaws.antt =====
-- How many events the limiter lets through.
use red_culture_service.Common.{
  ℕ, ◌+◌, ◌-◌, ◌*◌, ◌≤◌, ◌<◌, ◌≡◌, true, false, List, [], ◌∷◌, arith, length, leb, if◌then◌else◌,
  Bool-cases, inl, inr, All,
}
use Prim.Native.Nat.{min}
use red_culture_service.Net.RateLimiter.{RateLimiter, allow}

-- The number of `allow` calls, at the times of the list, that answer true.
unfoldable pub granted : RateLimiter → List ℕ → ℕ
granted l [] = 0
granted l (now ∷ times) =
    let (l', ok) = allow l now in let rest = granted l' times in if ok then rest + 1 else rest

abbrev counted : RateLimiter → RateLimiter
counted l = record l { used_events = l.used_events + 1 }

-- The three ways of an `allow`: refused, counted, or counted in a new window.
data Outcome (l : RateLimiter) (now : ℕ) : Type 0 where
  refused :
      now < l.window_started_at + l.window
      → l.used_events ≡ l.max_events
      → allow l now ≡ (l, false)
      → Outcome l now
  passed :
      now < l.window_started_at + l.window
      → l.used_events < l.max_events
      → allow l now ≡ (counted l, true)
      → Outcome l now
  renewed :
      l.window_started_at + l.window ≤ now
      → allow l now ≡ (record l { window_started_at = now; used_events = 1 }, true)
      → Outcome l now

allow-Outcome :
    (l : RateLimiter) (now : ℕ) → 0 < l.max_events → l.used_events ≤ l.max_events → Outcome l now
unfolding allow
allow-Outcome l now pos used = elim (Bool-cases (leb (l.window_started_at + l.window) now)) [
  | inl late ↦ renewed (ground arith) (ground arith)
  | inr early ↦ elim (Bool-cases (leb l.max_events l.used_events)) [
    | inl full ↦ refused (ground arith) (ground arith) (ground arith)
    | inr left ↦ passed (ground arith) (ground arith) (ground arith)
  ]
]

-- With a quota that is not 0 and not overdrawn, at times within the current window the limiter lets
-- through exactly as many events as come or as are left of the quota, whichever is less.
pub granted_in_window :
    (l : RateLimiter) (times : List ℕ)
    → 0 < l.max_events
    → l.used_events ≤ l.max_events
    → All (λ t. t < l.window_started_at + l.window) times
    → granted l times ≡ min (length times) (l.max_events - l.used_events)
unfolding granted
granted_in_window l [] pos used h = omega arith
granted_in_window l (now ∷ times) pos used h = elim (allow-Outcome l now pos used) [
  | refused early full e ↦ rw e (omega (arith, granted_in_window l times pos used h.1))
  | passed early left e ↦
      rw e (omega (arith, granted_in_window (counted l) times pos (omega arith) h.1))
  | renewed late e ↦ absurd (omega arith)
]

-- What can still get through before `lo + window`: the quota of the current window, and that of
-- the next if it is still to come.
abbrev budget : RateLimiter → ℕ → ℕ
budget l lo =
    (l.max_events - l.used_events) + (if leb lo l.window_started_at then 0 else l.max_events)

granted-le-budget :
    (l : RateLimiter) (lo : ℕ) (times : List ℕ)
    → 0 < l.max_events
    → l.used_events ≤ l.max_events
    → All (λ t. (lo ≤ t) × (t < lo + l.window)) times
    → granted l times ≤ budget l lo
unfolding granted
granted-le-budget l lo [] pos used h = omega arith
granted-le-budget l lo (now ∷ times) pos used h = elim (allow-Outcome l now pos used) [
  | refused early full e ↦ rw e (granted-le-budget l lo times pos used h.1)
  | passed early left e ↦
      rw e (omega (arith, granted-le-budget (counted l) lo times pos (omega arith) h.1))
  | renewed late e ↦ rw e (
      ground (
        arith,
        granted-le-budget (record l { window_started_at = now; used_events = 1 }) lo times pos
            (omega arith) h.1,
      ))
]

-- With a quota that is not 0 and not overdrawn, in any stretch of time no longer than the window at
-- most twice the quota gets through.
pub granted-le-twice :
    (l : RateLimiter) (lo : ℕ) (times : List ℕ)
    → 0 < l.max_events
    → l.used_events ≤ l.max_events
    → All (λ t. (lo ≤ t) × (t < lo + l.window)) times
    → granted l times ≤ 2 * l.max_events
granted-le-twice l lo times pos used h = ground (arith, granted-le-budget l lo times pos used h)
