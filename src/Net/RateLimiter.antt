-- ===== src/Net/RateLimiter.antt =====
-- src/net/rate_limiter.cpp: a fixed window that counts events.
use red_culture_service.Common.{ℕ, ◌+◌, Bool, true, false, leb, ◌==◌, if◌then◌else◌}

pub record RateLimiter : Type 0 where
  pub max_events : ℕ
  pub window : ℕ
  pub used_events : ℕ
  pub window_started_at : ℕ

unfoldable pub start : ℕ → ℕ → ℕ → RateLimiter
start max_events window now = record {
  max_events = max_events;
  window = window;
  used_events = 0;
  window_started_at = now;
}

-- `if (now - window_started_at_ >= window_)`: a new window.
unfoldable pub roll : RateLimiter → ℕ → RateLimiter
roll l now =
    if leb (l.window_started_at + l.window) now
    then record l { window_started_at = now; used_events = 0 }
    else l

unfoldable pub count_event : RateLimiter → RateLimiter × Bool
count_event l =
    if leb l.max_events l.used_events
    then (l, false)
    else (record l { used_events = l.used_events + 1 }, true)

unfoldable pub allow : RateLimiter → ℕ → RateLimiter × Bool
unfolding roll count_event
allow l now = if l.max_events == 0 then (l, true) else count_event (roll l now)

unfoldable pub reset : RateLimiter → ℕ → RateLimiter
reset l now = record l { used_events = 0; window_started_at = now }
