-- ===== src/Net.antt =====
-- src/net: the frame format and the rate limiter.
pub mod Frames
pub mod FrameLaws
pub mod Streams
mod Tests
pub mod RateLimiter
pub mod RateLaws
