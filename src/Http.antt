-- ===== src/Http.antt =====
-- src/http/http_router.cpp, src/http/http_types.cpp and their headers: the table of routes and the
-- answers that the service makes itself.
pub mod Types
pub mod Router
pub mod RouterLaws
mod Tests
