-- ===== src/Ops.antt =====
-- src/ops/ops_service.cpp and include/rcs/ops/ops_service.hpp: the status of the process, its health
-- checks, and the admin requests.
pub mod Types
pub mod Service
pub mod Admin
mod Shutdown
mod Health
mod Tests
