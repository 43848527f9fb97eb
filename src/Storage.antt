-- ===== src/Storage.antt =====
-- backend/internal/storage: the hash ring, the circuit breakers and the router.
pub mod Ring
pub mod Breaker
pub mod Locations
pub mod Repair
pub mod Router
pub mod Examples
