-- ===== src/Upload.antt =====
-- backend/internal/upload: upload sessions, the chunk lifecycle, quotas and completion.
pub mod Repository
pub mod Service
pub mod Dedup
pub mod Commit
pub mod Possession
pub mod Committed
pub mod Partial
pub mod Quota
pub mod Complete
pub mod Examples
