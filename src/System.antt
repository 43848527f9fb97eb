-- ===== src/System.antt =====
-- How the parts of the backend act together on one database: the file repository as the port that
-- uploads write their files through (backend/cmd/api/wire_upload.go), and the operations of uploads, files and
-- the garbage collector one after the other.
pub mod Stable
pub mod Ports
pub mod Completion
pub mod Uploads
pub mod Commits
pub mod Collection
pub mod Trace
pub mod Sessions
pub mod Examples
