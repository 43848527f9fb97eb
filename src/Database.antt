-- ===== src/Database.antt =====
-- The Postgres tables that backend/internal/upload, file, gc and storage share, one record per row
-- type, and the actions on them. Identifiers, hashes and other strings that the code only compares are
-- numbers, and 0 is the empty string; times are numbers. A call of the database fails where `faults`
-- says so (a lost connection, a cancelled context); the failed call changes nothing, and what the
-- calls before it wrote stays, since the upload code opens no transaction for its writes.
pub mod Actions
pub mod Laws
pub mod Results
pub mod Transactions
pub mod Keeping
use nimbus_storage_platform.Base.{ℕ, suc, ℤ, Bool, true, false, Option, List, [], ◌∷◌, ◌&&◌, ◌==◌}

abbrev pub empty : ℕ
empty = 0

pub data UploadStatus : Type 0 where
  in_progress completed aborted : UploadStatus

abbrev pub is_in_progress : UploadStatus → Bool
is_in_progress in_progress = true
is_in_progress completed = false
is_in_progress aborted = false

pub record Upload : Type 0 where
  pub id : ℕ
  pub org_id : ℕ
  pub folder_id : ℕ
  pub name : ℕ
  pub declared_size_bytes : ℤ
  pub mime_type : ℕ
  pub created_by : ℕ
  pub status : UploadStatus
  pub idempotency_key : Option ℕ
  pub target_file_id : Option ℕ
  pub file_id : Option ℕ
  pub version_id : Option ℕ
  pub created_at : ℕ

pub data ChunkState : Type 0 where
  pending presigned committed : ChunkState

abbrev pub is_presigned : ChunkState → Bool
is_presigned presigned = true
is_presigned pending = false
is_presigned committed = false

abbrev pub is_committed : ChunkState → Bool
is_committed committed = true
is_committed pending = false
is_committed presigned = false

-- A row of upload_chunks: one session's attempt at one chunk.
pub record UploadChunk : Type 0 where
  pub upload_id : ℕ
  pub chunk_hash : ℕ
  pub state : ChunkState
  pub etags : List (ℕ × ℕ)

pub data GcState : Type 0 where
  live doomed : GcState

abbrev pub is_live : GcState → Bool
is_live live = true
is_live doomed = false

-- A row of chunks: one content-addressed object of the cluster.
pub record Chunk : Type 0 where
  pub hash : ℕ
  pub size_bytes : ℤ
  pub gc_state : GcState
  pub last_seen_at : ℕ
  pub doomed_at : Option ℕ

pub data LocationStatus : Type 0 where
  stored degraded : LocationStatus

-- A row of chunk_locations; the status 'committed' is `stored`.
pub record ChunkLocation : Type 0 where
  pub chunk_hash : ℕ
  pub node_id : ℕ
  pub status : LocationStatus

pub record OrgChunkProof : Type 0 where
  pub org_id : ℕ
  pub chunk_hash : ℕ

-- A row of file_version_chunks.
pub record VersionChunk : Type 0 where
  pub version_id : ℕ
  pub sequence : ℕ
  pub chunk_hash : ℕ

-- A row of files.
pub record File : Type 0 where
  pub id : ℕ
  pub org_id : ℕ
  pub folder_id : ℕ
  pub name : ℕ
  pub latest_version_id : Option ℕ
  pub created_by : ℕ
  pub created_at : ℕ
  pub updated_at : ℕ
  pub deleted_at : Option ℕ

-- A row of file_versions.
pub record FileVersion : Type 0 where
  pub id : ℕ
  pub file_id : ℕ
  pub size_bytes : ℤ
  pub checksum : ℕ
  pub mime_type : ℕ
  pub thumbnail_key : Option ℕ
  pub created_by : ℕ
  pub created_at : ℕ

-- The counter of organizations (migration 000015).
pub record OrgUsage : Type 0 where
  pub id : ℕ
  pub usage_bytes : ℤ

pub record Db : Type 0 where
  pub uploads : List Upload
  pub upload_chunks : List UploadChunk
  pub chunks : List Chunk
  pub chunk_locations : List ChunkLocation
  pub org_chunk_proofs : List OrgChunkProof
  pub version_chunks : List VersionChunk
  pub storage_nodes : List ℕ
  pub files : List File
  pub file_versions : List FileVersion
  pub org_usage : List OrgUsage
  pub folder_ids : List ℕ
