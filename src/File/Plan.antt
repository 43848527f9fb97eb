-- ===== src/File/Plan.antt =====
-- `DownloadPlan` of backend/internal/file/service.go: what it reads, chunk by chunk, against the tables
-- as they are when it starts.
use nimbus_storage_platform.Base.{ℕ, ◌≡◌, Bool, ◌&&◌, Option, some, List, arith, map, filter, ◌==◌}
use nimbus_storage_platform.Database.{Db, FileVersion, VersionChunk, ChunkLocation}
use nimbus_storage_platform.Database.Actions.{World, ok, or_throw}
use nimbus_storage_platform.File.{FileError}
use nimbus_storage_platform.Storage.Locations.{is_stored}
use nimbus_storage_platform.File.Service.{DownloadPlanChunk, plan_targets}

-- The nodes that are recorded as holding a chunk.
abbrev pub stored_nodes : ℕ → Db → List ℕ
stored_nodes hash db =
    map (λ (l : ChunkLocation). l.node_id)
      (filter (λ (l : ChunkLocation). l.chunk_hash == hash && is_stored l.status)
        db.chunk_locations)

abbrev pub is_version_of : ℕ → ℕ → FileVersion → Bool
is_version_of file_id version_id v = v.id == version_id && v.file_id == file_id

pub or_throw-ok :
    {A : Type 0} (row : Option A) (e : FileError) (w : World) {a : A} {v : World}
    → or_throw row e w ≡ (ok a, v)
    → (row ≡ some a) × (w ≡ v)
or_throw-ok row e w h = ground arith

module _ (is_healthy : ℕ → Bool) (presign : ℕ → ℕ → Option ℕ) where
  abbrev pub entry_at : VersionChunk → List ℕ → DownloadPlanChunk
  entry_at c node_ids = record {
    sequence = c.sequence;
    hash = c.chunk_hash;
    targets = plan_targets is_healthy presign c.chunk_hash node_ids;
  }

  abbrev pub entry : Db → VersionChunk → DownloadPlanChunk
  entry db c = entry_at c (stored_nodes c.chunk_hash db)
