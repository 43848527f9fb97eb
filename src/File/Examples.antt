-- ===== src/File/Examples.antt =====
-- Concrete runs of backend/internal/file: an organisation with a trashed file of 10 bytes and a live
-- one of 20.
use mathlib.Core.List.{Perm}
use mathlib.Core.List.{Perm}
use nimbus_storage_platform.Base.{
  ℕ, pos, ◌+ℤ◌, ◌-ℤ◌, ◌≡◌, refl, Bool, not, Option, none, some, List, [], ◌∷◌, ◌++◌, filter, ◌==◌,
  All, ltb, ◌+◌,
}
use nimbus_storage_platform.Database.{Db, File, FileVersion, live, stored}
use nimbus_storage_platform.Database.Actions.{World, ok}
use nimbus_storage_platform.File.{FileError, is_trashed_file, set_usage, update_usage}
use nimbus_storage_platform.File.Rows.{sum_of, groups, freed_by, delete_files}
use nimbus_storage_platform.File.Statements.{purge_statements, purge_freed}
use nimbus_storage_platform.File.Sums.{any_file}
use nimbus_storage_platform.File.Usage.{IsConsistent}
use nimbus_storage_platform.File.Race.{purge_statements_races}
use nimbus_storage_platform.File.Service.{order_healthy_first, DownloadPlanChunk}
use nimbus_storage_platform.File.Order.{order_healthy_first_sorts, order_healthy_first_reorders}
use nimbus_storage_platform.File.Chunks.{chunks_of, order_by_sequence, insert_in_sequence}

abbrev trashed_file : File
trashed_file = record {
  id = 60;
  org_id = 7;
  folder_id = 3;
  name = 9;
  latest_version_id = some 61;
  created_by = 1;
  created_at = 50;
  updated_at = 100;
  deleted_at = some 100;
}

abbrev live_file : File
live_file = record trashed_file { id = 62; latest_version_id = some 63; deleted_at = none }

abbrev version : FileVersion
version = record {
  id = 61;
  file_id = 60;
  size_bytes = pos 10;
  checksum = 4;
  mime_type = 2;
  thumbnail_key = none;
  created_by = 1;
  created_at = 50;
}

abbrev pub tables : Db
tables = record {
  uploads = [];
  upload_chunks = [];
  chunks =
      record { hash = 5; size_bytes = pos 8; gc_state = live; last_seen_at = 900; doomed_at = none }
      ∷ [];
  chunk_locations =
      record { chunk_hash = 5; node_id = 1; status = stored }
      ∷ record { chunk_hash = 5; node_id = 2; status = stored }
      ∷ [];
  org_chunk_proofs = [];
  version_chunks = record { version_id = 63; sequence = 0; chunk_hash = 5 } ∷ [];
  storage_nodes = 1 ∷ 2 ∷ [];
  files = trashed_file ∷ live_file ∷ [];
  file_versions = version ∷ record version { id = 63; file_id = 62; size_bytes = pos 20 } ∷ [];
  org_usage = record { id = 7; usage_bytes = pos 30 } ∷ [];
  folder_ids = 3 ∷ [];
}

pub tables-IsConsistent : IsConsistent tables
unfolding sum_of ◌+ℤ◌
tables-IsConsistent = record {
  unique = (refl, (refl, tt));
  owned = (refl, (refl, tt));
  exact = (refl, tt);
}

-- The tables after the live file stays alone, with a counter of `left` bytes.
abbrev purged_to : ℕ → Db
purged_to left = record tables {
  files = live_file ∷ [];
  file_versions = record version { id = 63; file_id = 62; size_bytes = pos 20 } ∷ [];
  org_usage = record { id = 7; usage_bytes = pos left } ∷ [];
}

purge_once : purge_statements {E = FileError} (λ d. d) 60 500 tables ≡ ok (tt, purged_to 20)
unfolding purge_statements freed_by groups sum_of ◌+ℤ◌ ◌-ℤ◌ purge_freed update_usage set_usage
    delete_files
purge_once = refl

purge_twice :
    purge_statements {E = FileError} (λ _. purged_to 20) 60 500 tables ≡ ok (tt, purged_to 10)
unfolding purge_statements freed_by groups sum_of ◌+ℤ◌ ◌-ℤ◌ purge_freed update_usage set_usage
    delete_files
purge_twice = refl

purge_statements_races_example :
    All
      (λ o.
        o.usage_bytes
        ≡ sum_of any_file o.id (purged_to 10) -ℤ sum_of (is_trashed_file 60) o.id tables)
      (purged_to 10).org_usage
purge_statements_races_example =
    purge_statements_races {E = FileError} 60 500 tables (purged_to 20) (purged_to 10)
      tables-IsConsistent purge_once purge_twice

abbrev up : ℕ → Bool
up id = not (ltb id 3)

order_healthy_first_sorts_example :
    (lost : List ℕ) × (order_healthy_first up (1 ∷ 2 ∷ 3 ∷ 4 ∷ [])
      ≡ filter up (1 ∷ 2 ∷ 3 ∷ 4 ∷ []) ++ lost)
    × Perm lost (filter (λ x. not (up x)) (1 ∷ 2 ∷ 3 ∷ 4 ∷ []))
order_healthy_first_sorts_example = order_healthy_first_sorts up (1 ∷ 2 ∷ 3 ∷ 4 ∷ [])

order_healthy_first_reorders_example : order_healthy_first up (1 ∷ 2 ∷ 3 ∷ []) ≡ 3 ∷ 2 ∷ 1 ∷ []
order_healthy_first_reorders_example = order_healthy_first_reorders up 1 2 3 refl refl refl

abbrev world : World
world = record { db = tables; now = 1200; faults = []; next_id = 100 }

abbrev presign : ℕ → ℕ → Option ℕ
presign node_id key = some (node_id + key)

abbrev only_up : ℕ → Bool
only_up id = id == 2

abbrev plan : List DownloadPlanChunk
plan = record { sequence = 0; hash = 5; targets = 7 ∷ 6 ∷ [] } ∷ []

abbrev listed : Db
listed = record tables {
  version_chunks =
      record { version_id = 90; sequence = 1; chunk_hash = 9 }
      ∷ record { version_id = 90; sequence = 0; chunk_hash = 5 }
      ∷ tables.version_chunks;
}

-- The rows that a transaction inserts for a version are read in the order of its content.
reads_in_order :
    chunks_of 90 listed
    ≡ record { version_id = 90; sequence = 0; chunk_hash = 5 }
      ∷ record { version_id = 90; sequence = 1; chunk_hash = 9 }
      ∷ []
unfolding order_by_sequence insert_in_sequence
reads_in_order = refl
