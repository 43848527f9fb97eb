-- ===== src/File/Rows.antt =====
-- What the transactions of backend/internal/file/repository.go insert, delete and sum: rows and
-- clauses of their statements.
use nimbus_storage_platform.Base.{
  ℕ, ◌+◌, ◌+ℤ◌, ℤ, pos, fits_int8, Bool, true, false, not, ◌&&◌, Option, none, some, List, [], ◌∷◌,
  map, if◌then◌else◌, ltb, ◌==◌, any, filter, mem,
}
use nimbus_storage_platform.Database.{Db, File, FileVersion, VersionChunk, Upload}
use nimbus_storage_platform.Upload.Service.{Content}

-- What an upload is made into: the columns that `CreateWithVersion` is given.
pub record NewFile : Type 0 where
  pub org_id : ℕ
  pub folder_id : ℕ
  pub name : ℕ
  pub created_by : ℕ

abbrev pub new_version : ℕ → ℕ → ℕ → Content → ℕ → FileVersion
new_version version_id file_id created_by content now = record {
  id = version_id;
  file_id = file_id;
  size_bytes = content.size_bytes;
  checksum = content.checksum;
  mime_type = content.mime_type;
  thumbnail_key = none;
  created_by = created_by;
  created_at = now;
}

abbrev pub new_file : ℕ → NewFile → ℕ → File
new_file file_id f now = record {
  id = file_id;
  org_id = f.org_id;
  folder_id = f.folder_id;
  name = f.name;
  latest_version_id = none;
  created_by = f.created_by;
  created_at = now;
  updated_at = now;
  deleted_at = none;
}

-- UPDATE files SET latest_version_id, updated_at; the row that `CreateWithVersion` has just made is
-- of the same time.
abbrev pub point_at : ℕ → ℕ → File → File
point_at version_id updated f = record f {
  latest_version_id = some version_id;
  updated_at = updated;
}

abbrev pub has_id : ℕ → File → Bool
has_id id f = f.id == id

-- A file that the DELETE takes, and a version that goes with it.
abbrev pub is_gone_file : (File → Bool) → ℕ → Db → Bool
is_gone_file gone id db = any (λ f. gone f && f.id == id) db.files

abbrev pub is_gone_version : (File → Bool) → ℕ → Db → Bool
is_gone_version gone id db =
    any (λ (v : FileVersion). is_gone_file gone v.file_id db && v.id == id) db.file_versions

abbrev pub unless : Bool → Option ℕ → Option ℕ
unless true x = none
unless false x = x

abbrev pub forget : (ℕ → Bool) → Option ℕ → Option ℕ
forget gone none = none
forget gone (some id) = unless (gone id) (some id)

-- DELETE FROM files, which cascades to the versions and their chunk lists, and sets the references
-- of the upload sessions to NULL.
unfoldable pub delete_files : (File → Bool) → Db → Db
delete_files gone db = record db {
  files = filter (λ f. not (gone f)) db.files;
  file_versions =
      filter (λ (v : FileVersion). not (is_gone_file gone v.file_id db)) db.file_versions;
  version_chunks =
      filter (λ (c : VersionChunk). not (is_gone_version gone c.version_id db)) db.version_chunks;
  uploads =
      map
        (λ (u : Upload). record u {
          target_file_id = forget (λ id. is_gone_file gone id db) u.target_file_id;
          file_id = forget (λ id. is_gone_file gone id db) u.file_id;
          version_id = forget (λ id. is_gone_version gone id db) u.version_id;
        })
        db.uploads;
}

abbrev pub sum_sizes : List FileVersion → ℤ
sum_sizes [] = pos 0
sum_sizes (v ∷ vs) = v.size_bytes +ℤ sum_sizes vs

abbrev pub belongs : (File → Bool) → ℕ → List File → FileVersion → Bool
belongs picks org_id files v = any (λ f. picks f && f.org_id == org_id && f.id == v.file_id) files

-- COALESCE(SUM(v.size_bytes), 0) over the versions of the picked files of one organisation.
unfoldable pub sum_of : (File → Bool) → ℕ → Db → ℤ
sum_of picks org_id db = sum_sizes (filter (belongs picks org_id db.files) db.file_versions)

-- GROUP BY f.org_id.
unfoldable pub groups : (File → Bool) → List File → List ℕ
groups picks [] = []
groups picks (f ∷ fs) =
    let rest = groups picks fs in
    if picks f && not (mem f.org_id rest) then f.org_id ∷ rest else rest

unfoldable pub freed_by : (File → Bool) → Db → List (ℕ × ℤ)
freed_by picks db = map (λ org_id. (org_id, sum_of picks org_id db)) (groups picks db.files)

-- The sums are scanned into int64 values.
abbrev pub scan_fails : List (ℕ × ℤ) → Bool
scan_fails freed = any (λ x. not (fits_int8 x.1)) freed

abbrev pub is_expired : ℕ → ℕ → File → Bool
is_expired now older_than f = elim f.deleted_at [ none ↦ false | some t ↦ ltb (t + older_than) now ]
