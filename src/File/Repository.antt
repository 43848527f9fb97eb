-- ===== src/File/Repository.antt =====
-- backend/internal/file/repository.go: the queries, and the operations of one statement.
use nimbus_storage_platform.Base.{
  ℕ, ℤ, Bool, false, not, ◌&&◌, Option, none, some, List, map, if◌then◌else◌, ◌==◌, any, find?, mem,
}
use nimbus_storage_platform.Database.{Db, File, FileVersion, VersionChunk, OrgUsage}
use nimbus_storage_platform.Database.Actions.{
  M, ◌>>=◌, ◌>>◌, return, reject_if, query, exec, write, or_throw, new_uuid, database_error,
}
use nimbus_storage_platform.Database.Transactions.{transaction}
use nimbus_storage_platform.File.{
  FileAction, not_found, invalid_folder, version_not_found, is_kept_file, is_trashed_file,
  update_files,
}
use nimbus_storage_platform.File.Rows.{NewFile}
use nimbus_storage_platform.File.Chunks.{chunks_of}
use nimbus_storage_platform.File.Statements.{
  create_statements, add_content, purge_statements, expire_statements,
}
use nimbus_storage_platform.Upload.Service.{Content}

unfoldable pub get : ℕ → FileAction File
get id = do row ← query (λ db. find? (is_kept_file id) db.files); or_throw row not_found

unfoldable pub get_any : ℕ → FileAction File
get_any id = do
  row ← query (λ db. find? (λ (f : File). f.id == id) db.files)
  or_throw row not_found

-- The columns that `Update` sets: a name, a folder, or both.
abbrev pub renamed : Option ℕ → Option ℕ → ℕ → File → File
renamed name folder_id now f = record f {
  name = (elim name [ none ↦ f.name | some n ↦ n ]);
  folder_id = (elim folder_id [ none ↦ f.folder_id | some d ↦ d ]);
  updated_at = now;
}

-- The foreign key on files.folder_id, where the statement sets it on a row.
abbrev pub breaks_folder_key : Option ℕ → ℕ → Db → Bool
breaks_folder_key none id db = false
breaks_folder_key (some folder_id) id db =
    any (is_kept_file id) db.files && not (mem folder_id db.folder_ids)

-- RETURNING: the row as the statement leaves it; no row is `ErrNotFound`.
abbrev pub returning : ℕ → FileAction File
returning id w = or_throw (find? (is_kept_file id) w.db.files) not_found w

abbrev pub set_columns : ℕ → Option ℕ → Option ℕ → FileAction (Unit {0})
set_columns id name folder_id w =
    write (update_files (is_kept_file id) (renamed name folder_id w.now)) w

-- UPDATE … RETURNING, with pgx's error for a broken foreign key read as `ErrInvalidFolder`.
unfoldable pub update_columns : ℕ → Option ℕ → Option ℕ → FileAction File
update_columns id name folder_id = do
  broken ← query (breaks_folder_key folder_id id)
  reject_if broken invalid_folder
  set_columns id name folder_id
  returning id

unfoldable pub update : ℕ → Option ℕ → Option ℕ → FileAction File
update id none none = get id
update id (some name) folder_id = update_columns id (some name) folder_id
update id none (some folder_id) = update_columns id none (some folder_id)

unfoldable pub soft_delete : ℕ → FileAction (Unit {0})
soft_delete id = exec λ now.
    update_files (is_kept_file id) (λ f. record f { deleted_at = some now; updated_at = now })

unfoldable pub restore : ℕ → FileAction (Unit {0})
restore id =
    exec λ now.
      update_files (is_trashed_file id) (λ f. record f { deleted_at = none; updated_at = now })

unfoldable pub get_version : ℕ → ℕ → FileAction FileVersion
get_version file_id version_id = do
  row ←
      query λ db.
        find? (λ (v : FileVersion). v.id == version_id && v.file_id == file_id) db.file_versions
  or_throw row version_not_found

-- `GetVersionChunks`.
unfoldable pub get_version_chunks : ℕ → FileAction (List VersionChunk)
get_version_chunks version_id = query (chunks_of version_id)

abbrev pub point_latest : ℕ → ℕ → FileAction (Unit {0})
point_latest file_id version_id = exec λ now.
    update_files (is_kept_file file_id)
      (λ f. record f { latest_version_id = some version_id; updated_at = now })

unfoldable pub restore_version : ℕ → ℕ → FileAction File
restore_version file_id version_id = point_latest file_id version_id >> returning file_id

-- A row that must be there: its absence is an error of pgx, not of the code.
abbrev pub or_database_error : {E A : Type 0} → Option A → M E A
or_database_error none w = (database_error, w)
or_database_error (some a) w = return a w

unfoldable pub org_usage_bytes : {E : Type 0} → ℕ → M E ℤ
org_usage_bytes org_id = do
  row ← query (λ db. find? (λ (o : OrgUsage). o.id == org_id) db.org_usage)
  counted ← or_database_error row
  return counted.usage_bytes

unfoldable pub set_thumbnail_key : ℕ → ℕ → FileAction (Unit {0})
set_thumbnail_key version_id key = exec λ now db. record db {
  file_versions =
      map
        (λ (v : FileVersion).
          if v.id == version_id then record v { thumbnail_key = some key } else v)
        db.file_versions;
}

-- `CreateWithVersion`: the new file and version.
unfoldable pub create_with_version : {E : Type 0} → NewFile → Content → M E (ℕ × ℕ)
create_with_version f content = do
  file_id ← new_uuid
  version_id ← new_uuid
  transaction (create_statements file_id version_id f content)
  return (file_id, version_id)

-- `AddVersion`: the new version. `org_id` is the caller's word for the file's organisation.
unfoldable pub add_version : {E : Type 0} → ℕ → ℕ → ℕ → Content → M E ℕ
add_version org_id file_id created_by content = do
  version_id ← new_uuid
  transaction (add_content org_id file_id version_id created_by content)
  return version_id

unfoldable pub purge : (Db → Db) → ℕ → FileAction (Unit {0})
purge between id = transaction (purge_statements between id)

unfoldable pub purge_expired_trash : (Db → Db) → ℕ → FileAction ℕ
purge_expired_trash between older_than = transaction (expire_statements between older_than)
