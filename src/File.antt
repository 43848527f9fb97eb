-- ===== src/File.antt =====
-- backend/internal/file: files and their versions, the trash and the counter of stored bytes. An
-- operation that opens a transaction is its statements, composed as results: the first that fails
-- fails the transaction. File/Rows and File/Statements have the transactions, File/Repository the
-- methods.
pub mod Rows
pub mod Chunks
pub mod Statements
pub mod Repository
pub mod Sums
pub mod Usage
pub mod Purging
pub mod Intact
pub mod Race
pub mod Sound
pub mod Service
pub mod Order
pub mod Plan
pub mod Examples
use nimbus_storage_platform.Base.{
  ℕ, ℤ, fits_usage, Bool, true, false, not, ◌&&◌, Option, none, some, List, map, if◌then◌else◌,
  ◌==◌, any,
}
use nimbus_storage_platform.Database.{Db, File, OrgUsage}
use nimbus_storage_platform.Database.Actions.{M, Result, ok, database_error}
use nimbus_storage_platform.Database.Results.{◌>>◌}

pub data FileError : Type 0 where
  not_found invalid_folder not_trashed version_not_found no_thumbnail : FileError

abbrev pub FileAction : Type 0 → Type 0
FileAction A = M FileError A

-- `deleted_at IS NULL`.
abbrev pub is_kept : File → Bool
is_kept f = elim f.deleted_at [ none ↦ true | some _ ↦ false ]

abbrev pub is_kept_file : ℕ → File → Bool
is_kept_file id f = f.id == id && is_kept f

abbrev pub update_row : (File → Bool) → (File → File) → File → File
update_row picks change f = if picks f then change f else f

-- UPDATE files SET … WHERE …
abbrev pub update_files : (File → Bool) → (File → File) → Db → Db
update_files picks change db = record db { files = map (update_row picks change) db.files }

abbrev pub is_trashed_file : ℕ → File → Bool
is_trashed_file id f = f.id == id && not (is_kept f)

abbrev pub fails_if : {E : Type 0} → Bool → Result E (Unit {0})
fails_if true = database_error
fails_if false = ok tt

-- The row of `UPDATE organizations SET usage_bytes = … WHERE id = $2`.
unfoldable pub set_usage : (ℤ → ℤ) → ℕ → OrgUsage → OrgUsage
set_usage change org_id o =
    if o.id == org_id then record o { usage_bytes = change o.usage_bytes } else o

-- That statement: a value below 0 fails the CHECK of the column, one past 2^63 - 1 its type.
unfoldable pub update_usage : {E : Type 0} → (ℤ → ℤ) → ℕ → Db → Result E Db
update_usage change org_id db =
    fails_if (any (λ o. o.id == org_id && not (fits_usage (change o.usage_bytes))) db.org_usage)
    >> ok (record db { org_usage = map (set_usage change org_id) db.org_usage })
