-- ===== src/System/Ports.antt =====
-- The file repository as the file and usage ports of the upload service
-- (backend/cmd/api/wire_upload.go).
use nimbus_storage_platform.Base.{ℕ}
use nimbus_storage_platform.Database.Actions.{Result, ok, err, database_error, ◌>>=◌, return}
use nimbus_storage_platform.File.{FileAction, FileError}
use nimbus_storage_platform.File.Repository
use nimbus_storage_platform.Upload.Repository.{UploadError, Action, target_file_not_found}
use nimbus_storage_platform.Upload.Service.{Ports, Target}

-- A file error where the upload service expects one of its own: it replaces every error of these
-- calls, so which one it is makes no difference.
abbrev pub relabel_result : {A : Type 0} → Result FileError A → Result UploadError A
relabel_result (ok a) = ok a
relabel_result (err _) = err target_file_not_found
relabel_result database_error = database_error

abbrev pub relabel : {A : Type 0} → FileAction A → Action A
relabel m w = (relabel_result (m w).0, (m w).1)

-- `GetForUpload`.
unfoldable pub get_for_upload : ℕ → FileAction Target
get_for_upload file_id = do
  f ← Repository.get file_id
  return (record { org_id = f.org_id; folder_id = f.folder_id; name = f.name })

-- The ports that the file repository fills: files and usage.
abbrev pub file_ports : Ports → Ports
file_ports ports = record ports {
  create_with_version = λ org_id folder_id name created_by content.
      Repository.create_with_version
        (record { org_id = org_id; folder_id = folder_id; name = name; created_by = created_by })
        content;
  add_version =
      λ org_id file_id created_by content. Repository.add_version org_id file_id created_by content;
  get_for_upload = λ file_id. relabel (get_for_upload file_id);
  org_usage_bytes = λ org_id. Repository.org_usage_bytes org_id;
}
