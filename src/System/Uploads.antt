-- ===== src/System/Uploads.antt =====
-- `CompleteUpload` (backend/internal/upload/service.go) over the file repository, as
-- backend/cmd/api/wire_upload.go connects them.
use nimbus_storage_platform.Base.{Option-cases, inl, inr, ℕ, ℤ, ◌≡◌, none, some, List}
use nimbus_storage_platform.Database.{Db, Upload}
use nimbus_storage_platform.Database.Actions.{World, return}
use nimbus_storage_platform.Database.Keeping.{Keeps, >>=-Keeps}
use nimbus_storage_platform.File.Repository
use nimbus_storage_platform.File.Sound.{
  IsSound, IsSoundFor, NamesOwner, create_with_version-Keeps, add_version-Keeps,
}
use nimbus_storage_platform.System.Stable.{IsSound-IsStable, IsSoundFor-IsStable}
use nimbus_storage_platform.Upload.Repository.{UploadError, Action}
use nimbus_storage_platform.Upload.Service.{
  Ports, Config, Content, quota_limit, create_file, complete_upload,
}
use nimbus_storage_platform.Upload.Complete.{IsReading}
use nimbus_storage_platform.System.Ports.{file_ports}
use nimbus_storage_platform.System.Completion.{PortsKeep, complete_upload-Keeps}

-- The remaining ports leave these tables alone: activity and events are kept elsewhere.
pub record PortsRead (ports : Ports) : Type 0 where
  pub activity :
      (org_id user_id file_id : ℕ) → IsReading (ports.record_upload org_id user_id file_id)
  pub publishing :
      (event_id file_id version_id org_id : ℕ)
      → IsReading (ports.publish_upload_completed event_id file_id version_id org_id)
  pub limits : (config : Config) (org_id : ℕ) → IsReading (quota_limit ports config org_id)

PortsRead-PortsKeep : (P : Db → Type 0) (ports : Ports) → PortsRead ports → PortsKeep P ports
PortsRead-PortsKeep P ports reads = record {
  activity = λ org_id user_id file_id w h. rw (reads.activity org_id user_id file_id w) h;
  publishing = λ event_id file_id version_id org_id w h.
      rw (reads.publishing event_id file_id version_id org_id w) h;
  limits = λ config org_id w h. rw (reads.limits config org_id w) h;
}

-- The file that a session adds a version to belongs to the session's organisation.
abbrev pub TargetsOwn : Upload → Db → Type 0
TargetsOwn u db = elim u.target_file_id [
  | none ↦ Unit {0}
  | some file_id ↦ NamesOwner u.org_id file_id db
]

create_new-Keeps :
    (ports : Ports) (config : Config) (u : Upload) (content : Content)
    → u.target_file_id ≡ none
    → Keeps IsSound (create_file (file_ports ports) config u content)
unfolding create_file
create_new-Keeps ports config u content new w h = rw new (
    create_with_version-Keeps UploadError
      (record {
        org_id = u.org_id;
        folder_id = u.folder_id;
        name = u.name;
        created_by = u.created_by;
      })
      content w h)

add_new-Keeps :
    (ports : Ports) (config : Config) (u : Upload) (file_id : ℕ) (content : Content)
    → u.target_file_id ≡ some file_id
    → Keeps (IsSoundFor u.org_id file_id) (create_file (file_ports ports) config u content)
unfolding create_file
add_new-Keeps ports config u file_id content target w h =
    let P = IsSoundFor u.org_id file_id in
    let add : Action ℕ = Repository.add_version u.org_id file_id u.created_by content in
    rw target (
      >>=-Keeps P UploadError add (λ version_id. return (file_id, version_id))
        (add_version-Keeps UploadError u.org_id file_id u.created_by content) (λ version_id w h. h)
        w h)

-- A completion over the file repository, however it ends, leaves the counters exact and every listed
-- chunk in place, where its target belongs to its organisation and the other ports only read.
pub complete_upload-IsSound :
    (ports : Ports) (config : Config) (u : Upload) (key : ℕ) (order : List ℕ) (size : ℤ)
    (checksum : ℕ) (w : World)
    → PortsRead ports
    → TargetsOwn u w.db
    → IsSound w.db
    → IsSound (complete_upload (file_ports ports) config u key order size checksum w).1.db
complete_upload-IsSound ports config u key order size checksum w reads target sound =
    elim (Option-cases u.target_file_id) [
      | inl new ↦
          complete_upload-Keeps IsSound IsSound-IsStable ports config
            (PortsRead-PortsKeep IsSound ports reads) u
            (λ content. create_new-Keeps ports config u content new) key order size checksum w sound
      | inr (file_id, into) ↦
          let P = IsSoundFor u.org_id file_id in
          (complete_upload-Keeps P (IsSoundFor-IsStable u.org_id file_id) ports config
            (PortsRead-PortsKeep P ports reads) u
            (λ content. add_new-Keeps ports config u file_id content into) key order size checksum w
            (sound, rw into at target)).0
    ]
