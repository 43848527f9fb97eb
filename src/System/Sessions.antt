-- ===== src/System/Sessions.antt =====
-- `InitUpload` (backend/internal/upload/service.go) over the file repository: the organisation that a
-- session records beside its target.
use nimbus_storage_platform.Base.{
  ℕ, ℤ, ◌≡◌, ap, sym, ◌∙◌, Bool, true, false, not, Option, none, some, List, [], ◌∷◌, arith, find?,
  ◌==◌, if◌then◌else◌, Bool-cases, inl, inr,
}
use nimbus_storage_platform.Database.{Db, File, Upload, empty}
use nimbus_storage_platform.Database.Actions.{
  World, ok, >>=-ok, return, reject_if, or_throw, query, call, new_uuid,
}
use nimbus_storage_platform.Database.Laws.{query-ok}
use nimbus_storage_platform.File.{FileError, FileAction, is_kept_file, not_found}
use nimbus_storage_platform.File.Repository
use nimbus_storage_platform.File.Plan.{or_throw-ok}
use nimbus_storage_platform.File.Sums.{owns}
use nimbus_storage_platform.System.Ports.{file_ports, relabel, get_for_upload}
use nimbus_storage_platform.System.Uploads.{TargetsOwn}
use nimbus_storage_platform.Upload.Complete.{IsReading}
use nimbus_storage_platform.Upload.Repository.{
  UploadError, create_upload, new_upload, file_too_large, forbidden, target_file_not_found,
}
use nimbus_storage_platform.Upload.Service.{
  Ports, Config, Target, exceeds, or_else, upload_target, check_quota, init_upload,
}

found-owns :
    (file_id : ℕ) (fs : List File) {f : File}
    → find? (is_kept_file file_id) fs ≡ some f
    → owns f.org_id file_id fs ≡ true
found-owns file_id [] h = cc
found-owns file_id (g ∷ gs) h = elim (Bool-cases (is_kept_file file_id g)) [
  | inl kept ↦ ground (arith, rw kept at h)
  | inr other ↦ ground (arith, found-owns file_id gs (rw other at h))
]

get-ok :
    (file_id : ℕ) (w : World) {f : File} {v : World}
    → Repository.get file_id w ≡ (ok f, v)
    → (owns f.org_id file_id w.db.files ≡ true) × (v.db ≡ w.db)
unfolding Repository.get
get-ok file_id w h =
    let (row, mid, asked, rest) =
      >>=-ok (query (λ db. find? (is_kept_file file_id) db.files)) (λ row. or_throw row not_found) w
        h in
    let (read, same) = query-ok (λ db. find? (is_kept_file file_id) db.files) w asked in
    let (is_row, stays) = or_throw-ok row not_found mid rest in
    (found-owns file_id w.db.files (sym read ∙ is_row), ap (λ u. u.db) (sym stays) ∙ same.same_db)

answered :
    (f : File) (t : Target) (w v : World)
    → return {E = FileError}
        (record { org_id = f.org_id; folder_id = f.folder_id; name = f.name })
        w
      ≡ (ok t, v)
    → (t.org_id ≡ f.org_id) × (v ≡ w)
answered f t w v h = ground arith

get_for_upload-ok :
    (file_id : ℕ) (w : World) {t : Target} {v : World}
    → get_for_upload file_id w ≡ (ok t, v)
    → (owns t.org_id file_id w.db.files ≡ true) × (v.db ≡ w.db)
unfolding get_for_upload
get_for_upload-ok file_id w {t} {v} h =
    let (f, mid, got, last) = >>=-ok (Repository.get file_id) _ w h in
    let (owner, same) = get-ok file_id w got in
    let (org, stays) = answered f t mid v last in (rw org owner, ap (λ u. u.db) stays ∙ same)

relabelled :
    (m : FileAction Target) (e : UploadError) (w : World) {t : Target} {v : World}
    → or_else (relabel m) e w ≡ (ok t, v)
    → m w ≡ (ok t, v)
relabelled m e w h = ground arith

passed :
    (bad : Bool) (e : UploadError) (w : World) {v : World} → reject_if bad e w ≡ (ok tt, v) → v ≡ w
passed bad e w h = ground arith

create_upload-ok :
    (org_id folder_id name : ℕ) (size : ℤ) (mime_type by : ℕ) (target : Option ℕ) (w : World)
    {u : Upload} {v : World}
    → create_upload org_id folder_id name size mime_type by target w ≡ (ok u, v)
    → (u.target_file_id ≡ target) × (u.org_id ≡ org_id) × (v.db.files ≡ w.db.files)
unfolding create_upload new_uuid call new_upload
create_upload-ok org_id folder_id name size mime_type by target w h = ground arith

unnamed :
    (file_id : ℕ) (u : Upload) (db : Db)
    → u.target_file_id ≡ (if file_id == empty then none else some file_id)
    → (file_id == empty) ≡ true
    → TargetsOwn u db
unnamed file_id u db target new = rw (target, new) tt

named :
    (org_id file_id : ℕ) (u : Upload) (before db : Db)
    → u.target_file_id ≡ (if file_id == empty then none else some file_id)
    → u.org_id ≡ org_id
    → db.files ≡ before.files
    → (file_id == empty) ≡ false
    → owns org_id file_id before.files ≡ true
    → TargetsOwn u db
named org_id file_id u before db target org files into owner =
    rw (target, into, org, files) (λ _. owner)

module _ (ports : Ports) (config : Config) where
  target_answer :
      (f : Target) (name : ℕ) (w : World) {t : Target} {v : World}
      → return {E = UploadError} (record f { name = if name == empty then f.name else name }) w
        ≡ (ok t, v)
      → (t.org_id ≡ f.org_id) × (v ≡ w)
  target_answer f name w h = ground arith

  -- A target file is looked up in the name of the organisation that owns it.
  upload_target-owns :
      (folder_id file_id name : ℕ) (w : World) {t : Target} {v : World}
      → (file_id == empty) ≡ false
      → upload_target (file_ports ports) config folder_id file_id name w ≡ (ok t, v)
      → (owns t.org_id file_id w.db.files ≡ true) × (v.db ≡ w.db)
  unfolding upload_target
  upload_target-owns folder_id file_id name w {t} {v} some_file h =
      let (f, mid, looked, last) =
        >>=-ok (or_else (relabel (get_for_upload file_id)) target_file_not_found) _ w
          (rw some_file at h) in
      let (owner, same) =
        get_for_upload-ok file_id w
          (relabelled (get_for_upload file_id) target_file_not_found w looked) in
      let (org, stays) = target_answer f name mid last in
      (rw org owner, ap (λ u. u.db) stays ∙ same)

  module _ (reads_member : (org_id user_id : ℕ) → IsReading (ports.is_member org_id user_id))
      (reads_quota : (org_id : ℕ) (size : ℤ)
        → IsReading (check_quota (file_ports ports) config org_id size)) where
    files_kept :
        (org_id user_id : ℕ) (size : ℤ) (w₁ w₂ w₃ w₄ w₅ v : World)
        → v.db.files ≡ w₅.db.files
        → (check_quota (file_ports ports) config org_id size w₄).1 ≡ w₅
        → w₄ ≡ w₃
        → (ports.is_member org_id user_id w₂).1 ≡ w₃
        → w₂.db ≡ w₁.db
        → v.db.files ≡ w₁.db.files
    files_kept org_id user_id size w₁ w₂ w₃ w₄ w₅ v files within same_4 asked same_2 =
        let quota : w₅.db ≡ w₄.db = rw (← within) (reads_quota org_id size w₄) in
        let membership : w₃.db ≡ w₂.db = rw (← asked) (reads_member org_id user_id w₂) in
        files ∙ ap (λ d. d.files) (quota ∙ (ap (λ x. x.db) same_4 ∙ (membership ∙ same_2)))

    -- A session that is opened on a file records the organisation that owns the file.
    pub init_upload-TargetsOwn :
        (user_id folder_id file_id name : ℕ) (size : ℤ) (mime_type : ℕ) (w : World) {u : Upload}
        {v : World}
        → init_upload (file_ports ports) config user_id folder_id file_id name size mime_type w
          ≡ (ok u, v)
        → TargetsOwn u v.db
    unfolding init_upload
    init_upload-TargetsOwn user_id folder_id file_id name size mime_type w {u} {v} h =
        let (_, w₁, small, h₁) =
          >>=-ok (reject_if (exceeds config.max_upload_bytes size) file_too_large) _ w h in
        let (t, w₂, found, h₂) =
          >>=-ok (upload_target (file_ports ports) config folder_id file_id name) _ w₁ h₁ in
        let (member, w₃, asked, h₃) = >>=-ok (ports.is_member t.org_id user_id) _ w₂ h₂ in
        let (_, w₄, belongs, h₄) = >>=-ok (reject_if (not member) forbidden) _ w₃ h₃ in
        let (_, w₅, within, h₅) =
          >>=-ok (check_quota (file_ports ports) config t.org_id size) _ w₄ h₄ in
        let (target, org, files) =
          create_upload-ok t.org_id t.folder_id t.name size mime_type user_id
            (if file_id == empty then none else some file_id) w₅ h₅ in
        elim (Bool-cases (file_id == empty)) [
          | inl new ↦ unnamed file_id u v.db target new
          | inr into ↦
              let (owner, same) = upload_target-owns folder_id file_id name w₁ into found in
              let kept : v.db.files ≡ w₁.db.files =
                files_kept t.org_id user_id size w₁ w₂ w₃ w₄ w₅ v files (ap (λ r. r.1) within)
                  (passed (not member) forbidden w₃ belongs) (ap (λ r. r.1) asked) same in
              named t.org_id file_id u w₁.db v.db target org kept into owner
        ]
