-- ===== src/System/Completion.antt =====
-- The statements of `CompleteUpload` (backend/internal/upload/service.go) over the file repository, and
-- the properties of the tables that they keep.
use nimbus_storage_platform.Base.{
  ℕ, ℤ, ◌≡◌, refl, Bool, true, false, not, Option, none, some, List, [], ◌∷◌, arith, map, any,
  find?, ltb, length, ◌==◌, pos, ltb_ℤ, add64, if◌then◌else◌,
}
use nimbus_storage_platform.Database.{Db, OrgUsage, Upload, is_in_progress}
use nimbus_storage_platform.Database.Actions.{
  World, Result, ok, err, database_error, ◌>>=◌, ◌>>◌, return, reject_if, or_throw, query, exec,
  write, read, call, new_uuid, best_effort,
}
use nimbus_storage_platform.Database.Keeping.{
  Keeps, >>=-Keeps, >>-Keeps, reject_if-Keeps, query-Keeps, exec-Keeps, new_uuid-Keeps,
  or_throw-Keeps,
}
use nimbus_storage_platform.File.Repository
use nimbus_storage_platform.System.Stable.{IsStable, touch-Extends}
use nimbus_storage_platform.Upload.Repository.{
  UploadError, Action, already_completing, missing_chunks, upload_not_in_progress,
  empty_chunk_order, file_too_large, quota_exceeded, upload_not_found, set_uploads, finish_upload,
  complete_row, violates_unique_key, is_open_upload, get_upload, find_missing_chunks_for_org,
  check_candidates, unproven, touch, arrange, uncommitted,
}
use nimbus_storage_platform.Upload.Service.{
  Ports, Config, Content, exceeds, replay, quota_limit, check_usage, check_quota, check_possession,
  check_complete, create_file, announce, settled, settle, complete_new, complete_upload, key_of,
}
use nimbus_storage_platform.Upload.Complete.{replay-IsReading}
use nimbus_storage_platform.System.Ports.{file_ports}

-- What the remaining ports keep.
pub record PortsKeep (P : Db → Type 0) (ports : Ports) : Type 0 where
  pub activity : (org_id user_id file_id : ℕ) → Keeps P (ports.record_upload org_id user_id file_id)
  pub publishing :
      (event_id file_id version_id org_id : ℕ)
      → Keeps P (ports.publish_upload_completed event_id file_id version_id org_id)
  pub limits : (config : Config) (org_id : ℕ) → Keeps P (quota_limit ports config org_id)

module _ (P : Db → Type 0) (stable : IsStable P) where
  uploads-Keeps : (rows : List Upload) (db : Db) → P db → P (set_uploads rows db)
  uploads-Keeps rows db = stable db (set_uploads rows db) (record {
    same_files = refl;
    same_versions = refl;
    same_usage = refl;
    same_lists = refl;
    more_chunks = λ hash h. h;
  })

  finish_upload-Keeps :
      (id file_id version_id : ℕ) (key : Option ℕ)
      → Keeps P (finish_upload id file_id version_id key)
  unfolding finish_upload
  finish_upload-Keeps id file_id version_id key =
      >>=-Keeps P UploadError (query (λ db. db.uploads)) _
        (query-Keeps P UploadError (λ db. db.uploads))
        λ rows.
          >>-Keeps P UploadError (reject_if (violates_unique_key id key rows) already_completing) _
            (reject_if-Keeps P UploadError (violates_unique_key id key rows) already_completing)
            (>>-Keeps P UploadError
              (reject_if (not (any (is_open_upload id) rows)) already_completing)
              (write (set_uploads (map (complete_row id file_id version_id key) rows)))
              (reject_if-Keeps P UploadError (not (any (is_open_upload id) rows))
                already_completing)
              (λ w h. uploads-Keeps _ w.db h))

  get_upload-Keeps : (id : ℕ) → Keeps P (get_upload id)
  unfolding get_upload
  get_upload-Keeps id =
      >>=-Keeps P UploadError (query (λ db. find? (λ (u : Upload). u.id == id) db.uploads))
        (λ row. or_throw row upload_not_found)
        (query-Keeps P UploadError (λ db. find? (λ (u : Upload). u.id == id) db.uploads))
        (λ row. or_throw-Keeps P UploadError row upload_not_found)

  check_candidates-Keeps : (org_id : ℕ) (hashes : List ℕ) → Keeps P (check_candidates org_id hashes)
  unfolding check_candidates
  check_candidates-Keeps org_id [] = λ w h. h
  check_candidates-Keeps org_id (x ∷ xs) =
      >>-Keeps P UploadError (exec (λ now db. record db { chunks = touch (x ∷ xs) now db.chunks }))
        (read (unproven org_id (x ∷ xs)))
        (exec-Keeps P UploadError (λ now db. record db { chunks = touch (x ∷ xs) now db.chunks })
          (λ now db. stable db _ (touch-Extends (x ∷ xs) now db)))
        (λ w h. h)

  find_missing-Keeps :
      (row_order : Db → List ℕ → List ℕ) (org_id upload_id : ℕ) (hashes : List ℕ)
      → Keeps P (find_missing_chunks_for_org row_order org_id upload_id hashes)
  unfolding find_missing_chunks_for_org
  find_missing-Keeps row_order org_id upload_id hashes =
      let asked : Db → List ℕ =
        λ db. let rows = uncommitted upload_id hashes db in arrange (row_order db rows) rows in
      >>=-Keeps P UploadError (query asked) (check_candidates org_id)
        (query-Keeps P UploadError asked) (check_candidates-Keeps org_id)

  counted-Keeps :
      {A : Type 0} (row : Option A) → Keeps P (Repository.or_database_error {E = UploadError} row)
  counted-Keeps none w h = h
  counted-Keeps (some a) w h = h

  org_usage_bytes-Keeps :
      (org_id : ℕ) → Keeps P (Repository.org_usage_bytes {E = UploadError} org_id)
  unfolding Repository.org_usage_bytes
  org_usage_bytes-Keeps org_id =
      let asked : Db → Option OrgUsage =
        λ db. find? (λ (o : OrgUsage). o.id == org_id) db.org_usage in
      >>=-Keeps P UploadError (query asked) _ (query-Keeps P UploadError asked) λ row.
        >>=-Keeps P UploadError (Repository.or_database_error row) (λ o. return o.usage_bytes)
          (counted-Keeps row) (λ o w h. h)

  module _ (ports : Ports) (config : Config) (keep : PortsKeep P ports) where
    check_usage-Keeps :
        (org_id : ℕ) (size limit : ℤ)
        → Keeps P (check_usage (file_ports ports) config org_id size limit)
    unfolding check_usage
    check_usage-Keeps org_id size limit =
        >>=-Keeps P UploadError (Repository.org_usage_bytes org_id) _ (org_usage_bytes-Keeps org_id)
          (λ used. reject_if-Keeps P UploadError (ltb_ℤ limit (add64 used size)) quota_exceeded)

    limited-Keeps :
        (on : Bool) (org_id : ℕ) (size limit : ℤ)
        → Keeps P
            (if on then check_usage (file_ports ports) config org_id size limit else return tt)
    limited-Keeps true org_id size limit = check_usage-Keeps org_id size limit
    limited-Keeps false org_id size limit = λ w h. h

    check_quota-Keeps :
        (org_id : ℕ) (size : ℤ) → Keeps P (check_quota (file_ports ports) config org_id size)
    unfolding check_quota quota_limit
    check_quota-Keeps org_id size =
        >>=-Keeps P UploadError (quota_limit (file_ports ports) config org_id) _
          (keep.limits config org_id)
          (λ limit. limited-Keeps (ltb_ℤ (pos 0) limit) org_id size limit)

    check_possession-Keeps :
        (u : Upload) (order : List ℕ) → Keeps P (check_possession (file_ports ports) config u order)
    unfolding check_possession
    check_possession-Keeps u order =
        >>=-Keeps P UploadError
          (find_missing_chunks_for_org (file_ports ports).row_order u.org_id u.id order) _
          (find_missing-Keeps (file_ports ports).row_order u.org_id u.id order)
          (λ missing. reject_if-Keeps P UploadError (ltb 0 (length missing)) missing_chunks)

    check_complete-Keeps :
        (u : Upload) (order : List ℕ) (size : ℤ)
        → Keeps P (check_complete (file_ports ports) config u order size)
    unfolding check_complete
    check_complete-Keeps u order size =
        >>-Keeps P UploadError (reject_if (not (is_in_progress u.status)) upload_not_in_progress) _
          (reject_if-Keeps P UploadError (not (is_in_progress u.status)) upload_not_in_progress)
          (>>-Keeps P UploadError (reject_if (length order == 0) empty_chunk_order) _
            (reject_if-Keeps P UploadError (length order == 0) empty_chunk_order)
            (>>-Keeps P UploadError
              (reject_if (exceeds config.max_upload_bytes size) file_too_large) _
              (reject_if-Keeps P UploadError (exceeds config.max_upload_bytes size) file_too_large)
              (>>-Keeps P UploadError (check_quota (file_ports ports) config u.org_id size)
                (check_possession (file_ports ports) config u order)
                (check_quota-Keeps u.org_id size) (check_possession-Keeps u order))))

    announce-Keeps :
        (u : Upload) (made : ℕ × ℕ) → Keeps P (announce (file_ports ports) config u made)
    unfolding announce
    announce-Keeps u made =
        let noted : Action (Unit {0}) =
          best_effort (ports.record_upload u.org_id u.created_by made.0) in
        let told : ℕ → Action (Unit {0}) = λ event_id.
          best_effort (ports.publish_upload_completed event_id made.0 made.1 u.org_id) in
        let answered : ℕ → Action (ℕ × ℕ) = λ event_id. told event_id >> return made in
        >>-Keeps P UploadError noted (new_uuid >>= answered)
          (λ w h. keep.activity u.org_id u.created_by made.0 w h)
          (>>=-Keeps P UploadError new_uuid answered (new_uuid-Keeps P UploadError) λ event_id.
            >>-Keeps P UploadError (told event_id) (return made)
              (λ w h. keep.publishing event_id made.0 made.1 u.org_id w h) (λ w h. h))

    lost-db :
        (u : Upload) (made : ℕ × ℕ) (e : UploadError) (w : World)
        → (settled (file_ports ports) config u made (err e) w).1.db ≡ w.db
    unfolding get_upload query call
    lost-db u made e w = ground arith

    settled-Keeps :
        (u : Upload) (made : ℕ × ℕ) (r : Result UploadError (Unit {0}))
        → Keeps P (settled (file_ports ports) config u made r)
    settled-Keeps u made (ok _) = announce-Keeps u made
    settled-Keeps u made database_error = λ w h. h
    settled-Keeps u made (err e) = λ w h. rw (lost-db u made e w) h

    settle-Keeps :
        (u : Upload) (key : ℕ) (made : ℕ × ℕ)
        → Keeps P (settle (file_ports ports) config u key made)
    unfolding settle
    settle-Keeps u key made w h =
        let finish = finish_upload u.id made.0 made.1 (key_of (file_ports ports) config key) in
        settled-Keeps u made (finish w).0 (finish w).1
          (finish_upload-Keeps u.id made.0 made.1 (key_of (file_ports ports) config key) w h)

    module _ (u : Upload)
        (creates : (content : Content)
          → Keeps P (create_file (file_ports ports) config u content)) where
      complete_new-Keeps :
          (key : ℕ) (content : Content)
          → Keeps P (complete_new (file_ports ports) config u key content)
      unfolding complete_new
      complete_new-Keeps key content =
          >>-Keeps P UploadError
            (check_complete (file_ports ports) config u content.chunk_hashes content.size_bytes)
            (create_file (file_ports ports) config u content >>= λ made.
              settle (file_ports ports) config u key made)
            (check_complete-Keeps u content.chunk_hashes content.size_bytes)
            (>>=-Keeps P UploadError (create_file (file_ports ports) config u content)
              (λ made. settle (file_ports ports) config u key made) (creates content)
              (λ made. settle-Keeps u key made))

      resumed : ℕ → Content → Option (ℕ × ℕ) → Action (ℕ × ℕ)
      resumed key content prior = elim prior [
        | some done ↦ return done
        | none ↦ complete_new (file_ports ports) config u key content
      ]

      resumed-Keeps :
          (key : ℕ) (content : Content) (prior : Option (ℕ × ℕ))
          → Keeps P (resumed key content prior)
      unfolding resumed
      resumed-Keeps key content none = complete_new-Keeps key content
      resumed-Keeps key content (some done) = λ w h. h

      pub complete_upload-Keeps :
          (key : ℕ) (order : List ℕ) (size : ℤ) (checksum : ℕ)
          → Keeps P (complete_upload (file_ports ports) config u key order size checksum)
      unfolding complete_upload resumed
      complete_upload-Keeps key order size checksum =
          let content : Content = record {
            size_bytes = size;
            checksum = checksum;
            mime_type = u.mime_type;
            chunk_hashes = order;
          } in
          >>=-Keeps P UploadError (replay u key) (resumed key content)
            (λ w h. rw (replay-IsReading (file_ports ports) config u key w) h)
            (resumed-Keeps key content)
