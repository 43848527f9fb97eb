-- ===== src/System/Commits.antt =====
-- `CommitChunk` (backend/internal/upload/service.go) on the tables that files share with it.
use nimbus_storage_platform.Base.{
  ℕ, ℤ, ◌≡◌, refl, Bool, true, false, not, ◌&&◌, Option, List, [], ◌∷◌, any, find?, ltb, length,
  ◌==◌, mem, fits_int4,
}
use nimbus_storage_platform.Database.{Db, Upload, UploadChunk, is_in_progress, is_presigned, empty}
use nimbus_storage_platform.Database.Actions.{return, reject_if, or_throw, query, exec, write}
use nimbus_storage_platform.Database.Keeping.{
  Keeps, >>=-Keeps, >>-Keeps, reject_if-Keeps, query-Keeps, exec-Keeps, or_throw-Keeps,
}
use nimbus_storage_platform.System.Stable.{IsStable, upsert-Extends}
use nimbus_storage_platform.Upload.Repository.{
  UploadError, invalid_state, upload_not_in_progress, chunk_too_large, checksum_mismatch,
  insufficient_replicas, chunk_not_found, is_attempt, is_awaiting, get_chunk_attempt_state,
  mark_chunk_committed, commit_attempt, upsert_chunk, upsert_global_chunk, upsert_location,
  upsert_chunk_location, record_org_chunk_proof, database_error_if,
}
use nimbus_storage_platform.Upload.Service.{
  Ports, Config, exceeds, etags_agree, check_commit, write_commit, commit_chunk, record_locations,
}

module _ (P : Db → Type 0) (stable : IsStable P) where
  -- A change of the tables that no file statement reads.
  apart :
      (db db' : Db)
      → db'.files ≡ db.files
      → db'.file_versions ≡ db.file_versions
      → db'.org_usage ≡ db.org_usage
      → db'.version_chunks ≡ db.version_chunks
      → db'.chunks ≡ db.chunks
      → P db
      → P db'
  apart db db' files versions usage lists chunks = stable db db' (record {
    same_files = files;
    same_versions = versions;
    same_usage = usage;
    same_lists = lists;
    more_chunks = λ hash h. rw chunks h;
  })

  database_error_if-Keeps : (bad : Bool) → Keeps P (database_error_if bad)
  database_error_if-Keeps true w h = h
  database_error_if-Keeps false w h = h

  get_chunk_attempt_state-Keeps :
      (upload_id hash : ℕ) → Keeps P (get_chunk_attempt_state upload_id hash)
  unfolding get_chunk_attempt_state
  get_chunk_attempt_state-Keeps upload_id hash =
      let asked : Db → Option UploadChunk =
        λ db. find? (is_attempt upload_id hash) db.upload_chunks in
      >>=-Keeps P UploadError (query asked) _ (query-Keeps P UploadError asked) λ row.
        >>=-Keeps P UploadError (or_throw row chunk_not_found) (λ a. return a.state)
          (or_throw-Keeps P UploadError row chunk_not_found) (λ a w h. h)

  mark_chunk_committed-Keeps :
      (upload_id hash : ℕ) (etags : List (ℕ × ℕ))
      → Keeps P (mark_chunk_committed upload_id hash etags)
  unfolding mark_chunk_committed
  mark_chunk_committed-Keeps upload_id hash etags =
      let asked : Db → Bool = λ db. any (is_awaiting upload_id hash) db.upload_chunks in
      >>=-Keeps P UploadError (query asked) _ (query-Keeps P UploadError asked) λ affected.
        >>-Keeps P UploadError (reject_if (not affected) invalid_state)
          (write (λ db. record db {
            upload_chunks = commit_attempt upload_id hash etags db.upload_chunks;
          }))
          (reject_if-Keeps P UploadError (not affected) invalid_state)
          (λ w h. apart w.db _ refl refl refl refl refl h)

  upsert_global_chunk-Keeps : (hash : ℕ) (size : ℤ) → Keeps P (upsert_global_chunk hash size)
  unfolding upsert_global_chunk
  upsert_global_chunk-Keeps hash size =
      let upsert : ℕ → Db → Db =
        λ now db. record db { chunks = upsert_chunk hash size now db.chunks } in
      >>-Keeps P UploadError (database_error_if (not (fits_int4 size))) (exec upsert)
        (database_error_if-Keeps (not (fits_int4 size)))
        (exec-Keeps P UploadError upsert (λ now db. stable db _ (upsert-Extends hash size now db)))

  upsert_chunk_location-Keeps : (hash node_id : ℕ) → Keeps P (upsert_chunk_location hash node_id)
  unfolding upsert_chunk_location
  upsert_chunk_location-Keeps hash node_id =
      let asked : Db → Bool = λ db. mem node_id db.storage_nodes in
      >>=-Keeps P UploadError (query asked) _ (query-Keeps P UploadError asked) λ known.
        >>-Keeps P UploadError (database_error_if (not known))
          (write
            (λ db. record db { chunk_locations = upsert_location hash node_id db.chunk_locations }))
          (database_error_if-Keeps (not known)) (λ w h. apart w.db _ refl refl refl refl refl h)

  record_locations-Keeps : (hash : ℕ) (etags : List (ℕ × ℕ)) → Keeps P (record_locations hash etags)
  unfolding record_locations
  record_locations-Keeps hash [] = λ w h. h
  record_locations-Keeps hash ((node_id, etag) ∷ etags) =
      >>-Keeps P UploadError (upsert_chunk_location hash node_id) (record_locations hash etags)
        (upsert_chunk_location-Keeps hash node_id) (record_locations-Keeps hash etags)

  record_org_chunk_proof-Keeps : (org_id hash : ℕ) → Keeps P (record_org_chunk_proof org_id hash)
  unfolding record_org_chunk_proof
  record_org_chunk_proof-Keeps org_id hash =
      exec-Keeps P UploadError _ (λ now db h. apart db _ refl refl refl refl refl h)

  module _ (ports : Ports) (config : Config) (u : Upload) (hash : ℕ) (size : ℤ)
      (etags : List (ℕ × ℕ)) where
    rejects : (bad : Bool) (e : UploadError) → Keeps P (reject_if bad e)
    rejects = reject_if-Keeps P UploadError

    check_commit-Keeps : Keeps P (check_commit ports config u hash size etags)
    unfolding check_commit
    check_commit-Keeps =
        >>-Keeps P UploadError (reject_if (not (is_in_progress u.status)) upload_not_in_progress) _
          (rejects (not (is_in_progress u.status)) upload_not_in_progress)
          (>>=-Keeps P UploadError (get_chunk_attempt_state u.id hash) _
            (get_chunk_attempt_state-Keeps u.id hash)
            λ state.
              >>-Keeps P UploadError (reject_if (not (is_presigned state)) invalid_state) _
                (rejects (not (is_presigned state)) invalid_state)
                (>>-Keeps P UploadError
                  (reject_if (exceeds config.chunk_size_bytes size) chunk_too_large) _
                  (rejects (exceeds config.chunk_size_bytes size) chunk_too_large)
                  (>>-Keeps P UploadError (reject_if (length etags == 0) checksum_mismatch) _
                    (rejects (length etags == 0) checksum_mismatch)
                    (>>-Keeps P UploadError
                      (reject_if
                        (ltb 0 config.write_quorum && ltb (length etags) config.write_quorum)
                        insufficient_replicas)
                      (reject_if (not (etags_agree empty etags)) checksum_mismatch)
                      (rejects (ltb 0 config.write_quorum && ltb (length etags) config.write_quorum)
                        insufficient_replicas)
                      (rejects (not (etags_agree empty etags)) checksum_mismatch)))))

    write_commit-Keeps : Keeps P (write_commit ports config u hash size etags)
    unfolding write_commit
    write_commit-Keeps =
        >>-Keeps P UploadError (mark_chunk_committed u.id hash etags) _
          (mark_chunk_committed-Keeps u.id hash etags)
          (>>-Keeps P UploadError (upsert_global_chunk hash size) _
            (upsert_global_chunk-Keeps hash size)
            (>>-Keeps P UploadError (record_locations hash etags)
              (record_org_chunk_proof u.org_id hash) (record_locations-Keeps hash etags)
              (record_org_chunk_proof-Keeps u.org_id hash)))

    pub commit_chunk-Keeps : Keeps P (commit_chunk ports config u hash size etags)
    unfolding commit_chunk
    commit_chunk-Keeps =
        >>-Keeps P UploadError (check_commit ports config u hash size etags)
          (write_commit ports config u hash size etags) check_commit-Keeps write_commit-Keeps
