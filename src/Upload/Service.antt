-- ===== src/Upload/Service.antt =====
-- backend/internal/upload/service.go: the operations of an upload session. The ports that the
-- service is built over (files, folders, members, activity, events, usage, quota overrides, and the
-- storage router) are the fields of `Ports`. Sizes are int64 values; their sum wraps.
use nimbus_storage_platform.Base.{
  ℕ, ℤ, pos, ltb_ℤ, add64, Bool, true, not, ◌&&◌, ◌||◌, Option, none, some, List, [], ◌∷◌,
  if◌then◌else◌, ltb, ◌==◌, length,
}
use nimbus_storage_platform.Database.{Db, Upload, is_in_progress, is_presigned, empty}
use nimbus_storage_platform.Database.Actions.{
  Result, ok, err, database_error, ◌>>=◌, ◌>>◌, return, throw, reject_if, best_effort, new_uuid,
}
use nimbus_storage_platform.Storage.Ring.{NodeId, Placement}
use nimbus_storage_platform.Storage.Ring
use nimbus_storage_platform.Upload.Repository.{
  UploadError, Action, upload_not_in_progress, invalid_state, chunk_too_large, checksum_mismatch,
  insufficient_replicas, file_too_large, quota_exceeded, forbidden, invalid_folder,
  target_file_not_found, empty_chunk_order, missing_chunks, already_completing,
  insufficient_healthy_nodes, no_nodes, create_upload, get_upload, get_by_idempotency_key,
  record_org_chunk_proof, upsert_chunk_attempt_presigned, get_chunk_attempt_state,
  mark_chunk_committed, upsert_global_chunk, upsert_chunk_location, find_missing_chunks_for_org,
  finish_upload,
}

-- What an uploaded file is made of, as `FileCreator` is given it.
pub record Content : Type 0 where
  pub size_bytes : ℤ
  pub checksum : ℕ
  pub mime_type : ℕ
  pub chunk_hashes : List ℕ

pub record Target : Type 0 where
  pub org_id : ℕ
  pub folder_id : ℕ
  pub name : ℕ

pub record Ports : Type 0 where
  pub create_with_version : ℕ → ℕ → ℕ → ℕ → Content → Action (ℕ × ℕ)
  pub add_version : ℕ → ℕ → ℕ → Content → Action ℕ
  pub get_for_upload : ℕ → Action Target
  pub org_id_of : ℕ → Action ℕ
  pub is_member : ℕ → ℕ → Action Bool
  pub record_upload : ℕ → ℕ → ℕ → Action (Unit {0})
  pub publish_upload_completed : ℕ → ℕ → ℕ → ℕ → Action (Unit {0})
  pub org_usage_bytes : ℕ → Action ℤ
  pub quota_override : Option (ℕ → Action (Option ℤ))
  pub resolve : ℕ → ℕ → Placement
  pub presign_put : NodeId → ℕ → Action ℕ
  pub row_order : Db → List ℕ → List ℕ

-- The limits of the service. The int fields are read only through `> 0` and `<`, so a negative one
-- reads as 0.
pub record Config : Type 0 where
  pub replication_factor : ℕ
  pub write_quorum : ℕ
  pub chunk_size_bytes : ℤ
  pub max_upload_bytes : ℤ
  pub org_quota_bytes : ℤ

-- `limit > 0 && size > limit`, for the limits that 0 disables.
abbrev pub exceeds : ℤ → ℤ → Bool
exceeds limit size = ltb_ℤ (pos 0) limit && ltb_ℤ limit size

-- A port's own error is replaced by one of the service's: `if err != nil { return ErrX }`.
abbrev pub or_else : {A : Type 0} → Action A → UploadError → Action A
or_else m e w = elim (m w).0 [
  | ok a ↦ (ok a, (m w).1)
  | err _ ↦ (err e, (m w).1)
  | database_error ↦ (err e, (m w).1)
]

-- The loop over the etags of `CommitChunk`: none is empty, and all equal the first. Go visits a map
-- in any order; here the order is the list's.
unfoldable pub etags_agree : ℕ → List (NodeId × ℕ) → Bool
etags_agree first [] = true
etags_agree first ((_, etag) ∷ etags) =
    not (etag == empty)
    && (first == empty || etag == first)
    && etags_agree (if first == empty then etag else first) etags

abbrev pub placed : Placement → Action (List NodeId)
placed p = elim p.error [
  | none ↦ return p.nodes
  | some e ↦ elim e [
    | Ring.no_nodes ↦ throw no_nodes
    | Ring.insufficient_healthy_nodes ↦ throw insufficient_healthy_nodes
  ]
]

-- One UpsertChunkLocation for each replica that acknowledged.
unfoldable pub record_locations : ℕ → List (NodeId × ℕ) → Action (Unit {0})
record_locations hash [] = return tt
record_locations hash ((node_id, _) ∷ etags) =
    upsert_chunk_location hash node_id >> record_locations hash etags

-- `FileID != nil && VersionID != nil`.
abbrev pub both : Option ℕ → Option ℕ → Option (ℕ × ℕ)
both (some f) (some v) = some (f, v)
both (some f) none = none
both none v = none

abbrev pub result_of : Upload → Option (ℕ × ℕ)
result_of u = both u.file_id u.version_id

-- The idempotent replay at the head of `CompleteUpload`: an earlier result under this key. A failing
-- lookup is passed over.
unfoldable pub replay : Upload → ℕ → Action (Option (ℕ × ℕ))
replay u key w =
    if key == empty
    then (ok none, w)
    else let (r, w') = get_by_idempotency_key u.created_by key w in
      (ok (elim r [ ok existing ↦ result_of existing | err _ ↦ none | database_error ↦ none ]), w')

-- What a lost compare-and-swap returns: the winner's result where there is one.
abbrev pub winner_or : Result UploadError Upload → Result UploadError (ℕ × ℕ)
winner_or (ok u) = elim (result_of u) [ none ↦ err already_completing | some r ↦ ok r ]
winner_or (err _) = err already_completing
winner_or database_error = err already_completing

module _ (ports : Ports) (config : Config) where
  abbrev pub override_or : ℤ → Option ℤ → ℤ
  override_or limit none = limit
  override_or limit (some override) = override

  -- The limit that `checkQuota` enforces: the organisation's override, or the configured default.
  unfoldable pub quota_limit : ℕ → Action ℤ
  quota_limit org_id = elim ports.quota_override [
    | none ↦ return config.org_quota_bytes
    | some read ↦ read org_id >>= λ override. return (override_or config.org_quota_bytes override)
  ]

  -- With a positive limit: the stored bytes and the declared size together are within it.
  unfoldable pub check_usage : ℕ → ℤ → ℤ → Action (Unit {0})
  check_usage org_id size limit = do
    used ← ports.org_usage_bytes org_id
    reject_if (ltb_ℤ limit (add64 used size)) quota_exceeded

  unfoldable pub check_quota : ℕ → ℤ → Action (Unit {0})
  check_quota org_id size = do
    limit ← quota_limit org_id
    if ltb_ℤ (pos 0) limit then check_usage org_id size limit else return tt

  -- Where a session's file goes: the named folder, or that of the file that gets a new version.
  unfoldable pub upload_target : ℕ → ℕ → ℕ → Action Target
  upload_target folder_id target_file_id name =
      if target_file_id == empty
      then (do
        org_id ← or_else (ports.org_id_of folder_id) invalid_folder
        return (record { org_id = org_id; folder_id = folder_id; name = name }))
      else (do
        file ← or_else (ports.get_for_upload target_file_id) target_file_not_found
        return (record file { name = if name == empty then file.name else name }))

  unfoldable pub init_upload : ℕ → ℕ → ℕ → ℕ → ℤ → ℕ → Action Upload
  init_upload user_id folder_id target_file_id name size mime_type = do
    reject_if (exceeds config.max_upload_bytes size) file_too_large
    target ← upload_target folder_id target_file_id name
    member ← ports.is_member target.org_id user_id
    reject_if (not member) forbidden
    check_quota target.org_id size
    create_upload target.org_id target.folder_id target.name size mime_type user_id
        (if target_file_id == empty then none else some target_file_id)

  unfoldable pub presign_all : ℕ → List NodeId → Action (List (NodeId × ℕ))
  presign_all hash [] = return []
  presign_all hash (node_id ∷ nodes) = do
    url ← ports.presign_put node_id hash
    rest ← presign_all hash nodes
    return ((node_id, url) ∷ rest)

  -- `InitChunk`; the expiry time of the URLs is left out.
  unfoldable pub init_chunk : Upload → ℕ → Action (List (NodeId × ℕ))
  init_chunk u hash = do
    reject_if (not (is_in_progress u.status)) upload_not_in_progress
    nodes ← placed (ports.resolve hash config.replication_factor)
    targets ← presign_all hash nodes
    upsert_chunk_attempt_presigned u.id hash
    return targets

  -- The checks of `CommitChunk`, before it writes.
  unfoldable pub check_commit : Upload → ℕ → ℤ → List (NodeId × ℕ) → Action (Unit {0})
  check_commit u hash size etags = do
    reject_if (not (is_in_progress u.status)) upload_not_in_progress
    state ← get_chunk_attempt_state u.id hash
    reject_if (not (is_presigned state)) invalid_state
    reject_if (exceeds config.chunk_size_bytes size) chunk_too_large
    reject_if (length etags == 0) checksum_mismatch
    reject_if (ltb 0 config.write_quorum && ltb (length etags) config.write_quorum)
        insufficient_replicas
    reject_if (not (etags_agree empty etags)) checksum_mismatch

  -- Its writes, one statement after the other.
  unfoldable pub write_commit : Upload → ℕ → ℤ → List (NodeId × ℕ) → Action (Unit {0})
  write_commit u hash size etags = do
    mark_chunk_committed u.id hash etags
    upsert_global_chunk hash size
    record_locations hash etags
    record_org_chunk_proof u.org_id hash

  unfoldable pub commit_chunk : Upload → ℕ → ℤ → List (NodeId × ℕ) → Action (Unit {0})
  commit_chunk u hash size etags = check_commit u hash size etags >> write_commit u hash size etags

  -- Every chunk of the order is one that the organisation may claim.
  unfoldable pub check_possession : Upload → List ℕ → Action (Unit {0})
  check_possession u chunk_order = do
    missing ← find_missing_chunks_for_org ports.row_order u.org_id u.id chunk_order
    reject_if (ltb 0 (length missing)) missing_chunks

  -- The checks of `CompleteUpload` after the replay.
  unfoldable pub check_complete : Upload → List ℕ → ℤ → Action (Unit {0})
  check_complete u chunk_order size = do
    reject_if (not (is_in_progress u.status)) upload_not_in_progress
    reject_if (length chunk_order == 0) empty_chunk_order
    reject_if (exceeds config.max_upload_bytes size) file_too_large
    check_quota u.org_id size
    check_possession u chunk_order

  -- The new version of the target file, or the new file.
  unfoldable pub create_file : Upload → Content → Action (ℕ × ℕ)
  create_file u content = elim u.target_file_id [
    | none ↦ ports.create_with_version u.org_id u.folder_id u.name u.created_by content
    | some file_id ↦ ports.add_version u.org_id file_id u.created_by content >>= λ version_id.
        return (file_id, version_id)
  ]

  -- The side effects of a completion: their failures are logged, not returned.
  unfoldable pub announce : Upload → ℕ × ℕ → Action (ℕ × ℕ)
  announce u made = do
    best_effort (ports.record_upload u.org_id u.created_by made.0)
    event_id ← new_uuid
    best_effort (ports.publish_upload_completed event_id made.0 made.1 u.org_id)
    return made

  abbrev pub key_of : ℕ → Option ℕ
  key_of key = if key == empty then none else some key

  -- What follows the compare-and-swap: where it is lost, the winner's result.
  abbrev pub settled : Upload → ℕ × ℕ → Result UploadError (Unit {0}) → Action (ℕ × ℕ)
  settled u made (ok _) w = announce u made w
  settled u made database_error w = (database_error, w)
  settled u made (err e) w = elim e [
    | already_completing ↦ let (x, w') = get_upload u.id w in (winner_or x, w')
    | other ↦ (err other, w)
  ]

  -- The compare-and-swap of the completion.
  unfoldable pub settle : Upload → ℕ → ℕ × ℕ → Action (ℕ × ℕ)
  settle u key made w =
      let (r, w') = finish_upload u.id made.0 made.1 (key_of key) w in settled u made r w'

  unfoldable pub complete_new : Upload → ℕ → Content → Action (ℕ × ℕ)
  complete_new u key content = do
    check_complete u content.chunk_hashes content.size_bytes
    made ← create_file u content
    settle u key made

  -- `CompleteUpload`, with the chunk order, size and checksum of the request.
  unfoldable pub complete_upload : Upload → ℕ → List ℕ → ℤ → ℕ → Action (ℕ × ℕ)
  complete_upload u key chunk_order size checksum = do
    prior ← replay u key
    elim prior [
      | some done ↦ return done
      | none ↦ complete_new u key (record {
        size_bytes = size;
        checksum = checksum;
        mime_type = u.mime_type;
        chunk_hashes = chunk_order;
      })
    ]
