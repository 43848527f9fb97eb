-- ===== src/Upload/Repository.antt =====
-- backend/internal/upload/repository.go, with the errors of types.go: each method is its SQL
-- statement on the tables. `ON CONFLICT` and `WHERE` are written out row by row; foreign keys and
-- column types are checked where the client's input can break them (chunk_locations.node_id,
-- chunks.size_bytes).
use nimbus_storage_platform.Base.{
  zero, suc, ℕ, ℤ, Bool, true, false, not, ◌&&◌, Option, none, some, List, [], ◌∷◌, map,
  if◌then◌else◌, ◌==◌, fits_int4, filter, any, find?, mem,
}
use nimbus_storage_platform.Database.{
  Upload, in_progress, completed, is_in_progress, UploadChunk, ChunkState, presigned, committed,
  is_presigned, is_committed, Chunk, live, is_live, ChunkLocation, stored, OrgChunkProof, Db,
}
use nimbus_storage_platform.Database.Actions.{
  M, ◌>>=◌, ◌>>◌, return, reject_if, exec, query, call, read, write, new_uuid, or_throw, ok,
  database_error,
}

pub data UploadError : Type 0 where
  upload_not_found invalid_folder target_file_not_found forbidden chunk_not_found : UploadError
  invalid_state checksum_mismatch upload_not_in_progress empty_chunk_order : UploadError
  missing_chunks file_too_large quota_exceeded insufficient_replicas chunk_too_large : UploadError
  already_completing insufficient_healthy_nodes no_nodes : UploadError

abbrev pub Action : Type 0 → Type 0
Action A = M UploadError A

abbrev pub set_uploads : List Upload → Db → Db
set_uploads rows db = record db { uploads = rows }

-- The row that `CreateUpload` inserts; the omitted columns have their defaults.
unfoldable pub new_upload : ℕ → ℕ → ℕ → ℕ → ℕ → ℤ → ℕ → ℕ → Option ℕ → Upload
new_upload id now org_id folder_id name size mime_type created_by target = record {
  id = id;
  org_id = org_id;
  folder_id = folder_id;
  name = name;
  declared_size_bytes = size;
  mime_type = mime_type;
  created_by = created_by;
  status = in_progress;
  idempotency_key = none;
  target_file_id = target;
  file_id = none;
  version_id = none;
  created_at = now;
}

abbrev insert_upload : (ℕ → Upload) → Action Upload
insert_upload row w =
    (ok (row w.now), record w { db = set_uploads (row w.now ∷ w.db.uploads) w.db })

-- `CreateUpload`.
unfoldable pub create_upload : ℕ → ℕ → ℕ → ℤ → ℕ → ℕ → Option ℕ → Action Upload
create_upload org_id folder_id name size mime_type created_by target = do
  id ← new_uuid
  call
  insert_upload (λ now. new_upload id now org_id folder_id name size mime_type created_by target)

unfoldable pub get_upload : ℕ → Action Upload
get_upload id = do
  row ← query (λ db. find? (λ (u : Upload). u.id == id) db.uploads)
  or_throw row upload_not_found

abbrev pub has_key : ℕ → Option ℕ → Bool
has_key key none = false
has_key key (some k) = k == key

unfoldable pub keyed_upload : ℕ → ℕ → List Upload → Option Upload
keyed_upload created_by key =
    find? (λ u. u.created_by == created_by && has_key key u.idempotency_key)

unfoldable pub get_by_idempotency_key : ℕ → ℕ → Action Upload
get_by_idempotency_key created_by key = do
  row ← query (λ db. keyed_upload created_by key db.uploads)
  or_throw row upload_not_found

abbrev pub is_proof : ℕ → ℕ → OrgChunkProof → Bool
is_proof org_id hash p = p.org_id == org_id && p.chunk_hash == hash

-- INSERT … ON CONFLICT DO NOTHING.
unfoldable pub insert_proof : ℕ → ℕ → List OrgChunkProof → List OrgChunkProof
insert_proof org_id hash rows =
    if any (is_proof org_id hash) rows
    then rows
    else record { org_id = org_id; chunk_hash = hash } ∷ rows

unfoldable pub record_org_chunk_proof : ℕ → ℕ → Action (Unit {0})
record_org_chunk_proof org_id hash =
    exec (λ now db. record db { org_chunk_proofs = insert_proof org_id hash db.org_chunk_proofs })

abbrev pub is_attempt : ℕ → ℕ → UploadChunk → Bool
is_attempt upload_id hash r = r.upload_id == upload_id && r.chunk_hash == hash

-- The upsert of `UpsertChunkAttemptPresigned`: a committed attempt is left as it is.
unfoldable pub presign_attempt : ℕ → ℕ → List UploadChunk → List UploadChunk
presign_attempt upload_id hash [] =
    record { upload_id = upload_id; chunk_hash = hash; state = presigned; etags = [] } ∷ []
presign_attempt upload_id hash (r ∷ rs) =
    if is_attempt upload_id hash r
    then record r { state = if is_committed r.state then r.state else presigned } ∷ rs
    else r ∷ presign_attempt upload_id hash rs

unfoldable pub upsert_chunk_attempt_presigned : ℕ → ℕ → Action (Unit {0})
upsert_chunk_attempt_presigned upload_id hash =
    exec (λ now db. record db { upload_chunks = presign_attempt upload_id hash db.upload_chunks })

unfoldable pub get_chunk_attempt_state : ℕ → ℕ → Action ChunkState
get_chunk_attempt_state upload_id hash = do
  row ← query (λ db. find? (is_attempt upload_id hash) db.upload_chunks)
  attempt ← or_throw row chunk_not_found
  return attempt.state

abbrev pub is_awaiting : ℕ → ℕ → UploadChunk → Bool
is_awaiting upload_id hash r = is_attempt upload_id hash r && is_presigned r.state

unfoldable pub commit_attempt : ℕ → ℕ → List (ℕ × ℕ) → List UploadChunk → List UploadChunk
commit_attempt upload_id hash etags [] = []
commit_attempt upload_id hash etags (r ∷ rs) =
    (if is_awaiting upload_id hash r then record r { state = committed; etags = etags } else r)
    ∷ commit_attempt upload_id hash etags rs

-- `MarkChunkCommitted`: no row affected means that the attempt was not awaiting its commit.
unfoldable pub mark_chunk_committed : ℕ → ℕ → List (ℕ × ℕ) → Action (Unit {0})
mark_chunk_committed upload_id hash etags = do
  affected ← query (λ db. any (is_awaiting upload_id hash) db.upload_chunks)
  reject_if (not affected) invalid_state
  write (λ db. record db { upload_chunks = commit_attempt upload_id hash etags db.upload_chunks })

-- Its upsert: a chunk that is there becomes live again and is seen now.
unfoldable pub upsert_chunk : ℕ → ℤ → ℕ → List Chunk → List Chunk
upsert_chunk hash size now [] =
    record { hash = hash; size_bytes = size; gc_state = live; last_seen_at = now; doomed_at = none }
    ∷ []
upsert_chunk hash size now (c ∷ cs) =
    if c.hash == hash
    then record c { gc_state = live; doomed_at = none; last_seen_at = now } ∷ cs
    else c ∷ upsert_chunk hash size now cs

abbrev pub database_error_if : Bool → Action (Unit {0})
database_error_if true w = (database_error, w)
database_error_if false w = (ok tt, w)

-- `UpsertGlobalChunk`: chunks.size_bytes is a 32-bit `int`, which a larger size does not fit.
unfoldable pub upsert_global_chunk : ℕ → ℤ → Action (Unit {0})
upsert_global_chunk hash size = do
  database_error_if (not (fits_int4 size))
  exec (λ now db. record db { chunks = upsert_chunk hash size now db.chunks })

abbrev pub is_location : ℕ → ℕ → ChunkLocation → Bool
is_location hash node_id l = l.chunk_hash == hash && l.node_id == node_id

unfoldable pub upsert_location : ℕ → ℕ → List ChunkLocation → List ChunkLocation
upsert_location hash node_id [] =
    record { chunk_hash = hash; node_id = node_id; status = stored } ∷ []
upsert_location hash node_id (l ∷ ls) =
    if is_location hash node_id l
    then record l { status = stored } ∷ ls
    else l ∷ upsert_location hash node_id ls

-- `UpsertChunkLocation`, with the foreign key on storage_nodes.
unfoldable pub upsert_chunk_location : ℕ → ℕ → Action (Unit {0})
upsert_chunk_location hash node_id = do
  known ← query (λ db. mem node_id db.storage_nodes)
  database_error_if (not known)
  write (λ db. record db { chunk_locations = upsert_location hash node_id db.chunk_locations })

-- A chunk committed in this session needs no further check.
abbrev pub in_session : ℕ → ℕ → List UploadChunk → Bool
in_session upload_id hash = any (λ r. is_attempt upload_id hash r && is_committed r.state)

abbrev pub is_live_chunk : ℕ → Chunk → Bool
is_live_chunk hash c = c.hash == hash && is_live c.gc_state

-- The UPDATE of `FindMissingChunksForOrg`: live chunks among the candidates are seen now.
unfoldable pub touch : List ℕ → ℕ → List Chunk → List Chunk
touch candidates now [] = []
touch candidates now (c ∷ cs) =
    (if mem c.hash candidates && is_live c.gc_state then record c { last_seen_at = now } else c)
    ∷ touch candidates now cs

-- A candidate that the second statement returns: touched, and proven by the organisation.
abbrev pub is_proven : ℕ → Db → ℕ → Bool
is_proven org_id db hash =
    any (is_live_chunk hash) db.chunks && any (is_proof org_id hash) db.org_chunk_proofs

-- The candidates that stay missing, after the touch.
unfoldable pub unproven : ℕ → List ℕ → Db → List ℕ
unproven org_id candidates db = filter (λ h. not (is_proven org_id db h)) candidates

-- The second statement of `FindMissingChunksForOrg`, which is skipped with no candidates.
unfoldable pub check_candidates : ℕ → List ℕ → Action (List ℕ)
unfolding touch unproven
check_candidates org_id [] = return []
check_candidates org_id (h ∷ hs) = do
  exec (λ now db. record db { chunks = touch (h ∷ hs) now db.chunks })
  read (unproven org_id (h ∷ hs))

-- Postgres returns the rows of a SELECT without ORDER BY in any order: each row is put at a position
-- among the rows after it, the list's end where the position is further off.
unfoldable pub put_row : ℕ → ℕ → List ℕ → List ℕ
put_row position row [] = row ∷ []
put_row zero row (x ∷ xs) = row ∷ x ∷ xs
put_row (suc position) row (x ∷ xs) = x ∷ put_row position row xs

unfoldable pub arrange : List ℕ → List ℕ → List ℕ
arrange positions [] = []
arrange [] (row ∷ rows) = row ∷ rows
arrange (position ∷ positions) (row ∷ rows) = put_row position row (arrange positions rows)

-- The first statement of `FindMissingChunksForOrg`: the hashes that are not committed in the session.
abbrev pub uncommitted : ℕ → List ℕ → Db → List ℕ
uncommitted upload_id hashes db = filter (λ h. not (in_session upload_id h db.upload_chunks)) hashes

-- `row_order` says where the rows of the first statement are put.
unfoldable pub find_missing_chunks_for_org :
    (Db → List ℕ → List ℕ) → ℕ → ℕ → List ℕ → Action (List ℕ)
find_missing_chunks_for_org row_order org_id upload_id hashes = do
  candidates ←
      query λ db. let rows = uncommitted upload_id hashes db in arrange (row_order db rows) rows
  check_candidates org_id candidates

-- The row that wins the compare-and-swap on status = 'in_progress'.
abbrev pub is_open_upload : ℕ → Upload → Bool
is_open_upload id u = u.id == id && is_in_progress u.status

unfoldable pub complete_row : ℕ → ℕ → ℕ → Option ℕ → Upload → Upload
complete_row id file_id version_id key u =
    if is_open_upload id u
    then record u {
      status = completed;
      file_id = some file_id;
      version_id = some version_id;
      idempotency_key = key;
    }
    else u

abbrev pub key_taken : ℕ → Option ℕ → List Upload → Bool
key_taken created_by none rows = false
key_taken created_by (some key) rows =
    any (λ u. u.created_by == created_by && has_key key u.idempotency_key) rows

-- The unique index on (created_by, idempotency_key), against the rows other than the updated one.
abbrev pub violates_unique_key : ℕ → Option ℕ → List Upload → Bool
violates_unique_key id key rows =
    any
      (λ u. is_open_upload id u && key_taken u.created_by key (filter (λ v. not (v.id == id)) rows))
      rows

-- `CompleteUpload` of the repository.
unfoldable pub finish_upload : ℕ → ℕ → ℕ → Option ℕ → Action (Unit {0})
finish_upload id file_id version_id key = do
  rows ← query (λ db. db.uploads)
  reject_if (violates_unique_key id key rows) already_completing
  reject_if (not (any (is_open_upload id) rows)) already_completing
  write (set_uploads (map (complete_row id file_id version_id key) rows))
