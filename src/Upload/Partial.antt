-- ===== src/Upload/Partial.antt =====
-- Commits of backend/internal/upload/service.go from start to end where the database answers.
use nimbus_storage_platform.Base.{
  ℕ, ◌≡◌, refl, ℤ, true, false, List, [], ◌∷◌, arith, some, mem, any, All, find?, fits_int4,
}
use nimbus_storage_platform.Database.{Db, Upload, UploadChunk, is_presigned}
use nimbus_storage_platform.Database.Actions.{World, ok, database_error, query, exec, call}
use nimbus_storage_platform.Storage.Ring.{NodeId}
use nimbus_storage_platform.Upload.Repository.{
  UploadError, is_attempt, is_awaiting, commit_attempt, mark_chunk_committed, upsert_chunk,
  upsert_global_chunk, upsert_location, upsert_chunk_location, record_org_chunk_proof,
  get_chunk_attempt_state, in_session,
}
use nimbus_storage_platform.Upload.Service.{
  Ports, Config, record_locations, check_commit, write_commit, commit_chunk,
}
use nimbus_storage_platform.Upload.Commit.{Acceptable, committed_db, upsert_locations}
use nimbus_storage_platform.Upload.Possession.{in_session-commit}

-- The session's attempt at the chunk awaits its commit, and every call of the database answers.
pub record Ready (u : Upload) (hash : ℕ) (w : World) : Type 0 where
  pub attempt : UploadChunk
  pub found : find? (is_attempt u.id hash) w.db.upload_chunks ≡ some attempt
  pub presigned : is_presigned attempt.state ≡ true
  pub no_faults : w.faults ≡ []

check_commit-passes :
    (ports : Ports) (config : Config) (u : Upload) (hash : ℕ) (size : ℤ) (etags : List (NodeId × ℕ))
    (w : World)
    → Ready u hash w
    → Acceptable config u hash size etags w.db
    → check_commit ports config u hash size etags w ≡ (ok tt, w)
unfolding check_commit get_chunk_attempt_state query call
check_commit-passes ports config u hash size etags w r a =
    ground (arith, r.found, r.presigned, r.no_faults)

-- The world with other tables.
abbrev with_db : World → Db → World
with_db w db = record w { db = db }

mark-passes :
    (upload_id hash : ℕ) (etags : List (NodeId × ℕ)) (w : World)
    → w.faults ≡ []
    → any (is_awaiting upload_id hash) w.db.upload_chunks ≡ true
    → mark_chunk_committed upload_id hash etags w ≡ (
      ok tt,
      with_db w (record (w.db) {
        upload_chunks = commit_attempt upload_id hash etags w.db.upload_chunks;
      }),
    )
unfolding mark_chunk_committed query call
mark-passes upload_id hash etags w f h = ground arith

exec-passes :
    (f : ℕ → Db → Db) (w : World)
    → w.faults ≡ []
    → exec {E = UploadError} f w ≡ (ok tt, with_db w (f w.now w.db))
unfolding exec call
exec-passes f w h = ground arith

upsert_global_chunk-passes :
    (hash : ℕ) (size : ℤ) (w : World)
    → w.faults ≡ []
    → fits_int4 size ≡ true
    → upsert_global_chunk hash size w
      ≡ (ok tt, with_db w (record (w.db) { chunks = upsert_chunk hash size w.now w.db.chunks }))
unfolding upsert_global_chunk exec call
upsert_global_chunk-passes hash size w f h = ground arith

location-unknown :
    (hash node_id : ℕ) (w : World)
    → w.faults ≡ []
    → mem node_id w.db.storage_nodes ≡ false
    → upsert_chunk_location hash node_id w ≡ (database_error, w)
unfolding upsert_chunk_location query call
location-unknown hash node_id w f h = ground arith

record_locations-unknown :
    (hash n etag : ℕ) (etags : List (NodeId × ℕ)) (w : World)
    → w.faults ≡ []
    → mem n w.db.storage_nodes ≡ false
    → record_locations hash ((n, etag) ∷ etags) w ≡ (database_error, w)
unfolding record_locations
record_locations-unknown hash n etag etags w f h = rw (location-unknown hash n w f h)

-- A report of a 32-bit size that passes every check but names first a node that storage_nodes does
-- not hold, while the database answers: the
-- commit fails with a database error, though it has already marked the attempt committed. The
-- session then counts the chunk as sent, with no location and no proof recorded.
pub commit_chunk_unknown_node :
    (ports : Ports) (config : Config) (u : Upload) (hash : ℕ) (size : ℤ) (n etag : ℕ)
    (etags : List (NodeId × ℕ)) (w : World)
    → Ready u hash w
    → Acceptable config u hash size ((n, etag) ∷ etags) w.db
    → fits_int4 size ≡ true
    → mem n w.db.storage_nodes ≡ false
    → let (result, v) = commit_chunk ports config u hash size ((n, etag) ∷ etags) w in
      (result ≡ database_error)
      × (in_session u.id hash v.db.upload_chunks ≡ true)
      × (v.db.chunk_locations ≡ w.db.chunk_locations)
      × (v.db.org_chunk_proofs ≡ w.db.org_chunk_proofs)
unfolding commit_chunk write_commit
commit_chunk_unknown_node ports config u hash size n etag etags w r a fits h =
    let marked = with_db w (record (w.db) {
      upload_chunks = commit_attempt u.id hash ((n, etag) ∷ etags) w.db.upload_chunks;
    }) in
    let next =
      with_db marked (record (marked.db) { chunks = upsert_chunk hash size w.now w.db.chunks }) in
    rw
      (
        check_commit-passes ports config u hash size ((n, etag) ∷ etags) w r a,
        mark-passes u.id hash ((n, etag) ∷ etags) w r.no_faults a.awaiting,
        upsert_global_chunk-passes hash size marked r.no_faults fits,
        record_locations-unknown hash n etag etags next r.no_faults h,
      )
      (
        refl,
        in_session-commit u.id hash ((n, etag) ∷ etags) w.db.upload_chunks a.awaiting,
        refl,
        refl,
      )

upsert_chunk_location-passes :
    (hash node_id : ℕ) (w : World)
    → w.faults ≡ []
    → mem node_id w.db.storage_nodes ≡ true
    → upsert_chunk_location hash node_id w ≡ (
      ok tt,
      with_db w
          (record (w.db) { chunk_locations = upsert_location hash node_id w.db.chunk_locations }),
    )
unfolding upsert_chunk_location query call
upsert_chunk_location-passes hash node_id w f h = ground arith

record_locations-passes :
    (hash : ℕ) (etags : List (NodeId × ℕ)) (w : World)
    → w.faults ≡ []
    → All (λ p. mem p.0 w.db.storage_nodes ≡ true) etags
    → record_locations hash etags w ≡ (
      ok tt,
      with_db w
          (record (w.db) { chunk_locations = upsert_locations hash etags w.db.chunk_locations }),
    )
unfolding record_locations upsert_locations
record_locations-passes hash [] w f h = refl
record_locations-passes hash ((n, etag) ∷ etags) w f h =
    let next =
      with_db w (record (w.db) { chunk_locations = upsert_location hash n w.db.chunk_locations }) in
    rw (upsert_chunk_location-passes hash n w f h.0) (record_locations-passes hash etags next f h.1)

-- Where the database answers, a commit that meets the demands, whose size fits 32 bits and which
-- names known nodes is accepted, and leaves the committed tables.
pub commit_chunk_accepts :
    (ports : Ports) (config : Config) (u : Upload) (hash : ℕ) (size : ℤ) (etags : List (NodeId × ℕ))
    (w : World)
    → Ready u hash w
    → Acceptable config u hash size etags w.db
    → fits_int4 size ≡ true
    → All (λ p. mem p.0 w.db.storage_nodes ≡ true) etags
    → commit_chunk ports config u hash size etags w
      ≡ (ok tt, with_db w (committed_db u hash size etags w.now w.db))
unfolding commit_chunk write_commit record_org_chunk_proof committed_db
commit_chunk_accepts ports config u hash size etags w r a fits h =
    let marked =
      with_db w
        (record (w.db) { upload_chunks = commit_attempt u.id hash etags w.db.upload_chunks }) in
    let next =
      with_db marked (record (marked.db) { chunks = upsert_chunk hash size w.now w.db.chunks }) in
    let located =
      with_db next
        (record (next.db) { chunk_locations = upsert_locations hash etags w.db.chunk_locations }) in
    rw
      (
        check_commit-passes ports config u hash size etags w r a,
        mark-passes u.id hash etags w r.no_faults a.awaiting,
        upsert_global_chunk-passes hash size marked r.no_faults fits,
        record_locations-passes hash etags next r.no_faults h,
      )
      (exec-passes _ located r.no_faults)

-- A size that passes every check but does not fit the 32-bit column chunks.size_bytes (as it may
-- where no chunk size limit is configured), while the database answers: the commit fails with a
-- database error after the attempt is marked committed. The session then counts the chunk as sent, with no chunk row written.
pub commit_chunk_oversized :
    (ports : Ports) (config : Config) (u : Upload) (hash : ℕ) (size : ℤ) (etags : List (NodeId × ℕ))
    (w : World)
    → Ready u hash w
    → Acceptable config u hash size etags w.db
    → fits_int4 size ≡ false
    → let (result, v) = commit_chunk ports config u hash size etags w in
      (result ≡ database_error)
      × (in_session u.id hash v.db.upload_chunks ≡ true)
      × (v.db.chunks ≡ w.db.chunks)
unfolding commit_chunk write_commit upsert_global_chunk
commit_chunk_oversized ports config u hash size etags w r a large =
    rw
      (
        check_commit-passes ports config u hash size etags w r a,
        mark-passes u.id hash etags w r.no_faults a.awaiting,
        large,
      )
      (refl, in_session-commit u.id hash etags w.db.upload_chunks a.awaiting, refl)
