-- ===== src/Upload/Commit.antt =====
-- `CommitChunk` of backend/internal/upload/service.go: when a chunk is accepted, and what is then
-- recorded.
use nimbus_storage_platform.Base.{
  ℕ, ◌≤◌, ◌<◌, ◌≡◌, ◌≢◌, refl, sym, ap, ap₂, ◌∙◌, ◌⊎◌, inl, inr, ℤ, true, false, List, [], ◌∷◌,
  arith, ◌==◌, any, All, Bool-cases, length,
}
use nimbus_storage_platform.Database.{Db, Upload, is_in_progress, ChunkLocation, empty}
use nimbus_storage_platform.Database.Actions.{World, ok, ◌>>=◌, >>=-ok, query, exec, call}
use nimbus_storage_platform.Database.Laws.{exec-ok}
use nimbus_storage_platform.Storage.Ring.{NodeId}
use nimbus_storage_platform.Upload.Repository.{
  is_awaiting, commit_attempt, mark_chunk_committed, upsert_chunk, upsert_global_chunk,
  upsert_location, upsert_chunk_location, insert_proof, record_org_chunk_proof,
  get_chunk_attempt_state,
}
use nimbus_storage_platform.Upload.Service.{
  Ports, Config, exceeds, etags_agree, record_locations, check_commit, write_commit, commit_chunk,
}

-- One etag, which is not empty, from every replica.
abbrev pub AllReport : ℕ → List (NodeId × ℕ) → Type 0
AllReport etag etags = All (λ p. p.1 ≡ etag) etags

etags_agree_first :
    (first : ℕ) (etags : List (NodeId × ℕ))
    → first ≢ empty
    → etags_agree first etags ≡ true
    → AllReport first etags
unfolding etags_agree
etags_agree_first first [] h e = tt
etags_agree_first first ((n, etag) ∷ etags) h e = elim (Bool-cases (first == empty)) [
  | inl none_yet ↦ absurd (h (ground arith))
  | inr known ↦
      let e' = rw known at e in (ground arith, etags_agree_first first etags h (ground arith))
]

-- The etag loop accepts a non-empty report only where all replicas report one etag, not empty.
pub etags_agree-AllReport :
    (etags : List (NodeId × ℕ))
    → 0 < length etags
    → etags_agree empty etags ≡ true
    → (etag : ℕ) × (etag ≢ empty) × AllReport etag etags
unfolding etags_agree
etags_agree-AllReport [] h e = absurd (omega arith)
etags_agree-AllReport ((n, etag) ∷ etags) h e =
    let some_etag : etag ≢ empty = ground arith in
    (etag, some_etag, (refl, etags_agree_first etag etags some_etag (ground arith)))

AllReport-etags_agree :
    (first etag : ℕ) (etags : List (NodeId × ℕ))
    → etag ≢ empty
    → (first ≡ empty) ⊎ (first ≡ etag)
    → AllReport etag etags
    → etags_agree first etags ≡ true
unfolding etags_agree
AllReport-etags_agree first etag [] h s a = refl
AllReport-etags_agree first etag ((n, x) ∷ etags) h s a = ground (
  arith,
  AllReport-etags_agree etag etag etags h (inr refl) a.1,
  ap (λ t. etags_agree t etags) a.0,
)

-- Every location that the accepted report names.
unfoldable pub upsert_locations : ℕ → List (NodeId × ℕ) → List ChunkLocation → List ChunkLocation
upsert_locations hash [] ls = ls
upsert_locations hash ((node_id, _) ∷ etags) ls =
    upsert_locations hash etags (upsert_location hash node_id ls)

mark-ok :
    (upload_id hash : ℕ) (etags : List (NodeId × ℕ)) (w : World) {v : World}
    → mark_chunk_committed upload_id hash etags w ≡ (ok tt, v)
    → (v.db
        ≡ record (w.db) { upload_chunks = commit_attempt upload_id hash etags w.db.upload_chunks })
      × (v.now ≡ w.now)
      × (any (is_awaiting upload_id hash) w.db.upload_chunks ≡ true)
unfolding mark_chunk_committed query call
mark-ok upload_id hash etags w h = ground arith

upsert_chunk_location-ok :
    (hash node_id : ℕ) (w : World) {v : World}
    → upsert_chunk_location hash node_id w ≡ (ok tt, v)
    → (v.db ≡ record (w.db) { chunk_locations = upsert_location hash node_id w.db.chunk_locations })
      × (v.now ≡ w.now)
unfolding upsert_chunk_location query call
upsert_chunk_location-ok hash node_id w h = ground arith

upsert_global_chunk-ok :
    (hash : ℕ) (size : ℤ) (w : World) {v : World}
    → upsert_global_chunk hash size w ≡ (ok tt, v)
    → (v.db ≡ record (w.db) { chunks = upsert_chunk hash size w.now w.db.chunks }) × (v.now ≡ w.now)
unfolding upsert_global_chunk exec call
upsert_global_chunk-ok hash size w h = ground arith

record_locations-ok :
    (hash : ℕ) (etags : List (NodeId × ℕ)) (w : World) {v : World}
    → record_locations hash etags w ≡ (ok tt, v)
    → (v.db ≡ record (w.db) { chunk_locations = upsert_locations hash etags w.db.chunk_locations })
      × (v.now ≡ w.now)
unfolding record_locations upsert_locations
record_locations-ok hash [] w h = ground arith
record_locations-ok hash ((n, e) ∷ etags) w h =
    let (u, mid, first, rest) =
      >>=-ok (upsert_chunk_location hash n) (λ _. record_locations hash etags) w h in
    ground (arith, upsert_chunk_location-ok hash n w first, record_locations-ok hash etags mid rest)

-- The tables after an accepted commit at time `now`.
unfoldable pub committed_db : Upload → ℕ → ℤ → List (NodeId × ℕ) → ℕ → Db → Db
committed_db u hash size etags now db = record db {
  upload_chunks = commit_attempt u.id hash etags db.upload_chunks;
  chunks = upsert_chunk hash size now db.chunks;
  chunk_locations = upsert_locations hash etags db.chunk_locations;
  org_chunk_proofs = insert_proof u.org_id hash db.org_chunk_proofs;
}

-- What `CommitChunk` demands before it writes.
pub record Acceptable (config : Config) (u : Upload) (hash : ℕ) (size : ℤ)
    (etags : List (NodeId × ℕ)) (db : Db) : Type 0 where
  pub open_session : is_in_progress u.status ≡ true
  pub awaiting : any (is_awaiting u.id hash) db.upload_chunks ≡ true
  pub small : exceeds config.chunk_size_bytes size ≡ false
  pub reported : 0 < length etags
  pub quorum : config.write_quorum ≤ length etags
  pub agreed : etags_agree empty etags ≡ true

module _ (ports : Ports) (config : Config) where
  pub check_commit-ok :
      (u : Upload) (hash : ℕ) (size : ℤ) (etags : List (NodeId × ℕ)) (w : World) {v : World}
      → check_commit ports config u hash size etags w ≡ (ok tt, v)
      → (is_in_progress u.status ≡ true)
        × (exceeds config.chunk_size_bytes size ≡ false)
        × (0 < length etags)
        × (config.write_quorum ≤ length etags)
        × (etags_agree empty etags ≡ true)
        × (v.db ≡ w.db)
        × (v.now ≡ w.now)
  unfolding check_commit get_chunk_attempt_state query call
  check_commit-ok u hash size etags w h = ground arith

  write_commit-ok :
      (u : Upload) (hash : ℕ) (size : ℤ) (etags : List (NodeId × ℕ)) (w : World) {v : World}
      → write_commit ports config u hash size etags w ≡ (ok tt, v)
      → (v.db ≡ committed_db u hash size etags w.now w.db)
        × (any (is_awaiting u.id hash) w.db.upload_chunks ≡ true)
  unfolding write_commit record_org_chunk_proof committed_db
  write_commit-ok u hash size etags w {v} h =
      let (t₁, w₁, marked, h₁) =
        >>=-ok (mark_chunk_committed u.id hash etags)
          (λ _. upsert_global_chunk hash size >>= λ _.
            record_locations hash etags >>= λ _. record_org_chunk_proof u.org_id hash)
          w h in
      let (t₂, w₂, seen, h₂) =
        >>=-ok (upsert_global_chunk hash size)
          (λ _. record_locations hash etags >>= λ _. record_org_chunk_proof u.org_id hash) w₁ h₁ in
      let (t₃, w₃, located, proved) =
        >>=-ok (record_locations hash etags) (λ _. record_org_chunk_proof u.org_id hash) w₂ h₂ in
      ground (
        arith,
        mark-ok u.id hash etags w marked,
        upsert_global_chunk-ok hash size w₁ seen,
        record_locations-ok hash etags w₂ located,
        exec-ok
            (λ now db. record db {
              org_chunk_proofs = insert_proof u.org_id hash db.org_chunk_proofs;
            })
            w₃ proved,
      )

  -- An accepted commit met its demands and has made each of its writes.
  pub commit_chunk-ok :
      (u : Upload) (hash : ℕ) (size : ℤ) (etags : List (NodeId × ℕ)) (w : World) {v : World}
      → commit_chunk ports config u hash size etags w ≡ (ok tt, v)
      → Acceptable config u hash size etags w.db
        × (v.db ≡ committed_db u hash size etags w.now w.db)
        × ((etag : ℕ) × (etag ≢ empty) × AllReport etag etags)
  unfolding commit_chunk
  commit_chunk-ok u hash size etags w h =
      let (t, mid, checked, written) =
        >>=-ok (check_commit ports config u hash size etags)
          (λ _. write_commit ports config u hash size etags) w h in
      let c = check_commit-ok u hash size etags w checked in
      let (e, a) = write_commit-ok u hash size etags mid written in
      (
        record {
          open_session = c.0;
          awaiting = ap (λ d. any (is_awaiting u.id hash) d.upload_chunks) (sym c.5) ∙ a;
          small = c.1;
          reported = c.2;
          quorum = c.3;
          agreed = c.4;
        },
        e ∙ ap₂ (committed_db u hash size etags) c.6 c.5,
        etags_agree-AllReport etags c.2 c.4,
      )
