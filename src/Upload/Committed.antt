-- ===== src/Upload/Committed.antt =====
-- What an accepted `CommitChunk` of backend/internal/upload/service.go leaves in the tables.
use nimbus_storage_platform.Base.{
  ℕ, ◌≡◌, ◌≢◌, refl, sym, subst, ap, ◌∙◌, ℤ, Bool, true, not, ◌&&◌, Option, none, some, List, [],
  ◌∷◌, arith, map, filter, any, find?, All, ◌==◌, if◌then◌else◌, Bool-cases, inl, inr,
}
use nimbus_storage_platform.Database.{
  Db, Upload, UploadChunk, committed, Chunk, live, ChunkLocation, stored, OrgChunkProof, empty,
}
use nimbus_storage_platform.Database.Actions.{World, ok}
use nimbus_storage_platform.Storage.Ring.{NodeId}
use nimbus_storage_platform.Storage.Locations.{is_stored}
use nimbus_storage_platform.Upload.Repository.{
  is_awaiting, commit_attempt, upsert_chunk, is_location, upsert_location, insert_proof, is_proof,
  in_session,
}
use nimbus_storage_platform.Upload.Service.{Ports, Config, commit_chunk}
use nimbus_storage_platform.Upload.Commit.{
  AllReport, Acceptable, upsert_locations, committed_db, commit_chunk-ok,
}
use nimbus_storage_platform.Upload.Possession.{in_session-commit, is_proof-insert}

abbrev pub is_chunk : ℕ → Chunk → Bool
is_chunk hash c = c.hash == hash

-- The size of a chunk that is there; a new one has the size that the client names.
abbrev pub size_or : ℤ → Option Chunk → ℤ
size_or size none = size
size_or size (some c) = c.size_bytes

abbrev pub has_location : ℕ → NodeId → List ChunkLocation → Bool
has_location hash node_id =
    any (λ (l : ChunkLocation). is_location hash node_id l && is_stored l.status)

-- One of the replicas that report.
abbrev pub reports : ℕ → List (NodeId × ℕ) → ChunkLocation → Bool
reports hash etags l = any (λ (p : NodeId × ℕ). is_location hash p.0 l) etags

-- The tables before and after an accepted commit at time `now`.
pub record IsCommitted (u : Upload) (hash : ℕ) (size : ℤ) (etags : List (NodeId × ℕ)) (now : ℕ)
    (before after : Db) : Type 0 where
  pub attempts :
      after.upload_chunks
      ≡ map
          (λ (r : UploadChunk).
            if is_awaiting u.id hash r then record r { state = committed; etags = etags } else r)
          before.upload_chunks
  pub sent : in_session u.id hash after.upload_chunks ≡ true
  pub chunk :
      find? (is_chunk hash) after.chunks
      ≡ some (record {
        hash = hash;
        size_bytes = size_or size (find? (is_chunk hash) before.chunks);
        gc_state = live;
        last_seen_at = now;
        doomed_at = none;
      })
  pub other_chunks :
      filter (λ c. not (is_chunk hash c)) after.chunks
      ≡ filter (λ c. not (is_chunk hash c)) before.chunks
  pub located : All (λ (p : NodeId × ℕ). has_location hash p.0 after.chunk_locations ≡ true) etags
  pub other_locations :
      filter (λ l. not (reports hash etags l)) after.chunk_locations
      ≡ filter (λ l. not (reports hash etags l)) before.chunk_locations
  pub proven : any (is_proof u.org_id hash) after.org_chunk_proofs ≡ true
  pub other_proofs :
      filter (λ p. not (is_proof u.org_id hash p)) after.org_chunk_proofs
      ≡ filter (λ p. not (is_proof u.org_id hash p)) before.org_chunk_proofs
  pub uploads : after.uploads ≡ before.uploads
  pub version_chunks : after.version_chunks ≡ before.version_chunks
  pub file_versions : after.file_versions ≡ before.file_versions

attempt-map :
    (upload_id hash : ℕ) (etags : List (NodeId × ℕ)) (rows : List UploadChunk)
    → commit_attempt upload_id hash etags rows
      ≡ map
          (λ (r : UploadChunk).
            if is_awaiting upload_id hash r
            then record r { state = committed; etags = etags }
            else r)
          rows
unfolding commit_attempt
attempt-map upload_id hash etags [] = refl
attempt-map upload_id hash etags (r ∷ rs) =
    let r' =
      if is_awaiting upload_id hash r then record r { state = committed; etags = etags } else r in
    ap (◌∷◌ r') (attempt-map upload_id hash etags rs)

upsert_chunk-found :
    (hash : ℕ) (size : ℤ) (now : ℕ) (cs : List Chunk)
    → find? (is_chunk hash) (upsert_chunk hash size now cs)
      ≡ some (record {
        hash = hash;
        size_bytes = size_or size (find? (is_chunk hash) cs);
        gc_state = live;
        last_seen_at = now;
        doomed_at = none;
      })
unfolding upsert_chunk
upsert_chunk-found hash size now [] = ground arith
upsert_chunk-found hash size now (c ∷ cs) = elim (Bool-cases (c.hash == hash)) [
  | inl same ↦ let at : c.hash ≡ hash = ground arith in ground (arith, same, at)
  | inr other ↦ ground (arith, other, upsert_chunk-found hash size now cs)
]

upsert_chunk-others :
    (hash : ℕ) (size : ℤ) (now : ℕ) (cs : List Chunk)
    → filter (λ c. not (is_chunk hash c)) (upsert_chunk hash size now cs)
      ≡ filter (λ c. not (is_chunk hash c)) cs
unfolding upsert_chunk
upsert_chunk-others hash size now [] = ground arith
upsert_chunk-others hash size now (c ∷ cs) = ground (arith, upsert_chunk-others hash size now cs)

upsert_location-there :
    (hash node_id : ℕ) (ls : List ChunkLocation)
    → has_location hash node_id (upsert_location hash node_id ls) ≡ true
unfolding upsert_location
upsert_location-there hash node_id [] = ground arith
upsert_location-there hash node_id (l ∷ ls) = ground (arith, upsert_location-there hash node_id ls)

upsert_location-keeps :
    (hash node_id k n : ℕ) (ls : List ChunkLocation)
    → has_location k n ls ≡ true
    → has_location k n (upsert_location hash node_id ls) ≡ true
unfolding upsert_location
upsert_location-keeps hash node_id k n [] h = cc
upsert_location-keeps hash node_id k n (l ∷ ls) h =
    ground (arith, upsert_location-keeps hash node_id k n ls)

upsert_location-others :
    (hash node_id : ℕ) (q : ChunkLocation → Bool) (ls : List ChunkLocation)
    → ((l : ChunkLocation) → is_location hash node_id l ≡ true → q l ≡ true)
    → filter (λ l. not (q l)) (upsert_location hash node_id ls) ≡ filter (λ l. not (q l)) ls
unfolding upsert_location
upsert_location-others hash node_id q [] covers =
    let new : ChunkLocation = record { chunk_hash = hash; node_id = node_id; status = stored } in
    let covered : q new ≡ true = covers new (ground arith) in ground (arith, covered)
upsert_location-others hash node_id q (l ∷ ls) covers =
    elim (Bool-cases (is_location hash node_id l)) [
      | inl here ↦
          let before = covers l here in
          let after = covers (record l { status = stored }) here in
          ground (arith, here, before, after)
      | inr away ↦ ground (arith, away, upsert_location-others hash node_id q ls covers)
    ]

locations-keep :
    (hash k n : ℕ) (etags : List (NodeId × ℕ)) (ls : List ChunkLocation)
    → has_location k n ls ≡ true
    → has_location k n (upsert_locations hash etags ls) ≡ true
unfolding upsert_locations
locations-keep hash k n [] ls h = h
locations-keep hash k n ((node_id, _) ∷ etags) ls h =
    locations-keep hash k n etags (upsert_location hash node_id ls)
      (upsert_location-keeps hash node_id k n ls h)

locations-there :
    (hash : ℕ) (etags : List (NodeId × ℕ)) (ls : List ChunkLocation)
    → All (λ (p : NodeId × ℕ). has_location hash p.0 (upsert_locations hash etags ls) ≡ true) etags
unfolding upsert_locations
locations-there hash [] ls = tt
locations-there hash ((node_id, _) ∷ etags) ls = (
  locations-keep hash hash node_id etags (upsert_location hash node_id ls)
      (upsert_location-there hash node_id ls),
  locations-there hash etags (upsert_location hash node_id ls),
)

locations-others :
    (hash : ℕ) (q : ChunkLocation → Bool) (etags : List (NodeId × ℕ)) (ls : List ChunkLocation)
    → ((l : ChunkLocation) → reports hash etags l ≡ true → q l ≡ true)
    → filter (λ l. not (q l)) (upsert_locations hash etags ls) ≡ filter (λ l. not (q l)) ls
unfolding upsert_locations
locations-others hash q [] ls covers = refl
locations-others hash q ((node_id, etag) ∷ etags) ls covers =
    locations-others hash q etags (upsert_location hash node_id ls)
      (λ l h. covers l (ground (arith, h)))
    ∙ upsert_location-others hash node_id q ls (λ l h. covers l (ground (arith, h)))

insert_proof-others :
    (org_id hash : ℕ) (rows : List OrgChunkProof)
    → filter (λ p. not (is_proof org_id hash p)) (insert_proof org_id hash rows)
      ≡ filter (λ p. not (is_proof org_id hash p)) rows
unfolding insert_proof
insert_proof-others org_id hash rows = ground arith

committed_db-IsCommitted :
    (u : Upload) (hash : ℕ) (size : ℤ) (etags : List (NodeId × ℕ)) (now : ℕ) (db : Db)
    → any (is_awaiting u.id hash) db.upload_chunks ≡ true
    → IsCommitted u hash size etags now db (committed_db u hash size etags now db)
unfolding committed_db
committed_db-IsCommitted u hash size etags now db awaiting = record {
  attempts = attempt-map u.id hash etags db.upload_chunks;
  sent = in_session-commit u.id hash etags db.upload_chunks awaiting;
  chunk = upsert_chunk-found hash size now db.chunks;
  other_chunks = upsert_chunk-others hash size now db.chunks;
  located = locations-there hash etags db.chunk_locations;
  other_locations = locations-others hash (reports hash etags) etags db.chunk_locations (λ l h. h);
  proven = is_proof-insert u.org_id hash db.org_chunk_proofs;
  other_proofs = insert_proof-others u.org_id hash db.org_chunk_proofs;
  uploads = refl;
  version_chunks = refl;
  file_versions = refl;
}

-- An accepted commit met every demand (an open session, an attempt awaiting its commit, a size
-- within the limit, a quorum of replicas that report one etag). It leaves the attempt committed with
-- the etags, the chunk live and seen now, a stored location for each reporting replica and the
-- organisation's proof, and no other attempt, chunk, location or proof differs.
pub commit_chunk_accepted :
    (ports : Ports) (config : Config) (u : Upload) (hash : ℕ) (size : ℤ) (etags : List (NodeId × ℕ))
    (w : World) {v : World}
    → commit_chunk ports config u hash size etags w ≡ (ok tt, v)
    → Acceptable config u hash size etags w.db
      × IsCommitted u hash size etags w.now w.db v.db
      × ((etag : ℕ) × (etag ≢ empty) × AllReport etag etags)
commit_chunk_accepted ports config u hash size etags w h =
    let (accepted, made, agreed) = commit_chunk-ok ports config u hash size etags w h in
    (
      accepted,
      subst (IsCommitted u hash size etags w.now w.db) (sym made)
          (committed_db-IsCommitted u hash size etags w.now w.db accepted.awaiting),
      agreed,
    )
