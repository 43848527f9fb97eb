-- ===== src/Gc/Examples.antt =====
-- Concrete runs of backend/internal/gc: a referenced chunk, a garbage chunk, a doomed one and one
-- that a session pins.
use nimbus_storage_platform.Base.{
  ◌++◌, ◌⊎◌, List, ℕ, ◌≡◌, refl, pos, true, false, ◌&&◌, none, some, [], ◌∷◌, any,
}
use nimbus_storage_platform.Database.{
  Db, Chunk, live, doomed, Upload, in_progress, presigned, stored,
}
use nimbus_storage_platform.Upload.Repository.{is_live_chunk}
use nimbus_storage_platform.Gc.{
  ReapCalls, mark, doom_row, is_doomable, sweep, sweep_candidates, reap_all, reap_chunk,
  is_reapable, recorded_nodes, delete_chunk, delete_or_fail, remove_objects, tick,
}
use nimbus_storage_platform.Gc.Mark.{is_spared, mark-live_iff_spared}
use nimbus_storage_platform.Gc.InUse.{InUse, is_removed, tick-InUse}
use nimbus_storage_platform.Gc.Reaping.{IsUnused, RowLast, reap_chunk_objects_first}

abbrev old : ℕ → Chunk
old hash = record {
  hash = hash;
  size_bytes = pos 8;
  gc_state = live;
  last_seen_at = 100;
  doomed_at = none;
}

abbrev session : Upload
session = record {
  id = 50;
  org_id = 7;
  folder_id = 3;
  name = 9;
  declared_size_bytes = pos 10;
  mime_type = 2;
  created_by = 1;
  status = in_progress;
  idempotency_key = none;
  target_file_id = none;
  file_id = none;
  version_id = none;
  created_at = 1000;
}

-- A version refers to chunk 5, nothing to 6, chunk 7 is doomed, and a session pins 8.
abbrev tables : Db
tables = record {
  uploads = session ∷ [];
  upload_chunks = record { upload_id = 50; chunk_hash = 8; state = presigned; etags = [] } ∷ [];
  chunks =
      old 5
      ∷ old 6
      ∷ record (old 7) { gc_state = doomed; doomed_at = some 200 }
      ∷ record (old 8) { gc_state = doomed; doomed_at = some 200 }
      ∷ [];
  chunk_locations =
      record { chunk_hash = 7; node_id = 1; status = stored }
      ∷ record { chunk_hash = 5; node_id = 1; status = stored }
      ∷ record { chunk_hash = 7; node_id = 2; status = stored }
      ∷ [];
  org_chunk_proofs = [];
  version_chunks = record { version_id = 1; sequence = 0; chunk_hash = 5 } ∷ [];
  storage_nodes = 1 ∷ 2 ∷ [];
  files = [];
  file_versions = [];
  org_usage = [];
  folder_ids = 3 ∷ [];
}

abbrev quiet : Db → Db
quiet db = db

mark-live_iff_spared_example :
    any (is_live_chunk 6) (mark 5000 1000 tables).0.chunks
    ≡ any (λ c. is_live_chunk 6 c && is_spared 5000 1000 tables 6 c) tables.chunks
mark-live_iff_spared_example = mark-live_iff_spared 5000 1000 tables 6

abbrev answering : ReapCalls
answering = record { selects = true; locates = true; deletes = true }

-- The old chunk 6 is garbage; chunk 5 stays, and chunk 7, with its objects on both nodes, goes.
swept_7 :
    (tick
      (λ r d. d)
      (λ hash id. true)
      (λ hash. answering)
      quiet
      true
      true
      0
      5000
      1000
      tables).removed
    ≡ (7, 1) ∷ (7, 2) ∷ []
unfolding tick mark doom_row is_doomable sweep sweep_candidates reap_all reap_chunk delete_or_fail
    remove_objects recorded_nodes is_reapable delete_chunk
swept_7 = refl

chunk_5-InUse : InUse 5 1 tables
unfolding recorded_nodes
chunk_5-InUse = record { used = refl; row = refl; location = refl }

tick-InUse_example :
    let swept =
      tick (λ r d. d) (λ hash id. true) (λ hash. answering) quiet true true 0 5000 1000 tables in
    InUse 5 1 swept.db × (is_removed 5 swept.removed ≡ false)
tick-InUse_example =
    tick-InUse 5 1 (λ r d. d) (λ hash id. true) (λ hash. answering) quiet true true 0 5000 1000
      tables (λ r d k. k) (λ d k. k) chunk_5-InUse

reap_chunk_objects_first_example :
    let r = reap_chunk (λ id. true) answering quiet 7 tables in
    ((r.removed ≡ []) × (r.db ≡ tables))
    ⊎ (IsUnused 7 tables
        × ((rest : List ℕ) × (recorded_nodes tables 7 ≡ r.removed ++ rest)
            × RowLast 7 rest tables r.db))
reap_chunk_objects_first_example = reap_chunk_objects_first (λ id. true) answering quiet 7 tables

candidates_7_8 : sweep_candidates 5000 1000 tables ≡ 7 ∷ 8 ∷ []
unfolding sweep_candidates
candidates_7_8 = refl
