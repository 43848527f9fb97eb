-- ===== src/Upload/Examples.antt =====
-- Concrete runs of backend/internal/upload: one organisation, one open session and one storage
-- cluster of two nodes.
use mathlib.Core.List.{Perm}
use nimbus_storage_platform.Base.{
  Bool, ◌≢◌, ℕ, ◌≡◌, ◌⊎◌, refl, pos, negsuc, true, not, none, some, List, [], ◌∷◌, arith, filter,
  ◌==◌, ap, add64,
}
use nimbus_storage_platform.Database.{
  Db, Upload, in_progress, completed, presigned, live, stored, empty,
}
use nimbus_storage_platform.Database.Actions.{
  World, ok, err, database_error, return, query, call, exec, new_uuid,
}
use nimbus_storage_platform.Storage.Ring.{NodeId}
use nimbus_storage_platform.Upload.Repository.{
  quota_exceeded, find_missing_chunks_for_org, arrange, put_row, in_session, finish_upload,
  complete_row, already_completing, keyed_upload, get_chunk_attempt_state, checksum_mismatch,
  check_candidates, get_by_idempotency_key,
}
use nimbus_storage_platform.Upload.Service.{
  Ports, Config, Target, commit_chunk, check_commit, quota_limit, check_quota, complete_upload,
  result_of, etags_agree, check_usage, replay, complete_new, check_complete, check_possession,
  create_file, settle, announce,
}
use nimbus_storage_platform.Upload.Dedup.{claimable, find_missing-unclaimable}
use nimbus_storage_platform.Upload.Committed.{IsCommitted, commit_chunk_accepted}
use nimbus_storage_platform.Upload.Commit.{AllReport, Acceptable, committed_db}
use nimbus_storage_platform.Upload.Partial.{
  Ready, commit_chunk_unknown_node, commit_chunk_oversized, commit_chunk_accepts,
}
use nimbus_storage_platform.Upload.Quota.{
  Reads, check_quota_exact, check_quota_overflow, check_quota_negative,
}
use nimbus_storage_platform.Upload.Complete.{
  Completable, IsReading, finish_upload_wins_once, complete_upload-Completable,
}

abbrev session : Upload
session = record {
  id = 50;
  org_id = 7;
  folder_id = 3;
  name = 9;
  declared_size_bytes = pos 10;
  mime_type = 2;
  created_by = 1;
  status = in_progress;
  idempotency_key = none;
  target_file_id = none;
  file_id = none;
  version_id = none;
  created_at = 1000;
}

abbrev finished : Upload
finished = record session {
  id = 51;
  status = completed;
  idempotency_key = some 77;
  file_id = some 60;
  version_id = some 61;
}

abbrev tables : Db
tables = record {
  uploads = session ∷ finished ∷ [];
  upload_chunks = record { upload_id = 50; chunk_hash = 4; state = presigned; etags = [] } ∷ [];
  chunks =
      record { hash = 5; size_bytes = pos 8; gc_state = live; last_seen_at = 900; doomed_at = none }
      ∷ record {
        hash = 6;
        size_bytes = pos 8;
        gc_state = live;
        last_seen_at = 900;
        doomed_at = none;
      }
      ∷ [];
  chunk_locations = record { chunk_hash = 5; node_id = 1; status = stored } ∷ [];
  org_chunk_proofs =
      record { org_id = 7; chunk_hash = 5 } ∷ record { org_id = 8; chunk_hash = 6 } ∷ [];
  version_chunks = [];
  storage_nodes = 1 ∷ 2 ∷ [];
  files = [];
  file_versions = [];
  org_usage = [];
  folder_ids = 3 ∷ [];
}

abbrev world : World
world = record { db = tables; now = 1200; faults = []; next_id = 100 }

abbrev config : Config
config = record {
  replication_factor = 2;
  write_quorum = 2;
  chunk_size_bytes = pos 16;
  max_upload_bytes = pos 64;
  org_quota_bytes = pos 100;
}

abbrev target : Target
target = record { org_id = 7; folder_id = 3; name = 9 }

-- Ports that answer: 90 bytes are stored, user 1 is a member, new files get numbers 70 and 71.
abbrev ports : Ports
ports = record {
  create_with_version = λ org folder name user content. return (70, 71);
  add_version = λ org file user content. return 71;
  get_for_upload = λ file. return target;
  org_id_of = λ folder. return 7;
  is_member = λ org user. return (user == 1);
  record_upload = λ org user file. return tt;
  publish_upload_completed = λ event file version org. return tt;
  org_usage_bytes = λ org. return (pos 90);
  quota_override = none;
  resolve = λ hash n. record { nodes = 1 ∷ 2 ∷ []; error = none };
  presign_put = λ id hash. return hash;
  row_order = λ db rows. [];
}

abbrev report : List (NodeId × ℕ)
report = (1, 33) ∷ (2, 33) ∷ []

-- Chunk 4 is new, chunk 5 is proven by organisation 7, chunk 6 by another one; the first row comes
-- last.
abbrev first_last : Db → List ℕ → List ℕ
first_last db rows = 2 ∷ []

missing_6_4 :
    find_missing_chunks_for_org first_last 7 50 (4 ∷ 5 ∷ 6 ∷ []) world
    ≡ (ok (6 ∷ 4 ∷ []), (find_missing_chunks_for_org first_last 7 50 (4 ∷ 5 ∷ 6 ∷ []) world).1)
unfolding find_missing_chunks_for_org query call exec check_candidates arrange put_row
missing_6_4 = refl

find_missing-unclaimable_example :
    Perm (6 ∷ 4 ∷ []) (filter (λ h. not (claimable world.db 7 50 h)) (4 ∷ 5 ∷ 6 ∷ []))
find_missing-unclaimable_example =
    find_missing-unclaimable first_last 7 50 (4 ∷ 5 ∷ 6 ∷ []) world missing_6_4

report_agrees : etags_agree empty report ≡ true
unfolding etags_agree
report_agrees = refl

report-Acceptable : Acceptable config session 4 (pos 10) report tables
unfolding etags_agree
report-Acceptable = record {
  open_session = refl;
  awaiting = refl;
  small = refl;
  reported = omega arith;
  quorum = omega arith;
  agreed = refl;
}

session-Ready : Ready session 4 world
session-Ready = record {
  attempt = record { upload_id = 50; chunk_hash = 4; state = presigned; etags = [] };
  found = refl;
  presigned = refl;
  no_faults = refl;
}

abbrev after_commit : World
after_commit = record world { db = committed_db session 4 (pos 10) report 1200 tables }

accepted : commit_chunk ports config session 4 (pos 10) report world ≡ (ok tt, after_commit)
accepted =
    commit_chunk_accepts ports config session 4 (pos 10) report world session-Ready
      report-Acceptable refl (refl, (refl, tt))

commit_chunk_accepted_example :
    Acceptable config session 4 (pos 10) report world.db
    × IsCommitted session 4 (pos 10) report world.now world.db after_commit.db
    × ((etag : ℕ) × (etag ≢ empty) × AllReport etag report)
commit_chunk_accepted_example =
    commit_chunk_accepted ports config session 4 (pos 10) report world accepted

-- The two replicas report different etags.
refused :
    commit_chunk ports config session 4 (pos 10) ((1, 33) ∷ (2, 34) ∷ []) world
    ≡ (err checksum_mismatch, world)
unfolding commit_chunk check_commit get_chunk_attempt_state query call etags_agree
refused = refl

stray-Acceptable : Acceptable config session 4 (pos 10) ((9, 33) ∷ (2, 33) ∷ []) tables
unfolding etags_agree
stray-Acceptable = record {
  open_session = refl;
  awaiting = refl;
  small = refl;
  reported = omega arith;
  quorum = omega arith;
  agreed = refl;
}

-- Node 9 is not a node of the cluster.
commit_chunk_unknown_node_example :
    let (result, v) = commit_chunk ports config session 4 (pos 10) ((9, 33) ∷ (2, 33) ∷ []) world in
    (result ≡ database_error)
    × (in_session 50 4 v.db.upload_chunks ≡ true)
    × (v.db.chunk_locations ≡ tables.chunk_locations)
    × (v.db.org_chunk_proofs ≡ tables.org_chunk_proofs)
commit_chunk_unknown_node_example =
    commit_chunk_unknown_node ports config session 4 (pos 10) 9 33 ((2, 33) ∷ []) world
      session-Ready stray-Acceptable refl refl

-- Without a limit on the chunk size.
abbrev unlimited : Config
unlimited = record config { chunk_size_bytes = pos 0 }

large-Acceptable : Acceptable unlimited session 4 (pos 3000000000) report tables
unfolding etags_agree
large-Acceptable = record {
  open_session = refl;
  awaiting = refl;
  small = refl;
  reported = omega arith;
  quorum = omega arith;
  agreed = refl;
}

commit_chunk_oversized_example :
    let (result, v) = commit_chunk ports unlimited session 4 (pos 3000000000) report world in
    (result ≡ database_error)
    × (in_session session.id 4 v.db.upload_chunks ≡ true)
    × (v.db.chunks ≡ world.db.chunks)
commit_chunk_oversized_example =
    commit_chunk_oversized ports unlimited session 4 (pos 3000000000) report world session-Ready
      large-Acceptable refl

quota-Reads : Reads ports config 7 world world 100 90
unfolding quota_limit
quota-Reads = record { mid = world; limited = refl; used_bytes = refl }

check_quota_exact_example : check_quota ports config 7 (pos 11) world ≡ (err quota_exceeded, world)
check_quota_exact_example =
    check_quota_exact ports config 7 world world 100 90 11 quota-Reads (omega arith) (omega arith)

check_quota_overflow_example :
    check_quota ports config 7 (pos 9223372036854775800) world ≡ (ok tt, world)
check_quota_overflow_example =
    check_quota_overflow ports config 7 world world 100 90 9223372036854775800 quota-Reads
      (omega arith) (omega arith) (omega arith) (omega arith)

check_quota_negative_example : check_quota ports config 7 (negsuc 4) world ≡ (ok tt, world)
check_quota_negative_example =
    check_quota_negative ports config 7 world world 100 90 4 quota-Reads (omega arith) (omega arith)
      (omega arith) (omega arith)

abbrev after_finish : World
after_finish = record world {
  db = record tables {
    uploads =
        record session {
          status = completed;
          file_id = some 70;
          version_id = some 71;
          idempotency_key = some 78;
        }
        ∷ finished
        ∷ [];
  };
}

first_wins : finish_upload 50 70 71 (some 78) world ≡ (ok tt, after_finish)
unfolding finish_upload complete_row query call
first_wins = refl

finish_upload_wins_once_example :
    (((finish_upload 50 72 73 (some 79) after_finish).0 ≡ err already_completing)
      ⊎ (((finish_upload 50 72 73 (some 79) after_finish).0 ≡ database_error)
          × ((rest : List Bool) × (after_finish.faults ≡ true ∷ rest))))
    × ((finish_upload 50 72 73 (some 79) after_finish).1.db ≡ after_finish.db)
finish_upload_wins_once_example =
    finish_upload_wins_once 50 70 71 72 73 (some 78) (some 79) world after_finish after_finish
      first_wins refl

found_77 : keyed_upload session.created_by 77 world.db.uploads ≡ some finished
unfolding keyed_upload
found_77 = refl

quota-IsReading : IsReading (check_quota ports config 7 (pos 8))
unfolding check_quota quota_limit check_usage add64
quota-IsReading w = refl

-- Under a new key the completion is made, and the session becomes completed.
completed_anew : (complete_upload ports config session 78 (5 ∷ []) (pos 8) 11 world).0 ≡ ok (70, 71)
unfolding complete_upload replay get_by_idempotency_key complete_new check_complete check_quota
    quota_limit check_usage check_possession arrange find_missing_chunks_for_org check_candidates
    query call exec create_file settle finish_upload announce new_uuid keyed_upload add64
completed_anew = refl

abbrev after_complete : World
after_complete = (complete_upload ports config session 78 (5 ∷ []) (pos 8) 11 world).1

complete_upload-Completable_example :
    ((e : Upload) × (keyed_upload 1 78 world.db.uploads ≡ some e) × (result_of e ≡ some (70, 71)))
    ⊎ Completable config session (5 ∷ []) (pos 8) world.db
complete_upload-Completable_example =
    complete_upload-Completable ports config session 78 (5 ∷ []) (pos 8) 11 world quota-IsReading
      (ap (λ r. (r, after_complete)) completed_anew)
