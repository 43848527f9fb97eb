-- ===== src/System/Examples.antt =====
-- A concrete history: an upload session completes into a file, which is trashed and purged, and the
-- collector runs.
use nimbus_storage_platform.Base.{
  ℕ, ℤ, pos, ◌≡◌, refl, Bool, true, none, some, [], ◌∷◌, ◌==◌, arith, add64,
}
use nimbus_storage_platform.Database.{Upload, in_progress}
use nimbus_storage_platform.Database.Actions.{World, ok, return, query, call, new_uuid}
use nimbus_storage_platform.File.Rows.{sum_of}
use nimbus_storage_platform.File.Repository
use nimbus_storage_platform.File.Sound.{IsSound}
use nimbus_storage_platform.File.Examples.{tables, tables-IsConsistent}
use nimbus_storage_platform.Upload.Complete.{IsReading}
use nimbus_storage_platform.Upload.Repository.{create_upload, new_upload}
use nimbus_storage_platform.Upload.Service.{
  Ports, Config, check_quota, quota_limit, check_usage, complete_upload, init_upload, upload_target,
}
use nimbus_storage_platform.System.Ports.{file_ports, get_for_upload}
use nimbus_storage_platform.System.Uploads.{PortsRead, TargetsOwn, complete_upload-IsSound}
use nimbus_storage_platform.System.Sessions.{init_upload-TargetsOwn}
use nimbus_storage_platform.Gc.{ReapCalls}
use nimbus_storage_platform.System.Trace.{
  complete, purge, collect, run, Reaches, done, step, wait, history-IsSound,
}

-- An upload session of organisation 7 for a new file.
abbrev session : Upload
session = record {
  id = 50;
  org_id = 7;
  folder_id = 3;
  name = 9;
  declared_size_bytes = pos 12;
  mime_type = 2;
  created_by = 1;
  status = in_progress;
  idempotency_key = none;
  target_file_id = none;
  file_id = none;
  version_id = none;
  created_at = 1000;
}

abbrev start : World
start = record {
  db = record tables {
    uploads = session ∷ [];
    org_chunk_proofs = record { org_id = 7; chunk_hash = 5 } ∷ [];
  };
  now = 1200;
  faults = [];
  next_id = 100;
}

start-IsSound : IsSound start.db
unfolding sum_of
start-IsSound = record {
  consistent = record {
    unique = tables-IsConsistent.unique;
    owned = tables-IsConsistent.owned;
    exact = tables-IsConsistent.exact;
  };
  intact = (refl, tt);
}

-- The port fields that the file repository fills are not asked.
abbrev ports : Ports
ports = record {
  create_with_version = λ org folder name user content. return (0, 0);
  add_version = λ org file user content. return 0;
  get_for_upload = λ file. return (record { org_id = 0; folder_id = 0; name = 0 });
  org_id_of = λ folder. return 7;
  is_member = λ org user. return (user == 1);
  record_upload = λ org user file. return tt;
  publish_upload_completed = λ event file version org. return tt;
  org_usage_bytes = λ org. return (pos 0);
  quota_override = none;
  resolve = λ hash n. record { nodes = 1 ∷ 2 ∷ []; error = none };
  presign_put = λ id hash. return hash;
  row_order = λ db rows. [];
}

abbrev config : Config
config = record {
  replication_factor = 2;
  write_quorum = 2;
  chunk_size_bytes = pos 16;
  max_upload_bytes = pos 64;
  org_quota_bytes = pos 100;
}

ports-PortsRead : PortsRead ports
unfolding quota_limit
ports-PortsRead = record {
  activity = λ org user file w. refl;
  publishing = λ event file version org w. refl;
  limits = λ config org w. refl;
}

complete_upload-IsSound_example :
    IsSound (complete_upload (file_ports ports) config session 0 (5 ∷ []) (pos 12) 4 start).1.db
complete_upload-IsSound_example =
    complete_upload-IsSound ports config session 0 (5 ∷ []) (pos 12) 4 start ports-PortsRead tt
      start-IsSound

abbrev remove_ok : ℕ → ℕ → Bool
remove_ok hash node = true

abbrev completed : World
completed = run ports config remove_ok (complete session 0 (5 ∷ []) (pos 12) 4) start

abbrev purged : World
purged = run ports config remove_ok (purge 60) completed

abbrev answering : ReapCalls
answering = record { selects = true; locates = true; deletes = true }

abbrev collected : World
collected =
    run ports config remove_ok (collect (λ hash. answering) true true 50 100)
      (record purged { now = 9000; next_id = 200; faults = [] })

history : Reaches ports config remove_ok start collected
history = step (complete session 0 (5 ∷ []) (pos 12) 4) tt (
    step (purge 60) tt
      (wait 9000 200 [] (step (collect (λ hash. answering) true true 50 100) tt (done collected))))

history-IsSound_example : IsSound collected.db
history-IsSound_example =
    history-IsSound ports config remove_ok ports-PortsRead history start-IsSound

-- The owner of the live file 62 opens a session that adds a version to it.
abbrev opened : Upload
opened = record session {
  id = 100;
  target_file_id = some 62;
  declared_size_bytes = pos 12;
  created_at = 1200;
}

abbrev after_opening : World
after_opening = record start {
  db = record start.db { uploads = opened ∷ session ∷ [] };
  next_id = 101;
}

opens : init_upload (file_ports ports) config 1 0 62 0 (pos 12) 2 start ≡ (ok opened, after_opening)
unfolding init_upload upload_target get_for_upload Repository.get check_quota quota_limit
    check_usage Repository.org_usage_bytes create_upload new_upload query call new_uuid add64
opens = refl

quota-IsReading :
    (org_id : ℕ) (size : ℤ) → IsReading (check_quota (file_ports ports) config org_id size)
unfolding check_quota quota_limit check_usage Repository.org_usage_bytes query call
quota-IsReading org_id size w = ground arith

init_upload-TargetsOwn_example : TargetsOwn opened after_opening.db
init_upload-TargetsOwn_example =
    init_upload-TargetsOwn ports config (λ org user w. refl) quota-IsReading 1 0 62 0 (pos 12) 2
      start opens
