-- ===== src/System/Trace.antt =====
-- The backend as a whole: operations of uploads, files and the garbage collector, one after the other
-- on one database, with any time, lost connections and identifiers in between.
use nimbus_storage_platform.Base.{ℕ, ℤ, Bool, Option, List}
use nimbus_storage_platform.Database.{Db, Upload}
use nimbus_storage_platform.Database.Actions.{World}
use nimbus_storage_platform.Database.Laws.{after}
use nimbus_storage_platform.Gc.{ReapCalls, tick}
use nimbus_storage_platform.File.{FileError}
use nimbus_storage_platform.File.Rows.{NewFile}
use nimbus_storage_platform.File.Repository
use nimbus_storage_platform.File.Sound.{
  IsSound, NamesOwner, create_with_version-Keeps, add_version-Keeps, update-Keeps,
  soft_delete-Keeps, restore-Keeps, purge-Keeps, purge_expired_trash-Keeps, restore_version-Keeps,
  set_thumbnail_key-Keeps,
}
use nimbus_storage_platform.System.Stable.{IsSound-IsStable}
use nimbus_storage_platform.System.Ports.{file_ports}
use nimbus_storage_platform.System.Uploads.{PortsRead, TargetsOwn, complete_upload-IsSound}
use nimbus_storage_platform.System.Commits.{commit_chunk-Keeps}
use nimbus_storage_platform.System.Collection.{tick-IsSound}
use nimbus_storage_platform.Upload.Service.{Ports, Config, Content, commit_chunk, complete_upload}

pub data Operation : Type 0 where
  commit : Upload → ℕ → ℤ → List (ℕ × ℕ) → Operation
  complete : Upload → ℕ → List ℕ → ℤ → ℕ → Operation
  create : NewFile → Content → Operation
  add : ℕ → ℕ → ℕ → Content → Operation
  change : ℕ → Option ℕ → Option ℕ → Operation
  trash restore purge : ℕ → Operation
  expire : ℕ → Operation
  choose_version set_thumbnail : ℕ → ℕ → Operation
  collect : (ℕ → ReapCalls) → Bool → Bool → ℕ → ℕ → Operation

-- What the callers establish before they ask: a new version is added in the name of the organisation
-- that owns the file.
abbrev pub Allowed : Operation → Db → Type 0
Allowed op db = elim op [
  | add org_id file_id _ _ ↦ NamesOwner org_id file_id db
  | complete u _ _ _ _ ↦ TargetsOwn u db
  | _ ↦ Unit {0}
]

-- The trash purge of a tick, for files.
abbrev pub expired : World → ℕ → Db → Db
expired w retention db =
    (after (Repository.purge_expired_trash (λ d. d) retention (record w { db = db }))).db

module _ (ports : Ports) (config : Config) (remove_ok : ℕ → ℕ → Bool) where
  unfoldable pub run : Operation → World → World
  run (commit u hash size etags) w =
      after (commit_chunk (file_ports ports) config u hash size etags w)
  run (complete u key order size checksum) w =
      after (complete_upload (file_ports ports) config u key order size checksum w)
  run (create f content) w = after (Repository.create_with_version {E = FileError} f content w)
  run (add org_id file_id by content) w =
      after (Repository.add_version {E = FileError} org_id file_id by content w)
  run (change id name folder_id) w = after (Repository.update id name folder_id w)
  run (trash id) w = after (Repository.soft_delete id w)
  run (restore id) w = after (Repository.restore id w)
  run (purge id) w = after (Repository.purge (λ db. db) id w)
  run (expire older_than) w = after (Repository.purge_expired_trash (λ db. db) older_than w)
  run (choose_version file_id version_id) w =
      after (Repository.restore_version file_id version_id w)
  run (set_thumbnail version_id key) w = after (Repository.set_thumbnail_key version_id key w)
  run (collect calls mark_ok scan_ok retention grace) w = record w {
    db =
        (tick (expired w) remove_ok calls (λ db. db) mark_ok scan_ok retention w.now grace w.db).db;
  }

  run-IsSound :
      (op : Operation) (w : World)
      → PortsRead ports
      → Allowed op w.db
      → IsSound w.db
      → IsSound (run op w).db
  unfolding run
  run-IsSound (commit u hash size etags) w reads may sound =
      commit_chunk-Keeps IsSound IsSound-IsStable (file_ports ports) config u hash size etags w
        sound
  run-IsSound (complete u key order size checksum) w reads may sound =
      complete_upload-IsSound ports config u key order size checksum w reads may sound
  run-IsSound (create f content) w reads may sound =
      create_with_version-Keeps FileError f content w sound
  run-IsSound (add org_id file_id by content) w reads may sound =
      (add_version-Keeps FileError org_id file_id by content w (sound, may)).0
  run-IsSound (change id name folder_id) w reads may sound = update-Keeps id name folder_id w sound
  run-IsSound (trash id) w reads may sound = soft_delete-Keeps id w sound
  run-IsSound (restore id) w reads may sound = restore-Keeps id w sound
  run-IsSound (purge id) w reads may sound = purge-Keeps id w sound
  run-IsSound (expire older_than) w reads may sound = purge_expired_trash-Keeps older_than w sound
  run-IsSound (choose_version file_id version_id) w reads may sound =
      restore_version-Keeps file_id version_id w sound
  run-IsSound (set_thumbnail version_id key) w reads may sound =
      set_thumbnail_key-Keeps version_id key w sound
  run-IsSound (collect calls mark_ok scan_ok retention grace) w reads may sound =
      tick-IsSound (expired w) remove_ok calls mark_ok scan_ok retention w.now grace w.db sound
        (purge_expired_trash-Keeps retention w sound)

  -- The histories of the database.
  pub data Reaches : World → World → Type 0 where
    done : (w : World) → Reaches w w
    step : {w v : World} (op : Operation) → Allowed op w.db → Reaches (run op w) v → Reaches w v
    wait :
        {w v : World} (now next_id : ℕ) (faults : List Bool)
        → Reaches (record w { now = now; next_id = next_id; faults = faults }) v
        → Reaches w v

  -- In a history of uploads, file operations and collections (with the purge of expired files) that
  -- run one after the other, no other transaction in between, each organisation's counter stays the
  -- sum of its versions' sizes, and every chunk that a version lists keeps its row. A version is
  -- added or completed only in the name of the organisation that owns the file, and the other ports
  -- of the upload service leave these tables alone. Folders are not purged.
  pub history-IsSound : {w v : World} → PortsRead ports → Reaches w v → IsSound w.db → IsSound v.db
  history-IsSound reads (done w) sound = sound
  history-IsSound reads (step {w} op may rest) sound =
      history-IsSound reads rest (run-IsSound op w reads may sound)
  history-IsSound reads (wait now next_id faults rest) sound = history-IsSound reads rest sound
