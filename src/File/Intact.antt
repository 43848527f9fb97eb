-- ===== src/File/Intact.antt =====
-- The chunk lists that the transactions of backend/internal/file/repository.go write and delete, and
-- the chunks that they refer to.
use nimbus_storage_platform.Base.{ℕ, suc, ◌≡◌, ap, ◌+ℤ◌, ◌-ℤ◌, ℤ, Bool, List, [], ◌∷◌, All-filter}
use nimbus_storage_platform.Database.{Db, File}
use nimbus_storage_platform.Database.Actions.{ok}
use nimbus_storage_platform.Database.Results.{◌>>◌, chain-ok, ok-injective}
use nimbus_storage_platform.File.{update_usage, update_files, is_trashed_file, fails_if}
use nimbus_storage_platform.File.Rows.{
  NewFile, new_file, new_version, has_id, point_at, delete_files, freed_by, scan_fails, is_expired,
}
use nimbus_storage_platform.File.Statements.{
  insert_file, insert_version, insert_chunk, insert_chunks, add_content, create_statements,
  debit_all, purge_freed, purge_statements, expire_statements,
}
use nimbus_storage_platform.File.Usage.{
  insert_chunk-ok, insert_version-ok, insert_file-ok, update_usage-ok, guarded-ok,
}
use nimbus_storage_platform.Gc.Safety.{IsIntact}
use nimbus_storage_platform.Upload.Service.{Content}

module _ {E : Type 0} where
  update_usage-IsIntact :
      (change : ℤ → ℤ) (org_id : ℕ) (db : Db) {db' : Db}
      → IsIntact db
      → update_usage {E = E} change org_id db ≡ ok db'
      → IsIntact db'
  update_usage-IsIntact change org_id db intact h = rw (← update_usage-ok change org_id db h) intact

  insert_chunks-IsIntact :
      (version_id i : ℕ) (hashes : List ℕ) (db : Db) {db' : Db}
      → IsIntact db
      → insert_chunks {E = E} version_id i hashes db ≡ ok db'
      → IsIntact db'
  unfolding insert_chunks
  insert_chunks-IsIntact version_id i [] db intact h = rw (← ok-injective h) intact
  insert_chunks-IsIntact version_id i (hash ∷ hashes) db intact h =
      let (mid, first, rest) = chain-ok (insert_chunk version_id i hash db) _ h in
      let (known, made) = insert_chunk-ok version_id i hash db first in
      insert_chunks-IsIntact version_id (suc i) hashes mid (rw (← made) (known, intact)) rest

  pub add_content-IsIntact :
      (org_id file_id version_id by : ℕ) (content : Content) (now : ℕ) (db db' : Db)
      → IsIntact db
      → add_content {E = E} org_id file_id version_id by content now db ≡ ok (tt, db')
      → IsIntact db'
  unfolding add_content
  add_content-IsIntact org_id file_id version_id by content now db db' intact h =
      let v = new_version version_id file_id by content now in
      let (inserted, first, rest) = chain-ok (insert_version v db) _ h in
      let (listed, second, rest') =
        chain-ok (insert_chunks version_id 0 content.chunk_hashes inserted) _ rest in
      let (counted, third, last) =
        chain-ok
          (update_usage (λ used. used +ℤ content.size_bytes) org_id
            (update_files (has_id file_id) (point_at version_id now) listed))
          _ rest' in
      let listed-IsIntact =
        insert_chunks-IsIntact version_id 0 content.chunk_hashes inserted
          (rw (← (insert_version-ok v db first).1) intact) second in
      rw (← ap (λ (r : Unit {0} × Db). r.1) (ok-injective last)) (
        update_usage-IsIntact (λ used. used +ℤ content.size_bytes) org_id
          (update_files (has_id file_id) (point_at version_id now) listed) listed-IsIntact third)

  pub create_statements-IsIntact :
      (file_id version_id : ℕ) (f : NewFile) (content : Content) (now : ℕ) (db db' : Db)
      → IsIntact db
      → create_statements {E = E} file_id version_id f content now db ≡ ok (tt, db')
      → IsIntact db'
  unfolding create_statements
  create_statements-IsIntact file_id version_id f content now db db' intact h =
      let (mid, first, rest) = chain-ok (insert_file (new_file file_id f now) db) _ h in
      add_content-IsIntact f.org_id file_id version_id f.created_by content now mid db'
        (rw (← (insert_file-ok (new_file file_id f now) db first).1) intact) rest

pub delete_files-IsIntact :
    (gone : File → Bool) (db : Db) → IsIntact db → IsIntact (delete_files gone db)
unfolding delete_files
delete_files-IsIntact gone db intact = All-filter _ _ db.version_chunks intact

module _ {E : Type 0} where
  debit_all-IsIntact :
      (freed : List (ℕ × ℤ)) (db db' : Db)
      → IsIntact db
      → debit_all {E = E} freed db ≡ ok db'
      → IsIntact db'
  unfolding debit_all
  debit_all-IsIntact [] db db' intact h = rw (← ok-injective h) intact
  debit_all-IsIntact ((org_id, bytes) ∷ freed) db db' intact h =
      let change : ℤ → ℤ = λ used. used -ℤ bytes in
      let (mid, first, rest) = chain-ok (update_usage change org_id db) _ h in
      debit_all-IsIntact freed mid db' (update_usage-IsIntact change org_id db intact first) rest

  pub expire_statements-IsIntact :
      (between : Db → Db) (older_than now n : ℕ) (db db' : Db)
      → IsIntact (between db)
      → expire_statements {E = E} between older_than now db ≡ ok (n, db')
      → IsIntact db'
  unfolding expire_statements
  expire_statements-IsIntact between older_than now n db db' intact h =
      let picks = is_expired now older_than in
      let freed = freed_by picks db in
      let (counted, run, last) =
        chain-ok (fails_if (scan_fails freed) >> debit_all freed (delete_files picks (between db)))
          _ h in
      let debits =
        (guarded-ok {E = E} (scan_fails freed) (debit_all freed (delete_files picks (between db)))
          run).1 in
      rw (← ap (λ (r : ℕ × Db). r.1) (ok-injective last)) (
        debit_all-IsIntact freed (delete_files picks (between db)) counted
          (delete_files-IsIntact picks (between db) intact) debits)

  purge_freed-IsIntact :
      (between : Db → Db) (id : ℕ) (freed : List (ℕ × ℤ)) (db db' : Db)
      → IsIntact db
      → IsIntact (between db)
      → purge_freed {E = E} between id db freed ≡ ok (tt, db')
      → IsIntact db'
  unfolding purge_freed
  purge_freed-IsIntact between id [] db db' intact later h =
      rw (← ap (λ (r : Unit {0} × Db). r.1) (ok-injective h)) intact
  purge_freed-IsIntact between id ((org_id, bytes) ∷ freed) db db' intact later h =
      let change : ℤ → ℤ = λ used. used -ℤ bytes in
      let left = delete_files (is_trashed_file id) (between db) in
      let (counted, run, last) = chain-ok (update_usage change org_id left) _ h in
      rw (← ap (λ (r : Unit {0} × Db). r.1) (ok-injective last)) (
        update_usage-IsIntact change org_id left
          (delete_files-IsIntact (is_trashed_file id) (between db) later) run)

  pub purge_statements-IsIntact :
      (between : Db → Db) (id now : ℕ) (db db' : Db)
      → IsIntact db
      → IsIntact (between db)
      → purge_statements {E = E} between id now db ≡ ok (tt, db')
      → IsIntact db'
  unfolding purge_statements
  purge_statements-IsIntact between id now db db' intact later h =
      let freed = freed_by (is_trashed_file id) db in
      purge_freed-IsIntact between id freed db db' intact later
        (guarded-ok {E = E} (scan_fails freed) (purge_freed between id db freed) h).1
