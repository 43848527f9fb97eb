-- ===== src/File/Statements.antt =====
-- The transactions of backend/internal/file/repository.go, statement by statement: `CreateWithVersion`
-- and `AddVersion`, `Purge` and `PurgeExpiredTrash`. In the last two, `between` is what other
-- transactions commit after the sum of the freed bytes is read and before the DELETE, which Postgres'
-- default isolation lets the later statements see.
use nimbus_storage_platform.Base.{
  ℕ, suc, ◌+ℤ◌, ◌-ℤ◌, ℤ, not, List, [], ◌∷◌, ◌==◌, any, filter, mem, length,
}
use nimbus_storage_platform.Database.{Db, File, FileVersion, OrgUsage, Chunk}
use nimbus_storage_platform.Database.Actions.{Result, ok}
use nimbus_storage_platform.Database.Results.{◌>>=◌, ◌>>◌}
use nimbus_storage_platform.Database.Transactions.{Body}
use nimbus_storage_platform.File.{fails_if, update_usage, is_trashed_file, update_files}
use nimbus_storage_platform.Upload.Service.{Content}
use nimbus_storage_platform.File.Rows.{
  NewFile, new_version, new_file, point_at, has_id, delete_files, freed_by, scan_fails, is_expired,
}

module _ {E : Type 0} where
  -- INSERT INTO files, with its primary key and the foreign keys on the organisation and the folder.
  unfoldable pub insert_file : File → Db → Result E Db
  insert_file f db = do
    fails_if (any (λ (g : File). g.id == f.id) db.files)
    fails_if (not (any (λ (o : OrgUsage). o.id == f.org_id) db.org_usage))
    fails_if (not (mem f.folder_id db.folder_ids))
    ok (record db { files = f ∷ db.files })

  -- INSERT INTO file_versions, with its primary key and the foreign key on the file.
  unfoldable pub insert_version : FileVersion → Db → Result E Db
  insert_version v db = do
    fails_if (any (λ (u : FileVersion). u.id == v.id) db.file_versions)
    fails_if (not (any (λ (f : File). f.id == v.file_id) db.files))
    ok (record db { file_versions = v ∷ db.file_versions })

  -- One turn of the loop over the chunk hashes, with the foreign key on chunks.
  unfoldable pub insert_chunk : ℕ → ℕ → ℕ → Db → Result E Db
  insert_chunk version_id i hash db = do
    fails_if (not (any (λ (c : Chunk). c.hash == hash) db.chunks))
    ok (record db {
      version_chunks =
          record { version_id = version_id; sequence = i; chunk_hash = hash } ∷ db.version_chunks;
    })

  unfoldable pub insert_chunks : ℕ → ℕ → List ℕ → Db → Result E Db
  insert_chunks version_id i [] db = ok db
  insert_chunks version_id i (hash ∷ hashes) db =
      insert_chunk version_id i hash db >>= insert_chunks version_id (suc i) hashes

  -- What both transactions do once the file is there: its version, the chunk list, the pointer to it
  -- and the organisation's counter.
  unfoldable pub add_content : ℕ → ℕ → ℕ → ℕ → Content → Body E (Unit {0})
  add_content org_id file_id version_id created_by content now db = do
    inserted ← insert_version (new_version version_id file_id created_by content now) db
    listed ← insert_chunks version_id 0 content.chunk_hashes inserted
    counted ←
        update_usage (λ used. used +ℤ content.size_bytes) org_id
          (update_files (has_id file_id) (point_at version_id now) listed)
    ok (tt, counted)

  -- `CreateWithVersion`, given the new identifiers.
  unfoldable pub create_statements : ℕ → ℕ → NewFile → Content → Body E (Unit {0})
  create_statements file_id version_id f content now db =
      insert_file (new_file file_id f now) db
      >>= add_content f.org_id file_id version_id f.created_by content now

  -- The statements of `Purge` after its query: one row, or none.
  unfoldable pub purge_freed : (Db → Db) → ℕ → Db → List (ℕ × ℤ) → Result E (Unit {0} × Db)
  purge_freed between id db [] = ok (tt, db)
  purge_freed between id db ((org_id, bytes) ∷ more) =
      update_usage (λ used. used -ℤ bytes) org_id (delete_files (is_trashed_file id) (between db))
      >>= λ counted. ok (tt, counted)

  -- `Purge`.
  unfoldable pub purge_statements : (Db → Db) → ℕ → Body E (Unit {0})
  purge_statements between id now db =
      let freed = freed_by (is_trashed_file id) db in
      fails_if (scan_fails freed) >> purge_freed between id db freed

  -- The loop over the freed bytes.
  unfoldable pub debit_all : List (ℕ × ℤ) → Db → Result E Db
  debit_all [] db = ok db
  debit_all ((org_id, bytes) ∷ freed) db =
      update_usage (λ used. used -ℤ bytes) org_id db >>= debit_all freed

  -- `PurgeExpiredTrash`, with the number of rows that the DELETE affected.
  unfoldable pub expire_statements : (Db → Db) → ℕ → Body E ℕ
  expire_statements between older_than now db =
      let picks = is_expired now older_than in
      let freed = freed_by picks db in
      fails_if (scan_fails freed)
      >> debit_all freed (delete_files picks (between db))
      >>= λ counted. ok (length (filter picks (between db).files), counted)
