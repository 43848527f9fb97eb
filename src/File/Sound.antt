-- ===== src/File/Sound.antt =====
-- The methods of backend/internal/file/repository.go on sound tables: consistent counters, and every
-- listed chunk in place.
use nimbus_storage_platform.Base.{
  ℕ, ◌≡◌, refl, ap, sym, ◌∙◌, Bool, true, ◌&&◌, Option, none, some, List, [], ◌∷◌, arith, map,
  filter, any, find?, All, All-map, ◌==◌, if◌then◌else◌,
}
use nimbus_storage_platform.Database.{Db, File, FileVersion}
use nimbus_storage_platform.Database.Actions.{
  ok, ◌>>◌, return, reject_if, or_throw, query, exec, new_uuid,
}
use nimbus_storage_platform.Database.Transactions.{transaction}
use nimbus_storage_platform.Database.Keeping.{
  Keeps, >>=-Keeps, >>-Keeps, reject_if-Keeps, query-Keeps, exec-Keeps, new_uuid-Keeps,
  or_throw-Keeps, transaction-Keeps,
}
use nimbus_storage_platform.File.{
  FileError, update_files, update_row, is_kept_file, is_trashed_file, invalid_folder, not_found,
}
use nimbus_storage_platform.File.Rows.{NewFile, has_id, point_at, sum_of, sum_sizes, belongs}
use nimbus_storage_platform.File.Statements.{
  create_statements, add_content, purge_statements, expire_statements,
}
use nimbus_storage_platform.File.Repository.{
  get, update_columns, update, breaks_folder_key, renamed, returning, point_latest, set_columns,
  soft_delete, restore, restore_version, set_thumbnail_key, create_with_version, add_version, purge,
  purge_expired_trash,
}
use nimbus_storage_platform.File.Sums.{
  any_file, owns, KeepsOwner, IsUnique-update, has_id-update, sum_of-update,
}
use nimbus_storage_platform.File.Usage.{
  IsConsistent, add_content-ok, add_content-IsConsistent, create_statements-IsConsistent,
}
use nimbus_storage_platform.File.Purging.{
  expire_statements-IsConsistent, purge_statements-IsConsistent,
}
use nimbus_storage_platform.File.Intact.{
  add_content-IsIntact, create_statements-IsIntact, expire_statements-IsIntact,
  purge_statements-IsIntact,
}
use nimbus_storage_platform.Gc.Safety.{IsIntact}
use nimbus_storage_platform.Upload.Service.{Content}

pub record IsSound (db : Db) : Type 0 where
  pub consistent : IsConsistent db
  pub intact : IsIntact db

update_files-IsConsistent :
    (picks : File → Bool) (change : File → File) (db : Db)
    → KeepsOwner change
    → IsConsistent db
    → IsConsistent (update_files picks change db)
unfolding sum_of
update_files-IsConsistent picks change db keeps good = record {
  unique = IsUnique-update picks change keeps db.files good.unique;
  owned =
      All-map _ _ db.file_versions (λ v h. has_id-update picks change keeps v.file_id db.files ∙ h)
        good.owned;
  exact =
      All-map _ _ db.org_usage (λ o h. h ∙ sym (sum_of-update picks change keeps o.id db))
        good.exact;
}

update_files-IsSound :
    (picks : File → Bool) (change : File → File) (db : Db)
    → KeepsOwner change
    → IsSound db
    → IsSound (update_files picks change db)
update_files-IsSound picks change db keeps sound = record {
  consistent = update_files-IsConsistent picks change db keeps sound.consistent;
  intact = sound.intact;
}

-- A thumbnail's key moves no bytes.
abbrev with_key : ℕ → ℕ → FileVersion → FileVersion
with_key version_id key v = if v.id == version_id then record v { thumbnail_key = some key } else v

with_key-same :
    (version_id key : ℕ) (v : FileVersion)
    → ((with_key version_id key v).file_id ≡ v.file_id)
      × ((with_key version_id key v).size_bytes ≡ v.size_bytes)
with_key-same version_id key v = ground arith

belongs-with_key :
    (version_id key org_id : ℕ) (fs : List File) (v : FileVersion)
    → belongs any_file org_id fs (with_key version_id key v) ≡ belongs any_file org_id fs v
belongs-with_key version_id key org_id fs v =
    ap (λ file_id. any (λ f. f.org_id == org_id && f.id == file_id) fs)
      (with_key-same version_id key v).0

sum-with_key :
    (version_id key org_id : ℕ) (fs : List File) (vs : List FileVersion)
    → sum_sizes (filter (belongs any_file org_id fs) (map (with_key version_id key) vs))
      ≡ sum_sizes (filter (belongs any_file org_id fs) vs)
sum-with_key version_id key org_id fs [] = refl
sum-with_key version_id key org_id fs (v ∷ vs) = ground (
  arith,
  sum-with_key version_id key org_id fs vs,
  with_key-same version_id key v,
  belongs-with_key version_id key org_id fs v,
)

owned-with_key :
    (version_id key : ℕ) (fs : List File) (vs : List FileVersion)
    → All (λ v. any (has_id v.file_id) fs ≡ true) vs
    → All (λ v. any (has_id v.file_id) fs ≡ true) (map (with_key version_id key) vs)
owned-with_key version_id key fs [] h = tt
owned-with_key version_id key fs (v ∷ vs) h =
    (rw ((with_key-same version_id key v).0) h.0, owned-with_key version_id key fs vs h.1)

pub set_thumbnail_key-Keeps :
    (version_id key : ℕ) → Keeps IsSound (set_thumbnail_key version_id key)
unfolding set_thumbnail_key sum_of
set_thumbnail_key-Keeps version_id key = exec-Keeps IsSound FileError _ (λ now db sound. record {
  consistent = record {
    unique = sound.consistent.unique;
    owned = owned-with_key version_id key db.files db.file_versions sound.consistent.owned;
    exact =
        All-map _ _ db.org_usage
          (λ o h. h ∙ sym (sum-with_key version_id key o.id db.files db.file_versions))
          sound.consistent.exact;
  };
  intact = sound.intact;
})

update-exec-Keeps :
    (picks : File → Bool) (change : ℕ → File → File)
    → ((now : ℕ) → KeepsOwner (change now))
    → Keeps IsSound (exec {E = FileError} (λ now. update_files picks (change now)))
update-exec-Keeps picks change keeps =
    exec-Keeps IsSound FileError _
      (λ now db sound. update_files-IsSound picks (change now) db (keeps now) sound)

pub soft_delete-Keeps : (id : ℕ) → Keeps IsSound (soft_delete id)
unfolding soft_delete
soft_delete-Keeps id =
    update-exec-Keeps (is_kept_file id)
      (λ now f. record f { deleted_at = some now; updated_at = now }) (λ now f. (refl, refl))

pub restore-Keeps : (id : ℕ) → Keeps IsSound (restore id)
unfolding restore
restore-Keeps id =
    update-exec-Keeps (is_trashed_file id)
      (λ now f. record f { deleted_at = none; updated_at = now }) (λ now f. (refl, refl))

returning-Keeps : (id : ℕ) → Keeps IsSound (returning id)
returning-Keeps id w =
    or_throw-Keeps IsSound FileError (find? (is_kept_file id) w.db.files) not_found w

pub restore_version-Keeps :
    (file_id version_id : ℕ) → Keeps IsSound (restore_version file_id version_id)
unfolding restore_version
restore_version-Keeps file_id version_id =
    >>-Keeps IsSound FileError (point_latest file_id version_id) (returning file_id)
      (update-exec-Keeps (is_kept_file file_id)
        (λ now f. record f { latest_version_id = some version_id; updated_at = now })
        (λ now f. (refl, refl)))
      (returning-Keeps file_id)

set_columns-Keeps :
    (id : ℕ) (name folder_id : Option ℕ) → Keeps IsSound (set_columns id name folder_id)
set_columns-Keeps id name folder_id w =
    update_files-IsSound (is_kept_file id) (renamed name folder_id w.now) w.db (λ f. (refl, refl))

update_columns-Keeps :
    (id : ℕ) (name folder_id : Option ℕ) → Keeps IsSound (update_columns id name folder_id)
unfolding update_columns
update_columns-Keeps id name folder_id =
    >>=-Keeps IsSound FileError (query (breaks_folder_key folder_id id))
      (λ broken. reject_if broken invalid_folder >> (set_columns id name folder_id >> returning id))
      (query-Keeps IsSound FileError (breaks_folder_key folder_id id))
      (λ broken.
        >>-Keeps IsSound FileError (reject_if broken invalid_folder)
          (set_columns id name folder_id >> returning id)
          (reject_if-Keeps IsSound FileError broken invalid_folder)
          (>>-Keeps IsSound FileError (set_columns id name folder_id) (returning id)
            (set_columns-Keeps id name folder_id) (returning-Keeps id)))

pub get-Keeps : (id : ℕ) → Keeps IsSound (get id)
unfolding get
get-Keeps id =
    >>=-Keeps IsSound FileError (query (λ db. find? (is_kept_file id) db.files))
      (λ row. or_throw row not_found)
      (query-Keeps IsSound FileError (λ db. find? (is_kept_file id) db.files))
      (λ row. or_throw-Keeps IsSound FileError row not_found)

pub update-Keeps : (id : ℕ) (name folder_id : Option ℕ) → Keeps IsSound (update id name folder_id)
unfolding update
update-Keeps id none none = get-Keeps id
update-Keeps id (some name) folder_id = update_columns-Keeps id (some name) folder_id
update-Keeps id none (some folder_id) = update_columns-Keeps id none (some folder_id)

pub purge-Keeps : (id : ℕ) → Keeps IsSound (purge (λ db. db) id)
unfolding purge
purge-Keeps id =
    transaction-Keeps IsSound FileError (purge_statements (λ db. db) id) (λ now db db' a sound made.
      record {
        consistent =
            purge_statements-IsConsistent {E = FileError} id now db db' sound.consistent made;
        intact =
            purge_statements-IsIntact {E = FileError} (λ d. d) id now db db' sound.intact
              sound.intact made;
      })

pub purge_expired_trash-Keeps :
    (older_than : ℕ) → Keeps IsSound (purge_expired_trash (λ db. db) older_than)
unfolding purge_expired_trash
purge_expired_trash-Keeps older_than =
    transaction-Keeps IsSound FileError (expire_statements (λ db. db) older_than)
      (λ now db db' n sound made. record {
        consistent =
            expire_statements-IsConsistent {E = FileError} older_than now n db db' sound.consistent
              made;
        intact =
            expire_statements-IsIntact {E = FileError} (λ d. d) older_than now n db db' sound.intact
              made;
      })

module _ (E : Type 0) where
  pub create_with_version-Keeps :
      (f : NewFile) (content : Content) → Keeps IsSound (create_with_version {E = E} f content)
  unfolding create_with_version
  create_with_version-Keeps f content =
      >>=-Keeps IsSound E new_uuid _ (new_uuid-Keeps IsSound E) λ file_id.
        >>=-Keeps IsSound E new_uuid _ (new_uuid-Keeps IsSound E) λ version_id.
          >>-Keeps IsSound E (transaction (create_statements file_id version_id f content))
            (return (file_id, version_id))
            (transaction-Keeps IsSound E (create_statements file_id version_id f content)
              (λ now db db' a sound made. record {
                consistent =
                    create_statements-IsConsistent {E = E} file_id version_id f content now db db'
                      sound.consistent made;
                intact =
                    create_statements-IsIntact {E = E} file_id version_id f content now db db'
                      sound.intact made;
              }))
            (λ w h. h)

-- The organisation that `AddVersion` is told to credit is the file's, where the file is there.
abbrev pub NamesOwner : ℕ → ℕ → Db → Type 0
NamesOwner org_id file_id db =
    any (has_id file_id) db.files ≡ true → owns org_id file_id db.files ≡ true

abbrev pub IsSoundFor : ℕ → ℕ → Db → Type 0
IsSoundFor org_id file_id db = IsSound db × NamesOwner org_id file_id db

owns-update :
    (picks : File → Bool) (change : File → File) (org_id file_id : ℕ) (fs : List File)
    → KeepsOwner change
    → owns org_id file_id (map (update_row picks change) fs) ≡ owns org_id file_id fs
owns-update picks change org_id file_id [] keeps = refl
owns-update picks change org_id file_id (f ∷ fs) keeps =
    ground (arith, keeps f, owns-update picks change org_id file_id fs keeps)

add_content-IsSoundFor :
    {E : Type 0} (org_id file_id version_id by : ℕ) (content : Content) (now : ℕ) (db db' : Db)
    → IsSoundFor org_id file_id db
    → add_content {E = E} org_id file_id version_id by content now db ≡ ok (tt, db')
    → IsSoundFor org_id file_id db'
add_content-IsSoundFor {E} org_id file_id version_id by content now db db' (sound, names) made =
    let (known, files, _, _) =
      add_content-ok {E = E} org_id file_id version_id by content now db db' made in
    let owner = names known in
    (
      record {
        consistent =
            add_content-IsConsistent {E = E} org_id file_id version_id by content now db db'
              sound.consistent owner made;
        intact =
            add_content-IsIntact {E = E} org_id file_id version_id by content now db db'
              sound.intact made;
      },
      λ _.
          rw
            (
              files,
              owns-update (has_id file_id) (point_at version_id now) org_id file_id db.files
                  (λ f. (refl, refl)),
            )
            owner,
    )

pub add_version-Keeps :
    (E : Type 0) (org_id file_id by : ℕ) (content : Content)
    → Keeps (IsSoundFor org_id file_id) (add_version {E = E} org_id file_id by content)
unfolding add_version
add_version-Keeps E org_id file_id by content =
    let P = IsSoundFor org_id file_id in
    >>=-Keeps P E new_uuid _ (new_uuid-Keeps P E) λ version_id.
      >>-Keeps P E (transaction (add_content org_id file_id version_id by content))
        (return version_id)
        (transaction-Keeps P E (add_content org_id file_id version_id by content)
          (λ now db db' a sound made.
            add_content-IsSoundFor {E = E} org_id file_id version_id by content now db db' sound
              made))
        (λ w h. h)
