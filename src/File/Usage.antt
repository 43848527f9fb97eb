-- ===== src/File/Usage.antt =====
-- The counter of stored bytes (organizations.usage_bytes, migration 000015) and the transactions of
-- backend/internal/file/repository.go that move it.
use nimbus_storage_platform.Base.{
  ℕ, suc, ◌≡◌, refl, sym, ◌∙◌, ℤ, ◌+ℤ◌, int_laws, Bool, true, false, List, [], ◌∷◌, arith, map,
  filter, any, All, All-map, ◌==◌, if◌then◌else◌,
}
use nimbus_storage_platform.Database.{Db, File, FileVersion, OrgUsage, Chunk}
use nimbus_storage_platform.Database.Actions.{Result, ok}
use nimbus_storage_platform.Database.Results.{◌>>◌, chain-ok, ok-injective}
use nimbus_storage_platform.File.{set_usage, update_usage, fails_if, update_files, update_row}
use nimbus_storage_platform.File.Rows.{
  sum_of, has_id, new_version, new_file, point_at, sum_sizes, belongs, NewFile,
}
use nimbus_storage_platform.File.Statements.{
  insert_file, insert_version, insert_chunk, insert_chunks, add_content, create_statements,
}
use nimbus_storage_platform.File.Sums.{
  any_file, IsUnique, owns, sum_of-update, IsUnique-update, has_id-update, belongs_to_owner,
  KeepsOwner, has_id_same,
}
use nimbus_storage_platform.Upload.Service.{Content}

-- Files have distinct ids, versions have files, and each organisation's counter is the sum of the
-- sizes of the versions of its files: the live SUM that the counter replaced.
pub record IsConsistent (db : Db) : Type 0 where
  pub unique : IsUnique db.files
  pub owned : All (λ v. any (has_id v.file_id) db.files ≡ true) db.file_versions
  pub exact : All (λ o. o.usage_bytes ≡ sum_of any_file o.id db) db.org_usage

pub All-set_usage :
    (change : ℤ → ℤ) (org_id : ℕ) (before after : ℕ → ℤ) (rows : List OrgUsage)
    → ((id : ℕ) → after id ≡ (if id == org_id then change (before id) else before id))
    → All (λ o. o.usage_bytes ≡ before o.id) rows
    → All (λ o. o.usage_bytes ≡ after o.id) (map (set_usage change org_id) rows)
unfolding set_usage
All-set_usage change org_id before after [] step h = tt
All-set_usage change org_id before after (o ∷ os) step h =
    (ground (arith, step o.id, h.0), All-set_usage change org_id before after os step h.1)

assembled :
    (v : FileVersion) (picks : File → Bool) (change : File → File) (count : OrgUsage → OrgUsage)
    (db inserted listed counted db' : Db)
    → record db { file_versions = v ∷ db.file_versions } ≡ inserted
    → (listed.files ≡ inserted.files)
      × (listed.file_versions ≡ inserted.file_versions)
      × (listed.org_usage ≡ inserted.org_usage)
    → record (update_files picks change listed) { org_usage = map count listed.org_usage } ≡ counted
    → ◌≡◌ {A = Unit {0} × Db} (tt, counted) (tt, db')
    → (db'.files ≡ map (update_row picks change) db.files)
      × (db'.file_versions ≡ v ∷ db.file_versions)
      × (db'.org_usage ≡ map count db.org_usage)
assembled v picks change count db inserted listed counted db' made same changed last = ground arith

module _ {E : Type 0} where
  pub guarded-ok :
      {A : Type 0} (bad : Bool) (next : Result E A) {a : A}
      → fails_if bad >> next ≡ ok a
      → (bad ≡ false) × (next ≡ ok a)
  guarded-ok true next h = cc
  guarded-ok false next h = (refl, h)

  pub update_usage-ok :
      (change : ℤ → ℤ) (org_id : ℕ) (db : Db) {db' : Db}
      → update_usage {E = E} change org_id db ≡ ok db'
      → record db { org_usage = map (set_usage change org_id) db.org_usage } ≡ db'
  unfolding update_usage
  update_usage-ok change org_id db h = ok-injective (guarded-ok _ _ h).1

  pub insert_version-ok :
      (v : FileVersion) (db : Db) {db' : Db}
      → insert_version {E = E} v db ≡ ok db'
      → (any (has_id v.file_id) db.files ≡ true)
        × (record db { file_versions = v ∷ db.file_versions } ≡ db')
  unfolding insert_version
  insert_version-ok v db h = ground arith

  pub insert_chunk-ok :
      (version_id i hash : ℕ) (db : Db) {db' : Db}
      → insert_chunk {E = E} version_id i hash db ≡ ok db'
      → (any (λ (c : Chunk). c.hash == hash) db.chunks ≡ true)
        × (record db {
          version_chunks =
              record { version_id = version_id; sequence = i; chunk_hash = hash }
              ∷ db.version_chunks;
        }
            ≡ db')
  unfolding insert_chunk
  insert_chunk-ok version_id i hash db h = ground arith

  -- The chunk list of a version is all that the loop writes.
  pub insert_chunks-files :
      (version_id i : ℕ) (hashes : List ℕ) (db : Db) {db' : Db}
      → insert_chunks {E = E} version_id i hashes db ≡ ok db'
      → (db'.files ≡ db.files)
        × (db'.file_versions ≡ db.file_versions)
        × (db'.org_usage ≡ db.org_usage)
  unfolding insert_chunks
  insert_chunks-files version_id i [] db h = ground arith
  insert_chunks-files version_id i (hash ∷ hashes) db h =
      let (mid, first, rest) = chain-ok (insert_chunk version_id i hash db) _ h in
      let written = (insert_chunk-ok version_id i hash db first).1 in
      let tail = insert_chunks-files version_id (suc i) hashes mid rest in rw (← written) at tail

  -- What `add_content` writes where its statements succeed, chunk lists aside.
  pub add_content-ok :
      (org_id file_id version_id by : ℕ) (content : Content) (now : ℕ) (db db' : Db)
      → add_content {E = E} org_id file_id version_id by content now db ≡ ok (tt, db')
      → (any (has_id file_id) db.files ≡ true)
        × (db'.files ≡ map (update_row (has_id file_id) (point_at version_id now)) db.files)
        × (db'.file_versions ≡ new_version version_id file_id by content now ∷ db.file_versions)
        × (db'.org_usage ≡ map (set_usage (λ used. used +ℤ content.size_bytes) org_id) db.org_usage)
  unfolding add_content
  add_content-ok org_id file_id version_id by content now db db' h =
      let v = new_version version_id file_id by content now in
      let (inserted, first, rest) = chain-ok (insert_version v db) _ h in
      let (known, made) = insert_version-ok v db first in
      let (listed, second, rest') =
        chain-ok (insert_chunks version_id 0 content.chunk_hashes inserted) _ rest in
      let same = insert_chunks-files version_id 0 content.chunk_hashes inserted second in
      let (counted, third, last) =
        chain-ok
          (update_usage (λ used. used +ℤ content.size_bytes) org_id
            (update_files (has_id file_id) (point_at version_id now) listed))
          _ rest' in
      let changed =
        update_usage-ok (λ used. used +ℤ content.size_bytes) org_id
          (update_files (has_id file_id) (point_at version_id now) listed) third in
      let (files, versions, usage) =
        assembled v (has_id file_id) (point_at version_id now)
          (set_usage (λ used. used +ℤ content.size_bytes) org_id) db inserted listed counted db'
          made same changed (ok-injective last) in
      (known, files, versions, usage)

plus_first : (a b : ℤ) → a +ℤ b ≡ b +ℤ a
plus_first a b = omega int_laws

-- The sum of an organisation's bytes with one version more.
sum_of-add :
    (org_id id : ℕ) (v : FileVersion) (db : Db)
    → IsUnique db.files
    → owns org_id v.file_id db.files ≡ true
    → sum_of any_file id (record db { file_versions = v ∷ db.file_versions })
      ≡ (if id == org_id then sum_of any_file id db +ℤ v.size_bytes else sum_of any_file id db)
unfolding sum_of
sum_of-add org_id id v db u h = ground (
  arith,
  belongs_to_owner org_id id v db.files u h,
  plus_first v.size_bytes (sum_of any_file id db),
)

-- A row of UPDATE files that leaves ids and organisations alone, with versions and counters set.
abbrev with_tables : List File → List FileVersion → List OrgUsage → Db → Db
with_tables files versions usage db = record db {
  files = files;
  file_versions = versions;
  org_usage = usage;
}

IsConsistent-add :
    (org_id version_id now : ℕ) (v : FileVersion) (db : Db)
    → IsConsistent db
    → owns org_id v.file_id db.files ≡ true
    → any (has_id v.file_id) db.files ≡ true
    → IsConsistent (
        with_tables
          (map (update_row (has_id v.file_id) (point_at version_id now)) db.files)
          (v ∷ db.file_versions)
          (map (set_usage (λ used. used +ℤ v.size_bytes) org_id) db.org_usage)
          db)
unfolding sum_of
IsConsistent-add org_id version_id now v db good owner known =
    let picks = has_id v.file_id in
    let change = point_at version_id now in
    let keeps : KeepsOwner change = λ f. (refl, refl) in
    record {
      unique = IsUnique-update picks change keeps db.files good.unique;
      owned =
          All-map _ _ (v ∷ db.file_versions)
            (λ u h. has_id-update picks change keeps u.file_id db.files ∙ h) (known, good.owned);
      exact =
          All-set_usage (λ used. used +ℤ v.size_bytes) org_id (λ id. sum_of any_file id db) _
            db.org_usage
            (λ id.
              sum_of-update picks change keeps id
                (record db { file_versions = v ∷ db.file_versions })
              ∙ sum_of-add org_id id v db good.unique owner)
            good.exact;
    }

pub IsConsistent-same :
    (db db' : Db)
    → IsConsistent db
    → db'.files ≡ db.files
    → db'.file_versions ≡ db.file_versions
    → db'.org_usage ≡ db.org_usage
    → IsConsistent db'
unfolding sum_of
IsConsistent-same db db' good files versions usage = record {
  unique = rw files good.unique;
  owned = rw (files, versions) good.owned;
  exact = rw (files, versions, usage) good.exact;
}

-- A new file takes no version from another.
belongs-insert :
    (f : File) (id : ℕ) (fs : List File) (v : FileVersion)
    → any (has_id f.id) fs ≡ false
    → any (has_id v.file_id) fs ≡ true
    → belongs any_file id (f ∷ fs) v ≡ belongs any_file id fs v
belongs-insert f id fs v fresh known = ground (arith, known, has_id_same f.id v.file_id fs)

sum_of-insert :
    (f : File) (id : ℕ) (fs : List File) (vs : List FileVersion)
    → any (has_id f.id) fs ≡ false
    → All (λ v. any (has_id v.file_id) fs ≡ true) vs
    → sum_sizes (filter (belongs any_file id (f ∷ fs)) vs)
      ≡ sum_sizes (filter (belongs any_file id fs) vs)
sum_of-insert f id fs [] fresh owned = refl
sum_of-insert f id fs (v ∷ vs) fresh owned =
    rw (belongs-insert f id fs v fresh owned.0)
      (ground (arith, sum_of-insert f id fs vs fresh owned.1))

IsConsistent-insert :
    (f : File) (db : Db)
    → IsConsistent db
    → any (has_id f.id) db.files ≡ false
    → IsConsistent (record db { files = f ∷ db.files })
unfolding sum_of
IsConsistent-insert f db good fresh = record {
  unique = (fresh, good.unique);
  owned = All-map _ _ db.file_versions (λ v h. ground arith) good.owned;
  exact =
      All-map _ _ db.org_usage
        (λ o h. h ∙ sym (sum_of-insert f o.id db.files db.file_versions fresh good.owned))
        good.exact;
}

module _ {E : Type 0} where
  -- `AddVersion` keeps the counter exact where its caller names the organisation of the file.
  pub add_content-IsConsistent :
      (org_id file_id version_id by : ℕ) (content : Content) (now : ℕ) (db db' : Db)
      → IsConsistent db
      → owns org_id file_id db.files ≡ true
      → add_content {E = E} org_id file_id version_id by content now db ≡ ok (tt, db')
      → IsConsistent db'
  add_content-IsConsistent org_id file_id version_id by content now db db' good owner h =
      let (known, files, versions, usage) =
        add_content-ok org_id file_id version_id by content now db db' h in
      IsConsistent-same _ db'
        (IsConsistent-add org_id version_id now (new_version version_id file_id by content now) db
          good owner known)
        files versions usage

  pub insert_file-ok :
      (f : File) (db : Db) {db' : Db}
      → insert_file {E = E} f db ≡ ok db'
      → (any (has_id f.id) db.files ≡ false) × (record db { files = f ∷ db.files } ≡ db')
  unfolding insert_file
  insert_file-ok f db h = ground arith

  pub create_statements-IsConsistent :
      (file_id version_id : ℕ) (f : NewFile) (content : Content) (now : ℕ) (db db' : Db)
      → IsConsistent db
      → create_statements {E = E} file_id version_id f content now db ≡ ok (tt, db')
      → IsConsistent db'
  unfolding create_statements
  create_statements-IsConsistent file_id version_id f content now db db' good h =
      let (mid, first, rest) = chain-ok (insert_file (new_file file_id f now) db) _ h in
      let (fresh, made) = insert_file-ok (new_file file_id f now) db first in
      add_content-IsConsistent f.org_id file_id version_id f.created_by content now mid db'
        (rw (← made) (IsConsistent-insert (new_file file_id f now) db good fresh))
        (rw (← made) (ground arith)) rest
