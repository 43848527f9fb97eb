-- ===== src/File/Purging.antt =====
-- `Purge` and `PurgeExpiredTrash` of backend/internal/file/repository.go, and the counter of stored
-- bytes that they lower.
use nimbus_storage_platform.Base.{
  ℕ, ◌≡◌, refl, ap, ap₂, sym, ◌∙◌, ◌⊎◌, inl, inr, ℤ, pos, ◌-ℤ◌, int_laws, Bool, true, false, not,
  ◌&&◌, ◌||◌, List, [], ◌∷◌, arith, map, filter, any, All, All-map, ◌==◌, if◌then◌else◌, mem,
  Bool-cases,
}
use nimbus_storage_platform.Database.{Db, File, FileVersion}
use nimbus_storage_platform.Database.Actions.{ok}
use nimbus_storage_platform.Database.Results.{◌>>◌, chain-ok, ok-injective}
use nimbus_storage_platform.File.{fails_if, update_usage, is_kept, is_trashed_file}
use nimbus_storage_platform.File.Rows.{
  sum_of, has_id, sum_sizes, belongs, groups, freed_by, delete_files, is_expired, scan_fails,
}
use nimbus_storage_platform.File.Statements.{
  debit_all, purge_freed, purge_statements, expire_statements,
}
use nimbus_storage_platform.File.Sums.{any_file, IsUnique, sum_of-delete_files, has_id_same}
use nimbus_storage_platform.File.Usage.{IsConsistent, All-set_usage, update_usage-ok, guarded-ok}

-- Distinct organisations.
abbrev pub IsDistinct : List ℕ → Type 0
IsDistinct [] = Unit
IsDistinct (o ∷ os) = (mem o os ≡ false) × IsDistinct os

groups-IsDistinct : (picks : File → Bool) (fs : List File) → IsDistinct (groups picks fs)
unfolding groups
groups-IsDistinct picks [] = tt
groups-IsDistinct picks (f ∷ fs) = ground (arith, groups-IsDistinct picks fs)

pub mem-groups :
    (picks : File → Bool) (org_id : ℕ) (fs : List File)
    → mem org_id (groups picks fs) ≡ any (λ f. picks f && f.org_id == org_id) fs
unfolding groups
mem-groups picks org_id [] = refl
mem-groups picks org_id (f ∷ fs) =
    ground (arith, mem-groups picks org_id fs, mem-groups picks f.org_id fs)

belongs-nothing :
    (picks : File → Bool) (org_id : ℕ) (fs : List File) (v : FileVersion)
    → any (λ f. picks f && f.org_id == org_id) fs ≡ false
    → belongs picks org_id fs v ≡ false
belongs-nothing picks org_id [] v h = refl
belongs-nothing picks org_id (f ∷ fs) v h = ground (arith, belongs-nothing picks org_id fs v)

sum-nothing :
    (p : FileVersion → Bool) (vs : List FileVersion)
    → ((v : FileVersion) → p v ≡ false)
    → sum_sizes (filter p vs) ≡ pos 0
sum-nothing p [] h = refl
sum-nothing p (v ∷ vs) h = ground (arith, h v, sum-nothing p vs h)

-- An organisation with no picked file frees nothing.
pub sum_of-nothing :
    (picks : File → Bool) (org_id : ℕ) (db : Db)
    → mem org_id (groups picks db.files) ≡ false
    → sum_of picks org_id db ≡ pos 0
unfolding sum_of
sum_of-nothing picks org_id db h =
    sum-nothing (belongs picks org_id db.files) db.file_versions
      (λ v. belongs-nothing picks org_id db.files v (sym (mem-groups picks org_id db.files) ∙ h))

module _ (freed : ℕ → ℤ) where
  debit_twice :
      (before : ℕ → ℤ) (org_id : ℕ) (orgs : List ℕ) (id : ℕ)
      → mem org_id orgs ≡ false
      → let stepped = if id == org_id then before id -ℤ freed org_id else before id in
        (if mem id orgs then stepped -ℤ freed id else stepped)
        ≡ (if (org_id == id) || mem id orgs then before id -ℤ freed id else before id)
  debit_twice before org_id orgs id d = elim (Bool-cases (id == org_id)) [
    | inr other ↦ ground arith
    | inl same ↦ let e : id ≡ org_id = ground arith in rw e (ground (arith, d))
  ]

module _ {E : Type 0} (freed : ℕ → ℤ) where
  -- The loop of debits: each counter falls by its own sum, once.
  pub debit_all-ok :
      (orgs : List ℕ) (before : ℕ → ℤ) (db db' : Db)
      → IsDistinct orgs
      → All (λ o. o.usage_bytes ≡ before o.id) db.org_usage
      → debit_all {E = E} (map (λ o. (o, freed o)) orgs) db ≡ ok db'
      → (db'.files ≡ db.files)
        × (db'.file_versions ≡ db.file_versions)
        × (db'.version_chunks ≡ db.version_chunks)
        × (db'.chunks ≡ db.chunks)
        × All
            (λ o.
              o.usage_bytes ≡ (if mem o.id orgs then before o.id -ℤ freed o.id else before o.id))
            db'.org_usage
  unfolding debit_all
  debit_all-ok [] before db db' d h e = rw (← ok-injective e) (refl, refl, refl, refl, h)
  debit_all-ok (org_id ∷ orgs) before db db' d h e =
      let change : ℤ → ℤ = λ used. used -ℤ freed org_id in
      let (mid, first, rest) = chain-ok (update_usage change org_id db) _ e in
      let made = update_usage-ok change org_id db first in
      let stepped : ℕ → ℤ = λ id. if id == org_id then before id -ℤ freed org_id else before id in
      let tail =
        debit_all-ok orgs stepped mid db' d.1
          (rw (← made) (All-set_usage change org_id before stepped db.org_usage (λ id. refl) h))
          rest in
      (
        tail.0 ∙ ap (λ x. x.files) (sym made),
        tail.1 ∙ ap (λ x. x.file_versions) (sym made),
        tail.2 ∙ ap (λ x. x.version_chunks) (sym made),
        tail.3 ∙ ap (λ x. x.chunks) (sym made),
        All-map _ _ db'.org_usage (λ o k. k ∙ debit_twice freed before org_id orgs o.id d.0) tail.4,
      )

has_id-filter_none :
    (gone : File → Bool) (id : ℕ) (fs : List File)
    → any (has_id id) fs ≡ false
    → any (has_id id) (filter (λ f. not (gone f)) fs) ≡ false
has_id-filter_none gone id [] h = refl
has_id-filter_none gone id (f ∷ fs) h = ground (arith, has_id-filter_none gone id fs)

has_id-filter :
    (gone : File → Bool) (id : ℕ) (fs : List File)
    → any (has_id id) fs ≡ true
    → any (λ f. gone f && f.id == id) fs ≡ false
    → any (has_id id) (filter (λ f. not (gone f)) fs) ≡ true
has_id-filter gone id [] h k = cc
has_id-filter gone id (f ∷ fs) h k = ground (arith, has_id-filter gone id fs)

delete_files-IsUnique :
    (gone : File → Bool) (fs : List File) → IsUnique fs → IsUnique (filter (λ f. not (gone f)) fs)
delete_files-IsUnique gone [] u = tt
delete_files-IsUnique gone (f ∷ fs) u =
    ground (arith, delete_files-IsUnique gone fs u.1, has_id-filter_none gone f.id fs)

owned-filter :
    (gone : File → Bool) (fs : List File) (vs : List FileVersion)
    → All (λ v. any (has_id v.file_id) fs ≡ true) vs
    → All
        (λ v. any (has_id v.file_id) (filter (λ f. not (gone f)) fs) ≡ true)
        (filter (λ v. not (any (λ f. gone f && f.id == v.file_id) fs)) vs)
owned-filter gone fs [] h = tt
owned-filter gone fs (v ∷ vs) h =
    ground (arith, owned-filter gone fs vs h.1, has_id-filter gone v.file_id fs h.0)

-- Deleting files and lowering each organisation's counter by what its deleted files held.
IsConsistent-delete :
    (gone : File → Bool) (db db' : Db)
    → IsConsistent db
    → db'.files ≡ (delete_files gone db).files
    → db'.file_versions ≡ (delete_files gone db).file_versions
    → All (λ o. o.usage_bytes ≡ sum_of any_file o.id db -ℤ sum_of gone o.id db) db'.org_usage
    → IsConsistent db'
unfolding delete_files sum_of
IsConsistent-delete gone db db' good files versions usage = record {
  unique = rw files (delete_files-IsUnique gone db.files good.unique);
  owned = rw (files, versions) (owned-filter gone db.files db.file_versions good.owned);
  exact =
      All-map _ _ db'.org_usage
        (λ o h.
          h
          ∙ sym (sum_of-delete_files gone o.id db good.unique)
          ∙ sym (ap₂ (λ fs vs. sum_sizes (filter (belongs any_file o.id fs) vs)) files versions))
        usage;
}

pub minus_zero : (a : ℤ) → a ≡ a -ℤ pos 0
minus_zero a = omega int_laws

module _ {E : Type 0} (gone : File → Bool) (db db' : Db) where
  -- The DELETE and the loop of debits, with the sums that were read before.
  delete_and_debit-IsConsistent :
      IsConsistent db
      → debit_all {E = E} (freed_by gone db) (delete_files gone db) ≡ ok db'
      → IsConsistent db'
  unfolding freed_by delete_files
  delete_and_debit-IsConsistent good h =
      let (files, versions, _, _, usage) =
        debit_all-ok (λ id. sum_of gone id db) (groups gone db.files) (λ id. sum_of any_file id db)
          (delete_files gone db) db' (groups-IsDistinct gone db.files) good.exact h in
      IsConsistent-delete gone db db' good files versions
        (All-map _ _ db'.org_usage (λ o k. k ∙ debited o.id) usage)
    where
      debited :
          (id : ℕ)
          → (if mem id (groups gone db.files)
              then sum_of any_file id db -ℤ sum_of gone id db
              else sum_of any_file id db)
            ≡ sum_of any_file id db -ℤ sum_of gone id db
      debited id = elim (Bool-cases (mem id (groups gone db.files))) [
        | inl frees ↦ rw frees refl
        | inr idle ↦ rw (idle, sum_of-nothing gone id db idle) (minus_zero (sum_of any_file id db))
      ]

-- `PurgeExpiredTrash` keeps the counters exact when nothing commits in between.
pub expire_statements-IsConsistent :
    {E : Type 0} (older_than now n : ℕ) (db db' : Db)
    → IsConsistent db
    → expire_statements {E = E} (λ d. d) older_than now db ≡ ok (n, db')
    → IsConsistent db'
unfolding expire_statements
expire_statements-IsConsistent {E} older_than now n db db' good h =
    let picks = is_expired now older_than in
    let freed = freed_by picks db in
    let (counted, run, last) =
      chain-ok (fails_if (scan_fails freed) >> debit_all freed (delete_files picks db)) _ h in
    let debits =
      (guarded-ok {E = E} (scan_fails freed) (debit_all freed (delete_files picks db)) run).1 in
    let same : counted ≡ db' = ap (λ r. r.1) (ok-injective last) in
    rw (← same) (delete_and_debit-IsConsistent picks db counted good debits)

groups-none :
    (id : ℕ) (fs : List File) → any (has_id id) fs ≡ false → groups (is_trashed_file id) fs ≡ []
unfolding groups
groups-none id [] h = refl
groups-none id (f ∷ fs) h = ground (arith, groups-none id fs)

one_or_none :
    (b : Bool) (org_id : ℕ)
    → ((if b then org_id ∷ [] else []) ≡ [])
      ⊎ ((o : ℕ) × ((if b then org_id ∷ [] else []) ≡ o ∷ []))
one_or_none true org_id = inr (org_id, refl)
one_or_none false org_id = inl refl

-- An id names at most one file, so that its trash belongs to at most one organisation.
pub one_group :
    (id : ℕ) (fs : List File)
    → IsUnique fs
    → (groups (is_trashed_file id) fs ≡ [])
      ⊎ ((org_id : ℕ) × (groups (is_trashed_file id) fs ≡ org_id ∷ []))
unfolding groups
one_group id [] u = inl refl
one_group id (f ∷ fs) u = elim (Bool-cases (f.id == id)) [
  | inr other ↦ rw other (one_group id fs u.1)
  | inl same ↦
      let rest = groups-none id fs (has_id_same f.id id fs same u.0) in
      rw (same, rest) (one_or_none (not (is_kept f) && true) f.org_id)
]

module _ {E : Type 0} (between : Db → Db) (id : ℕ) (db db' : Db) where
  -- The one debit of `Purge` is the loop of `PurgeExpiredTrash` with one turn.
  pub purge_freed-debits :
      (org_id : ℕ) (bytes : ℤ)
      → purge_freed {E = E} between id db ((org_id, bytes) ∷ []) ≡ ok (tt, db')
      → debit_all {E = E} ((org_id, bytes) ∷ []) (delete_files (is_trashed_file id) (between db))
        ≡ ok db'
  unfolding purge_freed debit_all
  purge_freed-debits org_id bytes h =
      let (counted, run, last) =
        chain-ok
          (update_usage {E = E} (λ used. used -ℤ bytes) org_id
            (delete_files (is_trashed_file id) (between db)))
          _ h in
      rw run (ap (λ (r : Unit {0} × Db). ok r.1) (ok-injective last))

  pub purge_freed-nothing : purge_freed {E = E} between id db [] ≡ ok (tt, db') → db ≡ db'
  unfolding purge_freed
  purge_freed-nothing h = ap (λ r. r.1) (ok-injective h)

-- `Purge` keeps the counters exact when nothing commits in between.
pub purge_statements-IsConsistent :
    {E : Type 0} (id now : ℕ) (db db' : Db)
    → IsConsistent db
    → purge_statements {E = E} (λ d. d) id now db ≡ ok (tt, db')
    → IsConsistent db'
unfolding purge_statements freed_by
purge_statements-IsConsistent {E} id now db db' good h =
    let gone = is_trashed_file id in
    let freed = freed_by gone db in
    let queried = (guarded-ok (scan_fails freed) (purge_freed (λ d. d) id db freed) h).1 in
    elim (one_group id db.files good.unique) [
      | inl nothing ↦
          rw (← purge_freed-nothing {E = E} (λ d. d) id db db' (rw nothing at queried)) good
      | inr (org_id, only) ↦
          let debits =
            purge_freed-debits {E = E} (λ d. d) id db db' org_id (sum_of gone org_id db)
              (rw only at queried) in
          delete_and_debit-IsConsistent {E = E} gone db db' good (rw only debits)
    ]
