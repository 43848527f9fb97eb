-- ===== src/File/Race.antt =====
-- Two requests that purge the same file at once (`Purge` of backend/internal/file/repository.go): both
-- have read its bytes when the first commits.
use nimbus_storage_platform.Base.{
  ℕ, ◌≡◌, refl, ap, ap₂, sym, ◌∙◌, inl, inr, ℤ, pos, ◌-ℤ◌, Bool, false, not, ◌&&◌, ◌||◌, List, [],
  ◌∷◌, arith, filter, any, All, All-map, ◌==◌, if◌then◌else◌, Bool-cases,
}
use nimbus_storage_platform.Database.{Db, File}
use nimbus_storage_platform.Database.Actions.{ok}
use nimbus_storage_platform.File.{is_trashed_file}
use nimbus_storage_platform.File.Rows.{
  sum_of, sum_sizes, belongs, groups, freed_by, delete_files, scan_fails,
}
use nimbus_storage_platform.File.Statements.{purge_freed, purge_statements}
use nimbus_storage_platform.File.Sums.{any_file, sum_of-delete_files}
use nimbus_storage_platform.File.Usage.{IsConsistent, guarded-ok}
use nimbus_storage_platform.File.Purging.{
  mem-groups, sum_of-nothing, one_group, minus_zero, debit_all-ok, purge_freed-debits,
  purge_freed-nothing, purge_statements-IsConsistent,
}

nothing_left :
    (gone : File → Bool) (org_id : ℕ) (fs : List File)
    → any (λ f. gone f && f.org_id == org_id) (filter (λ f. not (gone f)) fs) ≡ false
nothing_left gone org_id [] = refl
nothing_left gone org_id (f ∷ fs) = ground (arith, nothing_left gone org_id fs)

-- Once a file is purged, its id frees nothing more.
sum_of-purged :
    (gone : File → Bool) (org_id : ℕ) (db once : Db)
    → once.files ≡ (delete_files gone db).files
    → sum_of gone org_id once ≡ pos 0
unfolding delete_files
sum_of-purged gone org_id db once files = sum_of-nothing gone org_id once (
    mem-groups gone org_id once.files
    ∙ (ap (any (λ f. gone f && f.org_id == org_id)) files ∙ nothing_left gone org_id db.files))

sum_of-deleted :
    (gone : File → Bool) (org_id : ℕ) (once twice : Db)
    → twice.files ≡ (delete_files gone once).files
    → twice.file_versions ≡ (delete_files gone once).file_versions
    → sum_of any_file org_id twice ≡ sum_of any_file org_id (delete_files gone once)
unfolding sum_of
sum_of-deleted gone org_id once twice files versions =
    ap₂ (λ fs vs. sum_sizes (filter (belongs any_file org_id fs) vs)) files versions

module _ {E : Type 0} where
  -- What a purge that frees the bytes of one organisation does to the files and the counters.
  purged :
      (between : Db → Db) (id now org_id : ℕ) (before : ℕ → ℤ) (db db' : Db)
      → groups (is_trashed_file id) db.files ≡ org_id ∷ []
      → All (λ o. o.usage_bytes ≡ before o.id) (between db).org_usage
      → purge_statements {E = E} between id now db ≡ ok (tt, db')
      → (db'.files ≡ (delete_files (is_trashed_file id) (between db)).files)
        × (db'.file_versions ≡ (delete_files (is_trashed_file id) (between db)).file_versions)
        × All
            (λ o. o.usage_bytes ≡ before o.id -ℤ sum_of (is_trashed_file id) o.id db)
            db'.org_usage
  unfolding purge_statements freed_by delete_files
  purged between id now org_id before db db' only counted h =
      let gone = is_trashed_file id in
      let freed = freed_by gone db in
      let queried = (guarded-ok (scan_fails freed) (purge_freed between id db freed) h).1 in
      let debits =
        purge_freed-debits {E = E} between id db db' org_id (sum_of gone org_id db)
          (rw only at queried) in
      let (files, versions, _, _, usage) =
        debit_all-ok {E = E} (λ o. sum_of gone o db) (org_id ∷ []) before
          (delete_files gone (between db)) db' (refl, tt) counted debits in
      (files, versions, All-map _ _ db'.org_usage (λ o k. k ∙ debited o.id) usage)
    where
      debited :
          (o : ℕ)
          → (if (org_id == o) || false
              then before o -ℤ sum_of (is_trashed_file id) o db
              else before o)
            ≡ before o -ℤ sum_of (is_trashed_file id) o db
      debited o = elim (Bool-cases (org_id == o)) [
        | inl frees ↦ rw frees refl
        | inr idle ↦
            let nothing : sum_of (is_trashed_file id) o db ≡ pos 0 =
              sum_of-nothing (is_trashed_file id) o db (rw (only, idle) refl) in
            rw (idle, nothing) (minus_zero (before o))
      ]

  nothing_purged :
      (between : Db → Db) (id now : ℕ) (db db' : Db)
      → groups (is_trashed_file id) db.files ≡ []
      → purge_statements {E = E} between id now db ≡ ok (tt, db')
      → db ≡ db'
  unfolding purge_statements freed_by
  nothing_purged between id now db db' nothing h =
      let freed = freed_by (is_trashed_file id) db in
      purge_freed-nothing {E = E} between id db db'
        (rw nothing at (guarded-ok (scan_fails freed) (purge_freed between id db freed) h).1)

-- Where two overlapping purges of one file both succeed, which the counter allows as long as it does
-- not go below zero, each organisation's counter is below the sum of its versions by the bytes that
-- the file held.
pub purge_statements_races :
    {E : Type 0} (id now : ℕ) (db once twice : Db)
    → IsConsistent db
    → purge_statements {E = E} (λ d. d) id now db ≡ ok (tt, once)
    → purge_statements {E = E} (λ _. once) id now db ≡ ok (tt, twice)
    → All
        (λ o. o.usage_bytes ≡ sum_of any_file o.id twice -ℤ sum_of (is_trashed_file id) o.id db)
        twice.org_usage
purge_statements_races {E} id now db once twice good first second =
    let gone = is_trashed_file id in
    let after_first = purge_statements-IsConsistent {E = E} id now db once good first in
    elim (one_group id db.files good.unique) [
      | inl nothing ↦ rw (← nothing_purged {E = E} (λ _. once) id now db twice nothing second) (
          All-map _ _ db.org_usage
            (λ o k. k ∙ rw (sum_of-nothing gone o.id db (rw nothing refl)) (minus_zero _))
            good.exact)
      | inr (org_id, only) ↦
          let (files, _, _) =
            purged {E = E} (λ d. d) id now org_id (λ o. sum_of any_file o db) db once only
              good.exact first in
          let (left, versions, usage) =
            purged {E = E} (λ _. once) id now org_id (λ o. sum_of any_file o once) db twice only
              after_first.exact second in
          All-map _ _ twice.org_usage
            (λ o k.
              k
              ∙ ap (λ a. a -ℤ sum_of gone o.id db)
                  (sym (
                    sum_of-deleted gone o.id once twice left versions
                    ∙ (sum_of-delete_files gone o.id once after_first.unique
                        ∙ rw (sum_of-purged gone o.id db once files) (sym (minus_zero _))))))
            usage
    ]
