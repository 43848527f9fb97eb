-- ===== src/File/Sums.antt =====
-- Sums of sizes over the versions of a group of files (backend/internal/file/repository.go), as the
-- rows come and go.
use nimbus_storage_platform.Base.{
  ℕ, ◌≡◌, refl, ap, ◌∙◌, ℤ, ◌+ℤ◌, ◌-ℤ◌, int_laws, Bool, true, false, not, ◌&&◌, List, [], ◌∷◌,
  arith, map, filter, any, ◌==◌,
}
use nimbus_storage_platform.Database.{Db, File, FileVersion}
use nimbus_storage_platform.File.{update_row}
use nimbus_storage_platform.File.Rows.{
  sum_sizes, belongs, sum_of, is_gone_file, delete_files, has_id,
}

abbrev pub any_file : File → Bool
any_file f = true

-- No two files share an id.
abbrev pub IsUnique : List File → Type 0
IsUnique [] = Unit
IsUnique (f ∷ fs) = (any (has_id f.id) fs ≡ false) × IsUnique fs

pub sum-split :
    (p q : FileVersion → Bool) (vs : List FileVersion)
    → sum_sizes (filter p vs)
      ≡ sum_sizes (filter (λ v. p v && q v) vs) +ℤ sum_sizes (filter (λ v. p v && not (q v)) vs)
sum-split p q [] = omega int_laws
sum-split p q (v ∷ vs) = grind (int_laws, sum-split p q vs)

pub filter_cong :
    {A : Type 0} (p q : A → Bool) (xs : List A) → ((x : A) → p x ≡ q x) → filter p xs ≡ filter q xs
filter_cong p q [] h = refl
filter_cong p q (x ∷ xs) h = ground (arith, h x, filter_cong p q xs h)

filter-filter :
    {A : Type 0} (p q : A → Bool) (xs : List A)
    → filter p (filter q xs) ≡ filter (λ x. p x && q x) xs
filter-filter p q [] = refl
filter-filter p q (x ∷ xs) = ground (arith, filter-filter p q xs)

pub has_id_same :
    (a b : ℕ) (fs : List File)
    → (a == b) ≡ true
    → any (has_id a) fs ≡ false
    → any (has_id b) fs ≡ false
has_id_same a b fs same none_a = let e : a ≡ b = ground arith in rw (← e) none_a

module _ (gone : File → Bool) (org_id : ℕ) (v : FileVersion) where
  -- Files that go are no loss to a version of a file that stays.
  pub belongs-filter :
      (fs : List File)
      → any (λ f. gone f && f.id == v.file_id) fs ≡ false
      → belongs any_file org_id (filter (λ f. not (gone f)) fs) v ≡ belongs any_file org_id fs v
  belongs-filter [] h = refl
  belongs-filter (f ∷ fs) h = ground (arith, belongs-filter fs)

  pub belongs-none :
      (fs : List File)
      → any (has_id v.file_id) fs ≡ false
      → (belongs any_file org_id fs v ≡ false)
        × (belongs gone org_id fs v ≡ false)
        × (any (λ f. gone f && f.id == v.file_id) fs ≡ false)
  belongs-none [] h = (refl, refl, refl)
  belongs-none (f ∷ fs) h = ground (arith, belongs-none fs)

  -- Of the versions of an organisation, the ones that go are those of its files that go.
  belongs-split :
      (fs : List File)
      → IsUnique fs
      → belongs gone org_id fs v
        ≡ (belongs any_file org_id fs v && any (λ f. gone f && f.id == v.file_id) fs)
  belongs-split [] u = refl
  belongs-split (f ∷ fs) u =
      ground (arith, belongs-split fs u.1, belongs-none fs, has_id_same f.id v.file_id fs)

pub rest_of : (a b c : ℤ) → a ≡ b +ℤ c → c ≡ a -ℤ b
rest_of a b c h = rw h (omega int_laws)

-- What is left of the bytes of an organisation.
pub sum_of-delete_files :
    (gone : File → Bool) (org_id : ℕ) (db : Db)
    → IsUnique db.files
    → sum_of any_file org_id (delete_files gone db)
      ≡ sum_of any_file org_id db -ℤ sum_of gone org_id db
unfolding sum_of delete_files
sum_of-delete_files gone org_id db u = rw (left, freed) (rest_of _ _ _ parts)
  where
    stays : FileVersion → Bool
    stays v = not (is_gone_file gone v.file_id db)

    parts :
        sum_sizes (filter (belongs any_file org_id db.files) db.file_versions)
        ≡ sum_sizes (
            filter
              (λ v. belongs any_file org_id db.files v && is_gone_file gone v.file_id db)
              db.file_versions)
          +ℤ sum_sizes
              (filter (λ v. belongs any_file org_id db.files v && stays v) db.file_versions)
    parts =
        sum-split (belongs any_file org_id db.files) (λ v. is_gone_file gone v.file_id db)
          db.file_versions

    same :
        (v : FileVersion)
        → (belongs any_file org_id (filter (λ f. not (gone f)) db.files) v && stays v)
          ≡ (belongs any_file org_id db.files v && stays v)
    same v = ground (arith, belongs-filter gone org_id v db.files)

    left :
        filter
          (belongs any_file org_id (filter (λ f. not (gone f)) db.files))
          (filter stays db.file_versions)
        ≡ filter (λ v. belongs any_file org_id db.files v && stays v) db.file_versions
    left = filter-filter _ stays db.file_versions ∙ filter_cong _ _ db.file_versions same

    freed :
        filter (belongs gone org_id db.files) db.file_versions
        ≡ filter
            (λ v. belongs any_file org_id db.files v && is_gone_file gone v.file_id db)
            db.file_versions
    freed = filter_cong _ _ db.file_versions (λ v. belongs-split gone org_id v db.files u)

-- An UPDATE that leaves ids and organisations alone.
abbrev pub KeepsOwner : (File → File) → Type 0
KeepsOwner change = (f : File) → ((change f).id ≡ f.id) × ((change f).org_id ≡ f.org_id)

module _ (picks : File → Bool) (change : File → File) (keeps : KeepsOwner change) where
  belongs-update :
      (org_id : ℕ) (v : FileVersion) (fs : List File)
      → belongs any_file org_id (map (update_row picks change) fs) v ≡ belongs any_file org_id fs v
  belongs-update org_id v [] = refl
  belongs-update org_id v (f ∷ fs) = ground (arith, keeps f, belongs-update org_id v fs)

  pub has_id-update :
      (id : ℕ) (fs : List File)
      → any (has_id id) (map (update_row picks change) fs) ≡ any (has_id id) fs
  has_id-update id [] = refl
  has_id-update id (f ∷ fs) = ground (arith, keeps f, has_id-update id fs)

  update_row-id : (f : File) → (update_row picks change f).id ≡ f.id
  update_row-id f = ground (arith, keeps f)

  pub IsUnique-update : (fs : List File) → IsUnique fs → IsUnique (map (update_row picks change) fs)
  IsUnique-update [] u = tt
  IsUnique-update (f ∷ fs) u = (rw (has_id-update, update_row-id f) u.0, IsUnique-update fs u.1)

  pub sum_of-update :
      (org_id : ℕ) (db : Db)
      → sum_of any_file org_id (record db { files = map (update_row picks change) db.files })
        ≡ sum_of any_file org_id db
  unfolding sum_of
  sum_of-update org_id db =
      ap sum_sizes (filter_cong _ _ db.file_versions (λ v. belongs-update org_id v db.files))

-- The file of an organisation: what a caller of `AddVersion` has looked up.
abbrev pub owns : ℕ → ℕ → List File → Bool
owns org_id file_id fs = any (λ f. f.org_id == org_id && f.id == file_id) fs

-- A version of a file belongs to the one organisation that owns the file.
pub belongs_to_owner :
    (org_id other : ℕ) (v : FileVersion) (fs : List File)
    → IsUnique fs
    → owns org_id v.file_id fs ≡ true
    → belongs any_file other fs v ≡ (org_id == other)
belongs_to_owner org_id other v [] u h = cc
belongs_to_owner org_id other v (f ∷ fs) u h = ground (
  arith,
  belongs_to_owner org_id other v fs u.1,
  belongs-none any_file other v fs,
  belongs-none any_file org_id v fs,
  has_id_same f.id v.file_id fs,
)
