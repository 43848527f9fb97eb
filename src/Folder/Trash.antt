-- ===== src/Folder/Trash.antt =====
-- The trash of backend/internal/folder/repository.go: the cascading deletion and the purge.
use nimbus_storage_platform.Base.{
  ℕ, ◌≡◌, refl, ap₂, ◌∙◌, Bool, false, not, ◌&&◌, ◌||◌, some, List, [], ◌∷◌, map, arith, any,
  filter, mem, Bool-cases, inl, inr, if◌then◌else◌,
}
use nimbus_storage_platform.Database.Actions.{ok, err, database_error}
use nimbus_storage_platform.Database.Results.{chain-ok, ok-injective}
use nimbus_storage_platform.Folder.{
  Folder, FolderFile, Tree, FolderAnswer, subtree, of_query, is_untrashed,
}
use nimbus_storage_platform.Folder.Cascade.{
  holds_live, delete_subtree, purge_one, carry_on, purge_all, purge_expired_trash, is_past, trash,
  soft_delete_cascade,
}

-- The live folders and files, in order.
abbrev pub live_folders : Tree → List Folder
live_folders t = filter (λ (f : Folder). is_untrashed f.deleted_at) t.folders

abbrev pub live_files : Tree → List FolderFile
live_files t = filter (λ (f : FolderFile). is_untrashed f.deleted_at) t.files

abbrev pub SameLive : Tree → Tree → Type 0
SameLive t' t = (live_folders t' ≡ live_folders t) × (live_files t' ≡ live_files t)

-- Deleting what is not live keeps what is.
filter-dead :
    {A : Type 0} (live doomed : A → Bool) (xs : List A)
    → any (λ x. doomed x && live x) xs ≡ false
    → filter live (filter (λ x. not (doomed x)) xs) ≡ filter live xs
filter-dead live doomed [] h = refl
filter-dead live doomed (x ∷ xs) h = ground (arith, filter-dead live doomed xs)

delete_subtree-SameLive :
    (ids : List ℕ) (t : Tree) → holds_live ids t ≡ false → SameLive (delete_subtree ids t) t
unfolding delete_subtree
delete_subtree-SameLive ids t h = (
  filter-dead (λ (f : Folder). is_untrashed f.deleted_at) (λ f. mem f.id ids) t.folders
      (ground arith),
  filter-dead (λ (f : FolderFile). is_untrashed f.deleted_at) (λ f. mem f.folder_id ids) t.files
      (ground arith),
)

purge_one-SameLive : (rounds id : ℕ) (t t' : Tree) → purge_one rounds id t ≡ ok t' → SameLive t' t
unfolding purge_one
purge_one-SameLive rounds id t t' h =
    let (ids, found, rest) = chain-ok (of_query (subtree rounds t.folders id)) _ h in
    elim (Bool-cases (holds_live ids t)) [
      | inl guarded ↦ rw (← ok-injective (rw guarded at rest)) (refl, refl)
      | inr dead ↦ rw (← ok-injective (rw dead at rest)) (delete_subtree-SameLive ids t dead)
    ]

carry_on-SameLive :
    (step : FolderAnswer Tree) (t : Tree) (next : Tree → Tree)
    → ((t' : Tree) → step ≡ ok t' → SameLive t' t)
    → ((t' : Tree) → SameLive (next t') t')
    → SameLive (carry_on step t next) t
carry_on-SameLive (ok t') t next first rest =
    ((rest t').0 ∙ (first t' refl).0, (rest t').1 ∙ (first t' refl).1)
carry_on-SameLive (err e) t next first rest = (refl, refl)
carry_on-SameLive database_error t next first rest = (refl, refl)

purge_all-SameLive : (rounds : ℕ) (ids : List ℕ) (t : Tree) → SameLive (purge_all rounds ids t) t
unfolding purge_all
purge_all-SameLive rounds [] t = (refl, refl)
purge_all-SameLive rounds (id ∷ ids) t =
    carry_on-SameLive (purge_one rounds id t) t (λ t'. purge_all rounds ids t')
      (purge_one-SameLive rounds id t) (purge_all-SameLive rounds ids)

-- The purge of expired trash leaves every live folder and file as it was, also where a live one lies
-- inside an expired folder, and also where it stops early.
pub purge_expired_trash-SameLive :
    (rounds now older_than : ℕ) (t : Tree)
    → SameLive (purge_expired_trash rounds now older_than t) t
unfolding purge_expired_trash
purge_expired_trash-SameLive rounds now older_than t =
    purge_all-SameLive rounds
      (map (λ f. f.id) (filter (λ (f : Folder). is_past now older_than f.deleted_at) t.folders)) t

module _ (now : ℕ) (ids : List ℕ) where
  trashed-folders :
      (fs : List Folder)
      → let fs' =
          map
            (λ (f : Folder).
              if mem f.id ids && is_untrashed f.deleted_at
              then record f { deleted_at = some now; updated_at = now }
              else f)
            fs in
        (any (λ (f : Folder). mem f.id ids && is_untrashed f.deleted_at) fs' ≡ false)
        × (filter (λ (f : Folder). not (mem f.id ids)) fs'
            ≡ filter (λ (f : Folder). not (mem f.id ids)) fs)
  trashed-folders [] = (refl, refl)
  trashed-folders (f ∷ fs) = ground (arith, trashed-folders fs)

  trashed-files :
      (fs : List FolderFile)
      → let fs' =
          map
            (λ (f : FolderFile).
              if mem f.folder_id ids && is_untrashed f.deleted_at
              then record f { deleted_at = some now; updated_at = now }
              else f)
            fs in
        (any (λ (f : FolderFile). mem f.folder_id ids && is_untrashed f.deleted_at) fs' ≡ false)
        × (filter (λ (f : FolderFile). not (mem f.folder_id ids)) fs'
            ≡ filter (λ (f : FolderFile). not (mem f.folder_id ids)) fs)
  trashed-files [] = (refl, refl)
  trashed-files (f ∷ fs) = ground (arith, trashed-files fs)

-- A cascading deletion leaves nothing live in the subtree of the folder, and every folder and file
-- outside it as it was.
pub soft_delete_cascade-trashes :
    (rounds now id : ℕ) (t t' : Tree)
    → soft_delete_cascade rounds now id t ≡ ok t'
    → (ids : List ℕ) × (subtree rounds t.folders id ≡ some ids)
      × (holds_live ids t' ≡ false)
      × (filter (λ (f : Folder). not (mem f.id ids)) t'.folders
          ≡ filter (λ (f : Folder). not (mem f.id ids)) t.folders)
      × (filter (λ (f : FolderFile). not (mem f.folder_id ids)) t'.files
          ≡ filter (λ (f : FolderFile). not (mem f.folder_id ids)) t.files)
unfolding soft_delete_cascade trash
soft_delete_cascade-trashes rounds now id t t' h =
    let (ids, found, last) = chain-ok (of_query (subtree rounds t.folders id)) _ h in
    let folders = trashed-folders now ids t.folders in
    let files = trashed-files now ids t.files in
    rw (← ok-injective last) (ids, ground arith, ap₂ ◌||◌ folders.0 files.0, folders.1, files.1)
