-- ===== src/Folder/Cascade.antt =====
-- backend/internal/folder/repository.go: the operations on a whole subtree, which are the cascading
-- deletion, its undoing and the purge of expired trash.
use nimbus_storage_platform.Base.{
  ℕ, ◌+◌, Bool, true, false, not, ◌&&◌, ◌||◌, Option, none, some, List, [], ◌∷◌, map, if◌then◌else◌,
  ltb, filter, any, mem,
}
use nimbus_storage_platform.Database.Actions.{ok, err, database_error}
use nimbus_storage_platform.Database.Results.{◌>>=◌, ◌>>◌}
use nimbus_storage_platform.Folder.{
  Folder, FolderFile, Tree, FolderAnswer, is_untrashed, has_clash, subtree, of_query,
}

-- `UPDATE … SET deleted_at` on what lies in the subtree.
unfoldable pub trash : ℕ → List ℕ → Tree → Tree
trash now ids t = record {
  folders =
      map
        (λ (f : Folder).
          if mem f.id ids && is_untrashed f.deleted_at
          then record f { deleted_at = some now; updated_at = now }
          else f)
        t.folders;
  files =
      map
        (λ (f : FolderFile).
          if mem f.folder_id ids && is_untrashed f.deleted_at
          then record f { deleted_at = some now; updated_at = now }
          else f)
        t.files;
}

unfoldable pub untrash : ℕ → List ℕ → Tree → Tree
untrash now ids t = record {
  folders =
      map
        (λ (f : Folder).
          if mem f.id ids && not (is_untrashed f.deleted_at)
          then record f { deleted_at = none; updated_at = now }
          else f)
        t.folders;
  files =
      map
        (λ (f : FolderFile).
          if mem f.folder_id ids && not (is_untrashed f.deleted_at)
          then record f { deleted_at = none; updated_at = now }
          else f)
        t.files;
}

unfoldable pub soft_delete_cascade : ℕ → ℕ → ℕ → Tree → FolderAnswer Tree
soft_delete_cascade rounds now id t =
    of_query (subtree rounds t.folders id) >>= λ ids. ok (trash now ids t)

abbrev pub database_error_if : Bool → FolderAnswer (Unit {0})
database_error_if true = database_error
database_error_if false = ok tt

-- `RestoreCascade`; a clash of sibling names fails the statement.
unfoldable pub restore_cascade : (ℕ → ℕ) → ℕ → ℕ → ℕ → Tree → FolderAnswer Tree
restore_cascade lower rounds now id t = do
  ids ← of_query (subtree rounds t.folders id)
  database_error_if (has_clash lower (untrash now ids t).folders)
  ok (untrash now ids t)

-- The guard of the purge: something live in the subtree.
abbrev pub holds_live : List ℕ → Tree → Bool
holds_live ids t =
    any (λ (f : Folder). mem f.id ids && is_untrashed f.deleted_at) t.folders
    || any (λ (f : FolderFile). mem f.folder_id ids && is_untrashed f.deleted_at) t.files

-- DELETE FROM folders, which cascades to the subtree.
unfoldable pub delete_subtree : List ℕ → Tree → Tree
delete_subtree ids t = record {
  folders = filter (λ (f : Folder). not (mem f.id ids)) t.folders;
  files = filter (λ (f : FolderFile). not (mem f.folder_id ids)) t.files;
}

-- `purgeOneFolderCascade`.
unfoldable pub purge_one : ℕ → ℕ → Tree → FolderAnswer Tree
purge_one rounds id t = of_query (subtree rounds t.folders id) >>= λ ids.
    if holds_live ids t then ok t else ok (delete_subtree ids t)

abbrev pub is_past : ℕ → ℕ → Option ℕ → Bool
is_past now older_than none = false
is_past now older_than (some d) = ltb (d + older_than) now

-- One step of the loop of `PurgeExpiredTrash`: an error ends it, and what was purged before stays.
abbrev pub carry_on : FolderAnswer Tree → Tree → (Tree → Tree) → Tree
carry_on (ok t') t next = next t'
carry_on (err _) t next = t
carry_on database_error t next = t

unfoldable pub purge_all : ℕ → List ℕ → Tree → Tree
purge_all rounds [] t = t
purge_all rounds (id ∷ ids) t = carry_on (purge_one rounds id t) t (λ t'. purge_all rounds ids t')

unfoldable pub purge_expired_trash : ℕ → ℕ → ℕ → Tree → Tree
purge_expired_trash rounds now older_than t =
    purge_all rounds
      (map (λ f. f.id) (filter (λ (f : Folder). is_past now older_than f.deleted_at) t.folders)) t
