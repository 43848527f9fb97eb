-- ===== src/Folder.antt =====
-- backend/internal/folder: the tree of folders (types.go, repository.go, service.go). Each SQL
-- statement is a function of the rows and the server's time. The recursive query of the subtree is
-- run for a number of rounds: on a cycle it would not end, which is `none` here and an error of the
-- operation. `lower` is the case folding of the unique index on sibling names. The usage counter of
-- the purge, and the rows of a folder that reads return, are left out; a failing database, which
-- rolls the transaction back, is not a case of its own.
pub mod Subtree
pub mod Moves
pub mod Cascade
pub mod Trash
pub mod Examples
use nimbus_storage_platform.Base.{
  ℕ, zero, suc, ◌+◌, ◌≡◌, Bool, true, false, not, ◌&&◌, ◌||◌, Option, none, some, List, [], ◌∷◌,
  ◌++◌, map, if◌then◌else◌, ltb, ◌==◌, filter, any, find?, mem,
}
use nimbus_storage_platform.Database.Actions.{Result, ok, err, database_error}
use nimbus_storage_platform.Database.Results.{◌>>=◌, ◌>>◌, reject_if, or_else}

pub record Folder : Type 0 where
  pub id : ℕ
  pub org_id : ℕ
  pub parent_id : Option ℕ
  pub name : ℕ
  pub updated_at : ℕ
  pub deleted_at : Option ℕ

-- What the folder package touches of a row of files.
pub record FolderFile : Type 0 where
  pub id : ℕ
  pub folder_id : ℕ
  pub updated_at : ℕ
  pub deleted_at : Option ℕ

pub record Tree : Type 0 where
  pub folders : List Folder
  pub files : List FolderFile

pub data FolderError : Type 0 where
  folder_not_found name_conflict invalid_parent cyclic_move : FolderError

abbrev pub FolderAnswer : Type 0 → Type 0
FolderAnswer A = Result FolderError A

abbrev pub is_untrashed : Option ℕ → Bool
is_untrashed none = true
is_untrashed (some _) = false

abbrev pub is_live_folder : ℕ → Folder → Bool
is_live_folder id f = f.id == id && is_untrashed f.deleted_at

abbrev pub same_parent : Option ℕ → Option ℕ → Bool
same_parent none none = true
same_parent none (some _) = false
same_parent (some _) none = false
same_parent (some p) (some q) = p == q

-- Two live siblings whose names fold to one.
abbrev pub clashes : (ℕ → ℕ) → Folder → Folder → Bool
clashes lower f g =
    is_untrashed f.deleted_at
    && is_untrashed g.deleted_at
    && not (f.id == g.id)
    && f.org_id == g.org_id
    && same_parent f.parent_id g.parent_id
    && lower f.name == lower g.name

-- uq_folders_sibling_name is violated.
abbrev pub has_clash : (ℕ → ℕ) → List Folder → Bool
has_clash lower fs = any (λ f. any (clashes lower f) fs) fs

-- The foreign key on parent_id.
abbrev pub is_known_parent : Option ℕ → List Folder → Bool
is_known_parent none fs = true
is_known_parent (some p) fs = any (λ (f : Folder). f.id == p) fs

abbrev pub of_row : Option Folder → FolderAnswer Folder
of_row none = err folder_not_found
of_row (some f) = ok f

-- `Get`.
unfoldable pub get_folder : ℕ → Tree → FolderAnswer Folder
get_folder id t = of_row (find? (is_live_folder id) t.folders)

-- A write that keeps the foreign key and the unique index.
unfoldable pub checked : (ℕ → ℕ) → Option ℕ → List Folder → Tree → FolderAnswer Tree
checked lower parent rows t = do
  reject_if (not (is_known_parent parent t.folders)) invalid_parent
  reject_if (has_clash lower rows) name_conflict
  ok (record t { folders = rows })

-- `Create` of the repository, under a new identifier.
unfoldable pub insert_folder : (ℕ → ℕ) → ℕ → ℕ → ℕ → Option ℕ → ℕ → Tree → FolderAnswer Tree
insert_folder lower id now org_id parent_id name t =
    checked lower parent_id
      (record {
        id = id;
        org_id = org_id;
        parent_id = parent_id;
        name = name;
        updated_at = now;
        deleted_at = none;
      }
        ∷ t.folders)
      t

-- The parent of a new or moved folder is live and of the same organisation.
unfoldable pub check_parent : ℕ → ℕ → Tree → FolderAnswer (Unit {0})
check_parent org_id parent_id t = do
  parent ← or_else (get_folder parent_id t) invalid_parent
  reject_if (not (parent.org_id == org_id)) invalid_parent

-- `Create` of the service.
unfoldable pub create_folder : (ℕ → ℕ) → ℕ → ℕ → ℕ → Option ℕ → ℕ → Tree → FolderAnswer Tree
create_folder lower id now org_id parent_id name t = elim parent_id [
  | none ↦ insert_folder lower id now org_id none name t
  | some p ↦ check_parent org_id p t >> insert_folder lower id now org_id (some p) name t
]

abbrev pub has_parent_in : List ℕ → Folder → Bool
has_parent_in ids f = elim f.parent_id [ none ↦ false | some p ↦ mem p ids ]

abbrev pub children_of : List Folder → List ℕ → List ℕ
children_of fs level = map (λ f. f.id) (filter (has_parent_in level) fs)

abbrev pub prepend : List ℕ → Option (List ℕ) → Option (List ℕ)
prepend level none = none
prepend level (some ids) = some (level ++ ids)

-- The recursive query from a level on: the rows of each round are the children of the last one's.
unfoldable pub subtree_from : ℕ → List Folder → List ℕ → Option (List ℕ)
subtree_from rounds fs [] = some []
subtree_from zero fs (x ∷ level) = none
subtree_from (suc rounds) fs (x ∷ level) =
    prepend (x ∷ level) (subtree_from rounds fs (children_of fs (x ∷ level)))

-- `subtreeCTE`.
unfoldable pub subtree : ℕ → List Folder → ℕ → Option (List ℕ)
unfolding subtree_from
subtree rounds fs id =
    subtree_from rounds fs (map (λ f. f.id) (filter (λ (f : Folder). f.id == id) fs))

abbrev pub of_query : {A : Type 0} → Option A → FolderAnswer A
of_query none = database_error
of_query (some a) = ok a

unfoldable pub is_self_or_descendant : ℕ → ℕ → ℕ → Tree → FolderAnswer Bool
is_self_or_descendant rounds id candidate t =
    of_query (subtree rounds t.folders id) >>= λ ids. ok (mem candidate ids)

abbrev pub or_keep : {A : Type 0} → Option A → A → A
or_keep none a = a
or_keep (some b) a = b

-- The UPDATE of one row: an absent name or parent is kept.
unfoldable pub update_row : ℕ → ℕ → Option ℕ → Option (Option ℕ) → Folder → Folder
update_row id now name parent f =
    if is_live_folder id f
    then record f {
      name = or_keep name f.name;
      parent_id = or_keep parent f.parent_id;
      updated_at = now;
    }
    else f

abbrev pub is_absent : {A : Type 0} → Option A → Bool
is_absent none = true
is_absent (some _) = false

-- `Update` of the repository.
unfoldable pub update_folder :
    (ℕ → ℕ) → ℕ → ℕ → Option ℕ → Option (Option ℕ) → Tree → FolderAnswer Tree
update_folder lower now id name parent t = do
  _ ← get_folder id t
  (if is_absent name && is_absent parent
      then ok t
      else checked lower (or_keep parent none) (map (update_row id now name parent) t.folders) t)

-- The checks of a move under another folder.
unfoldable pub check_move : ℕ → Folder → ℕ → Tree → FolderAnswer (Unit {0})
check_move rounds current target t = do
  reject_if (target == current.id) cyclic_move
  check_parent current.org_id target t
  inside ← is_self_or_descendant rounds current.id target t
  reject_if inside cyclic_move

abbrev pub check_target : ℕ → Folder → Option (Option ℕ) → Tree → FolderAnswer (Unit {0})
check_target rounds current none t = ok tt
check_target rounds current (some none) t = ok tt
check_target rounds current (some (some target)) t = check_move rounds current target t

-- `Update` of the service.
unfoldable pub move_folder :
    ℕ → (ℕ → ℕ) → ℕ → Folder → Option ℕ → Option (Option ℕ) → Tree → FolderAnswer Tree
move_folder rounds lower now current name parent t =
    check_target rounds current parent t >> update_folder lower now current.id name parent t
