-- ===== src/Folder/Examples.antt =====
-- Concrete runs of backend/internal/folder: a root with a child and a grandchild, and another root.
use nimbus_storage_platform.Base.{ℕ, ◌≡◌, refl, Option, none, some, List, [], ◌∷◌, arith}
use nimbus_storage_platform.Database.Actions.{ok, err}
use nimbus_storage_platform.Folder.{
  Folder, FolderFile, Tree, subtree, move_folder, update_folder, update_row, get_folder, checked,
  check_move, check_parent, is_self_or_descendant, cyclic_move,
}
use nimbus_storage_platform.Folder.Cascade.{
  soft_delete_cascade, trash, purge_expired_trash, purge_all, purge_one, delete_subtree,
}
use nimbus_storage_platform.Folder.Subtree.{IsAcyclic, IsClosed, subtree-ends}
use nimbus_storage_platform.Folder.Moves.{move_folder-IsAcyclic}
use nimbus_storage_platform.Folder.Trash.{SameLive, purge_expired_trash-SameLive}

abbrev folder : ℕ → Option ℕ → Folder
folder id parent = record {
  id = id;
  org_id = 7;
  parent_id = parent;
  name = id;
  updated_at = 0;
  deleted_at = none;
}

abbrev file : ℕ → ℕ → FolderFile
file id folder_id = record { id = id; folder_id = folder_id; updated_at = 0; deleted_at = none }

abbrev tree : Tree
tree = record {
  folders = folder 1 none ∷ folder 2 (some 1) ∷ folder 3 (some 2) ∷ folder 4 none ∷ [];
  files = file 10 3 ∷ file 11 4 ∷ [];
}

abbrev rank : ℕ → ℕ
rank id = id

tree-IsAcyclic : IsAcyclic tree.folders
tree-IsAcyclic = (rank, (tt, (omega arith, (omega arith, (tt, tt)))))

subtree-ends_example :
    (rounds : ℕ) × (ids : List ℕ) × (subtree rounds tree.folders 1 ≡ some ids)
    × IsClosed ids tree.folders
subtree-ends_example = subtree-ends tree.folders 1 tree-IsAcyclic

subtree_of_1 : subtree 4 tree.folders 1 ≡ some (1 ∷ 2 ∷ 3 ∷ [])
unfolding subtree
subtree_of_1 = refl

-- Folder 2 moves under folder 4; it cannot move under folder 3.
abbrev moved : Tree
moved = record tree {
  folders =
      folder 1 none
      ∷ record (folder 2 (some 4)) { updated_at = 50 }
      ∷ folder 3 (some 2)
      ∷ folder 4 none
      ∷ [];
}

abbrev same : ℕ → ℕ
same name = name

move_2_4 : move_folder 4 same 50 (folder 2 (some 1)) none (some (some 4)) tree ≡ ok moved
unfolding move_folder update_folder update_row get_folder checked check_move check_parent
    is_self_or_descendant subtree
move_2_4 = refl

move_2_3 : move_folder 4 same 50 (folder 2 (some 1)) none (some (some 3)) tree ≡ err cyclic_move
unfolding move_folder check_move check_parent get_folder is_self_or_descendant subtree
move_2_3 = refl

move_folder-IsAcyclic_example : IsAcyclic moved.folders
move_folder-IsAcyclic_example =
    move_folder-IsAcyclic 4 same 50 (folder 2 (some 1)) none (some (some 4)) tree moved move_2_4
      tree-IsAcyclic

-- Folder 1 expired in the trash with its subtree, in which file 10 was restored.
abbrev expired : Tree
expired = record {
  folders =
      record (folder 1 none) { deleted_at = some 5 }
      ∷ record (folder 2 (some 1)) { deleted_at = some 5 }
      ∷ record (folder 4 none) { deleted_at = some 6 }
      ∷ [];
  files = file 10 2 ∷ record (file 11 4) { deleted_at = some 6 } ∷ [];
}

purge_expired_trash-SameLive_example : SameLive (purge_expired_trash 4 100 30 expired) expired
purge_expired_trash-SameLive_example = purge_expired_trash-SameLive 4 100 30 expired

purged_4 : purge_expired_trash 4 100 30 expired ≡ record {
  folders =
      record (folder 1 none) { deleted_at = some 5 }
      ∷ record (folder 2 (some 1)) { deleted_at = some 5 }
      ∷ [];
  files = file 10 2 ∷ [];
}
unfolding purge_expired_trash purge_all purge_one delete_subtree subtree
purged_4 = refl

abbrev deleted : Tree
deleted = record {
  folders =
      folder 1 none
      ∷ record (folder 2 (some 1)) { deleted_at = some 60; updated_at = 60 }
      ∷ record (folder 3 (some 2)) { deleted_at = some 60; updated_at = 60 }
      ∷ folder 4 none
      ∷ [];
  files = record (file 10 3) { deleted_at = some 60; updated_at = 60 } ∷ file 11 4 ∷ [];
}

deleted_2 : soft_delete_cascade 4 60 2 tree ≡ ok deleted
unfolding soft_delete_cascade trash subtree
deleted_2 = refl
