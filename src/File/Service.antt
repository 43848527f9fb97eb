-- ===== src/File/Service.antt =====
-- backend/internal/file/service.go: the guards in front of the repository, and the plans that tell a
-- client where to read. `is_healthy` is the router's health view, `presign` its PresignGet, which
-- reads nothing from the database and fails as `none`; `candidates` is the router's placement of a
-- thumbnail's key.
use nimbus_storage_platform.Base.{
  ℕ, zero, suc, Bool, true, false, not, Option, none, some, List, [], ◌∷◌, ◌==◌, get_elem?, length,
}
use nimbus_storage_platform.Database.{Db, File, VersionChunk}
use nimbus_storage_platform.Database.Actions.{
  ok, err, database_error, ◌>>=◌, ◌>>◌, return, throw, reject_if,
}
use nimbus_storage_platform.Storage.Locations.{locations_for_chunk}
use nimbus_storage_platform.File.{FileAction, invalid_folder, not_trashed, no_thumbnail, is_kept}
use nimbus_storage_platform.File.Repository.{
  get_version, get_version_chunks, restore_version, purge, update,
}

abbrev pub put : ℕ → ℕ → List ℕ → List ℕ
put i a [] = []
put zero a (x ∷ xs) = a ∷ xs
put (suc i) a (x ∷ xs) = x ∷ put i a xs

-- `xs[i], xs[j] = xs[j], xs[i]`.
abbrev pub swap_found : ℕ → ℕ → Option ℕ → Option ℕ → List ℕ → List ℕ
swap_found i j (some a) (some b) xs = put j a (put i b xs)
swap_found i j (some a) none xs = xs
swap_found i j none b xs = xs

unfoldable pub swap : ℕ → ℕ → List ℕ → List ℕ
swap i j xs = swap_found i j (get_elem? xs i) (get_elem? xs j) xs

abbrev pub reads_healthy : (ℕ → Bool) → Option ℕ → Bool
reads_healthy is_healthy none = false
reads_healthy is_healthy (some id) = is_healthy id

-- The loop of `orderHealthyFirst`, with `left` turns to go: `i` is its index, `healthy_count` the end
-- of the healthy nodes moved so far.
unfoldable pub order_from : (ℕ → Bool) → ℕ → ℕ → ℕ → List ℕ → List ℕ
order_from is_healthy zero i healthy_count node_ids = node_ids
order_from is_healthy (suc left) i healthy_count node_ids =
    elim (reads_healthy is_healthy (get_elem? node_ids i)) [
      | true ↦
          order_from is_healthy left (suc i) (suc healthy_count) (swap healthy_count i node_ids)
      | false ↦ order_from is_healthy left (suc i) healthy_count node_ids
    ]

unfoldable pub order_healthy_first : (ℕ → Bool) → List ℕ → List ℕ
order_healthy_first is_healthy node_ids = order_from is_healthy (length node_ids) 0 0 node_ids

-- The loop over the nodes: one that cannot be presigned is passed over.
abbrev pub keep_some : Option ℕ → List ℕ → List ℕ
keep_some none urls = urls
keep_some (some url) urls = url ∷ urls

unfoldable pub presign_targets : (ℕ → ℕ → Option ℕ) → ℕ → List ℕ → List ℕ
presign_targets presign key [] = []
presign_targets presign key (node_id ∷ node_ids) =
    keep_some (presign node_id key) (presign_targets presign key node_ids)

pub record DownloadPlanChunk : Type 0 where
  pub sequence : ℕ
  pub hash : ℕ
  pub targets : List ℕ

module _ (is_healthy : ℕ → Bool) (presign : ℕ → ℕ → Option ℕ) where
  unfoldable pub plan_targets : ℕ → List ℕ → List ℕ
  plan_targets key node_ids = presign_targets presign key (order_healthy_first is_healthy node_ids)

  unfoldable pub plan_chunks : List VersionChunk → FileAction (List DownloadPlanChunk)
  plan_chunks [] = return []
  plan_chunks (c ∷ cs) = do
    node_ids ← locations_for_chunk c.chunk_hash
    rest ← plan_chunks cs
    return (
        record {
          sequence = c.sequence;
          hash = c.chunk_hash;
          targets = plan_targets c.chunk_hash node_ids;
        }
        ∷ rest)

  unfoldable pub download_plan : ℕ → ℕ → FileAction (List DownloadPlanChunk)
  download_plan file_id version_id = do
    _ ← get_version file_id version_id
    chunks ← get_version_chunks version_id
    plan_chunks chunks

  unfoldable pub thumbnail_targets : (ℕ → Option (List ℕ)) → File → FileAction (List ℕ)
  thumbnail_targets candidates f = elim f.latest_version_id [
    | none ↦ throw no_thumbnail
    | some version_id ↦ get_version f.id version_id >>= λ v. elim v.thumbnail_key [
      | none ↦ throw no_thumbnail
      | some key ↦ elim (candidates key) [
        | none ↦ λ w. (database_error, w)
        | some node_ids ↦ return (plan_targets key node_ids)
      ]
    ]
  ]

-- `OrgIDOf` of the port, with any of its errors read as `ErrInvalidFolder`.
abbrev pub owned_folder : FileAction ℕ → ℕ → FileAction (Unit {0})
owned_folder org_id_of org_id w = elim (org_id_of w).0 [
  | ok found ↦ reject_if (not (found == org_id)) invalid_folder (org_id_of w).1
  | err _ ↦ (err invalid_folder, (org_id_of w).1)
  | database_error ↦ (err invalid_folder, (org_id_of w).1)
]

-- `Service.Update`.
unfoldable pub update_file : (ℕ → FileAction ℕ) → File → Option ℕ → Option ℕ → FileAction File
update_file org_id_of current name none = update current.id name none
update_file org_id_of current name (some folder_id) =
    owned_folder (org_id_of folder_id) current.org_id >> update current.id name (some folder_id)

-- `Service.Purge`.
unfoldable pub purge_file : (Db → Db) → File → FileAction (Unit {0})
purge_file between current = do reject_if (is_kept current) not_trashed; purge between current.id

-- `Service.RestoreVersion`.
unfoldable pub restore_file_version : File → ℕ → FileAction File
restore_file_version current version_id = do
  _ ← get_version current.id version_id
  restore_version current.id version_id
