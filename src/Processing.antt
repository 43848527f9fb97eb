-- ===== src/Processing.antt =====
-- backend/internal/processing/processor.go: the worker that makes thumbnails of uploaded files. Reading
-- and writing objects (fetch.go), SHA-256 and the renderers of images and PDFs are parameters; the bytes
-- of an object are a list of numbers, a media type and an object key a number.
pub mod Reassembly
pub mod Examples
use nimbus_storage_platform.Base.{
  ℕ, Bool, true, false, Option, none, some, List, [], ◌∷◌, ◌++◌, map, ◌==◌, not, if◌then◌else◌,
}
use nimbus_storage_platform.Database.{FileVersion, VersionChunk}
use nimbus_storage_platform.Database.Actions.{
  M, Result, ok, err, database_error, ◌>>=◌, ◌>>◌, return, throw, reject_if, or_throw, best_effort,
}
use nimbus_storage_platform.Storage.Ring.{Key, NodeId, Placement}
use nimbus_storage_platform.Storage.Router.{Router, resolve}
use nimbus_storage_platform.Storage.Locations.{locations_for_chunk}
use nimbus_storage_platform.File.{FileError, FileAction}
use nimbus_storage_platform.File.Repository.{get_version, get_version_chunks, set_thumbnail_key}

pub data ProcessError : Type 0 where
  file_error : FileError → ProcessError
  no_locations no_replica : ℕ → ProcessError
  unresolved not_stored no_placeholder : ProcessError

abbrev pub ProcessAction : Type 0 → Type 0
ProcessAction A = M ProcessError A

abbrev pub lifted : {A : Type 0} → Result FileError A → Result ProcessError A
lifted (ok a) = ok a
lifted (err e) = err (file_error e)
lifted database_error = database_error

abbrev pub from_files : {A : Type 0} → FileAction A → ProcessAction A
from_files m w = (lifted (m w).0, (m w).1)

-- What the worker calls.
pub record Tools : Type 0 where
  pub read_object : NodeId → ℕ → Option (List ℕ)
  pub store_object : NodeId → ℕ → List ℕ → Bool
  pub sha256 : List ℕ → ℕ
  pub is_image : ℕ → Bool
  pub is_pdf : ℕ → Bool
  pub image_thumbnail : List ℕ → Option (List ℕ)
  pub pdf_thumbnail : List ℕ → Option (List ℕ)
  pub pdf_placeholder : Option (List ℕ)
  pub thumbnail_object_key : ℕ → ℕ
  pub record_thumbnail : ProcessAction (Unit {0})

abbrev pub is_empty : {A : Type 0} → List A → Bool
is_empty [] = true
is_empty (_ ∷ _) = false

module _ (tools : Tools) where
  -- The bytes that were read, if they are what the chunk is addressed by.
  abbrev pub verified : ℕ → Option (List ℕ) → Option (List ℕ)
  verified hash none = none
  verified hash (some bytes) = if tools.sha256 bytes == hash then some bytes else none

  unfoldable pub fetch_verified_chunk : ℕ → List NodeId → Option (List ℕ)
  fetch_verified_chunk hash [] = none
  fetch_verified_chunk hash (id ∷ ids) = elim (verified hash (tools.read_object id hash)) [
    | none ↦ fetch_verified_chunk hash ids
    | some bytes ↦ some bytes
  ]

  -- The loop of `reassemble`.
  unfoldable pub reassemble_chunks : List VersionChunk → ProcessAction (List ℕ)
  reassemble_chunks [] = return []
  reassemble_chunks (c ∷ cs) = do
    node_ids ← locations_for_chunk c.chunk_hash
    reject_if (is_empty node_ids) (no_locations c.chunk_hash)
    bytes ← or_throw (fetch_verified_chunk c.chunk_hash node_ids) (no_replica c.chunk_hash)
    rest ← reassemble_chunks cs
    return (bytes ++ rest)

  unfoldable pub reassemble : ℕ → ProcessAction (List ℕ)
  reassemble version_id = from_files (get_version_chunks version_id) >>= reassemble_chunks

  abbrev pub or_placeholder : Option (List ℕ) → ProcessAction (Option (List ℕ))
  or_placeholder (some bytes) = return (some bytes)
  or_placeholder none =
      or_throw tools.pdf_placeholder no_placeholder >>= λ bytes. return (some bytes)

  -- By the media type; nothing where it has no thumbnail or an image cannot be read.
  unfoldable pub make_thumbnail : FileVersion → ProcessAction (Option (List ℕ))
  make_thumbnail version =
      if tools.is_image version.mime_type
      then (reassemble version.id >>= λ bytes. return (tools.image_thumbnail bytes))
      else if tools.is_pdf version.mime_type
      then (reassemble version.id >>= λ bytes. or_placeholder (tools.pdf_thumbnail bytes))
      else return none

  abbrev pub first_node : List NodeId → Option NodeId
  first_node [] = none
  first_node (id ∷ _) = some id

  abbrev pub resolved : Placement → Option NodeId
  resolved placement = elim placement.error [ none ↦ first_node placement.nodes | some _ ↦ none ]

  module _ (hash_key : Key → ℕ) (rt : Router) where
    unfoldable pub store_thumbnail : ℕ → Option (List ℕ) → ProcessAction (Unit {0})
    store_thumbnail version_id none = return tt
    store_thumbnail version_id (some thumb) = do
      let key = tools.thumbnail_object_key version_id
      node ← or_throw (resolved (resolve hash_key rt key 1)) unresolved
      reject_if (not (tools.store_object node key thumb)) not_stored
      from_files (set_thumbnail_key version_id key)
      best_effort tools.record_thumbnail

    -- `Process`, for a file and a version of it.
    unfoldable pub process : ℕ → ℕ → ProcessAction (Unit {0})
    process file_id version_id = do
      version ← from_files (get_version file_id version_id)
      thumb ← make_thumbnail version
      store_thumbnail version_id thumb
