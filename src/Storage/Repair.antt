-- ===== src/Storage/Repair.antt =====
-- backend/internal/storage/repair.go: the pass that re-verifies what a node is recorded to hold, with
-- GetObject and PutObject of fetch.go. A MinIO client is known by its endpoint; what clients do is the
-- parameter `minio`, on a state of objects of its own. The bytes of an object are one number.
pub mod Records
pub mod Truthful
pub mod Examples
use nimbus_storage_platform.Base.{
  ℕ, suc, Bool, true, false, not, Option, none, some, List, [], ◌∷◌, find?, ◌==◌, if◌then◌else◌,
  lookup,
}
use nimbus_storage_platform.Database.Actions.{World, Result, ok, err, database_error}
use nimbus_storage_platform.Storage.Ring.{NodeId}
use nimbus_storage_platform.Storage.Router.{Router}
use nimbus_storage_platform.Storage.Locations.{
  locations_for_chunk, mark_chunk_location_degraded, mark_chunk_location_repaired,
  committed_chunks_for_node,
}

-- The client of minio-go, by the endpoint that it talks to.
pub record Minio (Objects : Type 0) : Type 0 where
  pub stat_object : ℕ → ℕ → Objects → Bool
  pub fetch_object : ℕ → ℕ → Objects → Option ℕ
  pub store_object : ℕ → ℕ → ℕ → Objects → Bool × Objects

pub record RepairResult : Type 0 where
  pub checked : ℕ
  pub restored : ℕ
  pub unrepairable : ℕ

pub data RepairError : Type 0 where
  unknown_node : NodeId → RepairError

-- What became of one chunk.
pub data ChunkOutcome : Type 0 where
  intact repaired lost : ChunkOutcome

abbrev pub tally : ChunkOutcome → RepairResult → RepairResult
tally intact res = record res { checked = suc res.checked }
tally repaired res = record res { checked = suc res.checked; restored = suc res.restored }
tally lost res = record res { checked = suc res.checked; unrepairable = suc res.unrepairable }

module _ {Objects : Type 0} (minio : Minio Objects) (rt : Router) where
  abbrev pub Repairing : Type 0
  Repairing = World × Objects

  unfoldable pub get_object : NodeId → ℕ → Objects → Option ℕ
  get_object node key objects = elim (lookup node rt.internal_minio) [
    | none ↦ none
    | some endpoint ↦ minio.fetch_object endpoint key objects
  ]

  unfoldable pub put_object : NodeId → ℕ → ℕ → Objects → Bool × Objects
  put_object node key bytes objects = elim (lookup node rt.internal_minio) [
    | none ↦ (false, objects)
    | some endpoint ↦ minio.store_object endpoint key bytes objects
  ]

  -- An error of the database is logged and ends the restoration.
  abbrev pub unless_failed :
      {A : Type 0}
      → Result RepairError A × World
      → Objects
      → (A → World → Bool × Repairing)
      → Bool × Repairing
  unless_failed (ok a, w) objects next = next a w
  unless_failed (err e, w) objects next = (false, (w, objects))
  unless_failed (database_error, w) objects next = (false, (w, objects))

  -- The first location that is not the node itself; 0 where there is none.
  abbrev pub other_location : NodeId → List ℕ → NodeId
  other_location node locations = elim (find? (λ l. not (l == node)) locations) [
    | none ↦ 0
    | some l ↦ l
  ]

  abbrev pub record_stored : ℕ → NodeId → Bool × Objects → World → Bool × Repairing
  record_stored hash node (true, objects) w =
      unless_failed (mark_chunk_location_repaired hash node w) objects (λ _ v. (true, (v, objects)))
  record_stored hash node (false, objects) w = (false, (w, objects))

  abbrev pub store_copy : ℕ → NodeId → Objects → Option ℕ → World → Bool × Repairing
  store_copy hash node objects none w = (false, (w, objects))
  store_copy hash node objects (some bytes) w =
      record_stored hash node (put_object node hash bytes objects) w

  abbrev pub copy_from : ℕ → NodeId → NodeId → Objects → World → Bool × Repairing
  copy_from hash node source objects w =
      if source == 0
      then (false, (w, objects))
      else store_copy hash node objects (get_object source hash objects) w

  unfoldable pub restore_chunk : ℕ → NodeId → Repairing → Bool × Repairing
  restore_chunk hash node (w, objects) =
      unless_failed (mark_chunk_location_degraded hash node w) objects λ _ u.
        unless_failed (locations_for_chunk hash u) objects
          λ locations v. copy_from hash node (other_location node locations) objects v

  abbrev pub outcome_of : Bool × Repairing → ChunkOutcome × Repairing
  outcome_of (true, s) = (repaired, s)
  outcome_of (false, s) = (lost, s)

  -- One turn of the loop of `RepairNode`.
  unfoldable pub repair_chunk : ℕ → NodeId → ℕ → Repairing → ChunkOutcome × Repairing
  repair_chunk endpoint node hash (w, objects) =
      if minio.stat_object endpoint hash objects
      then (intact, (w, objects))
      else outcome_of (restore_chunk hash node (w, objects))

  unfoldable pub repair_chunks :
      ℕ → NodeId → List ℕ → RepairResult → Repairing → RepairResult × Repairing
  repair_chunks endpoint node [] res s = (res, s)
  repair_chunks endpoint node (hash ∷ hashes) res s =
      let turn = repair_chunk endpoint node hash s in
      repair_chunks endpoint node hashes (tally turn.0 res) turn.1

  abbrev pub finished : RepairResult × Repairing → Result RepairError RepairResult × Repairing
  finished (res, s) = (ok res, s)

  abbrev pub repair_listed :
      ℕ
      → NodeId
      → Result RepairError (List ℕ) × World
      → Objects
      → Result RepairError RepairResult × Repairing
  repair_listed endpoint node (ok hashes, w) objects = finished (
      repair_chunks endpoint node hashes (record { checked = 0; restored = 0; unrepairable = 0 })
        (w, objects))
  repair_listed endpoint node (err e, w) objects = (err e, (w, objects))
  repair_listed endpoint node (database_error, w) objects = (database_error, (w, objects))

  unfoldable pub repair_node : NodeId → Repairing → Result RepairError RepairResult × Repairing
  repair_node node (w, objects) = elim (lookup node rt.internal_minio) [
    | none ↦ (err (unknown_node node), (w, objects))
    | some endpoint ↦ repair_listed endpoint node (committed_chunks_for_node node w) objects
  ]
