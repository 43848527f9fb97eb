-- ===== src/Storage/Locations.antt =====
-- backend/internal/storage/repository.go: the statements on chunk_locations.
use nimbus_storage_platform.Base.{
  ℕ, Bool, true, false, ◌&&◌, List, map, if◌then◌else◌, ◌==◌, filter,
}
use nimbus_storage_platform.Database.{Db, ChunkLocation, LocationStatus, stored, degraded}
use nimbus_storage_platform.Database.Actions.{M, query, exec}

abbrev pub is_stored : LocationStatus → Bool
is_stored stored = true
is_stored degraded = false

abbrev pub locations_of : ℕ → Db → List ℕ
locations_of hash db =
    map (λ (l : ChunkLocation). l.node_id)
      (filter (λ (l : ChunkLocation). l.chunk_hash == hash && is_stored l.status)
        db.chunk_locations)

-- `LocationsForChunk` of backend/internal/storage/repository.go.
unfoldable pub locations_for_chunk : {E : Type 0} → ℕ → M E (List ℕ)
locations_for_chunk hash = query (locations_of hash)

abbrev pub at_place : ℕ → ℕ → ChunkLocation → Bool
at_place hash node_id l = l.chunk_hash == hash && l.node_id == node_id

abbrev pub set_status : LocationStatus → ℕ → ℕ → ChunkLocation → ChunkLocation
set_status status hash node_id l =
    if at_place hash node_id l then record l { status = status } else l

abbrev pub update_status : LocationStatus → ℕ → ℕ → Db → Db
update_status status hash node_id db = record db {
  chunk_locations = map (set_status status hash node_id) db.chunk_locations;
}

unfoldable pub mark_chunk_location_degraded : {E : Type 0} → ℕ → ℕ → M E (Unit {0})
mark_chunk_location_degraded hash node_id = exec (λ now. update_status degraded hash node_id)

unfoldable pub mark_chunk_location_repaired : {E : Type 0} → ℕ → ℕ → M E (Unit {0})
mark_chunk_location_repaired hash node_id = exec (λ now. update_status stored hash node_id)

abbrev pub committed_on : ℕ → Db → List ℕ
committed_on node_id db =
    map (λ (l : ChunkLocation). l.chunk_hash)
      (filter (λ (l : ChunkLocation). l.node_id == node_id && is_stored l.status)
        db.chunk_locations)

unfoldable pub committed_chunks_for_node : {E : Type 0} → ℕ → M E (List ℕ)
committed_chunks_for_node node_id = query (committed_on node_id)
