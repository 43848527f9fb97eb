-- ===== src/Storage/Repair/Records.antt =====
-- What the table of locations says of a node, and what the nodes' clients promise
-- (backend/internal/storage/repository.go and repair.go).
use nimbus_storage_platform.Base.{
  ℕ, ◌≡◌, ◌⊎◌, Bool, true, false, ◌&&◌, List, [], ◌∷◌, map, filter, any, ◌==◌, arith,
}
use nimbus_storage_platform.Database.{Db, ChunkLocation, stored, degraded}
use nimbus_storage_platform.Storage.Ring.{NodeId}
use nimbus_storage_platform.Storage.Locations.{is_stored, at_place, set_status}
use nimbus_storage_platform.Storage.Repair.{Minio}

-- What minio-go documents: StatObject succeeds on objects that are there, PutObject creates one and
-- leaves the others.
pub record IsStore {Objects : Type 0} (minio : Minio Objects) (Present : ℕ → ℕ → Objects → Type 0)
    : Type 0 where
  pub stat_present :
      (endpoint hash : ℕ) (objects : Objects)
      → minio.stat_object endpoint hash objects ≡ true
      → Present endpoint hash objects
  pub store_present :
      (endpoint hash bytes : ℕ) (objects : Objects)
      → (minio.store_object endpoint hash bytes objects).0 ≡ true
      → Present endpoint hash (minio.store_object endpoint hash bytes objects).1
  pub store_keeps :
      (endpoint hash bytes : ℕ) (objects : Objects) (e k : ℕ)
      → Present e k objects
      → Present e k (minio.store_object endpoint hash bytes objects).1

-- The table says that the node has the chunk.
abbrev pub says : ℕ → NodeId → Db → Bool
says hash node db =
    any (λ (l : ChunkLocation). at_place hash node l && is_stored l.status) db.chunk_locations

pub says-degraded :
    (k hash : ℕ) (node : NodeId) (ls : List ChunkLocation)
    → any
        (λ (l : ChunkLocation). at_place k node l && is_stored l.status)
        (map (set_status degraded hash node) ls)
      ≡ true
    → (any (λ (l : ChunkLocation). at_place k node l && is_stored l.status) ls ≡ true)
      × ((k == hash) ≡ false)
says-degraded k hash node [] h = cc
says-degraded k hash node (l ∷ ls) h = ground (arith, says-degraded k hash node ls)

pub says-repaired :
    (k hash : ℕ) (node : NodeId) (ls : List ChunkLocation)
    → any
        (λ (l : ChunkLocation). at_place k node l && is_stored l.status)
        (map (set_status stored hash node) ls)
      ≡ true
    → (any (λ (l : ChunkLocation). at_place k node l && is_stored l.status) ls ≡ true) ⊎ (k ≡ hash)
says-repaired k hash node [] h = cc
says-repaired k hash node (l ∷ ls) h = ground (arith, says-repaired k hash node ls)

pub said-committed :
    (k : ℕ) (node : NodeId) (ls : List ChunkLocation)
    → any (λ (l : ChunkLocation). at_place k node l && is_stored l.status) ls ≡ true
    → any
        (λ h. h == k)
        (map
          (λ (l : ChunkLocation). l.chunk_hash)
          (filter (λ (l : ChunkLocation). l.node_id == node && is_stored l.status) ls))
      ≡ true
said-committed k node [] h = cc
said-committed k node (l ∷ ls) h = ground (arith, said-committed k node ls)
