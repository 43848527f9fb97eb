-- ===== src/Storage/Repair/Examples.antt =====
-- A pass of backend/internal/storage/repair.go over node 1, which has lost chunks 4 and 5; node 2 still
-- holds chunk 4.
use nimbus_storage_platform.Base.{
  ℕ, ◌≡◌, refl, Bool, true, ◌&&◌, none, some, List, [], ◌∷◌, any, ◌==◌, if◌then◌else◌, arith,
}
use nimbus_storage_platform.Database.{ChunkLocation, stored}
use nimbus_storage_platform.Database.Actions.{World, ok, call, exec, query}
use nimbus_storage_platform.Storage.Router.{Router}
use nimbus_storage_platform.Storage.Locations.{
  locations_for_chunk, mark_chunk_location_degraded, mark_chunk_location_repaired,
  committed_chunks_for_node,
}
use nimbus_storage_platform.Storage.Repair.{
  Minio, RepairResult, get_object, put_object, restore_chunk, repair_chunk, repair_chunks,
  repair_node,
}
use nimbus_storage_platform.Storage.Repair.Records.{IsStore, says}
use nimbus_storage_platform.Storage.Repair.Truthful.{repair_node-truthful}

abbrev holds : ℕ → ℕ → List (ℕ × ℕ) → Bool
holds endpoint hash objects = any (λ o. o.0 == endpoint && o.1 == hash) objects

abbrev Present : ℕ → ℕ → List (ℕ × ℕ) → Type 0
Present endpoint hash objects = holds endpoint hash objects ≡ true

abbrev minio : Minio (List (ℕ × ℕ))
minio = record {
  stat_object = holds;
  fetch_object = λ endpoint hash objects. if holds endpoint hash objects then some hash else none;
  store_object = λ endpoint hash bytes objects. (true, (endpoint, hash) ∷ objects);
}

minio-IsStore : IsStore minio Present
minio-IsStore = record {
  stat_present = λ endpoint hash objects h. h;
  store_present = λ endpoint hash bytes objects h. ground arith;
  store_keeps = λ endpoint hash bytes objects e k h. ground arith;
}

abbrev router : Router
router = record {
  ring = record { vnodes = [] };
  nodes = [];
  breakers = [];
  health = [];
  latency_ewma = [];
  slow_threshold = 0;
  internal_minio = (1, 91) ∷ (2, 92) ∷ [];
  public_minio = [];
}

abbrev locations : List ChunkLocation
locations =
    record { chunk_hash = 4; node_id = 1; status = stored }
    ∷ record { chunk_hash = 5; node_id = 1; status = stored }
    ∷ record { chunk_hash = 4; node_id = 2; status = stored }
    ∷ []

abbrev world : World
world = record {
  db = record {
    uploads = [];
    upload_chunks = [];
    chunks = [];
    chunk_locations = locations;
    org_chunk_proofs = [];
    version_chunks = [];
    storage_nodes = 1 ∷ 2 ∷ [];
    files = [];
    file_versions = [];
    org_usage = [];
    folder_ids = [];
  };
  now = 0;
  faults = [];
  next_id = 1;
}

restores_one :
    (repair_node minio router 1 (world, (92, 4) ∷ [])).0
    ≡ ok (record { checked = 2; restored = 1; unrepairable = 1 })
unfolding repair_node repair_chunks repair_chunk restore_chunk committed_chunks_for_node
    mark_chunk_location_degraded mark_chunk_location_repaired locations_for_chunk get_object
    put_object exec query call
restores_one = refl

repair_node-truthful_example :
    let (result, (v, after)) = repair_node minio router 1 (world, (92, 4) ∷ []) in
    ((res : RepairResult) × (result ≡ ok res))
    × ((k : ℕ) → says k 1 v.db ≡ true → Present 91 k after)
repair_node-truthful_example =
    repair_node-truthful minio Present minio-IsStore router 1 91 refl world ((92, 4) ∷ []) refl
