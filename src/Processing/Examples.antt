-- ===== src/Processing/Examples.antt =====
-- Runs of backend/internal/processing/processor.go on a version of two chunks, whose rows stand in any order; node 1 has a corrupt
-- copy of the first.
use nimbus_storage_platform.Base.{
  ℕ, ◌+◌, ◌≡◌, refl, true, ◌&&◌, Option, none, some, List, [], ◌∷◌, ◌==◌, if◌then◌else◌,
}
use nimbus_storage_platform.Database.{stored}
use nimbus_storage_platform.Database.Actions.{World, ok, query, call, return}
use nimbus_storage_platform.Storage.Locations.{locations_for_chunk}
use nimbus_storage_platform.File.Repository.{get_version_chunks}
use nimbus_storage_platform.File.Chunks.{order_by_sequence, insert_in_sequence}
use nimbus_storage_platform.Processing.{Tools, fetch_verified_chunk, reassemble_chunks, reassemble}
use nimbus_storage_platform.Processing.Reassembly.{
  IsContent, reassemble-verified, reassemble_succeeds,
}

abbrev sum : List ℕ → ℕ
sum [] = 0
sum (n ∷ ns) = n + sum ns

abbrev read : ℕ → ℕ → Option (List ℕ)
read id hash =
    if id == 1 && hash == 6
    then some (9 ∷ [])
    else if hash == 6
    then some (2 ∷ 4 ∷ [])
    else if hash == 7
    then some (7 ∷ [])
    else none

-- Bytes that hash to their sum.
abbrev tools : Tools
tools = record {
  read_object = read;
  store_object = λ id key bytes. true;
  sha256 = sum;
  is_image = λ mime_type. mime_type == 1;
  is_pdf = λ mime_type. mime_type == 2;
  image_thumbnail = λ bytes. some bytes;
  pdf_thumbnail = λ bytes. none;
  pdf_placeholder = some [];
  thumbnail_object_key = λ version_id. 1000 + version_id;
  record_thumbnail = return tt;
}

abbrev world : World
world = record {
  db = record {
    uploads = [];
    upload_chunks = [];
    chunks = [];
    chunk_locations =
        record { chunk_hash = 6; node_id = 1; status = stored }
        ∷ record { chunk_hash = 6; node_id = 2; status = stored }
        ∷ record { chunk_hash = 7; node_id = 1; status = stored }
        ∷ [];
    org_chunk_proofs = [];
    version_chunks =
        record { version_id = 30; sequence = 1; chunk_hash = 7 }
        ∷ record { version_id = 30; sequence = 0; chunk_hash = 6 }
        ∷ [];
    storage_nodes = 1 ∷ 2 ∷ [];
    files = [];
    file_versions = [];
    org_usage = [];
    folder_ids = [];
  };
  now = 0;
  faults = [];
  next_id = 1;
}

reads : reassemble tools 30 world ≡ (ok (2 ∷ 4 ∷ 7 ∷ []), world)
unfolding reassemble order_by_sequence insert_in_sequence reassemble_chunks fetch_verified_chunk
    get_version_chunks locations_for_chunk query call
reads = refl

reassemble-verified_example : IsContent tools 30 world.db (2 ∷ 4 ∷ 7 ∷ [])
reassemble-verified_example = reassemble-verified tools 30 world reads

reassemble_succeeds_example :
    (bytes : List ℕ) × (reassemble tools 30 world ≡ (ok bytes, world))
    × IsContent tools 30 world.db bytes
reassemble_succeeds_example = reassemble_succeeds tools 30 world refl refl
