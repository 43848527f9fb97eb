-- ===== src/System/Stable.antt =====
-- Predicates of the tables that the statements of backend/internal/upload/repository.go leave alone:
-- they move no file, no version and no counter, and take no chunk away.
use nimbus_storage_platform.Base.{ℕ, ℤ, ◌≡◌, refl, ◌∙◌, true, List, [], ◌∷◌, arith, All-map}
use nimbus_storage_platform.Database.{Db, Chunk, VersionChunk}
use nimbus_storage_platform.Upload.Repository.{touch, upsert_chunk}
use nimbus_storage_platform.Gc.Safety.{has_chunk}
use nimbus_storage_platform.File.Usage.{IsConsistent-same}
use nimbus_storage_platform.File.Sound.{IsSound, IsSoundFor}

-- Tables that agree but for the upload sessions, and have at least the chunks.
pub record Extends (db db' : Db) : Type 0 where
  pub same_files : db'.files ≡ db.files
  pub same_versions : db'.file_versions ≡ db.file_versions
  pub same_usage : db'.org_usage ≡ db.org_usage
  pub same_lists : db'.version_chunks ≡ db.version_chunks
  pub more_chunks : (hash : ℕ) → has_chunk hash db.chunks ≡ true → has_chunk hash db'.chunks ≡ true

abbrev pub IsStable : (Db → Type 0) → Type 0
IsStable P = (db db' : Db) → Extends db db' → P db → P db'

pub IsSound-IsStable : IsStable IsSound
IsSound-IsStable db db' e sound = record {
  consistent = IsConsistent-same db db' sound.consistent e.same_files e.same_versions e.same_usage;
  intact = rw e.same_lists (
      All-map _ _ db.version_chunks (λ (v : VersionChunk) h. e.more_chunks v.chunk_hash h)
        sound.intact);
}

pub IsSoundFor-IsStable : (org_id file_id : ℕ) → IsStable (IsSoundFor org_id file_id)
IsSoundFor-IsStable org_id file_id db db' e (sound, names) =
    (IsSound-IsStable db db' e sound, rw e.same_files names)

has_chunk-touch :
    (candidates : List ℕ) (now hash : ℕ) (cs : List Chunk)
    → has_chunk hash (touch candidates now cs) ≡ has_chunk hash cs
unfolding touch
has_chunk-touch candidates now hash [] = refl
has_chunk-touch candidates now hash (c ∷ cs) =
    ground (arith, has_chunk-touch candidates now hash cs)

has_chunk-upsert :
    (new : ℕ) (size : ℤ) (now hash : ℕ) (cs : List Chunk)
    → has_chunk hash cs ≡ true
    → has_chunk hash (upsert_chunk new size now cs) ≡ true
unfolding upsert_chunk
has_chunk-upsert new size now hash [] h = cc
has_chunk-upsert new size now hash (c ∷ cs) h =
    ground (arith, has_chunk-upsert new size now hash cs)

pub touch-Extends :
    (candidates : List ℕ) (now : ℕ) (db : Db)
    → Extends db (record db { chunks = touch candidates now db.chunks })
touch-Extends candidates now db = record {
  same_files = refl;
  same_versions = refl;
  same_usage = refl;
  same_lists = refl;
  more_chunks = λ hash h. has_chunk-touch candidates now hash db.chunks ∙ h;
}

pub upsert-Extends :
    (new : ℕ) (size : ℤ) (now : ℕ) (db : Db)
    → Extends db (record db { chunks = upsert_chunk new size now db.chunks })
upsert-Extends new size now db = record {
  same_files = refl;
  same_versions = refl;
  same_usage = refl;
  same_lists = refl;
  more_chunks = λ hash h. has_chunk-upsert new size now hash db.chunks h;
}
