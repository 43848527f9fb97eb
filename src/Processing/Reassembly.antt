-- ===== src/Processing/Reassembly.antt =====
-- The content that the worker of backend/internal/processing/processor.go works on.
use mathlib.Core.List.{Perm}
use nimbus_storage_platform.Base.{
  ℕ, ◌≡◌, refl, sym, ap, ap₂, ◌∙◌, Bool, true, false, none, some, List, [], ◌∷◌, ◌++◌, map, all,
  any, arith, Option-cases, inl, inr,
}
use nimbus_storage_platform.Database.{Db, VersionChunk}
use nimbus_storage_platform.Database.Actions.{
  World, Result, ok, err, database_error, return, reject_if, or_throw, call, query, >>=-ok,
}
use nimbus_storage_platform.Storage.Ring.{NodeId}
use nimbus_storage_platform.Storage.Locations.{locations_of, locations_for_chunk}
use nimbus_storage_platform.Database.Laws.{query-calm}
use nimbus_storage_platform.File.{FileError}
use nimbus_storage_platform.File.Repository.{get_version_chunks}
use nimbus_storage_platform.File.Chunks.{
  version_rows, chunks_of, is_ordered, order_by_sequence-is_ordered, order_by_sequence-Perm,
  all-order_by_sequence,
}
use nimbus_storage_platform.Processing.{
  ProcessError, no_locations, no_replica, lifted, from_files, Tools, is_empty, verified,
  fetch_verified_chunk, reassemble_chunks, reassemble,
}

abbrev pub hashes : List VersionChunk → List ℕ
hashes = map (λ (c : VersionChunk). c.chunk_hash)

abbrev pub concat : List (List ℕ) → List ℕ
concat [] = []
concat (bytes ∷ pieces) = bytes ++ concat pieces

module _ (tools : Tools) where
  -- Some recorded location has bytes with the hash.
  abbrev pub is_readable : ℕ → NodeId → Bool
  is_readable hash id = elim (verified tools hash (tools.read_object id hash)) [
    | none ↦ false
    | some _ ↦ true
  ]

  abbrev pub is_available : Db → VersionChunk → Bool
  is_available db c = any (is_readable c.chunk_hash) (locations_of c.chunk_hash db)

  fetched-verified :
      (hash : ℕ) (ids : List NodeId) (bytes : List ℕ)
      → fetch_verified_chunk tools hash ids ≡ some bytes
      → tools.sha256 bytes ≡ hash
  unfolding fetch_verified_chunk
  fetched-verified hash [] bytes h = cc
  fetched-verified hash (id ∷ ids) bytes h = ground (arith, fetched-verified hash ids bytes)

  fetches :
      (hash : ℕ) (ids : List NodeId)
      → any (is_readable hash) ids ≡ true
      → (bytes : List ℕ) × (fetch_verified_chunk tools hash ids ≡ some bytes)
        × (is_empty ids ≡ false)
  unfolding fetch_verified_chunk
  fetches hash [] h = cc
  fetches hash (id ∷ ids) h =
      elim (Option-cases (verified tools hash (tools.read_object id hash))) [
        | inl absent ↦
            let (bytes, found, _) = fetches hash ids (rw (is_readable, absent) at h) in
            (bytes, rw (fetch_verified_chunk, absent) found, refl)
        | inr (bytes, read) ↦ (bytes, rw (fetch_verified_chunk, read) refl, refl)
      ]

  returned :
      {A : Type 0} (a : A) (w : World) {b : A} {v : World}
      → return {E = ProcessError} a w ≡ (ok b, v)
      → a ≡ b
  returned a w h = ground arith

  -- What a reassembly yields is the concatenation of pieces that hash to the version's chunks, in
  -- their order.
  pieced :
      (cs : List VersionChunk) (w : World) {bytes : List ℕ} {v : World}
      → reassemble_chunks tools cs w ≡ (ok bytes, v)
      → (pieces : List (List ℕ)) × (map tools.sha256 pieces ≡ hashes cs) × (bytes ≡ concat pieces)
  unfolding reassemble_chunks
  pieced [] w h = ([], refl, ground arith)
  pieced (c ∷ cs) w h =
      let (ids, w₁, _, h₁) = >>=-ok (locations_for_chunk c.chunk_hash) _ w h in
      let (_, w₂, _, h₂) = >>=-ok (reject_if (is_empty ids) (no_locations c.chunk_hash)) _ w₁ h₁ in
      let found = fetch_verified_chunk tools c.chunk_hash ids in
      let (piece, w₃, got, h₃) = >>=-ok (or_throw found (no_replica c.chunk_hash)) _ w₂ h₂ in
      let (rest, w₄, gathered, h₄) = >>=-ok (reassemble_chunks tools cs) _ w₃ h₃ in
      let (pieces, same, whole) = pieced cs w₃ gathered in
      let read : found ≡ some piece = ground arith in
      (
        piece ∷ pieces,
        ap₂ (λ x xs. x ∷ xs) (fetched-verified c.chunk_hash ids piece read) same,
        sym (returned _ w₄ h₄) ∙ ap (λ x. piece ++ x) whole,
      )

  lifted-ok : {A : Type 0} (r : Result FileError A) {a : A} → lifted r ≡ ok a → r ≡ ok a
  lifted-ok (ok a) h = ground arith
  lifted-ok (err e) h = cc
  lifted-ok database_error h = cc

  listed :
      (version_id : ℕ) (w : World) {cs : List VersionChunk} {v : World}
      → from_files (get_version_chunks version_id) w ≡ (ok cs, v)
      → cs ≡ chunks_of version_id w.db
  unfolding get_version_chunks query call
  listed version_id w h = ground arith

  -- The bytes are made of one piece for each chunk row of the version, in an order in which their
  -- sequences do not go down, and each piece hashes to its chunk.
  abbrev pub IsContent : ℕ → Db → List ℕ → Type 0
  IsContent version_id db bytes =
      (cs : List VersionChunk) × (pieces : List (List ℕ)) × (is_ordered cs ≡ true)
      × Perm cs (version_rows version_id db)
      × (map tools.sha256 pieces ≡ hashes cs)
      × (bytes ≡ concat pieces)

  -- Bytes that a reassembly yields are made of one piece for each chunk row of the version, in an
  -- order in which their sequences do not go down, and each piece hashes to its chunk, whatever the
  -- nodes answered.
  pub reassemble-verified :
      (version_id : ℕ) (w : World) {bytes : List ℕ} {v : World}
      → reassemble tools version_id w ≡ (ok bytes, v)
      → IsContent version_id w.db bytes
  unfolding reassemble
  reassemble-verified version_id w h =
      let (cs, w₁, read, h₁) = >>=-ok (from_files (get_version_chunks version_id)) _ w h in
      let (pieces, same, whole) = pieced cs w₁ h₁ in
      (
        chunks_of version_id w.db,
        pieces,
        order_by_sequence-is_ordered (version_rows version_id w.db),
        order_by_sequence-Perm (version_rows version_id w.db),
        same ∙ ap hashes (listed version_id w read),
        whole,
      )

  gathers :
      (cs : List VersionChunk) (w : World)
      → w.faults ≡ []
      → all (is_available w.db) cs ≡ true
      → (bytes : List ℕ) × (reassemble_chunks tools cs w ≡ (ok bytes, w))
  unfolding reassemble_chunks locations_for_chunk
  gathers [] w calm h = ([], refl)
  gathers (c ∷ cs) w calm h =
      let here : is_available w.db c ≡ true = ground arith in
      let (piece, found, some_ids) = fetches c.chunk_hash (locations_of c.chunk_hash w.db) here in
      let (rest, gathered) = gathers cs w calm (ground arith) in
      (
        piece ++ rest,
        rw (query-calm (locations_of c.chunk_hash) w calm, some_ids, found, gathered) refl,
      )

  -- Where the database answers and each chunk row of a version has a recorded location whose bytes can
  -- be read and hash to it, the version is reassembled, from one piece for each row, in an order in
  -- which their sequences do not go down; further locations that are unreachable or corrupt make no
  -- difference.
  pub reassemble_succeeds :
      (version_id : ℕ) (w : World)
      → w.faults ≡ []
      → all (is_available w.db) (version_rows version_id w.db) ≡ true
      → (bytes : List ℕ) × (reassemble tools version_id w ≡ (ok bytes, w))
        × IsContent version_id w.db bytes
  unfolding reassemble get_version_chunks
  reassemble_succeeds version_id w calm h =
      let available =
        all-order_by_sequence (is_available w.db) (version_rows version_id w.db) ∙ h in
      let (bytes, gathered) = gathers (chunks_of version_id w.db) w calm available in
      let done : reassemble tools version_id w ≡ (ok bytes, w) =
        rw (reassemble, query-calm (chunks_of version_id) w calm) gathered in
      (bytes, done, reassemble-verified version_id w done)
