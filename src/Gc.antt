-- ===== src/Gc.antt =====
-- backend/internal/gc/sweeper.go: the chunk garbage collector. Each SQL statement is a function of
-- the tables and the server's time, and `t < now() - window` is written `t + window < now`. The
-- object store is the parameter `remove_ok`, which says whether RemoveObject succeeds on a node;
-- `calls` says which of a reap's own statements succeed;
-- `between` is what other transactions commit between the re-verification of a chunk and its DELETE.
pub mod Mark
pub mod Safety
pub mod Reaping
pub mod InUse
pub mod Examples
use nimbus_storage_platform.Base.{
  ℕ, ◌+◌, ◌*◌, Bool, true, false, not, ◌&&◌, ◌||◌, Option, none, some, List, [], ◌∷◌, ◌++◌, map,
  if◌then◌else◌, ltb, ◌==◌, length, filter, any,
}
use nimbus_storage_platform.Database.{
  Db, Chunk, live, doomed, is_live, Upload, is_in_progress, UploadChunk, VersionChunk,
  ChunkLocation,
}

-- 24 hours, in seconds.
abbrev pub upload_pin_ttl : ℕ
upload_pin_ttl = 86400

-- EXISTS (SELECT 1 FROM file_version_chunks …).
abbrev pub is_referenced : Db → ℕ → Bool
is_referenced db hash = any (λ v. v.chunk_hash == hash) db.version_chunks

-- EXISTS (SELECT 1 FROM upload_chunks JOIN uploads …) over the sessions that pass `holds`.
abbrev pub is_pinned_by : (Upload → Bool) → Db → ℕ → Bool
is_pinned_by holds db hash =
    any (λ uc. uc.chunk_hash == hash && any (λ u. u.id == uc.upload_id && holds u) db.uploads)
      db.upload_chunks

-- In progress, and created within the pin window.
abbrev pub pins_mark : ℕ → Upload → Bool
pins_mark now u = is_in_progress u.status && ltb now (u.created_at + upload_pin_ttl)

-- The sweep's re-verification has no window: every session in progress pins.
abbrev pub pins_sweep : Upload → Bool
pins_sweep u = is_in_progress u.status

-- The WHERE of `mark`.
unfoldable pub is_doomable : ℕ → ℕ → Db → Chunk → Bool
is_doomable now grace db c =
    is_live c.gc_state
    && ltb (c.last_seen_at + grace) now
    && not (is_referenced db c.hash)
    && not (is_pinned_by (pins_mark now) db c.hash)

unfoldable pub doom_row : ℕ → ℕ → Db → Chunk → Chunk
doom_row now grace db c =
    if is_doomable now grace db c then record c { gc_state = doomed; doomed_at = some now } else c

-- `mark`: the tables after it, and the number of rows affected.
unfoldable pub mark : ℕ → ℕ → Db → Db × ℕ
unfolding doom_row
mark now grace db = (
  record db { chunks = map (doom_row now grace db) db.chunks },
  length (filter (is_doomable now grace db) db.chunks),
)

-- `doomed_at < now() - grace`; NULL compares as unknown.
abbrev pub is_overdue : ℕ → ℕ → Option ℕ → Bool
is_overdue now grace none = false
is_overdue now grace (some t) = ltb (t + grace) now

abbrev pub is_candidate : ℕ → ℕ → Chunk → Bool
is_candidate now grace c = not (is_live c.gc_state) && is_overdue now grace c.doomed_at

unfoldable pub sweep_candidates : ℕ → ℕ → Db → List ℕ
sweep_candidates now grace db = map (λ c. c.hash) (filter (is_candidate now grace) db.chunks)

-- The SELECT … FOR UPDATE of `reapChunk` finds a row.
unfoldable pub is_reapable : Db → ℕ → Bool
is_reapable db hash =
    any (λ c. c.hash == hash && not (is_live c.gc_state)) db.chunks
    && not (is_referenced db hash)
    && not (is_pinned_by pins_sweep db hash)

unfoldable pub recorded_nodes : Db → ℕ → List ℕ
recorded_nodes db hash =
    map (λ l. l.node_id) (filter (λ l. l.chunk_hash == hash) db.chunk_locations)

-- The removal loop: the nodes whose object is gone, and whether every removal succeeded.
unfoldable pub remove_objects : (ℕ → Bool) → List ℕ → List ℕ × Bool
remove_objects remove_ok [] = ([], true)
remove_objects remove_ok (n ∷ ns) =
    let rest = remove_objects remove_ok ns in
    if remove_ok n then (n ∷ rest.0, rest.1) else ([], false)

-- DELETE FROM chunks, which cascades to chunk_locations.
unfoldable pub delete_chunk : ℕ → Db → Db
delete_chunk hash db = record db {
  chunks = filter (λ c. not (c.hash == hash)) db.chunks;
  chunk_locations = filter (λ l. not (l.chunk_hash == hash)) db.chunk_locations;
}

pub data Outcome : Type 0 where
  skipped reaped failed : Outcome

pub record Reap : Type 0 where
  pub db : Db
  pub removed : List ℕ
  pub outcome : Outcome

-- Which statements of `reapChunk` succeed: Begin with the SELECT … FOR UPDATE, the query of the
-- locations, and the DELETE with Commit.
pub record ReapCalls : Type 0 where
  pub selects : Bool
  pub locates : Bool
  pub deletes : Bool

-- The end of `reapChunk`, once every object is removed: the foreign key from file_version_chunks
-- (ON DELETE RESTRICT) refuses the DELETE of a chunk that a version refers to by now.
unfoldable pub delete_or_fail : ReapCalls → Db → ℕ → List ℕ → Reap
delete_or_fail calls db hash removed =
    if is_referenced db hash || not calls.deletes
    then record { db = db; removed = removed; outcome = failed }
    else record { db = delete_chunk hash db; removed = removed; outcome = reaped }

unfoldable pub reap_chunk : (ℕ → Bool) → ReapCalls → (Db → Db) → ℕ → Db → Reap
reap_chunk remove_ok calls between hash db =
    let (removed, all_removed) = remove_objects remove_ok (recorded_nodes db hash) in
    if not calls.selects
    then record { db = db; removed = []; outcome = failed }
    else if not (is_reapable db hash)
    then record { db = db; removed = []; outcome = skipped }
    else if not calls.locates
    then record { db = db; removed = []; outcome = failed }
    else if all_removed
    then delete_or_fail calls (between db) hash removed
    else record { db = between db; removed = removed; outcome = failed }

-- What a sweep leaves: the tables, and the objects that it removed, as chunk and node.
pub record Swept : Type 0 where
  pub db : Db
  pub removed : List (ℕ × ℕ)

-- The loop of `sweep`; a chunk that fails is logged and left for the next tick.
unfoldable pub reap_all : (ℕ → ℕ → Bool) → (ℕ → ReapCalls) → (Db → Db) → List ℕ → Db → Swept
reap_all remove_ok calls between [] db = record { db = db; removed = [] }
reap_all remove_ok calls between (hash ∷ hashes) db =
    let turn = reap_chunk (remove_ok hash) (calls hash) between hash db in
    let rest = reap_all remove_ok calls between hashes turn.db in
    record { db = rest.db; removed = map (λ id. (hash, id)) turn.removed ++ rest.removed }

unfoldable pub sweep : (ℕ → ℕ → Bool) → (ℕ → ReapCalls) → (Db → Db) → ℕ → ℕ → Db → Swept
sweep remove_ok calls between now grace db =
    reap_all remove_ok calls between (sweep_candidates now grace db) db

-- `tick`: the trash purges where retention is on, then mark and sweep. `mark_ok` and `scan_ok` say
-- whether the mark's UPDATE and the sweep's scan succeed; a failure is logged, and the tick goes on.
unfoldable pub tick :
    (ℕ → Db → Db)
    → (ℕ → ℕ → Bool)
    → (ℕ → ReapCalls)
    → (Db → Db)
    → Bool
    → Bool
    → ℕ
    → ℕ
    → ℕ
    → Db
    → Swept
tick purge_trash remove_ok calls between mark_ok scan_ok retention now grace db =
    let purged = if ltb 0 retention then purge_trash retention db else db in
    let marked = if mark_ok then (mark now grace purged).0 else purged in
    if scan_ok
    then sweep remove_ok calls between now grace marked
    else record { db = marked; removed = [] }
