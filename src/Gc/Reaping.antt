-- ===== src/Gc/Reaping.antt =====
-- `reapChunk` of backend/internal/gc/sweeper.go: the objects before the row.
use nimbus_storage_platform.Base.{
  ◌++◌, ◌&&◌, ◌⊎◌, ℕ, ◌≡◌, refl, ap, Bool, true, false, not, ◌||◌, List, [], ◌∷◌, map, arith, inl,
  inr, ◌==◌, any, filter, Bool-cases,
}
use nimbus_storage_platform.Database.{Db, Chunk, ChunkLocation, is_live}
use nimbus_storage_platform.Gc.{
  is_referenced, is_pinned_by, pins_sweep, is_reapable, recorded_nodes, ReapCalls, remove_objects,
  delete_chunk, delete_or_fail, reap_chunk,
}
use nimbus_storage_platform.Gc.Safety.{has_chunk}

remove_objects-prefix :
    (remove_ok : ℕ → Bool) (ns : List ℕ)
    → (rest : List ℕ) × (ns ≡ (remove_objects remove_ok ns).0 ++ rest)
      × ((remove_objects remove_ok ns).1 ≡ true → rest ≡ [])
unfolding remove_objects
remove_objects-prefix remove_ok [] = ([], refl, λ h. refl)
remove_objects-prefix remove_ok (n ∷ ns) = elim (Bool-cases (remove_ok n)) [
  | inl gone ↦
      let (rest, split, all) = remove_objects-prefix remove_ok ns in
      (rest, rw (remove_objects, gone) (ap (◌∷◌ n) split), rw (remove_objects, gone) all)
  | inr left ↦ (n ∷ ns, rw (remove_objects, left) refl, rw (remove_objects, left) (λ h. cc))
]

-- A doomed chunk that no file version refers to and no session in progress pins.
pub record IsUnused (hash : ℕ) (db : Db) : Type 0 where
  pub is_doomed : any (λ c. c.hash == hash && not (is_live c.gc_state)) db.chunks ≡ true
  pub unreferenced : is_referenced db hash ≡ false
  pub unpinned : is_pinned_by pins_sweep db hash ≡ false

is_reapable-IsUnused : (hash : ℕ) (db : Db) → is_reapable db hash ≡ true → IsUnused hash db
unfolding is_reapable
is_reapable-IsUnused hash db h = record {
  is_doomed = ground arith;
  unreferenced = ground arith;
  unpinned = ground arith;
}

-- The tables without a chunk: its row and locations are gone, the other chunks and the lists of the
-- versions are as they were.
pub record IsWithout (hash : ℕ) (before after : Db) : Type 0 where
  pub no_row : has_chunk hash after.chunks ≡ false
  pub no_location : recorded_nodes after hash ≡ []
  pub others :
      filter (λ c. not (c.hash == hash)) after.chunks
      ≡ filter (λ c. not (c.hash == hash)) before.chunks
  pub lists : after.version_chunks ≡ before.version_chunks

has_chunk-without :
    (hash : ℕ) (cs : List Chunk) → has_chunk hash (filter (λ c. not (c.hash == hash)) cs) ≡ false
has_chunk-without hash [] = refl
has_chunk-without hash (c ∷ cs) = ground (arith, has_chunk-without hash cs)

locations-without :
    (hash : ℕ) (ls : List ChunkLocation)
    → map
        (λ (l : ChunkLocation). l.node_id)
        (filter
          (λ (l : ChunkLocation). l.chunk_hash == hash)
          (filter (λ (l : ChunkLocation). not (l.chunk_hash == hash)) ls))
      ≡ []
locations-without hash [] = refl
locations-without hash (l ∷ ls) = ground (arith, locations-without hash ls)

filter-twice :
    (hash : ℕ) (cs : List Chunk)
    → filter (λ c. not (c.hash == hash)) (filter (λ c. not (c.hash == hash)) cs)
      ≡ filter (λ c. not (c.hash == hash)) cs
filter-twice hash [] = refl
filter-twice hash (c ∷ cs) = ground (arith, filter-twice hash cs)

delete_chunk-IsWithout : (hash : ℕ) (db : Db) → IsWithout hash db (delete_chunk hash db)
unfolding delete_chunk recorded_nodes
delete_chunk-IsWithout hash db = record {
  no_row = has_chunk-without hash db.chunks;
  no_location = locations-without hash db.chunk_locations;
  others = filter-twice hash db.chunks;
  lists = refl;
}

-- What a reap can leave, given the objects that it removed.
abbrev pub RowLast : ℕ → List ℕ → Db → Db → Type 0
RowLast hash rest before after =
    (after ≡ before)
    ⊎ ((rest ≡ []) × (is_referenced before hash ≡ false) × IsWithout hash before after)

delete_or_fail-RowLast :
    (calls : ReapCalls) (hash : ℕ) (removed : List ℕ) (db : Db)
    → RowLast hash [] db (delete_or_fail calls db hash removed).db
      × ((delete_or_fail calls db hash removed).removed ≡ removed)
unfolding delete_or_fail
delete_or_fail-RowLast calls hash removed db =
    elim (Bool-cases (is_referenced db hash || not calls.deletes)) [
      | inl refused ↦ (inl (ground (arith, refused)), ground (arith, refused))
      | inr free ↦ (
        inr (refl, ground arith, rw (delete_or_fail, free) (delete_chunk-IsWithout hash db)),
        ground (arith, free),
      )
    ]

-- A reap, whichever of its statements and removals fail, either touches nothing, or the chunk was
-- doomed and neither referenced nor pinned when it looked. Then it removes objects in the order of
-- the recorded nodes, and the row and the locations go only after the last of them and where no
-- version refers to the chunk by then; otherwise the tables are as the transactions in between
-- leave them.
pub reap_chunk_objects_first :
    (remove_ok : ℕ → Bool) (calls : ReapCalls) (between : Db → Db) (hash : ℕ) (db : Db)
    → let r = reap_chunk remove_ok calls between hash db in
      ((r.removed ≡ []) × (r.db ≡ db))
      ⊎ (IsUnused hash db
          × ((rest : List ℕ) × (recorded_nodes db hash ≡ r.removed ++ rest)
              × RowLast hash rest (between db) r.db))
unfolding reap_chunk recorded_nodes delete_or_fail
reap_chunk_objects_first remove_ok calls between hash db =
    let (removed, all_removed) = remove_objects remove_ok (recorded_nodes db hash) in
    let (rest, split, all) = remove_objects-prefix remove_ok (recorded_nodes db hash) in
    elim (Bool-cases (calls.selects && is_reapable db hash && calls.locates)) [
      | inr stop ↦ inl (ground (arith, stop), ground (arith, stop))
      | inl go ↦
          let selects : calls.selects ≡ true = ground arith in
          let reapable : is_reapable db hash ≡ true = ground arith in
          let locates : calls.locates ≡ true = ground arith in
          let unused = is_reapable-IsUnused hash db reapable in
          inr (
            unused,
            elim (Bool-cases all_removed) [
              | inl gone ↦
                  let (last, kept) = delete_or_fail-RowLast calls hash removed (between db) in
                  (
                    rest,
                    rw (selects, reapable, locates, gone, kept) split,
                    rw (selects, reapable, locates, gone, all gone) last,
                  )
              | inr left ↦ (
                rest,
                rw (selects, reapable, locates, left) split,
                inl (rw (selects, reapable, locates, left) refl),
              )
            ],
          )
    ]
