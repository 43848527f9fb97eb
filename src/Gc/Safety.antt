-- ===== src/Gc/Safety.antt =====
-- The sweep phase of backend/internal/gc/sweeper.go and the chunks of the file versions, with other
-- transactions in between.
use nimbus_storage_platform.Base.{
  sym, subst, ◌&&◌, ℕ, ◌≡◌, refl, ap, ◌∙◌, Bool, true, false, not, ◌||◌, List, [], ◌∷◌, map, arith,
  inl, inr, if◌then◌else◌, ltb, ◌==◌, any, filter, Bool-cases, All,
}
use nimbus_storage_platform.Database.{Db, Chunk, VersionChunk}
use nimbus_storage_platform.Gc.{
  is_referenced, doom_row, mark, is_reapable, recorded_nodes, ReapCalls, remove_objects,
  delete_chunk, delete_or_fail, reap_chunk, reap_all, is_doomable, sweep, sweep_candidates, tick,
  is_candidate,
}

abbrev pub has_chunk : ℕ → List Chunk → Bool
has_chunk hash = any (λ c. c.hash == hash)

-- Every chunk that a file version refers to has its row: what the foreign key of
-- file_version_chunks demands, and what a download relies on.
abbrev pub IsIntact : Db → Type 0
IsIntact db = All (λ v. has_chunk v.chunk_hash db.chunks ≡ true) db.version_chunks

pub has_chunk-doom_row :
    (now grace hash : ℕ) (db : Db) (cs : List Chunk)
    → has_chunk hash (map (doom_row now grace db) cs) ≡ has_chunk hash cs
unfolding doom_row
has_chunk-doom_row now grace hash db [] = refl
has_chunk-doom_row now grace hash db (c ∷ cs) =
    ground (arith, has_chunk-doom_row now grace hash db cs)

pub has_chunk-filter :
    (hash x : ℕ) (cs : List Chunk)
    → (x == hash) ≡ false
    → has_chunk x (filter (λ c. not (c.hash == hash)) cs) ≡ has_chunk x cs
has_chunk-filter hash x [] h = refl
has_chunk-filter hash x (c ∷ cs) h = ground (arith, has_chunk-filter hash x cs h)

All-version_mono :
    (cs ds : List Chunk) (vs : List VersionChunk)
    → ((x : ℕ) → any (λ v. v.chunk_hash == x) vs ≡ true → has_chunk x cs ≡ has_chunk x ds)
    → All (λ v. has_chunk v.chunk_hash ds ≡ true) vs
    → All (λ v. has_chunk v.chunk_hash cs ≡ true) vs
All-version_mono cs ds [] h a = tt
All-version_mono cs ds (v ∷ vs) h a =
    (h v.chunk_hash (ground arith) ∙ a.0, All-version_mono cs ds vs (λ x m. h x (ground arith)) a.1)

mark-IsIntact : (now grace : ℕ) (db : Db) → IsIntact db → IsIntact (mark now grace db).0
unfolding mark
mark-IsIntact now grace db =
    All-version_mono (map (doom_row now grace db) db.chunks) db.chunks db.version_chunks
      (λ x m. has_chunk-doom_row now grace x db db.chunks)

delete_chunk-IsIntact :
    (hash : ℕ) (db : Db)
    → is_referenced db hash ≡ false
    → IsIntact db
    → IsIntact (delete_chunk hash db)
unfolding delete_chunk
delete_chunk-IsIntact hash db unreferenced =
    All-version_mono (filter (λ c. not (c.hash == hash)) db.chunks) db.chunks db.version_chunks
      (λ x m. has_chunk-filter hash x db.chunks (other x m))
  where
    other : (x : ℕ) → is_referenced db x ≡ true → (x == hash) ≡ false
    other x m = elim (Bool-cases (x == hash)) [
      | inr distinct ↦ distinct
      | inl same ↦ let e : x ≡ hash = ground arith in cc (ap (is_referenced db) e, m, unreferenced)
    ]

doom_row-candidate :
    (now grace : ℕ) (db : Db) (c : Chunk)
    → (is_candidate now grace (doom_row now grace db c) ≡ is_candidate now grace c)
      × ((doom_row now grace db c).hash ≡ c.hash)
unfolding doom_row is_doomable
doom_row-candidate now grace db c = ground arith

delete_or_fail-IsIntact :
    (calls : ReapCalls) (db : Db) (hash : ℕ) (removed : List ℕ)
    → IsIntact db
    → IsIntact (delete_or_fail calls db hash removed).db
unfolding delete_or_fail
delete_or_fail-IsIntact calls db hash removed intact =
    elim (Bool-cases (is_referenced db hash || not calls.deletes)) [
      | inl refused ↦ rw refused intact
      | inr free ↦ rw free (delete_chunk-IsIntact hash db (ground arith) intact)
    ]

reap_chunk-IsIntact :
    (remove_ok : ℕ → Bool) (calls : ReapCalls) (between : Db → Db) (hash : ℕ) (db : Db)
    → ((d : Db) → IsIntact d → IsIntact (between d))
    → IsIntact db
    → IsIntact (reap_chunk remove_ok calls between hash db).db
unfolding reap_chunk delete_or_fail
reap_chunk-IsIntact remove_ok calls between hash db keeps intact =
    let (removed, all_removed) = remove_objects remove_ok (recorded_nodes db hash) in
    elim (Bool-cases (calls.selects && is_reapable db hash && calls.locates)) [
      | inr stop ↦
          let same : (reap_chunk remove_ok calls between hash db).db ≡ db = ground (arith, stop) in
          subst IsIntact (sym same) intact
      | inl go ↦
          let selects : calls.selects ≡ true = ground arith in
          let reapable : is_reapable db hash ≡ true = ground arith in
          let locates : calls.locates ≡ true = ground arith in
          elim (Bool-cases all_removed) [
            | inl gone ↦
                rw (selects, reapable, locates, gone)
                  (delete_or_fail-IsIntact calls (between db) hash removed (keeps db intact))
            | inr left ↦ rw (selects, reapable, locates, left) (keeps db intact)
          ]
    ]

reap_all-IsIntact :
    (remove_ok : ℕ → ℕ → Bool) (calls : ℕ → ReapCalls) (between : Db → Db) (hashes : List ℕ)
    (db : Db)
    → ((d : Db) → IsIntact d → IsIntact (between d))
    → IsIntact db
    → IsIntact (reap_all remove_ok calls between hashes db).db
unfolding reap_all
reap_all-IsIntact remove_ok calls between [] db keeps intact = intact
reap_all-IsIntact remove_ok calls between (hash ∷ hashes) db keeps intact =
    reap_all-IsIntact remove_ok calls between hashes
      (reap_chunk (remove_ok hash) (calls hash) between hash db).db keeps
      (reap_chunk-IsIntact (remove_ok hash) (calls hash) between hash db keeps intact)

sweep-IsIntact :
    (remove_ok : ℕ → ℕ → Bool) (calls : ℕ → ReapCalls) (between : Db → Db) (scan_ok : Bool)
    (now grace : ℕ) (db : Db)
    → ((d : Db) → IsIntact d → IsIntact (between d))
    → IsIntact db
    → IsIntact
        (if scan_ok
          then sweep remove_ok calls between now grace db
          else record { db = db; removed = [] }).db
unfolding sweep
sweep-IsIntact remove_ok calls between false now grace db keeps intact = intact
sweep-IsIntact remove_ok calls between true now grace db keeps intact =
    reap_all-IsIntact remove_ok calls between (sweep_candidates now grace db) db keeps intact

mark_ok-IsIntact :
    (mark_ok : Bool) (now grace : ℕ) (db : Db)
    → IsIntact db
    → IsIntact (if mark_ok then (mark now grace db).0 else db)
mark_ok-IsIntact false now grace db intact = intact
mark_ok-IsIntact true now grace db intact = mark-IsIntact now grace db intact

-- A tick keeps the rows of the chunks that file versions refer to, as the foreign key does, as long
-- as the purge and the transactions in between keep them.
pub tick-IsIntact :
    (purge_trash : ℕ → Db → Db) (remove_ok : ℕ → ℕ → Bool) (calls : ℕ → ReapCalls)
    (between : Db → Db) (mark_ok scan_ok : Bool) (retention now grace : ℕ) (db : Db)
    → ((r : ℕ) (d : Db) → IsIntact d → IsIntact (purge_trash r d))
    → ((d : Db) → IsIntact d → IsIntact (between d))
    → IsIntact db
    → IsIntact (tick purge_trash remove_ok calls between mark_ok scan_ok retention now grace db).db
unfolding tick
tick-IsIntact purge_trash remove_ok calls between mark_ok scan_ok retention now grace db purge_keeps
      keeps intact =
    sweep-IsIntact remove_ok calls between scan_ok now grace _ keeps
      (mark_ok-IsIntact mark_ok now grace _ purged)
  where
    purged : IsIntact (if ltb 0 retention then purge_trash retention db else db)
    purged = elim (Bool-cases (ltb 0 retention)) [
      | inl on ↦ rw on (purge_keeps retention db intact)
      | inr off ↦ rw off intact
    ]

-- A mark adds nothing to what the sweep of the same tick considers, whatever the grace window: a
-- chunk that has just been doomed is left alone.
pub sweep_candidates-mark :
    (now grace : ℕ) (db : Db)
    → sweep_candidates now grace (mark now grace db).0 ≡ sweep_candidates now grace db
unfolding sweep_candidates mark
sweep_candidates-mark now grace db = go db.chunks
  where
    go :
        (cs : List Chunk)
        → map (λ c. c.hash) (filter (is_candidate now grace) (map (doom_row now grace db) cs))
          ≡ map (λ c. c.hash) (filter (is_candidate now grace) cs)
    go [] = refl
    go (c ∷ cs) = ground (arith, go cs, doom_row-candidate now grace db c)
