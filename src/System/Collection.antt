-- ===== src/System/Collection.antt =====
-- A tick of backend/internal/gc/sweeper.go on the tables that files share with it.
use nimbus_storage_platform.Base.{
  ℕ, ◌≡◌, refl, Bool, true, false, List, [], ◌∷◌, arith, if◌then◌else◌, ltb,
}
use nimbus_storage_platform.Database.{Db}
use nimbus_storage_platform.Gc.{
  ReapCalls, mark, sweep, sweep_candidates, reap_chunk, reap_all, delete_or_fail, delete_chunk,
  tick,
}
use nimbus_storage_platform.Gc.Safety.{tick-IsIntact}
use nimbus_storage_platform.File.Usage.{IsConsistent-same}
use nimbus_storage_platform.File.Sound.{IsSound}

-- The tables of the file repository, as they were.
abbrev SameFiles : Db → Db → Type 0
SameFiles db' db =
    (db'.files ≡ db.files) × (db'.file_versions ≡ db.file_versions) × (db'.org_usage ≡ db.org_usage)

reap_chunk-SameFiles :
    (remove_ok : ℕ → Bool) (calls : ReapCalls) (hash : ℕ) (db : Db)
    → SameFiles (reap_chunk remove_ok calls (λ d. d) hash db).db db
unfolding reap_chunk delete_or_fail delete_chunk
reap_chunk-SameFiles remove_ok calls hash db = ground arith

reap_all-SameFiles :
    (remove_ok : ℕ → ℕ → Bool) (calls : ℕ → ReapCalls) (hashes : List ℕ) (db : Db)
    → SameFiles (reap_all remove_ok calls (λ d. d) hashes db).db db
unfolding reap_all
reap_all-SameFiles remove_ok calls [] db = (refl, refl, refl)
reap_all-SameFiles remove_ok calls (hash ∷ hashes) db = ground (
  arith,
  reap_chunk-SameFiles (remove_ok hash) (calls hash) hash db,
  reap_all-SameFiles remove_ok calls hashes
      (reap_chunk (remove_ok hash) (calls hash) (λ d. d) hash db).db,
)

tick-SameFiles :
    (remove_ok : ℕ → ℕ → Bool) (calls : ℕ → ReapCalls) (mark_ok scan_ok : Bool) (now grace : ℕ)
    (db : Db)
    → SameFiles (tick (λ r d. d) remove_ok calls (λ d. d) mark_ok scan_ok 0 now grace db).db db
unfolding tick mark sweep
tick-SameFiles remove_ok calls mark_ok scan_ok now grace db =
    let marked = if mark_ok then (mark now grace db).0 else db in
    ground (arith, reap_all-SameFiles remove_ok calls (sweep_candidates now grace marked) marked)

collected-IsSound :
    (remove_ok : ℕ → ℕ → Bool) (calls : ℕ → ReapCalls) (mark_ok scan_ok : Bool) (now grace : ℕ)
    (db : Db)
    → IsSound db
    → IsSound (tick (λ r d. d) remove_ok calls (λ d. d) mark_ok scan_ok 0 now grace db).db
collected-IsSound remove_ok calls mark_ok scan_ok now grace db sound =
    let (files, versions, usage) = tick-SameFiles remove_ok calls mark_ok scan_ok now grace db in
    record {
      consistent = IsConsistent-same db _ sound.consistent files versions usage;
      intact =
          tick-IsIntact (λ r d. d) remove_ok calls (λ d. d) mark_ok scan_ok 0 now grace db
            (λ r d h. h) (λ d h. h) sound.intact;
    }

purged-IsSound :
    (on : Bool) (purge : Db → Db) (db : Db)
    → IsSound db
    → IsSound (purge db)
    → IsSound (if on then purge db else db)
purged-IsSound true purge db sound kept = kept
purged-IsSound false purge db sound kept = sound

pub tick-IsSound :
    (purge_trash : ℕ → Db → Db) (remove_ok : ℕ → ℕ → Bool) (calls : ℕ → ReapCalls)
    (mark_ok scan_ok : Bool) (retention now grace : ℕ) (db : Db)
    → IsSound db
    → IsSound (purge_trash retention db)
    → IsSound (tick purge_trash remove_ok calls (λ d. d) mark_ok scan_ok retention now grace db).db
unfolding tick
tick-IsSound purge_trash remove_ok calls mark_ok scan_ok retention now grace db sound purged =
    collected-IsSound remove_ok calls mark_ok scan_ok now grace
      (if ltb 0 retention then purge_trash retention db else db)
      (purged-IsSound (ltb 0 retention) (purge_trash retention) db sound purged)
