-- ===== src/Gc/InUse.antt =====
-- A tick of backend/internal/gc/sweeper.go and the chunks that are in use.
use nimbus_storage_platform.Base.{
  mem, sym, subst, ◌++◌, ◌⊎◌, ℕ, ◌≡◌, refl, ap, ◌∙◌, Bool, true, false, not, ◌||◌, List, [], ◌∷◌,
  map, arith, inl, inr, if◌then◌else◌, ltb, ◌==◌, any, filter, Bool-cases,
}
use nimbus_storage_platform.Database.{Db, ChunkLocation}
use nimbus_storage_platform.Gc.{
  is_referenced, is_pinned_by, pins_sweep, mark, is_reapable, recorded_nodes, ReapCalls,
  delete_chunk, delete_or_fail, reap_chunk, reap_all, sweep, sweep_candidates, tick,
}
use nimbus_storage_platform.Gc.Safety.{has_chunk, has_chunk-doom_row, has_chunk-filter}

-- A file version refers to the chunk, or a session in progress has an attempt for it.
abbrev pub is_used : ℕ → Db → Bool
is_used hash db = is_referenced db hash || is_pinned_by pins_sweep db hash

-- The chunk is in use, and its row and its location on a node are there.
pub record InUse (hash node_id : ℕ) (db : Db) : Type 0 where
  pub used : is_used hash db ≡ true
  pub row : has_chunk hash db.chunks ≡ true
  pub location : mem node_id (recorded_nodes db hash) ≡ true

abbrev pub is_removed : ℕ → List (ℕ × ℕ) → Bool
is_removed hash = any (λ (o : ℕ × ℕ). o.0 == hash)

locations-filter :
    (other hash node_id : ℕ) (ls : List ChunkLocation)
    → (hash == other) ≡ false
    → mem node_id (
        map
          (λ (l : ChunkLocation). l.node_id)
          (filter
            (λ (l : ChunkLocation). l.chunk_hash == hash)
            (filter (λ (l : ChunkLocation). not (l.chunk_hash == other)) ls)))
      ≡ mem node_id (
          map
            (λ (l : ChunkLocation). l.node_id)
            (filter (λ (l : ChunkLocation). l.chunk_hash == hash) ls))
locations-filter other hash node_id [] h = refl
locations-filter other hash node_id (l ∷ ls) h =
    ground (arith, h, locations-filter other hash node_id ls h)

removed-other :
    (other hash : ℕ) (ids : List ℕ)
    → (hash == other) ≡ false
    → is_removed hash (map (λ id. (other, id)) ids) ≡ false
removed-other other hash [] h = refl
removed-other other hash (id ∷ ids) h = ground (arith, h, removed-other other hash ids h)

removed-++ :
    (hash : ℕ) (xs ys : List (ℕ × ℕ))
    → is_removed hash xs ≡ false
    → is_removed hash ys ≡ false
    → is_removed hash (xs ++ ys) ≡ false
removed-++ hash [] ys h k = k
removed-++ hash (x ∷ xs) ys h k = ground (arith, removed-++ hash xs ys)

module _ (hash node_id : ℕ) where
  abbrev Kept : Db → Type 0
  Kept = InUse hash node_id

  mark-InUse : (now grace : ℕ) (db : Db) → Kept db → Kept (mark now grace db).0
  unfolding mark recorded_nodes
  mark-InUse now grace db k = record {
    used = k.used;
    row = has_chunk-doom_row now grace hash db db.chunks ∙ k.row;
    location = k.location;
  }

  delete_chunk-InUse :
      (other : ℕ) (db : Db) → (hash == other) ≡ false → Kept db → Kept (delete_chunk other db)
  unfolding delete_chunk recorded_nodes
  delete_chunk-InUse other db apart k = record {
    used = k.used;
    row = has_chunk-filter other hash db.chunks apart ∙ k.row;
    location = locations-filter other hash node_id db.chunk_locations apart ∙ k.location;
  }

  used-not_reapable : (db : Db) → is_used hash db ≡ true → is_reapable db hash ≡ false
  unfolding is_reapable
  used-not_reapable db used = ground arith

  apart-reapable :
      (other : ℕ) (db : Db)
      → is_used hash db ≡ true
      → is_reapable db other ≡ true
      → (hash == other) ≡ false
  apart-reapable other db used reapable = elim (Bool-cases (hash == other)) [
    | inr apart ↦ apart
    | inl same ↦
        let at : hash ≡ other = ground arith in
        cc (used-not_reapable db used, ap (is_reapable db) at, reapable)
  ]

  reap_chunk-cases :
      (remove_ok : ℕ → Bool) (calls : ReapCalls) (between : Db → Db) (other : ℕ) (db : Db)
      → let r = reap_chunk remove_ok calls between other db in
        ((r.db ≡ db) × (r.removed ≡ []))
        ⊎ ((is_reapable db other ≡ true)
            × ((r.db ≡ between db) ⊎ (r.db ≡ delete_chunk other (between db))))
  unfolding reap_chunk delete_or_fail
  reap_chunk-cases remove_ok calls between other db = ground arith

  module _ (between : Db → Db) (keeps : (d : Db) → Kept d → Kept (between d)) where
    reap_chunk-InUse :
        (remove_ok : ℕ → Bool) (calls : ReapCalls) (other : ℕ) (db : Db)
        → Kept db
        → let r = reap_chunk remove_ok calls between other db in
          Kept r.db × (is_removed hash (map (λ id. (other, id)) r.removed) ≡ false)
    reap_chunk-InUse remove_ok calls other db k =
        let r = reap_chunk remove_ok calls between other db in
        elim (reap_chunk-cases remove_ok calls between other db) [
          | inl (same, nothing) ↦ (
            subst Kept (sym same) k,
            ap (λ ids. is_removed hash (map (λ id. (other, id)) ids)) nothing,
          )
          | inr (reapable, left) ↦
              let apart : (hash == other) ≡ false = apart-reapable other db k.used reapable in
              (
                elim left [
                  | inl others ↦ subst Kept (sym others) (keeps db k)
                  | inr gone ↦
                      subst Kept (sym gone)
                        (delete_chunk-InUse other (between db) apart (keeps db k))
                ],
                removed-other other hash r.removed apart,
              )
        ]

    reap_all-InUse :
        (remove_ok : ℕ → ℕ → Bool) (calls : ℕ → ReapCalls) (hashes : List ℕ) (db : Db)
        → Kept db
        → let swept = reap_all remove_ok calls between hashes db in
          Kept swept.db × (is_removed hash swept.removed ≡ false)
    unfolding reap_all
    reap_all-InUse remove_ok calls [] db k = (k, refl)
    reap_all-InUse remove_ok calls (other ∷ hashes) db k =
        let turn = reap_chunk (remove_ok other) (calls other) between other db in
        let (here, none_here) = reap_chunk-InUse (remove_ok other) (calls other) other db k in
        let (there, none_there) = reap_all-InUse remove_ok calls hashes turn.db here in
        (
          there,
          removed-++ hash (map (λ id. (other, id)) turn.removed)
              (reap_all remove_ok calls between hashes turn.db).removed none_here none_there,
        )

    sweep-InUse :
        (remove_ok : ℕ → ℕ → Bool) (calls : ℕ → ReapCalls) (scan_ok : Bool) (now grace : ℕ)
        (db : Db)
        → Kept db
        → let swept =
            if scan_ok
            then sweep remove_ok calls between now grace db
            else record { db = db; removed = [] } in
          Kept swept.db × (is_removed hash swept.removed ≡ false)
    unfolding sweep
    sweep-InUse remove_ok calls false now grace db k = (k, refl)
    sweep-InUse remove_ok calls true now grace db k =
        reap_all-InUse remove_ok calls (sweep_candidates now grace db) db k

    marked-InUse :
        (mark_ok : Bool) (now grace : ℕ) (db : Db)
        → Kept db
        → Kept (if mark_ok then (mark now grace db).0 else db)
    marked-InUse false now grace db k = k
    marked-InUse true now grace db k = mark-InUse now grace db k

purged-InUse :
    (hash node_id : ℕ) (on : Bool) (purge : Db → Db) (db : Db)
    → ((d : Db) → InUse hash node_id d → InUse hash node_id (purge d))
    → InUse hash node_id db
    → InUse hash node_id (if on then purge db else db)
purged-InUse hash node_id true purge db keeps k = keeps db k
purged-InUse hash node_id false purge db keeps k = k

-- A chunk that stays in use throughout a tick (a file version refers to it, or a session in progress
-- has an attempt for it, also after the trash purge and after what other transactions commit
-- during the reaps) keeps its row and its location on a node, and no object of it is removed,
-- whichever statements and removals of the tick fail, and even where it is marked doomed.
pub tick-InUse :
    (hash node_id : ℕ) (purge_trash : ℕ → Db → Db) (remove_ok : ℕ → ℕ → Bool)
    (calls : ℕ → ReapCalls) (between : Db → Db) (mark_ok scan_ok : Bool) (retention now grace : ℕ)
    (db : Db)
    → ((r : ℕ) (d : Db) → InUse hash node_id d → InUse hash node_id (purge_trash r d))
    → ((d : Db) → InUse hash node_id d → InUse hash node_id (between d))
    → InUse hash node_id db
    → let swept = tick purge_trash remove_ok calls between mark_ok scan_ok retention now grace db in
      InUse hash node_id swept.db × (is_removed hash swept.removed ≡ false)
unfolding tick
tick-InUse hash node_id purge_trash remove_ok calls between mark_ok scan_ok retention now grace db
      purge_keeps keeps k =
    let purged = if ltb 0 retention then purge_trash retention db else db in
    let marked = if mark_ok then (mark now grace purged).0 else purged in
    sweep-InUse hash node_id between keeps remove_ok calls scan_ok now grace marked (
      marked-InUse hash node_id between keeps mark_ok now grace purged (
        purged-InUse hash node_id (ltb 0 retention) (purge_trash retention) db
          (purge_keeps retention) k))
