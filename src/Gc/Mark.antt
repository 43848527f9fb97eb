-- ===== src/Gc/Mark.antt =====
-- The mark phase of backend/internal/gc/sweeper.go: which chunks it dooms, and which it spares.
use nimbus_storage_platform.Base.{
  ℕ, ◌+◌, ◌≤◌, ◌≡◌, refl, ap, ap₂, ◌∙◌, Bool, true, not, ◌&&◌, ◌||◌, List, [], ◌∷◌, map, arith, inl,
  inr, ltb, ◌==◌, any, Bool-cases, mem,
}
use nimbus_storage_platform.Database.{Db, Chunk}
use nimbus_storage_platform.Gc.{is_referenced, is_pinned_by, pins_mark, is_doomable, doom_row, mark}
use nimbus_storage_platform.Upload.Repository.{is_live_chunk, touch}

-- What spares a live chunk from the mark: a file version that refers to it, a recent session in
-- progress that pins it, or a dedup check or commit within the grace window.
abbrev pub is_spared : ℕ → ℕ → Db → ℕ → Chunk → Bool
is_spared now grace db hash c =
    is_referenced db hash
    || is_pinned_by (pins_mark now) db hash
    || not (ltb (c.last_seen_at + grace) now)

live-doom_row :
    (now grace : ℕ) (db : Db) (hash : ℕ) (c : Chunk)
    → is_live_chunk hash (doom_row now grace db c)
      ≡ (is_live_chunk hash c && is_spared now grace db hash c)
unfolding doom_row is_doomable
live-doom_row now grace db hash c = elim (Bool-cases (c.hash == hash)) [
  | inl same ↦
      let e : c.hash ≡ hash = ground arith in
      ground (arith, ap (is_referenced db) e, ap (is_pinned_by (pins_mark now) db) e)
  | inr other ↦ ground arith
]

any-doom_row :
    (now grace : ℕ) (db : Db) (hash : ℕ) (cs : List Chunk)
    → any (is_live_chunk hash) (map (doom_row now grace db) cs)
      ≡ any (λ c. is_live_chunk hash c && is_spared now grace db hash c) cs
any-doom_row now grace db hash [] = refl
any-doom_row now grace db hash (c ∷ cs) =
    ap₂ ◌||◌ (live-doom_row now grace db hash c) (any-doom_row now grace db hash cs)

-- After the mark a chunk is live exactly where it was live before and is spared: the mark dooms all
-- the garbage, and nothing that a version, a recent session or the grace window protects.
pub mark-live_iff_spared :
    (now grace : ℕ) (db : Db) (hash : ℕ)
    → any (is_live_chunk hash) (mark now grace db).0.chunks
      ≡ any (λ c. is_live_chunk hash c && is_spared now grace db hash c) db.chunks
unfolding mark
mark-live_iff_spared now grace db hash = any-doom_row now grace db hash db.chunks

doom_row-twice :
    (now grace : ℕ) (db : Db) (cs : List Chunk) (c : Chunk)
    → doom_row now grace (record db { chunks = cs }) (doom_row now grace db c)
      ≡ doom_row now grace db c
unfolding doom_row is_doomable
doom_row-twice now grace db cs c = ground arith

map-doom_row-twice :
    (now grace : ℕ) (db : Db) (all cs : List Chunk)
    → map (doom_row now grace (record db { chunks = all })) (map (doom_row now grace db) cs)
      ≡ map (doom_row now grace db) cs
map-doom_row-twice now grace db all [] = refl
map-doom_row-twice now grace db all (c ∷ cs) =
    ap₂ ◌∷◌ (doom_row-twice now grace db all c) (map-doom_row-twice now grace db all cs)

-- A second mark at the same time changes nothing.
pub mark_idempotent :
    (now grace : ℕ) (db : Db) → (mark now grace (mark now grace db).0).0 ≡ (mark now grace db).0
unfolding mark
mark_idempotent now grace db =
    ap (λ cs. record db { chunks = cs })
      (map-doom_row-twice now grace db (map (doom_row now grace db) db.chunks) db.chunks)

any-touch-spared :
    (t now grace hash : ℕ) (candidates : List ℕ) (db : Db) (cs : List Chunk)
    → mem hash candidates ≡ true
    → now ≤ t + grace
    → any (is_live_chunk hash) cs ≡ true
    → any (λ c. is_live_chunk hash c && is_spared now grace db hash c) (touch candidates t cs)
      ≡ true
unfolding touch
any-touch-spared t now grace hash candidates db [] m h l = cc
any-touch-spared t now grace hash candidates db (c ∷ cs) m h l =
    elim (Bool-cases (c.hash == hash)) [
      | inl same ↦
          let e : c.hash ≡ hash = ground arith in
          ground (
            arith,
            ap (λ x. mem x candidates) e,
            any-touch-spared t now grace hash candidates db cs m h,
          )
      | inr other ↦ ground (arith, any-touch-spared t now grace hash candidates db cs m h)
    ]

-- The lease of the dedup check: a live chunk that a check at time t has touched is still live after
-- a mark at any time up to t plus the grace window.
pub mark_keeps_lease :
    (t now grace hash : ℕ) (candidates : List ℕ) (db : Db)
    → mem hash candidates ≡ true
    → now ≤ t + grace
    → any (is_live_chunk hash) db.chunks ≡ true
    → any
        (is_live_chunk hash)
        (mark now grace (record db { chunks = touch candidates t db.chunks })).0.chunks
      ≡ true
mark_keeps_lease t now grace hash candidates db m h l =
    mark-live_iff_spared now grace (record db { chunks = touch candidates t db.chunks }) hash
    ∙ any-touch-spared t now grace hash candidates
        (record db { chunks = touch candidates t db.chunks }) db.chunks m h l
