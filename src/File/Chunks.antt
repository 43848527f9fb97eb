-- ===== src/File/Chunks.antt =====
-- The chunk list of a version, as `GetVersionChunks` of backend/internal/file/repository.go reads it:
-- ORDER BY sequence is a stable insertion sort.
use mathlib.Core.List.{Perm}
use mathlib.Core.List.Perm
use nimbus_storage_platform.Base.{
  ℕ, ◌≡◌, refl, ap, ◌∙◌, Bool, true, ◌&&◌, List, [], ◌∷◌, filter, all, leb, ◌==◌, if◌then◌else◌,
  arith, Bool-cases, inl, inr,
}
use nimbus_storage_platform.Database.{Db, VersionChunk}

unfoldable pub insert_in_sequence : VersionChunk → List VersionChunk → List VersionChunk
insert_in_sequence c [] = c ∷ []
insert_in_sequence c (d ∷ ds) =
    if leb c.sequence d.sequence then c ∷ d ∷ ds else d ∷ insert_in_sequence c ds

unfoldable pub order_by_sequence : List VersionChunk → List VersionChunk
order_by_sequence [] = []
order_by_sequence (c ∷ cs) = insert_in_sequence c (order_by_sequence cs)

-- The rows of a version, in the order of the table.
abbrev pub version_rows : ℕ → Db → List VersionChunk
version_rows version_id db =
    filter (λ (c : VersionChunk). c.version_id == version_id) db.version_chunks

abbrev pub chunks_of : ℕ → Db → List VersionChunk
chunks_of version_id db = order_by_sequence (version_rows version_id db)

abbrev pub comes_before : ℕ → List VersionChunk → Bool
comes_before sequence = all (λ (d : VersionChunk). leb sequence d.sequence)

-- Sequences do not go down.
abbrev pub is_ordered : List VersionChunk → Bool
is_ordered [] = true
is_ordered (c ∷ cs) = comes_before c.sequence cs && is_ordered cs

insert-comes_before :
    (sequence : ℕ) (c : VersionChunk) (ds : List VersionChunk)
    → comes_before sequence (insert_in_sequence c ds)
      ≡ (leb sequence c.sequence && comes_before sequence ds)
unfolding insert_in_sequence
insert-comes_before sequence c [] = refl
insert-comes_before sequence c (d ∷ ds) = ground (arith, insert-comes_before sequence c ds)

comes_before_trans :
    (s t : ℕ) (ds : List VersionChunk)
    → leb s t ≡ true
    → comes_before t ds ≡ true
    → comes_before s ds ≡ true
comes_before_trans s t [] h k = refl
comes_before_trans s t (d ∷ ds) h k = ground (arith, comes_before_trans s t ds h)

insert-is_ordered :
    (c : VersionChunk) (ds : List VersionChunk)
    → is_ordered ds ≡ true
    → is_ordered (insert_in_sequence c ds) ≡ true
unfolding insert_in_sequence
insert-is_ordered c [] h = refl
insert-is_ordered c (d ∷ ds) h = ground (
  arith,
  comes_before_trans c.sequence d.sequence ds,
  insert-comes_before d.sequence c ds,
  insert-is_ordered c ds,
)

pub order_by_sequence-is_ordered :
    (cs : List VersionChunk) → is_ordered (order_by_sequence cs) ≡ true
unfolding order_by_sequence
order_by_sequence-is_ordered [] = refl
order_by_sequence-is_ordered (c ∷ cs) =
    insert-is_ordered c (order_by_sequence cs) (order_by_sequence-is_ordered cs)

insert-Perm : (c : VersionChunk) (ds : List VersionChunk) → Perm (insert_in_sequence c ds) (c ∷ ds)
unfolding insert_in_sequence
insert-Perm c [] = Perm.refl (c ∷ [])
insert-Perm c (d ∷ ds) = elim (Bool-cases (leb c.sequence d.sequence)) [
  | inl first ↦ rw (insert_in_sequence, first) (Perm.refl (c ∷ d ∷ ds))
  | inr later ↦
      rw (insert_in_sequence, later)
        (Perm.trans (Perm.cons d (insert-Perm c ds)) (Perm.swap c d ds))
]

pub order_by_sequence-Perm : (cs : List VersionChunk) → Perm (order_by_sequence cs) cs
unfolding order_by_sequence
order_by_sequence-Perm [] = Perm.refl []
order_by_sequence-Perm (c ∷ cs) =
    Perm.trans (insert-Perm c (order_by_sequence cs)) (Perm.cons c (order_by_sequence-Perm cs))

all-insert :
    (p : VersionChunk → Bool) (c : VersionChunk) (ds : List VersionChunk)
    → all p (insert_in_sequence c ds) ≡ (p c && all p ds)
unfolding insert_in_sequence
all-insert p c [] = refl
all-insert p c (d ∷ ds) = ground (arith, all-insert p c ds)

pub all-order_by_sequence :
    (p : VersionChunk → Bool) (cs : List VersionChunk) → all p (order_by_sequence cs) ≡ all p cs
unfolding order_by_sequence
all-order_by_sequence p [] = refl
all-order_by_sequence p (c ∷ cs) =
    all-insert p c (order_by_sequence cs) ∙ ap (◌&&◌ (p c)) (all-order_by_sequence p cs)
