-- ===== src/Folder/Subtree.antt =====
-- The recursive query of backend/internal/folder/repository.go (`subtreeCTE`): its rounds and its
-- result.
use nimbus_storage_platform.Base.{
  ℕ, zero, suc, ◌+◌, ◌≤◌, ◌<◌, ◌≡◌, refl, sym, subst, ◌∙◌, true, false, ◌||◌, Option, none, some,
  List, [], ◌∷◌, ◌++◌, map, arith, ◌==◌, filter, any, mem, mem-append, All, All-map, Bool-cases,
  inl, inr,
}
use nimbus_storage_platform.Folder.{
  Folder, has_parent_in, children_of, prepend, subtree_from, subtree,
}

-- A folder's parent ranks below it.
abbrev pub IsBelow : (ℕ → ℕ) → Option ℕ → ℕ → Type 0
IsBelow rank none id = Unit
IsBelow rank (some p) id = rank p < rank id

-- No folder is its own ancestor: the folders can be ranked so that every parent ranks below its
-- children.
abbrev pub IsAcyclic : List Folder → Type 0
IsAcyclic fs = (rank : ℕ → ℕ) × All (λ f. IsBelow rank f.parent_id f.id) fs

-- Every child of a listed folder is listed.
abbrev pub IsClosed : List ℕ → List Folder → Type 0
IsClosed ids fs = All (λ f. has_parent_in ids f ≡ true → mem f.id ids ≡ true) fs

children-listed :
    (level : List ℕ) (fs : List Folder)
    → All (λ f. has_parent_in level f ≡ true → mem f.id (children_of fs level) ≡ true) fs
children-listed level [] = tt
children-listed level (f ∷ fs) = (
  λ h. rw h (ground arith),
  All-map (λ g. has_parent_in level g ≡ true → mem g.id (children_of fs level) ≡ true)
      (λ g. has_parent_in level g ≡ true → mem g.id (children_of (f ∷ fs) level) ≡ true) fs
      (λ g listed h. ground (arith, listed h)) (children-listed level fs),
)

-- The level's own IDs are in the result, and the result is closed.
record Collects (level ids : List ℕ) (fs : List Folder) : Type 0 where
  includes : (x : ℕ) → mem x level ≡ true → mem x ids ≡ true
  closed : IsClosed ids fs

prepend-some :
    (level ids : List ℕ) (o : Option (List ℕ))
    → prepend level o ≡ some ids
    → (rest : List ℕ) × (o ≡ some rest) × (level ++ rest ≡ ids)
prepend-some level ids none h = cc
prepend-some level ids (some rest) h = (rest, refl, ground arith)

All-both :
    {P Q R : Folder → Type 0} (fs : List Folder)
    → ((f : Folder) → P f → Q f → R f)
    → All P fs
    → All Q fs
    → All R fs
All-both [] h p q = tt
All-both (f ∷ fs) h p q = (h f p.0 q.0, All-both fs h p.1 q.1)

has_parent_in-append :
    (level rest : List ℕ) (f : Folder)
    → has_parent_in (level ++ rest) f ≡ (has_parent_in level f || has_parent_in rest f)
has_parent_in-append level rest f = go f.parent_id
  where
    go :
        (o : Option ℕ)
        → elim o [ none ↦ false | some p ↦ mem p (level ++ rest) ] ≡ (
            elim o [ none ↦ false | some p ↦ mem p level ]
            || elim o [ none ↦ false | some p ↦ mem p rest ])
    go none = refl
    go (some p) = mem-append p level rest

IsClosed-nil : (fs : List Folder) → IsClosed [] fs
IsClosed-nil [] = tt
IsClosed-nil (f ∷ fs) = (no_parent f.parent_id, IsClosed-nil fs)
  where
    no_parent :
        (o : Option ℕ) → elim o [ none ↦ false | some p ↦ mem p [] ] ≡ true → mem f.id [] ≡ true
    no_parent none h = h
    no_parent (some p) h = h

joined-closed :
    (start kids rest : List ℕ) (f : Folder)
    → (has_parent_in start f ≡ true → mem f.id kids ≡ true)
    → (mem f.id kids ≡ true → mem f.id rest ≡ true)
    → (has_parent_in rest f ≡ true → mem f.id rest ≡ true)
    → has_parent_in (start ++ rest) f ≡ true
    → mem f.id (start ++ rest) ≡ true
joined-closed start kids rest f listed kept closed h =
    let here = sym (has_parent_in-append start rest f) ∙ h in
    elim (Bool-cases (has_parent_in start f)) [
      | inl above ↦ ground (arith, mem-append f.id start rest, kept (listed above))
      | inr other ↦ ground (arith, mem-append f.id start rest, closed (rw other at here))
    ]

some-injective : (xs ys : List ℕ) → some xs ≡ some ys → xs ≡ ys
some-injective xs ys h = cc

subtree_from-Collects :
    (rounds : ℕ) (fs : List Folder) (level ids : List ℕ)
    → subtree_from rounds fs level ≡ some ids
    → Collects level ids fs
unfolding subtree_from
subtree_from-Collects rounds fs [] ids h =
    rw (← some-injective [] ids h) (record { includes = λ x m. m; closed = IsClosed-nil fs })
subtree_from-Collects zero fs (x ∷ level) ids h = cc
subtree_from-Collects (suc rounds) fs (x ∷ level) ids h =
    let start = x ∷ level in
    let (rest, found, joined) =
      prepend-some start ids (subtree_from rounds fs (children_of fs start)) h in
    let c = subtree_from-Collects rounds fs (children_of fs start) rest found in
    rw (← joined) (record {
      includes = λ y m. mem-append y start rest ∙ ground (arith, m);
      closed =
          All-both fs
            (λ f listed closed k.
              joined-closed start (children_of fs start) rest f listed (c.includes f.id) closed k)
            (children-listed start fs) c.closed;
    })

rank_sum : (ℕ → ℕ) → List Folder → ℕ
rank_sum rank [] = 0
rank_sum rank (f ∷ fs) = rank f.id + rank_sum rank fs

-- A level whose IDs rank from `low` on, below the sum of all ranks.
abbrev Ranks : (ℕ → ℕ) → ℕ → ℕ → List ℕ → Type 0
Ranks rank low high level = All (λ x. (low ≤ rank x) × (rank x ≤ high)) level

mem-rank :
    (rank : ℕ → ℕ) (low high p : ℕ) (level : List ℕ)
    → Ranks rank low high level
    → mem p level ≡ true
    → low ≤ rank p
mem-rank rank low high p [] h m = cc
mem-rank rank low high p (x ∷ xs) h m = elim (Bool-cases (x == p)) [
  | inl same ↦ let e : x ≡ p = ground arith in subst (λ y. low ≤ rank y) e h.0.0
  | inr other ↦ mem-rank rank low high p xs h.1 (ground arith)
]

children-Ranks :
    (rank : ℕ → ℕ) (low high : ℕ) (level : List ℕ) (fs : List Folder)
    → All (λ f. IsBelow rank f.parent_id f.id) fs
    → All (λ f. rank f.id ≤ high) fs
    → Ranks rank low high level
    → Ranks rank (suc low) high (children_of fs level)
children-Ranks rank low high level [] below bounded h = tt
children-Ranks rank low high level (f ∷ fs) below bounded h =
    let rest = children-Ranks rank low high level fs below.1 bounded.1 h in
    elim (Bool-cases (has_parent_in level f)) [
      | inr other ↦ rw other rest
      | inl child ↦ rw child ((above f.parent_id below.0 child, bounded.0), rest)
    ]
  where
    above :
        (o : Option ℕ)
        → IsBelow rank o f.id
        → elim o [ none ↦ false | some p ↦ mem p level ] ≡ true
        → suc low ≤ rank f.id
    above none b m = cc
    above (some p) b m = omega (arith, mem-rank rank low high p level h m, b)

subtree_from-ends :
    (rank : ℕ → ℕ) (high : ℕ) (fs : List Folder)
    → All (λ f. IsBelow rank f.parent_id f.id) fs
    → All (λ f. rank f.id ≤ high) fs
    → (rounds low : ℕ) (level : List ℕ) → high < low + rounds
    → Ranks rank low high level
    → (ids : List ℕ) × (subtree_from rounds fs level ≡ some ids)
unfolding subtree_from
subtree_from-ends rank high fs below bounded rounds low [] enough h = ([], refl)
subtree_from-ends rank high fs below bounded zero low (x ∷ level) enough h =
    absurd (omega (arith, h.0.0, h.0.1, enough))
subtree_from-ends rank high fs below bounded (suc rounds) low (x ∷ level) enough h =
    let (ids, e) =
      subtree_from-ends rank high fs below bounded rounds (suc low) (children_of fs (x ∷ level))
        (omega (arith, enough)) (children-Ranks rank low high (x ∷ level) fs below bounded h) in
    ((x ∷ level) ++ ids, rw e refl)

rank_sum-bounds : (rank : ℕ → ℕ) (fs : List Folder) → All (λ f. rank f.id ≤ rank_sum rank fs) fs
unfolding rank_sum
rank_sum-bounds rank [] = tt
rank_sum-bounds rank (f ∷ fs) = (
  omega arith,
  All-map (λ g. rank g.id ≤ rank_sum rank fs) (λ g. rank g.id ≤ rank f.id + rank_sum rank fs) fs
      (λ g h. omega (arith, h)) (rank_sum-bounds rank fs),
)

rows-Ranks :
    (rank : ℕ → ℕ) (high id : ℕ) (fs : List Folder)
    → All (λ f. rank f.id ≤ high) fs
    → Ranks rank 0 high (map (λ f. f.id) (filter (λ (f : Folder). f.id == id) fs))
rows-Ranks rank high id [] h = tt
rows-Ranks rank high id (f ∷ fs) h = elim (Bool-cases (f.id == id)) [
  | inl row ↦ rw row ((omega arith, h.0), rows-Ranks rank high id fs h.1)
  | inr other ↦ rw other (rows-Ranks rank high id fs h.1)
]

-- On folders without a cycle the recursive query ends, for any folder, and its result is closed: every
-- child of a folder in it is in it too.
pub subtree-ends :
    (fs : List Folder) (id : ℕ)
    → IsAcyclic fs
    → (rounds : ℕ) × (ids : List ℕ) × (subtree rounds fs id ≡ some ids) × IsClosed ids fs
unfolding subtree
subtree-ends fs id (rank, below) =
    let high = rank_sum rank fs in
    let bounded = rank_sum-bounds rank fs in
    let level = map (λ f. f.id) (filter (λ (f : Folder). f.id == id) fs) in
    let (ids, e) =
      subtree_from-ends rank high fs below bounded (suc high) 0 level (omega arith)
        (rows-Ranks rank high id fs bounded) in
    (suc high, ids, e, (subtree_from-Collects (suc high) fs level ids e).closed)

row-listed :
    (id : ℕ) (fs : List Folder)
    → any (λ (f : Folder). f.id == id) fs ≡ true
    → mem id (map (λ f. f.id) (filter (λ (f : Folder). f.id == id) fs)) ≡ true
row-listed id [] h = h
row-listed id (f ∷ fs) h = ground (arith, row-listed id fs)

-- A folder that exists is in its own subtree, which is closed.
pub subtree-ok :
    (rounds : ℕ) (fs : List Folder) (id : ℕ) (ids : List ℕ)
    → subtree rounds fs id ≡ some ids
    → any (λ (f : Folder). f.id == id) fs ≡ true
    → (mem id ids ≡ true) × IsClosed ids fs
unfolding subtree
subtree-ok rounds fs id ids h row =
    let c = subtree_from-Collects rounds fs _ ids h in
    (c.includes id (row-listed id fs row), c.closed)
