-- ===== src/Folder/Moves.antt =====
-- `Update` of backend/internal/folder/service.go: the shape of the tree under renames and moves.
use nimbus_storage_platform.Base.{
  ℕ, suc, ◌+◌, ◌≡◌, ◌⊎◌, sym, ap, ◌∙◌, true, false, not, ◌&&◌, Option, none, some, List, [], ◌∷◌,
  map, arith, ◌==◌, any, find?, mem, All, Bool-cases, inl, inr, if◌then◌else◌,
}
use nimbus_storage_platform.Database.Actions.{ok}
use nimbus_storage_platform.Database.Results.{chain-ok, rejected-ok, ok-injective}
use nimbus_storage_platform.Folder.{
  Folder, Tree, subtree, is_live_folder, or_keep, update_row, update_folder, get_folder, checked,
  check_move, check_target, move_folder, check_parent, is_self_or_descendant, cyclic_move,
  invalid_parent, name_conflict, is_absent, has_clash, is_known_parent,
}
use nimbus_storage_platform.Folder.Subtree.{IsBelow, IsAcyclic, IsClosed, subtree-ok}

-- The ranks after a move: the subtree is lifted above the target.
abbrev lifted : (ℕ → ℕ) → List ℕ → ℕ → ℕ → ℕ
lifted rank ids target x = if mem x ids then rank x + suc (rank target) else rank x

lifted-kept :
    (rank : ℕ → ℕ) (ids : List ℕ) (target id : ℕ) (parent : Option ℕ)
    → (elim parent [ none ↦ false | some p ↦ mem p ids ] ≡ true → mem id ids ≡ true)
    → IsBelow rank parent id
    → IsBelow (lifted rank ids target) parent id
lifted-kept rank ids target id none closed below = tt
lifted-kept rank ids target id (some p) closed below = elim (Bool-cases (mem p ids)) [
  | inl inside ↦ rw (inside, closed inside) (omega (arith, below))
  | inr outside ↦ rw outside (ground (arith, below))
]

lifted-moved :
    (rank : ℕ → ℕ) (ids : List ℕ) (target id : ℕ)
    → mem id ids ≡ true
    → mem target ids ≡ false
    → IsBelow (lifted rank ids target) (some target) id
lifted-moved rank ids target id inside outside = rw (inside, outside) (omega arith)

module _ (rank : ℕ → ℕ) (ids : List ℕ) (now current : ℕ) (name : Option ℕ) where
  moved-IsBelow :
      (target : ℕ) (fs : List Folder)
      → mem current ids ≡ true
      → mem target ids ≡ false
      → IsClosed ids fs
      → All (λ f. IsBelow rank f.parent_id f.id) fs
      → All
          (λ f. IsBelow (lifted rank ids target) f.parent_id f.id)
          (map (update_row current now name (some (some target))) fs)
  unfolding update_row
  moved-IsBelow target [] inside outside closed below = tt
  moved-IsBelow target (f ∷ fs) inside outside closed below =
      let rest = moved-IsBelow target fs inside outside closed.1 below.1 in
      elim (Bool-cases (is_live_folder current f)) [
        | inr other ↦ rw other (lifted-kept rank ids target f.id f.parent_id closed.0 below.0, rest)
        | inl row ↦
            let e : current ≡ f.id = ground arith in
            let here = ap (λ x. mem x ids) (sym e) ∙ inside in
            rw row (lifted-moved rank ids target f.id here outside, rest)
      ]

  rooted-IsBelow :
      (fs : List Folder)
      → All (λ f. IsBelow rank f.parent_id f.id) fs
      → All (λ f. IsBelow rank f.parent_id f.id) (map (update_row current now name (some none)) fs)
  unfolding update_row
  rooted-IsBelow [] below = tt
  rooted-IsBelow (f ∷ fs) below = elim (Bool-cases (is_live_folder current f)) [
    | inr other ↦ rw other (below.0, rooted-IsBelow fs below.1)
    | inl row ↦ rw row (tt, rooted-IsBelow fs below.1)
  ]

  renamed-IsBelow :
      (fs : List Folder)
      → All (λ f. IsBelow rank f.parent_id f.id) fs
      → All (λ f. IsBelow rank f.parent_id f.id) (map (update_row current now name none) fs)
  unfolding update_row
  renamed-IsBelow [] below = tt
  renamed-IsBelow (f ∷ fs) below = elim (Bool-cases (is_live_folder current f)) [
    | inr other ↦ rw other (below.0, renamed-IsBelow fs below.1)
    | inl row ↦ rw row (below.0, renamed-IsBelow fs below.1)
  ]

live-exists :
    (id : ℕ) (fs : List Folder) (f : Folder)
    → find? (is_live_folder id) fs ≡ some f
    → any (λ (g : Folder). g.id == id) fs ≡ true
live-exists id [] f h = cc
live-exists id (g ∷ gs) f h = ground (arith, live-exists id gs f)

checked-ok :
    (lower : ℕ → ℕ) (parent : Option ℕ) (rows : List Folder) (t t' : Tree)
    → checked lower parent rows t ≡ ok t'
    → t'.folders ≡ rows
unfolding checked
checked-ok lower parent rows t t' h =
    let (known, rest) = rejected-ok (not (is_known_parent parent t.folders)) invalid_parent _ h in
    let (clear, last) = rejected-ok (has_clash lower rows) name_conflict _ rest in
    ap (λ (x : Tree). x.folders) (sym (ok-injective last))

get_folder-ok :
    (id : ℕ) (t : Tree) (f : Folder)
    → get_folder id t ≡ ok f
    → any (λ (g : Folder). g.id == id) t.folders ≡ true
unfolding get_folder
get_folder-ok id t f h = live-exists id t.folders f (ground arith)

-- An accepted update left the rows as they were, or updated the one row.
update_folder-ok :
    (lower : ℕ → ℕ) (now id : ℕ) (name : Option ℕ) (parent : Option (Option ℕ)) (t t' : Tree)
    → update_folder lower now id name parent t ≡ ok t'
    → (any (λ (g : Folder). g.id == id) t.folders ≡ true)
      × ((t'.folders ≡ t.folders) ⊎ (t'.folders ≡ map (update_row id now name parent) t.folders))
unfolding update_folder
update_folder-ok lower now id name parent t t' h =
    let (f, found, rest) = chain-ok (get_folder id t) _ h in
    (
      get_folder-ok id t f found,
      elim (Bool-cases (is_absent name && is_absent parent)) [
        | inl nothing ↦ inl (ap (λ (x : Tree). x.folders) (sym (ok-injective (rw nothing at rest))))
        | inr something ↦ inr (checked-ok lower (or_keep parent none) _ t t' (rw something at rest))
      ],
    )

check_move-ok :
    (rounds : ℕ) (current : Folder) (target : ℕ) (t : Tree)
    → check_move rounds current target t ≡ ok tt
    → (ids : List ℕ) × (subtree rounds t.folders current.id ≡ some ids) × (mem target ids ≡ false)
unfolding check_move is_self_or_descendant
check_move-ok rounds current target t h =
    let (other, h₁) = rejected-ok (target == current.id) cyclic_move _ h in
    let (_, parent, h₂) = chain-ok (check_parent current.org_id target t) _ h₁ in ground arith

-- Folders without a cycle stay so: whatever rename or move is accepted, whether under another folder,
-- to the root or in place.
pub move_folder-IsAcyclic :
    (rounds : ℕ) (lower : ℕ → ℕ) (now : ℕ) (current : Folder) (name : Option ℕ)
    (parent : Option (Option ℕ)) (t t' : Tree)
    → move_folder rounds lower now current name parent t ≡ ok t'
    → IsAcyclic t.folders
    → IsAcyclic t'.folders
unfolding move_folder
move_folder-IsAcyclic rounds lower now current name parent t t' h acyclic =
    let (_, allowed, written) = chain-ok (check_target rounds current parent t) _ h in
    let (exists, change) = update_folder-ok lower now current.id name parent t t' written in
    elim change [ inl same ↦ rw same acyclic | inr rows ↦ rw rows (moved parent exists allowed) ]
  where
    moved :
        (parent : Option (Option ℕ))
        → any (λ (g : Folder). g.id == current.id) t.folders ≡ true
        → check_target rounds current parent t ≡ ok tt
        → IsAcyclic (map (update_row current.id now name parent) t.folders)
    moved none exists allowed =
        (acyclic.0, renamed-IsBelow acyclic.0 [] now current.id name t.folders acyclic.1)
    moved (some none) exists allowed =
        (acyclic.0, rooted-IsBelow acyclic.0 [] now current.id name t.folders acyclic.1)
    moved (some (some target)) exists allowed =
        let (ids, found, outside) = check_move-ok rounds current target t allowed in
        let (inside, closed) = subtree-ok rounds t.folders current.id ids found exists in
        (
          lifted acyclic.0 ids target,
          moved-IsBelow acyclic.0 ids now current.id name target t.folders inside outside closed
              acyclic.1,
        )
