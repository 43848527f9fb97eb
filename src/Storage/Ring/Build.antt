-- ===== src/Storage/Ring/Build.antt =====
-- `BuildRing` of backend/internal/storage/ring.go: the order and the contents of the table.
use mathlib.Core.List.{Perm}
use mathlib.Core.List.Perm
use nimbus_storage_platform.Base.{ℕ, ◌≤◌, inl, inr, List, [], ◌∷◌, arith, ltb, All, Bool-cases}
use nimbus_storage_platform.Storage.Ring.{
  Vnode, NodeId, Key, insert_vnode, sort_vnodes, vnodes_of, build_ring,
}
use nimbus_storage_platform.Storage.Ring.Search.{IsSorted}

All-mono : (a b : ℕ) (vs : List Vnode) → a ≤ b → All (λ w. b ≤ w.hash) vs → All (λ w. a ≤ w.hash) vs
All-mono a b [] h p = tt
All-mono a b (v ∷ vs) h p = (omega arith, All-mono a b vs h p.1)

All-insert_vnode :
    (a : ℕ) (v : Vnode) (vs : List Vnode)
    → a ≤ v.hash
    → All (λ w. a ≤ w.hash) vs
    → All (λ w. a ≤ w.hash) (insert_vnode v vs)
unfolding insert_vnode
All-insert_vnode a v [] h p = (h, tt)
All-insert_vnode a v (w ∷ ws) h p = ground (arith, All-insert_vnode a v ws h p.1)

insert_vnode-IsSorted : (v : Vnode) (vs : List Vnode) → IsSorted vs → IsSorted (insert_vnode v vs)
unfolding insert_vnode
insert_vnode-IsSorted v [] s = (tt, tt)
insert_vnode-IsSorted v (w ∷ ws) s = elim (Bool-cases (ltb w.hash v.hash)) [
  | inl after ↦
      rw after (All-insert_vnode w.hash v ws (ground arith) s.0, insert_vnode-IsSorted v ws s.1)
  | inr first ↦ rw first ((ground arith, All-mono v.hash w.hash ws (ground arith) s.0), s)
]

pub sort_vnodes-IsSorted : (vs : List Vnode) → IsSorted (sort_vnodes vs)
unfolding sort_vnodes
sort_vnodes-IsSorted [] = tt
sort_vnodes-IsSorted (v ∷ vs) = insert_vnode-IsSorted v _ (sort_vnodes-IsSorted vs)

insert_vnode-perm : (v : Vnode) (vs : List Vnode) → Perm (insert_vnode v vs) (v ∷ vs)
unfolding insert_vnode
insert_vnode-perm v [] = Perm.refl _
insert_vnode-perm v (w ∷ ws) = elim (Bool-cases (ltb w.hash v.hash)) [
  | inl after ↦ rw after (Perm.trans (Perm.cons w (insert_vnode-perm v ws)) (Perm.swap v w ws))
  | inr first ↦ rw first (Perm.refl _)
]

sort_vnodes-perm : (vs : List Vnode) → Perm (sort_vnodes vs) vs
unfolding sort_vnodes
sort_vnodes-perm [] = Perm.nil
sort_vnodes-perm (v ∷ vs) =
    Perm.trans (insert_vnode-perm v (sort_vnodes vs)) (Perm.cons v (sort_vnodes-perm vs))

-- A ring built from any nodes is in position order, and its table holds the virtual nodes of the
-- given nodes and nothing else, each as often as it was made.
pub build_ring-IsSorted :
    (hash_key : Key → ℕ) (ids : List NodeId)
    → IsSorted (build_ring hash_key ids).vnodes
      × Perm (build_ring hash_key ids).vnodes (vnodes_of hash_key ids)
unfolding build_ring
build_ring-IsSorted hash_key ids =
    (sort_vnodes-IsSorted (vnodes_of hash_key ids), sort_vnodes-perm (vnodes_of hash_key ids))
