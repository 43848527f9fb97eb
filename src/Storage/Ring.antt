-- ===== src/Storage/Ring.antt =====
-- backend/internal/storage/ring.go: the consistent-hash ring and replica selection.
-- Node identifiers and chunk hashes are strings that the code only compares; they are numbers here.
-- SHA-1 truncated to uint32 is the parameter `hash_key`, over the two kinds of strings it is given.
pub mod Search
pub mod Build
pub mod Selection
pub mod Failover
use nimbus_storage_platform.Base.{
  ℕ, zero, suc, ◌+◌, ◌/◌, ◌%◌, ◌≡◌, Bool, true, false, Option, none, some, List, [], ◌∷◌, ◌++◌,
  if◌then◌else◌, ltb, leb, ◌==◌, length, get_elem?, mem, not, ◌&&◌,
}

abbrev pub NodeId : Type 0
NodeId = ℕ

-- What is hashed: "<id>#<i>" for the i-th virtual node of a node, or a chunk's hash.
pub data Key : Type 0 where
  vnode_key : NodeId → ℕ → Key
  chunk_key : ℕ → Key

abbrev pub virtual_nodes_per_physical : ℕ
virtual_nodes_per_physical = 128

pub record Vnode : Type 0 where
  pub hash : ℕ
  pub node : NodeId

pub record Ring : Type 0 where
  pub vnodes : List Vnode

-- The inner loop of `BuildRing`, from index i for k more rounds.
unfoldable pub vnodes_from : (Key → ℕ) → NodeId → ℕ → ℕ → List Vnode
vnodes_from hash_key id i zero = []
vnodes_from hash_key id i (suc k) =
    record { hash = hash_key (vnode_key id i); node = id } ∷ vnodes_from hash_key id (i + 1) k

unfoldable pub vnodes_of : (Key → ℕ) → List NodeId → List Vnode
unfolding vnodes_from
vnodes_of hash_key [] = []
vnodes_of hash_key (id ∷ ids) =
    vnodes_from hash_key id 0 virtual_nodes_per_physical ++ vnodes_of hash_key ids

-- sort.Slice by hash. It promises a sorted permutation and no order among equal hashes; insertion
-- is one such sort.
unfoldable pub insert_vnode : Vnode → List Vnode → List Vnode
insert_vnode v [] = v ∷ []
insert_vnode v (w ∷ ws) = if ltb w.hash v.hash then w ∷ insert_vnode v ws else v ∷ w ∷ ws

unfoldable pub sort_vnodes : List Vnode → List Vnode
unfolding insert_vnode
sort_vnodes [] = []
sort_vnodes (v ∷ vs) = insert_vnode v (sort_vnodes vs)

unfoldable pub build_ring : (Key → ℕ) → List NodeId → Ring
unfolding sort_vnodes vnodes_of
build_ring hash_key ids = record { vnodes = sort_vnodes (vnodes_of hash_key ids) }

-- The test `r.vnodes[i].hash >= h` that the binary search makes, always at an index in range.
abbrev pub at_or_after : List Vnode → ℕ → ℕ → Bool
at_or_after vs h i = elim (get_elem? vs i) [ none ↦ false | some v ↦ leb h v.hash ]

-- sort.Search: the binary search of the standard library between i and j, with fuel for its rounds.
unfoldable pub search_between : (ℕ → Bool) → ℕ → ℕ → ℕ → ℕ
search_between f zero i j = i
search_between f (suc fuel) i j =
    let mid = (i + j) / 2 in
    let upper = search_between f fuel (mid + 1) j in
    let lower = search_between f fuel i mid in
    if ltb i j then (if f mid then lower else upper) else i

unfoldable pub sort_search : ℕ → (ℕ → Bool) → ℕ
unfolding search_between
sort_search n f = search_between f n 0 n

-- `Ring.search`: the first vnode at or after h, wrapping to 0.
unfoldable pub search_index : Ring → ℕ → ℕ
unfolding sort_search
search_index r h =
    let idx = sort_search (length r.vnodes) (at_or_after r.vnodes h) in
    if idx == length r.vnodes then 0 else idx

pub data PlacementError : Type 0 where
  no_nodes insufficient_healthy_nodes : PlacementError

-- Go's ([]NodeID, error): both parts are returned together.
pub record Placement : Type 0 where
  pub nodes : List NodeId
  pub error : Option PlacementError

-- The loop of `SelectReplicas` at index i, for `rounds` more rounds. The index is always in range.
unfoldable pub walk :
    (NodeId → Bool) → ℕ → List Vnode → ℕ → ℕ → ℕ → List NodeId → List NodeId → List NodeId
walk is_healthy n vs start zero i seen out = out
walk is_healthy n vs start (suc rounds) i seen out =
    if ltb (length out) n
    then elim (get_elem? vs ((start + i) % length vs)) [
      | none ↦ out
      | some vn ↦
          walk is_healthy n vs start rounds (i + 1)
            (if mem vn.node seen then seen else vn.node ∷ seen)
            (if not (mem vn.node seen) && is_healthy vn.node then out ++ vn.node ∷ [] else out)
    ]
    else out

unfoldable pub select_replicas : (Key → ℕ) → Ring → ℕ → ℕ → (NodeId → Bool) → Placement
select_replicas hash_key r chunk_hash n is_healthy =
    let start = search_index r (hash_key (chunk_key chunk_hash)) in
    let out = walk is_healthy n r.vnodes start (length r.vnodes) 0 [] [] in
    if length r.vnodes == 0
    then record { nodes = []; error = some no_nodes }
    else if ltb (length out) n
    then record { nodes = out; error = some insufficient_healthy_nodes }
    else record { nodes = out; error = none }
