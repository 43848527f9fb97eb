-- ===== src/Storage/Ring/Selection.antt =====
-- `Ring.SelectReplicas` of backend/internal/storage/ring.go against its specification: the healthy
-- nodes of the preference list, in its order, as many as were asked for.
use native.Mathlib.Nat.{add-zero}
use mathlib.Core.List.{append-nil, append_assoc}
use nimbus_storage_platform.Base.{
  ℕ, zero, suc, ◌+◌, ◌-◌, ◌%◌, ◌≤◌, ◌<◌, ◌≡◌, refl, sym, ap, ◌∙◌, Bool, true, false, List, [], ◌∷◌,
  ◌++◌, map, inl, inr, arith, none, some, if◌then◌else◌, ltb, length, get_elem?, mem, filter, take,
  rotate, get_elem?-rotate, length-rotate, Bool-cases, length-append, length-take,
}
use nimbus_storage_platform.Storage.Ring.Search.{search_index-lt-length}
use nimbus_storage_platform.Storage.Ring.{
  Vnode, Ring, NodeId, Key, chunk_key, Placement, walk, search_index, select_replicas,
  insufficient_healthy_nodes, no_nodes,
}

-- The nodes of a list in order, each at its first place, without those already seen.
unfoldable pub distinct : List NodeId → List NodeId → List NodeId
distinct seen [] = []
distinct seen (x ∷ xs) = elim (mem x seen) [
  | true ↦ distinct seen xs
  | false ↦ x ∷ distinct (x ∷ seen) xs
]

-- The nodes met on a walk of the whole ring, clockwise from a position.
unfoldable pub preference_list : Ring → ℕ → List NodeId
unfolding distinct
preference_list r h = distinct [] (map (λ v. v.node) (rotate (search_index r h) r.vnodes))

length-snoc : (xs : List NodeId) (x : NodeId) → length (xs ++ x ∷ []) ≡ suc (length xs)
length-snoc xs x = omega (arith, length-append xs (x ∷ []))

take-snoc :
    (n : ℕ) (out : List NodeId) (x : NodeId) (ys : List NodeId)
    → length out < n
    → out ++ take (n - length out) (x ∷ ys)
      ≡ (out ++ x ∷ []) ++ take (n - length (out ++ x ∷ [])) ys
take-snoc n out x ys h =
    let k = n - suc (length out) in
    let e : n - length out ≡ suc k = omega arith in
    let f : n - length (out ++ x ∷ []) ≡ k = omega (arith, length-snoc out x) in
    rw (e, f, append_assoc) refl

take-none : (n : ℕ) (out : List NodeId) → out ++ take (n - length out) [] ≡ out
take-none n out = go (n - length out)
  where
    go : (k : ℕ) → out ++ take k [] ≡ out
    go zero = append-nil out
    go (suc k) = append-nil out

take-full : (n : ℕ) (out ys : List NodeId) → n ≤ length out → out ++ take (n - length out) ys ≡ out
take-full n out ys h = let e : n - length out ≡ 0 = omega arith in rw e (append-nil out)

module _ (is_healthy : NodeId → Bool) (n : ℕ) (vs : List Vnode) (start : ℕ) where
  abbrev IsRead : ℕ → List Vnode → Type 0
  IsRead i rest =
      (k : ℕ) → k < length rest → get_elem? vs ((start + i + k) % length vs) ≡ get_elem? rest k

  IsRead-next : (i : ℕ) (v : Vnode) (rest : List Vnode) → IsRead i (v ∷ rest) → IsRead (i + 1) rest
  IsRead-next i v rest h k p =
      let e : start + (i + 1) + k ≡ start + i + suc k = omega arith in
      rw e (h (suc k) (omega arith))

  IsRead-here :
      (i : ℕ) (v : Vnode) (rest : List Vnode)
      → IsRead i (v ∷ rest)
      → get_elem? vs ((start + i) % length vs) ≡ some v
  IsRead-here i v rest h =
      let e : start + i ≡ start + i + 0 = omega arith in rw e (h 0 (omega arith))

  -- The rest of the walk adds the fresh healthy nodes of the vnodes still ahead.
  walk_lem :
      (rest : List Vnode) (i : ℕ) (seen out : List NodeId)
      → IsRead i rest
      → length out ≤ n
      → walk is_healthy n vs start (length rest) i seen out
        ≡ out ++ take (n - length out) (filter is_healthy (distinct seen (map (λ v. v.node) rest)))
  unfolding walk distinct
  walk_lem [] i seen out h p = sym (take-none n out)
  walk_lem (v ∷ rest) i seen out h p = elim (Bool-cases (ltb (length out) n)) [
    | inr full ↦ rw (full, walk) (sym (take-full n out _ (ground arith)))
    | inl room ↦ elim (Bool-cases (mem v.node seen)) [
      | inl old ↦
          rw (room, IsRead-here i v rest h, old, walk, distinct)
            (walk_lem rest (i + 1) seen out (IsRead-next i v rest h) p)
      | inr new ↦ elim (Bool-cases (is_healthy v.node)) [
        | inl up ↦
            rw (room, IsRead-here i v rest h, new, up, walk, distinct)
              (walk_lem rest (i + 1) (v.node ∷ seen) (out ++ v.node ∷ []) (IsRead-next i v rest h)
                  (ground (arith, length-snoc out v.node))
                ∙ sym (
                    take-snoc n out v.node
                      (filter is_healthy (distinct (v.node ∷ seen) (map (λ w. w.node) rest)))
                      (ground arith)))
        | inr down ↦
            rw (room, IsRead-here i v rest h, new, down, walk, distinct)
              (walk_lem rest (i + 1) (v.node ∷ seen) out (IsRead-next i v rest h) p)
      ]
    ]
  ]

-- On an empty ring nothing is chosen.
pub select_replicas-empty :
    (hash_key : Key → ℕ) (r : Ring) (chunk_hash n : ℕ) (is_healthy : NodeId → Bool)
    → length r.vnodes ≡ 0
    → select_replicas hash_key r chunk_hash n is_healthy
      ≡ record { nodes = []; error = some no_nodes }
unfolding select_replicas
select_replicas-empty hash_key r chunk_hash n is_healthy e = rw e refl

-- What `SelectReplicas` is to return on a ring with some vnode: the first n healthy nodes of the
-- chunk's preference list, with an error exactly when there are fewer.
unfoldable pub placement_spec : (Key → ℕ) → Ring → ℕ → ℕ → (NodeId → Bool) → Placement
placement_spec hash_key r chunk_hash n is_healthy =
    let up = filter is_healthy (preference_list r (hash_key (chunk_key chunk_hash))) in
    record {
      nodes = take n up;
      error = if ltb (length up) n then some insufficient_healthy_nodes else none;
    }

pub ltb-length-take : (n : ℕ) (xs : List NodeId) → ltb (length (take n xs)) n ≡ ltb (length xs) n
ltb-length-take n xs = ground (arith, length-take n xs)

walk-eq-take :
    (is_healthy : NodeId → Bool) (n : ℕ) (r : Ring) (h : ℕ)
    → 0 < length r.vnodes
    → walk is_healthy n r.vnodes (search_index r h) (length r.vnodes) 0 [] []
      ≡ take n (filter is_healthy (preference_list r h))
unfolding preference_list
walk-eq-take is_healthy n r h pos =
    let s = search_index r h in
    let lt = search_index-lt-length r h pos in
    let len = length-rotate s r.vnodes (omega (arith, lt)) in
    let read : IsRead is_healthy n r.vnodes s 0 (rotate s r.vnodes) =
      λ k p. get_elem?-rotate-at s k lt (omega (arith, len)) in
    rw (← len) (
      walk_lem is_healthy n r.vnodes s (rotate s r.vnodes) 0 [] [] read (omega arith)
      ∙ ap (λ k. take k (filter is_healthy (preference_list r h))) (omega arith))
  where
    get_elem?-rotate-at :
        (s k : ℕ)
        → s < length r.vnodes
        → k < length r.vnodes
        → get_elem? r.vnodes ((s + 0 + k) % length r.vnodes) ≡ get_elem? (rotate s r.vnodes) k
    get_elem?-rotate-at s k p q = rw add-zero (get_elem?-rotate r.vnodes s k p q)

-- On any ring with a vnode, `SelectReplicas` returns the first n healthy nodes of the preference
-- list in its order, and `ErrInsufficientHealthyNodes` beside them exactly when the list has fewer
-- than n healthy nodes.
pub select_replicas-eq-placement_spec :
    (hash_key : Key → ℕ) (r : Ring) (chunk_hash n : ℕ) (is_healthy : NodeId → Bool)
    → 0 < length r.vnodes
    → select_replicas hash_key r chunk_hash n is_healthy
      ≡ placement_spec hash_key r chunk_hash n is_healthy
unfolding select_replicas placement_spec
select_replicas-eq-placement_spec hash_key r chunk_hash n is_healthy pos =
    let h = hash_key (chunk_key chunk_hash) in
    rw (walk-eq-take is_healthy n r h pos)
      (ground (arith, length-take n (filter is_healthy (preference_list r h))))
