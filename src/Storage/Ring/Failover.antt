-- ===== src/Storage/Ring/Failover.antt =====
-- Placement on the ring of backend/internal/storage/ring.go as its callers see it, and under the
-- failure of a node.
use nimbus_storage_platform.Base.{
  ℕ, zero, suc, ◌≤◌, ◌<◌, ◌≡◌, refl, sym, ◌∙◌, ap, Bool, true, false, not, ◌&&◌, List, [], ◌∷◌,
  arith, none, ltb, ◌==◌, length, mem, filter, take, length-take, All, Bool-cases, inl, inr,
}
use nimbus_storage_platform.Storage.Ring.{Ring, NodeId, Key, chunk_key, Placement, select_replicas}
use nimbus_storage_platform.Storage.Ring.Selection.{
  distinct, preference_list, placement_spec, select_replicas-eq-placement_spec,
  select_replicas-empty, ltb-length-take,
}

-- No node stands twice in the list, nor in `seen`.
abbrev pub IsFresh : List NodeId → List NodeId → Type 0
IsFresh seen [] = Unit {0}
IsFresh seen (x ∷ xs) = (mem x seen ≡ false) × IsFresh (x ∷ seen) xs

distinct-IsFresh : (seen xs : List NodeId) → IsFresh seen (distinct seen xs)
unfolding distinct
distinct-IsFresh seen [] = tt
distinct-IsFresh seen (x ∷ xs) = elim (Bool-cases (mem x seen)) [
  | inl old ↦ rw (old, distinct) (distinct-IsFresh seen xs)
  | inr new ↦ rw (new, distinct) (new, distinct-IsFresh (x ∷ seen) xs)
]

-- Fewer nodes seen.
abbrev Within : List NodeId → List NodeId → Type 0
Within s t = (y : NodeId) → mem y t ≡ false → mem y s ≡ false

Within-cons : (x : NodeId) (s t : List NodeId) → Within s t → Within (x ∷ s) (x ∷ t)
Within-cons x s t w y h = ground (arith, w y)

IsFresh-Within : (s t xs : List NodeId) → Within s t → IsFresh t xs → IsFresh s xs
IsFresh-Within s t [] w h = tt
IsFresh-Within s t (x ∷ xs) w h =
    (w x h.0, IsFresh-Within (x ∷ s) (x ∷ t) xs (Within-cons x s t w) h.1)

IsFresh-filter : (p : NodeId → Bool) (s xs : List NodeId) → IsFresh s xs → IsFresh s (filter p xs)
IsFresh-filter p s [] h = tt
IsFresh-filter p s (x ∷ xs) h = elim (Bool-cases (p x)) [
  | inl kept ↦ rw kept (h.0, IsFresh-filter p (x ∷ s) xs h.1)
  | inr dropped ↦ rw dropped (
      IsFresh-Within s (x ∷ s) (filter p xs) (λ y e. ground arith)
        (IsFresh-filter p (x ∷ s) xs h.1))
]

IsFresh-take : (n : ℕ) (s xs : List NodeId) → IsFresh s xs → IsFresh s (take n xs)
IsFresh-take zero s xs h = tt
IsFresh-take (suc n) s [] h = tt
IsFresh-take (suc n) s (x ∷ xs) h = (h.0, IsFresh-take n (x ∷ s) xs h.1)

All-take-filter :
    (p : NodeId → Bool) (n : ℕ) (xs : List NodeId) → All (λ x. p x ≡ true) (take n (filter p xs))
All-take-filter p zero xs = tt
All-take-filter p (suc n) [] = tt
All-take-filter p (suc n) (x ∷ xs) = elim (Bool-cases (p x)) [
  | inl kept ↦ rw kept (kept, All-take-filter p n xs)
  | inr dropped ↦ rw dropped (All-take-filter p (suc n) xs)
]

-- Sound for a request of n replicas under a health view.
pub record IsSound (is_healthy : NodeId → Bool) (n : ℕ) (p : Placement) : Type 0 where
  pub fresh : IsFresh [] p.nodes
  pub healthy : All (λ x. is_healthy x ≡ true) p.nodes
  pub bounded : length p.nodes ≤ n
  pub filled : p.error ≡ none → length p.nodes ≡ n

placement_spec-IsSound :
    (hash_key : Key → ℕ) (r : Ring) (chunk_hash n : ℕ) (is_healthy : NodeId → Bool)
    → IsSound is_healthy n (placement_spec hash_key r chunk_hash n is_healthy)
unfolding placement_spec preference_list
placement_spec-IsSound hash_key r chunk_hash n is_healthy =
    let nodes = preference_list r (hash_key (chunk_key chunk_hash)) in
    let len = length-take n (filter is_healthy nodes) in
    record {
      fresh =
          IsFresh-take n [] (filter is_healthy nodes)
            (IsFresh-filter is_healthy [] nodes (distinct-IsFresh [] _));
      healthy = All-take-filter is_healthy n nodes;
      bounded = omega (arith, len);
      filled = λ e. ground (arith, len);
    }

-- Whatever the ring and the health view, the nodes that `SelectReplicas` returns are pairwise
-- distinct, each of them healthy, and no more than n; without an error they are exactly n.
pub select_replicas-IsSound :
    (hash_key : Key → ℕ) (r : Ring) (chunk_hash n : ℕ) (is_healthy : NodeId → Bool)
    → IsSound is_healthy n (select_replicas hash_key r chunk_hash n is_healthy)
select_replicas-IsSound hash_key r chunk_hash n is_healthy =
    elim (Bool-cases (ltb 0 (length r.vnodes))) [
      | inl some_vnode ↦
          rw (select_replicas-eq-placement_spec hash_key r chunk_hash n is_healthy (ground arith))
            (placement_spec-IsSound hash_key r chunk_hash n is_healthy)
      | inr empty ↦
          rw (select_replicas-empty hash_key r chunk_hash n is_healthy (ground arith))
            (record { fresh = tt; healthy = tt; bounded = omega arith; filled = λ e. cc })
    ]

module _ (is_healthy : NodeId → Bool) (x : NodeId) where
  abbrev without : NodeId → Bool
  without y = is_healthy y && not (y == x)

  take-filter-without :
      (n : ℕ) (ys : List NodeId)
      → mem x (take n (filter is_healthy ys)) ≡ false
      → take n (filter without ys) ≡ take n (filter is_healthy ys)
  take-filter-without zero ys h = refl
  take-filter-without (suc n) [] h = refl
  take-filter-without (suc n) (y ∷ ys) h = elim (Bool-cases (is_healthy y)) [
    | inl up ↦
        let m : mem x (take (suc n) (y ∷ filter is_healthy ys)) ≡ false = rw up at h in
        let other : (y == x) ≡ false = ground arith in
        rw (up, other) (ap (◌∷◌ y) (take-filter-without n ys (ground arith)))
    | inr down ↦ rw down (take-filter-without (suc n) ys (rw down at h))
  ]

placement_spec_failover :
    (hash_key : Key → ℕ) (r : Ring) (chunk_hash n : ℕ) (is_healthy : NodeId → Bool) (x : NodeId)
    → mem x (placement_spec hash_key r chunk_hash n is_healthy).nodes ≡ false
    → placement_spec hash_key r chunk_hash n (without is_healthy x)
      ≡ placement_spec hash_key r chunk_hash n is_healthy
unfolding placement_spec
placement_spec_failover hash_key r chunk_hash n is_healthy x h =
    let nodes = preference_list r (hash_key (chunk_key chunk_hash)) in
    let same = take-filter-without is_healthy x n nodes h in
    let old = ltb-length-take n (filter is_healthy nodes) in
    let new = ltb-length-take n (filter (without is_healthy x) nodes) in rw (← new, same, old) refl

-- Failover moves nothing but what it must: when node x goes down, every chunk whose placement does
-- not use x keeps its placement, error included.
pub select_replicas_failover :
    (hash_key : Key → ℕ) (r : Ring) (chunk_hash n : ℕ) (is_healthy : NodeId → Bool) (x : NodeId)
    → mem x (select_replicas hash_key r chunk_hash n is_healthy).nodes ≡ false
    → select_replicas hash_key r chunk_hash n (λ y. is_healthy y && not (y == x))
      ≡ select_replicas hash_key r chunk_hash n is_healthy
select_replicas_failover hash_key r chunk_hash n is_healthy x h =
    elim (Bool-cases (ltb 0 (length r.vnodes))) [
      | inr empty ↦
          let e : length r.vnodes ≡ 0 = ground arith in
          select_replicas-empty hash_key r chunk_hash n _ e
          ∙ sym (select_replicas-empty hash_key r chunk_hash n _ e)
      | inl some_vnode ↦
          let pos : 0 < length r.vnodes = ground arith in
          let old = select_replicas-eq-placement_spec hash_key r chunk_hash n is_healthy pos in
          select_replicas-eq-placement_spec hash_key r chunk_hash n (without is_healthy x) pos
          ∙ placement_spec_failover hash_key r chunk_hash n is_healthy x (rw old at h)
          ∙ sym old
    ]
