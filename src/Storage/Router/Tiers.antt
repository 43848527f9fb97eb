-- ===== src/Storage/Router/Tiers.antt =====
-- Placement by `Resolve` of backend/internal/storage/router.go: its two latency tiers.
use nimbus_storage_platform.Base.{
  ℕ, ◌≤◌, ◌<◌, ◌≡◌, Bool, true, ◌&&◌, List, [], ◌∷◌, arith, none, inl, inr, ltb, length, take,
  filter, All, Bool-cases,
}
use nimbus_storage_platform.Storage.Ring.{Key, NodeId, Ring, chunk_key, select_replicas}
use nimbus_storage_platform.Storage.Ring.Selection.{
  preference_list, placement_spec, select_replicas-eq-placement_spec, select_replicas-empty,
}
use nimbus_storage_platform.Storage.Ring.Failover.{IsSound, select_replicas-IsSound}
use nimbus_storage_platform.Storage.Router.{Router, resolve, is_healthy, is_fast, succeeded}

is_fast→is_healthy : (rt : Router) (id : NodeId) → is_fast rt id ≡ true → is_healthy rt id ≡ true
unfolding is_fast
is_fast→is_healthy rt id h = ground arith

All-fast→healthy :
    (rt : Router) (xs : List NodeId)
    → All (λ x. is_fast rt x ≡ true) xs
    → All (λ x. is_healthy rt x ≡ true) xs
All-fast→healthy rt [] h = tt
All-fast→healthy rt (x ∷ xs) h = (is_fast→is_healthy rt x h.0, All-fast→healthy rt xs h.1)

-- Whichever tier `Resolve` answers from, the nodes are pairwise distinct, all marked healthy and at
-- most n, and without an error exactly n.
pub resolve-IsSound :
    (hash_key : Key → ℕ) (rt : Router) (chunk_hash n : ℕ)
    → IsSound (is_healthy rt) n (resolve hash_key rt chunk_hash n)
unfolding resolve
resolve-IsSound hash_key rt chunk_hash n =
    let fast = select_replicas hash_key rt.ring chunk_hash n (is_fast rt) in
    let s = select_replicas-IsSound hash_key rt.ring chunk_hash n (is_fast rt) in
    elim (Bool-cases (ltb 0 rt.slow_threshold && succeeded fast)) [
      | inl tier ↦ rw tier (record {
        fresh = s.fresh;
        healthy = All-fast→healthy rt fast.nodes s.healthy;
        bounded = s.bounded;
        filled = s.filled;
      })
      | inr fallback ↦
          rw fallback (select_replicas-IsSound hash_key rt.ring chunk_hash n (is_healthy rt))
    ]

length-filter_mono :
    (p q : NodeId → Bool) (xs : List NodeId)
    → ((x : NodeId) → p x ≡ true → q x ≡ true)
    → length (filter p xs) ≤ length (filter q xs)
length-filter_mono p q [] h = omega arith
length-filter_mono p q (x ∷ xs) h = ground (arith, h x, length-filter_mono p q xs h)

-- `SelectReplicas` cannot fail under a wider health view where it succeeds under a narrower one.
select_replicas_mono :
    (hash_key : Key → ℕ) (r : Ring) (chunk_hash n : ℕ) (p q : NodeId → Bool)
    → ((x : NodeId) → p x ≡ true → q x ≡ true)
    → (select_replicas hash_key r chunk_hash n p).error ≡ none
    → (select_replicas hash_key r chunk_hash n q).error ≡ none
unfolding placement_spec
select_replicas_mono hash_key r chunk_hash n p q h e = elim (Bool-cases (ltb 0 (length r.vnodes))) [
  | inr empty ↦ cc (rw (select_replicas-empty hash_key r chunk_hash n p (ground arith)) at e)
  | inl some_vnode ↦
      let pos : 0 < length r.vnodes = ground arith in
      let nodes = preference_list r (hash_key (chunk_key chunk_hash)) in
      let e' = rw (select_replicas-eq-placement_spec hash_key r chunk_hash n p pos) at e in
      rw (select_replicas-eq-placement_spec hash_key r chunk_hash n q pos)
        (ground (arith, length-filter_mono p q nodes h, e'))
]

-- The latency tier costs no availability: `Resolve` fails exactly when the healthy nodes alone are
-- too few, with the error that a placement without tiers gives.
pub resolve_error :
    (hash_key : Key → ℕ) (rt : Router) (chunk_hash n : ℕ)
    → (resolve hash_key rt chunk_hash n).error
      ≡ (select_replicas hash_key rt.ring chunk_hash n (is_healthy rt)).error
unfolding resolve
resolve_error hash_key rt chunk_hash n = ground (
  arith,
  select_replicas_mono hash_key rt.ring chunk_hash n (is_fast rt) (is_healthy rt)
      (is_fast→is_healthy rt),
)

-- A slow node is used only where the fast ones are too few: with a positive threshold and enough
-- fast nodes for n replicas, every node of the answer is fast.
pub resolve_prefers_fast :
    (hash_key : Key → ℕ) (rt : Router) (chunk_hash n : ℕ)
    → 0 < length rt.ring.vnodes
    → 0 < rt.slow_threshold
    → n ≤ length (filter (is_fast rt) (preference_list rt.ring (hash_key (chunk_key chunk_hash))))
    → (resolve hash_key rt chunk_hash n).nodes
      ≡ take n (filter (is_fast rt) (preference_list rt.ring (hash_key (chunk_key chunk_hash))))
unfolding resolve placement_spec
resolve_prefers_fast hash_key rt chunk_hash n pos slow enough =
    rw (select_replicas-eq-placement_spec hash_key rt.ring chunk_hash n (is_fast rt) pos)
      (ground arith)
