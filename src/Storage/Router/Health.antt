-- ===== src/Storage/Router/Health.antt =====
-- The health view that the probes of backend/internal/storage/router.go keep, over any history of
-- probes of the configured nodes.
use nimbus_storage_platform.Base.{
  ℕ, ◌≡◌, refl, ap, Bool, true, not, List, [], ◌∷◌, ◌⊎◌, inl, inr, arith, map, Option, none, some,
  if◌then◌else◌, ◌==◌, leb, mem, All, lookup, insert, lookup-insert, Bool-cases,
}
use nimbus_storage_platform.Storage.Ring.{Key, NodeId}
use nimbus_storage_platform.Storage.Breaker.{new_breaker, probe, is_open, failure_threshold}
use nimbus_storage_platform.Storage.Breaker.History.{after, trailing_failures, is_open-after}
use nimbus_storage_platform.Storage.Router.{
  Router, StorageNode, healthy, built, register_nodes, new_router, is_healthy, probe_one, status_of,
  register, record_latency,
}

-- One answered probe: when, of which node, whether it was up and how long it took.
pub record Probe : Type 0 where
  pub now : ℕ
  pub id : NodeId
  pub ok : Bool
  pub rtt : ℕ

abbrev pub keep_router {ℓ} : {E : Type ℓ} → Option (Router × E) → Option Router
keep_router none = none
keep_router (some (rt, _)) = some rt

abbrev pub then_probe : (ℕ → ℕ → ℕ) → Probe → Option Router → Option Router
then_probe blend p none = none
then_probe blend p (some rt) = keep_router (probe_one blend p.now p.id p.ok p.rtt rt)

-- The router after a history of probes, the newest first; `none` is a nil pointer on the way.
unfoldable pub run_probes : (ℕ → ℕ → ℕ) → List Probe → Router → Option Router
run_probes blend [] rt = some rt
run_probes blend (p ∷ history) rt = then_probe blend p (run_probes blend history rt)

-- The outcomes of one node's probes, the newest first.
unfoldable pub outcomes : NodeId → List Probe → List Bool
outcomes id [] = []
outcomes id (p ∷ history) = if p.id == id then p.ok ∷ outcomes id history else outcomes id history

abbrev pub node_ids : List StorageNode → List NodeId
node_ids = map (λ n. n.id)

-- The entries of a node that has not been probed.
abbrev IsRegistered : NodeId → Router → Type 0
IsRegistered id rt =
    (lookup id rt.breakers ≡ some new_breaker) × (lookup id rt.health ≡ some healthy)

register-IsRegistered :
    (n : StorageNode) (ns : List StorageNode) (rt : Router) (id : NodeId)
    → (mem id (node_ids (n ∷ ns)) ≡ true) ⊎ IsRegistered id rt
    → (mem id (node_ids ns) ≡ true) ⊎ IsRegistered id (register n rt)
unfolding register
register-IsRegistered n ns rt id h =
    ground (
      arith,
      lookup-insert n.id id new_breaker rt.breakers,
      lookup-insert n.id id healthy rt.health,
    )

register_nodes-IsRegistered :
    (client_ok : ℕ → Bool) (ns : List StorageNode) (rt rt' : Router) (id : NodeId)
    → (mem id (node_ids ns) ≡ true) ⊎ IsRegistered id rt
    → register_nodes client_ok ns rt ≡ built rt'
    → IsRegistered id rt'
unfolding register_nodes
register_nodes-IsRegistered client_ok [] rt rt' id h e = ground arith
register_nodes-IsRegistered client_ok (n ∷ ns) rt rt' id h e =
    register_nodes-IsRegistered client_ok ns (register n rt) rt' id
      (register-IsRegistered n ns rt id h) (ground arith)

-- What the router remembers of a node after a history.
abbrev Tracks : List NodeId → List Probe → Router → Type 0
Tracks ids history rt =
    (id : NodeId)
    → mem id ids ≡ true
    → (lookup id rt.breakers ≡ some (after (outcomes id history)))
      × (lookup id rt.health ≡ some (status_of (after (outcomes id history))))

-- A node's entries once the outcome of p is stored, whether p was a probe of that node or not.
stored :
    (p : Probe) (history : List Probe) (rt : Router) (id : NodeId)
    → (lookup id rt.breakers ≡ some (after (outcomes id history)))
      × (lookup id rt.health ≡ some (status_of (after (outcomes id history))))
    → let b' = (probe p.ok (after (outcomes p.id history))).0 in
      (lookup id (insert p.id b' rt.breakers) ≡ some (after (outcomes id (p ∷ history))))
      × (lookup id (insert p.id (status_of b') rt.health)
          ≡ some (status_of (after (outcomes id (p ∷ history)))))
unfolding outcomes after
stored p history rt id t =
    let b' = (probe p.ok (after (outcomes p.id history))).0 in
    let breakers = lookup-insert p.id id b' rt.breakers in
    let statuses = lookup-insert p.id id (status_of b') rt.health in
    elim (Bool-cases (p.id == id)) [
      | inl same ↦
          let e : p.id ≡ id = ground arith in
          let next = λ (x : NodeId). (probe p.ok (after (outcomes x history))).0 in
          rw (breakers, statuses, same)
            (ap (λ x. some (next x)) e, ap (λ x. some (status_of (next x))) e)
      | inr other ↦ rw (breakers, statuses, other) t
    ]

probe_one-Tracks :
    (blend : ℕ → ℕ → ℕ) (ids : List NodeId) (p : Probe) (history : List Probe) (rt : Router)
    → Tracks ids history rt
    → mem p.id ids ≡ true
    → (rt' : Router) × (keep_router (probe_one blend p.now p.id p.ok p.rtt rt) ≡ some rt')
      × Tracks ids (p ∷ history) rt'
unfolding probe_one
probe_one-Tracks blend ids p history rt t m =
    let known = t p.id m in
    let b = after (outcomes p.id history) in
    let b' = (probe p.ok b).0 in
    (
      record rt {
        latency_ewma =
            if p.ok then record_latency blend p.id p.rtt rt.latency_ewma else rt.latency_ewma;
        breakers = insert p.id b' rt.breakers;
        health = insert p.id (status_of b') rt.health;
      },
      rw (known.0, probe_one) refl,
      λ id mi. stored p history rt id (t id mi),
    )

run_probes-Tracks :
    (blend : ℕ → ℕ → ℕ) (ids : List NodeId) (history : List Probe) (rt : Router)
    → Tracks ids [] rt
    → All (λ p. mem p.id ids ≡ true) history
    → (rt' : Router) × (run_probes blend history rt ≡ some rt') × Tracks ids history rt'
unfolding run_probes
run_probes-Tracks blend ids [] rt t m = (rt, refl, t)
run_probes-Tracks blend ids (p ∷ history) rt t m =
    let (mid, e, tm) = run_probes-Tracks blend ids history rt t m.1 in
    let (rt', e', t') = probe_one-Tracks blend ids p history mid tm m.0 in (rt', rw e e', t')

-- From `NewRouter`, after any history of probes of the configured nodes: no probe meets a node
-- without a breaker, and a configured node is unhealthy exactly when its last three probes, or
-- more, have all failed.
pub run_probes-health :
    (hash_key : Key → ℕ) (client_ok : ℕ → Bool) (nodes : List StorageNode) (slow : ℕ) (rt : Router)
    (blend : ℕ → ℕ → ℕ) (history : List Probe)
    → new_router hash_key client_ok nodes slow ≡ built rt
    → All (λ p. mem p.id (node_ids nodes) ≡ true) history
    → (rt' : Router) × (run_probes blend history rt ≡ some rt')
      × ((id : NodeId)
          → mem id (node_ids nodes) ≡ true
          → is_healthy rt' id
            ≡ not (leb failure_threshold (trailing_failures (outcomes id history))))
unfolding new_router outcomes after is_open new_breaker is_healthy
run_probes-health hash_key client_ok nodes slow rt blend history b m =
    let (rt', e, t) = run_probes-Tracks blend (node_ids nodes) history rt fresh m in
    (rt', e, λ id mi. reported rt' id (outcomes id history) (t id mi).1)
  where
    fresh : Tracks (node_ids nodes) [] rt
    fresh id mi = register_nodes-IsRegistered client_ok nodes _ rt id (inl mi) b

    reported :
        (rt' : Router) (id : NodeId) (history : List Bool)
        → lookup id rt'.health ≡ some (status_of (after history))
        → is_healthy rt' id ≡ not (leb failure_threshold (trailing_failures history))
    reported rt' id history e = ground (arith, is_open-after history)
