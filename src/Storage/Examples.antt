-- ===== src/Storage/Examples.antt =====
-- Concrete runs of backend/internal/storage: a ring of three nodes, a router over it and a history
-- of probes.
use nimbus_storage_platform.Base.{
  ℕ, ◌+◌, ◌*◌, ◌≤◌, ◌≡◌, refl, Bool, true, false, not, ◌&&◌, none, some, List, [], ◌∷◌, arith, ◌==◌,
  leb, mem, length, filter, insert,
}
use nimbus_storage_platform.Storage.Ring.{
  Key, NodeId, vnode_key, chunk_key, Vnode, Ring, build_ring, search_index, select_replicas, walk,
}
use nimbus_storage_platform.Storage.Ring.Search.{
  IsSorted, first_at_or_after, search_index-eq-first_at_or_after,
}
use nimbus_storage_platform.Storage.Ring.Selection.{
  preference_list, placement_spec, select_replicas-eq-placement_spec,
}
use nimbus_storage_platform.Storage.Ring.Failover.{select_replicas_failover}
use nimbus_storage_platform.Storage.Breaker.{is_open, failure_threshold, closed, new_breaker}
use nimbus_storage_platform.Storage.Breaker.History.{after, trailing_failures, is_open-after}
use nimbus_storage_platform.Storage.Router.{
  Router, StorageNode, built, new_router, is_healthy, is_fast, resolve, healthy,
}
use nimbus_storage_platform.Storage.Router.Health.{
  Probe, run_probes, outcomes, node_ids, run_probes-health,
}

abbrev small_hash : Key → ℕ
small_hash (vnode_key id i) = 10 * id + i
small_hash (chunk_key hash) = hash

abbrev at : ℕ → NodeId → Vnode
at hash node = record { hash = hash; node = node }

abbrev three_nodes : Ring
three_nodes = record { vnodes = at 10 1 ∷ at 20 2 ∷ at 30 1 ∷ at 40 3 ∷ [] }

three_nodes-IsSorted : IsSorted three_nodes.vnodes
three_nodes-IsSorted = (
  (omega arith, (omega arith, (omega arith, tt))),
  ((omega arith, (omega arith, tt)), ((omega arith, tt), (tt, tt))),
)

search_index-eq-first_at_or_after_example :
    search_index three_nodes 25 ≡ first_at_or_after three_nodes.vnodes 25
search_index-eq-first_at_or_after_example =
    search_index-eq-first_at_or_after three_nodes 25 three_nodes-IsSorted

search_25 : search_index three_nodes 25 ≡ 2
unfolding search_index
search_25 = refl

search_past_the_end : search_index three_nodes 41 ≡ 0
unfolding search_index
search_past_the_end = refl

abbrev not_two : NodeId → Bool
not_two id = not (id == 2)

select_replicas-eq-placement_spec_example :
    select_replicas small_hash three_nodes 15 2 not_two
    ≡ placement_spec small_hash three_nodes 15 2 not_two
select_replicas-eq-placement_spec_example =
    select_replicas-eq-placement_spec small_hash three_nodes 15 2 not_two (omega arith)

select_around_two :
    select_replicas small_hash three_nodes 15 2 not_two
    ≡ record { nodes = 1 ∷ 3 ∷ []; error = none }
unfolding select_replicas search_index walk
select_around_two = refl

three_unused : mem 3 (select_replicas small_hash three_nodes 15 1 not_two).nodes ≡ false
unfolding select_replicas search_index walk
three_unused = refl

select_replicas_failover_example :
    select_replicas small_hash three_nodes 15 1 (λ y. not_two y && not (y == 3))
    ≡ select_replicas small_hash three_nodes 15 1 not_two
select_replicas_failover_example =
    select_replicas_failover small_hash three_nodes 15 1 not_two 3 three_unused

abbrev flaky : List Bool
flaky = false ∷ false ∷ false ∷ true ∷ false ∷ []

is_open-after_example : is_open (after flaky) ≡ leb failure_threshold (trailing_failures flaky)
is_open-after_example = is_open-after flaky

flaky_open : is_open (after flaky) ≡ true
unfolding is_open after
flaky_open = refl

abbrev router : Router
router = record {
  ring = three_nodes;
  nodes = [];
  breakers = [];
  health = [];
  latency_ewma = (1, 9) ∷ (2, 2) ∷ (3, 3) ∷ [];
  slow_threshold = 5;
  internal_minio = [];
  public_minio = [];
}

enough_fast_nodes :
    2 ≤ length (filter (is_fast router) (preference_list router.ring (small_hash (chunk_key 25))))
unfolding preference_list is_fast is_healthy search_index
enough_fast_nodes = omega arith

resolve_avoids_the_slow : (resolve small_hash router 25 2).nodes ≡ 3 ∷ 2 ∷ []
unfolding resolve select_replicas search_index walk is_fast is_healthy
resolve_avoids_the_slow = refl

abbrev node : NodeId → StorageNode
node id = record { id = id; endpoint = id; public_endpoint = id }

abbrev probe_of : NodeId → Bool → Probe
probe_of id ok = record { now = 100; id = id; ok = ok; rtt = 4 }

abbrev probes : List Probe
probes = probe_of 2 false ∷ probe_of 1 true ∷ probe_of 2 false ∷ probe_of 2 false ∷ []

abbrev newest : ℕ → ℕ → ℕ
newest rtt prev = rtt

abbrev started : Router
started = record {
  ring = build_ring small_hash (1 ∷ 2 ∷ []);
  nodes = (1, node 1) ∷ (2, node 2) ∷ [];
  breakers =
      (1, record { state = closed; failures = 0 })
      ∷ (2, record { state = closed; failures = 0 })
      ∷ [];
  health = (1, healthy) ∷ (2, healthy) ∷ [];
  latency_ewma = [];
  slow_threshold = 0;
  internal_minio = (1, 1) ∷ (2, 2) ∷ [];
  public_minio = (1, 1) ∷ (2, 2) ∷ [];
}

started-built : new_router small_hash (λ _. true) (node 1 ∷ node 2 ∷ []) 0 ≡ built started
unfolding new_router new_breaker insert
started-built = refl

run_probes-health_example :
    (rt' : Router) × (run_probes newest probes started ≡ some rt')
    × ((id : NodeId)
        → mem id (node_ids (node 1 ∷ node 2 ∷ [])) ≡ true
        → is_healthy rt' id ≡ not (leb failure_threshold (trailing_failures (outcomes id probes))))
run_probes-health_example =
    run_probes-health small_hash (λ _. true) (node 1 ∷ node 2 ∷ []) 0 started newest probes
      started-built (refl, (refl, (refl, (refl, tt))))
