-- ===== src/Storage/Router.antt =====
-- backend/internal/storage/router.go, with the types of types.go: the health view, the probes that
-- feed it and the placement that reads it. Durations are natural numbers of nanoseconds, a negative
-- slowThreshold reads as 0. The floating-point average of recordLatency is the parameter `blend`,
-- and whether a MinIO client can be built for an endpoint the parameter `client_ok`; a client is
-- known by its endpoint. Effects on Redis and Postgres are listed, in the order they are made.
pub mod Tiers
pub mod Health
use nimbus_storage_platform.Base.{
  ℕ, ◌≡◌, Bool, true, false, ◌&&◌, Option, none, some, List, [], ◌∷◌, ◌++◌, map, if◌then◌else◌, ltb,
  length, lookup, insert, or_zero,
}
use nimbus_storage_platform.Storage.Ring.{
  Key, NodeId, Ring, Placement, PlacementError, build_ring, select_replicas,
}
use nimbus_storage_platform.Storage.Breaker.{Breaker, new_breaker, probe, is_open}

pub data NodeStatus : Type 0 where
  healthy down : NodeStatus

abbrev pub is_healthy_status : NodeStatus → Bool
is_healthy_status healthy = true
is_healthy_status down = false

pub record StorageNode : Type 0 where
  pub id : NodeId
  pub endpoint : ℕ
  pub public_endpoint : ℕ

pub record Router : Type 0 where
  pub ring : Ring
  pub nodes : List (NodeId × StorageNode)
  pub breakers : List (NodeId × Breaker)
  pub health : List (NodeId × NodeStatus)
  pub latency_ewma : List (NodeId × ℕ)
  pub slow_threshold : ℕ
  pub internal_minio : List (NodeId × ℕ)
  pub public_minio : List (NodeId × ℕ)

pub data RouterError : Type 0 where
  internal_client public_client : NodeId → RouterError

pub data Built : Type 0 where
  built : Router → Built
  failed : RouterError → Built

-- The maps that `NewRouter` fills for one node.
unfoldable pub register : StorageNode → Router → Router
register n rt = record rt {
  nodes = insert n.id n rt.nodes;
  breakers = insert n.id new_breaker rt.breakers;
  health = insert n.id healthy rt.health;
  internal_minio = insert n.id n.endpoint rt.internal_minio;
  public_minio = insert n.id n.public_endpoint rt.public_minio;
}

-- The loop of `NewRouter` over the nodes, which stops at the first client that cannot be built; the
-- router is then dropped, so what was registered before makes no difference.
unfoldable pub register_nodes : (ℕ → Bool) → List StorageNode → Router → Built
unfolding register
register_nodes client_ok [] rt = built rt
register_nodes client_ok (n ∷ ns) rt =
    let rest = register_nodes client_ok ns (register n rt) in
    if client_ok n.endpoint
    then (if client_ok n.public_endpoint then rest else failed (public_client n.id))
    else failed (internal_client n.id)

unfoldable pub new_router : (Key → ℕ) → (ℕ → Bool) → List StorageNode → ℕ → Built
unfolding register_nodes
new_router hash_key client_ok nodes slow_threshold = register_nodes client_ok nodes (record {
  ring = build_ring hash_key (map (λ n. n.id) nodes);
  nodes = [];
  breakers = [];
  health = [];
  latency_ewma = [];
  slow_threshold = slow_threshold;
  internal_minio = [];
  public_minio = [];
})

-- `rt.health[id] == StatusHealthy`; a node with no entry reads as the zero value, which is healthy.
unfoldable pub is_healthy : Router → NodeId → Bool
is_healthy rt id = is_healthy_status (or_zero healthy (lookup id rt.health))

-- The first tier of `Resolve`: healthy, with an average under the threshold (no average reads as 0).
unfoldable pub is_fast : Router → NodeId → Bool
unfolding is_healthy
is_fast rt id = is_healthy rt id && ltb (or_zero 0 (lookup id rt.latency_ewma)) rt.slow_threshold

abbrev pub succeeded : Placement → Bool
succeeded p = elim p.error [ none ↦ true | some _ ↦ false ]

unfoldable pub resolve : (Key → ℕ) → Router → ℕ → ℕ → Placement
resolve hash_key rt chunk_hash n =
    let fast = select_replicas hash_key rt.ring chunk_hash n (is_fast rt) in
    let any_speed = select_replicas hash_key rt.ring chunk_hash n (is_healthy rt) in
    if ltb 0 rt.slow_threshold && succeeded fast then fast else any_speed

unfoldable pub candidates : (Key → ℕ) → Router → ℕ → Placement
candidates hash_key rt key = select_replicas hash_key rt.ring key (length rt.nodes) (λ _. true)

-- What a probe does beside the router's own state.
pub data Effect : Type 0 where
  redis_status : NodeId → Effect
  redis_heartbeat : NodeId → ℕ → Effect
  set_healthy : NodeId → ℕ → Effect
  set_down : NodeId → Effect
  publish : NodeId → NodeStatus → Effect

-- `recordLatency`: the averages after a successful probe.
unfoldable pub record_latency : (ℕ → ℕ → ℕ) → NodeId → ℕ → List (NodeId × ℕ) → List (NodeId × ℕ)
record_latency blend id rtt ewma = elim (lookup id ewma) [
  | none ↦ insert id rtt ewma
  | some prev ↦ insert id (blend rtt prev) ewma
]

-- The probe's effects on the stores, after the health view is written.
unfoldable pub probe_effects : NodeId → ℕ → Bool → Bool → NodeStatus → List Effect
probe_effects id now ok changed status =
    (if ok
      then redis_status id ∷ redis_heartbeat id now ∷ set_healthy id now ∷ []
      else if changed
      then set_down id ∷ []
      else [])
    ++ (if changed then publish id status ∷ [] else [])

abbrev pub status_of : Breaker → NodeStatus
status_of b = if is_open b then down else healthy

-- `probeOne`, with the answer of `ping` (ok and the round trip) as an argument. A node with no
-- breaker is a nil pointer: `none`.
unfoldable pub probe_one :
    (ℕ → ℕ → ℕ) → ℕ → NodeId → Bool → ℕ → Router → Option (Router × List Effect)
unfolding record_latency probe_effects
probe_one blend now id ok rtt rt = elim (lookup id rt.breakers) [
  | none ↦ none
  | some b ↦ some (
    record rt {
      latency_ewma = if ok then record_latency blend id rtt rt.latency_ewma else rt.latency_ewma;
      breakers = insert id (probe ok b).0 rt.breakers;
      health = insert id (status_of (probe ok b).0) rt.health;
    },
    probe_effects id now ok (probe ok b).1 (status_of (probe ok b).0),
  )
]
