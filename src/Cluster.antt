-- ===== src/Cluster.antt =====
-- api/v1alpha1/llminferencecluster_types.go: the custom resource. A pointer field is an `Option`.
pub mod Defaults
use llm_inference_operator.Base.{ℕ, String, List, Bool, Option}
use llm_inference_operator.Base.Int.{ℤ}
use llm_inference_operator.Base.Dict.{Dict}
use llm_inference_operator.Kube.{ObjectMeta, Condition}

-- Go's string types stay texts, since the code compares them with the empty text.
abbrev pub eviction_policy_lru : String
eviction_policy_lru = "lru"

abbrev pub warm_cache_none : String
warm_cache_none = "none"

abbrev pub kv_cache_strategy_sharded : String
kv_cache_strategy_sharded = "sharded"

abbrev pub routing_mode_session_affinity : String
routing_mode_session_affinity = "sessionAffinity"

abbrev pub signals_source_fake : String
signals_source_fake = "fake"

abbrev pub signals_source_prometheus : String
signals_source_prometheus = "prometheus"

pub record EnvEntry : Type 0 where
  pub name : String
  pub value : String

pub record ModelSpec : Type 0 where
  pub name : String
  pub image : String
  pub args : List String
  pub env : List EnvEntry

pub record WorkloadRoleSpec : Type 0 where
  pub replicas : Option ℤ
  pub service_port : Option ℤ
  pub pod_labels : Dict String

pub record RuntimeSpec : Type 0 where
  pub prefill : WorkloadRoleSpec
  pub decode : WorkloadRoleSpec

pub record KvCacheSpec : Type 0 where
  pub strategy : String
  pub num_shards : Option ℤ
  pub eviction_policy : String
  pub warm_cache : String

pub record RoutingSpec : Type 0 where
  pub mode : String
  pub hash_key : Option String
  pub router_replicas : Option ℤ

pub record AutoscalingSignalsSpec : Type 0 where
  pub source : String
  pub prometheus_url : Option String

pub record AutoscalingSpec : Type 0 where
  pub enabled : Option Bool
  pub min_replicas : Option ℤ
  pub max_replicas : Option ℤ
  pub signals : AutoscalingSignalsSpec

pub record ClusterSpec : Type 0 where
  pub model : ModelSpec
  pub runtime : RuntimeSpec
  pub kv_cache : KvCacheSpec
  pub routing : RoutingSpec
  pub autoscaling : AutoscalingSpec

pub record ClusterEndpointsStatus : Type 0 where
  pub router_url : String
  pub decode_service : String
  pub prefill_service : String

pub data ShardPhase : Type 0 where
  pending ready degraded : ShardPhase

pub record ShardStatus : Type 0 where
  pub shard_id : ℤ
  pub role : String
  pub owner_pod : String
  pub phase : ShardPhase
  pub last_heartbeat : ℕ

pub record ClusterStatus : Type 0 where
  pub observed_generation : ℤ
  pub endpoints : ClusterEndpointsStatus
  pub shards : List ShardStatus
  pub conditions : List Condition

pub record Cluster : Type 0 where
  pub metadata : ObjectMeta
  pub spec : ClusterSpec
  pub status : ClusterStatus
