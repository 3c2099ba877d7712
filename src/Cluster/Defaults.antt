-- ===== src/Cluster/Defaults.antt =====
-- The defaults that `Reconcile` fills in (internal/controller/llminferencecluster_controller.go).
use llm_inference_operator.Base.{
  String, Option, none, some, ◌≡◌, ◌≢◌, refl, false, arith, text_eq, text_eq_iff, if◌then◌else◌,
  deref, ◌⊎◌, inl, inr, Bool-cases,
}
use llm_inference_operator.Base.Int.{ℤ, pos}
use llm_inference_operator.Cluster.{
  Cluster, ClusterSpec, RoutingSpec, WorkloadRoleSpec, KvCacheSpec, routing_mode_session_affinity,
  kv_cache_strategy_sharded, eviction_policy_lru, warm_cache_none,
}

-- `if x == "" { x = d }`
abbrev text_or : String → String → String
text_or s d = if text_eq s "" then d else s

-- `if p == nil { p = &d }`
abbrev pointer_or {ℓ} : {A : Type ℓ} → Option A → A → Option A
pointer_or none d = some d
pointer_or (some a) d = some a

routing_defaults : RoutingSpec → RoutingSpec
routing_defaults r = record {
  mode = text_or r.mode routing_mode_session_affinity;
  hash_key = pointer_or r.hash_key "conversationId";
  router_replicas = pointer_or r.router_replicas (pos 1);
}

port_default : ℤ → WorkloadRoleSpec → WorkloadRoleSpec
port_default port w = record w { service_port = pointer_or w.service_port port }

kv_cache_defaults : KvCacheSpec → KvCacheSpec
kv_cache_defaults k = record {
  strategy = text_or k.strategy kv_cache_strategy_sharded;
  num_shards = pointer_or k.num_shards (pos 8);
  eviction_policy = text_or k.eviction_policy eviction_policy_lru;
  warm_cache = text_or k.warm_cache warm_cache_none;
}

unfoldable pub spec_defaults : ClusterSpec → ClusterSpec
unfolding routing_defaults port_default kv_cache_defaults
spec_defaults s = record s {
  routing = routing_defaults s.routing;
  runtime = record {
    prefill = port_default (pos 8001) s.runtime.prefill;
    decode = port_default (pos 8000) s.runtime.decode;
  };
  kv_cache = kv_cache_defaults s.kv_cache;
}

-- The assignments between `DeepCopy` and `Patch`.
unfoldable pub apply_defaults : Cluster → Cluster
unfolding spec_defaults
apply_defaults c = record c { spec = spec_defaults c.spec }

-- The fields that the rest of `Reconcile` needs are set: no pointer that it reads is nil, and no
-- text that it defaults is empty.
pub record IsDefaulted (s : ClusterSpec) : Type 0 where
  pub mode : s.routing.mode ≢ ""
  pub hash_key : s.routing.hash_key ≢ none
  pub router_replicas : s.routing.router_replicas ≢ none
  pub decode_port : s.runtime.decode.service_port ≢ none
  pub prefill_port : s.runtime.prefill.service_port ≢ none
  pub strategy : s.kv_cache.strategy ≢ ""
  pub num_shards : s.kv_cache.num_shards ≢ none
  pub eviction_policy : s.kv_cache.eviction_policy ≢ ""
  pub warm_cache : s.kv_cache.warm_cache ≢ ""

text_or-ne_empty : (s d : String) → text_eq d "" ≡ false → text_or s d ≢ ""
text_or-ne_empty s d h e = ground (arith, text_eq_iff s "", text_eq_iff d "")

pointer_or-ne_none {ℓ} : {A : Type ℓ} (p : Option A) (d : A) → pointer_or p d ≢ none
pointer_or-ne_none none d e = cc
pointer_or-ne_none (some a) d e = cc

-- The defaulted spec has every field that is read later, whatever was left out.
pub spec_defaults-IsDefaulted : (s : ClusterSpec) → IsDefaulted (spec_defaults s)
unfolding spec_defaults
spec_defaults-IsDefaulted s = record {
  mode = text_or-ne_empty s.routing.mode _ refl;
  hash_key = pointer_or-ne_none s.routing.hash_key _;
  router_replicas = pointer_or-ne_none s.routing.router_replicas _;
  decode_port = pointer_or-ne_none s.runtime.decode.service_port _;
  prefill_port = pointer_or-ne_none s.runtime.prefill.service_port _;
  strategy = text_or-ne_empty s.kv_cache.strategy _ refl;
  num_shards = pointer_or-ne_none s.kv_cache.num_shards _;
  eviction_policy = text_or-ne_empty s.kv_cache.eviction_policy _ refl;
  warm_cache = text_or-ne_empty s.kv_cache.warm_cache _ refl;
}

-- The number of shards that is read with a default is the user's, or the default.
pub num_shards-spec_defaults :
    (s : ClusterSpec)
    → deref (spec_defaults s).kv_cache.num_shards (pos 8) ≡ deref s.kv_cache.num_shards (pos 8)
unfolding spec_defaults deref
num_shards-spec_defaults s = ground arith

-- What defaulting a field may do: a text that is not empty, and a pointer that is not nil, are kept.
abbrev pub KeepsText : String → String → Type 0
KeepsText before after = (before ≡ "") ⊎ (after ≡ before)

abbrev pub KeepsPointer : {A : Type 0} → Option A → Option A → Type 0
KeepsPointer before after = (before ≡ none) ⊎ (after ≡ before)

text_or-KeepsText : (s d : String) → KeepsText s (text_or s d)
text_or-KeepsText s d = elim (Bool-cases (text_eq s "")) [
  | inl empty ↦ inl ((text_eq_iff s "").0 empty)
  | inr set ↦ inr (rw set refl)
]

pointer_or-KeepsPointer : {A : Type 0} (p : Option A) (d : A) → KeepsPointer p (pointer_or p d)
pointer_or-KeepsPointer none d = inl refl
pointer_or-KeepsPointer (some a) d = inr refl

-- Whatever else the user left out, no value that the user gave is overwritten: each field that has a
-- default is as it was, or was left out; the fields that have none are as they were.
pub spec_defaults-KeepsPointer :
    (s : ClusterSpec)
    → KeepsText s.routing.mode (spec_defaults s).routing.mode
      × KeepsPointer s.routing.hash_key (spec_defaults s).routing.hash_key
      × KeepsPointer s.routing.router_replicas (spec_defaults s).routing.router_replicas
      × KeepsPointer s.runtime.decode.service_port (spec_defaults s).runtime.decode.service_port
      × KeepsPointer s.runtime.prefill.service_port (spec_defaults s).runtime.prefill.service_port
      × KeepsText s.kv_cache.strategy (spec_defaults s).kv_cache.strategy
      × KeepsPointer s.kv_cache.num_shards (spec_defaults s).kv_cache.num_shards
      × KeepsText s.kv_cache.eviction_policy (spec_defaults s).kv_cache.eviction_policy
      × KeepsText s.kv_cache.warm_cache (spec_defaults s).kv_cache.warm_cache
      × ((spec_defaults s).runtime.decode.replicas ≡ s.runtime.decode.replicas)
      × ((spec_defaults s).runtime.prefill.replicas ≡ s.runtime.prefill.replicas)
      × ((spec_defaults s).runtime.decode.pod_labels ≡ s.runtime.decode.pod_labels)
      × ((spec_defaults s).runtime.prefill.pod_labels ≡ s.runtime.prefill.pod_labels)
      × ((spec_defaults s).model ≡ s.model)
      × ((spec_defaults s).autoscaling ≡ s.autoscaling)
unfolding spec_defaults
spec_defaults-KeepsPointer s = (
  text_or-KeepsText s.routing.mode _,
  pointer_or-KeepsPointer s.routing.hash_key _,
  pointer_or-KeepsPointer s.routing.router_replicas _,
  pointer_or-KeepsPointer s.runtime.decode.service_port _,
  pointer_or-KeepsPointer s.runtime.prefill.service_port _,
  text_or-KeepsText s.kv_cache.strategy _,
  pointer_or-KeepsPointer s.kv_cache.num_shards _,
  text_or-KeepsText s.kv_cache.eviction_policy _,
  text_or-KeepsText s.kv_cache.warm_cache _,
  refl,
  refl,
  refl,
  refl,
  refl,
  refl,
)
