-- ===== src/DeepCopy/Layout.antt =====
-- The API types, once for what stands in memory and once for what it stands for: a form says what
-- stands in the place of a pointer, a slice or a map, and of the structs of apimachinery.
use llm_inference_operator.Base.{String, List, Bool, Option, none, some, refl}
use llm_inference_operator.Base.Int.{ℤ}
use llm_inference_operator.Base.Dict.{Dict}
use llm_inference_operator.Cluster.{EnvEntry, ShardPhase}
use llm_inference_operator.DeepCopy.Heap.{Pointer, CellType}

pub record Form : Type 1 where
  pub To : Type 0 → Type 0
  pub TypeMeta : Type 0
  pub ObjectMeta : Type 0
  pub ListMeta : Type 0
  pub Condition : Type 0
  pub Time : Type 0

pub record ModelLayout (F : Form) : Type 0 where
  pub name : String
  pub image : String
  pub args : F.To (List String)
  pub env : F.To (List EnvEntry)

pub record WorkloadRoleLayout (F : Form) : Type 0 where
  pub replicas : F.To ℤ
  pub service_port : F.To ℤ
  pub pod_labels : F.To (Dict String)

pub record RuntimeLayout (F : Form) : Type 0 where
  pub prefill : WorkloadRoleLayout F
  pub decode : WorkloadRoleLayout F

pub record KvCacheLayout (F : Form) : Type 0 where
  pub strategy : String
  pub num_shards : F.To ℤ
  pub eviction_policy : String
  pub warm_cache : String

pub record RoutingLayout (F : Form) : Type 0 where
  pub mode : String
  pub hash_key : F.To String
  pub router_replicas : F.To ℤ

pub record SignalsLayout (F : Form) : Type 0 where
  pub source : String
  pub prometheus_url : F.To String

pub record AutoscalingLayout (F : Form) : Type 0 where
  pub enabled : F.To Bool
  pub min_replicas : F.To ℤ
  pub max_replicas : F.To ℤ
  pub signals : SignalsLayout F

pub record SpecLayout (F : Form) : Type 0 where
  pub model : ModelLayout F
  pub runtime : RuntimeLayout F
  pub kv_cache : KvCacheLayout F
  pub routing : RoutingLayout F
  pub autoscaling : AutoscalingLayout F

pub record EndpointsLayout : Type 0 where
  pub router_url : String
  pub decode_service : String
  pub prefill_service : String

pub record ShardLayout (F : Form) : Type 0 where
  pub shard_id : ℤ
  pub role : String
  pub owner_pod : String
  pub phase : ShardPhase
  pub last_heartbeat : F.Time

pub record StatusLayout (F : Form) : Type 0 where
  pub observed_generation : ℤ
  pub endpoints : EndpointsLayout
  pub shards : F.To (List (ShardLayout F))
  pub conditions : F.To (List F.Condition)

pub record ClusterLayout (F : Form) : Type 0 where
  pub type_meta : F.TypeMeta
  pub object_meta : F.ObjectMeta
  pub spec : SpecLayout F
  pub status : StatusLayout F

pub record ClusterListLayout (F : Form) : Type 0 where
  pub type_meta : F.TypeMeta
  pub list_meta : F.ListMeta
  pub items : F.To (List (ClusterLayout F))

-- The structs of apimachinery in memory, and what else its copies allocate.
pub record Imports : Type 1 where
  pub TypeMeta : Type 0
  pub ObjectMeta : Type 0
  pub ListMeta : Type 0
  pub Condition : Type 0
  pub Time : Type 0
  pub Other : Type 0

-- Pointers, slices and maps are addresses, nil or not.
abbrev pub in_memory : Imports → Form
in_memory I = record {
  To = λ A. Pointer;
  TypeMeta = I.TypeMeta;
  ObjectMeta = I.ObjectMeta;
  ListMeta = I.ListMeta;
  Condition = I.Condition;
  Time = I.Time;
}

-- What an address holds.
pub data Cell (I : Imports) : Type 0 where
  number : ℤ → Cell I
  flag : Bool → Cell I
  text : String → Cell I
  texts : List String → Cell I
  env : List EnvEntry → Cell I
  labels : Dict String → Cell I
  shards : List (ShardLayout (in_memory I)) → Cell I
  conditions : List I.Condition → Cell I
  cluster : ClusterLayout (in_memory I) → Cell I
  clusters : List (ClusterLayout (in_memory I)) → Cell I
  cluster_list : ClusterListLayout (in_memory I) → Cell I
  other : I.Other → Cell I

module _ {I : Imports} where
  abbrev pub numbers : CellType (Cell I) ℤ
  numbers = record { put = number; get = read; get_put = λ a. refl }
    where
      read : Cell I → Option ℤ
      read (number a) = some a
      read _ = none

  abbrev pub flags : CellType (Cell I) Bool
  flags = record { put = flag; get = read; get_put = λ a. refl }
    where
      read : Cell I → Option Bool
      read (flag a) = some a
      read _ = none

  abbrev pub strings : CellType (Cell I) String
  strings = record { put = text; get = read; get_put = λ a. refl }
    where
      read : Cell I → Option String
      read (text a) = some a
      read _ = none

  abbrev pub string_slices : CellType (Cell I) (List String)
  string_slices = record { put = texts; get = read; get_put = λ a. refl }
    where
      read : Cell I → Option (List String)
      read (texts a) = some a
      read _ = none

  abbrev pub env_slices : CellType (Cell I) (List EnvEntry)
  env_slices = record { put = env; get = read; get_put = λ a. refl }
    where
      read : Cell I → Option (List EnvEntry)
      read (env a) = some a
      read _ = none

  abbrev pub string_maps : CellType (Cell I) (Dict String)
  string_maps = record { put = labels; get = read; get_put = λ a. refl }
    where
      read : Cell I → Option (Dict String)
      read (labels a) = some a
      read _ = none

  abbrev pub shard_slices : CellType (Cell I) (List (ShardLayout (in_memory I)))
  shard_slices = record { put = shards; get = read; get_put = λ a. refl }
    where
      read : Cell I → Option (List (ShardLayout (in_memory I)))
      read (shards a) = some a
      read _ = none

  abbrev pub condition_slices : CellType (Cell I) (List I.Condition)
  condition_slices = record { put = conditions; get = read; get_put = λ a. refl }
    where
      read : Cell I → Option (List I.Condition)
      read (conditions a) = some a
      read _ = none

  abbrev pub cluster_cells : CellType (Cell I) (ClusterLayout (in_memory I))
  cluster_cells = record { put = cluster; get = read; get_put = λ a. refl }
    where
      read : Cell I → Option (ClusterLayout (in_memory I))
      read (cluster a) = some a
      read _ = none

  abbrev pub cluster_slices : CellType (Cell I) (List (ClusterLayout (in_memory I)))
  cluster_slices = record { put = clusters; get = read; get_put = λ a. refl }
    where
      read : Cell I → Option (List (ClusterLayout (in_memory I)))
      read (clusters a) = some a
      read _ = none

  abbrev pub cluster_list_cells : CellType (Cell I) (ClusterListLayout (in_memory I))
  cluster_list_cells = record { put = cluster_list; get = read; get_put = λ a. refl }
    where
      read : Cell I → Option (ClusterListLayout (in_memory I))
      read (cluster_list a) = some a
      read _ = none
