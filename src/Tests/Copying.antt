-- ===== src/Tests/Copying.antt =====
-- The deep copies at a concrete heap.
use llm_inference_operator.Base.{
  ◌≡◌, refl, arith, ℕ, String, List, [], ◌∷◌, some, none, if◌then◌else◌, ◌==◌, ltb, ◌≤◌,
}
use llm_inference_operator.Base.Int.{ℤ, pos}
use llm_inference_operator.Base.Dict.{Dict}
use llm_inference_operator.Cluster.{ShardPhase}
use llm_inference_operator.DeepCopy.Heap.{Heap, pure, Holds, read_pointed, read_each}
use llm_inference_operator.DeepCopy.Copies.{pure-IsCopy}
use llm_inference_operator.DeepCopy.Maps.{distinct}
use llm_inference_operator.DeepCopy.Layout.{
  Form, Imports, in_memory, Cell, ClusterLayout, ShardLayout,
}
use llm_inference_operator.DeepCopy.Imported.{Imported, IsImported, values}
use llm_inference_operator.DeepCopy.Into.{deep_copy}
use llm_inference_operator.DeepCopy.Meaning.{read_pointer, read_cluster}
use llm_inference_operator.DeepCopy.Independent.{deep_copy_independent}

abbrev I : Imports
I = record {
  TypeMeta = String;
  ObjectMeta = String;
  ListMeta = String;
  Condition = String;
  Time = ℕ;
  Other = ℕ;
}

abbrev L : Imported I
L = record {
  ObjectMeta = String;
  ListMeta = String;
  Condition = String;
  Time = ℕ;
  read_object_meta = λ a h. some a;
  read_list_meta = λ a h. some a;
  read_condition = λ a h. some a;
  read_time = λ a h. some a;
  copy_object_meta = pure;
  copy_list_meta = pure;
  copy_condition = pure;
  copy_time = pure;
}

imported : IsImported L
imported = record {
  object_meta = pure-IsCopy (λ a. a);
  list_meta = pure-IsCopy (λ a. a);
  condition = pure-IsCopy (λ a. a);
  time = pure-IsCopy (λ a. a);
}

-- A cluster in either form, from the parts that are set: the number of shards, the labels of the prefill
-- pods, and the shards.
abbrev cluster_in :
    (F : Form)
    → F.TypeMeta
    → F.ObjectMeta
    → ((A : Type 0) → F.To A)
    → F.To ℤ
    → F.To (Dict String)
    → F.To (List (ShardLayout F))
    → ClusterLayout F
cluster_in F type_meta object_meta nil num_shards labels shards = record {
  type_meta = type_meta;
  object_meta = object_meta;
  spec = record {
    model = record { name = "llama"; image = "worker:1"; args = nil _; env = nil _ };
    runtime = record {
      prefill = record { replicas = nil _; service_port = nil _; pod_labels = labels };
      decode = record { replicas = nil _; service_port = nil _; pod_labels = nil _ };
    };
    kv_cache = record {
      strategy = "";
      num_shards = num_shards;
      eviction_policy = "";
      warm_cache = "";
    };
    routing = record { mode = ""; hash_key = nil _; router_replicas = nil _ };
    autoscaling = record {
      enabled = nil _;
      min_replicas = nil _;
      max_replicas = nil _;
      signals = record { source = ""; prometheus_url = nil _ };
    };
  };
  status = record {
    observed_generation = pos 0;
    endpoints = record { router_url = ""; decode_service = ""; prefill_service = "" };
    shards = shards;
    conditions = nil _;
  };
}

abbrev shard_in : (F : Form) → F.Time → ShardLayout F
shard_in F time = record {
  shard_id = pos 0;
  role = "decode";
  owner_pod = "decode-a";
  phase = ShardPhase.ready;
  last_heartbeat = time;
}

-- The cluster at 0, the number of its shards at 1, the labels at 2 and the shards at 3.
abbrev before : Heap (Cell I)
before = record {
  next = 4;
  cell = λ p.
      if p == 0
      then some (
          Cell.cluster
            (cluster_in (in_memory I) "v1" "demo" (λ _. none) (some 1) (some 2) (some 3)))
      else if p == 1
      then some (Cell.number (pos 8))
      else if p == 2
      then some (Cell.labels (("app", "x") ∷ []))
      else if p == 3
      then some (Cell.shards (shard_in (in_memory I) 1000 ∷ []))
      else none;
}

abbrev value : ClusterLayout (values L)
value =
    cluster_in (values L) "v1" "demo" (λ _. none) (some (pos 8)) (some (("app", "x") ∷ []))
      (some (shard_in (values L) 1000 ∷ []))

before_lem : Holds 0 4 before (read_pointer L (some 0)) (some value)
unfolding read_pointed read_each read_cluster distinct
before_lem k agree =
    let zeroth = agree 0 (omega arith) (omega arith) in
    let first = agree 1 (omega arith) (omega arith) in
    let second = agree 2 (omega arith) (omega arith) in
    let third = agree 3 (omega arith) (omega arith) in rw (zeroth, first, second, third) refl

abbrev after : Heap (Cell I)
after = (deep_copy L (some 0) before).1

-- The original is written over, and the copy.
abbrev original_lost : Heap (Cell I)
original_lost = record after { cell = λ p. if ltb p 4 then none else after.cell p }

abbrev copy_lost : Heap (Cell I)
copy_lost = record after { cell = λ p. if ltb p 4 then after.cell p else none }

deep_copy_independent_example :
    (read_pointer L (deep_copy L (some 0) before).0 original_lost ≡ some (some value))
    × (read_pointer L (some 0) copy_lost ≡ some (some value))
deep_copy_independent_example =
    deep_copy_independent L imported (some 0) (some value) before original_lost copy_lost before_lem
      (λ p lo hi. let above : 4 ≤ p = lo in ground arith) (λ p lo hi. ground arith)
