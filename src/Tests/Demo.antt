-- ===== src/Tests/Demo.antt =====
-- A concrete platform: a client that counts what it writes to the children, a cluster, and pods.
use llm_inference_operator.Base.{
  arith, text_eq_iff, refl, ℕ, ◌+◌, String, List, [], ◌∷◌, none, some, false, not, if◌then◌else◌,
  text_eq, ltb,
}
use llm_inference_operator.Base.Int.{pos}
use llm_inference_operator.Base.Sort.{sort}
use llm_inference_operator.Kube.{Outcome, ok, ObjectMeta, Condition, Pod}
use llm_inference_operator.Kube.Client.{M, Client}
use llm_inference_operator.Cluster.{Cluster, ClusterSpec}
use llm_inference_operator.Json.{Json}
use llm_inference_operator.Signals.{Floats}
use llm_inference_operator.ShardMap.Doc.{ShardMapDoc}
use llm_inference_operator.Controller.Reconcile.Calm.{IsCalmClient}
use llm_inference_operator.Controller.Status.Marks.{IsSetCondition}
use llm_inference_operator.Platform.{Platform}
use llm_inference_operator.Tests.Codecs.{codec_of}

abbrev pub metadata : String → ObjectMeta
metadata name = record {
  name = name;
  namespace = "default";
  uid = "";
  generation = pos 1;
  deletion_timestamp = none;
  finalizers = [];
  labels = [];
  owner_references = [];
}

-- A spec with nothing but a model.
abbrev pub bare_spec : ClusterSpec
bare_spec = record {
  model = record {
    name = "llama";
    image = "worker:1";
    args = [];
    env = record { name = "B"; value = "2" } ∷ record { name = "A"; value = "1" } ∷ [];
  };
  runtime = record {
    prefill = record { replicas = none; service_port = none; pod_labels = [] };
    decode = record { replicas = none; service_port = none; pod_labels = [] };
  };
  kv_cache = record {
    strategy = "";
    num_shards = some (pos 3);
    eviction_policy = "";
    warm_cache = "";
  };
  routing = record { mode = ""; hash_key = none; router_replicas = none };
  autoscaling = record {
    enabled = none;
    min_replicas = none;
    max_replicas = none;
    signals = record { source = ""; prometheus_url = none };
  };
}

abbrev pub demo : Cluster
demo = record {
  metadata = metadata "demo";
  spec = bare_spec;
  status = record {
    observed_generation = pos 0;
    endpoints = record { router_url = ""; decode_service = ""; prefill_service = "" };
    shards = [];
    conditions = [];
  };
}

-- The same cluster, being deleted.
abbrev pub leaving : Cluster
leaving = record demo { metadata = record demo.metadata { deletion_timestamp = some 5 } }

abbrev pub pod : String → String → Pod
pod name readiness = record {
  metadata = metadata name;
  conditions = record { kind = "Ready"; status = readiness } ∷ [];
}

abbrev pub pods : List Pod
pods = pod "decode-b" "True" ∷ pod "decode-a" "True" ∷ pod "decode-c" "False" ∷ []

abbrev pub put_condition : List Condition → Condition → List Condition
put_condition [] new = new ∷ []
put_condition (c ∷ cs) new = if text_eq c.kind new.kind then new ∷ cs else c ∷ put_condition cs new

-- The server holds no child yet; each write of one is counted.
abbrev pub written : {A : Type 0} → (A → A) → A → (A → Outcome A) → M ℕ A
written fresh skeleton mutate s = (mutate (fresh skeleton), s + 1)

abbrev pub client_of : Cluster → Client
client_of c = record {
  State = ℕ;
  get_cluster = λ namespace name s. (ok c, s);
  patch_cluster = λ d base s. (ok d, s);
  update_cluster = λ d s. (ok d, s);
  patch_status = λ d base s. (ok d, s);
  update_status = λ d s. (ok d, s);
  get_config_map =
      λ namespace name s. (ok (record { metadata = metadata name; entries = none }), s);
  list_pods = λ namespace labels s. (ok pods, s);
  create_or_update_service = written (λ o. o);
  create_or_update_deployment = written (λ o. record o { containers = none });
  create_or_update_config_map = written (λ o. o);
  create_or_update_service_account = written (λ o. o);
  create_or_update_role = written (λ o. o);
  create_or_update_role_binding = written (λ o. o);
  now = λ s. (1000, s);
  set_controller_reference = λ owner m. ok m;
  contains_finalizer = λ m f. false;
  add_finalizer = λ m f. m;
  remove_finalizer = λ m f. m;
  set_status_condition = put_condition;
}

-- `float64` cut down to natural numbers.
abbrev pub naturals : Floats
naturals = record {
  Float = ℕ;
  zero = 0;
  ten = 10;
  hundred = 100;
  lt = ltb;
  parse = λ v. if text_eq v "500" then some 500 else none;
}

abbrev pub platform : Cluster → Json → Platform
platform c j = record {
  client = client_of c;
  codec = codec_of j;
  floats = naturals;
  sort_slice = λ less. sort (λ a b. not (less b a));
}

pub client_of-IsCalm : (c : Cluster) → IsCalmClient (client_of c)
client_of-IsCalm c = record {
  get_cluster = λ n m s q. cc;
  patch_cluster = λ d e s q. cc;
  update_cluster = λ d s q. cc;
  patch_status = λ d e s q. cc;
  update_status = λ d s q. cc;
  get_config_map = λ n m s q. cc;
  list_pods = λ n l s q. cc;
  service = λ o mutate s total. total o tt;
  deployment = λ o mutate s total. total (record o { containers = none }) (λ q. cc);
  config_map = λ o mutate s total. total o tt;
  service_account = λ o mutate s total. total o tt;
  role = λ o mutate s total. total o tt;
  role_binding = λ o mutate s total. total o tt;
  set_controller_reference = λ m n q. cc;
  patched_spec = λ d base e s t h. cc;
  updated_spec = λ d e s t h. cc;
}

-- A document of two shards.
abbrev pub doc : ShardMapDoc
doc = record {
  version = pos 1;
  shards =
      record { shard_id = pos 0; role = "decode"; owner_pod = "decode-a" }
      ∷ record { shard_id = pos 1; role = "decode"; owner_pod = "" }
      ∷ [];
}

pub put_condition-IsSetCondition : IsSetCondition put_condition
put_condition-IsSetCondition [] new kind = refl
put_condition-IsSetCondition (c ∷ cs) new kind = ground (
  arith,
  text_eq_iff c.kind new.kind,
  text_eq_iff c.kind kind,
  text_eq_iff new.kind kind,
  put_condition-IsSetCondition cs new kind,
)
