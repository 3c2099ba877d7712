-- ===== src/Kube.antt =====
-- The Kubernetes objects and errors that the operator reads and writes (k8s.io/api, apimachinery),
-- with the fields that the source touches. `Kube.Client` holds the calls of the client.
pub mod Client
use llm_inference_operator.Base.{ℕ, String, List, Bool, Option}
use llm_inference_operator.Base.Int.{ℤ}
use llm_inference_operator.Base.Dict.{Dict}

-- What the source observes of an error: `apierrors.IsNotFound(err)` and `err.Error()`.
pub record Error : Type 0 where
  pub is_not_found : Bool
  pub message : String

-- A call returns a value, returns an error, or panics.
pub data Outcome (A : Type 0) : Type 0 where
  ok : A → Outcome A
  err : Error → Outcome A
  panic : Outcome A

pub record OwnerReference : Type 0 where
  pub kind : String
  pub name : String
  pub uid : String

-- `metav1.ObjectMeta`. Times are seconds, and 0 is Go's zero time.
pub record ObjectMeta : Type 0 where
  pub name : String
  pub namespace : String
  pub uid : String
  pub generation : ℤ
  pub deletion_timestamp : Option ℕ
  pub finalizers : List String
  pub labels : Dict String
  pub owner_references : List OwnerReference

-- `metav1.Condition`
pub record Condition : Type 0 where
  pub kind : String
  pub status : String
  pub reason : String
  pub message : String
  pub observed_generation : ℤ
  pub last_transition_time : ℕ

-- `intstr.IntOrString`
pub data IntOrString : Type 0 where
  int_val : ℤ → IntOrString
  str_val : String → IntOrString

pub record ServicePort : Type 0 where
  pub name : String
  pub port : ℤ
  pub protocol : String
  pub target_port : IntOrString

pub record Service : Type 0 where
  pub metadata : ObjectMeta
  pub selector : Dict String
  pub ports : List ServicePort

-- `corev1.EnvVar`: `field_path` is that of `ValueFrom.FieldRef`.
pub record EnvVar : Type 0 where
  pub name : String
  pub value : String
  pub field_path : Option String

pub record ContainerPort : Type 0 where
  pub name : String
  pub container_port : ℤ

pub record Container : Type 0 where
  pub name : String
  pub image : String
  pub image_pull_policy : String
  pub args : List String
  pub env : List EnvVar
  pub ports : List ContainerPort

-- `containers` is `none` for a nil slice.
pub record Deployment : Type 0 where
  pub metadata : ObjectMeta
  pub replicas : Option ℤ
  pub selector : Option (Dict String)
  pub template_labels : Dict String
  pub service_account_name : String
  pub containers : Option (List Container)

-- `entries` is the field `Data`; `none` is a nil map.
pub record ConfigMap : Type 0 where
  pub metadata : ObjectMeta
  pub entries : Option (Dict String)

pub record ServiceAccount : Type 0 where
  pub metadata : ObjectMeta

pub record PolicyRule : Type 0 where
  pub api_groups : List String
  pub resources : List String
  pub verbs : List String

pub record Role : Type 0 where
  pub metadata : ObjectMeta
  pub rules : List PolicyRule

pub record RoleRef : Type 0 where
  pub api_group : String
  pub kind : String
  pub name : String

pub record Subject : Type 0 where
  pub kind : String
  pub name : String
  pub namespace : String

pub record RoleBinding : Type 0 where
  pub metadata : ObjectMeta
  pub role_ref : RoleRef
  pub subjects : List Subject

pub record PodCondition : Type 0 where
  pub kind : String
  pub status : String

pub record Pod : Type 0 where
  pub metadata : ObjectMeta
  pub conditions : List PodCondition
