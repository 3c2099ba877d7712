-- ===== src/Kube/Client.antt =====
-- The Kubernetes client, `controllerutil` and `meta` as parameters of the operator's code. A call
-- is a state step, so that what a call returns may depend on everything that went before.
use llm_inference_operator.Base.{ℕ, String, List, Bool}
use llm_inference_operator.Base.Dict.{Dict}
use llm_inference_operator.Cluster.{Cluster}
use llm_inference_operator.Kube.{
  Error, Outcome, ok, err, panic, ObjectMeta, Condition, Service, Deployment, ConfigMap,
  ServiceAccount, Role, RoleBinding, Pod,
}

abbrev pub M : Type 0 → Type 0 → Type 0
M S A = S → Outcome A × S

module _ {S A : Type 0} where
  abbrev pub pure : A → M S A
  pure a s = (ok a, s)

  abbrev pub raise : Error → M S A
  raise e s = (err e, s)

module _ {S A B : Type 0} where
  abbrev pub resume : (Error → M S B) → (A → M S B) → Outcome A × S → Outcome B × S
  resume handle rest (ok a, t) = rest a t
  resume handle rest (err e, t) = handle e t
  resume handle rest (panic, t) = (panic, t)

  -- `x, err := m; if err != nil { handle(err) }; rest(x)`. A panic ends the run.
  abbrev pub attempt : M S A → (Error → M S B) → (A → M S B) → M S B
  attempt m handle rest s = resume handle rest (m s)

  infixl 5 ◌>>=◌
  abbrev pub ◌>>=◌ : M S A → (A → M S B) → M S B
  m >>= f = attempt m raise f

module _ {A B : Type 0} where
  -- The same chain for code that calls no client.
  abbrev pub and_then : Outcome A → (A → Outcome B) → Outcome B
  and_then (ok a) f = f a
  and_then (err e) f = err e
  and_then panic f = panic

-- `controllerutil.CreateOrUpdate(ctx, client, obj, mutate)`: the object as the server returns it.
abbrev pub CreateOrUpdate : Type 0 → Type 0 → Type 0
CreateOrUpdate S Obj = Obj → (Obj → Outcome Obj) → M S Obj

pub record Client : Type 1 where
  pub State : Type 0
  -- `Get`, `Patch(obj, MergeFrom(base))` and `Update` of the custom resource, by namespace and name
  pub get_cluster : String → String → M State Cluster
  pub patch_cluster : Cluster → Cluster → M State Cluster
  pub update_cluster : Cluster → M State Cluster
  -- `Status().Patch(obj, MergeFrom(base))` and `Status().Update(obj)`
  pub patch_status : Cluster → Cluster → M State Cluster
  pub update_status : Cluster → M State Cluster
  pub get_config_map : String → String → M State ConfigMap
  -- `List` with `InNamespace` and `MatchingLabels`
  pub list_pods : String → Dict String → M State (List Pod)
  pub create_or_update_service : CreateOrUpdate State Service
  pub create_or_update_deployment : CreateOrUpdate State Deployment
  pub create_or_update_config_map : CreateOrUpdate State ConfigMap
  pub create_or_update_service_account : CreateOrUpdate State ServiceAccount
  pub create_or_update_role : CreateOrUpdate State Role
  pub create_or_update_role_binding : CreateOrUpdate State RoleBinding
  -- `metav1.Now()`
  pub now : State → ℕ × State
  -- `controllerutil.SetControllerReference(owner, controlled)`, on the metadata that it reads and writes
  pub set_controller_reference : ObjectMeta → ObjectMeta → Outcome ObjectMeta
  pub contains_finalizer : ObjectMeta → String → Bool
  pub add_finalizer : ObjectMeta → String → ObjectMeta
  pub remove_finalizer : ObjectMeta → String → ObjectMeta
  -- `meta.SetStatusCondition`
  pub set_status_condition : List Condition → Condition → List Condition
