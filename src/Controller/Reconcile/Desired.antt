-- ===== src/Controller/Reconcile/Desired.antt =====
-- The deployments that a successful reconcile leaves on the server: what is assumed of the server, and
-- what a deployment is to look like.
pub mod Keeps
pub mod Stored
pub mod Writes
pub mod Again
use text.Mathlib.TextLemmas.{append_cancel_left}
use llm_inference_operator.Base.{
  String, ◌<>◌, List, [], ◌∷◌, Option, none, some, ◌≡◌, ◌≢◌, refl, sym, ap, ◌∙◌, false, true,
  text_eq, text_eq_iff,
}
use llm_inference_operator.Base.Int.{ℤ}
use llm_inference_operator.Base.Dict.{Dict}
use llm_inference_operator.Kube.{
  Error, Outcome, ok, err, panic, Service, Deployment, ConfigMap, ServiceAccount, Role, RoleBinding,
  Container, EnvVar,
}
use llm_inference_operator.Kube.Client.{Client, M, CreateOrUpdate, pure, raise, attempt, resume}
use llm_inference_operator.Platform.{Platform}
use llm_inference_operator.Cluster.{Cluster}
use llm_inference_operator.Controller.Labels.{role_decode, role_prefill, role_labels}
use llm_inference_operator.Controller.Status.{Return}
use llm_inference_operator.Controller.Children.{
  mutate_service_account, mutate_role, mutate_role_binding, reconcile_role_service,
  reconcile_router_service, reconcile_router_rbac,
}
use llm_inference_operator.Controller.Children.Maps.{own-eq_ok}
use llm_inference_operator.Controller.Workloads.{
  update_first, router_env, router_container, mutate_role_deployment, mutate_router_deployment,
  reconcile_role_deployment, reconcile_router_deployment,
}
use llm_inference_operator.Controller.Workloads.Traffic.{
  IsWorker, mutate_role_deployment-IsWorker, and_then-eq_ok, update_first-head,
}
use llm_inference_operator.Controller.Reconcile.{
  publish_shards, reconcile_children, decode_name, prefill_name, router_name, shard_map_name,
}
use llm_inference_operator.Controller.Reconcile.Plan.{
  Action, plan, run_plan, Completes, reconcile_children-run_plan,
}
use llm_inference_operator.Controller.Reconcile.Inversion.{run_plan-eq_ok}

-- The deployments that the server holds, by namespace and name.
abbrev pub View : Client → Type 0
View api = api.State → String → String → Option Deployment

abbrev pub KeepsView :
    {S Obj : Type 0} → (S → String → String → Option Deployment) → CreateOrUpdate S Obj → Type 0
KeepsView {S} {Obj} view apply =
    (skeleton : Obj) (mutate : Obj → Outcome Obj) (s : S)
    → view (apply skeleton mutate s).1 ≡ view s

-- What is documented of the client: a call that is about something else leaves the deployments alone,
-- and a successful `CreateOrUpdate` of a deployment stores the result of the mutate function, applied to some object, under the
-- skeleton's name, to the one that is held under that name where there is one, and no other deployment changes.
pub record IsStore (api : Client) (view : View api) : Type 0 where
  pub list_pods :
      (n : String) (l : Dict String) (s : api.State) → view (api.list_pods n l s).1 ≡ view s
  pub now : (s : api.State) → view (api.now s).1 ≡ view s
  pub patch_status : (c d : Cluster) (s : api.State) → view (api.patch_status c d s).1 ≡ view s
  pub update_status : (c : Cluster) (s : api.State) → view (api.update_status c s).1 ≡ view s
  pub config_map : KeepsView view api.create_or_update_config_map
  pub service : KeepsView view api.create_or_update_service
  pub service_account : KeepsView view api.create_or_update_service_account
  pub role : KeepsView view api.create_or_update_role
  pub role_binding : KeepsView view api.create_or_update_role_binding
  pub mutated :
      (skeleton d : Deployment) (mutate : Deployment → Outcome Deployment) (s t : api.State)
      → api.create_or_update_deployment skeleton mutate s ≡ (ok d, t)
      → (o : Deployment) × (mutate o ≡ ok d)
  pub found :
      (skeleton d o : Deployment) (mutate : Deployment → Outcome Deployment) (s t : api.State)
      → api.create_or_update_deployment skeleton mutate s ≡ (ok d, t)
      → view s skeleton.metadata.namespace skeleton.metadata.name ≡ some o
      → mutate o ≡ ok d
  pub stored :
      (skeleton d : Deployment) (mutate : Deployment → Outcome Deployment) (s t : api.State)
      → api.create_or_update_deployment skeleton mutate s ≡ (ok d, t)
      → view t skeleton.metadata.namespace skeleton.metadata.name ≡ some d
  pub others :
      (skeleton d : Deployment) (mutate : Deployment → Outcome Deployment) (s t : api.State)
      (name : String)
      → api.create_or_update_deployment skeleton mutate s ≡ (ok d, t)
      → name ≢ skeleton.metadata.name
      → view t skeleton.metadata.namespace name ≡ view s skeleton.metadata.namespace name

-- What the router's deployment looks like after its mutate function.
pub record IsRouter (P : Platform) (c : Cluster) (labels : Dict String) (d : Deployment)
    : Type 0 where
  pub container : Container
  pub rest : List Container
  pub env : List EnvVar
  pub env_lem : router_env P c ≡ ok env
  pub containers :
      d.containers ≡ some (router_container P c (shard_map_name c) env container ∷ rest)
  pub replicas : d.replicas ≡ c.spec.routing.router_replicas
  pub account : d.service_account_name ≡ router_name c
  pub selector : d.selector ≡ some (role_labels labels "router")
  pub template : d.template_labels ≡ role_labels labels "router"

pub mutate_router_deployment-IsRouter :
    (P : Platform) (c : Cluster) (labels : Dict String) (o : Deployment) {d : Deployment}
    → mutate_router_deployment P c (shard_map_name c) (router_name c) labels o ≡ ok d
    → IsRouter P c labels d
unfolding mutate_router_deployment
mutate_router_deployment-IsRouter P c labels o {d} h =
    let envs = and_then-eq_ok (router_env P c) _ h in
    let step =
      and_then-eq_ok
        (update_first "router" (router_container P c (shard_map_name c) envs.0) o.containers) _
        envs.2 in
    let built = own-eq_ok P.client c _ _ step.2 in
    let head =
      update_first-head "router" (router_container P c (shard_map_name c) envs.0) o.containers
        step.1 in
    record {
      container = head.0;
      rest = head.1;
      env = envs.0;
      env_lem = envs.1;
      containers = ap (λ (x : Deployment). x.containers) built.1 ∙ ap some head.2;
      replicas = ap (λ (x : Deployment). x.replicas) built.1;
      account = ap (λ (x : Deployment). x.service_account_name) built.1;
      selector = ap (λ (x : Deployment). x.selector) built.1;
      template = ap (λ (x : Deployment). x.template_labels) built.1;
    }

-- The end of a step that drops the value.
pub dropped-eq_ok :
    {S A : Type 0} (m : M S A) (s t : S)
    → attempt m raise (λ _. pure tt) s ≡ (ok tt, t)
    → (a : A) × (m s ≡ (ok a, t))
dropped-eq_ok {S} {A} m s t h = go (m s) refl h
  where
    go :
        (r : Outcome A × S)
        → m s ≡ r
        → resume {B = Unit {0}} raise (λ _. pure tt) r ≡ (ok tt, t)
        → (a : A) × (m s ≡ (ok a, t))
    go (ok a, u) e k = (a, cc)
    go (err x, u) e k = cc
    go (panic, u) e k = cc
