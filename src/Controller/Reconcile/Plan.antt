-- ===== src/Controller/Reconcile/Plan.antt =====
-- The children of a live cluster as a list of steps, and the reconcile as a run of that list.
use llm_inference_operator.Base.{String, List, [], ◌∷◌, Option, none, some, ◌≡◌, refl}
use llm_inference_operator.Base.Int.{ℤ}
use llm_inference_operator.Base.Dict.{Dict}
use llm_inference_operator.Kube.{ok}
use llm_inference_operator.Kube.Client.{M}
use llm_inference_operator.Platform.{Platform}
use llm_inference_operator.Cluster.{Cluster}
use llm_inference_operator.Controller.Labels.{role_decode, role_prefill}
use llm_inference_operator.Controller.Status.{Return}
use llm_inference_operator.Controller.Children.{
  reconcile_role_service, reconcile_router_service, reconcile_router_rbac,
}
use llm_inference_operator.Controller.Workloads.{
  reconcile_role_deployment, reconcile_router_deployment,
}
use llm_inference_operator.Controller.Reconcile.{
  or_degraded, publish_shards, reconcile_children, decode_name, prefill_name, router_name,
  shard_map_name,
}

module _ (P : Platform) where
  open P use {client as api}

  abbrev pub Action : Type 0
  Action = M api.State (Unit {0})

  -- The specification: the services, the router's RBAC, then the deployments.
  abbrev pub plan : Cluster → ℤ → ℤ → Dict String → Option ℤ → List Action
  plan c decode_port prefill_port labels override =
      reconcile_role_service api c role_decode (decode_name c) decode_port labels
      ∷ reconcile_role_service api c role_prefill (prefill_name c) prefill_port labels
      ∷ reconcile_router_service api c (router_name c) labels
      ∷ reconcile_router_rbac api c (router_name c) labels
      ∷ reconcile_role_deployment P c role_decode (decode_name c) labels override
      ∷ reconcile_role_deployment P c role_prefill (prefill_name c) labels none
      ∷ reconcile_router_deployment P c (shard_map_name c) (router_name c) labels
      ∷ []

  -- The steps in order; the first error ends the run through `requeueDegraded`.
  abbrev pub run_plan : List Action → Cluster → M api.State Return → M api.State Return
  run_plan [] c last = last
  run_plan (m ∷ ms) c last = or_degraded P c m (λ _. run_plan ms c last)

  -- All steps of a list succeed, one after the other, and lead from one state to another.
  abbrev pub Completes : List Action → api.State → api.State → Type 0
  Completes [] s t = s ≡ t
  Completes (m ∷ ms) s t = (u : api.State) × (m s ≡ (ok tt, u)) × Completes ms u t

  module _ (original c : Cluster) (labels : Dict String) (override : Option ℤ) (dp pp : ℤ)
      (decode_port : c.spec.runtime.decode.service_port ≡ some dp)
      (prefill_port : c.spec.runtime.prefill.service_port ≡ some pp) where
    -- With both ports set, the part of the reconcile that makes the children is the run of the plan,
    -- followed by the shard map and the status.
    pub reconcile_children-run_plan :
        (s : api.State)
        → reconcile_children P original c labels override s
          ≡ run_plan (plan c dp pp labels override) c (publish_shards P original c labels) s
    unfolding reconcile_children
    reconcile_children-run_plan s = rw (decode_port, prefill_port) refl
