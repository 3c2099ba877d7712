-- ===== src/Controller/Reconcile.antt =====
-- `Reconcile` (internal/controller/llminferencecluster_controller.go), in the order of its calls.
pub mod Calm
pub mod Steps
pub mod Children
pub mod NoPanic
pub mod Deletion
pub mod Prometheus
pub mod Published
pub mod Success
pub mod Ended
pub mod Plan
pub mod Willing
pub mod Liveness
pub mod Inversion
pub mod Desired
use llm_inference_operator.Base.{
  ℕ, String, List, [], ◌∷◌, Option, none, some, Bool, true, false, ◌==◌, ◌<>◌, if◌then◌else◌, deref,
}
use llm_inference_operator.Base.Int.{ℤ, pos, itoa}
use llm_inference_operator.Base.Dict.{Dict}
use llm_inference_operator.Kube.{Error, Outcome, ok, err, panic}
use llm_inference_operator.Kube.Client.{Client, M, pure, attempt}
use llm_inference_operator.Platform.{Platform}
use llm_inference_operator.Cluster.{Cluster}
use llm_inference_operator.Cluster.Defaults.{apply_defaults}
use llm_inference_operator.Controller.Labels.{base_labels, role_decode, role_prefill}
use llm_inference_operator.Controller.Autoscale.{compute_decode_replicas}
use llm_inference_operator.Controller.Shards.{compute_shard_map}
use llm_inference_operator.Controller.Children.{
  reconcile_role_service, reconcile_router_service, reconcile_shard_map_config_map,
  reconcile_signals_config_map, reconcile_router_rbac,
}
use llm_inference_operator.Controller.Workloads.{
  service_dns, reconcile_role_deployment, reconcile_router_deployment,
}
use llm_inference_operator.Controller.Status.{
  condition_scaling, Return, done, failed, set_condition, requeue_degraded, mark_ready,
}

abbrev pub finalizer : String
finalizer = "inference.llm.io/finalizer"

-- `!cluster.DeletionTimestamp.IsZero()`
unfoldable pub is_deleting : Cluster → Bool
is_deleting c = is_set c.metadata.deletion_timestamp
  where
    is_set : Option ℕ → Bool
    is_set none = false
    is_set (some t) = if t == 0 then false else true

-- The names of the children.
abbrev pub decode_name : Cluster → String
decode_name c = c.metadata.name <> "-decode"

abbrev pub prefill_name : Cluster → String
prefill_name c = c.metadata.name <> "-prefill"

abbrev pub router_name : Cluster → String
router_name c = c.metadata.name <> "-router"

abbrev pub shard_map_name : Cluster → String
shard_map_name c = c.metadata.name <> "-shardmap"

abbrev pub signals_name : Cluster → String
signals_name c = c.metadata.name <> "-signals"

module _ (P : Platform) where
  open P use {client as api}

  -- A step whose error ends the reconcile through `requeueDegraded`.
  abbrev pub or_degraded :
      {A : Type 0} → Cluster → M api.State A → (A → M api.State Return) → M api.State Return
  or_degraded c m rest = attempt m (requeue_degraded api c) rest

  -- `*p`
  abbrev pub read_pointer : {A B : Type 0} → Option A → (A → M api.State B) → M api.State B
  read_pointer none rest s = (panic, s)
  read_pointer (some a) rest s = rest a s

  -- The fields of the status that the last part writes.
  unfoldable pub with_status : Cluster → ℤ → ℤ → Cluster
  unfolding service_dns
  with_status c decode_port prefill_port = record c {
    status = record c.status {
      observed_generation = c.metadata.generation;
      endpoints = record {
        router_url =
            "http://"
            <> (router_name c <> ("." <> (c.metadata.namespace <> ".svc.cluster.local:8080")));
        decode_service = service_dns (decode_name c) c.metadata.namespace decode_port;
        prefill_service = service_dns (prefill_name c) c.metadata.namespace prefill_port;
      };
    };
  }

  -- From the status fields to the end.
  unfoldable pub publish_status : Cluster → Cluster → M api.State Return
  unfolding with_status mark_ready
  publish_status original c = read_pointer c.spec.runtime.decode.service_port λ decode_port.
      read_pointer c.spec.runtime.prefill.service_port λ prefill_port s.
        let (c', s') = mark_ready api (with_status c decode_port prefill_port) s in
        attempt (api.patch_status c' original) (λ e. pure (failed e))
          (λ _. pure (record { requeue_after = 30; error = none })) s'

  -- From the shard map on. The status of the cluster has the shards before the ConfigMap is written.
  unfoldable pub publish_shards : Cluster → Cluster → Dict String → M api.State Return
  unfolding publish_status compute_shard_map reconcile_shard_map_config_map
  publish_shards original c labels =
      or_degraded c (compute_shard_map api P.codec c labels) λ (shards, text).
        let c' : Cluster = record c { status = record c.status { shards = shards } } in
        or_degraded c' (reconcile_shard_map_config_map api c' (shard_map_name c') labels text)
          λ _. publish_status original c'

  -- The services, the router's RBAC and the deployments.
  unfoldable pub reconcile_children :
      Cluster → Cluster → Dict String → Option ℤ → M api.State Return
  unfolding publish_shards reconcile_role_service reconcile_router_service reconcile_router_rbac
      reconcile_role_deployment reconcile_router_deployment
  reconcile_children original c labels override =
      read_pointer c.spec.runtime.decode.service_port λ decode_port.
        or_degraded c (reconcile_role_service api c role_decode (decode_name c) decode_port labels)
          λ _. read_pointer c.spec.runtime.prefill.service_port λ prefill_port.
            or_degraded c
              (reconcile_role_service api c role_prefill (prefill_name c) prefill_port labels)
              λ _. or_degraded c (reconcile_router_service api c (router_name c) labels) λ _.
                or_degraded c (reconcile_router_rbac api c (router_name c) labels) λ _.
                  or_degraded c
                    (reconcile_role_deployment P c role_decode (decode_name c) labels override)
                    λ _.
                      or_degraded c
                        (reconcile_role_deployment P c role_prefill (prefill_name c) labels none)
                        λ _.
                          or_degraded c
                            (reconcile_router_deployment P c (shard_map_name c) (router_name c)
                              labels)
                            λ _. publish_shards original c labels

  unfoldable pub mark_scaling : Cluster → ℤ → Bool → api.State → Cluster × api.State
  unfolding set_condition
  mark_scaling c replicas true =
      set_condition api c condition_scaling "True" "Autoscaling"
        ("Autoscaling decode replicas to " <> itoa replicas)
  mark_scaling c replicas false =
      set_condition api c condition_scaling "False" "Stable" "No autoscaling change required"

  -- The block under `Autoscaling.Enabled`, and what follows it.
  unfoldable pub reconcile_live : Cluster → Cluster → M api.State Return
  unfolding reconcile_children mark_scaling reconcile_signals_config_map compute_decode_replicas
      base_labels deref
  reconcile_live original c =
      let labels = base_labels c in
      if deref c.spec.autoscaling.enabled false
      then or_degraded c (reconcile_signals_config_map api c (signals_name c) labels) (λ _.
        or_degraded c (compute_decode_replicas P.floats api c (signals_name c))
          (λ (replicas, scaling) s.
            let (c', s') = mark_scaling c replicas scaling s in
            reconcile_children original c' labels (some replicas) s'))
      else reconcile_children original c labels none

  -- The branch of a cluster that is being deleted.
  unfoldable pub release : Cluster → M api.State Return
  release c =
      if api.contains_finalizer c.metadata finalizer
      then attempt
          (api.update_cluster (record c { metadata = api.remove_finalizer c.metadata finalizer }))
          (λ e. pure (failed e)) (λ _. pure done)
      else pure done

  -- The finalizer is added before anything is created.
  unfoldable pub adopt : Cluster → Cluster → M api.State Return
  unfolding reconcile_live
  adopt original c =
      if api.contains_finalizer c.metadata finalizer
      then reconcile_live original c
      else attempt
          (api.update_cluster (record c { metadata = api.add_finalizer c.metadata finalizer }))
          (λ e. pure (failed e)) (reconcile_live original)

  -- From the test of the deletion timestamp on; `c` is what the patch returned.
  unfoldable pub reconcile_patched : Cluster → Cluster → M api.State Return
  unfolding is_deleting release adopt
  reconcile_patched original c = if is_deleting c then release c else adopt original c

  -- `Reconcile`
  unfoldable pub reconcile : String → String → M api.State Return
  unfolding apply_defaults reconcile_patched
  reconcile namespace name =
      attempt (api.get_cluster namespace name)
        (λ e. if e.is_not_found then pure done else pure (failed e))
        (λ original.
          attempt (api.patch_cluster (apply_defaults original) original) (λ e. pure (failed e))
            (reconcile_patched original))
