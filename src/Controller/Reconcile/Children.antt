-- ===== src/Controller/Reconcile/Children.antt =====
-- The part of `Reconcile` that writes the children and the status does not panic.
use llm_inference_operator.Base.{String, Option, none, some, ◌≢◌, refl}
use llm_inference_operator.Base.Int.{ℤ}
use llm_inference_operator.Base.Dict.{Dict}
use llm_inference_operator.Kube.{Error, Outcome, ok, err, panic}
use llm_inference_operator.Kube.Client.{M}
use llm_inference_operator.Platform.{Platform}
use llm_inference_operator.Json.{Json}
use llm_inference_operator.Cluster.{Cluster}
use llm_inference_operator.Controller.Labels.{role_decode, role_prefill}
use llm_inference_operator.Controller.Status.{
  Return, failed, requeue_degraded, mark_degraded, drop_error,
}
use llm_inference_operator.Controller.Shards.{compute_shard_map}
use llm_inference_operator.Controller.Children.{
  reconcile_role_service, reconcile_router_service, reconcile_shard_map_config_map,
  reconcile_router_rbac,
}
use llm_inference_operator.Controller.Workloads.{
  reconcile_role_deployment, reconcile_router_deployment,
}
use llm_inference_operator.Controller.Reconcile.{
  publish_status, publish_shards, reconcile_children, or_degraded, read_pointer, decode_name,
  prefill_name, router_name, shard_map_name,
}
use llm_inference_operator.Controller.Reconcile.Calm.{
  IsCalm, IsCalmClient, attempt-IsCalm, pure-IsCalm,
}
use llm_inference_operator.Controller.Reconcile.Steps.{
  IsRunnable, role_service-IsCalm, router_service-IsCalm, shard_map-IsCalm, rbac-IsCalm,
  role_deployment-IsCalm, router_deployment-IsCalm, compute_shard_map-IsCalm,
}

module _ (P : Platform) (calm : IsCalmClient P.client)
    (printed : (j : Json) → P.codec.print j ≢ panic) where
  drop_error-ne_panic :
      (r : Outcome Cluster) (v : Return) → r ≢ panic → drop_error P.client r v ≢ panic
  unfolding drop_error
  drop_error-ne_panic (ok c) v h = λ q. cc
  drop_error-ne_panic (err e) v h = λ q. cc
  drop_error-ne_panic panic v h = absurd (h refl)

  degraded-IsCalm :
      (c : Cluster) (e : Error) (s : P.client.State) → IsCalm (requeue_degraded P.client c e) s
  unfolding requeue_degraded
  degraded-IsCalm c e s =
      let after = mark_degraded P.client c e s in
      drop_error-ne_panic (P.client.update_status after.0 after.1).0 _
        (calm.update_status after.0 after.1)

  pub or_degraded-IsCalm :
      {A : Type 0} (c : Cluster) (m : M P.client.State A) (rest : A → M P.client.State Return)
      (s : P.client.State)
      → IsCalm m s
      → ((a : A) (t : P.client.State) → IsCalm (rest a) t)
      → IsCalm (or_degraded P c m rest) s
  or_degraded-IsCalm c m rest s h k =
      attempt-IsCalm m (requeue_degraded P.client c) rest s h (degraded-IsCalm c) (λ a t e. k a t)

  read_pointer-IsCalm :
      {A B : Type 0} (p : Option A) (rest : A → M P.client.State B) (s : P.client.State)
      → p ≢ none
      → ((a : A) (t : P.client.State) → IsCalm (rest a) t)
      → IsCalm (read_pointer P p rest) s
  read_pointer-IsCalm none rest s h k = absurd (h refl)
  read_pointer-IsCalm (some a) rest s h k = k a s

  publish_status-IsCalm :
      (original c : Cluster) (s : P.client.State)
      → IsRunnable c.spec
      → IsCalm (publish_status P original c) s
  unfolding publish_status
  publish_status-IsCalm original c s r =
      read_pointer-IsCalm c.spec.runtime.decode.service_port _ s r.decode_port λ decode_port t.
        read_pointer-IsCalm c.spec.runtime.prefill.service_port _ t r.prefill_port λ prefill_port u.
          attempt-IsCalm (P.client.patch_status _ original) _ _ _ (calm.patch_status _ original _)
            (λ e v. pure-IsCalm (failed e) v) (λ a v e. pure-IsCalm _ v)

  publish_shards-IsCalm :
      (original c : Cluster) (labels : Dict String) (s : P.client.State)
      → IsRunnable c.spec
      → IsCalm (publish_shards P original c labels) s
  unfolding publish_shards
  publish_shards-IsCalm original c labels s r =
      or_degraded-IsCalm c (compute_shard_map P.client P.codec c labels) _ s
        (compute_shard_map-IsCalm P calm c labels s printed r)
        λ (shards, text) t.
          let c' : Cluster = record c { status = record c.status { shards = shards } } in
          or_degraded-IsCalm c'
            (reconcile_shard_map_config_map P.client c' (shard_map_name c') labels text) _ t
            (shard_map-IsCalm P.client calm c' (shard_map_name c') text labels t)
            (λ a u. publish_status-IsCalm original c' u r)

  pub children-IsCalm :
      (original c : Cluster) (labels : Dict String) (override : Option ℤ) (s : P.client.State)
      → IsRunnable c.spec
      → IsCalm (reconcile_children P original c labels override) s
  unfolding reconcile_children
  children-IsCalm original c labels override s r =
      read_pointer-IsCalm c.spec.runtime.decode.service_port _ s r.decode_port λ decode_port s1.
        or_degraded-IsCalm c
          (reconcile_role_service P.client c role_decode (decode_name c) decode_port labels) _ s1
          (role_service-IsCalm P.client calm c role_decode (decode_name c) decode_port labels s1)
          λ _ s2.
            read_pointer-IsCalm c.spec.runtime.prefill.service_port _ s2 r.prefill_port
              λ prefill_port s3.
                or_degraded-IsCalm c
                  (reconcile_role_service P.client c role_prefill (prefill_name c) prefill_port
                    labels)
                  _ s3
                  (role_service-IsCalm P.client calm c role_prefill (prefill_name c) prefill_port
                    labels s3)
                  λ _ s4.
                    or_degraded-IsCalm c
                      (reconcile_router_service P.client c (router_name c) labels) _ s4
                      (router_service-IsCalm P.client calm c (router_name c) labels s4)
                      λ _ s5.
                        or_degraded-IsCalm c
                          (reconcile_router_rbac P.client c (router_name c) labels) _ s5
                          (rbac-IsCalm P.client calm c (router_name c) labels s5)
                          λ _ s6.
                            or_degraded-IsCalm c
                              (reconcile_role_deployment P c role_decode (decode_name c) labels
                                override)
                              _ s6
                              (role_deployment-IsCalm P calm c role_decode (decode_name c) labels
                                override s6)
                              λ _ s7.
                                or_degraded-IsCalm c
                                  (reconcile_role_deployment P c role_prefill (prefill_name c)
                                    labels none)
                                  _ s7
                                  (role_deployment-IsCalm P calm c role_prefill (prefill_name c)
                                    labels none s7)
                                  λ _ s8.
                                    or_degraded-IsCalm c
                                      (reconcile_router_deployment P c (shard_map_name c)
                                        (router_name c) labels)
                                      _ s8
                                      (router_deployment-IsCalm P calm c (shard_map_name c)
                                        (router_name c) labels s8 r)
                                      (λ _ s9. publish_shards-IsCalm original c labels s9 r)
