-- ===== src/Controller/Reconcile/Success.antt =====
-- What a reconcile that returns without an error has done.
use llm_inference_operator.Base.{
  Option, none, some, Bool, true, false, ◌≡◌, refl, Bool-cases, inl, inr, deref,
}
use llm_inference_operator.Base.Int.{ℤ}
use llm_inference_operator.Kube.{ok}
use llm_inference_operator.Platform.{Platform}
use llm_inference_operator.Cluster.{Cluster}
use llm_inference_operator.Controller.Labels.{role_decode, role_prefill, base_labels}
use llm_inference_operator.Controller.Autoscale.{compute_decode_replicas}
use llm_inference_operator.Controller.Shards.{compute_shard_map}
use llm_inference_operator.Controller.Children.{
  reconcile_role_service, reconcile_router_service, reconcile_shard_map_config_map,
  reconcile_signals_config_map, reconcile_router_rbac,
}
use llm_inference_operator.Controller.Workloads.{
  reconcile_role_deployment, reconcile_router_deployment,
}
use llm_inference_operator.Controller.Status.{Return, set_condition}
use llm_inference_operator.Controller.Reconcile.{
  publish_shards, reconcile_children, mark_scaling, reconcile_live, decode_name, prefill_name,
  router_name, shard_map_name, signals_name,
}
use llm_inference_operator.Controller.Reconcile.Published.{
  IsStart, IsPublished, Publishes, or_degraded-Publishes, read_pointer-Publishes,
  publish_status-Publishes,
}

module _ (P : Platform) (original base : Cluster) where
  open P use {client as api}

  publish_shards-Publishes :
      (c : Cluster) (s : api.State)
      → IsStart P original base c
      → Publishes P original base (publish_shards P original c (base_labels base) s)
  unfolding publish_shards
  publish_shards-Publishes c s start =
      or_degraded-Publishes P original base c (compute_shard_map api P.codec c (base_labels base)) _
        s
        λ (shards, text) t q.
          let c' : Cluster = record c { status = record c.status { shards = shards } } in
          or_degraded-Publishes P original base c'
            (reconcile_shard_map_config_map api c' (shard_map_name c') (base_labels base) text) _ t
            (λ a u _. publish_status-Publishes P original base c' u (record {
              from = c;
              start = start;
              shards = shards;
              text = text;
              listing = s;
              listed = t;
              placed = q;
              placed_in = refl;
            }))

  children-Publishes :
      (c : Cluster) (override : Option ℤ) (s : api.State)
      → IsStart P original base c
      → Publishes P original base (reconcile_children P original c (base_labels base) override s)
  unfolding reconcile_children
  children-Publishes c override s start =
      let labels = base_labels base in
      read_pointer-Publishes P original base c.spec.runtime.decode.service_port _ s λ dp _.
        or_degraded-Publishes P original base c
          (reconcile_role_service api c role_decode (decode_name c) dp labels) _ s
          λ _ s2 _.
            read_pointer-Publishes P original base c.spec.runtime.prefill.service_port _ s2 λ pp _.
              or_degraded-Publishes P original base c
                (reconcile_role_service api c role_prefill (prefill_name c) pp labels) _ s2
                λ _ s4 _.
                  or_degraded-Publishes P original base c
                    (reconcile_router_service api c (router_name c) labels) _ s4
                    λ _ s5 _.
                      or_degraded-Publishes P original base c
                        (reconcile_router_rbac api c (router_name c) labels) _ s5
                        λ _ s6 _.
                          or_degraded-Publishes P original base c
                            (reconcile_role_deployment P c role_decode (decode_name c) labels
                              override)
                            _ s6
                            λ _ s7 _.
                              or_degraded-Publishes P original base c
                                (reconcile_role_deployment P c role_prefill (prefill_name c) labels
                                  none)
                                _ s7
                                λ _ s8 _.
                                  or_degraded-Publishes P original base c
                                    (reconcile_router_deployment P c (shard_map_name c)
                                      (router_name c) labels)
                                    _ s8 λ _ s9 _. publish_shards-Publishes c s9 start

  mark_scaling-metadata :
      (replicas : ℤ) (scaling : Bool) (w : api.State)
      → ((mark_scaling P base replicas scaling w).0.metadata ≡ base.metadata)
        × ((mark_scaling P base replicas scaling w).0.spec ≡ base.spec)
  unfolding mark_scaling set_condition
  mark_scaling-metadata replicas true w = (refl, refl)
  mark_scaling-metadata replicas false w = (refl, refl)

  reconcile_live-Publishes :
      (s : api.State) → Publishes P original base (reconcile_live P original base s)
  unfolding reconcile_live
  reconcile_live-Publishes s = elim (Bool-cases (deref base.spec.autoscaling.enabled false)) [
    | inl on ↦ rw on (
        or_degraded-Publishes P original base base
          (reconcile_signals_config_map api base (signals_name base) (base_labels base)) _ s
          λ _ t _.
            or_degraded-Publishes P original base base
              (compute_decode_replicas P.floats api base (signals_name base)) _ t
              (λ (replicas, scaling) u q.
                let marked = mark_scaling P base replicas scaling u in
                let kept = mark_scaling-metadata replicas scaling u in
                children-Publishes marked.0 (some replicas) marked.1 (record {
                  metadata = kept.0;
                  spec = kept.1;
                  condition = inr (on, replicas, scaling, t, u, q, refl);
                })))
    | inr off ↦ rw off (
        children-Publishes base none s
          (record { metadata = refl; spec = refl; condition = inl (off, refl) }))
  ]

  pub reconcile_live_success :
      (s t : api.State) (v : Return)
      → reconcile_live P original base s ≡ (ok v, t)
      → v.error ≡ none
      → IsPublished P original base v t
  reconcile_live_success s t v returned no_error =
      (reconcile_live-Publishes s).published v t returned no_error
