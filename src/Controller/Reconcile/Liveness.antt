-- ===== src/Controller/Reconcile/Liveness.antt =====
-- Against a server that accepts what it is sent, one reconcile makes a live cluster ready.
use llm_inference_operator.Base.{
  Bool, false, String, List, [], ◌∷◌, Option, none, some, ◌≡◌, ◌≢◌, refl, ◌∙◌, deref, Bool-cases,
  inl, inr, true,
}
use llm_inference_operator.Base.Int.{ℤ, pos, ◌≤ℤ◌}
use llm_inference_operator.Base.Dict.{Dict}
use llm_inference_operator.Kube.{ok}
use llm_inference_operator.Kube.Client.{M}
use llm_inference_operator.Platform.{Platform}
use llm_inference_operator.Json.{Json}
use llm_inference_operator.Cluster.{Cluster, ShardStatus, signals_source_prometheus}
use llm_inference_operator.Controller.Labels.{role_decode, role_prefill, base_labels}
use llm_inference_operator.Controller.Shards.{compute_shard_map}
use llm_inference_operator.Controller.Status.{Return, mark_ready}
use llm_inference_operator.Controller.Autoscale.{compute_decode_replicas}
use llm_inference_operator.Controller.Children.{
  reconcile_shard_map_config_map, reconcile_signals_config_map,
}
use llm_inference_operator.Controller.Reconcile.{
  read_pointer, or_degraded, publish_status, publish_shards, reconcile_children, reconcile_live,
  mark_scaling, with_status, decode_name, prefill_name, router_name, shard_map_name, signals_name,
}
use llm_inference_operator.Controller.Reconcile.Plan.{
  Action, plan, run_plan, reconcile_children-run_plan,
}
use llm_inference_operator.Controller.Reconcile.Willing.{IsOk, Works, IsWilling}
use llm_inference_operator.Controller.Reconcile.Willing.Steps.{
  role_service-Works, router_service-Works, rbac-Works, shard_map-Works, signals-Works,
  role_deployment-Works, router_deployment-Works, router_env-IsOk, decode_replicas-Works,
  compute_shard_map-Works,
}

module _ (P : Platform) (willing : IsWilling P.client)
    (printed : (j : Json) → IsOk (P.codec.print j)) where
  open P use {client as api}

  abbrev ready : Return
  ready = record { requeue_after = 30; error = none }

  -- The run returns the result of a success.
  abbrev pub Succeeds : M api.State Return → api.State → Type 0
  Succeeds m s = (t : api.State) × (m s ≡ (ok ready, t))

  or_degraded-Succeeds :
      {A : Type 0} (c : Cluster) (m : M api.State A) (rest : A → M api.State Return) (s : api.State)
      → Works m s
      → ((a : A) (t : api.State) → Succeeds (rest a) t)
      → Succeeds (or_degraded P c m rest) s
  or_degraded-Succeeds c m rest s (a, t, e) next = let (u, f) = next a t in (u, rw e f)

  read_pointer-Succeeds :
      {A : Type 0} (p : Option A) (a : A) (rest : A → M api.State Return) (s : api.State)
      → p ≡ some a
      → Succeeds (rest a) s
      → Succeeds (read_pointer P p rest) s
  read_pointer-Succeeds p a rest s e h = rw e h

  -- All steps of a list can be run, one after the other, from any state.
  abbrev AllWork : List (Action P) → Type 0
  AllWork [] = Unit
  AllWork (m ∷ ms) = ((s : api.State) → Works m s) × AllWork ms

  run_plan-Succeeds :
      (ms : List (Action P)) (c : Cluster) (last : M api.State Return) (s : api.State)
      → AllWork ms
      → ((t : api.State) → Succeeds last t)
      → Succeeds (run_plan P ms c last) s
  run_plan-Succeeds [] c last s h k = k s
  run_plan-Succeeds (m ∷ ms) c last s (h, hs) k =
      or_degraded-Succeeds c m _ s (h s) (λ _ t. run_plan-Succeeds ms c last t hs k)

  module _ (original c : Cluster) (dp pp : ℤ)
      (decode_port : c.spec.runtime.decode.service_port ≡ some dp)
      (prefill_port : c.spec.runtime.prefill.service_port ≡ some pp)
      (count : pos 0 ≤ℤ deref c.spec.kv_cache.num_shards (pos 8)) where
    plan-AllWork :
        (labels : Dict String) (override : Option ℤ) → AllWork (plan P c dp pp labels override)
    plan-AllWork labels override = (
      λ s. role_service-Works api willing c role_decode (decode_name c) dp labels s,
      (
        λ s. role_service-Works api willing c role_prefill (prefill_name c) pp labels s,
        (
          λ s. router_service-Works api willing c (router_name c) labels s,
          (
            λ s. rbac-Works api willing c (router_name c) labels s,
            (
              λ s. role_deployment-Works P willing c role_decode (decode_name c) labels override s,
              (
                λ s. role_deployment-Works P willing c role_prefill (prefill_name c) labels none s,
                (
                  λ s.
                      router_deployment-Works P willing c (shard_map_name c) (router_name c) labels
                        s (router_env-IsOk P willing c dp pp decode_port prefill_port),
                  tt,
                ),
              ),
            ),
          ),
        ),
      ),
    )

    publish_status-Succeeds :
        (shards : List ShardStatus) (s : api.State)
        → Succeeds
            (publish_status P original (record c { status = record c.status { shards = shards } }))
            s
    unfolding publish_status
    publish_status-Succeeds shards s =
        let marked =
          mark_ready api
            (with_status P (record c { status = record c.status { shards = shards } }) dp pp) s in
        let (d, t, e) = willing.patch_status marked.0 original marked.1 in
        read_pointer-Succeeds c.spec.runtime.decode.service_port dp _ s decode_port (
          read_pointer-Succeeds c.spec.runtime.prefill.service_port pp _ s prefill_port
            (t, rw e refl))

    publish_shards-Succeeds :
        (labels : Dict String) (s : api.State) → Succeeds (publish_shards P original c labels) s
    unfolding publish_shards
    publish_shards-Succeeds labels s =
        or_degraded-Succeeds c (compute_shard_map api P.codec c labels) _ s
          (compute_shard_map-Works P willing c labels s printed count)
          λ (shards, text) t.
            let c' : Cluster = record c { status = record c.status { shards = shards } } in
            or_degraded-Succeeds c'
              (reconcile_shard_map_config_map api c' (shard_map_name c') labels text) _ t
              (shard_map-Works api willing c' (shard_map_name c') text labels t)
              (λ a u. publish_status-Succeeds shards u)

    children-Succeeds :
        (labels : Dict String) (override : Option ℤ) (s : api.State)
        → Succeeds (reconcile_children P original c labels override) s
    children-Succeeds labels override s =
        let (t, e) =
          run_plan-Succeeds (plan P c dp pp labels override) c (publish_shards P original c labels)
            s (plan-AllWork labels override) (publish_shards-Succeeds labels) in
        (
          t,
          reconcile_children-run_plan P original c labels override dp pp decode_port prefill_port s
              ∙ e,
        )

  autoscaled-Succeeds :
      (original c : Cluster) (dp pp : ℤ) (replicas : ℤ) (scaling : Bool) (s : api.State)
      → c.spec.runtime.decode.service_port ≡ some dp
      → c.spec.runtime.prefill.service_port ≡ some pp
      → pos 0 ≤ℤ deref c.spec.kv_cache.num_shards (pos 8)
      → let (c', s') = mark_scaling P c replicas scaling s in
        Succeeds (reconcile_children P original c' (base_labels c) (some replicas)) s'
  unfolding mark_scaling
  autoscaled-Succeeds original c dp pp replicas true s d p count =
      children-Succeeds original (mark_scaling P c replicas true s).0 dp pp d p count
        (base_labels c) (some replicas) (mark_scaling P c replicas true s).1
  autoscaled-Succeeds original c dp pp replicas false s d p count =
      children-Succeeds original (mark_scaling P c replicas false s).0 dp pp d p count
        (base_labels c) (some replicas) (mark_scaling P c replicas false s).1

  -- Against a server that accepts every request, with a JSON printer that prints every value: the
  -- reconcile of a live cluster with both ports set, a number of shards that is not negative and,
  -- where autoscaling is on, a source other than "prometheus", runs to its end and returns without an
  -- error and with the next reconcile in 30 seconds.
  pub reconcile_live-Succeeds :
      (original c : Cluster) (dp pp : ℤ) (s : api.State)
      → c.spec.runtime.decode.service_port ≡ some dp
      → c.spec.runtime.prefill.service_port ≡ some pp
      → pos 0 ≤ℤ deref c.spec.kv_cache.num_shards (pos 8)
      → (deref c.spec.autoscaling.enabled false ≡ true
          → c.spec.autoscaling.signals.source ≢ signals_source_prometheus)
      → (t : api.State) × (reconcile_live P original c s
          ≡ (ok (record { requeue_after = 30; error = none }), t))
  unfolding reconcile_live
  reconcile_live-Succeeds original c dp pp s d p count implemented =
      elim (Bool-cases (deref c.spec.autoscaling.enabled false)) [
        | inl on ↦ rw on (
            or_degraded-Succeeds c
              (reconcile_signals_config_map api c (signals_name c) (base_labels c)) _ s
              (signals-Works api willing c (signals_name c) (base_labels c) s)
              λ _ t.
                or_degraded-Succeeds c (compute_decode_replicas P.floats api c (signals_name c)) _ t
                  (decode_replicas-Works P willing c (signals_name c) t (implemented on))
                  (λ (replicas, scaling) u.
                    autoscaled-Succeeds original c dp pp replicas scaling u d p count))
        | inr off ↦ rw off (children-Succeeds original c dp pp d p count (base_labels c) none s)
      ]
