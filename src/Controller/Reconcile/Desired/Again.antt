-- ===== src/Controller/Reconcile/Desired/Again.antt =====
-- A second reconcile leaves the deployments as the first one did.
use llm_inference_operator.Base.{String, Option, none, some, ◌≡◌, ◌≢◌, sym, ap, ◌∙◌}
use llm_inference_operator.Base.Int.{ℤ}
use llm_inference_operator.Base.Dict.{Dict}
use llm_inference_operator.Kube.{Outcome, ok, Deployment}
use llm_inference_operator.Kube.Client.{M}
use llm_inference_operator.Platform.{Platform}
use llm_inference_operator.Cluster.{Cluster}
use llm_inference_operator.Controller.Labels.{role_decode, role_prefill}
use llm_inference_operator.Controller.Status.{Return}
use llm_inference_operator.Controller.Settled.{IsReference}
use llm_inference_operator.Controller.Settled.Children.{
  role_deployment-Settled, router_deployment-Settled,
}
use llm_inference_operator.Controller.Children.{
  reconcile_role_service, reconcile_router_service, reconcile_router_rbac,
}
use llm_inference_operator.Controller.Workloads.{
  mutate_role_deployment, mutate_router_deployment, reconcile_role_deployment,
  reconcile_router_deployment,
}
use llm_inference_operator.Controller.Reconcile.{
  publish_shards, reconcile_children, decode_name, prefill_name, router_name, shard_map_name,
}
use llm_inference_operator.Controller.Reconcile.Plan.{plan, reconcile_children-run_plan}
use llm_inference_operator.Controller.Reconcile.Inversion.{run_plan-eq_ok}
use llm_inference_operator.Controller.Reconcile.Desired.{View, IsStore}
use llm_inference_operator.Controller.Reconcile.Desired.Keeps.{
  role_service-Keeps, router_service-Keeps, rbac-Keeps,
}
use llm_inference_operator.Controller.Reconcile.Desired.Stored.{
  held_after, suffix_apart, decode_ne_prefill, decode_ne_router, prefill_ne_router,
}
use llm_inference_operator.Controller.Reconcile.Desired.Writes.{
  at, write, write_fixed, write_again, write_others,
}

module _ (P : Platform) (view : View P.client) (store : IsStore P.client view) (c : Cluster) where
  open P use {client as api}

  module _ (labels : Dict String) (override : Option ℤ) where
    abbrev decode : Deployment → Outcome Deployment
    decode = mutate_role_deployment P c role_decode (decode_name c) labels override

    abbrev prefill : Deployment → Outcome Deployment
    prefill = mutate_role_deployment P c role_prefill (prefill_name c) labels none

    abbrev router : Deployment → Outcome Deployment
    router = mutate_router_deployment P c (shard_map_name c) (router_name c) labels

    -- What a run without an error did to the deployments.
    record Ran (s t : api.State) : Type 0 where
      u4 : api.State
      u5 : api.State
      u6 : api.State
      u7 : api.State
      before : (name : String) → at P view store c u4 name ≡ at P view store c s name
      decoded : write P view store c (decode_name c) decode u4 ≡ (ok tt, u5)
      prefilled : write P view store c (prefill_name c) prefill u5 ≡ (ok tt, u6)
      routed : write P view store c (router_name c) router u6 ≡ (ok tt, u7)
      after : (name : String) → at P view store c t name ≡ at P view store c u7 name

    kept_by :
        (m : M api.State (Unit {0})) (s t : api.State)
        → view (m s).1 ≡ view s
        → m s ≡ (ok tt, t)
        → (name : String) → at P view store c t name ≡ at P view store c s name
    kept_by m s t keeps h name =
        ap (λ (q : Outcome (Unit {0}) × api.State). at P view store c q.1 name) (sym h)
        ∙ ap (λ (look : String → String → Option Deployment). look c.metadata.namespace name) keeps

    reconcile_children-Ran :
        (original : Cluster) (dp pp : ℤ) (s t : api.State) (v : Return)
        → c.spec.runtime.decode.service_port ≡ some dp
        → c.spec.runtime.prefill.service_port ≡ some pp
        → reconcile_children P original c labels override s ≡ (ok v, t)
        → v.error ≡ none
        → Ran s t
    unfolding reconcile_role_deployment reconcile_router_deployment
    reconcile_children-Ran original dp pp s t v decode_port prefill_port ran clean =
        let planned =
          sym (
            reconcile_children-run_plan P original c labels override dp pp decode_port prefill_port
              s)
          ∙ ran in
        let (w, done, published) =
          run_plan-eq_ok P c (plan P c dp pp labels override) (publish_shards P original c labels) s
            t v planned clean in
        let (u1, one, rest1) = done in
        let (u2, two, rest2) = rest1 in
        let (u3, three, rest3) = rest2 in
        let (u4, four, rest4) = rest3 in
        let (u5, decoded, rest5) = rest4 in
        let (u6, prefilled, rest6) = rest5 in
        let (u7, routed, ended) = rest6 in
        record {
          u4 = u4;
          u5 = u5;
          u6 = u6;
          u7 = u7;
          before = λ name.
              kept_by (reconcile_router_rbac api c (router_name c) labels) u3 u4
                (rbac-Keeps P view store c (router_name c) labels u3) four name
              ∙ kept_by (reconcile_router_service api c (router_name c) labels) u2 u3
                  (router_service-Keeps P view store c (router_name c) labels u2) three name
              ∙ kept_by (reconcile_role_service api c role_prefill (prefill_name c) pp labels) u1 u2
                  (role_service-Keeps P view store c role_prefill (prefill_name c) pp labels u1) two
                  name
              ∙ kept_by (reconcile_role_service api c role_decode (decode_name c) dp labels) s u1
                  (role_service-Keeps P view store c role_decode (decode_name c) dp labels s) one
                  name;
          decoded = decoded;
          prefilled = prefilled;
          routed = routed;
          after = λ name. held_after P view store c original labels u7 w t v ended published name;
        }

    decode_apart_prefill : decode_name c ≢ prefill_name c
    decode_apart_prefill = suffix_apart c.metadata.name "-decode" "-prefill" decode_ne_prefill

    decode_apart_router : decode_name c ≢ router_name c
    decode_apart_router = suffix_apart c.metadata.name "-decode" "-router" decode_ne_router

    prefill_apart_router : prefill_name c ≢ router_name c
    prefill_apart_router = suffix_apart c.metadata.name "-prefill" "-router" prefill_ne_router

    module _ (s t : api.State) (r : Ran s t) where
      decode_after : at P view store c t (decode_name c) ≡ at P view store c r.u5 (decode_name c)
      decode_after =
          r.after (decode_name c)
          ∙ write_others P view store c (router_name c) (decode_name c) router r.u6 r.u7
              decode_apart_router r.routed
          ∙ write_others P view store c (prefill_name c) (decode_name c) prefill r.u5 r.u6
              decode_apart_prefill r.prefilled

      prefill_after : at P view store c t (prefill_name c) ≡ at P view store c r.u6 (prefill_name c)
      prefill_after =
          r.after (prefill_name c)
          ∙ write_others P view store c (router_name c) (prefill_name c) router r.u6 r.u7
              prefill_apart_router r.routed

      prefill_before :
          at P view store c r.u5 (prefill_name c) ≡ at P view store c s (prefill_name c)
      prefill_before =
          write_others P view store c (decode_name c) (prefill_name c) decode r.u4 r.u5
            (λ e. decode_apart_prefill (sym e)) r.decoded
          ∙ r.before (prefill_name c)

      router_before : at P view store c r.u6 (router_name c) ≡ at P view store c s (router_name c)
      router_before =
          write_others P view store c (prefill_name c) (router_name c) prefill r.u5 r.u6
            (λ e. prefill_apart_router (sym e)) r.prefilled
          ∙ write_others P view store c (decode_name c) (router_name c) decode r.u4 r.u5
              (λ e. decode_apart_router (sym e)) r.decoded
          ∙ r.before (router_name c)

    -- Where the server keeps what `CreateOrUpdate` wrote, `SetControllerReference` changes nothing the second
    -- time, and both ports are set: after two runs in a row of the children and the status for the
    -- same cluster and replicas, both without an error, the server holds the same decode, prefill
    -- and router deployments as after the first.
    pub reconcile_children_again :
        (reference : IsReference api c) (original next : Cluster) (dp pp : ℤ) (s t u : api.State)
        (v w : Return)
        → c.spec.runtime.decode.service_port ≡ some dp
        → c.spec.runtime.prefill.service_port ≡ some pp
        → reconcile_children P original c labels override s ≡ (ok v, t)
        → v.error ≡ none
        → reconcile_children P next c labels override t ≡ (ok w, u)
        → w.error ≡ none
        → (at P view store c u (decode_name c) ≡ at P view store c t (decode_name c))
          × (at P view store c u (prefill_name c) ≡ at P view store c t (prefill_name c))
          × (at P view store c u (router_name c) ≡ at P view store c t (router_name c))
    reconcile_children_again reference original next dp pp s t u v w decode_port prefill_port ran
          clean ran' clean' =
        let one = reconcile_children-Ran original dp pp s t v decode_port prefill_port ran clean in
        let two = reconcile_children-Ran next dp pp t u w decode_port prefill_port ran' clean' in
        let (d, d_held, d_fixed) =
          write_fixed P view store c (decode_name c) decode one.u4 one.u5
            (role_deployment-Settled P c reference role_decode (decode_name c) labels override)
            one.decoded in
        let (p, p_held, p_fixed) =
          write_fixed P view store c (prefill_name c) prefill one.u5 one.u6
            (role_deployment-Settled P c reference role_prefill (prefill_name c) labels none)
            one.prefilled in
        let (r, r_held, r_fixed) =
          write_fixed P view store c (router_name c) router one.u6 one.u7
            (router_deployment-Settled P c reference (shard_map_name c) (router_name c) labels)
            one.routed in
        let d_first = decode_after s t one ∙ d_held in
        let p_first = prefill_after s t one ∙ p_held in
        let r_first = one.after (router_name c) ∙ r_held in
        (
          decode_after t u two
              ∙ write_again P view store c (decode_name c) decode two.u4 two.u5 d
                  (two.before (decode_name c) ∙ d_first) d_fixed two.decoded
              ∙ sym d_first,
          prefill_after t u two
              ∙ write_again P view store c (prefill_name c) prefill two.u5 two.u6 p
                  (prefill_before t u two ∙ p_first) p_fixed two.prefilled
              ∙ sym p_first,
          two.after (router_name c)
              ∙ write_again P view store c (router_name c) router two.u6 two.u7 r
                  (router_before t u two ∙ r_first) r_fixed two.routed
              ∙ sym r_first,
        )
