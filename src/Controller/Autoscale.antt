-- ===== src/Controller/Autoscale.antt =====
-- `computeDecodeReplicas` (internal/controller/llminferencecluster_controller.go). Replica counts
-- are `int32`; a sum wraps.
pub mod Bounds
use llm_inference_operator.Base.{String, Option, Bool, not, ◌&&◌, if◌then◌else◌, deref, text_eq}
use llm_inference_operator.Base.Int.{ℤ, pos, ◌+ℤ◌, ◌-ℤ◌, ltb_ℤ, eqb_ℤ, wrap32}
use llm_inference_operator.Kube.Client.{Client, M, pure, ◌>>=◌}
use llm_inference_operator.Cluster.{
  Cluster, ClusterSpec, signals_source_fake, signals_source_prometheus,
}
use llm_inference_operator.Signals.{Floats, Signals, Adapter, fake_config_map, prometheus, read}

-- The variables `min`, `max` and `current` before the signals are read.
pub record Limits : Type 0 where
  pub min : ℤ
  pub max : ℤ
  pub current : ℤ

-- `if x < lo { x = lo }` and `if x > hi { x = hi }`
unfoldable pub at_least : ℤ → ℤ → ℤ
at_least lo x = if ltb_ℤ x lo then lo else x

unfoldable pub at_most : ℤ → ℤ → ℤ
at_most hi x = if ltb_ℤ hi x then hi else x

unfoldable pub limits : ClusterSpec → Limits
unfolding at_least at_most deref
limits s =
    let min : ℤ = deref s.autoscaling.min_replicas (pos 0) in
    let max : ℤ = at_least (pos 1) (deref s.autoscaling.max_replicas (pos 10)) in
    record {
      min = min;
      max = max;
      current = at_most max (at_least min (deref s.runtime.decode.replicas (pos 1)));
    }

-- The adapter for `spec.autoscaling.signals.source`; an unknown source reads the ConfigMap.
unfoldable pub adapter_for : Cluster → String → Adapter
unfolding deref
adapter_for c signals_name =
    let source : String =
      if text_eq c.spec.autoscaling.signals.source ""
      then signals_source_fake
      else c.spec.autoscaling.signals.source in
    if text_eq source signals_source_fake
    then fake_config_map c.metadata.namespace signals_name
    else if text_eq source signals_source_prometheus
    then prometheus (deref c.spec.autoscaling.signals.prometheus_url "")
    else fake_config_map c.metadata.namespace signals_name

module _ (F : Floats) where
  -- The `switch` on the queue depth.
  unfoldable pub step : Limits → F.Float → ℤ
  step l depth =
      if F.lt F.hundred depth
      then wrap32 (l.current +ℤ pos 1)
      else if F.lt depth F.ten && ltb_ℤ l.min l.current
      then wrap32 (l.current -ℤ pos 1)
      else l.current

  unfoldable pub desired : Limits → F.Float → ℤ
  unfolding step at_least at_most
  desired l depth = at_most l.max (at_least l.min (step l depth))

  module _ (api : Client) where
    -- The replica count, and whether it differs from the current one.
    unfoldable pub compute_decode_replicas : Cluster → String → M api.State (ℤ × Bool)
    unfolding desired limits adapter_for read
    compute_decode_replicas c signals_name = do
      s ← read F api (adapter_for c signals_name)
      let l = limits c.spec
      let replicas = desired l s.queue_depth
      pure (replicas, not (eqb_ℤ replicas l.current))
