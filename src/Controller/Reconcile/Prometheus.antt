-- ===== src/Controller/Reconcile/Prometheus.antt =====
-- Autoscaling by the Prometheus adapter, which internal/signals/prometheus.go does not implement.
use llm_inference_operator.Base.{String, none, some, ◌≡◌, ◌≢◌, ◌∙◌, refl, true, false, deref}
use llm_inference_operator.Base.Dict.{Dict}
use llm_inference_operator.Kube.{Error, Outcome, ok, err, panic, ConfigMap}
use llm_inference_operator.Kube.Client.{Client, M, raise, pure, resume}
use llm_inference_operator.Platform.{Platform}
use llm_inference_operator.Signals.{Floats, read, new_error}
use llm_inference_operator.Cluster.{Cluster, signals_source_prometheus}
use llm_inference_operator.Controller.Labels.{base_labels}
use llm_inference_operator.Controller.Status.{
  Return, drop_error, mark_degraded, requeue_degraded, set_condition,
}
use llm_inference_operator.Controller.Autoscale.{adapter_for, compute_decode_replicas}
use llm_inference_operator.Controller.Children.{reconcile_signals_config_map}
use llm_inference_operator.Controller.Reconcile.{signals_name, reconcile_live}

compute_decode_replicas_of_prometheus :
    (F : Floats) (api : Client) (c : Cluster) (name : String) (s : api.State)
    → c.spec.autoscaling.signals.source ≡ signals_source_prometheus
    → compute_decode_replicas F api c name s
      ≡ (err (new_error "prometheus adapter not implemented in v1"), s)
unfolding compute_decode_replicas adapter_for read
compute_decode_replicas_of_prometheus F api c name s source = rw source refl

-- A run that leaves a part of the state as it was and never returns without an error.
pub record IsFruitless {S V : Type 0} (view : S → V) (s : S) (q : Outcome Return × S) : Type 0 where
  pub kept : view q.1 ≡ view s
  pub fails : (v : Return) (t : S) → q ≡ (ok v, t) → v.error ≢ none

module _ (P : Platform) {V : Type 0} (view : P.client.State → V)
    (config_map_keeps : (o : ConfigMap) (mutate : ConfigMap → Outcome ConfigMap)
        (s : P.client.State)
      → view (P.client.create_or_update_config_map o mutate s).1 ≡ view s)
    (status_keeps : (c : Cluster) (s : P.client.State)
      → view (P.client.update_status c s).1 ≡ view s)
    (now_keeps : (s : P.client.State) → view (P.client.now s).1 ≡ view s) where
  open P use {client as api}

  panic-IsFruitless : (s t : api.State) → view t ≡ view s → IsFruitless view s (panic, t)
  panic-IsFruitless s t same = record { kept = same; fails = λ v u h k. absurd (impossible h) }
    where
      impossible :
          {v : Return} {u : api.State} → ◌≢◌ {A = Outcome Return × api.State} (panic, t) (ok v, u)
      impossible h = cc

  requeue_degraded-IsFruitless :
      (c : Cluster) (e : Error) (s t : api.State)
      → view t ≡ view s
      → IsFruitless view s (requeue_degraded api c e t)
  unfolding requeue_degraded drop_error mark_degraded set_condition
  requeue_degraded-IsFruitless c e s t same =
      let written = mark_degraded api c e t in
      go (api.update_status written.0 written.1).0 _
        (status_keeps _ _ ∙ now_keeps _ ∙ now_keeps t ∙ same)
    where
      impossible :
          {v : Return} {w u : api.State}
          → ◌≡◌ {A = Outcome Return × api.State}
              (ok (record { requeue_after = 5; error = some e }), w)
              (ok v, u)
          → v.error ≢ none
      impossible h k = cc

      go :
          (r : Outcome Cluster) (w : api.State)
          → view w ≡ view s
          → IsFruitless view s (drop_error api r (record { requeue_after = 5; error = some e }), w)
      go (ok d) w h = record { kept = h; fails = λ v u q. impossible q }
      go (err x) w h = record { kept = h; fails = λ v u q. impossible q }
      go panic w h = panic-IsFruitless s w h

  resume-IsFruitless :
      {A : Type 0} (c : Cluster) (rest : A → M api.State Return) (s : api.State)
      (r : Outcome A × api.State)
      → view r.1 ≡ view s
      → ((a : A) (t : api.State) → view t ≡ view s → IsFruitless view s (rest a t))
      → IsFruitless view s (resume (requeue_degraded api c) rest r)
  resume-IsFruitless c rest s (ok a, t) h next = next a t h
  resume-IsFruitless c rest s (err e, t) h next = requeue_degraded-IsFruitless c e s t h
  resume-IsFruitless c rest s (panic, t) h next = panic-IsFruitless s t h

  signals-keeps :
      (c : Cluster) (name : String) (base : Dict String) (s : api.State)
      → view (reconcile_signals_config_map api c name base s).1 ≡ view s
  unfolding reconcile_signals_config_map
  signals-keeps c name base s =
      same (api.create_or_update_config_map _ _ s) ∙ config_map_keeps _ _ s
    where
      same : (r : Outcome ConfigMap × api.State) → view (resume raise (λ _. pure tt) r).1 ≡ view r.1
      same (ok d, v) = refl
      same (err e, v) = refl
      same (panic, v) = refl

  -- Where autoscaling is enabled with the source "prometheus", no reconcile of a live cluster returns
  -- without an error, whatever the API server answers. And whatever part of the state the writes of
  -- ConfigMaps, the updates of a status and the reads of the clock leave alone, the services and the
  -- deployments for one, is after the reconcile as it was before.
  pub reconcile_live_prometheus :
      (original c : Cluster) (s : api.State)
      → deref c.spec.autoscaling.enabled false ≡ true
      → c.spec.autoscaling.signals.source ≡ signals_source_prometheus
      → IsFruitless view s (reconcile_live P original c s)
  unfolding reconcile_live
  reconcile_live_prometheus original c s enabled source = rw enabled (
      resume-IsFruitless c _ s
        (reconcile_signals_config_map api c (signals_name c) (base_labels c) s)
        (signals-keeps c (signals_name c) (base_labels c) s)
        (λ a t h.
          rw (compute_decode_replicas_of_prometheus P.floats api c (signals_name c) t source) (
            requeue_degraded-IsFruitless c (new_error "prometheus adapter not implemented in v1") s
              t h)))
