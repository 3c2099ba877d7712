-- ===== src/Controller/Status.antt =====
-- `setCondition`, `requeueDegraded` and the result of a reconcile
-- (internal/controller/llminferencecluster_controller.go).
pub mod Marks
use llm_inference_operator.Base.{ℕ, String, List, [], ◌∷◌, Option, none, some}
use llm_inference_operator.Kube.{Error, Outcome, ok, err, panic, Condition}
use llm_inference_operator.Kube.Client.{Client, M}
use llm_inference_operator.Cluster.{Cluster}

abbrev pub condition_ready : String
condition_ready = "Ready"

abbrev pub condition_degraded : String
condition_degraded = "Degraded"

abbrev pub condition_scaling : String
condition_scaling = "Scaling"

-- `(ctrl.Result, error)`, with `RequeueAfter` in seconds.
pub record Return : Type 0 where
  pub requeue_after : ℕ
  pub error : Option Error

-- `return ctrl.Result{}, nil` and `return ctrl.Result{}, err`
abbrev pub done : Return
done = record { requeue_after = 0; error = none }

abbrev pub failed : Error → Return
failed e = record { requeue_after = 0; error = some e }

module _ (api : Client) where
  -- A condition of the given kind, observed at the cluster's generation.
  abbrev pub condition : Cluster → String → String → String → String → ℕ → Condition
  condition c kind status reason message now = record {
    kind = kind;
    status = status;
    reason = reason;
    message = message;
    observed_generation = c.metadata.generation;
    last_transition_time = now;
  }

  -- `setCondition` with `metav1.Now()`, for the rest of the reconcile.
  unfoldable pub set_condition :
      Cluster → String → String → String → String → api.State → Cluster × api.State
  set_condition c kind status reason message s =
      let (now, t) = api.now s in
      let conditions =
        api.set_status_condition c.status.conditions (condition c kind status reason message now) in
      (record c { status = record c.status { conditions = conditions } }, t)

  -- The error of the status update is dropped.
  unfoldable pub drop_error : Outcome Cluster → Return → Outcome Return
  drop_error (ok _) r = ok r
  drop_error (err _) r = ok r
  drop_error panic r = panic

  -- The cluster as `requeueDegraded` sends it to the status endpoint.
  unfoldable pub mark_degraded : Cluster → Error → api.State → Cluster × api.State
  unfolding set_condition
  mark_degraded c e s =
      let (c', s') = set_condition c condition_ready "False" "Error" e.message s in
      set_condition c' condition_degraded "True" "ReconcileError" e.message s'

  unfoldable pub requeue_degraded : Cluster → Error → M api.State Return
  unfolding mark_degraded drop_error
  requeue_degraded c e s =
      let (c', s') = mark_degraded c e s in
      let (r, t) = api.update_status c' s' in
      (drop_error r (record { requeue_after = 5; error = some e }), t)

  -- The cluster as the last `Status().Patch` sends it: ready and not degraded.
  unfoldable pub mark_ready : Cluster → api.State → Cluster × api.State
  unfolding set_condition
  mark_ready c s =
      let (c', s') =
        set_condition c condition_ready "True" "Reconciled" "Resources are reconciled" s in
      set_condition c' condition_degraded "False" "Healthy" "No reconciliation errors" s'
