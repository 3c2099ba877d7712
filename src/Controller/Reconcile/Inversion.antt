-- ===== src/Controller/Reconcile/Inversion.antt =====
-- What a run of the plan that returns without an error went through.
use llm_inference_operator.Base.{List, [], ◌∷◌, none, some, ◌≡◌, ◌≢◌, refl, ap}
use llm_inference_operator.Kube.{Error, Outcome, ok, err, panic}
use llm_inference_operator.Kube.Client.{M, resume}
use llm_inference_operator.Platform.{Platform}
use llm_inference_operator.Cluster.{Cluster}
use llm_inference_operator.Controller.Status.{Return, drop_error, mark_degraded, requeue_degraded}
use llm_inference_operator.Controller.Reconcile.{or_degraded}
use llm_inference_operator.Controller.Reconcile.Plan.{Action, run_plan, Completes}

module _ (P : Platform) (c : Cluster) where
  open P use {client as api}

  requeue_degraded-error :
      (e : Error) (s t : api.State) (v : Return)
      → requeue_degraded api c e s ≡ (ok v, t)
      → v.error ≡ some e
  unfolding requeue_degraded drop_error
  requeue_degraded-error e s t v h =
      go (api.update_status (mark_degraded api c e s).0 (mark_degraded api c e s).1).0
        (ap (λ (q : Outcome Return × api.State). q.0) h)
    where
      go :
          (r : Outcome Cluster)
          → drop_error api r (record { requeue_after = 5; error = some e }) ≡ ok v
          → v.error ≡ some e
      go (ok d) k = cc
      go (err x) k = cc
      go panic k = cc

  -- The step before had succeeded.
  pub or_degraded-eq_ok :
      {A : Type 0} (m : M api.State A) (rest : A → M api.State Return) (s t : api.State)
      (v : Return)
      → or_degraded P c m rest s ≡ (ok v, t)
      → v.error ≡ none
      → (a : A) × (u : api.State) × (m s ≡ (ok a, u)) × (rest a u ≡ (ok v, t))
  or_degraded-eq_ok {A} m rest s t v h clean = go (m s) refl h
    where
      impossible : {x : Error} → v.error ≡ some x → v.error ≢ none
      impossible p q = cc

      no_panic : {u : api.State} → ◌≢◌ {A = Outcome Return × api.State} (panic, u) (ok v, t)
      no_panic p = cc

      go :
          (r : Outcome A × api.State)
          → m s ≡ r
          → resume (requeue_degraded api c) rest r ≡ (ok v, t)
          → (a : A) × (u : api.State) × (m s ≡ (ok a, u)) × (rest a u ≡ (ok v, t))
      go (ok a, u) e k = (a, u, e, k)
      go (err x, u) e k = absurd (impossible (requeue_degraded-error x u t v k) clean)
      go (panic, u) e k = absurd (no_panic k)

  pub run_plan-eq_ok :
      (ms : List (Action P)) (last : M api.State Return) (s t : api.State) (v : Return)
      → run_plan P ms c last s ≡ (ok v, t)
      → v.error ≡ none
      → (u : api.State) × Completes P ms s u × (last u ≡ (ok v, t))
  run_plan-eq_ok [] last s t v h clean = (s, refl, h)
  run_plan-eq_ok (m ∷ ms) last s t v h clean =
      let (_, u, stepped, later) = or_degraded-eq_ok m (λ _. run_plan P ms c last) s t v h clean in
      let (w, done, ended) = run_plan-eq_ok ms last u t v later clean in
      (w, (u, stepped, done), ended)
