-- ===== src/Controller/Reconcile/Desired/Writes.antt =====
-- What one write of a deployment does to those that the server holds.
use mathlib.Core.Path.{subst}
use llm_inference_operator.Base.{String, Option, some, ◌≡◌, ◌≢◌, sym, ap, ◌∙◌}
use llm_inference_operator.Kube.{Outcome, ok, Deployment}
use llm_inference_operator.Kube.Client.{M, attempt, raise, pure, and_then}
use llm_inference_operator.Platform.{Platform}
use llm_inference_operator.Cluster.{Cluster}
use llm_inference_operator.Controller.Settled.{Settled}
use llm_inference_operator.Controller.Workloads.{deployment_skeleton}
use llm_inference_operator.Controller.Reconcile.Desired.{View, IsStore, dropped-eq_ok}
use llm_inference_operator.Controller.Reconcile.Desired.Stored.{held}

ok-injective : {A : Type 0} {a b : A} → ◌≡◌ {A = Outcome A} (ok a) (ok b) → a ≡ b
ok-injective h = cc

module _ (P : Platform) (view : View P.client) (store : IsStore P.client view) (c : Cluster) where
  open P use {client as api}

  abbrev pub at : api.State → String → Option Deployment
  at s name = held P view store c s name

  -- The step that writes one deployment.
  abbrev pub write : String → (Deployment → Outcome Deployment) → M api.State (Unit {0})
  write name mutate =
      attempt (api.create_or_update_deployment (deployment_skeleton P c name) mutate) raise
        (λ _. pure tt)

  pub write_fixed :
      (name : String) (mutate : Deployment → Outcome Deployment) (s t : api.State)
      → ((o : Deployment) → Settled mutate o)
      → write name mutate s ≡ (ok tt, t)
      → (d : Deployment) × (at t name ≡ some d) × (mutate d ≡ ok d)
  write_fixed name mutate s t settled h =
      let skeleton = deployment_skeleton P c name in
      let (d, written) = dropped-eq_ok (api.create_or_update_deployment skeleton mutate) s t h in
      let (o, mutated) = store.mutated skeleton d mutate s t written in
      let fixed : and_then (ok d) mutate ≡ ok d =
        subst (λ (x : Outcome Deployment). and_then x mutate ≡ x) mutated (settled o) in
      (d, store.stored skeleton d mutate s t written, fixed)

  pub write_again :
      (name : String) (mutate : Deployment → Outcome Deployment) (s t : api.State) (d : Deployment)
      → at s name ≡ some d
      → mutate d ≡ ok d
      → write name mutate s ≡ (ok tt, t)
      → at t name ≡ some d
  write_again name mutate s t d held_before fixed h =
      let skeleton = deployment_skeleton P c name in
      let (e, written) = dropped-eq_ok (api.create_or_update_deployment skeleton mutate) s t h in
      let same : e ≡ d =
        ok-injective (sym (store.found skeleton e d mutate s t written held_before) ∙ fixed) in
      store.stored skeleton e mutate s t written ∙ ap some same

  pub write_others :
      (name other : String) (mutate : Deployment → Outcome Deployment) (s t : api.State)
      → other ≢ name
      → write name mutate s ≡ (ok tt, t)
      → at t other ≡ at s other
  write_others name other mutate s t apart h =
      let skeleton = deployment_skeleton P c name in
      let (d, written) = dropped-eq_ok (api.create_or_update_deployment skeleton mutate) s t h in
      store.others skeleton d mutate s t other written apart
