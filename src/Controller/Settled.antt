-- ===== src/Controller/Settled.antt =====
-- What it takes for a mutate function to change nothing the second time
-- (internal/controller/llminferencecluster_controller.go).
pub mod Maps
pub mod Children
use llm_inference_operator.Base.{
  String, List, [], ◌∷◌, Option, none, some, ◌≡◌, refl, sym, ap, ◌∙◌, Bool, true, false, arith,
  text_eq, text_eq_refl, text_eq_iff, if◌then◌else◌, Option-cases, Bool-cases, inl, inr,
}
use llm_inference_operator.Base.Int.{ℤ}
use llm_inference_operator.Base.Dict.{Dict, lookup, insert, lookup-insert}
use llm_inference_operator.Kube.{
  Outcome, ok, err, panic, ObjectMeta, Service, ConfigMap, ServiceAccount, Role, RoleBinding,
  Container, Deployment,
}
use llm_inference_operator.Kube.Client.{Client, and_then}
use llm_inference_operator.Cluster.{Cluster}
use llm_inference_operator.Platform.{Platform}
use llm_inference_operator.Controller.Labels.{role_labels}
use llm_inference_operator.Controller.Children.{
  with_labels, own, insert_missing, map_or_empty, mutate_role_service, mutate_router_service,
  mutate_shard_map, mutate_signals, mutate_service_account, mutate_role, mutate_role_binding,
}
use llm_inference_operator.Controller.Workloads.{
  update_first, worker_container, router_env, router_container, mutate_role_deployment,
  mutate_router_deployment,
}
use llm_inference_operator.Controller.Workloads.Traffic.{and_then-eq_ok, update_first-head}
use mathlib.Core.Path.{subst}

-- What is documented of `SetControllerReference`: a second call with the same owner changes nothing, and
-- the labels are left alone.
pub record IsReference (api : Client) (c : Cluster) : Type 0 where
  pub again :
      (m n : ObjectMeta)
      → api.set_controller_reference c.metadata m ≡ ok n
      → api.set_controller_reference c.metadata n ≡ ok n
  pub labels :
      (m n : ObjectMeta) → api.set_controller_reference c.metadata m ≡ ok n → n.labels ≡ m.labels

-- After a success, the second call returns what it is given; after an error, there is none.
settled_of_ok :
    {A : Type 0} (r : Outcome A) (f : A → Outcome A)
    → ((a : A) → r ≡ ok a → f a ≡ ok a)
    → and_then r f ≡ r
settled_of_ok (ok a) f h = h a refl
settled_of_ok (err e) f h = refl
settled_of_ok panic f h = refl

-- A second run of the mutate function on the result of the first changes nothing; where the first fails,
-- there is no second.
abbrev pub Settled : {A : Type 0} → (A → Outcome A) → A → Type 0
Settled mutate a = and_then (mutate a) mutate ≡ mutate a

module _ (api : Client) (c : Cluster) (reference : IsReference api c) where
  own-ok :
      {A : Type 0} (m : ObjectMeta) (rebuild : ObjectMeta → A) (a : A)
      → own api c m rebuild ≡ ok a
      → (n : ObjectMeta) × (api.set_controller_reference c.metadata m ≡ ok n) × (a ≡ rebuild n)
  unfolding own
  own-ok m rebuild a h =
      let (n, e, built) =
        and_then-eq_ok (api.set_controller_reference c.metadata m) (λ n. ok (rebuild n)) h in
      (n, e, cc)

  own_again :
      {A : Type 0} (m n : ObjectMeta) (labels : Dict String) (rebuild : ObjectMeta → A)
      → api.set_controller_reference c.metadata (with_labels m labels) ≡ ok n
      → own api c (with_labels n labels) rebuild ≡ ok (rebuild n)
  unfolding own
  own_again m n labels rebuild e =
      let kept = reference.labels (with_labels m labels) n e in
      let same : with_labels n labels ≡ n = ap (with_labels n) (sym kept) in
      rw (same, reference.again (with_labels m labels) n e) refl

  -- A mutate function that sets the labels, the owner and other fields, after a computation that may fail.
  pub build-Settled :
      {A B : Type 0} (meta : A → ObjectMeta) (labels : Dict String) (prepare : A → Outcome B)
      (rebuild : A → B → ObjectMeta → A)
      → ((a : A) (b : B) (m : ObjectMeta) → meta (rebuild a b m) ≡ m)
      → ((a : A) (b : B) (m : ObjectMeta) → prepare a ≡ ok b → prepare (rebuild a b m) ≡ ok b)
      → ((a : A) (b : B) (m : ObjectMeta)
          → prepare a ≡ ok b
          → rebuild (rebuild a b m) b m ≡ rebuild a b m)
      → (a : A)
      → Settled
          (λ (a : A).
            and_then (prepare a) (λ b. own api c (with_labels (meta a) labels) (rebuild a b)))
          a
  build-Settled {A} {B} meta labels prepare rebuild meta_lem prepare_lem rebuild_lem a =
      settled_of_ok (mutate a) mutate go
    where
      mutate : A → Outcome A
      mutate a = and_then (prepare a) (λ b. own api c (with_labels (meta a) labels) (rebuild a b))

      go : (a' : A) → mutate a ≡ ok a' → mutate a' ≡ ok a'
      go a' h =
          let (b, prepared, built) = and_then-eq_ok (prepare a) _ h in
          let (n, e, same) = own-ok (with_labels (meta a) labels) (rebuild a b) a' built in
          subst (λ (x : A). mutate x ≡ ok x) (sym same)
            (rw (prepare_lem a b n prepared, meta_lem a b n)
              (own_again (meta a) n labels (rebuild (rebuild a b n) b) e
                ∙ ap ok (rebuild_lem a b n prepared)))

  pub build-Settled_total :
      {A : Type 0} (meta : A → ObjectMeta) (labels : Dict String) (rebuild : A → ObjectMeta → A)
      → ((a : A) (m : ObjectMeta) → meta (rebuild a m) ≡ m)
      → ((a : A) (m : ObjectMeta) → rebuild (rebuild a m) m ≡ rebuild a m)
      → (a : A) → Settled (λ (a : A). own api c (with_labels (meta a) labels) (rebuild a)) a
  build-Settled_total meta labels rebuild meta_lem rebuild_lem a =
      build-Settled meta labels (λ a. ok tt) (λ a _ m. rebuild a m) (λ a _ m. meta_lem a m)
        (λ a b m e. cc) (λ a _ m e. rebuild_lem a m) a
