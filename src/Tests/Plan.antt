-- ===== src/Tests/Plan.antt =====
-- The theorems on the children as a plan at concrete inputs: a server that keeps deployments, and one
-- whose services cannot be written.
use llm_inference_operator.Base.{
  ◌≡◌, ap, text_eq_refl, text_eq_of_ne, ◌∙◌, ◌+◌, ◌≢◌, refl, sym, arith, ℕ, String, Option, some,
  none, true, false, text_eq, if◌then◌else◌, deref, ◌&&◌,
}
use llm_inference_operator.Base.Int.{pos, ◌≤ℤ◌}
use llm_inference_operator.Kube.{Error, Outcome, ok, err, panic, Deployment, ObjectMeta}
use llm_inference_operator.Controller.Settled.{IsReference}
use llm_inference_operator.Controller.Reconcile.Desired.Again.{reconcile_children_again}
use llm_inference_operator.Kube.Client.{M, Client}
use llm_inference_operator.Cluster.{Cluster}
use llm_inference_operator.Cluster.Defaults.{apply_defaults}
use llm_inference_operator.Platform.{Platform}
use llm_inference_operator.ShardMap.Doc.{json_of_doc}
use llm_inference_operator.Controller.Labels.{base_labels}
use llm_inference_operator.Controller.Reconcile.{
  reconcile_live, reconcile_children, decode_name, prefill_name, router_name,
}
use llm_inference_operator.Controller.Reconcile.Willing.{IsWilling}
use llm_inference_operator.Controller.Reconcile.Liveness.{reconcile_live-Succeeds}
use llm_inference_operator.Controller.Reconcile.Desired.{IsStore}
use llm_inference_operator.Tests.Demo.{
  pods, put_condition, demo, doc, platform, client_of, metadata,
}

-- A printer that takes every value.
abbrev printing : Cluster → Platform
printing c =
    let p = platform c (json_of_doc doc) in
    record p { codec = record p.codec { print = λ j. ok "{}" } }

abbrev ready : Cluster
ready = apply_defaults demo

decode_port : ready.spec.runtime.decode.service_port ≡ some (pos 8000)
unfolding apply_defaults
decode_port = refl

prefill_port : ready.spec.runtime.prefill.service_port ≡ some (pos 8001)
unfolding apply_defaults
prefill_port = refl

abbrev forbidden : Error
forbidden = record { is_not_found = false; message = "forbidden" }

abbrev no_services : Platform
no_services = record (printing demo) {
  client = record (client_of demo) { create_or_update_service = λ o mutate s. (err forbidden, s) };
}

willing : (c : Cluster) → IsWilling (client_of c)
willing c = record {
  patch_status = λ d e s. (_, _, refl);
  get_config_map = λ n m s. (_, _, refl);
  list_pods = λ n l s. (_, _, refl);
  service = λ o mutate s total. let (a, e) = total o tt in (a, s + 1, ap (λ r. (r, s + 1)) e);
  deployment = λ o mutate s total.
      let (a, e) = total (record o { containers = none }) (λ q. cc) in
      (a, s + 1, ap (λ r. (r, s + 1)) e);
  config_map = λ o mutate s total. let (a, e) = total o tt in (a, s + 1, ap (λ r. (r, s + 1)) e);
  service_account =
      λ o mutate s total. let (a, e) = total o tt in (a, s + 1, ap (λ r. (r, s + 1)) e);
  role = λ o mutate s total. let (a, e) = total o tt in (a, s + 1, ap (λ r. (r, s + 1)) e);
  role_binding = λ o mutate s total. let (a, e) = total o tt in (a, s + 1, ap (λ r. (r, s + 1)) e);
  set_controller_reference = λ m n. (_, refl);
}

shards_set : pos 0 ≤ℤ deref ready.spec.kv_cache.num_shards (pos 8)
unfolding apply_defaults deref
shards_set = omega arith

not_scaling : deref ready.spec.autoscaling.enabled false ≡ false
unfolding apply_defaults deref
not_scaling = refl

true_ne_false : true ≢ false
true_ne_false e = cc

reconcile_live-Succeeds_example :
    (t : ℕ) × (reconcile_live (printing demo) demo ready 0
      ≡ (ok (record { requeue_after = 30; error = none }), t))
reconcile_live-Succeeds_example =
    reconcile_live-Succeeds (printing demo) (willing demo) (λ j. ("{}", refl)) demo ready (pos 8000)
      (pos 8001) 0 decode_port prefill_port shards_set
      (λ on. absurd (true_ne_false (sym on ∙ not_scaling)))

-- A server that keeps the deployments.
abbrev Store : Type 0
Store = String → String → Option Deployment

abbrev put : String → String → Deployment → Store → Store
put namespace name d s n m = if text_eq n namespace && text_eq m name then some d else s n m

abbrev keep : Deployment → Outcome Deployment → Store → Outcome Deployment × Store
keep skeleton (ok d) s = (ok d, put skeleton.metadata.namespace skeleton.metadata.name d s)
keep skeleton (err e) s = (err e, s)
keep skeleton panic s = (panic, s)

abbrev untouched : {A : Type 0} → A → (A → Outcome A) → M Store A
untouched fresh mutate s = (mutate fresh, s)

abbrev keeping : Client
keeping = record {
  State = Store;
  get_cluster = λ namespace name s. (ok demo, s);
  patch_cluster = λ d base s. (ok d, s);
  update_cluster = λ d s. (ok d, s);
  patch_status = λ d base s. (ok d, s);
  update_status = λ d s. (ok d, s);
  get_config_map =
      λ namespace name s. (ok (record { metadata = metadata name; entries = none }), s);
  list_pods = λ namespace labels s. (ok pods, s);
  create_or_update_service = untouched;
  create_or_update_deployment = λ skeleton mutate s.
      keep skeleton (mutate (deref (s skeleton.metadata.namespace skeleton.metadata.name) skeleton))
        s;
  create_or_update_config_map = untouched;
  create_or_update_service_account = untouched;
  create_or_update_role = untouched;
  create_or_update_role_binding = untouched;
  now = λ s. (1000, s);
  set_controller_reference = λ owner m. ok m;
  contains_finalizer = λ m f. false;
  add_finalizer = λ m f. m;
  remove_finalizer = λ m f. m;
  set_status_condition = put_condition;
}

keep-eq_ok :
    (skeleton d : Deployment) (r : Outcome Deployment) (s t : Store)
    → keep skeleton r s ≡ (ok d, t)
    → (r ≡ ok d) × (t ≡ put skeleton.metadata.namespace skeleton.metadata.name d s)
keep-eq_ok skeleton d (ok a) s t h = (cc, cc)
keep-eq_ok skeleton d (err e) s t h = cc
keep-eq_ok skeleton d panic s t h = cc

put_same :
    (namespace name : String) (d : Deployment) (s : Store)
    → put namespace name d s namespace name ≡ some d
put_same namespace name d s = rw (text_eq_refl namespace, text_eq_refl name) refl

put_other :
    (namespace name other : String) (d : Deployment) (s : Store)
    → other ≢ name
    → put namespace name d s namespace other ≡ s namespace other
put_other namespace name other d s apart =
    rw (text_eq_refl namespace, text_eq_of_ne other name apart) refl

stores : IsStore keeping (λ s. s)
unfolding deref
stores = record {
  list_pods = λ n l s. refl;
  now = λ s. refl;
  patch_status = λ c d s. refl;
  update_status = λ c s. refl;
  config_map = λ o mutate s. refl;
  service = λ o mutate s. refl;
  service_account = λ o mutate s. refl;
  role = λ o mutate s. refl;
  role_binding = λ o mutate s. refl;
  mutated = λ skeleton d mutate s t h. (_, (keep-eq_ok skeleton d _ s t h).0);
  found = λ skeleton d o mutate s t h holds.
      ap (λ (x : Option Deployment). mutate (deref x skeleton)) (sym holds)
      ∙ (keep-eq_ok skeleton d _ s t h).0;
  stored = λ skeleton d mutate s t h.
      ap (λ (x : Store). x skeleton.metadata.namespace skeleton.metadata.name)
        (keep-eq_ok skeleton d _ s t h).1
      ∙ put_same skeleton.metadata.namespace skeleton.metadata.name d s;
  others = λ skeleton d mutate s t name h apart.
      ap (λ (x : Store). x skeleton.metadata.namespace name) (keep-eq_ok skeleton d _ s t h).1
      ∙ put_other skeleton.metadata.namespace skeleton.metadata.name name d s apart;
}

abbrev kept : Platform
kept = record (printing demo) { client = keeping }

abbrev nothing : Store
nothing namespace name = none

abbrev left : Store
left = (reconcile_children kept demo ready (base_labels ready) none nothing).1

ran :
    reconcile_children kept demo ready (base_labels ready) none nothing
    ≡ (ok (record { requeue_after = 30; error = none }), left)
unfolding reconcile_children apply_defaults deref
ran = refl

reference : IsReference keeping ready
reference = record {
  again = λ m n e. let same : m ≡ n = cc in ap ok refl;
  labels = λ m n e. let same : m ≡ n = cc in ap (λ (x : ObjectMeta). x.labels) (sym same);
}

abbrev left_again : Store
left_again = (reconcile_children kept demo ready (base_labels ready) none left).1

ran_again :
    reconcile_children kept demo ready (base_labels ready) none left
    ≡ (ok (record { requeue_after = 30; error = none }), left_again)
unfolding reconcile_children apply_defaults deref
ran_again = refl

reconcile_children_again_example :
    (left_again ready.metadata.namespace (decode_name ready)
      ≡ left ready.metadata.namespace (decode_name ready))
    × (left_again ready.metadata.namespace (prefill_name ready)
        ≡ left ready.metadata.namespace (prefill_name ready))
    × (left_again ready.metadata.namespace (router_name ready)
        ≡ left ready.metadata.namespace (router_name ready))
reconcile_children_again_example =
    reconcile_children_again kept (λ s. s) stores ready (base_labels ready) none reference demo demo
      (pos 8000) (pos 8001) nothing left left_again _ _ decode_port prefill_port ran refl ran_again
      refl
