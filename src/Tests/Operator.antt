-- ===== src/Tests/Operator.antt =====
-- The theorems on the operator at concrete inputs.
use llm_inference_operator.Base.{
  none, if◌then◌else◌, ◌↔◌, ℕ, String, [], ◌∷◌, some, ◌≡◌, refl, true, false, arith, deref, All,
  map,
}
use mathlib.Core.List.Perm
use mathlib.Core.Path.{subst}
use llm_inference_operator.Base.Int.{pos, ◌≤ℤ◌, ◌+ℤ◌, ltb_ℤ}
use llm_inference_operator.Kube.{Error, Outcome, ok}
use llm_inference_operator.Cluster.{Cluster, ClusterSpec}
use llm_inference_operator.Cluster.Defaults.{
  spec_defaults, IsDefaulted, spec_defaults-IsDefaulted, KeepsPointer, spec_defaults-KeepsPointer,
  apply_defaults,
}
use llm_inference_operator.Platform.{Platform}
use llm_inference_operator.Ring.{new_ring}
use llm_inference_operator.Ring.Order.{new_ring-perm}
use llm_inference_operator.ShardMap.Doc.{json_of_doc}
use llm_inference_operator.Controller.Autoscale.{Limits, limits, desired, at_most}
use llm_inference_operator.Controller.Autoscale.Bounds.{
  IsOrdered, desired_bounds, desired_step, desired_overflow,
}
use llm_inference_operator.Controller.Labels.{
  base_labels, role_labels, selects, selects-role_labels,
}
use llm_inference_operator.Controller.Shards.{build_shards}
use llm_inference_operator.Controller.Shards.Owners.{ids, IsOwned, entry_of, build_shards-IsOwned}
use llm_inference_operator.Controller.Shards.Stable.{build_shards-perm}
use llm_inference_operator.Controller.Status.{
  mark_ready, mark_degraded, condition_ready, condition_degraded,
}
use llm_inference_operator.Controller.Status.Marks.{
  status_of, mark_ready_status, mark_degraded_status,
}
use llm_inference_operator.Controller.Reconcile.{reconcile_live, is_deleting, reconcile}
use llm_inference_operator.Controller.Reconcile.Calm.{IsCalm}
use llm_inference_operator.Controller.Reconcile.NoPanic.{reconcile-IsCalm}
use llm_inference_operator.Controller.Reconcile.Deletion.{reconcile_deleting-keeps}
use llm_inference_operator.Controller.Reconcile.Ended.{Ended, reconcile_ended}
use llm_inference_operator.Controller.Reconcile.Prometheus.{IsFruitless, reconcile_live_prometheus}
use llm_inference_operator.Tests.Demo.{
  put_condition-IsSetCondition, demo, leaving, bare_spec, pods, pod, platform, client_of,
  client_of-IsCalm, naturals, doc,
}
use llm_inference_operator.Tests.Codecs.{codec_of-ne_panic}

abbrev P : Platform
P = platform demo (json_of_doc doc)

reconcile-IsCalm_example : IsCalm (reconcile P "default" "demo") 0
unfolding deref
reconcile-IsCalm_example =
    reconcile-IsCalm P (client_of-IsCalm demo) (codec_of-ne_panic (json_of_doc doc)) "default"
      "demo" 0 (λ c t got. three c t got)
  where
    three :
        (c : Cluster) (t : ℕ)
        → ◌≡◌ {A = Outcome Cluster × ℕ} (ok demo, 0) (ok c, t)
        → pos 0 ≤ℤ deref c.spec.kv_cache.num_shards (pos 8)
    three c t got =
        let same : demo ≡ c = cc in
        subst (λ (d : Cluster). pos 0 ≤ℤ deref d.spec.kv_cache.num_shards (pos 8)) same
          (omega arith)

build_shards-IsOwned_example :
    (r : _) × (build_shards pods (pos 3) 1000 ≡ ok r)
    × (map (λ s. s.shard_id) r.0 ≡ ids 3 0)
    × (r.1 ≡ record { version = pos 1; shards = map entry_of r.0 })
    × All (IsOwned pods) r.0
build_shards-IsOwned_example = build_shards-IsOwned pods 3 1000

build_shards-perm_example :
    build_shards (pod "a" "True" ∷ pod "b" "True" ∷ []) (pos 3) 1000
    ≡ build_shards (pod "b" "True" ∷ pod "a" "True" ∷ []) (pos 3) 1000
build_shards-perm_example = build_shards-perm _ _ (pos 3) 1000 (Perm.swap _ _ _)

no_min : deref bare_spec.autoscaling.min_replicas (pos 0) ≡ pos 0
unfolding deref
no_min = refl

no_max : deref bare_spec.autoscaling.max_replicas (pos 10) ≡ pos 10
unfolding deref
no_max = refl

desired_bounds_example :
    (desired naturals (limits bare_spec) 500 ≤ℤ (if ltb_ℤ (pos 10) (pos 1) then pos 1 else pos 10))
    × (pos 0 ≤ℤ (if ltb_ℤ (pos 10) (pos 1) then pos 1 else pos 10)
        → pos 0 ≤ℤ desired naturals (limits bare_spec) 500)
desired_bounds_example = desired_bounds naturals bare_spec 500 (pos 0) (pos 10) no_min no_max

abbrev missing : Error
missing = record { is_not_found = true; message = "not found" }

abbrev L : Platform
L = platform leaving (json_of_doc doc)

is_leaving : is_deleting (apply_defaults leaving) ≡ true
unfolding is_deleting apply_defaults
is_leaving = refl

-- The number of writes to children.
reconcile_deleting-keeps_example : (reconcile L "default" "demo" 7).1 ≡ 7
reconcile_deleting-keeps_example =
    reconcile_deleting-keeps L {V = ℕ} (λ s. s) (λ namespace name s. refl) (λ c d s. refl)
      (λ c s. refl) "default" "demo" 7 7 7 leaving (apply_defaults leaving) refl refl is_leaving

spec_defaults-IsDefaulted_example : IsDefaulted (spec_defaults bare_spec)
spec_defaults-IsDefaulted_example = spec_defaults-IsDefaulted bare_spec

-- The bare spec with a hash key.
abbrev partial_spec : ClusterSpec
partial_spec = record bare_spec { routing = record bare_spec.routing { hash_key = some "user_id" } }

spec_defaults-KeepsPointer_example :
    KeepsPointer (some "user_id") (spec_defaults partial_spec).routing.hash_key
spec_defaults-KeepsPointer_example = (spec_defaults-KeepsPointer partial_spec).1

new_ring-perm_example : new_ring ("a" ∷ "b" ∷ []) ≡ new_ring ("b" ∷ "a" ∷ [])
new_ring-perm_example = new_ring-perm ("a" ∷ "b" ∷ []) ("b" ∷ "a" ∷ []) (Perm.swap _ _ _)

selects-role_labels_example :
    (selects (role_labels (base_labels demo) "decode") (role_labels (base_labels demo) "prefill")
      ≡ true)
    ↔ ((demo.metadata.name ≡ demo.metadata.name) × (◌≡◌ {A = String} "decode" "prefill"))
selects-role_labels_example = selects-role_labels demo demo "decode" "prefill"

mark_ready_status_example :
    status_of condition_ready (mark_ready (client_of demo) demo 0).0.status.conditions ≡ some "True"
mark_ready_status_example =
    (mark_ready_status (client_of demo) put_condition-IsSetCondition demo 0).0

mark_degraded_status_example :
    status_of condition_degraded (mark_degraded (client_of demo) demo missing 0).0.status.conditions
    ≡ some "True"
mark_degraded_status_example =
    (mark_degraded_status (client_of demo) put_condition-IsSetCondition demo missing 0).1

abbrev between : Limits
between = record { current = pos 2; min = pos 1; max = pos 5 }

between-IsOrdered : IsOrdered between
between-IsOrdered = record {
  max_pos = omega arith;
  current_le_max = omega arith;
  min_le_current = λ _. omega arith;
}

desired_step_example : desired naturals between 500 ≡ at_most (pos 5) (pos 2 +ℤ pos 1)
desired_step_example =
    (desired_step naturals between 500 between-IsOrdered (omega arith) (omega arith)
        (omega arith)).0
      refl

abbrev at_top : Limits
at_top = record { current = pos 2147483647; min = pos 1; max = pos 2147483647 }

desired_overflow_example : desired naturals at_top 500 ≡ pos 1
desired_overflow_example =
    desired_overflow naturals at_top 500 refl refl (omega arith) (omega arith) refl

abbrev scaled : Cluster
scaled = record demo {
  spec = record bare_spec {
    autoscaling = record {
      enabled = some true;
      min_replicas = none;
      max_replicas = none;
      signals = record { source = "prometheus"; prometheus_url = some "http://prometheus" };
    };
  };
}

scaling_on : deref scaled.spec.autoscaling.enabled false ≡ true
unfolding deref
scaling_on = refl

-- A server that counts the writes of children other than ConfigMaps.
abbrev counting : Platform
counting = record (platform scaled (json_of_doc doc)) {
  client = record (client_of scaled) { create_or_update_config_map = λ o mutate s. (mutate o, s) };
}

reconcile_live_prometheus_example :
    IsFruitless {V = ℕ} (λ s. s) 4 (reconcile_live counting scaled scaled 4)
reconcile_live_prometheus_example =
    reconcile_live_prometheus counting {V = ℕ} (λ s. s) (λ o mutate s. refl) (λ c s. refl)
      (λ s. refl) scaled scaled 4 scaling_on refl

-- A printer that takes every value.
abbrev Q : Platform
Q = record P { codec = record P.codec { print = λ j. ok "{}" } }

run_whole : reconcile Q "default" "demo" 0 ≡ (ok (record { requeue_after = 30; error = none }), 10)
unfolding reconcile apply_defaults deref is_deleting
run_whole = refl

reconcile_ended_example :
    Ended Q "default" "demo" 0 (record { requeue_after = 30; error = none }) 10
reconcile_ended_example = reconcile_ended Q "default" "demo" 0 _ 10 run_whole refl
