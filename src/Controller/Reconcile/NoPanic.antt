-- ===== src/Controller/Reconcile/NoPanic.antt =====
-- `Reconcile` does not panic.
use llm_inference_operator.Base.{
  String, none, some, Bool, true, false, ◌≡◌, ◌≢◌, refl, sym, deref, Bool-cases, inl, inr,
  if◌then◌else◌,
}
use llm_inference_operator.Base.Int.{ℤ, pos, ◌≤ℤ◌}
use mathlib.Core.Path.{subst}
use llm_inference_operator.Kube.{ok, panic}
use llm_inference_operator.Kube.Client.{M, pure}
use llm_inference_operator.Platform.{Platform}
use llm_inference_operator.Json.{Json}
use llm_inference_operator.Cluster.{Cluster, ClusterSpec}
use llm_inference_operator.Cluster.Defaults.{
  apply_defaults, spec_defaults, spec_defaults-IsDefaulted, num_shards-spec_defaults,
}
use llm_inference_operator.Controller.Labels.{base_labels}
use llm_inference_operator.Controller.Status.{Return, done, failed}
use llm_inference_operator.Controller.Autoscale.{compute_decode_replicas}
use llm_inference_operator.Controller.Children.{reconcile_signals_config_map}
use llm_inference_operator.Controller.Reconcile.{
  reconcile_children, release, adopt, is_deleting, finalizer, reconcile_live, reconcile_patched,
  reconcile, mark_scaling, signals_name,
}
use llm_inference_operator.Controller.Reconcile.Calm.{
  IsCalm, IsCalmClient, attempt-IsCalm, pure-IsCalm,
}
use llm_inference_operator.Controller.Reconcile.Steps.{
  IsRunnable, signals-IsCalm, decode_replicas-IsCalm,
}
use llm_inference_operator.Controller.Reconcile.Children.{children-IsCalm, or_degraded-IsCalm}

module _ (P : Platform) (calm : IsCalmClient P.client)
    (printed : (j : Json) → P.codec.print j ≢ panic) where
  mark_scaling-spec :
      (c : Cluster) (replicas : ℤ) (scaling : Bool) (s : P.client.State)
      → (mark_scaling P c replicas scaling s).0.spec ≡ c.spec
  unfolding mark_scaling
  mark_scaling-spec c replicas true s = refl
  mark_scaling-spec c replicas false s = refl

  autoscaled-IsCalm :
      (original c : Cluster) (replicas : ℤ) (scaling : Bool) (s : P.client.State)
      → IsRunnable c.spec
      → let (c', s') = mark_scaling P c replicas scaling s in
        IsCalm (reconcile_children P original c' (base_labels c) (some replicas)) s'
  autoscaled-IsCalm original c replicas scaling s r =
      children-IsCalm P calm printed original (mark_scaling P c replicas scaling s).0
        (base_labels c) (some replicas) (mark_scaling P c replicas scaling s).1
        (subst (λ spec. IsRunnable spec) (sym (mark_scaling-spec c replicas scaling s)) r)

  live-IsCalm :
      (original c : Cluster) (s : P.client.State)
      → IsRunnable c.spec
      → IsCalm (reconcile_live P original c) s
  unfolding reconcile_live
  live-IsCalm original c s r = elim (Bool-cases (deref c.spec.autoscaling.enabled false)) [
    | inl on ↦ rw on (
        or_degraded-IsCalm P calm printed c
          (reconcile_signals_config_map P.client c (signals_name c) (base_labels c)) _ s
          (signals-IsCalm P.client calm c (signals_name c) (base_labels c) s)
          λ _ t.
            or_degraded-IsCalm P calm printed c
              (compute_decode_replicas P.floats P.client c (signals_name c)) _ t
              (decode_replicas-IsCalm P calm c (signals_name c) t)
              (λ (replicas, scaling) u. autoscaled-IsCalm original c replicas scaling u r))
    | inr off ↦ rw off (children-IsCalm P calm printed original c (base_labels c) none s r)
  ]

  if-IsCalm :
      (b : Bool) (m n : M P.client.State Return) (s : P.client.State)
      → IsCalm m s
      → IsCalm n s
      → IsCalm (if b then m else n) s
  if-IsCalm true m n s h k = h
  if-IsCalm false m n s h k = k

  release-IsCalm : (c : Cluster) (s : P.client.State) → IsCalm (release P c) s
  unfolding release
  release-IsCalm c s = elim (Bool-cases (P.client.contains_finalizer c.metadata finalizer)) [
    | inl has ↦ rw has (
        attempt-IsCalm (P.client.update_cluster _) (λ e. pure (failed e)) (λ _. pure done) s
          (calm.update_cluster _ s) (λ e t. pure-IsCalm (failed e) t) (λ a t e. pure-IsCalm done t))
    | inr has_not ↦ rw has_not (pure-IsCalm done s)
  ]

  adopt-IsCalm :
      (original c : Cluster) (s : P.client.State)
      → IsRunnable c.spec
      → IsCalm (adopt P original c) s
  unfolding adopt
  adopt-IsCalm original c s r =
      elim (Bool-cases (P.client.contains_finalizer c.metadata finalizer)) [
        | inl has ↦ rw has (live-IsCalm original c s r)
        | inr has_not ↦
            let marked : Cluster = record c {
              metadata = P.client.add_finalizer c.metadata finalizer;
            } in
            rw has_not (
              attempt-IsCalm (P.client.update_cluster marked) (λ e. pure (failed e))
                (reconcile_live P original) s (calm.update_cluster marked s)
                (λ e t. pure-IsCalm (failed e) t)
                λ c' t e.
                  live-IsCalm original c' t
                    (subst (λ spec. IsRunnable spec) (sym (calm.updated_spec marked c' s t e)) r))
      ]

  patched-IsCalm :
      (original c : Cluster) (s : P.client.State)
      → IsRunnable c.spec
      → IsCalm (reconcile_patched P original c) s
  unfolding reconcile_patched
  patched-IsCalm original c s r = elim (Bool-cases (is_deleting c)) [
    | inl yes_deleting ↦ rw yes_deleting (release-IsCalm c s)
    | inr not_deleting ↦ rw not_deleting (adopt-IsCalm original c s r)
  ]

  -- Whatever pointers the user leaves out, the defaulted spec can be run.
  spec_defaults-IsRunnable :
      (s : ClusterSpec)
      → pos 0 ≤ℤ deref s.kv_cache.num_shards (pos 8)
      → IsRunnable (spec_defaults s)
  spec_defaults-IsRunnable s h = record {
    decode_port = (spec_defaults-IsDefaulted s).decode_port;
    prefill_port = (spec_defaults-IsDefaulted s).prefill_port;
    num_shards = rw (num_shards-spec_defaults s) h;
  }

  -- No reconcile of any object panics, for a client whose calls do not panic and which returns the
  -- spec that it was sent, a JSON printer that does not panic, and clusters whose number of shards,
  -- where it is given, is not negative.
  pub reconcile-IsCalm :
      (namespace name : String) (s : P.client.State)
      → ((c : Cluster) (t : P.client.State)
          → P.client.get_cluster namespace name s ≡ (ok c, t)
          → pos 0 ≤ℤ deref c.spec.kv_cache.num_shards (pos 8))
      → IsCalm (reconcile P namespace name) s
  unfolding reconcile
  reconcile-IsCalm namespace name s valid =
      attempt-IsCalm (P.client.get_cluster namespace name) _ _ s (calm.get_cluster namespace name s)
        (λ e t.
          if-IsCalm e.is_not_found (pure done) (pure (failed e)) t (pure-IsCalm done t)
            (pure-IsCalm (failed e) t))
        λ original t got.
          attempt-IsCalm (P.client.patch_cluster (apply_defaults original) original)
            (λ e. pure (failed e)) (reconcile_patched P original) t
            (calm.patch_cluster (apply_defaults original) original t)
            (λ e u. pure-IsCalm (failed e) u)
            λ c u patched. patched-IsCalm original c u (
              subst (λ spec. IsRunnable spec)
                (sym (calm.patched_spec (apply_defaults original) original c t u patched))
                (spec_defaults-IsRunnable original.spec (valid original t got)))
