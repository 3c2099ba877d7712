-- ===== src/Controller/Reconcile/Deletion.antt =====
-- `Reconcile` of a cluster that is being deleted.
use llm_inference_operator.Base.{String, true, ◌≡◌, refl, ◌∙◌, Bool-cases, inl, inr}
use llm_inference_operator.Kube.{Outcome, ok, err, panic}
use llm_inference_operator.Kube.Client.{pure, resume}
use llm_inference_operator.Platform.{Platform}
use llm_inference_operator.Cluster.{Cluster}
use llm_inference_operator.Cluster.Defaults.{apply_defaults}
use llm_inference_operator.Controller.Status.{Return, done, failed}
use llm_inference_operator.Controller.Reconcile.{
  finalizer, is_deleting, release, reconcile_patched, reconcile,
}

module _ (P : Platform) where
  open P use {client as api}

  reconcile_of_patched :
      (namespace name : String) (s t u : api.State) (original c : Cluster)
      → api.get_cluster namespace name s ≡ (ok original, t)
      → api.patch_cluster (apply_defaults original) original t ≡ (ok c, u)
      → reconcile P namespace name s ≡ reconcile_patched P original c u
  unfolding reconcile
  reconcile_of_patched namespace name s t u original c got patched = rw (got, patched)

  patched_of_deleting :
      (original c : Cluster) → is_deleting c ≡ true → reconcile_patched P original c ≡ release P c
  unfolding reconcile_patched
  patched_of_deleting original c h = rw h

  module _ {V : Type 0} (view : api.State → V)
      (get_keeps : (namespace name : String) (s : api.State)
        → view (api.get_cluster namespace name s).1 ≡ view s)
      (patch_keeps : (c d : Cluster) (s : api.State) → view (api.patch_cluster c d s).1 ≡ view s)
      (update_keeps : (c : Cluster) (s : api.State)
        → view (api.update_cluster c s).1 ≡ view s) where
    release_keeps : (c : Cluster) (u : api.State) → view (release P c u).1 ≡ view u
    unfolding release
    release_keeps c u = elim (Bool-cases (api.contains_finalizer c.metadata finalizer)) [
      | inl has ↦
          let freed : Cluster = record c { metadata = api.remove_finalizer c.metadata finalizer } in
          rw has (same (api.update_cluster freed u) ∙ update_keeps freed u)
      | inr has_not ↦ rw has_not
    ]
      where
        same :
            (r : Outcome Cluster × api.State)
            → view (resume {B = Return} (λ e. pure (failed e)) (λ _. pure done) r).1 ≡ view r.1
        same (ok d, v) = refl
        same (err e, v) = refl
        same (panic, v) = refl

    -- Where the read and the patch succeed and the patched cluster is being deleted: whatever part of
    -- the state the reads, patches and updates of clusters leave alone, the children for one, is after
    -- the reconcile as it was before, whether or not the update succeeds.
    pub reconcile_deleting-keeps :
        (namespace name : String) (s t u : api.State) (original c : Cluster)
        → api.get_cluster namespace name s ≡ (ok original, t)
        → api.patch_cluster (apply_defaults original) original t ≡ (ok c, u)
        → is_deleting c ≡ true
        → view (reconcile P namespace name s).1 ≡ view s
    reconcile_deleting-keeps namespace name s t u original c got patched deleting =
        rw
          (
            reconcile_of_patched namespace name s t u original c got patched,
            patched_of_deleting original c deleting,
          )
          (release_keeps c u
            ∙ (rw patched at (patch_keeps (apply_defaults original) original t))
            ∙ (rw got at (get_keeps namespace name s)))
