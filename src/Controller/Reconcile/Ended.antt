-- ===== src/Controller/Reconcile/Ended.antt =====
-- The ways in which `Reconcile` returns without an error.
use mathlib.Core.Path.{subst}
use llm_inference_operator.Base.{
  String, none, true, false, ◌≡◌, ◌≢◌, refl, Bool, Bool-cases, inl, inr, if◌then◌else◌,
}
use llm_inference_operator.Kube.{Error, Outcome, ok, err, panic}
use llm_inference_operator.Kube.Client.{M, pure, resume, attempt}
use llm_inference_operator.Platform.{Platform}
use llm_inference_operator.Cluster.{Cluster}
use llm_inference_operator.Cluster.Defaults.{apply_defaults}
use llm_inference_operator.Controller.Status.{Return, done, failed}
use llm_inference_operator.Controller.Reconcile.{
  finalizer, is_deleting, release, adopt, reconcile_patched, reconcile,
}
use llm_inference_operator.Controller.Reconcile.Published.{IsPublished}
use llm_inference_operator.Controller.Reconcile.Success.{reconcile_live_success}

module _ (P : Platform) (namespace name : String) (s : P.client.State) where
  open P use {client as api}

  -- The cluster was read, and `c` is what the patch with the defaults returned.
  pub record IsPatched (original c : Cluster) (u : api.State) : Type 0 where
    pub read : api.State
    pub got : api.get_cluster namespace name s ≡ (ok original, read)
    pub patched : api.patch_cluster (apply_defaults original) original read ≡ (ok c, u)

  -- How a reconcile ends without an error: the cluster is not there; it is being deleted and the
  -- finalizer is not on it, or was taken off by the last call; it is not being deleted and its status
  -- was published last, after the finalizer was added if it was not there.
  pub data Ended : Return → api.State → Type 0 where
    gone :
        (e : Error) (t : api.State)
        → api.get_cluster namespace name s ≡ (err e, t)
        → e.is_not_found ≡ true
        → Ended done t
    free :
        (original c : Cluster) (u : api.State)
        → IsPatched original c u
        → is_deleting c ≡ true
        → api.contains_finalizer c.metadata finalizer ≡ false
        → Ended done u
    released :
        (original c d : Cluster) (u t : api.State)
        → IsPatched original c u
        → is_deleting c ≡ true
        → api.contains_finalizer c.metadata finalizer ≡ true
        → api.update_cluster (record c { metadata = api.remove_finalizer c.metadata finalizer }) u
          ≡ (ok d, t)
        → Ended done t
    kept :
        (original c : Cluster) (u t : api.State) (v : Return)
        → IsPatched original c u
        → is_deleting c ≡ false
        → api.contains_finalizer c.metadata finalizer ≡ true
        → IsPublished P original c v t
        → Ended v t
    adopted :
        (original c d : Cluster) (u w t : api.State) (v : Return)
        → IsPatched original c u
        → is_deleting c ≡ false
        → api.contains_finalizer c.metadata finalizer ≡ false
        → api.update_cluster (record c { metadata = api.add_finalizer c.metadata finalizer }) u
          ≡ (ok d, w)
        → IsPublished P original d v t
        → Ended v t

  -- What is said of a run, by what it returns and where it ends.
  pub record Ends (q : Outcome Return × api.State) : Type 0 where
    pub ended : (v : Return) (t : api.State) → q ≡ (ok v, t) → v.error ≡ none → Ended v t

  abbrev EndedAt : Outcome Return × api.State → Type 0
  EndedAt (ok v, t) = Ended v t
  EndedAt (err e, t) = Unit
  EndedAt (panic, t) = Unit

  pure-Ends : (x : Return) (u : api.State) → Ended x u → Ends (ok x, u)
  pure-Ends x u h = record { ended = λ v t q k. subst EndedAt q h }

  failed-Ends : (e : Error) (u : api.State) → Ends (ok (failed e), u)
  failed-Ends e u = record { ended = λ v t q k. absurd (impossible q k) }
    where
      impossible :
          {v : Return} {t : api.State}
          → ◌≡◌ {A = Outcome Return × api.State} (ok (failed e), u) (ok v, t)
          → v.error ≢ none
      impossible q k = cc

  panic-Ends : (u : api.State) → Ends (panic, u)
  panic-Ends u = record { ended = λ v t q k. absurd (impossible q) }
    where
      impossible :
          {v : Return} {t : api.State} → ◌≢◌ {A = Outcome Return × api.State} (panic, u) (ok v, t)
      impossible q = cc

  attempt-Ends :
      {A : Type 0} (m : M api.State A) (on_error : Error → M api.State Return)
      (rest : A → M api.State Return) (u : api.State)
      → ((a : A) (t : api.State) → m u ≡ (ok a, t) → Ends (rest a t))
      → ((e : Error) (t : api.State) → m u ≡ (err e, t) → Ends (on_error e t))
      → Ends (attempt m on_error rest u)
  attempt-Ends {A} m on_error rest u next stopped = go (m u) refl
    where
      go : (r : Outcome A × api.State) → m u ≡ r → Ends (resume on_error rest r)
      go (ok a, t) q = next a t q
      go (err e, t) q = stopped e t q
      go (panic, t) q = panic-Ends t

  module _ (original c : Cluster) (u : api.State) (patched : IsPatched original c u) where
    release-Ends : is_deleting c ≡ true → Ends (release P c u)
    unfolding release
    release-Ends deleting = elim (Bool-cases (api.contains_finalizer c.metadata finalizer)) [
      | inl has ↦ rw has (
          attempt-Ends
            (api.update_cluster (record c { metadata = api.remove_finalizer c.metadata finalizer }))
            _ (λ _. pure done) u
            (λ d t q. pure-Ends done t (released original c d u t patched deleting has q))
            (λ e t q. failed-Ends e t))
      | inr has_not ↦ rw has_not (pure-Ends done u (free original c u patched deleting has_not))
    ]

    adopt-Ends : is_deleting c ≡ false → Ends (adopt P original c u)
    unfolding adopt
    adopt-Ends living = elim (Bool-cases (api.contains_finalizer c.metadata finalizer)) [
      | inl has ↦ rw has (record {
        ended = λ v t q k.
            kept original c u t v patched living has
              (reconcile_live_success P original c u t v q k);
      })
      | inr has_not ↦ rw has_not (
          attempt-Ends
            (api.update_cluster (record c { metadata = api.add_finalizer c.metadata finalizer })) _
            _ u
            (λ d w q. record {
              ended = λ v t r k.
                  adopted original c d u w t v patched living has_not q
                    (reconcile_live_success P original d w t v r k);
            })
            (λ e t q. failed-Ends e t))
    ]

    patched-Ends : Ends (reconcile_patched P original c u)
    unfolding reconcile_patched
    patched-Ends = elim (Bool-cases (is_deleting c)) [
      | inl deleting ↦ rw deleting (release-Ends deleting)
      | inr living ↦ rw living (adopt-Ends living)
    ]

  unread-Ends :
      (e : Error) (t : api.State)
      → api.get_cluster namespace name s ≡ (err e, t)
      → (b : Bool) → e.is_not_found ≡ b
      → Ends ((if b then pure done else pure (failed e)) t)
  unread-Ends e t q true missing = pure-Ends done t (gone e t q missing)
  unread-Ends e t q false present = failed-Ends e t

  reconcile-Ends : Ends (reconcile P namespace name s)
  unfolding reconcile
  reconcile-Ends =
      attempt-Ends (api.get_cluster namespace name) _ _ s
        (λ original read got.
          attempt-Ends (api.patch_cluster (apply_defaults original) original) _ _ read
            (λ c u q. patched-Ends original c u (record { read = read; got = got; patched = q }))
            (λ e t q. failed-Ends e t))
        (λ e t q. unread-Ends e t q e.is_not_found refl)

  -- A reconcile that returns without an error has ended in one of these ways, and no other. The cluster
  -- was not found. Or it was read and patched with the defaults, and is being deleted: without the
  -- finalizer nothing was called after that, with it the last call took it off and succeeded. Or it is
  -- not being deleted, had the finalizer or was given it, and the last call was the patch of its
  -- status, with the requeue, the shards of this run and the endpoints at the ports of the cluster that
  -- the API server returned.
  pub reconcile_ended :
      (v : Return) (t : api.State)
      → reconcile P namespace name s ≡ (ok v, t)
      → v.error ≡ none
      → Ended v t
  reconcile_ended v t returned no_error = reconcile-Ends.ended v t returned no_error
