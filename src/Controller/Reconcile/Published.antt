-- ===== src/Controller/Reconcile/Published.antt =====
-- What the last part of a reconcile has written when it returns without an error.
use llm_inference_operator.Base.{
  ℕ, String, List, Option, none, some, Bool, true, false, ◌≡◌, ◌≢◌, ◌∙◌, ◌⊎◌, ◌<>◌, refl, sym, ap,
  deref,
}
use llm_inference_operator.Base.Int.{ℤ}
use llm_inference_operator.Kube.{Error, Outcome, ok, err, panic, ObjectMeta}
use llm_inference_operator.Kube.Client.{M, pure, resume, attempt}
use llm_inference_operator.Platform.{Platform}
use llm_inference_operator.Cluster.{Cluster, ClusterSpec, ShardStatus, ClusterEndpointsStatus}
use llm_inference_operator.Controller.Labels.{base_labels}
use llm_inference_operator.Controller.Autoscale.{compute_decode_replicas}
use llm_inference_operator.Controller.Shards.{compute_shard_map}
use llm_inference_operator.Controller.Workloads.{service_dns}
use llm_inference_operator.Controller.Status.{
  Return, failed, drop_error, mark_degraded, requeue_degraded, mark_ready, set_condition,
}
use llm_inference_operator.Controller.Reconcile.{
  or_degraded, read_pointer, with_status, publish_status, mark_scaling, decode_name, prefill_name,
  router_name, signals_name,
}

module _ (P : Platform) (original base : Cluster) where
  open P use {client as api}

  -- The addresses of the router and of the two services of `base`.
  abbrev pub endpoints_of : ℤ → ℤ → ClusterEndpointsStatus
  endpoints_of decode_port prefill_port = record {
    router_url =
        "http://"
        <> (router_name base <> ("." <> (base.metadata.namespace <> ".svc.cluster.local:8080")));
    decode_service = service_dns (decode_name base) base.metadata.namespace decode_port;
    prefill_service = service_dns (prefill_name base) base.metadata.namespace prefill_port;
  }

  -- The cluster that the children are made from: `base`, with the condition of the autoscaling where
  -- autoscaling is enabled.
  pub record IsStart (from : Cluster) : Type 0 where
    pub metadata : from.metadata ≡ base.metadata
    pub spec : from.spec ≡ base.spec
    pub condition :
        ((deref base.spec.autoscaling.enabled false ≡ false) × (from ≡ base))
        ⊎ ((deref base.spec.autoscaling.enabled false ≡ true)
            × (replicas : ℤ) × (scaling : Bool) × (u w : api.State) × (compute_decode_replicas
                  P.floats api base
                  (signals_name base)
                  u
                ≡ (ok (replicas, scaling), w))
            × (from ≡ (mark_scaling P base replicas scaling w).0))

  -- That cluster with the shards in its status that a computation in this run placed.
  pub record IsPlaced (cluster : Cluster) : Type 0 where
    pub from : Cluster
    pub start : IsStart from
    pub shards : List ShardStatus
    pub text : String
    pub listing : api.State
    pub listed : api.State
    pub placed :
        compute_shard_map api P.codec from (base_labels base) listing ≡ (ok (shards, text), listed)
    pub placed_in : cluster ≡ record from { status = record from.status { shards = shards } }

  -- The next reconcile is asked for in 30 seconds, and the run ended with the patch of a status that
  -- has the shards placed in this run, the endpoints at the ports of `base` and its generation, and
  -- is marked ready.
  pub record IsPublished (v : Return) (t : api.State) : Type 0 where
    pub cluster : Cluster
    pub is_placed : IsPlaced cluster
    pub decode_port : ℤ
    pub prefill_port : ℤ
    pub decode_port_of : base.spec.runtime.decode.service_port ≡ some decode_port
    pub prefill_port_of : base.spec.runtime.prefill.service_port ≡ some prefill_port
    pub before : api.State
    pub stored : Cluster
    pub endpoints :
        let marked = mark_ready api (with_status P cluster decode_port prefill_port) before in
        marked.0.status.endpoints ≡ endpoints_of decode_port prefill_port
    pub generation :
        let marked = mark_ready api (with_status P cluster decode_port prefill_port) before in
        marked.0.status.observed_generation ≡ base.metadata.generation
    pub shards :
        let marked = mark_ready api (with_status P cluster decode_port prefill_port) before in
        marked.0.status.shards ≡ is_placed.shards
    pub requeue : v ≡ record { requeue_after = 30; error = none }
    pub patched :
        let marked = mark_ready api (with_status P cluster decode_port prefill_port) before in
        api.patch_status marked.0 original marked.1 ≡ (ok stored, t)

  -- What is said of a run, by what it returns and where it ends.
  pub record Publishes (q : Outcome Return × api.State) : Type 0 where
    pub published : (v : Return) (t : api.State) → q ≡ (ok v, t) → v.error ≡ none → IsPublished v t

  panic-Publishes : (s : api.State) → Publishes (panic, s)
  panic-Publishes s = record { published = λ v t h k. absurd (impossible h) }
    where
      impossible :
          {v : Return} {t : api.State} → ◌≢◌ {A = Outcome Return × api.State} (panic, s) (ok v, t)
      impossible h = cc

  error-Publishes :
      (n : ℕ) (e : Error) (s : api.State)
      → Publishes (ok (record { requeue_after = n; error = some e }), s)
  error-Publishes n e s = record { published = λ v t h k. absurd (impossible h k) }
    where
      impossible :
          {v : Return} {t : api.State}
          → ◌≡◌ {A = Outcome Return × api.State}
              (ok (record { requeue_after = n; error = some e }), s)
              (ok v, t)
          → v.error ≢ none
      impossible h k = cc

  degraded-Publishes :
      (c : Cluster) (e : Error) (s : api.State) → Publishes (requeue_degraded api c e s)
  unfolding requeue_degraded drop_error
  degraded-Publishes c e s =
      go (api.update_status (mark_degraded api c e s).0 (mark_degraded api c e s).1).0 _
    where
      go :
          (r : Outcome Cluster) (t : api.State)
          → Publishes (drop_error api r (record { requeue_after = 5; error = some e }), t)
      go (ok d) t = error-Publishes 5 e t
      go (err x) t = error-Publishes 5 e t
      go panic t = panic-Publishes t

  pub or_degraded-Publishes :
      {A : Type 0} (c : Cluster) (m : M api.State A) (rest : A → M api.State Return) (s : api.State)
      → ((a : A) (t : api.State) → m s ≡ (ok a, t) → Publishes (rest a t))
      → Publishes (or_degraded P c m rest s)
  or_degraded-Publishes {A} c m rest s h = go (m s) refl
    where
      go :
          (r : Outcome A × api.State) → m s ≡ r → Publishes (resume (requeue_degraded api c) rest r)
      go (ok a, t) q = h a t q
      go (err e, t) q = degraded-Publishes c e t
      go (panic, t) q = panic-Publishes t

  pub read_pointer-Publishes :
      {A : Type 0} (p : Option A) (rest : A → M api.State Return) (s : api.State)
      → ((a : A) → p ≡ some a → Publishes (rest a s))
      → Publishes (read_pointer P p rest s)
  read_pointer-Publishes none rest s h = panic-Publishes s
  read_pointer-Publishes (some a) rest s h = h a refl

  IsPlaced-spec : {c : Cluster} → IsPlaced c → c.spec ≡ base.spec
  IsPlaced-spec {c} placed = ap (λ (x : Cluster). x.spec) placed.placed_in ∙ placed.start.spec

  marked_status :
      (c : Cluster) (placed : IsPlaced c) (dp pp : ℤ) (s : api.State)
      → let marked = mark_ready api (with_status P c dp pp) s in
        (marked.0.status.endpoints ≡ endpoints_of dp pp)
        × (marked.0.status.observed_generation ≡ base.metadata.generation)
        × (marked.0.status.shards ≡ placed.shards)
  unfolding mark_ready set_condition with_status
  marked_status c placed dp pp s =
      let metadata : c.metadata ≡ base.metadata =
        ap (λ (x : Cluster). x.metadata) placed.placed_in ∙ placed.start.metadata in
      (
        ap (λ (m : ObjectMeta). endpoints_at m dp pp) metadata,
        ap (λ (m : ObjectMeta). m.generation) metadata,
        ap (λ (x : Cluster). x.status.shards) placed.placed_in,
      )
    where
      endpoints_at : ObjectMeta → ℤ → ℤ → ClusterEndpointsStatus
      endpoints_at m decode_port prefill_port = record {
        router_url =
            "http://"
            <> ((m.name <> "-router") <> ("." <> (m.namespace <> ".svc.cluster.local:8080")));
        decode_service = service_dns (m.name <> "-decode") m.namespace decode_port;
        prefill_service = service_dns (m.name <> "-prefill") m.namespace prefill_port;
      }

  pub publish_status-Publishes :
      (c : Cluster) (s : api.State) → IsPlaced c → Publishes (publish_status P original c s)
  unfolding publish_status
  publish_status-Publishes c s placed =
      read_pointer-Publishes c.spec.runtime.decode.service_port _ s (λ dp dp_of.
        read_pointer-Publishes c.spec.runtime.prefill.service_port _ s (λ pp pp_of.
          last dp pp
            (sym (ap (λ (x : ClusterSpec). x.runtime.decode.service_port) (IsPlaced-spec placed))
              ∙ dp_of)
            (sym (ap (λ (x : ClusterSpec). x.runtime.prefill.service_port) (IsPlaced-spec placed))
              ∙ pp_of)))
    where
      last :
          (dp pp : ℤ)
          → base.spec.runtime.decode.service_port ≡ some dp
          → base.spec.runtime.prefill.service_port ≡ some pp
          → let marked = mark_ready api (with_status P c dp pp) s in
            Publishes (
              attempt
                (api.patch_status marked.0 original)
                (λ e. pure (failed e))
                (λ _. pure (record { requeue_after = 30; error = none }))
                marked.1)
      last dp pp dp_of pp_of =
          go
            (api.patch_status (mark_ready api (with_status P c dp pp) s).0 original
              (mark_ready api (with_status P c dp pp) s).1)
            refl
        where
          go :
              (r : Outcome Cluster × api.State)
              → api.patch_status
                  (mark_ready api (with_status P c dp pp) s).0
                  original
                  (mark_ready api (with_status P c dp pp) s).1
                ≡ r
              → Publishes (
                  resume {B = Return}
                    (λ e. pure (failed e))
                    (λ _. pure (record { requeue_after = 30; error = none }))
                    r)
          go (ok d, t) e = record {
            published = λ v u h k. record {
              cluster = c;
              is_placed = placed;
              decode_port = dp;
              prefill_port = pp;
              decode_port_of = dp_of;
              prefill_port_of = pp_of;
              before = s;
              stored = d;
              endpoints = (marked_status c placed dp pp s).0;
              generation = (marked_status c placed dp pp s).1;
              shards = (marked_status c placed dp pp s).2;
              requeue = cc;
              patched =
                  e
                  ∙ ap (λ (w : api.State). let q : Outcome Cluster × api.State = (ok d, w) in q) cc;
            };
          }
          go (err x, t) e = error-Publishes 0 x t
          go (panic, t) e = panic-Publishes t
