-- ===== src/Controller/Reconcile/Desired/Keeps.antt =====
-- The steps that leave the deployments alone.
use llm_inference_operator.Base.{String, List, Option, none, some, ◌≡◌, refl, ◌∙◌, deref}
use llm_inference_operator.Base.Int.{ℤ, pos}
use llm_inference_operator.Base.Dict.{Dict}
use llm_inference_operator.Kube.{Error, Outcome, ok, err, panic, Pod}
use llm_inference_operator.Kube.Client.{M, pure, raise, attempt, resume, ◌>>=◌}
use llm_inference_operator.Platform.{Platform}
use llm_inference_operator.Cluster.{Cluster, ShardStatus}
use llm_inference_operator.Controller.Labels.{role_labels, role_decode}
use llm_inference_operator.ShardMap.Doc.{ShardMapDoc, json_of_doc}
use llm_inference_operator.Controller.Shards.{
  build_shards, compute_shard_map, place_shards, encode_shards, lift, read_clock,
}
use llm_inference_operator.Controller.Status.{
  Return, failed, mark_degraded, mark_ready, requeue_degraded,
}
use llm_inference_operator.Controller.Children.{
  reconcile_role_service, reconcile_router_service, reconcile_router_rbac,
  reconcile_shard_map_config_map,
}
use llm_inference_operator.Controller.Reconcile.{
  or_degraded, read_pointer, with_status, publish_status, publish_shards, shard_map_name,
}
use llm_inference_operator.Controller.Reconcile.Desired.{View, IsStore}

module _ (P : Platform) (view : View P.client) (store : IsStore P.client view) where
  open P use {client as api}

  -- The run from any state leaves the deployments alone, however it ends.
  abbrev pub Keeps : {A : Type 0} → M api.State A → Type 0
  Keeps m = (s : api.State) → view (m s).1 ≡ view s

  attempt-Keeps :
      {A B : Type 0} (m : M api.State A) (handle : Error → M api.State B) (rest : A → M api.State B)
      → Keeps m
      → ((e : Error) → Keeps (handle e))
      → ((a : A) → Keeps (rest a))
      → Keeps (attempt m handle rest)
  attempt-Keeps {A} m handle rest first failed_keeps next s = go (m s) ∙ first s
    where
      go : (r : Outcome A × api.State) → view (resume handle rest r).1 ≡ view r.1
      go (ok a, t) = next a t
      go (err e, t) = failed_keeps e t
      go (panic, t) = refl

  pub step-Keeps :
      {A : Type 0} (m : M api.State A) → Keeps m → Keeps (attempt m raise (λ _. pure tt))
  step-Keeps m h = attempt-Keeps m raise (λ _. pure tt) h (λ e s. refl) (λ a s. refl)

  module _ (c : Cluster) where
    pub role_service-Keeps :
        (role name : String) (port : ℤ) (base : Dict String)
        → Keeps (reconcile_role_service api c role name port base)
    unfolding reconcile_role_service
    role_service-Keeps role name port base = step-Keeps _ (store.service _ _)

    pub router_service-Keeps :
        (name : String) (base : Dict String) → Keeps (reconcile_router_service api c name base)
    unfolding reconcile_router_service
    router_service-Keeps name base = step-Keeps _ (store.service _ _)

    shard_map-Keeps :
        (name text : String) (base : Dict String)
        → Keeps (reconcile_shard_map_config_map api c name base text)
    unfolding reconcile_shard_map_config_map
    shard_map-Keeps name text base = step-Keeps _ (store.config_map _ _)

    pub rbac-Keeps :
        (name : String) (base : Dict String) → Keeps (reconcile_router_rbac api c name base)
    unfolding reconcile_router_rbac
    rbac-Keeps name base =
        attempt-Keeps (api.create_or_update_service_account _ _) raise _ (store.service_account _ _)
          (λ e s. refl)
          λ sa.
            attempt-Keeps (api.create_or_update_role _ _) raise _ (store.role _ _) (λ e s. refl)
              λ role. step-Keeps (api.create_or_update_role_binding _ _) (store.role_binding _ _)

    requeue_degraded-Keeps : (e : Error) → Keeps (requeue_degraded api c e)
    unfolding requeue_degraded mark_degraded
    requeue_degraded-Keeps e s = store.update_status _ _ ∙ store.now _ ∙ store.now s

    or_degraded-Keeps :
        {A : Type 0} (m : M api.State A) (rest : A → M api.State Return)
        → Keeps m
        → ((a : A) → Keeps (rest a))
        → Keeps (or_degraded P c m rest)
    or_degraded-Keeps m rest h k =
        attempt-Keeps m (requeue_degraded api c) rest h requeue_degraded-Keeps k

  read_pointer-Keeps :
      {A : Type 0} (p : Option A) (rest : A → M api.State Return)
      → ((a : A) → Keeps (rest a))
      → Keeps (read_pointer P p rest)
  read_pointer-Keeps none rest h s = refl
  read_pointer-Keeps (some a) rest h s = h a s

  encode_shards-Keeps : (r : List ShardStatus × ShardMapDoc) → Keeps (encode_shards api P.codec r)
  unfolding encode_shards lift
  encode_shards-Keeps (statuses, doc) =
      attempt-Keeps (lift api P.codec (P.codec.print (json_of_doc doc))) raise
        (λ text. pure (statuses, text)) (λ s. refl) (λ e s. refl) (λ text s. refl)

  place_shards-Keeps : (c : Cluster) (pods : List Pod) → Keeps (place_shards api P.codec c pods)
  unfolding place_shards lift read_clock
  place_shards-Keeps c pods =
      let n = deref c.spec.kv_cache.num_shards (pos 8) in
      attempt-Keeps (read_clock api P.codec) raise
        (λ now. lift api P.codec (build_shards pods n now) >>= encode_shards api P.codec)
        (λ s. store.now s) (λ e s. refl)
        λ now.
          attempt-Keeps (lift api P.codec (build_shards pods n now)) raise
            (encode_shards api P.codec) (λ s. refl) (λ e s. refl) encode_shards-Keeps

  compute_shard_map-Keeps :
      (c : Cluster) (base : Dict String) → Keeps (compute_shard_map api P.codec c base)
  unfolding compute_shard_map
  compute_shard_map-Keeps c base =
      attempt-Keeps (api.list_pods c.metadata.namespace (role_labels base role_decode)) raise
        (place_shards api P.codec c) (store.list_pods _ _) (λ e s. refl) (place_shards-Keeps c)

  publish_status-Keeps : (original c : Cluster) → Keeps (publish_status P original c)
  unfolding publish_status mark_ready
  publish_status-Keeps original c = read_pointer-Keeps c.spec.runtime.decode.service_port _ λ dp.
      read_pointer-Keeps c.spec.runtime.prefill.service_port _ λ pp s.
        attempt-Keeps (api.patch_status (mark_ready api (with_status P c dp pp) s).0 original)
          (λ e. pure (failed e)) _ (store.patch_status _ _) (λ e t. refl) (λ a t. refl)
          (mark_ready api (with_status P c dp pp) s).1
        ∙ store.now _
        ∙ store.now s

  pub publish_shards-Keeps :
      (original c : Cluster) (labels : Dict String) → Keeps (publish_shards P original c labels)
  unfolding publish_shards
  publish_shards-Keeps original c labels =
      or_degraded-Keeps c (compute_shard_map api P.codec c labels) _
        (compute_shard_map-Keeps c labels)
        λ (shards, text).
          let c' : Cluster = record c { status = record c.status { shards = shards } } in
          or_degraded-Keeps c'
            (reconcile_shard_map_config_map api c' (shard_map_name c') labels text) _
            (shard_map-Keeps c' (shard_map_name c') text labels)
            (λ a. publish_status-Keeps original c')
