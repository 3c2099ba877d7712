-- ===== src/Controller/Reconcile/Willing/Steps.antt =====
-- The steps of a live cluster succeed against a willing server.
use llm_inference_operator.Base.{
  Bool-cases, inl, inr, text_eq, text_eq_of_ne, if◌then◌else◌, ℕ, String, List, [], ◌∷◌, Option,
  none, some, Bool, true, false, ◌≡◌, ◌≢◌, refl, deref, arith,
}
use llm_inference_operator.Base.Int.{ℤ, pos, negsuc, ◌≤ℤ◌}
use llm_inference_operator.Base.Dict.{Dict}
use llm_inference_operator.Kube.{ok, ObjectMeta, Container, Pod}
use llm_inference_operator.Kube.Client.{Client, raise}
use llm_inference_operator.Platform.{Platform}
use llm_inference_operator.Json.{Json}
use llm_inference_operator.ShardMap.Doc.{json_of_doc}
use llm_inference_operator.Signals.{fake_config_map, read}
use llm_inference_operator.Cluster.{Cluster, signals_source_prometheus}
use llm_inference_operator.Controller.Labels.{role_labels, role_decode}
use llm_inference_operator.Controller.Autoscale.{adapter_for, compute_decode_replicas}
use llm_inference_operator.Controller.Shards.{
  build_shards, compute_shard_map, place_shards, encode_shards, lift, read_clock,
}
use llm_inference_operator.Controller.Children.{
  own, mutate_role_service, mutate_router_service, mutate_shard_map, mutate_signals,
  mutate_service_account, mutate_role, mutate_role_binding, reconcile_role_service,
  reconcile_router_service, reconcile_shard_map_config_map, reconcile_signals_config_map,
  reconcile_router_rbac,
}
use llm_inference_operator.Controller.Workloads.{
  update_first, router_env, router_container, worker_container, mutate_role_deployment,
  mutate_router_deployment, reconcile_role_deployment, reconcile_router_deployment,
}
use llm_inference_operator.Controller.Reconcile.Willing.{
  IsOk, Works, IsWilling, attempt-Works, and_then-IsOk,
}

update_first-IsOk :
    (name : String) (f : Container → Container) (cs : Option (List Container))
    → cs ≢ some []
    → IsOk (update_first name f cs)
unfolding update_first
update_first-IsOk name f none h = (_, refl)
update_first-IsOk name f (some []) h = absurd (h refl)
update_first-IsOk name f (some (x ∷ xs)) h = (_, refl)

if_same {ℓ} : {A : Type ℓ} (b : Bool) (x : A) → (if b then x else x) ≡ x
if_same true x = refl
if_same false x = refl

build_shards-IsOk :
    (pods : List Pod) (n : ℤ) (now : ℕ) → pos 0 ≤ℤ n → IsOk (build_shards pods n now)
unfolding build_shards
build_shards-IsOk pods (pos n) now h = (_, refl)
build_shards-IsOk pods (negsuc n) now h = absurd (omega arith)

module _ (api : Client) (willing : IsWilling api) (c : Cluster) where
  own-IsOk : {A : Type 0} (m : ObjectMeta) (rebuild : ObjectMeta → A) → IsOk (own api c m rebuild)
  unfolding own
  own-IsOk m rebuild =
      and_then-IsOk (api.set_controller_reference c.metadata m) (λ m'. ok (rebuild m'))
        (willing.set_controller_reference c.metadata m) (λ m'. (rebuild m', refl))

  pub role_service-Works :
      (role name : String) (port : ℤ) (base : Dict String) (s : api.State)
      → Works (reconcile_role_service api c role name port base) s
  unfolding reconcile_role_service
  role_service-Works role name port base s =
      attempt-Works (api.create_or_update_service _ (mutate_role_service api c role port base))
        raise _ s (willing.service _ _ s (λ o h. own-IsOk _ _)) (λ a t. (tt, t, refl))

  pub router_service-Works :
      (name : String) (base : Dict String) (s : api.State)
      → Works (reconcile_router_service api c name base) s
  unfolding reconcile_router_service
  router_service-Works name base s =
      attempt-Works (api.create_or_update_service _ (mutate_router_service api c base)) raise _ s
        (willing.service _ _ s (λ o h. own-IsOk _ _)) (λ a t. (tt, t, refl))

  pub shard_map-Works :
      (name text : String) (base : Dict String) (s : api.State)
      → Works (reconcile_shard_map_config_map api c name base text) s
  unfolding reconcile_shard_map_config_map
  shard_map-Works name text base s =
      attempt-Works (api.create_or_update_config_map _ (mutate_shard_map api c base text)) raise _ s
        (willing.config_map _ _ s (λ o h. own-IsOk _ _)) (λ a t. (tt, t, refl))

  pub signals-Works :
      (name : String) (base : Dict String) (s : api.State)
      → Works (reconcile_signals_config_map api c name base) s
  unfolding reconcile_signals_config_map
  signals-Works name base s =
      attempt-Works (api.create_or_update_config_map _ (mutate_signals api c base)) raise _ s
        (willing.config_map _ _ s (λ o h. own-IsOk _ _)) (λ a t. (tt, t, refl))

  pub rbac-Works :
      (name : String) (base : Dict String) (s : api.State)
      → Works (reconcile_router_rbac api c name base) s
  unfolding reconcile_router_rbac
  rbac-Works name base s =
      attempt-Works (api.create_or_update_service_account _ (mutate_service_account api c base))
        raise _ s (willing.service_account _ _ s (λ o h. own-IsOk _ _))
        λ sa t.
          attempt-Works (api.create_or_update_role _ (mutate_role api c base)) raise _ t
            (willing.role _ _ t (λ o h. own-IsOk _ _))
            λ role u.
              attempt-Works
                (api.create_or_update_role_binding _ (mutate_role_binding api c base sa role)) raise
                _ u (willing.role_binding _ _ u (λ o h. own-IsOk _ _)) (λ rb v. (tt, v, refl))

module _ (P : Platform) (willing : IsWilling P.client) (c : Cluster) where
  pub role_deployment-Works :
      (role service_name : String) (base : Dict String) (override : Option ℤ) (s : P.client.State)
      → Works (reconcile_role_deployment P c role service_name base override) s
  unfolding reconcile_role_deployment
  role_deployment-Works role service_name base override s =
      attempt-Works
        (P.client.create_or_update_deployment _
          (mutate_role_deployment P c role service_name base override))
        raise _ s
        (willing.deployment _ _ s λ o h.
          and_then-IsOk
            (update_first "worker" (worker_container P c role service_name) o.containers) _
            (update_first-IsOk "worker" (worker_container P c role service_name) o.containers h)
            (λ cs. own-IsOk P.client willing c _ _))
        (λ a t. (tt, t, refl))

  pub router_deployment-Works :
      (shard_map account : String) (base : Dict String) (s : P.client.State)
      → IsOk (router_env P c)
      → Works (reconcile_router_deployment P c shard_map account base) s
  unfolding reconcile_router_deployment
  router_deployment-Works shard_map account base s env_ok =
      attempt-Works
        (P.client.create_or_update_deployment _
          (mutate_router_deployment P c shard_map account base))
        raise _ s
        (willing.deployment _ _ s λ o h. and_then-IsOk (router_env P c) _ env_ok λ env.
          and_then-IsOk (update_first "router" (router_container P c shard_map env) o.containers) _
            (update_first-IsOk "router" (router_container P c shard_map env) o.containers h)
            (λ cs. own-IsOk P.client willing c _ _))
        (λ a t. (tt, t, refl))

  pub router_env-IsOk :
      (dp pp : ℤ)
      → c.spec.runtime.decode.service_port ≡ some dp
      → c.spec.runtime.prefill.service_port ≡ some pp
      → IsOk (router_env P c)
  unfolding router_env
  router_env-IsOk dp pp d p = rw (d, p) (_, refl)

  adapter_for-fake :
      (name : String)
      → c.spec.autoscaling.signals.source ≢ signals_source_prometheus
      → adapter_for c name ≡ fake_config_map c.metadata.namespace name
  unfolding adapter_for
  adapter_for-fake name h = elim (Bool-cases (text_eq c.spec.autoscaling.signals.source "")) [
    | inl e ↦ rw e refl
    | inr e ↦
        rw (e, text_eq_of_ne c.spec.autoscaling.signals.source signals_source_prometheus h)
          (if_same _ _)
  ]

  pub decode_replicas-Works :
      (name : String) (s : P.client.State)
      → c.spec.autoscaling.signals.source ≢ signals_source_prometheus
      → Works (compute_decode_replicas P.floats P.client c name) s
  unfolding compute_decode_replicas read
  decode_replicas-Works name s h =
      attempt-Works (read P.floats P.client (adapter_for c name)) raise _ s
        (rw (adapter_for-fake name h) (
          attempt-Works (P.client.get_config_map c.metadata.namespace name) raise _ s
            (willing.get_config_map c.metadata.namespace name s) (λ cm t. (_, t, refl))))
        (λ r t. (_, t, refl))

  pub compute_shard_map-Works :
      (base : Dict String) (s : P.client.State)
      → ((j : Json) → IsOk (P.codec.print j))
      → pos 0 ≤ℤ deref c.spec.kv_cache.num_shards (pos 8)
      → Works (compute_shard_map P.client P.codec c base) s
  unfolding compute_shard_map place_shards encode_shards lift read_clock
  compute_shard_map-Works base s printed count =
      attempt-Works (P.client.list_pods c.metadata.namespace (role_labels base role_decode)) raise _
        s (willing.list_pods _ _ s)
        λ pods t.
          let n = deref c.spec.kv_cache.num_shards (pos 8) in
          let clock = P.client.now t in
          let (placed, e) = build_shards-IsOk pods n clock.0 count in
          let (text, f) = printed (json_of_doc placed.1) in
          ((placed.0, text), clock.1, rw (e, f) refl)
