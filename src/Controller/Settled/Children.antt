-- ===== src/Controller/Settled/Children.antt =====
-- No child changes when its mutate function runs a second time.
use llm_inference_operator.Base.{String, List, ◌∷◌, Option, some, ◌≡◌, refl, sym, ap}
use llm_inference_operator.Base.Int.{ℤ}
use llm_inference_operator.Base.Dict.{Dict, insert}
use llm_inference_operator.Kube.{
  Outcome, ok, err, panic, ObjectMeta, Service, ConfigMap, ServiceAccount, Role, RoleBinding,
  Container, Deployment, EnvVar,
}
use llm_inference_operator.Kube.Client.{and_then}
use llm_inference_operator.Cluster.{Cluster}
use llm_inference_operator.Platform.{Platform}
use llm_inference_operator.Controller.Labels.{role_labels}
use llm_inference_operator.Controller.Children.{
  with_labels, own, insert_missing, map_or_empty, mutate_role_service, mutate_router_service,
  mutate_shard_map, mutate_signals, mutate_service_account, mutate_role, mutate_role_binding,
}
use llm_inference_operator.Controller.Workloads.{
  update_first, worker_container, router_env, router_container, role_replicas,
  mutate_role_deployment, mutate_router_deployment,
}
use llm_inference_operator.Controller.Workloads.Traffic.{update_first-head}
use mathlib.Core.Path.{subst}
use llm_inference_operator.Controller.Settled.{
  IsReference, Settled, build-Settled, build-Settled_total,
}
use llm_inference_operator.Controller.Settled.Maps.{insert-insert, insert_missing_again}

update_first_again :
    (name : String) (f : Container → Container) (cs : Option (List Container))
    (out : List Container)
    → ((x : Container) → f (f x) ≡ f x)
    → update_first name f cs ≡ ok out
    → update_first name f (some out) ≡ ok out
unfolding update_first
update_first_again name f cs out twice h =
    let (x, rest, same) = update_first-head name f cs h in
    subst (λ (o : List Container). update_first name f (some o) ≡ ok o) (sym same)
      (ap (λ (y : Container). ok (y ∷ rest)) (twice x))

module _ (P : Platform) (c : Cluster) (reference : IsReference P.client c) where
  pub role_deployment-Settled :
      (role service_name : String) (base : Dict String) (override : Option ℤ) (d : Deployment)
      → Settled (mutate_role_deployment P c role service_name base override) d
  unfolding mutate_role_deployment worker_container
  role_deployment-Settled role service_name base override d =
      build-Settled P.client c reference (λ (x : Deployment). x.metadata) _
        (λ d. update_first "worker" (worker_container P c role service_name) d.containers)
        (λ d containers m. record d {
          metadata = m;
          replicas = some (role_replicas c role override);
          selector = some (role_labels base role);
          template_labels = role_labels base role;
          containers = some containers;
        })
        (λ a b m. refl)
        (λ a b m e.
          update_first_again "worker" (worker_container P c role service_name) a.containers b
            (λ x. refl) e)
        (λ a b m e. refl) d

  pub router_deployment-Settled :
      (shard_map_name account : String) (base : Dict String) (d : Deployment)
      → Settled (mutate_router_deployment P c shard_map_name account base) d
  unfolding mutate_router_deployment router_container
  router_deployment-Settled shard_map_name account base d = go (router_env P c)
    where
      labels : Dict String
      labels = role_labels base "router"

      rebuild : Deployment → List Container → ObjectMeta → Deployment
      rebuild d containers m = record {
        metadata = m;
        replicas = c.spec.routing.router_replicas;
        selector = some labels;
        template_labels = labels;
        service_account_name = account;
        containers = some containers;
      }

      prepare : List EnvVar → Deployment → Outcome (List Container)
      prepare env d = update_first "router" (router_container P c shard_map_name env) d.containers

      go :
          (envs : Outcome (List EnvVar))
          → Settled
              (λ (d : Deployment). and_then envs λ env.
                and_then (prepare env d) λ containers.
                  own P.client c (with_labels d.metadata labels) (rebuild d containers))
              d
      go (ok env) =
          build-Settled P.client c reference (λ (x : Deployment). x.metadata) labels (prepare env)
            rebuild (λ a b m. refl)
            (λ a b m e.
              update_first_again "router" (router_container P c shard_map_name env) a.containers b
                (λ x. refl) e)
            (λ a b m e. refl) d
      go (err e) = refl
      go panic = refl

  -- Where `SetControllerReference` changes nothing the second time and leaves labels alone: the
  -- mutate function of every service, ConfigMap, RBAC object and deployment of a cluster changes nothing when
  -- it runs again on its own result, whatever the object was before.
  pub mutate-Settled :
      (role service_name shard_map_name account_name text : String) (port : ℤ) (base : Dict String)
      (override : Option ℤ) (account : ServiceAccount) (r : Role) (svc router_svc : Service)
      (shard_map signals : ConfigMap) (sa : ServiceAccount) (ro : Role) (rb : RoleBinding)
      (d router_d : Deployment)
      → Settled (mutate_role_service P.client c role port base) svc
        × Settled (mutate_router_service P.client c base) router_svc
        × Settled (mutate_shard_map P.client c base text) shard_map
        × Settled (mutate_signals P.client c base) signals
        × Settled (mutate_service_account P.client c base) sa
        × Settled (mutate_role P.client c base) ro
        × Settled (mutate_role_binding P.client c base account r) rb
        × Settled (mutate_role_deployment P c role service_name base override) d
        × Settled (mutate_router_deployment P c shard_map_name account_name base) router_d
  unfolding mutate_role_service mutate_router_service mutate_shard_map mutate_signals
      mutate_service_account mutate_role mutate_role_binding
  mutate-Settled role service_name shard_map_name account_name text port base override account r svc
        router_svc shard_map signals sa ro rb d router_d =
      (
        build-Settled_total P.client c reference (λ (x : Service). x.metadata) _ _ (λ a m. refl)
            (λ a m. refl) svc,
        build-Settled_total P.client c reference (λ (x : Service). x.metadata) _ _ (λ a m. refl)
            (λ a m. refl) router_svc,
        build-Settled_total P.client c reference (λ (x : ConfigMap). x.metadata) _
            (λ cm m. record {
              metadata = m;
              entries = some (insert "shardmap.json" text (map_or_empty cm.entries));
            })
            (λ a m. refl)
            (λ a m. rw (insert-insert "shardmap.json" text (map_or_empty a.entries)) refl)
            shard_map,
        build-Settled_total P.client c reference (λ (x : ConfigMap). x.metadata) _
            (λ cm m. record {
              metadata = m;
              entries = some (
                  insert_missing "memPressure" "0" (
                    insert_missing "tokensPerSecond" "0"
                      (insert_missing "queueDepth" "0" (map_or_empty cm.entries))));
            })
            (λ a m. refl) (λ a m. rw (insert_missing_again (map_or_empty a.entries)) refl) signals,
        build-Settled_total P.client c reference (λ (x : ServiceAccount). x.metadata) _ _
            (λ a m. refl) (λ a m. refl) sa,
        build-Settled_total P.client c reference (λ (x : Role). x.metadata) _ _ (λ a m. refl)
            (λ a m. refl) ro,
        build-Settled_total P.client c reference (λ (x : RoleBinding). x.metadata) _ _ (λ a m. refl)
            (λ a m. refl) rb,
        role_deployment-Settled role service_name base override d,
        router_deployment-Settled shard_map_name account_name base router_d,
      )
