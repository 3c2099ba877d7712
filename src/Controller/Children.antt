-- ===== src/Controller/Children.antt =====
-- The objects other than workloads that a cluster owns: services, ConfigMaps and the router's RBAC
-- (internal/controller/llminferencecluster_controller.go). `CreateOrUpdate` runs a mutate function
-- on the object that it finds, or on a skeleton with only a name and a namespace.
pub mod Maps
use llm_inference_operator.Base.{String, List, [], ◌∷◌, Option, none, some, Bool, ◌<>◌}
use llm_inference_operator.Base.Int.{ℤ, pos, wrap32}
use llm_inference_operator.Base.Dict.{Dict, lookup, insert}
use llm_inference_operator.Kube.{
  Outcome, ok, err, panic, ObjectMeta, IntOrString, int_val, ServicePort, Service, ConfigMap,
  ServiceAccount, PolicyRule, Role, RoleRef, Subject, RoleBinding,
}
use llm_inference_operator.Kube.Client.{Client, M, pure, and_then, ◌>>=◌}
use llm_inference_operator.Cluster.{Cluster}
use llm_inference_operator.Controller.Labels.{role_labels}

-- `metav1.ObjectMeta{Name: name, Namespace: namespace}`
abbrev pub skeleton : String → String → ObjectMeta
skeleton namespace name = record {
  name = name;
  namespace = namespace;
  uid = "";
  generation = pos 0;
  deletion_timestamp = none;
  finalizers = [];
  labels = [];
  owner_references = [];
}

unfoldable pub intstr_from_int : ℤ → IntOrString
intstr_from_int i = int_val (wrap32 i)

-- `obj.Labels = labels`
abbrev pub with_labels : ObjectMeta → Dict String → ObjectMeta
with_labels m labels = record m { labels = labels }

-- `if _, ok := m[k]; !ok { m[k] = v }`
unfoldable pub insert_missing : String → String → Dict String → Dict String
insert_missing k v m = elim (lookup k m) [ none ↦ insert k v m | some _ ↦ m ]

-- `if cm.Data == nil { cm.Data = map[string]string{} }`
abbrev pub map_or_empty : Option (Dict String) → Dict String
map_or_empty none = []
map_or_empty (some m) = m

abbrev http_port : ℤ → ServicePort
http_port port = record {
  name = "http";
  port = port;
  protocol = "TCP";
  target_port = intstr_from_int port;
}

module _ (api : Client) (c : Cluster) where
  -- The last statement of every mutate function.
  unfoldable pub own : {A : Type 0} → ObjectMeta → (ObjectMeta → A) → Outcome A
  own m rebuild = and_then (api.set_controller_reference c.metadata m) (λ m'. ok (rebuild m'))

  unfoldable pub mutate_role_service : String → ℤ → Dict String → Service → Outcome Service
  unfolding own intstr_from_int
  mutate_role_service role port base svc =
      own (with_labels svc.metadata (role_labels base role)) (λ m. record {
        metadata = m;
        selector = role_labels base role;
        ports = http_port port ∷ [];
      })

  unfoldable pub mutate_router_service : Dict String → Service → Outcome Service
  unfolding own intstr_from_int
  mutate_router_service base svc = own (with_labels svc.metadata (role_labels base "router")) (λ m.
      record {
        metadata = m;
        selector = role_labels base "router";
        ports =
            http_port (pos 8080)
            ∷ record {
              name = "metrics";
              port = pos 9090;
              protocol = "TCP";
              target_port = intstr_from_int (pos 9090);
            }
            ∷ [];
      })

  unfoldable pub mutate_shard_map : Dict String → String → ConfigMap → Outcome ConfigMap
  unfolding own
  mutate_shard_map base text cm = own (with_labels cm.metadata (role_labels base "shardmap")) (λ m.
      record {
        metadata = m;
        entries = some (insert "shardmap.json" text (map_or_empty cm.entries));
      })

  unfoldable pub mutate_signals : Dict String → ConfigMap → Outcome ConfigMap
  unfolding own insert_missing
  mutate_signals base cm = own (with_labels cm.metadata (role_labels base "signals")) (λ m. record {
    metadata = m;
    entries = some (
        insert_missing "memPressure" "0" (
          insert_missing "tokensPerSecond" "0"
            (insert_missing "queueDepth" "0" (map_or_empty cm.entries))));
  })

  unfoldable pub mutate_service_account : Dict String → ServiceAccount → Outcome ServiceAccount
  unfolding own
  mutate_service_account base sa =
      own (with_labels sa.metadata (role_labels base "router")) (λ m. record { metadata = m })

  unfoldable pub mutate_role : Dict String → Role → Outcome Role
  unfolding own
  mutate_role base role = own (with_labels role.metadata (role_labels base "router")) (λ m. record {
    metadata = m;
    rules =
        record {
          api_groups = "" ∷ [];
          resources = "configmaps" ∷ [];
          verbs = "get" ∷ "list" ∷ "watch" ∷ [];
        }
        ∷ [];
  })

  -- `rbacv1.GroupName` is the group of the RBAC API.
  unfoldable pub mutate_role_binding :
      Dict String → ServiceAccount → Role → RoleBinding → Outcome RoleBinding
  unfolding own
  mutate_role_binding base sa role rb =
      own (with_labels rb.metadata (role_labels base "router")) (λ m. record {
        metadata = m;
        role_ref = record {
          api_group = "rbac.authorization.k8s.io";
          kind = "Role";
          name = role.metadata.name;
        };
        subjects =
            record {
              kind = "ServiceAccount";
              name = sa.metadata.name;
              namespace = sa.metadata.namespace;
            }
            ∷ [];
      })

  unfoldable pub reconcile_role_service : String → String → ℤ → Dict String → M api.State (Unit {0})
  unfolding mutate_role_service
  reconcile_role_service role name port base = do
    _ ←
        api.create_or_update_service
          (record { metadata = skeleton c.metadata.namespace name; selector = []; ports = [] })
          (mutate_role_service role port base)
    pure tt

  unfoldable pub reconcile_router_service : String → Dict String → M api.State (Unit {0})
  unfolding mutate_router_service
  reconcile_router_service name base = do
    _ ←
        api.create_or_update_service
          (record { metadata = skeleton c.metadata.namespace name; selector = []; ports = [] })
          (mutate_router_service base)
    pure tt

  unfoldable pub reconcile_shard_map_config_map :
      String → Dict String → String → M api.State (Unit {0})
  unfolding mutate_shard_map
  reconcile_shard_map_config_map name base text = do
    _ ←
        api.create_or_update_config_map
          (record { metadata = skeleton c.metadata.namespace name; entries = none })
          (mutate_shard_map base text)
    pure tt

  unfoldable pub reconcile_signals_config_map : String → Dict String → M api.State (Unit {0})
  unfolding mutate_signals
  reconcile_signals_config_map name base = do
    _ ←
        api.create_or_update_config_map
          (record { metadata = skeleton c.metadata.namespace name; entries = none })
          (mutate_signals base)
    pure tt

  -- The binding names the account and the role as the server returned them.
  unfoldable pub reconcile_router_rbac : String → Dict String → M api.State (Unit {0})
  unfolding mutate_service_account mutate_role mutate_role_binding
  reconcile_router_rbac name base = do
    sa ←
        api.create_or_update_service_account
          (record { metadata = skeleton c.metadata.namespace name }) (mutate_service_account base)
    role ←
        api.create_or_update_role
          (record { metadata = skeleton c.metadata.namespace name; rules = [] }) (mutate_role base)
    _ ←
        api.create_or_update_role_binding
          (record {
            metadata = skeleton c.metadata.namespace name;
            role_ref = record { api_group = ""; kind = ""; name = "" };
            subjects = [];
          })
          (mutate_role_binding base sa role)
    pure tt
