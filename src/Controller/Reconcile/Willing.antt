-- ===== src/Controller/Reconcile/Willing.antt =====
-- What it takes for a step to succeed.
pub mod Steps
use llm_inference_operator.Base.{
  ℕ, String, List, [], Option, none, some, Bool, true, false, ◌≡◌, ◌≢◌, refl,
}
use llm_inference_operator.Base.Dict.{Dict}
use llm_inference_operator.Kube.{
  Error, Outcome, ok, err, panic, ObjectMeta, Service, Deployment, ConfigMap, ServiceAccount, Role,
  RoleBinding,
}
use llm_inference_operator.Kube.Client.{Client, M, CreateOrUpdate, attempt, resume, and_then}
use llm_inference_operator.Cluster.{Cluster}
use llm_inference_operator.Controller.Reconcile.Calm.{HasContainers}

abbrev pub IsOk : {A : Type 0} → Outcome A → Type 0
IsOk {A} r = (a : A) × (r ≡ ok a)

-- The run of a step from a state ends with a value.
abbrev pub Works : {S A : Type 0} → M S A → S → Type 0
Works {S} {A} m s = (a : A) × (t : S) × (m s ≡ (ok a, t))

-- A `CreateOrUpdate` that succeeds where its mutate function does, on whatever object the server
-- may hold.
abbrev pub IsWillingApply : {S Obj : Type 0} → (Obj → Type 0) → CreateOrUpdate S Obj → Type 0
IsWillingApply {S} {Obj} Held apply =
    (skeleton : Obj) (mutate : Obj → Outcome Obj) (s : S)
    → ((o : Obj) → Held o → IsOk (mutate o))
    → Works (apply skeleton mutate) s

abbrev Any : {Obj : Type 0} → Obj → Type 0
Any o = Unit {0}

-- An API server that is up and admits what it is sent.
pub record IsWilling (api : Client) : Type 0 where
  pub patch_status : (c d : Cluster) (s : api.State) → Works (api.patch_status c d) s
  pub get_config_map : (n m : String) (s : api.State) → Works (api.get_config_map n m) s
  pub list_pods : (n : String) (l : Dict String) (s : api.State) → Works (api.list_pods n l) s
  pub service : IsWillingApply (λ o. Any o) api.create_or_update_service
  pub deployment : IsWillingApply HasContainers api.create_or_update_deployment
  pub config_map : IsWillingApply (λ o. Any o) api.create_or_update_config_map
  pub service_account : IsWillingApply (λ o. Any o) api.create_or_update_service_account
  pub role : IsWillingApply (λ o. Any o) api.create_or_update_role
  pub role_binding : IsWillingApply (λ o. Any o) api.create_or_update_role_binding
  pub set_controller_reference : (m n : ObjectMeta) → IsOk (api.set_controller_reference m n)

pub attempt-Works :
    {S A B : Type 0} (m : M S A) (handle : Error → M S B) (rest : A → M S B) (s : S)
    → Works m s
    → ((a : A) (t : S) → Works (rest a) t)
    → Works (attempt m handle rest) s
attempt-Works m handle rest s (a, t, e) next = let (b, u, f) = next a t in (b, u, rw e f)

pub and_then-IsOk :
    {A B : Type 0} (r : Outcome A) (f : A → Outcome B)
    → IsOk r
    → ((a : A) → IsOk (f a))
    → IsOk (and_then r f)
and_then-IsOk r f (a, e) next = let (b, g) = next a in (b, rw e g)
