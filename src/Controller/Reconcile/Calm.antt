-- ===== src/Controller/Reconcile/Calm.antt =====
-- What it takes for a step not to panic.
use llm_inference_operator.Base.{String, [], some, ◌≡◌, ◌≢◌, refl, ap}
use llm_inference_operator.Base.Dict.{Dict}
use llm_inference_operator.Kube.{Error, Outcome, ok, err, panic, ObjectMeta, Deployment}
use llm_inference_operator.Kube.Client.{
  Client, M, CreateOrUpdate, attempt, resume, pure, raise, and_then, ◌>>=◌,
}
use llm_inference_operator.Cluster.{Cluster}

-- The run of a step from a state does not panic.
abbrev pub IsCalm : {S A : Type 0} → M S A → S → Type 0
IsCalm m s = (m s).0 ≢ panic

-- A `CreateOrUpdate` that panics only where its mutate function does, on some object that the
-- server may hold.
abbrev pub IsCalmApply : {S Obj : Type 0} → (Obj → Type 0) → CreateOrUpdate S Obj → Type 0
IsCalmApply {S} {Obj} Held apply =
    (skeleton : Obj) (mutate : Obj → Outcome Obj) (s : S)
    → ((o : Obj) → Held o → mutate o ≢ panic)
    → IsCalm (apply skeleton mutate) s

abbrev Any : {Obj : Type 0} → Obj → Type 0
Any o = Unit {0}

-- The API server admits no pod template without a container.
abbrev pub HasContainers : Deployment → Type 0
HasContainers d = d.containers ≢ some []

-- The calls return and do not panic, and a patch or an update returns the object with the spec that
-- was sent, which holds as long as no one else writes the spec in between.
pub record IsCalmClient (api : Client) : Type 0 where
  pub get_cluster : (n m : String) (s : api.State) → IsCalm (api.get_cluster n m) s
  pub patch_cluster : (c d : Cluster) (s : api.State) → IsCalm (api.patch_cluster c d) s
  pub update_cluster : (c : Cluster) (s : api.State) → IsCalm (api.update_cluster c) s
  pub patch_status : (c d : Cluster) (s : api.State) → IsCalm (api.patch_status c d) s
  pub update_status : (c : Cluster) (s : api.State) → IsCalm (api.update_status c) s
  pub get_config_map : (n m : String) (s : api.State) → IsCalm (api.get_config_map n m) s
  pub list_pods : (n : String) (l : Dict String) (s : api.State) → IsCalm (api.list_pods n l) s
  pub service : IsCalmApply (λ o. Any o) api.create_or_update_service
  pub deployment : IsCalmApply HasContainers api.create_or_update_deployment
  pub config_map : IsCalmApply (λ o. Any o) api.create_or_update_config_map
  pub service_account : IsCalmApply (λ o. Any o) api.create_or_update_service_account
  pub role : IsCalmApply (λ o. Any o) api.create_or_update_role
  pub role_binding : IsCalmApply (λ o. Any o) api.create_or_update_role_binding
  pub set_controller_reference : (m n : ObjectMeta) → api.set_controller_reference m n ≢ panic
  pub patched_spec :
      (c d e : Cluster) (s t : api.State) → api.patch_cluster c d s ≡ (ok e, t) → e.spec ≡ c.spec
  pub updated_spec :
      (c e : Cluster) (s t : api.State) → api.update_cluster c s ≡ (ok e, t) → e.spec ≡ c.spec

-- A chain of steps is calm where each step is, from the state that it starts in.
pub attempt-IsCalm :
    {S A B : Type 0} (m : M S A) (handle : Error → M S B) (rest : A → M S B) (s : S)
    → IsCalm m s
    → ((e : Error) (t : S) → IsCalm (handle e) t)
    → ((a : A) (t : S) → m s ≡ (ok a, t) → IsCalm (rest a) t)
    → IsCalm (attempt m handle rest) s
attempt-IsCalm {S} {A} m handle rest s calm on_error next = go (m s) refl
  where
    go : (r : Outcome A × S) → m s ≡ r → (resume handle rest r).0 ≢ panic
    go (ok a, t) e = next a t e
    go (err x, t) e = on_error x t
    go (panic, t) e = absurd (calm (ap (λ (q : Outcome A × S). q.0) e))

pub bind-IsCalm :
    {S A B : Type 0} (m : M S A) (f : A → M S B) (s : S)
    → IsCalm m s
    → ((a : A) (t : S) → IsCalm (f a) t)
    → IsCalm (m >>= f) s
bind-IsCalm m f s calm next = attempt-IsCalm m raise f s calm (λ e t. λ q. cc) (λ a t e. next a t)

pub pure-IsCalm : {S A : Type 0} (a : A) (s : S) → IsCalm {S = S} (pure a) s
pure-IsCalm a s e = cc

pub and_then-ne_panic :
    {A B : Type 0} (r : Outcome A) (f : A → Outcome B)
    → r ≢ panic
    → ((a : A) → f a ≢ panic)
    → and_then r f ≢ panic
and_then-ne_panic (ok a) f h k = k a
and_then-ne_panic (err e) f h k = λ q. cc
and_then-ne_panic panic f h k = absurd (h refl)
