-- ===== src/Controller/Workloads/Traffic.antt =====
-- The service and the deployment of a role fit together, and what a worker is started with.
use llm_inference_operator.Base.{
  String, List, [], ◌∷◌, ◌++◌, map, Perm, Option, none, some, ◌≡◌, refl, sym, ap, ◌∙◌, not, deref,
  ◌⊎◌,
}
use llm_inference_operator.Base.Int.{ℤ, pos, itoa}
use llm_inference_operator.Base.Dict.{Dict}
use llm_inference_operator.Base.Sort.{IsSorted}
use llm_inference_operator.Kube.{Outcome, ok, err, panic, EnvVar, Container, Deployment}
use llm_inference_operator.Kube.Client.{and_then}
use llm_inference_operator.Platform.{Platform, IsSortSlice, name_less}
use llm_inference_operator.Cluster.{Cluster}
use llm_inference_operator.Controller.Labels.{role_decode, role_prefill, role_labels}
use llm_inference_operator.Controller.Children.Maps.{own-eq_ok}
use llm_inference_operator.Controller.Workloads.{
  update_first, build_env_vars, env_var, worker_container, role_replicas, mutate_role_deployment,
}

pub and_then-eq_ok :
    {A B : Type 0} (r : Outcome A) (f : A → Outcome B) {b : B}
    → and_then r f ≡ ok b
    → (a : A) × (r ≡ ok a) × (f a ≡ ok b)
and_then-eq_ok (ok a) f h = (a, refl, h)
and_then-eq_ok (err e) f h = cc
and_then-eq_ok panic f h = cc

first-eq_of_cons :
    {A : Type 0} {x y : A} {xs ys : List A}
    → ◌≡◌ {A = Option (List A)} (some (x ∷ xs)) (some (y ∷ ys))
    → x ≡ y
first-eq_of_cons h = cc

-- The first container is the update of some container.
pub update_first-head :
    (name : String) (f : Container → Container) (cs : Option (List Container))
    {out : List Container}
    → update_first name f cs ≡ ok out
    → (x : Container) × (rest : List Container) × (out ≡ f x ∷ rest)
unfolding update_first
update_first-head name f none {out} h = (blank, [], out_eq h)
  where
    blank : Container
    blank = record {
      name = name;
      image = "";
      image_pull_policy = "";
      args = [];
      env = [];
      ports = [];
    }

    out_eq : ◌≡◌ {A = Outcome (List Container)} (ok (f blank ∷ [])) (ok out) → out ≡ f blank ∷ []
    out_eq e = cc
update_first-head name f (some []) h = cc
update_first-head name f (some (x ∷ xs)) h = (x, xs, cc)

module _ (P : Platform) (c : Cluster) where
  -- What a deployment looks like after its mutate function, whatever it was before.
  pub record IsWorker (role service_name : String) (base : Dict String) (override : Option ℤ)
      (d : Deployment) : Type 0 where
    pub container : Container
    pub others : List Container
    pub containers : d.containers ≡ some (worker_container P c role service_name container ∷ others)
    pub selector : d.selector ≡ some (role_labels base role)
    pub template : d.template_labels ≡ role_labels base role
    pub replicas : d.replicas ≡ some (role_replicas c role override)

  pub mutate_role_deployment-IsWorker :
      (role service_name : String) (base : Dict String) (override : Option ℤ) (d : Deployment)
      {d' : Deployment}
      → mutate_role_deployment P c role service_name base override d ≡ ok d'
      → IsWorker role service_name base override d'
  unfolding mutate_role_deployment
  mutate_role_deployment-IsWorker role service_name base override d {d'} h =
      let step =
        and_then-eq_ok (update_first "worker" (worker_container P c role service_name) d.containers)
          _ h in
      let built = own-eq_ok P.client c _ _ step.2 in
      let first =
        update_first-head "worker" (worker_container P c role service_name) d.containers step.1 in
      record {
        container = first.0;
        others = first.1;
        containers = ap (λ (x : Deployment). x.containers) built.1 ∙ ap some first.2;
        selector = ap (λ (x : Deployment). x.selector) built.1;
        template = ap (λ (x : Deployment). x.template_labels) built.1;
        replicas = ap (λ (x : Deployment). x.replicas) built.1;
      }

  -- The port pointer that the reconcile reads for the service of a role.
  abbrev pub RolePort : String → ℤ → Type 0
  RolePort role port =
      ((role ≡ role_decode) × (c.spec.runtime.decode.service_port ≡ some port))
      ⊎ ((role ≡ role_prefill) × (c.spec.runtime.prefill.service_port ≡ some port))

  -- With the documented `sort.Slice`, a worker's environment is the user's entries, rearranged by
  -- name, and then the role, the service and the number of shards.
  pub worker_env :
      IsSortSlice P.sort_slice
      → (role service_name : String) (override : Option ℤ) (base : Dict String) (d : Deployment)
        {d' : Deployment}
      → mutate_role_deployment P c role service_name base override d ≡ ok d'
      → (x : Container) (xs : List Container) → d'.containers ≡ some (x ∷ xs)
      → (user : List EnvVar) × (x.env
          ≡ user
            ++ (env_var "INFERENCE_ROLE" role
                ∷ env_var "SERVICE_NAME" service_name
                ∷ env_var "KV_SHARDS" (itoa (deref c.spec.kv_cache.num_shards (pos 8)))
                ∷ []))
        × Perm user (map (λ e. env_var e.name e.value) c.spec.model.env)
        × IsSorted (λ a b. not (name_less b a)) user
  unfolding worker_container
  worker_env sorts role service_name override base d hd x xs e =
      let w = mutate_role_deployment-IsWorker role service_name base override d hd in
      let env = map (λ e. env_var e.name e.value) c.spec.model.env in
      (
        build_env_vars P c.spec.model.env,
        ap (λ (y : Container). y.env) (sym (first-eq_of_cons (sym w.containers ∙ e))),
        sorts.perm env,
        sorts.sorted env,
      )
