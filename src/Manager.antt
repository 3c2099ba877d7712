-- ===== src/Manager.antt =====
-- cmd/main.go: the operator's process, from its flags to the start of the manager.
pub mod Secure
use llm_inference_operator.Base.{
  ℕ, String, Bool, true, false, List, [], ◌∷◌, ◌++◌, map, Option, none, some, text_eq,
  if◌then◌else◌,
}
use llm_inference_operator.Kube.{Error, Outcome, ok, err, panic}
use llm_inference_operator.Kube.Client.{M, pure, attempt}
use llm_inference_operator.Flags.{
  Flag, Exit, go_on, exit, string_var, bool_var, own_flag, library_flag, parse_flags,
}

-- The variables of `main` that flags write.
pub record ManagerFlags : Type 0 where
  pub metrics_addr : String
  pub metrics_cert_path : String
  pub metrics_cert_name : String
  pub metrics_cert_key : String
  pub webhook_cert_path : String
  pub webhook_cert_name : String
  pub webhook_cert_key : String
  pub enable_leader_election : Bool
  pub probe_addr : String
  pub secure_metrics : Bool
  pub enable_http2 : Bool

abbrev pub default_flags : ManagerFlags
default_flags = record {
  metrics_addr = "0";
  metrics_cert_path = "";
  metrics_cert_name = "tls.crt";
  metrics_cert_key = "tls.key";
  webhook_cert_path = "";
  webhook_cert_name = "tls.crt";
  webhook_cert_key = "tls.key";
  enable_leader_election = false;
  probe_addr = ":8081";
  secure_metrics = true;
  enable_http2 = false;
}

abbrev pub manager_flags : List (Flag ManagerFlags)
unfolding bool_var
manager_flags =
    string_var "metrics-bind-address" (λ v f. record f { metrics_addr = v })
    ∷ string_var "health-probe-bind-address" (λ v f. record f { probe_addr = v })
    ∷ bool_var "leader-elect" (λ b f. record f { enable_leader_election = b })
    ∷ bool_var "metrics-secure" (λ b f. record f { secure_metrics = b })
    ∷ string_var "webhook-cert-path" (λ v f. record f { webhook_cert_path = v })
    ∷ string_var "webhook-cert-name" (λ v f. record f { webhook_cert_name = v })
    ∷ string_var "webhook-cert-key" (λ v f. record f { webhook_cert_key = v })
    ∷ string_var "metrics-cert-path" (λ v f. record f { metrics_cert_path = v })
    ∷ string_var "metrics-cert-name" (λ v f. record f { metrics_cert_name = v })
    ∷ string_var "metrics-cert-key" (λ v f. record f { metrics_cert_key = v })
    ∷ bool_var "enable-http2" (λ b f. record f { enable_http2 = b })
    ∷ []

-- The field of `tls.Config` that the options write.
pub record TlsConfig : Type 0 where
  pub next_protos : List String

abbrev pub disable_http2 : TlsConfig → TlsConfig
disable_http2 c = record c { next_protos = "http/1.1" ∷ [] }

pub record CertOptions : Type 0 where
  pub cert_dir : String
  pub cert_name : String
  pub key_name : String

-- `webhook.Options`
pub record WebhookOptions : Type 0 where
  pub tls_opts : List (TlsConfig → TlsConfig)
  pub cert : CertOptions

-- `metricsserver.Options`; the filter is nil or a provider.
pub record MetricsOptions (Filter : Type 0) : Type 0 where
  pub bind_address : String
  pub secure_serving : Bool
  pub tls_opts : List (TlsConfig → TlsConfig)
  pub filter_provider : Option Filter
  pub cert : CertOptions

-- `ctrl.Options`
pub record ManagerOptions (Filter : Type 0) : Type 0 where
  pub metrics : MetricsOptions Filter
  pub webhook_server : WebhookOptions
  pub health_probe_bind_address : String
  pub leader_election : Bool
  pub leader_election_id : String

abbrev pub tls_options : Bool → List (TlsConfig → TlsConfig)
tls_options enable_http2 = if enable_http2 then [] else disable_http2 ∷ []

-- The certificate of a server, where a path is given.
abbrev pub cert_options : String → String → String → CertOptions
cert_options path name key =
    if text_eq path ""
    then record { cert_dir = ""; cert_name = ""; key_name = "" }
    else record { cert_dir = path; cert_name = name; key_name = key }

module _ {Filter : Type 0} (with_authentication : Filter) where
  unfoldable pub manager_options : ManagerFlags → ManagerOptions Filter
  manager_options f = record {
    metrics = record {
      bind_address = f.metrics_addr;
      secure_serving = f.secure_metrics;
      tls_opts = tls_options f.enable_http2;
      filter_provider = if f.secure_metrics then some with_authentication else none;
      cert = cert_options f.metrics_cert_path f.metrics_cert_name f.metrics_cert_key;
    };
    webhook_server = record {
      tls_opts = tls_options f.enable_http2;
      cert = cert_options f.webhook_cert_path f.webhook_cert_name f.webhook_cert_key;
    };
    health_probe_bind_address = f.probe_addr;
    leader_election = f.enable_leader_election;
    leader_election_id = "dd64864b.llm.io";
  }

-- The flags of `main`, and those that libraries register on the same command line.
abbrev pub all_flags : {L : Type 0} → List (Flag L) → List (Flag (ManagerFlags × L))
all_flags library_flags = map own_flag manager_flags ++ map library_flag library_flags

-- What `main` calls: controller-runtime, and `SetupWithManager`, each a step that may fail.
pub record ManagerRuntime (Filter Library : Type 0) : Type 1 where
  pub State : Type 0
  pub Config : Type 0
  pub Instance : Type 0
  pub with_authentication : Filter
  pub library_flags : List (Flag Library)
  pub library_defaults : Library
  pub get_config : M State Config
  pub new_manager : Config → ManagerOptions Filter → M State Instance
  pub setup_with_manager : Instance → M State (Unit {0})
  pub add_healthz_check : Instance → M State (Unit {0})
  pub add_readyz_check : Instance → M State (Unit {0})
  pub start : Instance → M State (Unit {0})

module _ {Filter Library : Type 0} (R : ManagerRuntime Filter Library) where
  -- `if err != nil { setupLog.Error(err, ...); os.Exit(1) }`
  abbrev pub or_exit_1 : {A : Type 0} → M R.State A → (A → M R.State ℕ) → M R.State ℕ
  or_exit_1 m rest = attempt m (λ e. pure 1) rest

  -- From the flags to the end of `main`, with the exit code.
  unfoldable pub run_manager : ManagerFlags → M R.State ℕ
  unfolding manager_options
  run_manager f = or_exit_1 R.get_config λ config.
      or_exit_1 (R.new_manager config (manager_options R.with_authentication f)) λ manager.
        or_exit_1 (R.setup_with_manager manager) λ _.
          or_exit_1 (R.add_healthz_check manager)
            λ _. or_exit_1 (R.add_readyz_check manager) λ _. or_exit_1 (R.start manager) λ _. pure 0

  abbrev run_parsed : Exit (ManagerFlags × Library) → M R.State ℕ
  run_parsed (go_on (f, library)) = run_manager f
  run_parsed (exit code) = pure code

  -- `main`
  unfoldable pub manager_main : List String → M R.State ℕ
  unfolding run_manager parse_flags
  manager_main args =
      run_parsed (parse_flags (all_flags R.library_flags) args (default_flags, R.library_defaults))
