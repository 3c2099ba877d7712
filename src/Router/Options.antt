-- ===== src/Router/Options.antt =====
-- The options of the router (cmd/router/main.go: `options` and the first part of `main`), and
-- `kubeConfig`.
pub mod Deployed
use llm_inference_operator.Base.{
  String, List, [], ◌∷◌, Option, none, some, if◌then◌else◌, text_eq, or_text, false,
}
use llm_inference_operator.Base.Int.{ℤ, pos}
use llm_inference_operator.Kube.{Outcome, ok, err, panic}
use llm_inference_operator.Flags.{Flag, Exit, go_on, exit, string_var, parse_flags, then_run}

-- `options`; a `time.Duration` is its number of nanoseconds.
pub record Options : Type 0 where
  pub listen_addr : String
  pub metrics_addr : String
  pub shard_map_config_map : String
  pub hash_key : String
  pub namespace : String
  pub decode_service_dns : String
  pub kubeconfig : String
  pub poll_interval : ℤ

-- The defaults of the flags, two of them read from the environment by `os.Getenv`.
abbrev pub default_options : (String → String) → Options
default_options getenv = record {
  listen_addr = ":8080";
  metrics_addr = ":9090";
  shard_map_config_map = "";
  hash_key = "conversationId";
  namespace = getenv "NAMESPACE";
  decode_service_dns = getenv "DECODE_SERVICE_DNS";
  kubeconfig = "";
  poll_interval = pos 2000000000;
}

-- `flag.DurationVar`, over `time.ParseDuration`.
abbrev set_interval : Option ℤ → Options → Option Options
set_interval none o = none
set_interval (some d) o = some (record o { poll_interval = d })

abbrev pub option_flags : (String → Option ℤ) → List (Flag Options)
option_flags parse_duration =
    string_var "listen" (λ v o. record o { listen_addr = v })
    ∷ string_var "metrics-listen" (λ v o. record o { metrics_addr = v })
    ∷ string_var "shardmap-configmap" (λ v o. record o { shard_map_config_map = v })
    ∷ string_var "hash-key" (λ v o. record o { hash_key = v })
    ∷ string_var "namespace" (λ v o. record o { namespace = v })
    ∷ string_var "decode-service-dns" (λ v o. record o { decode_service_dns = v })
    ∷ string_var "kubeconfig" (λ v o. record o { kubeconfig = v })
    ∷ record {
      name = "poll-interval";
      is_bool = false;
      set = λ v o. set_interval (parse_duration v) o;
    }
    ∷ []

-- What follows `flag.Parse()`: the router needs a shard map, and the rest has defaults.
abbrev pub check_options : Options → Exit Options
check_options o =
    if text_eq o.shard_map_config_map ""
    then exit 2
    else go_on (record o {
      namespace = or_text o.namespace "default";
      decode_service_dns = or_text o.decode_service_dns "localhost:8000";
    })

-- From the arguments and the environment to the options, or to the exit code.
unfoldable pub read_options : (String → Option ℤ) → (String → String) → List String → Exit Options
unfolding parse_flags
read_options parse_duration getenv args =
    then_run (parse_flags (option_flags parse_duration) args (default_options getenv)) check_options

-- `if err != nil { fmt.Fprintln(os.Stderr, err.Error()); os.Exit(1) }`; a panic ends a Go program with 2.
abbrev pub or_exit : {A : Type 0} → Outcome A → Exit A
or_exit (ok a) = go_on a
or_exit (err e) = exit 1
or_exit panic = exit 2

-- The clients of Kubernetes: `build` is `clientcmd.BuildConfigFromFlags`, `in_cluster` is
-- `rest.InClusterConfig` and `new` is `client.New` with no options.
module _ {Config Connection : Type 0} (build : String → String → Outcome Config)
    (in_cluster : Outcome Config) (new : Config → Outcome Connection) where
  -- `kubeConfig`
  unfoldable pub kube_config : String → Outcome Config
  kube_config kubeconfig = if text_eq kubeconfig "" then in_cluster else build "" kubeconfig

  -- From the options to the client that the polling loop reads with.
  unfoldable pub connect : Options → Exit (Options × Connection)
  unfolding kube_config
  connect o =
      then_run (or_exit (kube_config o.kubeconfig))
        λ config. then_run (or_exit (new config)) λ connection. go_on (o, connection)

  -- `main` up to the start of the polling loop and the servers.
  unfoldable pub start_router :
      (String → Option ℤ) → (String → String) → List String → Exit (Options × Connection)
  unfolding read_options connect
  start_router parse_duration getenv args =
      then_run (read_options parse_duration getenv args) connect
