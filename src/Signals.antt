-- ===== src/Signals.antt =====
-- internal/signals: where the autoscaler's signals come from. A `float64` is an abstract type with
-- the operations that the source applies to it.
use llm_inference_operator.Base.{
  String, Option, none, some, Bool, false, if◌then◌else◌, deref, text_eq,
}
use llm_inference_operator.Base.Dict.{Dict, lookup}
use llm_inference_operator.Kube.{Error, ConfigMap}
use llm_inference_operator.Kube.Client.{Client, M, pure, raise, ◌>>=◌}

-- `float64`: the constants of the source, `<`, and `strconv.ParseFloat(v, 64)` with `none` for an error.
pub record Floats : Type 1 where
  pub Float : Type 0
  pub zero : Float
  pub ten : Float
  pub hundred : Float
  pub lt : Float → Float → Bool
  pub parse : String → Option Float

-- `m[k]` with the zero value for a missing key; a nil map has no key.
unfoldable pub text_at : Option (Dict String) → String → String
text_at none k = ""
text_at (some m) k = deref (lookup k m) ""

-- `errors.New(message)`
abbrev pub new_error : String → Error
new_error message = record { is_not_found = false; message = message }

-- The implementations of the interface `Adapter`, with their fields.
pub data Adapter : Type 0 where
  fake_config_map : String → String → Adapter
  prometheus : String → Adapter

module _ (F : Floats) where
  pub record Signals : Type 0 where
    pub queue_depth : F.Float
    pub tokens_per_second : F.Float
    pub mem_pressure : F.Float

  unfoldable pub parse_float : String → F.Float
  parse_float v = if text_eq v "" then F.zero else deref (F.parse v) F.zero

  -- The values of the signals `ConfigMap`.
  unfoldable pub signals_of : ConfigMap → Signals
  unfolding parse_float text_at
  signals_of cm = record {
    queue_depth = parse_float (text_at cm.entries "queueDepth");
    tokens_per_second = parse_float (text_at cm.entries "tokensPerSecond");
    mem_pressure = parse_float (text_at cm.entries "memPressure");
  }

  module _ (api : Client) where
    -- `Read` of the Prometheus adapter
    abbrev pub read_prometheus : String → M api.State Signals
    read_prometheus base_url = raise (new_error "prometheus adapter not implemented in v1")

    -- `Adapter.Read`
    unfoldable pub read : Adapter → M api.State Signals
    unfolding signals_of
    read (fake_config_map namespace name) = do
      cm ← api.get_config_map namespace name
      pure (signals_of cm)
    read (prometheus base_url) = read_prometheus base_url
