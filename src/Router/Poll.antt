-- ===== src/Router/Poll.antt =====
-- `pollShardMap` (cmd/router/main.go): the loop that refreshes the router's shard map.
pub mod Trace
use llm_inference_operator.Base.{
  [], ℕ, zero, suc, ◌+◌, String, Option, none, some, get_or, deref, if◌then◌else◌,
}
use llm_inference_operator.Base.Int.{ℤ, pos, ltb_ℤ}
use llm_inference_operator.Base.Dict.{Dict, lookup}
use llm_inference_operator.Kube.{Error, Outcome, ok, err, panic, ConfigMap}
use llm_inference_operator.Kube.Client.{Client, M, pure, attempt, ◌>>=◌}
use llm_inference_operator.Signals.{text_at}
use llm_inference_operator.Json.{Codec}
use llm_inference_operator.ShardMap.{ShardMap, parse_shard_map_json}

-- `currentShardMap`, nil before the first success, and the counter `shardMapErrors`.
pub record Polled : Type 0 where
  pub target : Option ShardMap
  pub errors : ℕ

abbrev pub count_error : Polled → Polled
count_error p = record p { errors = p.errors + 1 }

abbrev pub store : ShardMap → Polled → Polled
store m p = record p { target = some m }

-- `[]byte(cm.Data["shardmap.json"])`: a nil map and a missing key read as empty.
unfoldable pub raw_map : ConfigMap → String
unfolding text_at
raw_map cm = text_at cm.entries "shardmap.json"

module _ (api : Client) (codec : Codec) (namespace name : String) where
  -- The text is parsed, and the result stored or the error counted.
  unfoldable pub take_map : Polled → ConfigMap → M api.State Polled
  unfolding raw_map parse_shard_map_json
  take_map p cm =
      attempt (λ s. (parse_shard_map_json codec (raw_map cm), s)) (λ e. pure (count_error p))
        (λ m. pure (store m p))

  -- One tick of the ticker.
  unfoldable pub poll_tick : Polled → M api.State Polled
  unfolding take_map
  poll_tick p = attempt (api.get_config_map namespace name) (λ e. pure (count_error p)) (take_map p)

  -- The loop, by the ticks before the context is done.
  unfoldable pub poll_loop : ℕ → Polled → M api.State Polled
  unfolding poll_tick
  poll_loop zero p = pure p
  poll_loop (suc k) p = poll_tick p >>= poll_loop k

  -- `time.NewTicker` panics for an interval that is not positive.
  unfoldable pub poll_shard_map : ℤ → ℕ → Polled → M api.State Polled
  unfolding poll_loop
  poll_shard_map interval k p = if ltb_ℤ (pos 0) interval then poll_loop k p else (λ s. (panic, s))
