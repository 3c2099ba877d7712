-- ===== src/Tests/Running.antt =====
-- The running router at concrete inputs: a tick that reads what the operator wrote, then a request.
use mathlib.Core.Path.{subst}
use llm_inference_operator.Base.{
  ◌≡◌, refl, arith, ℕ, String, List, [], ◌∷◌, some, none, deref, All, ◌<◌,
}
use llm_inference_operator.Base.Int.{pos, itoa}
use llm_inference_operator.Base.Dict.{lookup}
use llm_inference_operator.Kube.{Outcome, ok, ConfigMap}
use llm_inference_operator.Kube.Client.{Client}
use llm_inference_operator.Json.{Codec}
use llm_inference_operator.Cluster.{ShardStatus}
use llm_inference_operator.Ring.{new_ring}
use llm_inference_operator.Signals.{text_at}
use llm_inference_operator.ShardMap.{parse_shard_map_json}
use llm_inference_operator.ShardMap.Doc.{ShardMapDoc, json_of_doc}
use llm_inference_operator.ShardMap.RoundTrip.{map_of_doc, parse_shard_map_json-json_of_doc}
use llm_inference_operator.Controller.Shards.{owner_names, shard_rounds}
use llm_inference_operator.Controller.Shards.Owners.{build_shards_lem}
use llm_inference_operator.Router.Poll.{Polled, raw_map, take_map, poll_tick}
use llm_inference_operator.Router.Handler.{Reply, World, handle}
use llm_inference_operator.Router.Running.{Running, ticked, served, Run, started, later}
use llm_inference_operator.Router.Running.Shards.{IsPublished, rounds-IsInt32, run-AllWithin}
use llm_inference_operator.Tests.Demo.{demo, pods, metadata, client_of}
use llm_inference_operator.Tests.Codecs.{codec_of, codec_of-IsCodec, codec_of-print}
use llm_inference_operator.Tests.Requests.{http, incoming, metrics}

abbrev built : List ShardStatus × ShardMapDoc
built =
    let rounds = shard_rounds (new_ring (owner_names pods)) 1000 3 (pos 0) in
    (rounds.0, record { version = pos 1; shards = rounds.1 })

abbrev codec : Codec
codec = codec_of (json_of_doc built.1)

abbrev config_map : ConfigMap
config_map = record {
  metadata = metadata "demo-shardmap";
  entries = some (("shardmap.json", "the document") ∷ []);
}

-- The shard map is there from the start.
abbrev api : Client
api = record (client_of demo) { get_config_map = λ namespace name s. (ok config_map, s) }

read_raw : raw_map config_map ≡ "the document"
unfolding raw_map text_at lookup deref
read_raw = refl

written : IsPublished api codec 3 config_map
written = record {
  pods = pods;
  time = 1000;
  built = built;
  built_lem = build_shards_lem pods 3 1000;
  text = "the document";
  text_lem = codec_of-print (json_of_doc built.1);
  written = read_raw;
}

published :
    (cm : ConfigMap) (s : ℕ)
    → (api.get_config_map "default" "demo-shardmap" s).0 ≡ ok cm
    → IsPublished api codec 3 cm
published cm s e = let same : config_map ≡ cm = cc in subst (IsPublished api codec 3) same written

parsed : parse_shard_map_json codec "the document" ≡ ok (map_of_doc built.1)
parsed =
    parse_shard_map_json-json_of_doc codec (codec_of-IsCodec (json_of_doc built.1)) built.1
      "the document" (omega arith) (omega arith)
      (rounds-IsInt32 (new_ring (owner_names pods)) 1000 3 0 (omega arith))
      (codec_of-print (json_of_doc built.1))

abbrev before : Polled
before = record { target = none; errors = 0 }

abbrev after : Polled
after = record { target = some (map_of_doc built.1); errors = 0 }

tick : poll_tick api codec "default" "demo-shardmap" before 0 ≡ (ok after, 0)
unfolding poll_tick take_map
tick = rw (read_raw, parsed) refl

abbrev Process : Type 0
Process = Running api codec http "default" "demo-shardmap" "demo-decode:8000"

abbrev first : Process
first = record { polled = before; api_state = 0; http_state = 0; metrics = metrics }

abbrev second : Process
second = record first { polled = after }

abbrev handled : Outcome Reply × World http
handled = handle http "demo-decode:8000" codec after.target incoming (0, metrics)

abbrev third : Process
third = record second { http_state = handled.1.0; metrics = handled.1.1 }

run : Run api codec http "default" "demo-shardmap" "demo-decode:8000" first third
run =
    later first second third (later first first second (started first) (ticked first after 0 tick))
      (served second incoming handled.0 handled.1.0 handled.1.1 refl)

run-AllWithin_example :
    All (λ (label : String). (k : ℕ) × (k < 3) × (label ≡ itoa (pos k))) third.metrics.chosen_shard
run-AllWithin_example =
    run-AllWithin api codec 3 (codec_of-IsCodec (json_of_doc built.1)) (omega arith) (omega arith)
      http "default" "demo-shardmap" "demo-decode:8000" published first third refl refl run
