-- ===== src/Tests/Requests.antt =====
-- The theorems on the router at concrete inputs.
use llm_inference_operator.Base.{
  String, ℕ, ◌+◌, ◌%◌, [], ◌∷◌, none, some, ◌≡◌, refl, arith, bytes, Mem, ◌⊎◌,
}
use mathlib.Core.Path.{subst}
use llm_inference_operator.Base.Int.{pos, ◌≤ℤ◌, itoa}
use llm_inference_operator.Base.Dict.{Dict}
use llm_inference_operator.Hash.{sum32}
use llm_inference_operator.Kube.{Outcome, ok}
use llm_inference_operator.Json.{Codec}
use llm_inference_operator.ShardMap.{ShardAssignment, parse_shard_map_json}
use llm_inference_operator.ShardMap.Doc.{json_of_doc}
use llm_inference_operator.ShardMap.RoundTrip.{map_of_doc, parse_shard_map_json-json_of_doc}
use llm_inference_operator.Controller.Shards.{build_shards}
use llm_inference_operator.Router.Pick.{pick_shard_for_conversation}
use llm_inference_operator.Router.Pick.Affinity.{pick_shard_bounds}
use llm_inference_operator.Router.Pick.Published.{published_pick}
use llm_inference_operator.Router.Poll.{Polled, poll_shard_map}
use llm_inference_operator.Router.Poll.Trace.{latest, failures, fetches, poll_shard_map_trace}
use llm_inference_operator.Router.Handler.{
  conversation_id, Http, Metrics, Incoming, Request, Response, handle, upstream_request, get_header,
}
use llm_inference_operator.Router.Handler.Counts.{handle_latency}
use llm_inference_operator.Router.Handler.Replies.{IsCalmHttp, Counted, handle_route_total}
use llm_inference_operator.Router.Handler.Headers.{upstream_request_headers}
use llm_inference_operator.Worker.{worker_response}
use llm_inference_operator.Worker.Echo.{worker_response-upstream_request}
use llm_inference_operator.Tests.Demo.{demo, pods, client_of, doc}
use llm_inference_operator.Tests.Codecs.{
  apart, codec_of, codec_of-IsCodec, codec_of-print, parse-ne_panic,
}

abbrev codec : Codec
codec = codec_of (json_of_doc doc)

parse_shard_map_json-json_of_doc_example :
    parse_shard_map_json codec "the document" ≡ ok (map_of_doc doc)
parse_shard_map_json-json_of_doc_example =
    parse_shard_map_json-json_of_doc codec (codec_of-IsCodec (json_of_doc doc)) doc "the document"
      (omega arith) (omega arith) ((omega arith, omega arith), ((omega arith, omega arith), tt))
      (codec_of-print (json_of_doc doc))

published_pick_example :
    (r : _) × (build_shards pods (pos 3) 1000 ≡ ok r)
    × (pick_shard_for_conversation (map_of_doc r.1) "chat-42" ≡ pos (sum32 (bytes "chat-42") % 3))
published_pick_example = published_pick pods 3 1000 "chat-42" (omega arith) (omega arith)

pick_shard_bounds_example :
    (pos 0 ≤ℤ pick_shard_for_conversation (map_of_doc doc) "chat-42")
    × ((pick_shard_for_conversation (map_of_doc doc) "chat-42" ≡ pos 0)
        ⊎ ((s : ShardAssignment) × Mem s (map_of_doc doc).shards
            × (pick_shard_for_conversation (map_of_doc doc) "chat-42" ≤ℤ s.shard_id)))
pick_shard_bounds_example =
    pick_shard_bounds (map_of_doc doc) "chat-42" (omega arith, (omega arith, tt))

abbrev started : Polled
started = record { target = none; errors = 2 }

poll_shard_map_trace_example :
    (poll_shard_map (client_of demo) codec "default" "demo-shardmap" (pos 2000000000) 3 started 0).0
    ≡ ok (record {
      target = latest none (fetches (client_of demo) codec "default" "demo-shardmap" 3 0);
      errors = 2 + failures (fetches (client_of demo) codec "default" "demo-shardmap" 3 0);
    })
poll_shard_map_trace_example =
    poll_shard_map_trace (client_of demo) codec "default" "demo-shardmap" (λ s q. cc)
      (parse-ne_panic (json_of_doc doc)) (pos 2000000000) 3 started 0 (omega arith)

-- An upstream that answers 200, with the clock standing still.
abbrev pub http : Http
http = record {
  State = ℕ;
  canonical = λ name. name;
  random_bytes = λ s. (1 ∷ 171 ∷ [], s);
  now = λ s. (s, s);
  since = λ start s. (0, s);
  new_request = λ url body. ok (record { url = url; headers = []; body = body });
  send = λ req s. (ok (record { status_code = pos 200; headers = []; body = "hello" }), s + 1);
}

http-IsCalmHttp : IsCalmHttp http
http-IsCalmHttp = record {
  new_request = λ url body q. cc;
  send = λ req s q. cc;
  three_digits = λ req s resp got. digits resp got;
}
  where
    digits :
        (resp : Response)
        → ◌≡◌ {A = Outcome Response}
            (ok (record { status_code = pos 200; headers = []; body = "hello" }))
            (ok resp)
        → (pos 100 ≤ℤ resp.status_code) × (resp.status_code ≤ℤ pos 999)
    digits resp got =
        let same : pos 200 ≡ resp.status_code = cc in
        subst (λ n. (pos 100 ≤ℤ n) × (n ≤ℤ pos 999)) same (omega arith, omega arith)

abbrev pub incoming : Incoming
incoming = record { headers = ("Content-Type", "application/json") ∷ []; body = ok "{}" }

abbrev pub metrics : Metrics
metrics = record { latency = []; route_total = []; chosen_shard = [] }

handle_route_total_example :
    Counted http "demo-decode:8000" incoming []
      (handle http "demo-decode:8000" codec (some (map_of_doc doc)) incoming (0, metrics))
handle_route_total_example =
    handle_route_total http http-IsCalmHttp "demo-decode:8000" incoming codec
      (some (map_of_doc doc)) 0 metrics (parse-ne_panic (json_of_doc doc)) (λ q. cc)

handle_latency_example :
    (elapsed : ℕ) × ((handle http "demo-decode:8000" codec
        (some (map_of_doc doc))
        incoming
        (0, metrics)).1.1.latency
      ≡ elapsed ∷ [])
handle_latency_example =
    handle_latency http "demo-decode:8000" codec (some (map_of_doc doc)) incoming 0 metrics

abbrev built : Request
built = record { url = "http://demo-decode:8000/v1/chat/completions"; headers = []; body = "{}" }

upstream_request_headers_example :
    get_header http (upstream_request http incoming "chat-42" (pos 2) built).headers "X-KV-Shard"
    ≡ itoa (pos 2)
upstream_request_headers_example =
    (upstream_request_headers http incoming "chat-42" (pos 2) built (apart _ _ refl)
      (apart _ _ refl) (apart _ _ refl)).1

abbrev sent : Dict String
sent = (upstream_request http incoming "chat-42" (pos 2) built).headers

worker_response-upstream_request_example :
    ((worker_response http "decode" sent "decode-a").conversation_id ≡ "chat-42")
    × ((worker_response http "decode" sent "decode-a").kv_shard ≡ itoa (pos 2))
worker_response-upstream_request_example =
    worker_response-upstream_request http incoming "chat-42" (pos 2) built "decode" "decode-a"
      (apart _ _ refl) (apart _ _ refl) (apart _ _ refl) (apart _ _ refl) (omega arith)
