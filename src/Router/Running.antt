-- ===== src/Router/Running.antt =====
-- The router while it runs: the polling loop and the handlers of requests, interleaved
-- (cmd/router/main.go). The pointer to the shard map is atomic, and a handler loads it once, so that
-- a request stands between the two ticks around its load.
pub mod Shards
use llm_inference_operator.Base.{String, ◌≡◌}
use llm_inference_operator.Kube.{Outcome, ok}
use llm_inference_operator.Kube.Client.{Client}
use llm_inference_operator.Json.{Codec}
use llm_inference_operator.Router.Poll.{Polled, poll_tick}
use llm_inference_operator.Router.Handler.{Http, Metrics, Incoming, Reply, handle}

module _ (api : Client) (codec : Codec) (http : Http)
    (namespace name decode_service_dns : String) where
  -- What the goroutines share, and the worlds that each of them calls.
  pub record Running : Type 0 where
    pub polled : Polled
    pub api_state : api.State
    pub http_state : http.State
    pub metrics : Metrics

  -- A tick of the loop that does not panic, or a request, whose panic `net/http` recovers from.
  pub data Step : Running → Running → Type 0 where
    ticked :
        (r : Running) (p : Polled) (t : api.State)
        → poll_tick api codec namespace name r.polled r.api_state ≡ (ok p, t)
        → Step r (record r { polled = p; api_state = t })
    served :
        (r : Running) (incoming : Incoming) (reply : Outcome Reply) (s : http.State)
        (counted : Metrics)
        → handle http decode_service_dns codec r.polled.target incoming (r.http_state, r.metrics)
          ≡ (reply, (s, counted))
        → Step r (record r { http_state = s; metrics = counted })

  -- Any number of steps in any order.
  pub data Run : Running → Running → Type 0 where
    started : (r : Running) → Run r r
    later : (q r s : Running) → Run q r → Step r s → Run q s
