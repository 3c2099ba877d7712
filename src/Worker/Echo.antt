-- ===== src/Worker/Echo.antt =====
-- A request through the router and the worker.
use llm_inference_operator.Base.{String, ◌≡◌, ◌≢◌, refl, text_eq_of_ne, decimal-ne_empty, arith}
use llm_inference_operator.Base.Int.{ℤ, pos, negsuc, ◌≤ℤ◌, itoa}
use llm_inference_operator.Router.Handler.{Http, Incoming, Request, upstream_request}
use llm_inference_operator.Router.Handler.Headers.{upstream_request_headers}
use llm_inference_operator.Worker.{or_text, worker_response}

or_text-same : (s other t : String) → s ≡ t → t ≢ "" → or_text s other ≡ t
or_text-same s other t e h = rw (e, text_eq_of_ne t "" h) refl

itoa-ne_empty : (m : ℤ) → pos 0 ≤ℤ m → itoa m ≢ ""
unfolding itoa
itoa-ne_empty (pos n) h = decimal-ne_empty n
itoa-ne_empty (negsuc n) h = absurd (omega arith)

-- Where the three header names are different names, the ID is not empty and the shard is not
-- negative, the worker answers a request of the router with that ID and with the shard in decimal.
pub worker_response-upstream_request :
    (http : Http) (incoming : Incoming) (id : String) (shard : ℤ) (req : Request)
    (role pod : String)
    → http.canonical "X-Conversation-Id" ≢ http.canonical "Content-Type"
    → http.canonical "X-KV-Shard" ≢ http.canonical "Content-Type"
    → http.canonical "X-KV-Shard" ≢ http.canonical "X-Conversation-Id"
    → id ≢ ""
    → pos 0 ≤ℤ shard
    → let r = worker_response http role (upstream_request http incoming id shard req).headers pod in
      (r.conversation_id ≡ id) × (r.kv_shard ≡ itoa shard)
unfolding worker_response
worker_response-upstream_request http incoming id shard req role pod a b c h k =
    let sent = upstream_request_headers http incoming id shard req a b c in
    (
      or_text-same _ "generated-by-router" id sent.0 h,
      or_text-same _ "0" (itoa shard) sent.1 (itoa-ne_empty shard k),
    )
