-- ===== src/Worker.antt =====
-- cmd/mock-worker/main.go: the handler of `/v1/chat/completions` of the stand-in for a model server.
pub mod Echo
use llm_inference_operator.Base.{String, ◌<>◌, List, [], ◌∷◌, if◌then◌else◌, or_text}
use llm_inference_operator.Base.Dict.{Dict}
use llm_inference_operator.Flags.{Exit, go_on, string_var, parse_flags, then_run}
use llm_inference_operator.Kube.{Error, Outcome, ok, err, panic}
use llm_inference_operator.Json.{Json, str, obj, end, field, Codec}
use llm_inference_operator.Router.Handler.{Http, get_header, set_header}

-- `type response`
pub record WorkerResponse : Type 0 where
  pub conversation_id : String
  pub kv_shard : String
  pub role : String
  pub pod : String
  pub message : String

-- The value that `Encode` prints, by the tags.
unfoldable pub json_of_response : WorkerResponse → Json
json_of_response r = obj (
    field "conversationId" (str r.conversation_id) (
      field "kvShard" (str r.kv_shard) (
        field "role" (str r.role) (field "pod" (str r.pod) (field "message" (str r.message) end)))))

-- The role that the process starts with, from `INFERENCE_ROLE`.
unfoldable pub worker_role : String → String
worker_role env = or_text env "decode"

-- `main` up to the server: the address to listen on, and the role.
unfoldable pub start_worker : (String → String) → List String → Exit (String × String)
unfolding parse_flags worker_role
start_worker getenv args =
    then_run (parse_flags (string_var "listen" (λ v listen. v) ∷ []) args ":8000")
      λ listen. go_on (listen, worker_role (getenv "INFERENCE_ROLE"))

-- `hostname`, of what `os.Hostname` returns.
unfoldable pub hostname : Outcome String → Outcome String
hostname (ok h) = ok h
hostname (err e) = ok ""
hostname panic = panic

module _ (http : Http) (role : String) where
  -- What the worker answers to a request with the given headers.
  unfoldable pub worker_response : Dict String → String → WorkerResponse
  unfolding get_header
  worker_response headers pod =
      let kv_shard = or_text (get_header http headers "X-KV-Shard") "0" in
      record {
        conversation_id =
            or_text (get_header http headers "X-Conversation-Id") "generated-by-router";
        kv_shard = kv_shard;
        role = role;
        pod = pod;
        message = "mock worker response (role=" <> (role <> (", shard=" <> (kv_shard <> ")")));
      }

  -- What is written: the header, and the printed response on a line; the error of `Encode` is dropped.
  unfoldable pub encode_response : Outcome String → Outcome String
  encode_response (ok text) = ok (text <> "\n")
  encode_response (err e) = ok ""
  encode_response panic = panic

  unfoldable pub respond : Codec → Outcome String → Dict String → Outcome String
  unfolding encode_response worker_response json_of_response
  respond codec (ok pod) headers =
      encode_response (codec.print (json_of_response (worker_response headers pod)))
  respond codec (err e) headers = err e
  respond codec panic headers = panic

  -- The handler: the counter `reqs`, as the labels of its increments with the latest first, and the
  -- headers and the body of the reply.
  unfoldable pub worker_handle :
      Codec
      → Outcome String
      → Dict String
      → List String
      → Outcome (Dict String × String) × List String
  unfolding hostname respond set_header
  worker_handle codec host headers reqs =
      (sent (respond codec (hostname host) headers), role ∷ reqs)
    where
      sent : Outcome String → Outcome (Dict String × String)
      sent (ok body) = ok (set_header http "Content-Type" "application/json" [], body)
      sent (err e) = err e
      sent panic = panic
