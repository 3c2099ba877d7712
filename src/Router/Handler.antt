-- ===== src/Router/Handler.antt =====
-- The handler of `/v1/chat/completions` with `extractConversationID` and `newConversationID`
-- (cmd/router/main.go). The HTTP library is the parameter `Http`.
pub mod Chosen
pub mod Counts
pub mod Headers
pub mod Ids
pub mod Replies
use llm_inference_operator.Base.{
  deref, Bool, true, false, ◌||◌, ℕ, ◌/◌, ◌%◌, String, ◌<>◌, List, [], ◌∷◌, Option, none, some,
  if◌then◌else◌, text_eq, length, ◌==◌,
}
use llm_inference_operator.Base.Int.{ℤ, pos, ltb_ℤ, itoa}
use llm_inference_operator.Base.Dict.{Dict, insert, lookup}
use llm_inference_operator.Kube.{Error, Outcome, ok, err, panic}
use llm_inference_operator.Kube.Client.{M, pure, attempt, ◌>>=◌}
use llm_inference_operator.Json.{
  Json, null, obj, Fields, end, field, Codec, field_named, string_field,
}
use llm_inference_operator.ShardMap.{ShardMap}
use llm_inference_operator.Router.Pick.{pick_shard_for_conversation}
use mathlib.Core.Option

-- The string fields of `chatRequest`: there is one, `conversationId`.
read_request : Fields → String → Option String
unfolding field_named string_field Option.bind
read_request end id = some id
read_request (field key v rest) id =
    Option.bind (if field_named "conversationId" key then string_field v id else some id)
      (read_request rest)

unfoldable pub request_of_json : Json → Option String
unfolding read_request
request_of_json null = some ""
request_of_json (obj fields) = read_request fields ""
request_of_json _ = none

-- A body that does not fit has no ID.
unfoldable pub request_id : Outcome Json → Outcome String
unfolding request_of_json
request_id (ok j) = ok (deref (request_of_json j) "")
request_id (err e) = ok ""
request_id panic = panic

-- `extractConversationID`
unfoldable pub extract_conversation_id : Codec → String → Outcome String
unfolding request_id
extract_conversation_id codec body = request_id (codec.parse body)

-- `hex.EncodeToString`
abbrev pub digit : ℕ → String
digit n =
    if n == 10
    then "a"
    else if n == 11
    then "b"
    else if n == 12
    then "c"
    else if n == 13
    then "d"
    else if n == 14
    then "e"
    else if n == 15
    then "f"
    else itoa (pos n)

unfoldable pub hex_encode : List ℕ → String
unfolding itoa
hex_encode [] = ""
hex_encode (b ∷ bs) = digit (b / 16) <> digit (b % 16) <> hex_encode bs

pub record Request : Type 0 where
  pub url : String
  pub headers : Dict String
  pub body : String

-- What the client sent: the headers, and what `io.ReadAll(r.Body)` returns.
pub record Incoming : Type 0 where
  pub headers : Dict String
  pub body : Outcome String

pub record Response : Type 0 where
  pub status_code : ℤ
  pub headers : Dict String
  pub body : String

-- What is written to the client: `http.Error`, or the upstream's answer.
pub data Reply : Type 0 where
  error : ℤ → String → Reply
  answer : ℤ → Dict String → String → Reply

abbrev pub status_of_reply : Reply → ℤ
status_of_reply (error n message) = n
status_of_reply (answer n headers body) = n

-- The HTTP library, the clock and `crypto/rand`, with `State` for all outside the router.
-- `canonical` is the spelling under which `http.Header` keeps a name; `send` is `httpClient.Do`, with
-- the body as far as it can be copied.
pub record Http : Type 1 where
  pub State : Type 0
  pub canonical : String → String
  pub random_bytes : State → List ℕ × State
  pub now : State → ℕ × State
  pub since : ℕ → State → ℕ × State
  pub new_request : String → String → Outcome Request
  pub send : Request → M State Response

-- The observations of `routeLatency`, and the labels that `routeTotal` and `chosenShard` were
-- increased under, each with the latest first.
pub record Metrics : Type 0 where
  pub latency : List ℕ
  pub route_total : List String
  pub chosen_shard : List String

-- The shard of a conversation: 0 without a map and without shards.
unfoldable pub shard_for : Option ShardMap → String → ℤ
unfolding pick_shard_for_conversation
shard_for none id = pos 0
shard_for (some m) id = if length m.shards == 0 then pos 0 else pick_shard_for_conversation m id

module _ (http : Http) where
  -- `Header.Set` and `Header.Get`
  unfoldable pub set_header : String → String → Dict String → Dict String
  unfolding insert
  set_header name value headers = insert (http.canonical name) value headers

  unfoldable pub get_header : Dict String → String → String
  unfolding lookup
  get_header headers name = deref (lookup (http.canonical name) headers) ""

  -- The headers of the request to the decode service.
  unfoldable pub upstream_request : Incoming → String → ℤ → Request → Request
  unfolding set_header get_header itoa
  upstream_request incoming id shard req =
      let typed =
        set_header "Content-Type" (get_header incoming.headers "Content-Type") req.headers in
      let named = set_header "X-Conversation-Id" id typed in
      record req { headers = set_header "X-KV-Shard" (itoa shard) named }

  abbrev pub World : Type 0
  World = http.State × Metrics

  abbrev pub on_http : {A : Type 0} → M http.State A → M World A
  on_http m (s, metrics) = let (r, s') = m s in (r, (s', metrics))

  abbrev pub lift : {A : Type 0} → Outcome A → M World A
  lift r w = (r, w)

  -- `routeTotal.WithLabelValues(label).Inc()`, and the end of the handler.
  unfoldable pub finish : String → Reply → M World Reply
  finish label r (s, metrics) =
      (ok r, (s, record metrics { route_total = label ∷ metrics.route_total }))

  -- `w.WriteHeader` panics for a status that is not of three digits.
  unfoldable pub write_header : ℤ → Outcome Unit
  write_header n = if ltb_ℤ n (pos 100) || ltb_ℤ (pos 999) n then panic else ok tt

  unfoldable pub complete : String → Response → M World Reply
  unfolding finish write_header set_header get_header itoa
  complete id resp = do
    _ ← lift (write_header resp.status_code)
    let typed = set_header "Content-Type" (get_header resp.headers "Content-Type") []
    finish (itoa resp.status_code)
        (answer resp.status_code (set_header "X-Conversation-Id" id typed) resp.body)

  -- From the building of the upstream request on.
  unfoldable pub forward : String → Incoming → String → ℤ → String → M World Reply
  unfolding finish upstream_request complete
  forward decode_service_dns incoming body shard id =
      attempt
        (lift (http.new_request ("http://" <> decode_service_dns <> "/v1/chat/completions") body))
        (λ e. finish "500" (error (pos 500) "upstream request build failed"))
        (λ req.
          attempt (on_http (http.send (upstream_request incoming id shard req)))
            (λ e. finish "502" (error (pos 502) "upstream unavailable")) (complete id))

  -- The choice of the shard, counted before the request is forwarded.
  unfoldable pub route : String → Option ShardMap → Incoming → String → String → M World Reply
  unfolding shard_for itoa forward
  route decode_service_dns current incoming body id (s, metrics) =
      let shard = shard_for current id in
      forward decode_service_dns incoming body shard id
        (s, record metrics { chosen_shard = itoa shard ∷ metrics.chosen_shard })

  -- `newConversationID`
  unfoldable pub new_conversation_id : M World String
  unfolding hex_encode
  new_conversation_id (s, metrics) =
      let (bs, s') = http.random_bytes s in (ok (hex_encode bs), (s', metrics))

  unfoldable pub conversation_id : Codec → String → M World String
  unfolding extract_conversation_id new_conversation_id
  conversation_id codec body =
      lift (extract_conversation_id codec body)
      >>= (λ id. if text_eq id "" then new_conversation_id else pure id)

  unfoldable pub serve : String → Codec → Option ShardMap → Incoming → M World Reply
  unfolding finish conversation_id route
  serve decode_service_dns codec current incoming =
      attempt (lift incoming.body) (λ e. finish "400" (error (pos 400) "bad request"))
        (λ body. conversation_id codec body >>= route decode_service_dns current incoming body)

  -- The deferred observation, which a panic does not stop.
  unfoldable pub observe : ℕ → Outcome Reply × World → Outcome Reply × World
  observe start (r, (s, metrics)) =
      let (elapsed, s') = http.since start s in
      (r, (s', record metrics { latency = elapsed ∷ metrics.latency }))

  -- The handler of `/v1/chat/completions`, with the shard map that it loads.
  unfoldable pub handle : String → Codec → Option ShardMap → Incoming → M World Reply
  unfolding serve observe
  handle decode_service_dns codec current incoming (s, metrics) =
      let (start, s') = http.now s in
      observe start (serve decode_service_dns codec current incoming (s', metrics))
