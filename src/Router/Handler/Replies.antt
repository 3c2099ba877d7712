-- ===== src/Router/Handler/Replies.antt =====
-- What a request is answered, and what is counted for it.
use llm_inference_operator.Base.{
  decimal, ◌<>◌, String, List, ◌∷◌, Option, ◌≡◌, ◌≢◌, refl, ap, arith, false,
}
use llm_inference_operator.Base.Int.{ℤ, pos, ◌≤ℤ◌, ltb_ℤ, itoa}
use llm_inference_operator.Kube.{Error, Outcome, ok, err, panic}
use llm_inference_operator.Base.Dict.{Dict}
use llm_inference_operator.Json.{Codec}
use llm_inference_operator.ShardMap.{ShardMap}
use llm_inference_operator.Router.Handler.{
  Http, Metrics, Incoming, Request, Response, Reply, answer, error, status_of_reply, World, finish,
  write_header, complete, forward, route, serve, observe, handle, upstream_request, shard_for,
}
use llm_inference_operator.Router.Handler.Counts.{resume-elim, conversation_id-elim}

-- The HTTP library returns and does not panic, and an upstream's status has three digits.
pub record IsCalmHttp (http : Http) : Type 0 where
  pub new_request : (url body : String) → http.new_request url body ≢ panic
  pub send : (req : Request) (s : http.State) → (http.send req s).0 ≢ panic
  pub three_digits :
      (req : Request) (s : http.State) (resp : Response)
      → (http.send req s).0 ≡ ok resp
      → (pos 100 ≤ℤ resp.status_code) × (resp.status_code ≤ℤ pos 999)

write_header-ok : (http : Http) (n : ℤ) → pos 100 ≤ℤ n → n ≤ℤ pos 999 → write_header http n ≡ ok tt
unfolding write_header
write_header-ok http n lo hi =
    let low : ltb_ℤ n (pos 100) ≡ false = ground arith in
    let high : ltb_ℤ (pos 999) n ≡ false = ground arith in rw (low, high) refl

label_400 : "400" ≡ itoa (pos 400)
unfolding itoa decimal
label_400 = refl

label_500 : "500" ≡ itoa (pos 500)
unfolding itoa decimal
label_500 = refl

label_502 : "502" ≡ itoa (pos 502)
unfolding itoa decimal
label_502 = refl

-- The address of the decode service's completions.
abbrev pub url_of : String → String
url_of dns = "http://" <> dns <> "/v1/chat/completions"

module _ (http : Http) (dns : String) (incoming : Incoming) where
  -- Why a request is answered as it is: with 400 where its body cannot be read, with 500 where the
  -- upstream request cannot be built from the body, with 502 where sending that request fails, and
  -- with the upstream's status and body where it is sent.
  pub data Explained : Reply → Type 0 where
    unread : (e : Error) (text : String) → incoming.body ≡ err e → Explained (error (pos 400) text)
    unbuilt :
        (body : String) (e : Error) (text : String)
        → incoming.body ≡ ok body
        → http.new_request (url_of dns) body ≡ err e
        → Explained (error (pos 500) text)
    unsent :
        (body id : String) (shard : ℤ) (req : Request) (s : http.State) (e : Error) (text : String)
        → incoming.body ≡ ok body
        → http.new_request (url_of dns) body ≡ ok req
        → (http.send (upstream_request http incoming id shard req) s).0 ≡ err e
        → Explained (error (pos 502) text)
    answered :
        (body id : String) (shard : ℤ) (req : Request) (s : http.State) (resp : Response)
        (headers : Dict String)
        → incoming.body ≡ ok body
        → http.new_request (url_of dns) body ≡ ok req
        → (http.send (upstream_request http incoming id shard req) s).0 ≡ ok resp
        → Explained (answer resp.status_code headers resp.body)

  -- The run returned a reply that is explained, and counted it once, under the reply's status.
  abbrev pub Counted : List String → Outcome Reply × World http → Type 0
  Counted old q =
      (r : Reply) × (q.0 ≡ ok r)
      × Explained r
      × (q.1.1.route_total ≡ itoa (status_of_reply r) ∷ old)

module _ (http : Http) (calm : IsCalmHttp http) (dns : String) (incoming : Incoming) where
  complete-Counted :
      (id : String) (resp : Response) (s : http.State) (metrics : Metrics)
      → pos 100 ≤ℤ resp.status_code
      → resp.status_code ≤ℤ pos 999
      → ((headers : Dict String)
          → Explained http dns incoming (answer resp.status_code headers resp.body))
      → Counted http dns incoming metrics.route_total (complete http id resp (s, metrics))
  unfolding complete finish
  complete-Counted id resp s metrics lo hi explained =
      rw (write_header-ok http resp.status_code lo hi) (_, refl, explained _, refl)

  forward-Counted :
      (body id : String) (shard : ℤ) (s : http.State) (metrics : Metrics)
      → incoming.body ≡ ok body
      → Counted http dns incoming metrics.route_total
          (forward http dns incoming body shard id (s, metrics))
  unfolding forward finish
  forward-Counted body id shard s metrics came =
      let url = url_of dns in
      resume-elim (λ q. Counted http dns incoming metrics.route_total q) _ _
        (http.new_request url body) (s, metrics)
        (λ req e.
          let sent = http.send (upstream_request http incoming id shard req) s in
          resume-elim (λ q. Counted http dns incoming metrics.route_total q) _ _ sent.0
            (sent.1, metrics)
            (λ resp d.
              let digits =
                calm.three_digits (upstream_request http incoming id shard req) s resp d in
              complete-Counted id resp sent.1 metrics digits.0 digits.1
                (λ headers. answered body id shard req s resp headers came e d))
            (λ x d. (
              _,
              refl,
              unsent body id shard req s x _ came e d,
              ap (λ l. l ∷ metrics.route_total) label_502,
            ))
            (λ d. absurd (calm.send (upstream_request http incoming id shard req) s d)))
        (λ x e. (_, refl, unbuilt body x _ came e, ap (λ l. l ∷ metrics.route_total) label_500))
        (λ e. absurd (calm.new_request url body e))

  serve-Counted :
      (codec : Codec) (current : Option ShardMap) (s : http.State) (metrics : Metrics)
      → ((t : String) → codec.parse t ≢ panic)
      → incoming.body ≢ panic
      → Counted http dns incoming metrics.route_total
          (serve http dns codec current incoming (s, metrics))
  unfolding serve finish route
  serve-Counted codec current s metrics calm_parse calm_body =
      resume-elim (λ q. Counted http dns incoming metrics.route_total q) _ _ incoming.body
        (s, metrics)
        (λ body e.
          conversation_id-elim http codec body
            (λ q. Counted http dns incoming metrics.route_total q)
            (route http dns current incoming body) s metrics
            (λ id t.
              forward-Counted body id (shard_for current id) t
                (record metrics {
                  chosen_shard = itoa (shard_for current id) ∷ metrics.chosen_shard;
                })
                e)
            (λ e. absurd (calm_parse body e)))
        (λ x e. (_, refl, unread x _ e, ap (λ l. l ∷ metrics.route_total) label_400))
        (λ e. absurd (calm_body e))

  -- Where the HTTP library, the JSON parser and the reading of the body do not panic, and the
  -- upstream's statuses have three digits, the handler always replies, and the request is counted
  -- exactly once, under the status of the reply. That is 400 where the body could not be read, 500
  -- where the upstream request could not be built, 502 where sending it failed, and otherwise the
  -- upstream's status, with the upstream's body.
  pub handle_route_total :
      (codec : Codec) (current : Option ShardMap) (s : http.State) (metrics : Metrics)
      → ((t : String) → codec.parse t ≢ panic)
      → incoming.body ≢ panic
      → Counted http dns incoming metrics.route_total
          (handle http dns codec current incoming (s, metrics))
  unfolding handle observe
  handle_route_total codec current s metrics calm_parse calm_body =
      let started = http.now s in serve-Counted codec current started.1 metrics calm_parse calm_body
