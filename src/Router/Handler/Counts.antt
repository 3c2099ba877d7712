-- ===== src/Router/Handler/Counts.antt =====
-- What a request does to the metrics.
use llm_inference_operator.Base.{
  ◌<>◌, Bool, true, false, deref, ℕ, String, List, ◌∷◌, Option, ◌≡◌, refl, ap, if◌then◌else◌,
  text_eq,
}
use llm_inference_operator.Base.Int.{ℤ, itoa}
use llm_inference_operator.Kube.{Error, Outcome, ok, err, panic}
use llm_inference_operator.Kube.Client.{M, pure, raise, resume, ◌>>=◌}
use llm_inference_operator.Json.{Json, Codec}
use llm_inference_operator.ShardMap.{ShardMap}
use llm_inference_operator.Router.Handler.{
  hex_encode, Http, Metrics, Incoming, Response, Reply, World, finish, write_header, complete,
  forward, route, new_conversation_id, extract_conversation_id, conversation_id, serve, observe,
  handle, upstream_request, shard_for, request_id, request_of_json,
}

-- How a step that is resumed ends, by how it ended before.
pub resume-elim :
    {S A B : Type 0} (Good : Outcome B × S → Type 0) (on_error : Error → M S B) (rest : A → M S B)
    (r : Outcome A) (v : S)
    → ((a : A) → r ≡ ok a → Good (rest a v))
    → ((e : Error) → r ≡ err e → Good (on_error e v))
    → (r ≡ panic → Good (panic, v))
    → Good (resume on_error rest (r, v))
resume-elim Good on_error rest (ok a) v next failed stopped = next a refl
resume-elim Good on_error rest (err e) v next failed stopped = failed e refl
resume-elim Good on_error rest panic v next failed stopped = stopped refl

-- The ID that is used: that of the body, or a new one.
pub conversation_id-elim :
    (http : Http) (codec : Codec) (body : String) (Good : Outcome Reply × World http → Type 0)
    (rest : String → M (World http) Reply) (s : http.State) (metrics : Metrics)
    → ((id : String) (t : http.State) → Good (rest id (t, metrics)))
    → (codec.parse body ≡ panic → Good (panic, (s, metrics)))
    → Good ((conversation_id http codec body >>= rest) (s, metrics))
unfolding conversation_id extract_conversation_id new_conversation_id
conversation_id-elim http codec body Good rest s metrics next stopped = go (codec.parse body) refl
  where
    named :
        (id : String)
        → Good (
            resume raise rest
              ((if text_eq id "" then new_conversation_id http else pure id) (s, metrics)))
    named id = by_emptiness (text_eq id "")
      where
        by_emptiness :
            (b : Bool)
            → Good
                (resume raise rest ((if b then new_conversation_id http else pure id) (s, metrics)))
        by_emptiness true = next (hex_encode (http.random_bytes s).0) (http.random_bytes s).1
        by_emptiness false = next id s

    go :
        (r : Outcome Json)
        → codec.parse body ≡ r
        → Good (
            resume raise rest (
              resume raise
                (λ id. if text_eq id "" then new_conversation_id http else pure id)
                (request_id r, (s, metrics))))
    go (ok j) e = named (deref (request_of_json j) "")
    go (err x) e = named ""
    go panic e = stopped e

module _ (http : Http) where
  -- A run that leaves the observed latencies as they were.
  abbrev Kept : List ℕ → Outcome Reply × World http → Type 0
  Kept old q = q.1.1.latency ≡ old

  complete-Kept :
      (id : String) (resp : Response) (s : http.State) (metrics : Metrics)
      → Kept metrics.latency (complete http id resp (s, metrics))
  unfolding complete finish
  complete-Kept id resp s metrics =
      resume-elim (λ q. Kept metrics.latency q) raise _ (write_header http resp.status_code)
        (s, metrics) (λ a e. refl) (λ x e. refl) (λ e. refl)

  forward-Kept :
      (dns body id : String) (incoming : Incoming) (shard : ℤ) (s : http.State) (metrics : Metrics)
      → Kept metrics.latency (forward http dns incoming body shard id (s, metrics))
  unfolding forward finish
  forward-Kept dns body id incoming shard s metrics =
      resume-elim (λ q. Kept metrics.latency q) _ _
        (http.new_request ("http://" <> dns <> "/v1/chat/completions") body) (s, metrics)
        (λ req e.
          resume-elim (λ q. Kept metrics.latency q) _ _
            (http.send (upstream_request http incoming id shard req) s).0
            ((http.send (upstream_request http incoming id shard req) s).1, metrics)
            (λ resp d.
              complete-Kept id resp (http.send (upstream_request http incoming id shard req) s).1
                metrics)
            (λ x d. refl) (λ d. refl))
        (λ x e. refl) (λ e. refl)

  serve-Kept :
      (dns : String) (codec : Codec) (current : Option ShardMap) (incoming : Incoming)
      (s : http.State) (metrics : Metrics)
      → Kept metrics.latency (serve http dns codec current incoming (s, metrics))
  unfolding serve finish route
  serve-Kept dns codec current incoming s metrics =
      resume-elim (λ q. Kept metrics.latency q) _ _ incoming.body (s, metrics)
        (λ body e.
          conversation_id-elim http codec body (λ q. Kept metrics.latency q)
            (route http dns current incoming body) s metrics
            (λ id t. forward-Kept dns body id incoming (shard_for current id) t (record metrics {
              chosen_shard = itoa (shard_for current id) ∷ metrics.chosen_shard;
            }))
            (λ e. refl))
        (λ x e. refl) (λ e. refl)

  -- Every run of the handler, one that panics included, adds exactly one observation to the latency.
  pub handle_latency :
      (decode_service_dns : String) (codec : Codec) (current : Option ShardMap)
      (incoming : Incoming) (s : http.State) (metrics : Metrics)
      → (elapsed : ℕ) × ((handle http decode_service_dns codec current incoming
            (s, metrics)).1.1.latency
          ≡ elapsed ∷ metrics.latency)
  unfolding handle observe
  handle_latency dns codec current incoming s metrics =
      let started = http.now s in
      let w = serve http dns codec current incoming (started.1, metrics) in
      (
        (http.since started.0 w.1.0).0,
        ap (◌∷◌ (http.since started.0 w.1.0).0)
            (serve-Kept dns codec current incoming started.1 metrics),
      )
