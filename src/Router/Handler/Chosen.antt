-- ===== src/Router/Handler/Chosen.antt =====
-- What a request does to the counts of chosen shards.
use llm_inference_operator.Base.{◌≡◌, refl, String, ◌<>◌, List, ◌∷◌, Option, ◌⊎◌, inl, inr}
use llm_inference_operator.Base.Int.{ℤ, itoa}
use llm_inference_operator.Kube.{Outcome}
use llm_inference_operator.Kube.Client.{raise}
use llm_inference_operator.Json.{Codec}
use llm_inference_operator.ShardMap.{ShardMap}
use llm_inference_operator.Router.Handler.{
  Http, Metrics, Incoming, Response, Reply, World, finish, write_header, complete, forward, route,
  serve, observe, handle, upstream_request, shard_for,
}
use llm_inference_operator.Router.Handler.Counts.{resume-elim, conversation_id-elim}

module _ (http : Http) where
  -- A run that leaves the counts of shards as they are.
  abbrev Kept : List String → Outcome Reply × World http → Type 0
  Kept old q = q.1.1.chosen_shard ≡ old

  complete-Kept :
      (id : String) (resp : Response) (s : http.State) (metrics : Metrics)
      → Kept metrics.chosen_shard (complete http id resp (s, metrics))
  unfolding complete finish
  complete-Kept id resp s metrics =
      resume-elim (λ q. Kept metrics.chosen_shard q) raise _ (write_header http resp.status_code)
        (s, metrics) (λ a e. refl) (λ x e. refl) (λ e. refl)

  forward-Kept :
      (dns body id : String) (incoming : Incoming) (shard : ℤ) (s : http.State) (metrics : Metrics)
      → Kept metrics.chosen_shard (forward http dns incoming body shard id (s, metrics))
  unfolding forward finish
  forward-Kept dns body id incoming shard s metrics =
      resume-elim (λ q. Kept metrics.chosen_shard q) _ _
        (http.new_request ("http://" <> dns <> "/v1/chat/completions") body) (s, metrics)
        (λ req e.
          let (resp, t) = http.send (upstream_request http incoming id shard req) s in
          resume-elim (λ q. Kept metrics.chosen_shard q) _ _ resp (t, metrics)
            (λ r d. complete-Kept id r t metrics) (λ x d. refl) (λ d. refl))
        (λ x e. refl) (λ e. refl)

  -- At most one shard is counted, that of some conversation under the map.
  abbrev pub Chosen : Option ShardMap → List String → Outcome Reply × World http → Type 0
  Chosen current old q =
      (q.1.1.chosen_shard ≡ old)
      ⊎ ((id : String) × (q.1.1.chosen_shard ≡ itoa (shard_for current id) ∷ old))

  serve-Chosen :
      (dns : String) (codec : Codec) (current : Option ShardMap) (incoming : Incoming)
      (s : http.State) (metrics : Metrics)
      → Chosen current metrics.chosen_shard (serve http dns codec current incoming (s, metrics))
  unfolding serve finish route
  serve-Chosen dns codec current incoming s metrics =
      resume-elim (λ q. Chosen current metrics.chosen_shard q) _ _ incoming.body (s, metrics)
        (λ body e.
          conversation_id-elim http codec body (λ q. Chosen current metrics.chosen_shard q)
            (route http dns current incoming body) s metrics
            (λ id t. inr (
              id,
              forward-Kept dns body id incoming (shard_for current id) t (record metrics {
                chosen_shard = itoa (shard_for current id) ∷ metrics.chosen_shard;
              }),
            ))
            (λ e. inl refl))
        (λ x e. inl refl) (λ e. inl refl)

  pub handle-Chosen :
      (dns : String) (codec : Codec) (current : Option ShardMap) (incoming : Incoming)
      (s : http.State) (metrics : Metrics)
      → Chosen current metrics.chosen_shard (handle http dns codec current incoming (s, metrics))
  unfolding handle observe
  handle-Chosen dns codec current incoming s metrics =
      serve-Chosen dns codec current incoming (http.now s).1 metrics
