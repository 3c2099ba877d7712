-- ===== src/Router/Handler/Headers.antt =====
-- What the decode service is told of a request.
use llm_inference_operator.Base.{
  deref, String, ◌≡◌, ◌≢◌, refl, ◌∙◌, text_eq_iff, text_eq_refl, arith,
}
use llm_inference_operator.Base.Int.{ℤ, itoa}
use llm_inference_operator.Base.Dict.{Dict, lookup-insert}
use llm_inference_operator.Router.Handler.{
  Http, Incoming, Request, set_header, get_header, upstream_request,
}

get-set :
    (http : Http) (name other value : String) (headers : Dict String)
    → http.canonical name ≢ http.canonical other
    → get_header http (set_header http name value headers) other ≡ get_header http headers other
unfolding get_header set_header deref
get-set http name other value headers apart = ground (
  arith,
  lookup-insert (http.canonical name) (http.canonical other) value headers,
  text_eq_iff (http.canonical name) (http.canonical other),
)

get-set_same :
    (http : Http) (name value : String) (headers : Dict String)
    → get_header http (set_header http name value headers) name ≡ value
unfolding get_header set_header deref
get-set_same http name value headers =
    rw
      (
        lookup-insert (http.canonical name) (http.canonical name) value headers,
        text_eq_refl (http.canonical name),
      )
      refl

-- Where the three header names are different names, the request to the decode service carries the
-- conversation's ID, the shard in decimal and the client's content type, and the URL and the body
-- that it was built with.
pub upstream_request_headers :
    (http : Http) (incoming : Incoming) (id : String) (shard : ℤ) (req : Request)
    → http.canonical "X-Conversation-Id" ≢ http.canonical "Content-Type"
    → http.canonical "X-KV-Shard" ≢ http.canonical "Content-Type"
    → http.canonical "X-KV-Shard" ≢ http.canonical "X-Conversation-Id"
    → let sent = upstream_request http incoming id shard req in
      (get_header http sent.headers "X-Conversation-Id" ≡ id)
      × (get_header http sent.headers "X-KV-Shard" ≡ itoa shard)
      × (get_header http sent.headers "Content-Type"
          ≡ get_header http incoming.headers "Content-Type")
      × (sent.url ≡ req.url)
      × (sent.body ≡ req.body)
unfolding upstream_request
upstream_request_headers http incoming id shard req named shard_typed shard_named = (
  get-set http _ _ _ _ shard_named ∙ get-set_same http _ _ _,
  get-set_same http _ _ _,
  get-set http _ _ _ _ shard_typed ∙ get-set http _ _ _ _ named ∙ get-set_same http _ _ _,
  refl,
  refl,
)
