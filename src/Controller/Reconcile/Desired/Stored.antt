-- ===== src/Controller/Reconcile/Desired/Stored.antt =====
-- After a successful reconcile the server holds the three deployments as desired.
use text.Mathlib.TextLemmas.{append_cancel_left}
use llm_inference_operator.Base.{
  String, ◌<>◌, Option, ◌≡◌, ◌≢◌, sym, ap, ◌∙◌, false, true, text_eq_iff,
}
use llm_inference_operator.Base.Dict.{Dict}
use llm_inference_operator.Kube.{Outcome, ok, Deployment}
use llm_inference_operator.Platform.{Platform}
use llm_inference_operator.Cluster.{Cluster}
use llm_inference_operator.Controller.Status.{Return}
use llm_inference_operator.Controller.Reconcile.{publish_shards}
use llm_inference_operator.Controller.Reconcile.Desired.{View, IsStore}
use llm_inference_operator.Controller.Reconcile.Desired.Keeps.{publish_shards-Keeps}

pub suffix_apart : (name s t : String) → s ≢ t → name <> s ≢ name <> t
suffix_apart name s t h e = h (append_cancel_left name s t e)

false_ne_true : false ≢ true
false_ne_true e = cc

pub decode_ne_prefill : ◌≢◌ {A = String} "-decode" "-prefill"
decode_ne_prefill e = false_ne_true ((text_eq_iff "-decode" "-prefill").1 e)

pub decode_ne_router : ◌≢◌ {A = String} "-decode" "-router"
decode_ne_router e = false_ne_true ((text_eq_iff "-decode" "-router").1 e)

pub prefill_ne_router : ◌≢◌ {A = String} "-prefill" "-router"
prefill_ne_router e = false_ne_true ((text_eq_iff "-prefill" "-router").1 e)

module _ (P : Platform) (view : View P.client) (store : IsStore P.client view) (c : Cluster) where
  open P use {client as api}

  -- What a server holds under a name of the cluster's namespace.
  abbrev pub held : api.State → String → Option Deployment
  held s name = view s c.metadata.namespace name

  pub held_after :
      (original : Cluster) (labels : Dict String) (u w t : api.State) (v : Return)
      → u ≡ w
      → publish_shards P original c labels w ≡ (ok v, t)
      → (name : String) → held t name ≡ held u name
  held_after original labels u w t v same published name =
      ap (λ (q : Outcome Return × api.State). held q.1 name) (sym published)
      ∙ ap (λ (look : String → String → Option Deployment). look c.metadata.namespace name)
          (publish_shards-Keeps P view store original c labels w)
      ∙ ap (λ (x : api.State). held x name) (sym same)
