-- ===== src/Platform.antt =====
-- What the operator runs on: the Kubernetes client, the text level of JSON, `float64`, and
-- `sort.Slice`, whose order among equal elements Go leaves open.
use llm_inference_operator.Base.{List, Bool, not, Perm, text_leb}
use llm_inference_operator.Base.Sort.{IsSorted}
use llm_inference_operator.Kube.{EnvVar}
use llm_inference_operator.Kube.Client.{Client}
use llm_inference_operator.Json.{Codec}
use llm_inference_operator.Signals.{Floats}

pub record Platform : Type 1 where
  pub client : Client
  pub codec : Codec
  pub floats : Floats
  pub sort_slice : (EnvVar → EnvVar → Bool) → List EnvVar → List EnvVar

-- `out[i].Name < out[j].Name`
abbrev pub name_less : EnvVar → EnvVar → Bool
name_less a b = not (text_leb b.name a.name)

-- The documented result of `sort.Slice`: a rearrangement in which no element is less than one
-- before it.
pub record IsSortSlice (sort_slice : (EnvVar → EnvVar → Bool) → List EnvVar → List EnvVar)
    : Type 0 where
  pub perm : (xs : List EnvVar) → Perm (sort_slice name_less xs) xs
  pub sorted : (xs : List EnvVar) → IsSorted (λ a b. not (name_less b a)) (sort_slice name_less xs)
