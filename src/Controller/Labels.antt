-- ===== src/Controller/Labels.antt =====
-- `baseLabels` and `roleLabels` (internal/controller/llminferencecluster_controller.go).
use llm_inference_operator.Base.{
  String, [], ◌∷◌, ◌≡◌, ◌↔◌, Bool, true, false, ◌&&◌, Option, none, some, arith, text_eq,
  text_eq_iff,
}
use llm_inference_operator.Base.Dict.{Dict, lookup, insert, copy_into}
use llm_inference_operator.Cluster.{Cluster}

abbrev pub role_prefill : String
role_prefill = "prefill"

abbrev pub role_decode : String
role_decode = "decode"

unfoldable pub base_labels : Cluster → Dict String
base_labels c =
    ("app.kubernetes.io/name", "llm-inference-operator")
    ∷ ("app.kubernetes.io/part-of", "llm-inference-operator")
    ∷ ("inference.llm.io/cluster", c.metadata.name)
    ∷ []

-- A copy of the base labels, and the role.
unfoldable pub role_labels : Dict String → String → Dict String
unfolding insert copy_into
role_labels base role = insert "inference.llm.io/role" role (copy_into base [])

-- How Kubernetes reads a selector: each of its labels has that value.
unfoldable pub selects : Dict String → Dict String → Bool
selects [] labels = true
selects ((k, v) ∷ selector) labels = has (lookup k labels) v && selects selector labels
  where
    has : Option String → String → Bool
    has none v = false
    has (some w) v = text_eq w v

-- A role's selector finds the pods with the labels of that role of the cluster of that name, and
-- no pod of another role or of a cluster with another name.
pub selects-role_labels :
    (c d : Cluster) (r q : String)
    → (selects (role_labels (base_labels c) r) (role_labels (base_labels d) q) ≡ true)
      ↔ ((c.metadata.name ≡ d.metadata.name) × (r ≡ q))
unfolding selects role_labels base_labels lookup
selects-role_labels c d r q = (
  λ h. ground (arith, text_eq_iff d.metadata.name c.metadata.name, text_eq_iff q r),
  λ (same_name, same_role).
      ground (arith, text_eq_iff d.metadata.name c.metadata.name, text_eq_iff q r),
)
