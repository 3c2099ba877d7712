-- ===== src/Controller/Status/Marks.antt =====
-- What the conditions say after a reconcile that succeeded and after one that failed.
use llm_inference_operator.Base.{
  String, List, [], ◌∷◌, Option, none, some, ◌≡◌, ◌≢◌, sym, text_eq_of_ne, text_eq, if◌then◌else◌,
}
use llm_inference_operator.Kube.{Error, Condition}
use llm_inference_operator.Kube.Client.{Client}
use llm_inference_operator.Cluster.{Cluster}
use llm_inference_operator.Controller.Status.{
  condition_ready, condition_degraded, mark_ready, mark_degraded,
}

-- The status of the first condition of a kind (`meta.FindStatusCondition`).
abbrev pub status_of : String → List Condition → Option String
status_of kind [] = none
status_of kind (x ∷ xs) = if text_eq x.kind kind then some x.status else status_of kind xs

-- What `meta.SetStatusCondition` documents: the condition of that kind has the new status, and
-- those of other kinds stay.
abbrev pub IsSetCondition : (List Condition → Condition → List Condition) → Type 0
IsSetCondition set =
    (conditions : List Condition) (new : Condition) (kind : String)
    → status_of kind (set conditions new)
      ≡ (if text_eq new.kind kind then some new.status else status_of kind conditions)

module _ (api : Client) (lawful : IsSetCondition api.set_status_condition) where
  status_of-two :
      (conditions : List Condition) (x y : Condition) (kind : String)
      → kind ≢ x.kind
      → kind ≢ y.kind
      → status_of kind (api.set_status_condition (api.set_status_condition conditions x) y)
        ≡ status_of kind conditions
  status_of-two conditions x y kind h k = rw (
    lawful (api.set_status_condition conditions x) y kind,
    text_eq_of_ne y.kind kind (λ e. k (sym e)),
    lawful conditions x kind,
    text_eq_of_ne x.kind kind (λ e. h (sym e)),
  )

  -- Where `SetStatusCondition` sets the status of its kind and no other: after the marks of a success
  -- the cluster is Ready, not Degraded, and the status of every other condition is as it was.
  pub mark_ready_status :
      (c : Cluster) (s : api.State)
      → let marked = (mark_ready api c s).0.status.conditions in
        (status_of condition_ready marked ≡ some "True")
        × (status_of condition_degraded marked ≡ some "False")
        × ((kind : String)
            → kind ≢ condition_ready
            → kind ≢ condition_degraded
            → status_of kind marked ≡ status_of kind c.status.conditions)
  unfolding mark_ready
  mark_ready_status c s =
      (rw (lawful, lawful), rw lawful, λ kind h k. status_of-two c.status.conditions _ _ kind h k)

  -- Where `SetStatusCondition` sets the status of its kind and no other: after the marks of an error
  -- the cluster is not Ready but Degraded, and the status of every other condition is as it was.
  pub mark_degraded_status :
      (c : Cluster) (e : Error) (s : api.State)
      → let marked = (mark_degraded api c e s).0.status.conditions in
        (status_of condition_ready marked ≡ some "False")
        × (status_of condition_degraded marked ≡ some "True")
        × ((kind : String)
            → kind ≢ condition_ready
            → kind ≢ condition_degraded
            → status_of kind marked ≡ status_of kind c.status.conditions)
  unfolding mark_degraded
  mark_degraded_status c e s =
      (rw (lawful, lawful), rw lawful, λ kind h k. status_of-two c.status.conditions _ _ kind h k)
