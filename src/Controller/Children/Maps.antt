-- ===== src/Controller/Children/Maps.antt =====
-- What a reconcile leaves in the two ConfigMaps.
use llm_inference_operator.Base.{
  String, Option, none, some, ◌≡◌, ◌∙◌, ap, Bool, true, false, arith, text_eq, text_eq_iff,
  if◌then◌else◌, ◌||◌, sym, Bool-cases, Option-cases, ◌⊎◌, inl, inr,
}
use llm_inference_operator.Base.Dict.{Dict, lookup, lookup-insert}
use llm_inference_operator.Kube.{Outcome, ok, err, panic, ObjectMeta, ConfigMap}
use llm_inference_operator.Kube.Client.{Client, and_then}
use llm_inference_operator.Cluster.{Cluster}
use llm_inference_operator.Controller.Children.{
  own, insert_missing, map_or_empty, mutate_signals, mutate_shard_map,
}

-- A mutate function that succeeds returns what it builds on the metadata with the owner.
pub own-eq_ok :
    (api : Client) (c : Cluster) {A : Type 0} (m : ObjectMeta) (rebuild : ObjectMeta → A) {a : A}
    → own api c m rebuild ≡ ok a
    → (m' : ObjectMeta) × (a ≡ rebuild m')
unfolding own
own-eq_ok api c {A} m rebuild {a} h = go (api.set_controller_reference c.metadata m) h
  where
    go :
        (r : Outcome ObjectMeta)
        → and_then r (λ m'. ok (rebuild m')) ≡ ok a
        → (m' : ObjectMeta) × (a ≡ rebuild m')
    go (ok m') e = (m', cc)
    go (err x) e = cc
    go panic e = cc

-- The value that is there, or else the other.
abbrev pub or_other {ℓ} : {A : Type ℓ} → Option A → Option A → Option A
or_other (some a) o = some a
or_other none o = o

lookup-insert_missing :
    (k j v : String) (m : Dict String)
    → lookup j (insert_missing k v m) ≡ or_other (lookup j m) (if text_eq k j then some v else none)
unfolding insert_missing
lookup-insert_missing k j v m = elim (Option-cases (lookup k m)) [
  | inl missing ↦
      rw (missing, insert_missing)
        (lookup-insert k j v m ∙ absent (Bool-cases (text_eq k j)) missing)
  | inr (w, found) ↦ rw (found, insert_missing) (present (Bool-cases (text_eq k j)) w found)
]
  where
    absent :
        (text_eq k j ≡ true) ⊎ (text_eq k j ≡ false)
        → lookup k m ≡ none
        → (if text_eq k j then some v else lookup j m)
          ≡ or_other (lookup j m) (if text_eq k j then some v else none)
    absent (inl same) missing =
        rw (same, ap (λ (i : String). lookup i m) (sym ((text_eq_iff k j).0 same)) ∙ missing)
    absent (inr other) missing = rw other (ground arith)

    present :
        (text_eq k j ≡ true) ⊎ (text_eq k j ≡ false)
        → (w : String) → lookup k m ≡ some w
        → lookup j m ≡ or_other (lookup j m) (if text_eq k j then some v else none)
    present (inl same) w found =
        rw (ap (λ (i : String). lookup i m) (sym ((text_eq_iff k j).0 same)) ∙ found)
    present (inr other) w found = rw other (ground arith)

-- The keys of the signals.
abbrev pub is_signal : String → Bool
is_signal k = text_eq "queueDepth" k || text_eq "tokensPerSecond" k || text_eq "memPressure" k

merge_signals :
    (old : Option String) (q t m : Bool)
    → or_other
        (or_other (or_other old (if q then some "0" else none)) (if t then some "0" else none))
        (if m then some "0" else none)
      ≡ or_other old (if q || t || m then some "0" else none)
merge_signals old q t m = ground arith

-- Where the mutate function of the signals ConfigMap succeeds, it overwrites nothing: a key that is there keeps its value. A
-- signal that is missing gets "0", and no other key is added.
pub mutate_signals-lookup :
    (api : Client) (c : Cluster) (base : Dict String) (cm : ConfigMap) {cm' : ConfigMap}
    → mutate_signals api c base cm ≡ ok cm'
    → (k : String)
    → lookup k (map_or_empty cm'.entries)
      ≡ or_other (lookup k (map_or_empty cm.entries)) (if is_signal k then some "0" else none)
unfolding mutate_signals
mutate_signals-lookup api c base cm {cm'} h k =
    let built = own-eq_ok api c _ _ h in
    ap (λ (x : ConfigMap). lookup k (map_or_empty x.entries)) built.1
    ∙ simp lookup-insert_missing (merge_signals (lookup k (map_or_empty cm.entries)) _ _ _)

-- Where the mutate function of the shard map ConfigMap succeeds, it writes the document under its key
-- and leaves every other key alone.
pub mutate_shard_map-lookup :
    (api : Client) (c : Cluster) (base : Dict String) (text : String) (cm : ConfigMap)
    {cm' : ConfigMap}
    → mutate_shard_map api c base text cm ≡ ok cm'
    → (k : String)
    → lookup k (map_or_empty cm'.entries)
      ≡ (if text_eq "shardmap.json" k then some text else lookup k (map_or_empty cm.entries))
unfolding mutate_shard_map
mutate_shard_map-lookup api c base text cm {cm'} h k =
    let built = own-eq_ok api c _ _ h in
    ap (λ (x : ConfigMap). lookup k (map_or_empty x.entries)) built.1
    ∙ lookup-insert "shardmap.json" k text (map_or_empty cm.entries)
