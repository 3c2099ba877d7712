-- ===== src/Router/Running/Shards.antt =====
-- The shards that requests are sent to while the router runs.
use mathlib.Core.Path.{subst}
use llm_inference_operator.Base.{
  ◌≡◌, refl, ap, ◌∙◌, sym, String, List, [], Option, none, some, ℕ, zero, suc, ◌<◌, ◌≤◌, ◌%◌, ◌+◌,
  ◌==◌, length, bytes, Bool-cases, ◌⊎◌, inl, inr, All, arith,
}
use llm_inference_operator.Base.Int.{pos, itoa, IsInt32}
use llm_inference_operator.Kube.{Outcome, ok, err, panic, ConfigMap, Pod}
use llm_inference_operator.Kube.Client.{Client, pure, resume}
use llm_inference_operator.Json.{Codec, IsCodec}
use llm_inference_operator.Cluster.{ShardStatus}
use llm_inference_operator.Hash.{sum32}
use llm_inference_operator.Ring.{Ring, new_ring}
use llm_inference_operator.ShardMap.{ShardMap, parse_shard_map_json}
use llm_inference_operator.ShardMap.Doc.{ShardMapDoc, json_of_doc}
use llm_inference_operator.ShardMap.RoundTrip.{map_of_doc, parse_shard_map_json-json_of_doc}
use llm_inference_operator.Controller.Shards.{owner_names, shard_rounds, shard_entry, build_shards}
use llm_inference_operator.Controller.Shards.Owners.{build_shards_lem}
use llm_inference_operator.Router.Pick.{pick_shard_for_conversation}
use llm_inference_operator.Router.Pick.Affinity.{pos_sum}
use llm_inference_operator.Router.Pick.Published.{published_pick}
use llm_inference_operator.Router.Poll.{Polled, count_error, store, raw_map, take_map, poll_tick}
use llm_inference_operator.Router.Running.{Running, Step, ticked, served, Run, started, later}
use llm_inference_operator.Router.Handler.{Http, shard_for}
use llm_inference_operator.Router.Handler.Chosen.{Chosen, handle-Chosen}

-- What one tick does to the map.
poll_tick-target :
    (api : Client) (codec : Codec) (namespace name : String) (p q : Polled) (s t : api.State)
    → poll_tick api codec namespace name p s ≡ (ok q, t)
    → (q.target ≡ p.target)
      ⊎ ((cm : ConfigMap) × (m : ShardMap) × ((api.get_config_map namespace name s).0 ≡ ok cm)
          × (parse_shard_map_json codec (raw_map cm) ≡ ok m)
          × (q.target ≡ some m))
unfolding poll_tick take_map
poll_tick-target api codec namespace name p q s t h =
    fetched (api.get_config_map namespace name s) refl h
  where
    parsed :
        (cm : ConfigMap) (u : api.State)
        → (api.get_config_map namespace name s).0 ≡ ok cm
        → (o : Outcome ShardMap) → parse_shard_map_json codec (raw_map cm) ≡ o
        → resume (λ e. pure (count_error p)) (λ m. pure (store m p)) (o, u) ≡ (ok q, t)
        → (q.target ≡ p.target)
          ⊎ ((cm : ConfigMap) × (m : ShardMap) × ((api.get_config_map namespace name s).0 ≡ ok cm)
              × (parse_shard_map_json codec (raw_map cm) ≡ ok m)
              × (q.target ≡ some m))
    parsed cm u got (ok m) e k =
        let same : store m p ≡ q = cc in
        inr (cm, m, got, e, ap (λ (x : Polled). x.target) (sym same))
    parsed cm u got (err x) e k =
        let same : count_error p ≡ q = cc in inl (ap (λ (x : Polled). x.target) (sym same))
    parsed cm u got panic e k = cc

    fetched :
        (r : Outcome ConfigMap × api.State)
        → api.get_config_map namespace name s ≡ r
        → resume (λ e. pure (count_error p)) (take_map api codec namespace name p) r ≡ (ok q, t)
        → (q.target ≡ p.target)
          ⊎ ((cm : ConfigMap) × (m : ShardMap) × ((api.get_config_map namespace name s).0 ≡ ok cm)
              × (parse_shard_map_json codec (raw_map cm) ≡ ok m)
              × (q.target ≡ some m))
    fetched (ok cm, u) e k =
        parsed cm u (ap (λ r. r.0) e) (parse_shard_map_json codec (raw_map cm)) refl k
    fetched (err x, u) e k =
        let same : count_error p ≡ q = cc in inl (ap (λ (x : Polled). x.target) (sym same))
    fetched (panic, u) e k = cc

pub rounds-IsInt32 :
    (ring : Ring) (now k i : ℕ)
    → i + k ≤ 2147483648
    → All (λ e. IsInt32 e.shard_id) (shard_rounds ring now k (pos i)).1
unfolding shard_rounds shard_entry
rounds-IsInt32 ring now zero i h = tt
rounds-IsInt32 ring now (suc k) i h =
    rw (pos_sum i) ((omega arith, omega arith), rounds-IsInt32 ring now k (i + 1) (omega arith))

ok-injective : {A : Type 0} {a b : A} → ◌≡◌ {A = Outcome A} (ok a) (ok b) → a ≡ b
ok-injective h = cc

suc_sum : (m : ℕ) → suc m ≡ m + 1
suc_sum m = omega arith

mod_lt : (x n : ℕ) → 0 < n → x % n < n
mod_lt x zero h = absurd (omega arith)
mod_lt x (suc m) h = let less : x % (m + 1) < m + 1 = omega arith in rw (suc_sum m) less

module _ (api : Client) (codec : Codec) (n : ℕ) where
  -- The ConfigMap that the operator writes for n shards, at some time and for some pods.
  pub record IsPublished (cm : ConfigMap) : Type 0 where
    pub pods : List Pod
    pub time : ℕ
    pub built : List ShardStatus × ShardMapDoc
    pub built_lem : build_shards pods (pos n) time ≡ ok built
    pub text : String
    pub text_lem : codec.print (json_of_doc built.1) ≡ ok text
    pub written : raw_map cm ≡ text

  -- Whatever the conversation, its shard is one of the n.
  abbrev IsWithin : Option ShardMap → Type 0
  IsWithin current = (id : String) → (k : ℕ) × (k < n) × (shard_for current id ≡ pos k)

  module _ (lawful : IsCodec codec) (some_shard : 0 < n) (small : n ≤ 2147483647) where
    published-IsWithin :
        (cm : ConfigMap) (m : ShardMap)
        → IsPublished cm
        → parse_shard_map_json codec (raw_map cm) ≡ ok m
        → IsWithin (some m)
    unfolding shard_for
    published-IsWithin cm m published parsed id =
        let (r, r_built, picked) =
          published_pick published.pods n published.time id some_shard small in
        let rounds =
          shard_rounds (new_ring (owner_names published.pods)) published.time n (pos 0) in
        let doc : ShardMapDoc = record { version = pos 1; shards = rounds.1 } in
        let whole = build_shards_lem published.pods n published.time in
        let same_r : r ≡ (rounds.0, doc) = ok-injective (sym r_built ∙ whole) in
        let same_built : published.built ≡ (rounds.0, doc) =
          ok-injective (sym published.built_lem ∙ whole) in
        let printed : codec.print (json_of_doc doc) ≡ ok published.text =
          ap (λ (x : List ShardStatus × ShardMapDoc). codec.print (json_of_doc x.1))
            (sym same_built)
          ∙ published.text_lem in
        let read =
          parse_shard_map_json-json_of_doc codec lawful doc published.text (omega arith)
            (omega arith)
            (rounds-IsInt32 (new_ring (owner_names published.pods)) published.time n 0
              (omega arith))
            printed in
        let both = sym parsed ∙ ap (parse_shard_map_json codec) published.written ∙ read in
        let same_map = ok-injective both in
        let chosen : pick_shard_for_conversation m id ≡ pos (sum32 (bytes id) % n) =
          ap (λ (x : ShardMap). pick_shard_for_conversation x id)
            (same_map ∙ ap (λ (x : List ShardStatus × ShardMapDoc). map_of_doc x.1) (sym same_r))
          ∙ picked in
        elim (Bool-cases (length m.shards == 0)) [
          | inl empty ↦ (0, some_shard, rw empty refl)
          | inr listed ↦
              (sum32 (bytes id) % n, mod_lt (sum32 (bytes id)) n some_shard, rw listed chosen)
        ]

    none-IsWithin : IsWithin none
    unfolding shard_for
    none-IsWithin id = (0, some_shard, refl)

    module _ (http : Http) (namespace name dns : String)
        (published : (cm : ConfigMap) (s : api.State)
          → (api.get_config_map namespace name s).0 ≡ ok cm
          → IsPublished cm) where
      abbrev Process : Type 0
      Process = Running api codec http namespace name dns

      -- The labels of the shards that were counted are numbers below n.
      abbrev pub AllWithin : List String → Type 0
      AllWithin labels = All (λ (label : String). (k : ℕ) × (k < n) × (label ≡ itoa (pos k))) labels

      IsSound : Process → Type 0
      IsSound r = IsWithin r.polled.target × AllWithin r.metrics.chosen_shard

      Step-IsSound :
          {r t : Process} → Step api codec http namespace name dns r t → IsSound r → IsSound t
      unfolding IsSound
      Step-IsSound (ticked r p u e) (within, counted) =
          elim (poll_tick-target api codec namespace name r.polled p r.api_state u e) [
            | inl same ↦ (subst IsWithin (sym same) within, counted)
            | inr (cm, m, got, parsed, stored) ↦ (
              subst IsWithin (sym stored)
                  (published-IsWithin cm m (published cm r.api_state got) parsed),
              counted,
            )
          ]
      Step-IsSound (served r incoming reply s metrics e) (within, counted) =
          let handled =
            subst (Chosen http r.polled.target r.metrics.chosen_shard) e
              (handle-Chosen http dns codec r.polled.target incoming r.http_state r.metrics) in
          elim handled [
            | inl same ↦ (within, subst AllWithin (sym same) counted)
            | inr (id, grew) ↦
                let (k, less, chosen) = within id in
                (within, subst AllWithin (sym grew) ((k, less, ap itoa chosen), counted))
          ]

      run-IsSound :
          {r t : Process} → Run api codec http namespace name dns r t → IsSound r → IsSound t
      run-IsSound (started r) sound = sound
      run-IsSound (later q r s before step) sound = Step-IsSound step (run-IsSound before sound)

      -- Where the text level of JSON reads back what it prints, n is from 1 to 2147483647, and every ConfigMap
      -- that the router can read holds the text that the operator writes for n shards, at whatever time
      -- and for whatever pods: however ticks of the polling loop and requests alternate after
      -- the start without a map, each shard that the router has sent a request to, as its counts have them, is
      -- one of the numbers below n.
      pub run-AllWithin :
          (r t : Process)
          → r.polled.target ≡ none
          → r.metrics.chosen_shard ≡ []
          → Run api codec http namespace name dns r t
          → AllWithin t.metrics.chosen_shard
      unfolding IsSound
      run-AllWithin r t no_map no_counts run =
          (run-IsSound run
            (subst IsWithin (sym no_map) none-IsWithin, subst AllWithin (sym no_counts) tt)).1
