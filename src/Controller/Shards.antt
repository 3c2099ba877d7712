-- ===== src/Controller/Shards.antt =====
-- `computeShardMap` and `isPodReady` (internal/controller/llminferencecluster_controller.go).
pub mod Owners
pub mod Stable
use llm_inference_operator.Base.{
  ℕ, zero, suc, String, List, [], ◌∷◌, map, Bool, true, false, ◌&&◌, ◌||◌, if◌then◌else◌, keep,
  length, ◌==◌, deref, text_eq,
}
use llm_inference_operator.Base.Int.{ℤ, pos, negsuc, ◌+ℤ◌}
use llm_inference_operator.Base.Dict.{Dict}
use llm_inference_operator.Kube.{Pod, PodCondition, Outcome, ok, err, panic}
use llm_inference_operator.Kube.Client.{Client, M, pure, ◌>>=◌}
use llm_inference_operator.Cluster.{Cluster, ShardStatus, ShardPhase, pending, ready}
use llm_inference_operator.Ring.{Ring, new_ring, empty, pick}
use llm_inference_operator.Json.{Codec}
use llm_inference_operator.ShardMap.Doc.{ShardMapEntry, ShardMapDoc, json_of_doc}
use llm_inference_operator.Controller.Labels.{role_labels, role_decode}

-- The loop of `isPodReady`.
any_ready : List PodCondition → Bool
any_ready [] = false
any_ready (c ∷ cs) = (text_eq c.kind "Ready" && text_eq c.status "True") || any_ready cs

unfoldable pub is_pod_ready : Pod → Bool
unfolding any_ready
is_pod_ready p = any_ready p.conditions

abbrev pub pod_name : Pod → String
pod_name p = p.metadata.name

-- The list `ready`: the names of the ready pods, or of all pods where none is ready.
unfoldable pub owner_names : List Pod → List String
owner_names pods =
    let ready_names = map pod_name (keep is_pod_ready pods) in
    if length ready_names == 0 then map pod_name pods else ready_names

module _ (ring : Ring) (now : ℕ) where
  -- One round of the loop: the entry of the status and that of the document.
  unfoldable pub shard_status : ℤ → ShardStatus
  shard_status i = record {
    shard_id = i;
    role = role_decode;
    owner_pod = if empty ring then "" else pick ring i;
    phase = if empty ring then pending else ready;
    last_heartbeat = now;
  }

  unfoldable pub shard_entry : ℤ → ShardMapEntry
  shard_entry i = record {
    shard_id = i;
    role = role_decode;
    owner_pod = if empty ring then "" else pick ring i;
  }

  -- `for i := int32(0); i < numShards; i++`, by the rounds left.
  unfoldable pub shard_rounds : ℕ → ℤ → List ShardStatus × List ShardMapEntry
  unfolding shard_status shard_entry
  shard_rounds zero i = ([], [])
  shard_rounds (suc k) i =
      let (statuses, entries) = shard_rounds k (i +ℤ pos 1) in
      (shard_status i ∷ statuses, shard_entry i ∷ entries)

-- The statuses and the document for the pods; `make` panics at a negative capacity.
unfoldable pub build_shards : List Pod → ℤ → ℕ → Outcome (List ShardStatus × ShardMapDoc)
unfolding owner_names shard_rounds
build_shards pods (negsuc n) now = panic
build_shards pods (pos n) now =
    let (statuses, entries) = shard_rounds (new_ring (owner_names pods)) now n (pos 0) in
    ok (statuses, record { version = pos 1; shards = entries })

module _ (api : Client) (codec : Codec) where
  unfoldable pub lift : {A : Type 0} → Outcome A → M api.State A
  lift r s = (r, s)

  unfoldable pub read_clock : M api.State ℕ
  read_clock s = let (t, s') = api.now s in (ok t, s')

  unfoldable pub encode_shards :
      List ShardStatus × ShardMapDoc → M api.State (List ShardStatus × String)
  unfolding lift
  encode_shards (statuses, doc) = do
    text ← lift (codec.print (json_of_doc doc))
    pure (statuses, text)

  unfoldable pub place_shards : Cluster → List Pod → M api.State (List ShardStatus × String)
  unfolding build_shards lift read_clock encode_shards
  place_shards c pods = do
    now ← read_clock
    placed ← lift (build_shards pods (deref c.spec.kv_cache.num_shards (pos 8)) now)
    encode_shards placed

  -- `computeShardMap`
  unfoldable pub compute_shard_map : Cluster → Dict String → M api.State (List ShardStatus × String)
  unfolding place_shards
  compute_shard_map c base = do
    pods ← api.list_pods c.metadata.namespace (role_labels base role_decode)
    place_shards c pods
