-- ===== src/ShardMap/Doc.antt =====
-- The document that the operator publishes (`shardMapDoc` and `shardMapEntry` in
-- internal/controller/llminferencecluster_controller.go) and its JSON.
use llm_inference_operator.Base.{String, List, [], ◌∷◌, text_eq, if◌then◌else◌}
use llm_inference_operator.Base.Int.{ℤ}
use llm_inference_operator.Json.{Json, num, str, obj, arr, Items, nil, cons, Fields, end, field}
use llm_inference_operator.ShardMap.{ShardAssignment}

-- `type shardMapEntry`
pub record ShardMapEntry : Type 0 where
  pub shard_id : ℤ
  pub role : String
  pub owner_pod : String

-- `type shardMapDoc`
pub record ShardMapDoc : Type 0 where
  pub version : ℤ
  pub shards : List ShardMapEntry

-- `ownerPod` has `omitempty`.
unfoldable pub json_of_owner : String → Fields
json_of_owner owner = if text_eq owner "" then end else field "ownerPod" (str owner) end

unfoldable pub json_of_entry : ShardMapEntry → Json
unfolding json_of_owner
json_of_entry e =
    obj (field "shardID" (num e.shard_id) (field "role" (str e.role) (json_of_owner e.owner_pod)))

unfoldable pub json_of_entries : List ShardMapEntry → Items
unfolding json_of_entry
json_of_entries [] = nil
json_of_entries (e ∷ es) = cons (json_of_entry e) (json_of_entries es)

-- The value that `json.Marshal(doc)` prints, by the tags of the struct.
unfoldable pub json_of_doc : ShardMapDoc → Json
unfolding json_of_entries
json_of_doc d =
    obj (field "version" (num d.version) (field "shards" (arr (json_of_entries d.shards)) end))

-- The same assignment, as the router's type has it.
abbrev pub assignment_of : ShardMapEntry → ShardAssignment
assignment_of e = record { shard_id = e.shard_id; role = e.role; owner_pod = e.owner_pod }
