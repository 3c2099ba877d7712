-- ===== src/Router/Pick.antt =====
-- `pickShardForConversation` (cmd/router/main.go).
pub mod Affinity
pub mod Published
use llm_inference_operator.Base.{ℕ, ◌%◌, String, List, [], ◌∷◌, if◌then◌else◌, bytes}
use llm_inference_operator.Base.Int.{ℤ, pos, ◌+ℤ◌, ltb_ℤ, wrap32, to_uint32, of_uint32}
use llm_inference_operator.Hash.{sum32}
use llm_inference_operator.ShardMap.{ShardAssignment, ShardMap}

-- The loop that finds the largest ID.
unfoldable pub max_shard_id : ℤ → List ShardAssignment → ℤ
max_shard_id best [] = best
max_shard_id best (s ∷ rest) =
    max_shard_id (if ltb_ℤ best s.shard_id then s.shard_id else best) rest

-- `int32(sum % uint32(maxShardID+1))`, and 0 where no ID is positive.
unfoldable pub shard_of_hash : ℕ → ℤ → ℤ
shard_of_hash sum max =
    if ltb_ℤ (pos 0) max then of_uint32 (sum % to_uint32 (wrap32 (max +ℤ pos 1))) else pos 0

unfoldable pub pick_shard_for_conversation : ShardMap → String → ℤ
unfolding max_shard_id shard_of_hash
pick_shard_for_conversation m conversation_id =
    shard_of_hash (sum32 (bytes conversation_id)) (max_shard_id (pos 0) m.shards)
