-- ===== src/Ring.antt =====
-- internal/routing/consistenthash.go: the ring that maps a shard to a pod.
pub mod Order
pub mod Pick
use llm_inference_operator.Base.{
  ℕ, ◌%◌, String, List, Bool, length, get_or, ◌==◌, if◌then◌else◌, text_leb, bytes,
}
use llm_inference_operator.Base.Int.{ℤ, itoa}
use llm_inference_operator.Base.Sort.{sort}
use llm_inference_operator.Hash.{sum32}

-- `type Ring struct`
pub record Ring : Type 0 where
  pub nodes : List String

-- `NewRing` copies the names and sorts the copy.
unfoldable pub new_ring : List String → Ring
new_ring nodes = record { nodes = sort text_leb nodes }

-- `(*Ring).Empty`
unfoldable pub empty : Ring → Bool
empty r = length r.nodes == 0

-- `int(h.Sum32()) % len(r.nodes)`, where `int` has 64 bits.
unfoldable pub pick_index : Ring → ℤ → ℕ
pick_index r shard_id = sum32 (bytes (itoa shard_id)) % length r.nodes

-- `(*Ring).Pick`
unfoldable pub pick : Ring → ℤ → String
unfolding pick_index
pick r shard_id = if length r.nodes == 0 then "" else get_or r.nodes (pick_index r shard_id) ""
