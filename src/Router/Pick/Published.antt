-- ===== src/Router/Pick/Published.antt =====
-- The router's choice on the map that the operator publishes.
use llm_inference_operator.Base.{
  if◌then◌else◌, ℕ, zero, suc, ◌+◌, ◌%◌, ◌≤◌, ◌<◌, String, List, map, ◌≡◌, ◌∙◌, ap, arith, bytes,
}
use llm_inference_operator.Base.Int.{pos, ◌+ℤ◌, ltb_ℤ}
use llm_inference_operator.Hash.{sum32}
use llm_inference_operator.Kube.{Pod, ok}
use llm_inference_operator.Cluster.{ShardStatus}
use llm_inference_operator.Ring.{Ring, new_ring}
use llm_inference_operator.ShardMap.{ShardAssignment}
use llm_inference_operator.ShardMap.Doc.{ShardMapDoc, assignment_of}
use llm_inference_operator.ShardMap.RoundTrip.{map_of_doc}
use llm_inference_operator.Controller.Shards.{owner_names, shard_rounds, shard_entry, build_shards}
use llm_inference_operator.Controller.Shards.Owners.{build_shards_lem}
use llm_inference_operator.Router.Pick.{max_shard_id, shard_of_hash, pick_shard_for_conversation}
use llm_inference_operator.Router.Pick.Affinity.{pos_sum, shard_of_hash_pos, shard_of_hash_zero}

keeps_larger : (b i : ℕ) → b ≤ i → (if ltb_ℤ (pos b) (pos i) then pos i else pos b) ≡ pos i
keeps_larger b i h = ground arith

module _ (ring : Ring) (now : ℕ) where
  abbrev listed : ℕ → ℕ → List ShardAssignment
  listed k i = map assignment_of (shard_rounds ring now k (pos i)).1

  max-round :
      (k b i : ℕ)
      → b ≤ i
      → max_shard_id (pos b) (listed (suc k) i) ≡ max_shard_id (pos i) (listed k (i + 1))
  unfolding max_shard_id shard_rounds shard_entry
  max-round k b i h =
      ap
        (λ best. max_shard_id best (map assignment_of (shard_rounds ring now k (pos i +ℤ pos 1)).1))
        (keeps_larger b i h)
      ∙ ap (λ j. max_shard_id (pos i) (map assignment_of (shard_rounds ring now k j).1)) (pos_sum i)

  one_left : (i : ℕ) → max_shard_id (pos i) (listed 0 (i + 1)) ≡ pos (i + 0)
  unfolding max_shard_id shard_rounds
  one_left i = ap pos (omega arith)

  -- The largest of the IDs i, …, i + k.
  max-rounds : (k b i : ℕ) → b ≤ i → max_shard_id (pos b) (listed (suc k) i) ≡ pos (i + k)
  max-rounds zero b i h = max-round 0 b i h ∙ one_left i
  max-rounds (suc k) b i h =
      max-round (suc k) b i h ∙ max-rounds k i (i + 1) (omega arith) ∙ ap pos (omega arith)

shard_of_count : (sum k : ℕ) → k < 2147483648 → shard_of_hash sum (pos k) ≡ pos (sum % (k + 1))
shard_of_count sum zero h = shard_of_hash_zero sum ∙ ap pos (omega arith)
shard_of_count sum (suc k) h = shard_of_hash_pos sum (suc k) (omega arith) (omega arith)

suc_sum : (k : ℕ) → suc k ≡ k + 1
suc_sum k = omega arith

zero_sum : (k : ℕ) → 0 + k ≡ k
zero_sum k = omega arith

-- Where the operator publishes n shards, n from 1 to 2147483647, the router sends a conversation to
-- the shard numbered by the FNV-1a sum of its ID modulo n, whatever pods there are.
pub published_pick :
    (pods : List Pod) (n now : ℕ) (conversation_id : String)
    → 0 < n
    → n ≤ 2147483647
    → (r : List ShardStatus × ShardMapDoc) × (build_shards pods (pos n) now ≡ ok r)
      × (pick_shard_for_conversation (map_of_doc r.1) conversation_id
          ≡ pos (sum32 (bytes conversation_id) % n))
published_pick pods zero now conversation_id lo hi = absurd (omega arith)
published_pick pods (suc k) now conversation_id lo hi =
    let rounds = shard_rounds (new_ring (owner_names pods)) now (suc k) (pos 0) in
    (
      (rounds.0, record { version = pos 1; shards = rounds.1 }),
      build_shards_lem pods (suc k) now,
      unfold pick_shard_for_conversation in
          rw
            (
              max-rounds (new_ring (owner_names pods)) now k 0 0 (omega arith),
              zero_sum k,
              suc_sum k,
            )
            (shard_of_count (sum32 (bytes conversation_id)) k (omega arith)),
    )
