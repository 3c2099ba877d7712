-- ===== src/Router/Pick/Affinity.antt =====
-- The range of the shard that the router picks, and what the choice depends on.
use mathlib.Core.Path.{subst}
use mathlib.Core.List.{mem-cons_self, mem-cons_of_mem}
use llm_inference_operator.Base.{
  true, ℕ, zero, suc, ◌+◌, ◌%◌, ◌≤◌, ◌<◌, String, List, [], ◌∷◌, ◌≡◌, refl, Bool-cases, inl, inr,
  arith, All, bytes, Mem, ◌⊎◌, ap, ◌∙◌,
}
use llm_inference_operator.Base.Int.{
  ℤ, pos, negsuc, ◌+ℤ◌, ◌≤ℤ◌, ltb_ℤ, max_int32, wrap32, to_uint32, of_uint32,
}
use llm_inference_operator.Hash.{sum32}
use llm_inference_operator.ShardMap.{ShardAssignment, ShardMap}
use llm_inference_operator.Router.Pick.{max_shard_id, shard_of_hash, pick_shard_for_conversation}

max_shard_id_bounds :
    (best : ℤ) (l : List ShardAssignment)
    → pos 0 ≤ℤ best
    → best ≤ℤ max_int32
    → All (λ s. s.shard_id ≤ℤ max_int32) l
    → (pos 0 ≤ℤ max_shard_id best l) × (max_shard_id best l ≤ℤ max_int32)
unfolding max_shard_id
max_shard_id_bounds best [] lo hi h = (lo, hi)
max_shard_id_bounds best (s ∷ l) lo hi h = elim (Bool-cases (ltb_ℤ best s.shard_id)) [
  | inl larger ↦ rw larger (max_shard_id_bounds s.shard_id l (ground arith) h.0 h.1)
  | inr smaller ↦ rw smaller (max_shard_id_bounds best l lo hi h.1)
]

-- The modulus, also where the sum wraps.
modulus : (m : ℕ) → m ≤ 2147483647 → to_uint32 (wrap32 (pos (m + 1))) ≡ m + 1
unfolding wrap32 to_uint32 of_uint32
modulus m h = ground arith

of_uint32_small : (n m : ℕ) → n ≤ m → m ≤ 2147483647 → of_uint32 n ≡ pos n
unfolding of_uint32
of_uint32_small n m h k = ground arith

pub pos_sum : (m : ℕ) → pos m +ℤ pos 1 ≡ pos (m + 1)
unfolding ◌+ℤ◌
pos_sum m = ground arith

mod_le : (x m : ℕ) → x % (m + 1) ≤ m
mod_le x m = omega arith

pub shard_of_hash_pos :
    (sum m : ℕ) → 0 < m → m ≤ 2147483647 → shard_of_hash sum (pos m) ≡ pos (sum % (m + 1))
unfolding shard_of_hash
shard_of_hash_pos sum m p hi =
    let positive : ltb_ℤ (pos 0) (pos m) ≡ true = ground arith in
    rw (positive, pos_sum m, modulus m hi) (of_uint32_small (sum % (m + 1)) m (mod_le sum m) hi)

pub shard_of_hash_zero : (sum : ℕ) → shard_of_hash sum (pos 0) ≡ pos 0
unfolding shard_of_hash
shard_of_hash_zero sum = refl

shard_of_hash_bounds :
    (sum : ℕ) (max : ℤ)
    → pos 0 ≤ℤ max
    → max ≤ℤ max_int32
    → (pos 0 ≤ℤ shard_of_hash sum max) × (shard_of_hash sum max ≤ℤ max)
shard_of_hash_bounds sum (pos zero) lo hi = rw (shard_of_hash_zero sum) (omega arith, omega arith)
shard_of_hash_bounds sum (pos (suc m)) lo hi =
    rw (shard_of_hash_pos sum (suc m) (omega arith) (omega arith)) (omega arith, omega arith)
shard_of_hash_bounds sum (negsuc m) lo hi = absurd (omega arith)

-- The loop stops at the ID of a listed shard, or where it started.
max_shard_id-mem :
    (best : ℤ) (l : List ShardAssignment)
    → (max_shard_id best l ≡ best)
      ⊎ ((s : ShardAssignment) × Mem s l × (max_shard_id best l ≡ s.shard_id))
unfolding max_shard_id
max_shard_id-mem best [] = inl refl
max_shard_id-mem best (s ∷ l) = elim (Bool-cases (ltb_ℤ best s.shard_id)) [
  | inl larger ↦ rw larger (from_head (max_shard_id-mem s.shard_id l))
  | inr smaller ↦ rw smaller (from_tail (max_shard_id-mem best l))
]
  where
    from_head :
        {n : ℤ}
        → (n ≡ s.shard_id) ⊎ ((t : ShardAssignment) × Mem t l × (n ≡ t.shard_id))
        → (n ≡ best) ⊎ ((t : ShardAssignment) × Mem t (s ∷ l) × (n ≡ t.shard_id))
    from_head (inl e) = inr (s, mem-cons_self, e)
    from_head (inr (t, here, e)) = inr (t, mem-cons_of_mem s here, e)

    from_tail :
        {n : ℤ}
        → (n ≡ best) ⊎ ((t : ShardAssignment) × Mem t l × (n ≡ t.shard_id))
        → (n ≡ best) ⊎ ((t : ShardAssignment) × Mem t (s ∷ l) × (n ≡ t.shard_id))
    from_tail (inl e) = inl e
    from_tail (inr (t, here, e)) = inr (t, mem-cons_of_mem s here, e)

-- For IDs that fit an `int32`, the largest `int32` included, where the sum in the modulus wraps: the picked
-- shard is not negative, and it is 0 or at most the ID of a shard that the map lists.
pub pick_shard_bounds :
    (m : ShardMap) (conversation_id : String)
    → All (λ s. s.shard_id ≤ℤ max_int32) m.shards
    → (pos 0 ≤ℤ pick_shard_for_conversation m conversation_id)
      × ((pick_shard_for_conversation m conversation_id ≡ pos 0)
          ⊎ ((s : ShardAssignment) × Mem s m.shards
              × (pick_shard_for_conversation m conversation_id ≤ℤ s.shard_id)))
unfolding pick_shard_for_conversation
pick_shard_bounds m conversation_id h =
    let sum = sum32 (bytes conversation_id) in
    let best = max_shard_id (pos 0) m.shards in
    let range = max_shard_id_bounds (pos 0) m.shards (omega arith) (omega arith) h in
    let (lo, hi) = shard_of_hash_bounds sum best range.0 range.1 in
    (
      lo,
      elim (max_shard_id-mem (pos 0) m.shards) [
        | inl none_larger ↦ inl (ap (shard_of_hash sum) none_larger ∙ shard_of_hash_zero sum)
        | inr (s, listed, same) ↦
            inr (s, listed, subst (λ (x : ℤ). shard_of_hash sum best ≤ℤ x) same hi)
      ],
    )
