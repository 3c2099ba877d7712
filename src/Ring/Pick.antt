-- ===== src/Ring/Pick.antt =====
-- The node that `Pick` chooses.
use llm_inference_operator.Base.{
  ◌<◌, String, List, [], ◌∷◌, Mem, ◌≡◌, ◌≢◌, refl, ◌==◌, false, arith, length, get_or-mem, ◌∙◌,
  text_leb,
}
use llm_inference_operator.Base.Sort.{length-sort}
use llm_inference_operator.Base.Int.{ℤ}
use llm_inference_operator.Ring.{Ring, new_ring, empty, pick_index, pick}
use llm_inference_operator.Ring.Order.{new_ring-IsSorted}
use mathlib.Core.List.Perm

-- The index is in range, so the read cannot panic.
pub pick_index-lt : (r : Ring) (i : ℤ) → empty r ≡ false → pick_index r i < length r.nodes
unfolding pick_index empty
pick_index-lt r i h = ground arith

-- A ring that is not empty picks one of its own nodes.
pick-mem_nodes : (r : Ring) (i : ℤ) → empty r ≡ false → Mem (pick r i) r.nodes
unfolding pick empty
pick-mem_nodes r i h = rw h (get_or-mem r.nodes (pick_index r i) "" (pick_index-lt r i h))

-- A ring is empty exactly when it was made of no names.
pub empty-new_ring : (nodes : List String) → empty (new_ring nodes) ≡ (length nodes == 0)
unfolding empty new_ring
empty-new_ring nodes = rw (length-sort text_leb nodes)

new_ring-not_empty : (nodes : List String) → nodes ≢ [] → empty (new_ring nodes) ≡ false
new_ring-not_empty [] h = absurd (h refl)
new_ring-not_empty (x ∷ xs) h = empty-new_ring (x ∷ xs) ∙ ground arith

-- For a list of names that is not empty, the ring is not empty and picks one of the names.
pub pick-mem :
    (nodes : List String) (i : ℤ)
    → nodes ≢ []
    → (empty (new_ring nodes) ≡ false) × Mem (pick (new_ring nodes) i) nodes
pick-mem nodes i h =
    let filled : empty (new_ring nodes) ≡ false = new_ring-not_empty nodes h in
    (
      filled,
      (Perm.mem_iff (new_ring-IsSorted nodes).1).0 (pick-mem_nodes (new_ring nodes) i filled),
    )
