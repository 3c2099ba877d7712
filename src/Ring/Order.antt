-- ===== src/Ring/Order.antt =====
-- What `NewRing` does with the order of the names that it is given.
use llm_inference_operator.Base.{
  String, List, Perm, ◌≡◌, ap, text_leb, text_leb-total, text_leb_trans, text_leb_antisymm,
}
use llm_inference_operator.Base.Sort.{sort, sort-perm, sort-IsSorted, IsSorted, IsSorted-unique}
use llm_inference_operator.Ring.{Ring, new_ring}
use mathlib.Core.List.Perm

-- A ring holds exactly the names that it was made of, in ascending order.
pub new_ring-IsSorted :
    (nodes : List String)
    → IsSorted text_leb (new_ring nodes).nodes × Perm (new_ring nodes).nodes nodes
unfolding new_ring
new_ring-IsSorted nodes =
    (sort-IsSorted text_leb text_leb-total text_leb_trans nodes, sort-perm text_leb nodes)

-- Two lists of the same names, in whatever order each comes, make the same ring.
pub new_ring-perm : (xs ys : List String) → Perm xs ys → new_ring xs ≡ new_ring ys
unfolding new_ring
new_ring-perm xs ys e =
    ap (λ (nodes : List String). let r : Ring = record { nodes = nodes } in r)
      (IsSorted-unique text_leb text_leb-total text_leb_antisymm (sort text_leb xs)
        (sort text_leb ys) (sort-IsSorted text_leb text_leb-total text_leb_trans xs)
        (sort-IsSorted text_leb text_leb-total text_leb_trans ys)
        (Perm.trans (sort-perm text_leb xs) (Perm.trans e (Perm.symm (sort-perm text_leb ys)))))
