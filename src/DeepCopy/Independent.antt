-- ===== src/DeepCopy/Independent.antt =====
-- Every deep copy stands for the same value as the original, and shares nothing with it.
use llm_inference_operator.Base.{◌≡◌, ◌∙◌, Option, some}
use llm_inference_operator.DeepCopy.Heap.{Read, Copy, Pointer, Heap, Agree, Holds, IsCopy}
use llm_inference_operator.DeepCopy.Pointers.{new-IsCopy}
use llm_inference_operator.DeepCopy.Structs.{cluster-IsCopy, cluster_list-IsCopy}
use llm_inference_operator.DeepCopy.Layout
use llm_inference_operator.DeepCopy.Layout.{
  Imports, in_memory, Cell, ModelLayout, WorkloadRoleLayout, RuntimeLayout, KvCacheLayout,
  RoutingLayout, SignalsLayout, AutoscalingLayout, SpecLayout, EndpointsLayout, ShardLayout,
  StatusLayout, ClusterLayout, ClusterListLayout,
}
use llm_inference_operator.DeepCopy.Imported.{Imported, IsImported, values}
use llm_inference_operator.DeepCopy.Into.{deep_copy, deep_copy_list}
use llm_inference_operator.DeepCopy.Meaning.{read_pointer, read_list_pointer}

copy_independent :
    {V A B : Type 0} {read : Read V A B} {copy : Copy V A}
    → IsCopy read copy
    → (a : A) (b : B) (h k l : Heap V) → Holds 0 h.next h (read a) b
    → Agree h.next (copy a h).1.next (copy a h).1 k
    → Agree 0 h.next (copy a h).1 l
    → (read (copy a h).0 k ≡ some b) × (read a l ≡ some b)
copy_independent copying a b h k l holds same_copy same_original =
    let c = copying.copied a b h holds in
    (c.holds k same_copy, holds l (λ q lo hi. same_original q lo hi ∙ c.keeps q lo hi))

module _ {I : Imports} (L : Imported I) (imported : IsImported L) where
  deep_copy-IsCopy : IsCopy (read_pointer L) (deep_copy L)
  unfolding deep_copy
  deep_copy-IsCopy = new-IsCopy Layout.cluster_cells (cluster-IsCopy L imported)

  deep_copy_list-IsCopy : IsCopy (read_list_pointer L) (deep_copy_list L)
  unfolding deep_copy_list
  deep_copy_list-IsCopy = new-IsCopy Layout.cluster_list_cells (cluster_list-IsCopy L imported)

  -- Where a pointer to a cluster, or nil, stands for a value by the allocated part of the heap, and the
  -- structs of apimachinery are copied deeply: after `DeepCopy` the copy stands for that value
  -- in every heap that has the cells which the copy allocated, whatever is written elsewhere; and
  -- the original stands for it in every heap that has the cells from before, whatever is
  -- written to the copy.
  pub deep_copy_independent :
      (p : Pointer) (v : Option (ClusterLayout (values L))) (h k l : Heap (Cell I))
      → Holds 0 h.next h (read_pointer L p) v
      → Agree h.next (deep_copy L p h).1.next (deep_copy L p h).1 k
      → Agree 0 h.next (deep_copy L p h).1 l
      → (read_pointer L (deep_copy L p h).0 k ≡ some v) × (read_pointer L p l ≡ some v)
  deep_copy_independent = copy_independent deep_copy-IsCopy

  -- The same for a list of clusters.
  pub deep_copy_list_independent :
      (p : Pointer) (v : Option (ClusterListLayout (values L))) (h k l : Heap (Cell I))
      → Holds 0 h.next h (read_list_pointer L p) v
      → Agree h.next (deep_copy_list L p h).1.next (deep_copy_list L p h).1 k
      → Agree 0 h.next (deep_copy_list L p h).1 l
      → (read_list_pointer L (deep_copy_list L p h).0 k ≡ some v)
        × (read_list_pointer L p l ≡ some v)
  deep_copy_list_independent = copy_independent deep_copy_list-IsCopy
