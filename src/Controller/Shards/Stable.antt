-- ===== src/Controller/Shards/Stable.antt =====
-- The shard map does not depend on the order in which the API server lists the pods.
use mathlib.Core.List.Perm
use mathlib.Core.List.{filter}
use mathlib.Core.Bool.{Bool-discrete}
use llm_inference_operator.Base.{
  ℕ, List, [], ◌∷◌, Perm, ◌≡◌, ◌≢◌, refl, sym, ◌∙◌, Bool, true, arith, keep, inl, inr,
}
use llm_inference_operator.Base.Int.{ℤ, pos, negsuc}
use llm_inference_operator.Kube.{Pod}
use llm_inference_operator.Ring.Order.{new_ring-perm}
use llm_inference_operator.Controller.Shards.{is_pod_ready, pod_name, owner_names, build_shards}
use llm_inference_operator.Controller.Shards.Owners.{
  List-cases, owner_names_of_ready, owner_names_of_none, build_shards_lem,
}

keep-eq-filter :
    (p : Pod → Bool) (pods : List Pod) → keep p pods ≡ filter (λ x. Bool-discrete (p x) true) pods
keep-eq-filter p [] = refl
keep-eq-filter p (x ∷ pods) = ground (arith, keep-eq-filter p pods)

keep-perm : (p : Pod → Bool) {xs ys : List Pod} → Perm xs ys → Perm (keep p xs) (keep p ys)
keep-perm p {xs} {ys} e =
    rw (keep-eq-filter p xs, keep-eq-filter p ys) (Perm.filter (λ x. Bool-discrete (p x) true) e)

owner_names-perm : {xs ys : List Pod} → Perm xs ys → Perm (owner_names xs) (owner_names ys)
owner_names-perm {xs} {ys} e = elim (List-cases (keep is_pod_ready xs)) [
  | inl no_x ↦
      let no_y : keep is_pod_ready ys ≡ [] =
        Perm.eq-nil (Perm.symm (rw no_x at (keep-perm is_pod_ready e))) in
      rw (owner_names_of_none xs no_x, owner_names_of_none ys no_y) (Perm.map pod_name e)
  | inr some_x ↦
      let some_y : keep is_pod_ready ys ≢ [] =
        λ no_y. some_x (Perm.eq-nil (rw no_y at (keep-perm is_pod_ready e))) in
      rw (owner_names_of_ready xs some_x, owner_names_of_ready ys some_y)
        (Perm.map pod_name (keep-perm is_pod_ready e))
]

-- Two listings of the same pods, in whatever order each comes, give the same shards and the same
-- document (or the same panic, for a negative number of shards).
pub build_shards-perm :
    (xs ys : List Pod) (n : ℤ) (now : ℕ)
    → Perm xs ys
    → build_shards xs n now ≡ build_shards ys n now
build_shards-perm xs ys (pos n) now e =
    build_shards_lem xs n now
    ∙ rw (new_ring-perm (owner_names xs) (owner_names ys) (owner_names-perm e))
        (sym (build_shards_lem ys n now))
build_shards-perm xs ys (negsuc n) now e = unfold build_shards in refl
