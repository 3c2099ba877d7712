-- ===== src/Controller/Shards/Owners.antt =====
-- Which shards there are, and which pod owns each.
use mathlib.Core.Path.{subst}
use mathlib.Core.List.{mem-cons, mem-cons_of_mem}
use mathlib.Core.Logic.Or
use llm_inference_operator.Base.Sort.{sort}
use llm_inference_operator.Base.{
  ℕ, zero, suc, ◌+◌, String, List, [], ◌∷◌, map, Mem, ◌≡◌, ◌≢◌, ◌⊎◌, refl, ap, ◌∙◌, Bool, false,
  arith, if◌then◌else◌, keep, length, ◌==◌, All, Bool-cases, inl, inr,
}
use llm_inference_operator.Base.Int.{ℤ, pos, ◌+ℤ◌}
use llm_inference_operator.Kube.{Pod, ok}
use llm_inference_operator.Cluster.{ShardStatus, pending, ready}
use llm_inference_operator.Ring.{Ring, new_ring, empty, pick}
use llm_inference_operator.Ring.Pick.{pick-mem}
use llm_inference_operator.ShardMap.Doc.{ShardMapEntry, ShardMapDoc}
use llm_inference_operator.Controller.Labels.{role_decode}
use llm_inference_operator.Controller.Shards.{
  is_pod_ready, pod_name, owner_names, shard_status, shard_entry, shard_rounds, build_shards,
}

-- The entry of the document for a shard of the status.
abbrev pub entry_of : ShardStatus → ShardMapEntry
entry_of s = record { shard_id = s.shard_id; role = s.role; owner_pod = s.owner_pod }

-- The IDs i, i + 1, …, of which there are k.
abbrev pub ids : ℕ → ℕ → List ℤ
ids zero i = []
ids (suc k) i = pos i ∷ ids k (i + 1)

pos-succ : (i : ℕ) → pos i +ℤ pos 1 ≡ pos (i + 1)
unfolding ◌+ℤ◌
pos-succ i = ground arith

module _ (ring : Ring) (now : ℕ) where
  rounds-ids : (k i : ℕ) → map (λ s. s.shard_id) (shard_rounds ring now k (pos i)).0 ≡ ids k i
  unfolding shard_rounds
  rounds-ids zero i = refl
  rounds-ids (suc k) i = rw pos-succ (ap (◌∷◌ (pos i)) (rounds-ids k (i + 1)))

  rounds-entries :
      (k i : ℕ)
      → (shard_rounds ring now k (pos i)).1 ≡ map entry_of (shard_rounds ring now k (pos i)).0
  unfolding shard_rounds
  rounds-entries zero i = refl
  rounds-entries (suc k) i =
      rw pos-succ (ap (◌∷◌ (shard_entry ring now (pos i))) (rounds-entries k (i + 1)))

  rounds-All :
      (P : ShardStatus → Type 0)
      → ((i : ℤ) → P (shard_status ring now i))
      → (k : ℕ) (i : ℤ) → All P (shard_rounds ring now k i).0
  unfolding shard_rounds
  rounds-All P h zero i = tt
  rounds-All P h (suc k) i = (h i, rounds-All P h k (i +ℤ pos 1))

-- What the loop says of one shard, for the pods it was run on.
pub record IsOwned (pods : List Pod) (s : ShardStatus) : Type 0 where
  -- no pod: no owner, and the shard is pending
  pub orphan : pods ≡ [] → (s.owner_pod ≡ "") × (s.phase ≡ pending)
  -- some pod: the owner is a listed pod, and the shard is ready
  pub owner : pods ≢ [] → (s.phase ≡ ready) × Mem s.owner_pod (map pod_name pods)
  -- some ready pod: the owner is a ready pod
  pub ready_owner :
      keep is_pod_ready pods ≢ [] → Mem s.owner_pod (map pod_name (keep is_pod_ready pods))
  pub is_decode : s.role ≡ role_decode

choose_names : List Pod → List Pod → List String
choose_names ready_pods pods =
    let names = map pod_name ready_pods in if length names == 0 then map pod_name pods else names

choose_some : (r pods : List Pod) → r ≢ [] → choose_names r pods ≡ map pod_name r
unfolding choose_names
choose_some [] pods h = absurd (h refl)
choose_some (p ∷ r) pods h = ground arith

map-ne_nil : (pods : List Pod) → pods ≢ [] → map pod_name pods ≢ []
map-ne_nil [] h e = h refl
map-ne_nil (p ∷ pods) h e = cc

pub List-cases {ℓ} : {A : Type ℓ} (xs : List A) → (xs ≡ []) ⊎ (xs ≢ [])
List-cases [] = inl refl
List-cases (x ∷ xs) = inr (λ e. cc)

owner_names-lem : (pods : List Pod) → owner_names pods ≡ choose_names (keep is_pod_ready pods) pods
unfolding owner_names choose_names
owner_names-lem pods = refl

pub owner_names_of_ready :
    (pods : List Pod)
    → keep is_pod_ready pods ≢ []
    → owner_names pods ≡ map pod_name (keep is_pod_ready pods)
owner_names_of_ready pods h = owner_names-lem pods ∙ choose_some (keep is_pod_ready pods) pods h

pub owner_names_of_none :
    (pods : List Pod) → keep is_pod_ready pods ≡ [] → owner_names pods ≡ map pod_name pods
unfolding choose_names
owner_names_of_none pods e = owner_names-lem pods ∙ rw e

keep-ne_nil : (pods : List Pod) → keep is_pod_ready pods ≢ [] → pods ≢ []
keep-ne_nil [] h e = h refl
keep-ne_nil (p ∷ pods) h e = cc

mem-keep :
    (p : Pod → Bool) (pods : List Pod) {a : String}
    → Mem a (map pod_name (keep p pods))
    → Mem a (map pod_name pods)
mem-keep p [] m = m
mem-keep p (x ∷ pods) m = elim (Bool-cases (p x)) [
  | inl e ↦
      Or.elim (hlevel) (mem-cons.0 (rw e at m)) (λ same. mem-cons.1 (Or.inl same))
        (λ later. mem-cons_of_mem (pod_name x) (mem-keep p pods later))
  | inr e ↦ mem-cons_of_mem (pod_name x) (mem-keep p pods (rw e at m))
]

owner_names-some :
    (pods : List Pod)
    → pods ≢ []
    → (owner_names pods ≢ [])
      × ((a : String) → Mem a (owner_names pods) → Mem a (map pod_name pods))
owner_names-some pods h = elim (List-cases (keep is_pod_ready pods)) [
  | inl e ↦ rw (owner_names_of_none pods e) (map-ne_nil pods h, λ a m. m)
  | inr some_ready ↦
      rw (owner_names_of_ready pods some_ready)
        (map-ne_nil (keep is_pod_ready pods) some_ready, λ a m. mem-keep is_pod_ready pods m)
]

module _ (pods : List Pod) (now : ℕ) where
  abbrev ring : Ring
  ring = new_ring (owner_names pods)

  status_of_filled :
      (i : ℤ)
      → empty ring ≡ false
      → ((shard_status ring now i).owner_pod ≡ pick ring i)
        × ((shard_status ring now i).phase ≡ ready)
  unfolding shard_status
  status_of_filled i e = rw e (refl, refl)

  orphan_status :
      (i : ℤ)
      → ((shard_status (new_ring (owner_names [])) now i).owner_pod ≡ "")
        × ((shard_status (new_ring (owner_names [])) now i).phase ≡ pending)
  unfolding shard_status owner_names new_ring empty sort
  orphan_status i = (refl, refl)

  shard_status-IsOwned : (i : ℤ) → IsOwned pods (shard_status ring now i)
  shard_status-IsOwned i = record {
    orphan = λ e. rw e (orphan_status i);
    owner = λ h.
        let names = owner_names-some pods h in
        let chosen = pick-mem (owner_names pods) i names.0 in
        let st = status_of_filled i chosen.0 in (st.1, rw st.0 (names.1 (pick ring i) chosen.1));
    ready_owner = λ h.
        let names = owner_names-some pods (keep-ne_nil pods h) in
        let chosen = pick-mem (owner_names pods) i names.0 in
        rw (status_of_filled i chosen.0).0
          (subst (λ names. Mem (pick ring i) names) (owner_names_of_ready pods h) chosen.1);
    is_decode = unfold shard_status in refl;
  }

pub build_shards_lem :
    (pods : List Pod) (n now : ℕ)
    → let rounds = shard_rounds (new_ring (owner_names pods)) now n (pos 0) in
      build_shards pods (pos n) now ≡ ok (rounds.0, record { version = pos 1; shards = rounds.1 })
unfolding build_shards
build_shards_lem pods n now = refl

-- With n shards asked for, the published shards are numbered 0 to n - 1 in order, the document holds
-- the same IDs, roles and owners as the status, under version 1, and each shard is owned as
-- `IsOwned` says. There is such a result for every list of pods.
pub build_shards-IsOwned :
    (pods : List Pod) (n now : ℕ)
    → (r : List ShardStatus × ShardMapDoc) × (build_shards pods (pos n) now ≡ ok r)
      × (map (λ s. s.shard_id) r.0 ≡ ids n 0)
      × (r.1 ≡ record { version = pos 1; shards = map entry_of r.0 })
      × All (IsOwned pods) r.0
build_shards-IsOwned pods n now =
    let ring = new_ring (owner_names pods) in
    let rounds = shard_rounds ring now n (pos 0) in
    (
      (rounds.0, record { version = pos 1; shards = rounds.1 }),
      build_shards_lem pods n now,
      rounds-ids ring now n 0,
      ap
          (λ (l : List ShardMapEntry).
            let d : ShardMapDoc = record { version = pos 1; shards = l } in d)
          (rounds-entries ring now n 0),
      rounds-All ring now (IsOwned pods) (shard_status-IsOwned pods now) n (pos 0),
    )
