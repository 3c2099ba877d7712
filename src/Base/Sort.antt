-- ===== src/Base/Sort.antt =====
-- Sorting by a Boolean order, and why the ascending order of a list is unique.
use mathlib.Core.Logic.Or
use mathlib.Core.List.{mem-cons, mem-cons_self, mem-cons_of_mem, not-mem-nil}
use mathlib.Core.List.Perm
use mathlib.Core.Path.{◌≡◌, refl, ap₂, ap, ◌∙◌}
use Prim.Native.Nat.{suc}
use native.Mathlib.Omega.{arith}
use mathlib.Core.Bool.{Bool, true, false}
use mathlib.Core.List.{List, [], ◌∷◌, Mem, Perm}
use mathlib.Core.Logic.{inl, inr}
use llm_inference_operator.Base.Tests.{if◌then◌else◌, Bool-cases}
use llm_inference_operator.Base.Lists.{All, length}

module _ {ℓ} {A : Type ℓ} where
  pub All-mem :
      (p : A → Bool) {a : A} (xs : List A) → All (λ x. p x ≡ true) xs → Mem a xs → p a ≡ true
  All-mem p [] h m = absurd (not-mem-nil m)
  All-mem p (x ∷ xs) h m =
      Or.elim (hlevel) (mem-cons.0 m) (λ e. rw e h.0) (λ later. All-mem p xs h.1 later)

  pub All-of_mem {κ} : (P : A → Type κ) (xs : List A) → ((a : A) → Mem a xs → P a) → All P xs
  All-of_mem P [] h = tt
  All-of_mem P (x ∷ xs) h = (h x mem-cons_self, All-of_mem P xs (λ a m. h a (mem-cons_of_mem x m)))

  pub All-perm :
      (p : A → Bool) {xs ys : List A}
      → Perm xs ys
      → All (λ x. p x ≡ true) xs
      → All (λ x. p x ≡ true) ys
  All-perm p {xs} {ys} e h = All-of_mem _ ys (λ a m. All-mem p xs h ((Perm.mem_iff e).1 m))

module _ {ℓ} {A : Type ℓ} (le : A → A → Bool) where
  insert_sorted : A → List A → List A
  insert_sorted x [] = x ∷ []
  insert_sorted x (y ∷ ys) = if le x y then x ∷ y ∷ ys else y ∷ insert_sorted x ys

  unfoldable pub sort : List A → List A
  unfolding insert_sorted
  sort [] = []
  sort (x ∷ xs) = insert_sorted x (sort xs)

  -- Every element is at most each one after it.
  abbrev pub IsSorted : List A → Type 0
  IsSorted [] = Unit
  IsSorted (x ∷ xs) = All (λ y. le x y ≡ true) xs × IsSorted xs

  insert_sorted-perm : (x : A) (xs : List A) → Perm (insert_sorted x xs) (x ∷ xs)
  unfolding insert_sorted
  insert_sorted-perm x [] = Perm.rfl
  insert_sorted-perm x (y ∷ ys) = elim (Bool-cases (le x y)) [
    | inl first ↦ rw first Perm.rfl
    | inr later ↦ rw later (Perm.trans (Perm.cons y (insert_sorted-perm x ys)) (Perm.swap x y ys))
  ]

  -- Sorting rearranges.
  pub sort-perm : (xs : List A) → Perm (sort xs) xs
  unfolding sort
  sort-perm [] = Perm.rfl
  sort-perm (x ∷ xs) = Perm.trans (insert_sorted-perm x (sort xs)) (Perm.cons x (sort-perm xs))

  length-insert_sorted : (x : A) (xs : List A) → length (insert_sorted x xs) ≡ suc (length xs)
  unfolding insert_sorted
  length-insert_sorted x [] = refl
  length-insert_sorted x (y ∷ ys) = ground (arith, length-insert_sorted x ys)

  pub length-sort : (xs : List A) → length (sort xs) ≡ length xs
  unfolding sort
  length-sort [] = refl
  length-sort (x ∷ xs) = length-insert_sorted x (sort xs) ∙ ap suc (length-sort xs)

module _ {ℓ} {A : Type ℓ} (le : A → A → Bool) (total : (a b : A) → le a b ≡ false → le b a ≡ true)
    (trans : (a b c : A) → le a b ≡ true → le b c ≡ true → le a c ≡ true) where
  below-All :
      (x y : A) (ys : List A)
      → le x y ≡ true
      → All (λ z. le y z ≡ true) ys
      → All (λ z. le x z ≡ true) ys
  below-All x y [] h t = tt
  below-All x y (z ∷ zs) h t = (trans x y z h t.0, below-All x y zs h t.1)

  insert_sorted-IsSorted :
      (x : A) (xs : List A) → IsSorted le xs → IsSorted le (insert_sorted le x xs)
  unfolding insert_sorted
  insert_sorted-IsSorted x [] s = (tt, tt)
  insert_sorted-IsSorted x (y ∷ ys) s = elim (Bool-cases (le x y)) [
    | inl first ↦ rw first ((first, below-All x y ys first s.0), s)
    | inr later ↦ rw later (
      All-perm (le y) (Perm.symm (insert_sorted-perm le x ys)) (total x y later, s.0),
      insert_sorted-IsSorted x ys s.1,
    )
  ]

  -- Sorting sorts.
  pub sort-IsSorted : (xs : List A) → IsSorted le (sort le xs)
  unfolding sort
  sort-IsSorted [] = tt
  sort-IsSorted (x ∷ xs) = insert_sorted-IsSorted x (sort le xs) (sort-IsSorted xs)

module _ {ℓ} {A : Type ℓ} (le : A → A → Bool) (total : (a b : A) → le a b ≡ false → le b a ≡ true)
    (antisymm : (a b : A) → le a b ≡ true → le b a ≡ true → a ≡ b) where
  le_refl : (a : A) → le a a ≡ true
  le_refl a = elim (Bool-cases (le a a)) [ inl e ↦ e | inr e ↦ total a a e ]

  -- Two ascending lists with the same elements are one list.
  pub IsSorted-unique : (xs ys : List A) → IsSorted le xs → IsSorted le ys → Perm xs ys → xs ≡ ys
  IsSorted-unique [] ys s t e = Perm.nil-eq e
  IsSorted-unique (x ∷ xs) [] s t e = Perm.eq-nil e
  IsSorted-unique (x ∷ xs) (y ∷ ys) s t e =
      let low : le x y ≡ true =
        All-mem (le x) (x ∷ xs) (le_refl x, s.0) ((Perm.mem_iff e).1 mem-cons_self) in
      let high : le y x ≡ true =
        All-mem (le y) (y ∷ ys) (le_refl y, t.0) ((Perm.mem_iff e).0 mem-cons_self) in
      let heads : x ≡ y = antisymm x y low high in
      let tails : Perm xs ys =
        Perm.cons_inv (Perm.trans e (Perm.symm (Perm.cons' heads Perm.rfl))) in
      ap₂ ◌∷◌ heads (IsSorted-unique xs ys s.1 t.1 tails)
