-- ===== src/DeepCopy/Pointers.antt =====
-- The copy of what a pointer, a slice or a map leads to.
use llm_inference_operator.Base.{
  ◌≡◌, ◌≢◌, refl, sym, ap, ◌∙◌, ℕ, ◌<◌, Option, none, some, if◌then◌else◌, ltb, arith, Bool-cases,
  inl, inr, false,
}
use llm_inference_operator.DeepCopy.Heap.{
  Pointer, Heap, CellType, and_also, Copy, Read, load, reserve, write, fill, new_copy, some_of,
  read_pointed, Holds, IsCopied, IsCopy,
}
use mathlib.Core.Path.{subst}
use llm_inference_operator.DeepCopy.Copies.{Holds-keeps}

some_of-eq_some :
    {B : Type 0} (x : Option B) (c : Option B)
    → some_of x ≡ some c
    → (b : B) × (x ≡ some b) × (c ≡ some b)
some_of-eq_some none c h = cc
some_of-eq_some (some b) c h = (b, refl, cc)

some_of_same :
    {B : Type 0} (x : Option B) (c : Option B) (b : B)
    → c ≡ some b
    → some_of x ≡ some c
    → x ≡ some b
some_of_same none c b e h = cc
some_of_same (some d) c b e h = cc

and_also-eq_some :
    {A B : Type 0} (x : Option A) (f : A → Option B) (b : B)
    → and_also x f ≡ some b
    → (a : A) × (x ≡ some a) × (f a ≡ some b)
and_also-eq_some none f b h = cc
and_also-eq_some (some a) f b h = (a, refl, h)

module _ {V : Type 0} where
  -- A pointer that reads as a value points to an allocated cell.
  read_pointed-bounds :
      {A B : Type 0} (T : CellType V A) (read : Read V A B) (p : ℕ) (c : Option B) (h : Heap V)
      → Holds 0 h.next h (read_pointed T read (some p)) c
      → p < h.next
  unfolding read_pointed
  read_pointed-bounds T read p c h holds = elim (Bool-cases (ltb p h.next)) [
    | inl below ↦ ground arith
    | inr above ↦ absurd (beyond above (holds cut (λ q lo hi. ground arith)))
  ]
    where
      cut : Heap V
      cut = record h { cell = λ q. if ltb q h.next then h.cell q else none }

      beyond :
          ltb p h.next ≡ false
          → some_of (
              and_also (and_also (if ltb p h.next then h.cell p else none) T.get) (λ a. read a cut))
            ≢ some c
      beyond above e = let absurdity : none ≡ some c = rw above at e in cc

  -- The copy of what the pointer points to, in the cell that was reserved for it.
  write-IsCopied :
      {A B : Type 0} (T : CellType V A) (read : Read V A B) (b : B) (h : Heap V) (a : A)
      (t : Heap V)
      → IsCopied read b (reserve h) (a, t)
      → IsCopied (read_pointed T read) (some b) h (some h.next, write T h.next a t)
  unfolding read_pointed
  write-IsCopied T read b h a t one =
      let x = one.grows in
      record {
        grows = omega arith;
        keeps = λ p lo hi. ground (arith, one.keeps p lo (omega arith));
        holds = λ k agree.
            let here : k.cell h.next ≡ some (T.put a) =
              ground (arith, agree h.next (omega arith) (omega arith)) in
            let below = one.holds k (λ p lo hi. ground (arith, agree p (omega arith) hi)) in
            rw (here, T.get_put a, below) refl;
      }

  -- What follows a pointer.
  pub new-IsCopy :
      {A B : Type 0} (T : CellType V A) {read : Read V A B} {copy : Copy V A}
      → IsCopy read copy
      → IsCopy (read_pointed T read) (new_copy T copy)
  unfolding read_pointed new_copy
  new-IsCopy {A} {B} T {read} {copy} element = record { copied = go }
    where
      go :
          (x : Pointer) (c : Option B) (h : Heap V)
          → Holds 0 h.next h (read_pointed T read x) c
          → IsCopied (read_pointed T read) c h (new_copy T copy x h)
      go none c h holds = record {
        grows = omega arith;
        keeps = λ p lo hi. refl;
        holds = λ k agree. holds h (λ p lo hi. refl);
      }
      go (some p) c h holds =
          let below = read_pointed-bounds T read p c h holds in
          let (b, pointed, stands) = some_of-eq_some _ c (holds h (λ q lo hi. refl)) in
          let (a, loaded, _) = and_also-eq_some (load T p h) (λ a. read a h) b pointed in
          let before =
            Holds-keeps h (reserve h) (read a) b (omega arith) (λ q lo hi. refl)
              (λ k agree.
                let same : load T p k ≡ some a =
                  ap (λ x. and_also x T.get) (agree p (omega arith) below) ∙ loaded in
                let again = some_of_same _ c b stands (holds k agree) in
                let there : and_also (some a) (λ a. read a k) ≡ some b = rw same at again in
                there) in
          let one = element.copied a b (reserve h) before in
          let (a', t) = copy a (reserve h) in
          let written = write-IsCopied T read b h a' t one in
          let at_cell =
            subst
              (λ (x : Option A).
                IsCopied (read_pointed T read) (some b) h
                  (some h.next, fill T h.next copy x (reserve h)))
              (sym loaded) written in
          subst
            (λ (x : Option B).
              IsCopied (read_pointed T read) x h
                (some h.next, fill T h.next copy (load T p h) (reserve h)))
            (sym stands) at_cell
