-- ===== src/DeepCopy/Copies.antt =====
-- Copies are put together from copies.
use llm_inference_operator.Base.{
  ◌≡◌, ◌≢◌, refl, sym, ap, ◌∙◌, ◌≤◌, List, [], ◌∷◌, Option, none, some, arith,
}
use llm_inference_operator.DeepCopy.Heap.{
  Heap, pure, ◌>>=◌, Copy, Read, each_copy, both, cons_of, read_each, Agree, Holds, IsCopied,
  IsCopy,
}
use mathlib.Core.Option

both-eq_some :
    {A B : Type 0} (x : Option A) (y : Option B) (a : A) (b : B)
    → both x y ≡ some (a, b)
    → (x ≡ some a) × (y ≡ some b)
both-eq_some none y a b h = cc
both-eq_some (some c) none a b h = cc
both-eq_some (some c) (some d) a b h = (cc, cc)

cons_of-eq_some :
    {B : Type 0} (x : Option B) (y : Option (List B)) (b : B) (bs : List B)
    → cons_of x y ≡ some (b ∷ bs)
    → (x ≡ some b) × (y ≡ some bs)
cons_of-eq_some none y b bs h = cc
cons_of-eq_some (some c) none b bs h = cc
cons_of-eq_some (some c) (some cs) b bs h = (cc, cc)

cons_of-ne_nil : {B : Type 0} (x : Option B) (y : Option (List B)) → cons_of x y ≢ some []
cons_of-ne_nil none y h = cc
cons_of-ne_nil (some c) none h = cc
cons_of-ne_nil (some c) (some cs) h = cc

module _ {V : Type 0} where
  -- A value without pointers.
  pub pure-IsCopy : {A B : Type 0} (f : A → B) → IsCopy {V = V} (λ a h. some (f a)) pure
  pure-IsCopy f = record {
    copied = λ a b h holds. record {
      grows = omega arith;
      keeps = λ p lo hi. refl;
      holds = λ k agree. holds h (λ p lo hi. refl);
    };
  }

  -- What an allocation left alone still reads the same.
  pub Holds-keeps :
      {B : Type 0} (h t : Heap V) (read : Heap V → Option B) (b : B)
      → h.next ≤ t.next
      → Agree 0 h.next h t
      → Holds 0 h.next h read b
      → Holds 0 t.next t read b
  Holds-keeps h t read b grows keeps holds k agree =
      holds k (λ p lo hi. agree p lo (omega arith) ∙ keeps p lo hi)

  -- Two copies, one after the other.
  module _ {A B C D : Type 0} (read : Read V A B) (b : B) (read' : Read V C D) (d : D) (h : Heap V)
      (a' : A) (t : Heap V) (c' : C) (u : Heap V) (one : IsCopied read b h (a', t))
      (two : IsCopied read' d t (c', u)) where
    then_grows : h.next ≤ u.next
    then_grows = let x = one.grows in let y = two.grows in omega arith

    then_keeps : Agree 0 h.next h u
    then_keeps p lo hi = let x = one.grows in two.keeps p lo (omega arith) ∙ one.keeps p lo hi

    then_holds :
        (k : Heap V) → Agree h.next u.next u k → (read a' k ≡ some b) × (read' c' k ≡ some d)
    then_holds k agree =
        let x = one.grows in
        let y = two.grows in
        (
          one.holds k (λ p lo hi. agree p lo (omega arith) ∙ two.keeps p (omega arith) hi),
          two.holds k (λ p lo hi. agree p (omega arith) hi),
        )

  -- Two parts of a struct.
  pub pair-IsCopy :
      {A B C D : Type 0} {read : Read V A B} {copy : Copy V A} {read' : Read V C D}
      {copy' : Copy V C}
      → IsCopy read copy
      → IsCopy read' copy'
      → IsCopy {A = A × C} {B = B × D}
          (λ (a, c) h. both (read a h) (read' c h))
          (λ (a, c). copy a >>= λ a'. copy' c >>= λ c'. pure (a', c'))
  pair-IsCopy {read} {copy} {read'} {copy'} first second = record {
    copied = λ (a, c) (b, d) h holds.
        let (a', t) = copy a h in
        let one = first.copied a b h (λ k agree. (both-eq_some _ _ b d (holds k agree)).0) in
        let before =
          Holds-keeps h t (read' c) d one.grows one.keeps
            (λ k agree. (both-eq_some _ _ b d (holds k agree)).1) in
        let two = second.copied c d t before in
        let (c', u) = copy' c t in
        record {
          grows = then_grows read b read' d h a' t c' u one two;
          keeps = then_keeps read b read' d h a' t c' u one two;
          holds = λ k agree.
              let (e, f) = then_holds read b read' d h a' t c' u one two k agree in rw (e, f) refl;
        };
  }

  -- A struct: `parts` are the fields with pointers, `with_parts` writes them into a flat copy, and
  -- `view` makes what the struct stands for from what the parts stand for.
  pub struct-IsCopy :
      {S A B C : Type 0} {read : Read V A B} {copy : Copy V A} (parts : S → A)
      (with_parts : S → A → S) (view : S → B → C) (unview : C → B)
      → IsCopy read copy
      → ((s : S) (a : A) → parts (with_parts s a) ≡ a)
      → ((s : S) (a : A) (b : B) → view (with_parts s a) b ≡ view s b)
      → ((s : S) (b : B) → unview (view s b) ≡ b)
      → IsCopy {A = S} {B = C}
          (λ s h. Option.map (view s) (read (parts s) h))
          (λ s. copy (parts s) >>= λ a. pure (with_parts s a))
  unfolding Option.map
  struct-IsCopy {S} {A} {B} {C} {read} {copy} parts with_parts view unview part parts_lem view_lem
        unview_lem =
      record {
        copied = λ s c h holds.
            let (a', t) = copy (parts s) h in
            let one =
              part.copied (parts s) (unview c) h
                (λ k agree. (viewed s c (read (parts s) k) (holds k agree)).0) in
            let same : view s (unview c) ≡ c =
              (viewed s c (read (parts s) h) (holds h (λ p lo hi. refl))).1 in
            record {
              grows = one.grows;
              keeps = one.keeps;
              holds = λ k agree.
                  rw (parts_lem s a', one.holds k agree)
                    (ap some (view_lem s a' (unview c) ∙ same));
            };
      }
    where
      viewed :
          (s : S) (c : C) (x : Option B)
          → Option.map (view s) x ≡ some c
          → (x ≡ some (unview c)) × (view s (unview c) ≡ c)
      viewed s c none e = cc
      viewed s c (some b) e =
          let here : view s b ≡ c = cc in
          let back = sym (unview_lem s b) ∙ ap unview here in
          (ap some back, sym (ap (view s) back) ∙ here)

  -- All elements, one after the other.
  pub each-IsCopy :
      {A B : Type 0} {read : Read V A B} {copy : Copy V A}
      → IsCopy read copy
      → IsCopy (read_each read) (each_copy copy)
  unfolding read_each each_copy
  each-IsCopy {A} {B} {read} {copy} element = record { copied = go }
    where
      go :
          (xs : List A) (c : List B) (h : Heap V)
          → Holds 0 h.next h (read_each read xs) c
          → IsCopied (read_each read) c h (each_copy copy xs h)
      go [] c h holds = record {
        grows = omega arith;
        keeps = λ p lo hi. refl;
        holds = λ k agree. holds h (λ p lo hi. refl);
      }
      go (x ∷ xs) [] h holds =
          absurd (cons_of-ne_nil (read x h) (read_each read xs h) (holds h (λ p lo hi. refl)))
      go (x ∷ xs) (b ∷ bs) h holds =
          let (x', t) = copy x h in
          let one =
            element.copied x b h (λ k agree. (cons_of-eq_some _ _ b bs (holds k agree)).0) in
          let before =
            Holds-keeps h t (read_each read xs) bs one.grows one.keeps
              (λ k agree. (cons_of-eq_some _ _ b bs (holds k agree)).1) in
          let two = go xs bs t before in
          let (xs', u) = each_copy copy xs t in
          record {
            grows = then_grows read b (read_each read) bs h x' t xs' u one two;
            keeps = then_keeps read b (read_each read) bs h x' t xs' u one two;
            holds = λ k agree.
                let (e, f) = then_holds read b (read_each read) bs h x' t xs' u one two k agree in
                rw (e, f) refl;
          }
