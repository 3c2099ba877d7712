-- ===== src/DeepCopy/Maps.antt =====
-- The copy of a map, entry by entry.
use mathlib.Core.List.{append-nil}
use llm_inference_operator.Base.{
  ◌≡◌, refl, sym, ap, ◌∙◌, String, [], ◌∷◌, ◌++◌, Bool, true, false, if◌then◌else◌, text_eq,
  text_eq_iff, arith, All,
}
use llm_inference_operator.Base.Dict.{Dict, insert, copy_into}

module _ {V : Type 0} where
  absent : String → Dict V → Bool
  absent k [] = true
  absent k ((j, v) ∷ m) = if text_eq j k then false else absent k m

  -- Each key stands once.
  unfoldable pub distinct : Dict V → Bool
  unfolding absent
  distinct [] = true
  distinct ((k, v) ∷ m) = if absent k m then distinct m else false

  insert-absent :
      (k : String) (v : V) (m : Dict V) → absent k m ≡ true → insert k v m ≡ m ++ ((k, v) ∷ [])
  unfolding insert absent
  insert-absent k v [] h = refl
  insert-absent k v ((j, w) ∷ m) h = ground (arith, insert-absent k v m)

  absent-append :
      (k j : String) (v : V) (m : Dict V)
      → absent k m ≡ true
      → text_eq j k ≡ false
      → absent k (m ++ ((j, v) ∷ [])) ≡ true
  unfolding absent
  absent-append k j v [] h e = rw e refl
  absent-append k j v ((i, w) ∷ m) h e = ground (arith, absent-append k j v m)

  abbrev Apart : Dict V → Dict V → Type 0
  Apart m out = All (λ (e : String × V). absent e.0 out ≡ true) m

  Apart-append :
      (k : String) (v : V) (m out : Dict V)
      → absent k m ≡ true
      → Apart m out
      → Apart m (out ++ ((k, v) ∷ []))
  unfolding absent
  Apart-append k v [] out h apart = apart
  Apart-append k v ((j, w) ∷ m) out h (here, later) = (
    absent-append j k v out here (ground (arith, text_eq_iff k j, text_eq_iff j k)),
    Apart-append k v m out (ground arith) later,
  )

  append_cons : (m : Dict V) (e : String × V) (n : Dict V) → (m ++ (e ∷ [])) ++ n ≡ m ++ (e ∷ n)
  append_cons [] e n = refl
  append_cons (d ∷ m) e n = ap (◌∷◌ d) (append_cons m e n)

  copy_into-append : (m out : Dict V) → distinct m ≡ true → Apart m out → copy_into m out ≡ out ++ m
  unfolding copy_into distinct
  copy_into-append [] out h apart = sym (append-nil out)
  copy_into-append ((k, v) ∷ m) out h (here, later) =
      let fresh : absent k m ≡ true = ground arith in
      let rest : distinct m ≡ true = ground arith in
      rw (insert-absent k v out here) (
        copy_into-append m (out ++ ((k, v) ∷ [])) rest (Apart-append k v m out fresh later)
        ∙ append_cons out (k, v) m)

  -- `for key, val := range in { out[key] = val }` into a map that is empty.
  pub copy_into-distinct : (m : Dict V) → distinct m ≡ true → copy_into m [] ≡ m
  unfolding absent
  copy_into-distinct m h = copy_into-append m [] h (apart m)
    where
      apart : (m : Dict V) → Apart m []
      apart [] = tt
      apart (e ∷ m) = (refl, apart m)
