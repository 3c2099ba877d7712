-- ===== src/Flags/Keeps.antt =====
-- What no argument can change: a property of the options that all flags keep but the guarded ones.
use llm_inference_operator.Base.{
  ◌≡◌, refl, ap, ◌∙◌, String, Bool, true, false, List, [], ◌∷◌, Option, none, some, ◌||◌, text_eq,
  text_eq_iff, if◌then◌else◌, All, Bool-cases, inl, inr,
}
use llm_inference_operator.Flags.{
  Flag, Exit, go_on, exit, Token, plain, terminator, malformed, named, classify, find_flag, proceed,
  undefined, with_flag, on_flag, on_token, parse_from, parse_flags,
}
use mathlib.Core.Path.{subst}

-- The argument is a flag with a guarded name.
abbrev pub mentions : (String → Bool) → Token → Bool
mentions guarded (named name value) = guarded name
mentions guarded _ = false

module _ {O : Type 0} (Inv : O → Type 0) where
  -- Whatever value the flag is given, the property still holds.
  pub record IsKept (f : Flag O) : Type 0 where
    pub kept : (v : String) (o p : O) → Inv o → f.set v o ≡ some p → Inv p

  module _ (guarded : String → Bool) (flags : List (Flag O)) (p : O) where
    find_flag-IsKept :
        (name : String) (fs : List (Flag O)) (f : Flag O)
        → All (λ f. guarded f.name ≡ false → IsKept f) fs
        → guarded name ≡ false
        → find_flag name fs ≡ some f
        → IsKept f
    find_flag-IsKept name [] f safe free e = cc
    find_flag-IsKept name (g ∷ gs) f (here, later) free e =
        elim (Bool-cases (text_eq g.name name)) [
          | inl on ↦
              let same = (text_eq_iff g.name name).0 on in
              let found : some g ≡ some f = rw on at e in
              let same_flag : g ≡ f = cc in subst IsKept same_flag (here (ap guarded same ∙ free))
          | inr off ↦
              let found : find_flag name gs ≡ some f = rw off at e in
              find_flag-IsKept name gs f later free found
        ]

    -- The rest of the arguments keeps the property.
    abbrev Keeps : (O → Exit O) → Type 0
    Keeps rest = (o : O) → Inv o → rest o ≡ go_on p → Inv p

    proceed-Keeps :
        (f : Flag O) (v : String) (o : O) (rest : O → Exit O)
        → IsKept f
        → Inv o
        → Keeps rest
        → proceed (f.set v o) rest ≡ go_on p
        → Inv p
    proceed-Keeps f v o rest safe inv next h = go (f.set v o) refl h
      where
        go : (x : Option O) → f.set v o ≡ x → proceed x rest ≡ go_on p → Inv p
        go none e h = cc
        go (some q) e h = next q (safe.kept v o q inv e) h

    with_flag-Keeps :
        (f : Flag O) (value : Option String) (o : O) (rest : O → Exit O) (wait : Exit O)
        → IsKept f
        → Inv o
        → Keeps rest
        → (wait ≡ go_on p → Inv p)
        → with_flag f value o rest wait ≡ go_on p
        → Inv p
    with_flag-Keeps f (some v) o rest wait safe inv next waiting h =
        proceed-Keeps f v o rest safe inv next h
    with_flag-Keeps f none o rest wait safe inv next waiting h = elim (Bool-cases f.is_bool) [
      | inl on ↦
          let here : proceed (f.set "true" o) rest ≡ go_on p = rw on at h in
          proceed-Keeps f "true" o rest safe inv next here
      | inr off ↦ let here : wait ≡ go_on p = rw off at h in waiting here
    ]

    undefined-ne_go_on : (name : String) → undefined name ≡ go_on p → Inv p
    undefined-ne_go_on name h = go (text_eq name "help" || text_eq name "h") h
      where
        go : (b : Bool) → ◌≡◌ {A = Exit O} (if b then exit 0 else exit 2) (go_on p) → Inv p
        go true h = cc
        go false h = cc

    on_token-Keeps :
        (t : Token) (o : O) (rest : O → Exit O) (wait : Flag O → Exit O)
        → All (λ f. guarded f.name ≡ false → IsKept f) flags
        → mentions guarded t ≡ false
        → Inv o
        → Keeps rest
        → ((f : Flag O) → IsKept f → wait f ≡ go_on p → Inv p)
        → on_token flags t o rest wait ≡ go_on p
        → Inv p
    on_token-Keeps plain o rest wait safe free inv next waiting h =
        let same : o ≡ p = cc in subst Inv same inv
    on_token-Keeps terminator o rest wait safe free inv next waiting h =
        let same : o ≡ p = cc in subst Inv same inv
    on_token-Keeps malformed o rest wait safe free inv next waiting h = cc
    on_token-Keeps (named name value) o rest wait safe free inv next waiting h =
        go (find_flag name flags) refl h
      where
        go :
            (x : Option (Flag O))
            → find_flag name flags ≡ x
            → on_flag name x value o rest wait ≡ go_on p
            → Inv p
        go none e h = undefined-ne_go_on name h
        go (some f) e h =
            let kept = find_flag-IsKept name flags f safe free e in
            with_flag-Keeps f value o rest (wait f) kept inv next (waiting f kept) h

    abbrev Pending : Option (Flag O) → Type 0
    Pending none = Unit
    Pending (some f) = IsKept f

    parse_from-Keeps :
        (pending : Option (Flag O)) (args : List String)
        → All (λ f. guarded f.name ≡ false → IsKept f) flags
        → All (λ s. mentions guarded (classify s) ≡ false) args
        → Pending pending
        → Keeps (parse_from flags pending args)
    unfolding parse_from
    parse_from-Keeps none [] safe free wait o inv h = let same : o ≡ p = cc in subst Inv same inv
    parse_from-Keeps (some f) [] safe free wait o inv h = cc
    parse_from-Keeps (some f) (v ∷ args) safe (_, free) kept o inv h =
        proceed-Keeps f v o (parse_from flags none args) kept inv
          (parse_from-Keeps none args safe free tt) h
    parse_from-Keeps none (s ∷ args) safe (here, free) wait o inv h =
        on_token-Keeps (classify s) o (parse_from flags none args)
          (λ f. parse_from flags (some f) args o) safe here inv
          (parse_from-Keeps none args safe free tt)
          (λ f kept e. parse_from-Keeps (some f) args safe free kept o inv e) h

    -- Without a guarded flag among the arguments, the property survives the parsing of the flags.
    pub parse_flags-keeps :
        (args : List String) (o : O)
        → All (λ f. guarded f.name ≡ false → IsKept f) flags
        → All (λ s. mentions guarded (classify s) ≡ false) args
        → Inv o
        → parse_flags flags args o ≡ go_on p
        → Inv p
    unfolding parse_flags
    parse_flags-keeps args o safe free inv h = parse_from-Keeps none args safe free tt o inv h
