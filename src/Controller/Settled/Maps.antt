-- ===== src/Controller/Settled/Maps.antt =====
-- Writes to a map that change nothing the second time.
use llm_inference_operator.Base.{
  String, [], ◌∷◌, some, ◌≡◌, refl, ap, ◌∙◌, text_eq, text_eq_refl, Option-cases, Bool-cases, inl,
  inr,
}
use llm_inference_operator.Base.Dict.{Dict, lookup, insert, lookup-insert}
use llm_inference_operator.Controller.Children.{insert_missing}

pub insert-insert :
    {V : Type 0} (k : String) (v : V) (m : Dict V) → insert k v (insert k v m) ≡ insert k v m
unfolding insert
insert-insert k v [] = rw (text_eq_refl k) refl
insert-insert k v ((j, w) ∷ m) = elim (Bool-cases (text_eq j k)) [
  | inl on ↦ rw (on, text_eq_refl k) refl
  | inr off ↦ rw (off, off, insert-insert k v m) refl
]

abbrev IsPresent : String → Dict String → Type 0
IsPresent k m = (v : String) × (lookup k m ≡ some v)

insert_missing_present : (k v : String) (m : Dict String) → IsPresent k m → insert_missing k v m ≡ m
unfolding insert_missing
insert_missing_present k v m (w, found) = rw (found, insert_missing) refl

IsPresent-insert_missing_same :
    (k v : String) (m : Dict String) → IsPresent k (insert_missing k v m)
unfolding insert_missing
IsPresent-insert_missing_same k v m = elim (Option-cases (lookup k m)) [
  | inl missing ↦ rw (missing, insert_missing) (v, lookup-insert k k v m ∙ rw (text_eq_refl k) refl)
  | inr (w, found) ↦ rw (found, insert_missing) (w, found)
]

IsPresent-insert_missing :
    (j k v : String) (m : Dict String) → IsPresent j m → IsPresent j (insert_missing k v m)
unfolding insert_missing
IsPresent-insert_missing j k v m (w, found) = elim (Option-cases (lookup k m)) [
  | inl missing ↦
      rw (missing, insert_missing)
        (elim (Bool-cases (text_eq k j)) [
          | inl on ↦ (v, lookup-insert k j v m ∙ rw on refl)
          | inr off ↦ (w, lookup-insert k j v m ∙ rw off found)
        ])
  | inr (u, there) ↦ rw (there, insert_missing) (w, found)
]

pub insert_missing_again :
    (m : Dict String)
    → let filled =
        insert_missing "memPressure" "0"
          (insert_missing "tokensPerSecond" "0" (insert_missing "queueDepth" "0" m)) in
      insert_missing "memPressure" "0"
        (insert_missing "tokensPerSecond" "0" (insert_missing "queueDepth" "0" filled))
      ≡ filled
insert_missing_again m =
    let one = insert_missing "queueDepth" "0" m in
    let two = insert_missing "tokensPerSecond" "0" one in
    let three = insert_missing "memPressure" "0" two in
    let depth = IsPresent-insert_missing "queueDepth" "memPressure" "0" two (
      IsPresent-insert_missing "queueDepth" "tokensPerSecond" "0" one
        (IsPresent-insert_missing_same "queueDepth" "0" m)) in
    let rate =
      IsPresent-insert_missing "tokensPerSecond" "memPressure" "0" two
        (IsPresent-insert_missing_same "tokensPerSecond" "0" one) in
    let pressure = IsPresent-insert_missing_same "memPressure" "0" two in
    ap
      (λ (x : Dict String).
        insert_missing "memPressure" "0" (insert_missing "tokensPerSecond" "0" x))
      (insert_missing_present "queueDepth" "0" three depth)
    ∙ ap (insert_missing "memPressure" "0")
        (insert_missing_present "tokensPerSecond" "0" three rate)
    ∙ insert_missing_present "memPressure" "0" three pressure
