-- ===== src/Tests/Codecs.antt =====
-- A JSON library that knows one value.
use native.Mathlib.Decide.{ℕ_discrete}
use llm_inference_operator.Base.{
  ◌≡◌, ◌≢◌, arith, text_eq_iff, Bool-cases, inl, inr, refl, sym, ap, ◌∙◌, String, true, false,
  if◌then◌else◌, text_eq,
}
use llm_inference_operator.Kube.{Outcome, ok, err, panic}
use llm_inference_operator.Json.{Json, Codec, IsCodec}

String-discrete : Discrete String
String-discrete s t = elim (Bool-cases (text_eq s t)) [
  | inl e ↦ yes ((text_eq_iff s t).0 e)
  | inr e ↦ no (λ same. ground (arith, text_eq_iff s t))
]

pub Json-discrete : Discrete Json
Json-discrete = hlevel (ℕ_discrete, String-discrete)

abbrev pub print_one : {j k : Json} → Dec (k ≡ j) → Outcome String
print_one (yes _) = ok "the document"
print_one (no _) = err (record { is_not_found = false; message = "json" })

-- A JSON library that knows one value, under one text.
abbrev pub codec_of : Json → Codec
codec_of j = record {
  print = λ k. print_one (Json-discrete k j);
  parse = λ t.
      if text_eq t "the document"
      then ok j
      else err (record { is_not_found = false; message = "json" });
  type_error = record { is_not_found = false; message = "json" };
}

text_of : (t : String) → ◌≡◌ {A = Outcome String} (ok "the document") (ok t) → t ≡ "the document"
text_of t h = cc

true_ne_false : false ≢ true
true_ne_false e = cc

pub codec_of-IsCodec : (j : Json) → IsCodec (codec_of j)
codec_of-IsCodec j = record {
  print-ne_empty = λ k t. not_empty (Json-discrete k j) t;
  parse-print = λ k t. read_back (Json-discrete k j) t;
}
  where
    not_empty : {k : Json} (d : Dec (k ≡ j)) (t : String) → print_one d ≡ ok t → t ≢ ""
    not_empty (yes e) t h empty =
        true_ne_false ((text_eq_iff "the document" "").1 (sym (text_of t h) ∙ empty))
    not_empty (no _) t h empty = cc

    read_back :
        {k : Json} (d : Dec (k ≡ j)) (t : String) → print_one d ≡ ok t → (codec_of j).parse t ≡ ok k
    read_back (yes e) t h = rw (text_of t h) (ap ok (sym e))
    read_back (no _) t h = cc

print_one-ne_panic : {j k : Json} (d : Dec (k ≡ j)) → print_one d ≢ panic
print_one-ne_panic (yes _) e = cc
print_one-ne_panic (no _) e = cc

pub codec_of-ne_panic : (j k : Json) → (codec_of j).print k ≢ panic
codec_of-ne_panic j k = print_one-ne_panic (Json-discrete k j)

pub parse-ne_panic : (j : Json) (t : String) → (codec_of j).parse t ≢ panic
parse-ne_panic j t = elim (Bool-cases (text_eq t "the document")) [
  | inl e ↦ rw e (λ q. cc)
  | inr e ↦ rw e (λ q. cc)
]

print_one-same : {j : Json} (d : Dec (j ≡ j)) → print_one d ≡ ok "the document"
print_one-same (yes _) = refl
print_one-same (no h) = absurd (h refl)

pub codec_of-print : (j : Json) → (codec_of j).print j ≡ ok "the document"
codec_of-print j = print_one-same (Json-discrete j j)

pub apart : (s t : String) → text_eq s t ≡ false → s ≢ t
apart s t h e = true_ne_false (sym h ∙ (text_eq_iff s t).1 e)
